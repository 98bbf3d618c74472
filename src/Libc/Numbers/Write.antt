-- ===== src/Libc/Numbers/Write.antt =====
-- What the first loop of ulltoa of libc/stdlib leaves in memory.
use mathlib.Core.Path.{subst}
use keon_os.Base.{
  ℕ, zero, suc, ◌+◌, ◌-◌, ◌/◌, ◌%◌, ◌≤◌, ◌<◌, ◌≡◌, inl, inr, refl, sym, ap, ◌∙◌, true, false, ◌&&◌,
  some, List, [], ◌∷◌, length, get_or, ltb, leb, ◌==◌, if◌then◌else◌, Bool-cases, arith,
}
use keon_os.Libc.{Memory}
use keon_os.Libc.Numbers.Print.{put, digit_char, write_digits}
use keon_os.Libc.Numbers.Digits.{lows, power, half}

-- The digits stand at `p`, the first of the list first, and all else is as in `m`.
abbrev pub Placed : List ℕ → ℕ → Memory → Memory → Type 0
Placed ds p m m' =
    (a : ℕ)
    → m' a ≡ (if leb p a && ltb a (p + length ds) then digit_char (get_or ds (a - p) 0) else m a)

Placed-nil : (p : ℕ) (m : Memory) → Placed [] p m m
Placed-nil p m a = let empty : (leb p a && ltb a (p + 0)) ≡ false = ground arith in rw empty refl

Placed-cons :
    (d : ℕ) (ds : List ℕ) (p : ℕ) (m m' : Memory)
    → Placed ds (p + 1) (put p (digit_char d) m) m'
    → Placed (d ∷ ds) p m m'
Placed-cons d ds p m m' h a = h a ∙ elim (Bool-cases (leb (p + 1) a && ltb a (p + 1 + length ds))) [
  | inl later ↦
      let also : (leb p a && ltb a (p + suc (length ds))) ≡ true = ground (arith, later) in
      let place : a - p ≡ suc (a - (p + 1)) = ground (arith, later) in rw (later, also, place) refl
  | inr out ↦ elim (Bool-cases (a == p)) [
    | inl at ↦
        let also : (leb p a && ltb a (p + suc (length ds))) ≡ true = ground (arith, at) in
        let place : a - p ≡ 0 = ground (arith, at) in rw (out, at, also, place) refl
    | inr apart ↦
        let not_also : (leb p a && ltb a (p + suc (length ds))) ≡ false =
          ground (arith, out, apart) in
        rw (out, apart, not_also) refl
  ]
]

-- What the first loop leaves.
abbrev pub Wrote : ℕ → ℕ → ℕ → ℕ → Memory → List ℕ → Type 0
Wrote fuel v base p m ds =
    (m' : Memory) × (write_digits fuel v base p m ≡ some (m', p + length ds)) × Placed ds p m m'

last :
    (fuel base v p : ℕ) (m : Memory)
    → (v / base == 0) ≡ true
    → Wrote (suc fuel) v base p m (v % base ∷ [])
unfolding write_digits
last fuel base v p m end =
    let m' = put p (digit_char (v % base)) m in
    (m', rw end refl, Placed-cons (v % base) [] p m m' (Placed-nil (p + 1) m'))

more_digits :
    (fuel base v p : ℕ) (m : Memory)
    → (v / base == 0) ≡ false
    → write_digits (suc fuel) v base p m
      ≡ write_digits fuel (v / base) base (p + 1) (put p (digit_char (v % base)) m)
unfolding write_digits
more_digits fuel base v p m more = rw more refl

lows-last : (fuel base v : ℕ) → (v / base == 0) ≡ true → lows (suc fuel) base v ≡ v % base ∷ []
lows-last fuel base v end = rw end refl

lows-more :
    (fuel base v : ℕ)
    → (v / base == 0) ≡ false
    → lows (suc fuel) base v ≡ v % base ∷ lows fuel base (v / base)
lows-more fuel base v more = rw more refl

pub write_digits_lem :
    (fuel base v p : ℕ) (m : Memory)
    → 2 ≤ base
    → v < power (suc fuel)
    → Wrote (suc fuel) v base p m (lows (suc fuel) base v)
write_digits_lem zero base v p m two l =
    let end : (v / base == 0) ≡ true = ground (arith, half v base 1 two (omega (arith, l))) in
    subst (Wrote 1 v base p m) (sym (lows-last zero base v end)) (last zero base v p m end)
write_digits_lem (suc n) base v p m two l = elim (Bool-cases (v / base == 0)) [
  | inl end ↦
      subst (Wrote (suc (suc n)) v base p m) (sym (lows-last (suc n) base v end))
        (last (suc n) base v p m end)
  | inr more ↦
      let (m', e, h) =
        write_digits_lem n base (v / base) (p + 1) (put p (digit_char (v % base)) m) two
          (half v base (power (suc n)) two l) in
      let ds = lows (suc n) base (v / base) in
      subst (Wrote (suc (suc n)) v base p m) (sym (lows-more (suc n) base v more)) (
        m',
        more_digits (suc n) base v p m more ∙ e ∙ ap (λ q. some (m', q)) (omega arith),
        Placed-cons (v % base) ds p m m' h,
      )
]
