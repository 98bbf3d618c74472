-- ===== src/Libc/Numbers/Parse.antt =====
-- strtoul of libc/stdlib on the digits of a number.
use keon_os.Base.{
  ℕ, zero, suc, ◌+◌, ◌*◌, ◌/◌, ◌%◌, ◌≤◌, ◌<◌, ◌≡◌, ◌≢◌, inl, inr, refl, sym, ap, ◌∙◌, Bool, true,
  false, ◌&&◌, ◌||◌, none, some, List, [], ◌∷◌, length, leb, ◌==◌, Bool-cases, arith, ◌>>=◌,
}
use native.Mathlib.Nat.{mod-add-div, mod-add-mod, add-mul-mod_self_left}
use keon_os.Libc.{Memory}
use keon_os.Libc.Numbers.{ulong, is_space, skip_spaces, prefix, digit_value, read_digits, strtoul}

-- At `s` stand the digits `ds` of the base, in digits and letters of either case, and a character that is no
-- digit of it behind them.
abbrev pub IsNumeral : Memory → ℕ → ℕ → List ℕ → Type 0
IsNumeral m s base [] = digit_value (m s) ≡ none
IsNumeral m s base (d ∷ ds) =
    (digit_value (m s) ≡ some d) × (d < base) × IsNumeral m (s + 1) base ds

-- The value that the digits add to `acc`.
abbrev pub value : ℕ → ℕ → List ℕ → ℕ
value base acc [] = acc
value base acc (d ∷ ds) = value base (acc * base + d) ds

digit-not_space : (c d : ℕ) → digit_value c ≡ some d → is_space c ≡ false
unfolding digit_value is_space
digit-not_space c d e = ground (arith, e)

x_digit : (c d : ℕ) → (c == 120 || c == 88) ≡ true → digit_value c ≡ some d → d ≡ 33
unfolding digit_value
x_digit c d x e = ground (arith, x, e)

x_some : (c : ℕ) → (c == 120 || c == 88) ≡ true → digit_value c ≢ none
unfolding digit_value
x_some c x e = ground (arith, x, e)

mod_mul : (a b n : ℕ) → (a % n * b) % n ≡ a * b % n
mod_mul a b n =
    let whole : a % n + n * (a / n) ≡ a = mod-add-div a n in
    let spread : a * b ≡ a % n * b + n * (a / n * b) = grind (arith, ap (λ k. k * b) whole) in
    sym (ap (λ k. k % n) spread ∙ add-mul-mod_self_left (a % n * b) n (a / n * b))

read_digits-stop :
    (fuel s base acc : ℕ) (any : Bool) (m : Memory)
    → digit_value (m s) ≡ none
    → read_digits (suc fuel) s base acc any m ≡ some (acc, s, any)
unfolding read_digits
read_digits-stop fuel s base acc any m e = rw (read_digits, e) refl

read_digits-next :
    (fuel s base acc d : ℕ) (any : Bool) (m : Memory)
    → digit_value (m s) ≡ some d
    → d < base
    → read_digits (suc fuel) s base acc any m
      ≡ read_digits fuel (s + 1) base ((acc * base + d) % ulong) true m
unfolding read_digits
read_digits-next fuel s base acc d any m e l =
    let below : leb base d ≡ false = ground (arith, l) in rw (read_digits, e, below) refl

-- The loop over the digits, from an accumulator that has wrapped.
read_digits_lem :
    (ds : List ℕ) (fuel s base acc : ℕ) (any : Bool) (m : Memory)
    → IsNumeral m s base ds
    → length ds < fuel
    → read_digits fuel s base (acc % ulong) any m
      ≡ some (value base acc ds % ulong, s + length ds, any || leb 1 (length ds))
read_digits_lem ds zero s base acc any m h l = absurd (omega arith)
read_digits_lem [] (suc fuel) s base acc any m h l =
    let here : s ≡ s + 0 = omega arith in
    let still : any ≡ (any || false) = ground arith in
    read_digits-stop fuel s base (acc % ulong) any m h
    ∙ ap (λ (k : ℕ). some (acc % ulong, k, any)) here
    ∙ ap (λ (b : Bool). some (acc % ulong, s + 0, b)) still
read_digits_lem (d ∷ ds) (suc fuel) s base acc any m (here, below, h) l =
    let step : ((acc % ulong) * base + d) % ulong ≡ (acc * base + d) % ulong =
      sym (mod-add-mod (acc % ulong * base) ulong d)
      ∙ ap (λ k. (k + d) % ulong) (mod_mul acc base ulong)
      ∙ mod-add-mod (acc * base) ulong d in
    let next : s + 1 + length ds ≡ s + suc (length ds) = omega arith in
    let some_digit : true ≡ (any || leb 1 (suc (length ds))) = ground arith in
    read_digits-next fuel s base (acc % ulong) d any m here below
    ∙ ap (λ k. read_digits fuel (s + 1) base k true m) step
    ∙ read_digits_lem ds fuel (s + 1) base (acc * base + d) true m h (omega arith)
    ∙ ap (λ (k : ℕ). some (value base (acc * base + d) ds % ulong, k, true)) next
    ∙ ap (λ (b : Bool). some (value base (acc * base + d) ds % ulong, s + suc (length ds), b))
        some_digit

-- A numeral of the base does not start with `0x`.
prefix_none :
    (d : ℕ) (ds : List ℕ) (s base : ℕ) (m : Memory)
    → 2 ≤ base
    → IsNumeral m s base (d ∷ ds)
    → prefix s base m ≡ (s, base)
unfolding prefix
prefix_none d ds s base m two (here, below, h) =
    let given : (base == 0) ≡ false = ground (arith, two) in
    elim (Bool-cases (base == 16 && (m s == 48 && (m (s + 1) == 120 || m (s + 1) == 88)))) [
      | inl hex ↦
          let sixteen : base ≡ 16 = ground (arith, hex) in
          let x : (m (s + 1) == 120 || m (s + 1) == 88) ≡ true = ground (arith, hex) in
          absurd (no_x ds x sixteen h)
      | inr plain ↦ rw (given, plain) refl
    ]
  where
    no_x :
        (ds : List ℕ)
        → (m (s + 1) == 120 || m (s + 1) == 88) ≡ true
        → base ≡ 16
        → IsNumeral m (s + 1) base ds
        → ⊥
    no_x [] x sixteen h = x_some (m (s + 1)) x h
    no_x (e ∷ es) x sixteen (digit, low, _) =
        omega (arith, x_digit (m (s + 1)) e x digit, low, sixteen)

-- `strtoul` on a numeral of its base, digits and letters of either case that end at a
-- character that is neither: it ends, its value is that of the numeral modulo 2^64, and the end
-- that it reports is the character behind the last digit.
pub strtoul_lem :
    (d : ℕ) (ds : List ℕ) (fuel s base : ℕ) (m : Memory)
    → 2 ≤ base
    → IsNumeral m s base (d ∷ ds)
    → length (d ∷ ds) < fuel
    → strtoul fuel s base m ≡ some (value base 0 (d ∷ ds) % ulong, s + length (d ∷ ds))
unfolding strtoul ◌>>=◌
strtoul_lem d ds zero s base m two h l = absurd (omega arith)
strtoul_lem d ds (suc fuel) s base m two h l =
    let start : skip_spaces (suc fuel) s m ≡ some s = no_space fuel (digit-not_space (m s) d h.0) in
    let digits : leb 1 (suc (length ds)) ≡ true = ground arith in
    rw
      (
        start,
        prefix_none d ds s base m two h,
        read_digits_lem (d ∷ ds) (suc fuel) s base 0 false m h l,
        digits,
      )
      refl
  where
    no_space : (fuel : ℕ) → is_space (m s) ≡ false → skip_spaces (suc fuel) s m ≡ some s
    no_space fuel e = unfold skip_spaces in rw e refl
