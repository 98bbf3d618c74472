-- ===== src/Libc/Numbers/Digits.antt =====
-- The digits of a number, for ulltoa of libc/stdlib.
use native.Mathlib.Omega.{div_any}
use native.Mathlib.Nat.{mod-lt}
use keon_os.Base.{
  ℕ, zero, suc, ◌+◌, ◌-◌, ◌*◌, ◌/◌, ◌%◌, ◌≤◌, ◌<◌, ◌≡◌, inl, inr, refl, ap, ◌∙◌, true, false, List,
  [], ◌∷◌, length, get_or, ltb, ◌==◌, if◌then◌else◌, Bool-cases, arith,
}
use keon_os.Libc.Numbers.Parse.{value}

-- The digits of a number, the lowest first, as many as the loop writes.
abbrev pub lows : ℕ → ℕ → ℕ → List ℕ
lows zero base v = []
lows (suc fuel) base v = (v % base) ∷ (if v / base == 0 then [] else lows fuel base (v / base))

abbrev pub rev_onto : List ℕ → List ℕ → List ℕ
rev_onto [] acc = acc
rev_onto (d ∷ ds) acc = rev_onto ds (d ∷ acc)

-- The numbers that `fuel` rounds are enough for.
abbrev pub power : ℕ → ℕ
power zero = 1
power (suc n) = 2 * power n

two_more : (k q : ℕ) → 2 * q + k * q ≡ (k + 2) * q
two_more k q = grind arith

pub half : (v base n : ℕ) → 2 ≤ base → v < 2 * n → v / base < n
half v base n two l =
    let parts : base * (v / base) + v % base ≡ v = div_any v base in
    let twice : 2 * (v / base) + (base - 2) * (v / base) ≡ base * (v / base) =
      two_more (base - 2) (v / base) ∙ ap (λ b. b * (v / base)) (omega (arith, two)) in
    omega (arith, parts, twice, l)

last_digit : (v base : ℕ) → v / base ≡ 0 → v % base ≡ v
last_digit v base e =
    let parts : base * (v / base) + v % base ≡ v = div_any v base in
    let none_above : base * (v / base) ≡ 0 = ap (λ q. base * q) e ∙ omega arith in
    omega (arith, parts, none_above)

whole : (v base : ℕ) → v / base * base + v % base ≡ v
whole v base =
    let parts : base * (v / base) + v % base ≡ v = div_any v base in
    let turned : v / base * base ≡ base * (v / base) = grind arith in omega (arith, parts, turned)

one_digit :
    (base v : ℕ) (acc : List ℕ)
    → v / base ≡ 0
    → value base (0 * base + v % base) acc ≡ value base v acc
one_digit base v acc e =
    let last : v % base ≡ v = last_digit v base e in
    ap (λ d. value base d acc) (omega (arith, last))

pub rev-value :
    (fuel base v : ℕ) (acc : List ℕ)
    → 2 ≤ base
    → v < power (suc fuel)
    → value base 0 (rev_onto (lows (suc fuel) base v) acc) ≡ value base v acc
rev-value zero base v acc two l =
    let end : (v / base == 0) ≡ true = ground (arith, half v base 1 two (omega (arith, l))) in
    rw end (one_digit base v acc (ground (arith, end)))
rev-value (suc n) base v acc two l = elim (Bool-cases (v / base == 0)) [
  | inl end ↦ rw end (one_digit base v acc (ground (arith, end)))
  | inr more ↦ rw more (
      rev-value n base (v / base) (v % base ∷ acc) two (half v base (power (suc n)) two l)
      ∙ ap (λ d. value base d acc) (whole v base))
]

-- How many digits there are.
pub lows-size : (fuel base v : ℕ) → length (lows fuel base v) ≤ fuel
lows-size zero base v = omega arith
lows-size (suc fuel) base v = elim (Bool-cases (v / base == 0)) [
  | inl end ↦ rw end (omega arith)
  | inr more ↦ let rest = lows-size fuel base (v / base) in rw more (omega (arith, rest))
]

abbrev pub AllBelow : ℕ → List ℕ → Type 0
AllBelow base [] = Unit {0}
AllBelow base (d ∷ ds) = (d < base) × AllBelow base ds

pub lows-AllBelow : (fuel base v : ℕ) → 2 ≤ base → AllBelow base (lows fuel base v)
lows-AllBelow zero base v two = tt
lows-AllBelow (suc fuel) base v two = elim (Bool-cases (v / base == 0)) [
  | inl end ↦ rw end (mod-lt v (omega (arith, two)), tt)
  | inr more ↦ rw more (mod-lt v (omega (arith, two)), lows-AllBelow fuel base (v / base) two)
]

pub rev_onto-AllBelow :
    (base : ℕ) (ds acc : List ℕ)
    → AllBelow base ds
    → AllBelow base acc
    → AllBelow base (rev_onto ds acc)
rev_onto-AllBelow base [] acc hd ha = ha
rev_onto-AllBelow base (d ∷ ds) acc (b, hd) ha = rev_onto-AllBelow base ds (d ∷ acc) hd (b, ha)

pub length-rev_onto : (ds acc : List ℕ) → length (rev_onto ds acc) ≡ length ds + length acc
length-rev_onto [] acc = omega arith
length-rev_onto (d ∷ ds) acc = let rest = length-rev_onto ds (d ∷ acc) in omega (arith, rest)

pub get_or-rev_onto :
    (ds acc : List ℕ) (i : ℕ)
    → get_or (rev_onto ds acc) i 0 ≡ (
        if ltb i (length ds) then get_or ds (length ds - 1 - i) 0 else get_or acc (i - length ds) 0)
get_or-rev_onto [] acc i =
    let out : ltb i 0 ≡ false = ground arith in rw out (ap (λ j. get_or acc j 0) (omega arith))
get_or-rev_onto (d ∷ ds) acc i =
    get_or-rev_onto ds (d ∷ acc) i ∙ elim (Bool-cases (ltb i (length ds))) [
      | inl early ↦
          let also : ltb i (suc (length ds)) ≡ true = ground (arith, early) in
          let place : suc (length ds) - 1 - i ≡ suc (length ds - 1 - i) = ground (arith, early) in
          rw (early, also, place) refl
      | inr late ↦ elim (Bool-cases (i == length ds)) [
        | inl at ↦
            let also : ltb i (suc (length ds)) ≡ true = ground (arith, at) in
            let first : i - length ds ≡ 0 = ground (arith, at) in
            let place : suc (length ds) - 1 - i ≡ 0 = ground (arith, at) in
            rw (late, also, first, place) refl
        | inr behind ↦
            let not_also : ltb i (suc (length ds)) ≡ false = ground (arith, late, behind) in
            let place : i - length ds ≡ suc (i - suc (length ds)) = ground (arith, late, behind) in
            rw (late, not_also, place) refl
      ]
    ]
