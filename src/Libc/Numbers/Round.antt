-- ===== src/Libc/Numbers/Round.antt =====
-- strtoul of libc/stdlib reads what ulltoa writes.
use keon_os.Base.{
  ℕ, suc, ◌+◌, ◌-◌, ◌%◌, ◌≤◌, ◌<◌, ◌≡◌, refl, sym, ap, ◌∙◌, true, false, ◌&&◌, some, List, [], ◌∷◌,
  length, get_or, ltb, leb, ◌==◌, if◌then◌else◌, ◌>>=◌, arith,
}
use keon_os.Libc.{Memory}
use keon_os.Libc.Numbers.{ulong, digit_value, strtoul}
use keon_os.Libc.Numbers.Print.{put, digit_char, turn, ulltoa}
use keon_os.Libc.Numbers.Parse.{IsNumeral, value, strtoul_lem}
use keon_os.Libc.Numbers.Turn.{turn_lem}
use keon_os.Libc.Numbers.Digits.{
  lows, rev_onto, power, rev-value, lows-size, AllBelow, lows-AllBelow, rev_onto-AllBelow,
  length-rev_onto, get_or-rev_onto,
}
use keon_os.Libc.Numbers.Write.{Placed, write_digits_lem}

digit_value-digit_char : (d : ℕ) → d < 36 → digit_value (digit_char d) ≡ some d
unfolding digit_value
digit_value-digit_char d l = ground (arith, l)

-- Digits that stand in a row, with a zero byte behind them, are a numeral.
row-IsNumeral :
    (ds : List ℕ) (s base : ℕ) (m : Memory)
    → base ≤ 36
    → AllBelow base ds
    → ((i : ℕ) → i < length ds → m (s + i) ≡ digit_char (get_or ds i 0))
    → m (s + length ds) ≡ 0
    → IsNumeral m s base ds
unfolding digit_value
row-IsNumeral [] s base m few h row end =
    let zero_byte : m s ≡ 0 = ap m (omega arith) ∙ end in ap digit_value zero_byte
row-IsNumeral (d ∷ ds) s base m few (b, h) row end =
    let first : m s ≡ digit_char d = ap m (omega arith) ∙ row 0 (omega arith) in
    (
      ap digit_value first ∙ digit_value-digit_char d (omega (arith, b, few)),
      b,
      row-IsNumeral ds (s + 1) base m few h
          (λ i li. ap m (omega arith) ∙ row (suc i) (omega (arith, li))) (ap m (omega arith) ∙ end),
    )

-- The digits turned around, with the byte behind them.
turned : List ℕ → ℕ → Memory → Memory
turned ds str m1 = turn (length ds) str (str + length ds - 1) (put (str + length ds) 0 m1)

turned-IsNumeral :
    (ds : List ℕ) (str base : ℕ) (m m1 : Memory)
    → Placed ds str m m1
    → 0 < length ds
    → base ≤ 36
    → AllBelow base ds
    → IsNumeral (turned ds str m1) str base (rev_onto ds [])
unfolding turned
turned-IsNumeral ds str base m m1 placed some_digits few h =
    row-IsNumeral (rev_onto ds []) str base (turned ds str m1) few
      (rev_onto-AllBelow base ds [] h tt) (λ i li. digit i (omega (arith, li, size))) behind
  where
    size : length (rev_onto ds []) ≡ length ds
    size = length-rev_onto ds [] ∙ omega arith

    ended : Memory
    ended = put (str + length ds) 0 m1

    mirror :
        (x : ℕ)
        → turned ds str m1 x ≡ (
            if leb str x && leb x (str + length ds - 1)
            then ended (str + (str + length ds - 1) - x)
            else ended x)
    mirror x = turn_lem (length ds) str (str + length ds - 1) x ended (omega arith)

    digit :
        (i : ℕ)
        → i < length ds
        → turned ds str m1 (str + i) ≡ digit_char (get_or (rev_onto ds []) i 0)
    digit i li =
        let within : (leb str (str + i) && leb (str + i) (str + length ds - 1)) ≡ true =
          ground (arith, li) in
        let place : str + (str + length ds - 1) - (str + i) ≡ str + (length ds - 1 - i) =
          omega (arith, li) in
        let not_end : (str + (length ds - 1 - i) == str + length ds) ≡ false = ground (arith, li) in
        let in_row : (leb str (str + (length ds - 1 - i))
              && ltb (str + (length ds - 1 - i)) (str + length ds))
            ≡ true =
          ground (arith, li) in
        let index : str + (length ds - 1 - i) - str ≡ length ds - 1 - i = omega arith in
        let early : ltb i (length ds) ≡ true = ground (arith, li) in
        let entry : get_or (rev_onto ds []) i 0 ≡ get_or ds (length ds - 1 - i) 0 =
          get_or-rev_onto ds [] i ∙ rw early refl in
        mirror (str + i)
        ∙ rw (within, place, not_end) (placed (str + (length ds - 1 - i)) ∙ rw (in_row, index) refl)
        ∙ ap digit_char (sym entry)

    behind : turned ds str m1 (str + length (rev_onto ds [])) ≡ 0
    behind =
        let out : (leb str (str + length ds) && leb (str + length ds) (str + length ds - 1))
            ≡ false =
          ground (arith, some_digits) in
        let same : (str + length ds == str + length ds) ≡ true = ground arith in
        ap (λ k. turned ds str m1 (str + k)) size ∙ mirror (str + length ds) ∙ rw (out, same) refl

read_back :
    (ls : List ℕ) (fuel str base v : ℕ) (m : Memory)
    → 2 ≤ base
    → IsNumeral m str base ls
    → 0 < length ls
    → length ls < fuel
    → value base 0 ls ≡ v
    → v < ulong
    → strtoul fuel str base m ≡ some (v, str + length ls)
read_back [] fuel str base v m two h some_digits enough e l = absurd (omega (arith, some_digits))
read_back (d ∷ ds) fuel str base v m two h some_digits enough e l =
    let whole_value : value base 0 (d ∷ ds) % ulong ≡ v =
      ap (λ k. k % ulong) e ∙ omega (arith, l) in
    strtoul_lem d ds fuel str base m two h enough
    ∙ ap (λ k. some (k, str + length (d ∷ ds))) whole_value

printed :
    (fuel v str base : ℕ) (m : Memory)
    → 2 ≤ base
    → base ≤ 36
    → v < power (suc fuel)
    → v < ulong
    → (m' : Memory) × (n : ℕ) × (ulltoa (suc fuel) v str base m ≡ some m')
      × (n ≤ suc fuel)
      × (strtoul (suc (suc fuel)) str base m' ≡ some (v, str + n))
unfolding ulltoa ◌>>=◌ turned
printed fuel v str base m two few l small =
    let ds = lows (suc fuel) base v in
    let (m1, e, placed) = write_digits_lem fuel base v str m two l in
    let low : ltb base 2 ≡ false = ground (arith, two) in
    let high : ltb 36 base ≡ false = ground (arith, few) in
    let rounds : str + length ds - str ≡ length ds = omega arith in
    let size : length (rev_onto ds []) ≡ length ds = length-rev_onto ds [] ∙ omega arith in
    let numeral =
      turned-IsNumeral ds str base m m1 placed (omega arith) few
        (lows-AllBelow (suc fuel) base v two) in
    let most = lows-size (suc fuel) base v in
    (
      turned ds str m1,
      length ds,
      rw (low, high, e, rounds) refl,
      most,
      read_back (rev_onto ds []) (suc (suc fuel)) str base v (turned ds str m1) two numeral
            (omega (arith, size)) (omega (arith, size, most)) (rev-value fuel base v [] two l) small
          ∙ ap (λ k. some (v, str + k)) size,
    )

-- For a base from 2 to 36, ulltoa of a number below 2^64 ends with 64 rounds, and strtoul then
-- reads the number from the text, to its end.
pub strtoul-ulltoa :
    (v str base : ℕ) (m : Memory)
    → 2 ≤ base
    → base ≤ 36
    → v < ulong
    → (m' : Memory) × (n : ℕ) × (ulltoa 64 v str base m ≡ some m')
      × (n ≤ 64)
      × (strtoul 65 str base m' ≡ some (v, str + n))
strtoul-ulltoa v str base m two few l = printed 63 v str base m two few (omega (arith, l)) l
