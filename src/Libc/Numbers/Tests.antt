-- ===== src/Libc/Numbers/Tests.antt =====
-- strtoul on the text "7f" at 10.
use keon_os.Base.{ℕ, ◌≤◌, ◌+◌, ◌%◌, ◌≡◌, refl, some, [], ◌∷◌, ◌==◌, if◌then◌else◌, ◌>>=◌, arith}
use keon_os.Libc.{Memory}
use keon_os.Libc.Numbers.{ulong, is_space, skip_spaces, prefix, digit_value, read_digits, strtoul}
use keon_os.Libc.Numbers.Print.{ulltoa}
use keon_os.Libc.Numbers.Round.{strtoul-ulltoa}
use keon_os.Libc.Numbers.Parse.{IsNumeral, value, strtoul_lem}

abbrev text : Memory
text a = if a == 10 then 55 else if a == 11 then 102 else 0

strtoul_run : strtoul 9 10 0 text ≡ some (7, 11)
unfolding strtoul skip_spaces is_space prefix digit_value read_digits ◌>>=◌
strtoul_run = refl

text-IsNumeral : IsNumeral text 10 16 (7 ∷ 15 ∷ [])
unfolding digit_value
text-IsNumeral = (refl, omega arith, (refl, omega arith, refl))

strtoul_lem_example : strtoul 9 10 16 text ≡ some (value 16 0 (7 ∷ 15 ∷ []) % ulong, 10 + 2)
strtoul_lem_example =
    strtoul_lem 7 (15 ∷ []) 9 10 16 text (omega arith) text-IsNumeral (omega arith)

strtoul-ulltoa_example :
    (m' : Memory) × (n : ℕ) × (ulltoa 64 0xbeef 40 16 text ≡ some m')
    × (n ≤ 64)
    × (strtoul 65 40 16 m' ≡ some (0xbeef, 40 + n))
strtoul-ulltoa_example = strtoul-ulltoa 0xbeef 40 16 text (omega arith) (omega arith) (omega arith)
