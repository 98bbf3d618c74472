-- ===== src/Libc/Numbers.antt =====
-- strtoul of libc/stdlib and the tests of ctype.h that it calls. The loops run on fuel, the number
-- of bytes that each may read.
pub mod Print
mod Parse
mod Turn
mod Digits
mod Write
mod Round
mod Tests
use keon_os.Base.{
  ℕ, zero, suc, ◌+◌, ◌-◌, ◌*◌, ◌%◌, ◌^◌, Bool, true, false, ◌&&◌, ◌||◌, Option, none, some, leb,
  ◌==◌, if◌then◌else◌, ◌>>=◌,
}
use keon_os.Libc.{Memory}

abbrev pub ulong : ℕ
ulong = 2 ^ 64

unfoldable pub is_space : ℕ → Bool
is_space c = c == 32 || (leb 9 c && leb c 13)

abbrev pub is_digit : ℕ → Bool
is_digit c = leb 48 c && leb c 57

abbrev pub is_lower : ℕ → Bool
is_lower c = leb 97 c && leb c 122

abbrev pub is_alpha : ℕ → Bool
is_alpha c = is_lower c || (leb 65 c && leb c 90)

abbrev pub to_upper : ℕ → ℕ
to_upper c = if is_lower c then c - 97 + 65 else c

pub skip_spaces : ℕ → ℕ → Memory → Option ℕ
skip_spaces zero s m = none
skip_spaces (suc fuel) s m =
    let rest = skip_spaces fuel (s + 1) m in if is_space (m s) then rest else some s

-- Whether `x` or `X` stands at `s`.
abbrev is_x : ℕ → Memory → Bool
is_x s m = m s == 120 || m s == 88

-- Where the digits start, and their base.
pub prefix : ℕ → ℕ → Memory → ℕ × ℕ
prefix s base m =
    if base == 0
    then (if m s == 48 then (if is_x (s + 1) m then (s + 2, 16) else (s + 1, 8)) else (s, 10))
    else if base == 16 && (m s == 48 && is_x (s + 1) m)
    then (s + 2, 16)
    else (s, base)

unfoldable pub digit_value : ℕ → Option ℕ
digit_value c =
    if is_digit c then some (c - 48) else if is_alpha c then some (to_upper c - 65 + 10) else none

-- The loop over the digits: `acc`, `s` and `any`.
pub read_digits : ℕ → ℕ → ℕ → ℕ → Bool → Memory → Option (ℕ × ℕ × Bool)
read_digits zero s base acc any m = none
read_digits (suc fuel) s base acc any m = elim (digit_value (m s)) [
  | none ↦ some (acc, s, any)
  | some c ↦
      if leb base c
      then some (acc, s, any)
      else read_digits fuel (s + 1) base ((acc * base + c) % ulong) true m
]

-- The value, and the address that `*endptr` gets.
pub strtoul : ℕ → ℕ → ℕ → Memory → Option (ℕ × ℕ)
strtoul fuel nptr base m = do
  s ← skip_spaces fuel nptr m
  r ← read_digits fuel (prefix s base m).0 (prefix s base m).1 0 false m
  some (r.0, if r.2 then r.1 else nptr)
