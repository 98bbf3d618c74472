-- ===== src/Libc/Numbers/Print.antt =====
-- ulltoa, utoa and itoa of libc/stdlib: the digits are written from the lowest on, and then turned around in place. The
-- loops over the digits run on fuel, the number of rounds.
use keon_os.Base.{
  ℕ, zero, suc, ◌+◌, ◌-◌, ◌/◌, ◌%◌, ◌^◌, ◌||◌, Option, none, some, ltb, ◌==◌, if◌then◌else◌, ◌>>=◌,
}
use keon_os.Libc.{Memory}

abbrev pub put : ℕ → ℕ → Memory → Memory
put p v m a = if a == p then v else m a

-- A character of `0123456789abcdefghijklmnopqrstuvwxyz`.
abbrev pub digit_char : ℕ → ℕ
digit_char d = if ltb d 10 then 48 + d else 87 + d

-- The first loop: the memory, and the address behind the digits.
unfoldable pub write_digits : ℕ → ℕ → ℕ → ℕ → Memory → Option (Memory × ℕ)
write_digits zero value base ptr m = none
write_digits (suc fuel) value base ptr m =
    let m' = put ptr (digit_char (value % base)) m in
    let rest = write_digits fuel (value / base) base (ptr + 1) m' in
    if value / base == 0 then some (m', ptr + 1) else rest

-- The second loop, which swaps the ends of a range.
unfoldable pub turn : ℕ → ℕ → ℕ → Memory → Memory
turn zero low ptr m = m
turn (suc fuel) low ptr m =
    let swapped = put ptr (m low) (put low (m ptr) m) in
    let rest = turn fuel (low + 1) (ptr - 1) swapped in if ltb low ptr then rest else m

-- The range has `ptr - str` bytes, so as many rounds of `turn` are enough.
unfoldable pub ulltoa : ℕ → ℕ → ℕ → ℕ → Memory → Option Memory
ulltoa fuel value str base m = if ltb base 2 || ltb 36 base then some (put str 0 m) else (do
  r ← write_digits fuel value base str m
  some (turn (r.1 - str) str (r.1 - 1) (put r.1 0 r.0)))

-- The same loops over a number of 32 bits.
unfoldable pub utoa : ℕ → ℕ → ℕ → ℕ → Memory → Option Memory
utoa fuel value str base m = ulltoa fuel (value % 2 ^ 32) str base m

-- There is no test of the base; the digits are those of bases up to 16.
unfoldable pub itoa : ℕ → ℕ → ℕ → ℕ → Memory → Option Memory
itoa fuel value str base m = if value == 0 then some (put (str + 1) 0 (put str 48 m)) else (do
  r ← write_digits fuel value base str m
  some (turn (r.1 - str) str (r.1 - 1) (put r.1 0 r.0)))
