-- ===== src/Libc/Strings.antt =====
-- The string functions of libc/string. Each loop that ends at a zero byte runs on fuel, the number
-- of bytes that it may read; `none` is a loop that found no zero byte within it.
mod Copy
mod Order
mod Tests
use keon_os.Base.{
  ℕ, zero, suc, ◌+◌, ◌-◌, ◌%◌, Bool, true, false, not, ◌&&◌, Option, none, some, ◌==◌,
  if◌then◌else◌, ◌>>=◌,
}
use mathlib.Core.Option
use keon_os.Libc.{Memory, poke}

pub strlen : ℕ → ℕ → Memory → Option ℕ
strlen zero str m = none
strlen (suc fuel) str m =
    let rest = strlen fuel (str + 1) m in if m str == 0 then some 0 else Option.map suc rest

-- The address of the zero byte: the loop `while (*ptr != '\0') ptr++`.
pub str_end : ℕ → ℕ → Memory → Option ℕ
str_end fuel str m = Option.map (λ n. str + n) (strlen fuel str m)

-- The loop of `strcpy`, from the addresses on that `dest` and `src` have.
pub copy_string : ℕ → ℕ → ℕ → Memory → Option Memory
copy_string zero dest src m = none
copy_string (suc fuel) dest src m =
    let m' = poke m dest (m src) in
    let rest = copy_string fuel (dest + 1) (src + 1) m' in if m src == 0 then some m' else rest

pub strcpy : ℕ → ℕ → ℕ → Memory → Option Memory
strcpy fuel dest src m = copy_string fuel dest src m

-- The second loop of `strcat` and its last write.
pub append_string : ℕ → ℕ → ℕ → Memory → Option Memory
append_string zero ptr src m = none
append_string (suc fuel) ptr src m =
    let rest = append_string fuel (ptr + 1) (src + 1) (poke m ptr (m src)) in
    if m src == 0 then some (poke m ptr 0) else rest

pub strcat : ℕ → ℕ → ℕ → Memory → Option Memory
strcat fuel dest src m = do ptr ← str_end fuel dest m; append_string fuel ptr src m

-- The second loop of `strncat`, which at most `n` rounds run, and its last write.
pub append_bounded : ℕ → ℕ → ℕ → Memory → Memory
append_bounded zero ptr src m = poke m ptr 0
append_bounded (suc n) ptr src m =
    let rest = append_bounded n (ptr + 1) (src + 1) (poke m ptr (m src)) in
    if m src == 0 then poke m ptr 0 else rest

pub strncat : ℕ → ℕ → ℕ → ℕ → Memory → Option Memory
strncat fuel dest src n m = do ptr ← str_end fuel dest m; some (append_bounded n ptr src m)

-- The second loop of `strncpy`.
pub pad : ℕ → ℕ → Memory → Memory
pad zero dest m = m
pad (suc n) dest m = pad n (dest + 1) (poke m dest 0)

pub strncpy : ℕ → ℕ → ℕ → Memory → Memory
strncpy dest src zero m = m
strncpy dest src (suc n) m =
    let rest = strncpy (dest + 1) (src + 1) n (poke m dest (m src)) in
    if m src == 0 then pad (suc n) dest m else rest

-- The two bytes whose difference `strcmp` returns.
pub strcmp : ℕ → ℕ → ℕ → Memory → Option (ℕ × ℕ)
strcmp zero s1 s2 m = none
strcmp (suc fuel) s1 s2 m =
    let rest = strcmp fuel (s1 + 1) (s2 + 1) m in
    if not (m s1 == 0) && m s1 == m s2 then rest else some (m s1, m s2)

-- The two bytes whose difference `strncmp` returns.
pub strncmp : ℕ → ℕ → ℕ → Memory → ℕ × ℕ
strncmp s1 s2 zero m = (0, 0)
strncmp s1 s2 (suc n) m =
    let rest = strncmp (s1 + 1) (s2 + 1) n m in
    if not (m s1 == m s2) then (m s1, m s2) else if m s1 == 0 then (0, 0) else rest

-- The outer `none` is a loop that does not end, the inner one `nullptr`.
pub strchr : ℕ → ℕ → ℕ → Memory → Option (Option ℕ)
strchr zero s c m = none
strchr (suc fuel) s c m =
    let rest = strchr fuel (s + 1) c m in
    if m s == c % 256 then some (some s) else if m s == 0 then some none else rest

-- The loop of `strrchr`: `last`, and the address of the zero byte.
pub last_match : ℕ → ℕ → ℕ → Option ℕ → Memory → Option (Option ℕ × ℕ)
last_match zero s c last m = none
last_match (suc fuel) s c last m =
    let rest = last_match fuel (s + 1) c (if m s == c then some s else last) m in
    if m s == 0 then some (last, s) else rest

pub strrchr : ℕ → ℕ → ℕ → Memory → Option (Option ℕ)
strrchr fuel s c m = do
  r ← last_match fuel s (c % 256) none m
  some (if c % 256 == 0 then some r.1 else r.0)
