-- ===== src/Libc/Memory.antt =====
-- memcpy, memmove, memset and memcmp of libc/string.
pub mod Copy
pub mod Compare
mod Tests
use keon_os.Base.{
  ℕ, zero, suc, ◌+◌, ◌-◌, ◌%◌, ◌≤◌, ◌<◌, ◌≡◌, ◌⊎◌, inl, inr, refl, ap, Bool, true, false, ◌&&◌, ltb,
  leb, ◌==◌, if◌then◌else◌, Bool-cases, arith, sym, ◌∙◌, ◌≢◌,
}
use keon_os.Libc.{Memory, poke}

-- The loop with `i` going up.
unfoldable pub copy_up : ℕ → ℕ → ℕ → Memory → Memory
copy_up zero dst src m = m
copy_up (suc n) dst src m = copy_up n (dst + 1) (src + 1) (poke m dst (m src))

-- The loop with `i` going down.
pub copy_down : ℕ → ℕ → ℕ → Memory → Memory
copy_down zero dst src m = m
copy_down (suc n) dst src m = copy_down n dst src (poke m (dst + n) (m (src + n)))

unfoldable pub memcpy : ℕ → ℕ → ℕ → Memory → Memory
memcpy dst src size m = copy_up size dst src m

pub memmove : ℕ → ℕ → ℕ → Memory → Memory
memmove dst src size m = if ltb dst src then copy_up size dst src m else copy_down size dst src m

-- `n` rounds of the loop of `memset`.
pub fill : ℕ → ℕ → ℕ → Memory → Memory
fill zero buf v m = m
fill (suc n) buf v m = fill n (buf + 1) v (poke m buf v)

pub memset : ℕ → ℕ → ℕ → Memory → Memory
memset buf value size m = fill size buf (value % 256) m

-- The result of a comparison: -1, 0 or 1.
pub data Sign : Type 0 where
  minus : Sign
  equal : Sign
  plus : Sign

pub memcmp : ℕ → ℕ → ℕ → Memory → Sign
memcmp a b zero m = equal
memcmp a b (suc n) m =
    let rest = memcmp (a + 1) (b + 1) n m in
    if ltb (m a) (m b) then minus else if ltb (m b) (m a) then plus else rest
