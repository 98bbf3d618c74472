-- ===== src/Libc/Memory/Copy.antt =====
-- What the copies and the fill of libc/string write.
use keon_os.Base.{
  ℕ, zero, suc, ◌+◌, ◌%◌, ◌≤◌, ◌<◌, ◌≡◌, ◌⊎◌, inl, inr, refl, ap, true, false, ltb, ◌==◌,
  Bool-cases, arith, sym, ◌∙◌,
}
use keon_os.Libc.{Memory, poke}
use keon_os.Libc.Memory.{copy_up, copy_down, memcpy, memmove, fill, memset}

-- The memory `m'` is `m` but for the `n` bytes at `dst`, which are those that `m` has at `src`.
pub record Moved (n dst src : ℕ) (m m' : Memory) : Type 0 where
  pub inside : (i : ℕ) → i < n → m' (dst + i) ≡ m (src + i)
  pub outside : (a : ℕ) → (a < dst) ⊎ (dst + n ≤ a) → m' a ≡ m a

pub poke-other : (m : Memory) (a v b : ℕ) → (b == a) ≡ false → poke m a v b ≡ m b
poke-other m a v b h = rw h refl

pub poke-same : (m : Memory) (a v b : ℕ) → b ≡ a → poke m a v b ≡ v
poke-same m a v b h = let same : (b == a) ≡ true = ground (arith, h) in rw same refl

pub copy_up_lem :
    (n dst src : ℕ) (m : Memory)
    → (dst ≤ src) ⊎ (src + n ≤ dst)
    → Moved n dst src m (copy_up n dst src m)
unfolding copy_up
copy_up_lem zero dst src m h = record {
  inside = λ i lt. absurd (omega arith);
  outside = λ a out. refl;
}
copy_up_lem (suc n) dst src m h =
    let rest = copy_up_lem n (dst + 1) (src + 1) (poke m dst (m src)) (ground (arith, h)) in
    record {
      inside = λ i lt. first i lt rest;
      outside = λ a out.
          rest.outside a (ground (arith, out)) ∙ poke-other m dst (m src) a (ground (arith, out));
    }
  where
    first :
        (i : ℕ)
        → i < suc n
        → Moved n
            (dst + 1)
            (src + 1)
            (poke m dst (m src))
            (copy_up n (dst + 1) (src + 1) (poke m dst (m src)))
        → copy_up n (dst + 1) (src + 1) (poke m dst (m src)) (dst + i) ≡ m (src + i)
    first zero lt rest =
        rest.outside (dst + 0) (inl (omega arith))
        ∙ poke-same m dst (m src) (dst + 0) (omega arith)
        ∙ ap m (omega arith)
    first (suc i) lt rest =
        let there : (src + 1 + i == dst) ≡ false = ground (arith, h) in
        let from : src + 1 + i ≡ src + suc i = omega arith in
        let to : dst + 1 + i ≡ dst + suc i = omega arith in
        ap (copy_up n (dst + 1) (src + 1) (poke m dst (m src))) (sym to)
        ∙ rest.inside i (omega arith)
        ∙ poke-other m dst (m src) (src + 1 + i) there
        ∙ ap m from

copy_down_lem : (n dst src : ℕ) (m : Memory) → src ≤ dst → Moved n dst src m (copy_down n dst src m)
unfolding copy_down
copy_down_lem zero dst src m h = record {
  inside = λ i lt. absurd (omega arith);
  outside = λ a out. refl;
}
copy_down_lem (suc n) dst src m h =
    let m1 = poke m (dst + n) (m (src + n)) in
    let rest = copy_down_lem n dst src m1 h in
    record {
      inside = λ i lt. elim (Bool-cases (ltb i n)) [
        | inl low ↦
            let there : (src + i == dst + n) ≡ false = ground arith in
            rest.inside i (ground arith) ∙ poke-other m (dst + n) (m (src + n)) (src + i) there
        | inr top ↦
            let last : i ≡ n = ground arith in
            rest.outside (dst + i) (inr (omega arith))
            ∙ poke-same m (dst + n) (m (src + n)) (dst + i) (omega arith)
            ∙ ap (λ k. m (src + k)) (sym last)
      ];
      outside = λ a out.
          rest.outside a (ground (arith, out))
          ∙ poke-other m (dst + n) (m (src + n)) a (ground (arith, out));
    }

-- `memmove` copies also between ranges that overlap in any way: the destination gets the bytes
-- that the source had before the call, and all other bytes stay.
pub memmove_lem : (n dst src : ℕ) (m : Memory) → Moved n dst src m (memmove dst src n m)
unfolding memmove
memmove_lem n dst src m = elim (Bool-cases (ltb dst src)) [
  | inl up ↦ rw up (copy_up_lem n dst src m (inl (ground arith)))
  | inr down ↦ rw down (copy_down_lem n dst src m (ground arith))
]

-- `memcpy` copies like `memmove` where the source does not lie below the destination and reach
-- into it.
pub memcpy_lem :
    (n dst src : ℕ) (m : Memory)
    → (dst ≤ src) ⊎ (src + n ≤ dst)
    → Moved n dst src m (memcpy dst src n m)
unfolding memcpy
memcpy_lem n dst src m h = copy_up_lem n dst src m h

fill_lem :
    (n buf v : ℕ) (m : Memory)
    → ((i : ℕ) → i < n → fill n buf v m (buf + i) ≡ v)
      × ((a : ℕ) → (a < buf) ⊎ (buf + n ≤ a) → fill n buf v m a ≡ m a)
unfolding fill
fill_lem zero buf v m = ((λ i lt. absurd (omega arith)), λ a out. refl)
fill_lem (suc n) buf v m =
    let (inside, outside) = fill_lem n (buf + 1) v (poke m buf v) in
    (
      λ i lt. first i lt inside outside,
      λ a out. outside a (ground (arith, out)) ∙ poke-other m buf v a (ground (arith, out)),
    )
  where
    first :
        (i : ℕ)
        → i < suc n
        → ((i : ℕ) → i < n → fill n (buf + 1) v (poke m buf v) (buf + 1 + i) ≡ v)
        → ((a : ℕ)
            → (a < buf + 1) ⊎ (buf + 1 + n ≤ a)
            → fill n (buf + 1) v (poke m buf v) a ≡ poke m buf v a)
        → fill n (buf + 1) v (poke m buf v) (buf + i) ≡ v
    first zero lt inside outside =
        outside (buf + 0) (inl (omega arith)) ∙ poke-same m buf v (buf + 0) (omega arith)
    first (suc i) lt inside outside =
        let to : buf + suc i ≡ buf + 1 + i = omega arith in
        ap (fill n (buf + 1) v (poke m buf v)) to ∙ inside i (omega arith)

-- `memset` writes the low byte of its value to each byte of the range, and to no other.
pub memset_lem :
    (n buf value : ℕ) (m : Memory)
    → ((i : ℕ) → i < n → memset buf value n m (buf + i) ≡ value % 256)
      × ((a : ℕ) → (a < buf) ⊎ (buf + n ≤ a) → memset buf value n m a ≡ m a)
unfolding memset
memset_lem n buf value m = fill_lem n buf (value % 256) m
