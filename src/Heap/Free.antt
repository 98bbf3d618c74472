-- ===== src/Heap/Free.antt =====
-- What `kfree` of mm/heap.cpp leaves behind.
use keon_os.Base.{
  ℕ, ◌+◌, ◌-◌, ◌*◌, ◌%◌, ◌≤◌, ◌<◌, ◌≡◌, inl, inr, refl, ap, ◌∙◌, true, false, ◌&&◌, List, [], ◌∷◌,
  ◌++◌, arith, some, ltb, ◌==◌, Bool-cases,
}
use keon_os.Heap.{
  Block, Heap, block, header, u64, page_size, align16, place, first_fit, kmalloc, merge, absorb,
  absorb_next, coalesce, release, kfree,
}
use keon_os.Heap.Layout.{
  Spans, in_use, IsWellFormed, Spans-le, Spans-split, Spans-join, in_use-append,
}
use keon_os.Heap.Malloc.{Fits-first_fit, kmalloc-first_fit, Fits-Spans, align16-le}

-- The next block of the chain is not free as well.
abbrev pub Apart : Block → List Block → Type 0
Apart b [] = Unit {0}
Apart b (c ∷ cs) = (b.free && c.free) ≡ false

-- No two neighbours are free.
abbrev pub Coalesced : List Block → Type 0
Coalesced [] = Unit {0}
Coalesced (b ∷ bs) = Apart b bs × Coalesced bs

absorb_both :
    (b c : Block) (cs : List Block)
    → (b.free && c.free) ≡ true
    → absorb b (c ∷ cs) ≡ absorb (merge b c) cs
unfolding absorb
absorb_both b c cs h = rw (h, absorb)

absorb_one :
    (b c : Block) (cs : List Block)
    → (b.free && c.free) ≡ false
    → absorb b (c ∷ cs) ≡ b ∷ absorb c cs
unfolding absorb
absorb_one b c cs h = rw (h, absorb)

Apart-absorb : (a b : Block) (bs : List Block) → (a.free && b.free) ≡ false → Apart a (absorb b bs)
unfolding merge
Apart-absorb a b [] h = unfold absorb in h
Apart-absorb a b (c ∷ cs) h = elim (Bool-cases (b.free && c.free)) [
  | inl both ↦ rw (absorb_both b c cs both) (Apart-absorb a (merge b c) cs h)
  | inr one ↦ rw (absorb_one b c cs one) h
]

absorb-Coalesced : (b : Block) (bs : List Block) → Coalesced (absorb b bs)
absorb-Coalesced b [] = unfold absorb in (tt, tt)
absorb-Coalesced b (c ∷ cs) = elim (Bool-cases (b.free && c.free)) [
  | inl both ↦ rw (absorb_both b c cs both) (absorb-Coalesced (merge b c) cs)
  | inr one ↦ rw (absorb_one b c cs one) (Apart-absorb b c cs one, absorb-Coalesced c cs)
]

coalesce-Coalesced : (bs : List Block) → Coalesced (coalesce bs)
unfolding coalesce
coalesce-Coalesced [] = tt
coalesce-Coalesced (b ∷ bs) = absorb-Coalesced b bs

absorb_fixed : (b : Block) (bs : List Block) → Coalesced (b ∷ bs) → absorb b bs ≡ b ∷ bs
absorb_fixed b [] h = unfold absorb in refl
absorb_fixed b (c ∷ cs) h = rw (absorb_one b c cs h.0) (ap (◌∷◌ b) (absorb_fixed c cs h.1))

coalesce_fixed : (bs : List Block) → Coalesced bs → coalesce bs ≡ bs
unfolding coalesce
coalesce_fixed [] h = refl
coalesce_fixed (b ∷ bs) h = absorb_fixed b bs h

in_use-absorb : (b : Block) (bs : List Block) → in_use (absorb b bs) ≡ in_use (b ∷ bs)
unfolding absorb merge
in_use-absorb b [] = refl
in_use-absorb b (c ∷ cs) = ground (arith, in_use-absorb (merge b c) cs, in_use-absorb c cs)

in_use-coalesce : (bs : List Block) → in_use (coalesce bs) ≡ in_use bs
unfolding coalesce
in_use-coalesce [] = refl
in_use-coalesce (b ∷ bs) = in_use-absorb b bs

Spans-weaken : (lo lo' hi : ℕ) (bs : List Block) → lo ≤ lo' → Spans lo' bs hi → Spans lo bs hi
Spans-weaken lo lo' hi [] h s = omega arith
Spans-weaken lo lo' hi (b ∷ bs) h s = (omega arith, s.1)

merge-Spans :
    (lo hi : ℕ) (b c : Block) (cs : List Block)
    → 0 < lo
    → hi ≤ u64
    → Spans lo (b ∷ c ∷ cs) hi
    → Spans lo (merge b c ∷ cs) hi
unfolding merge
merge-Spans lo hi b c cs low high (above, (next, rest)) =
    let end = Spans-le (c.addr + header + c.size) hi cs rest in
    let size : (b.size + header + c.size) % u64 ≡ b.size + header + c.size = omega arith in
    (
      above,
      rw size
          (Spans-weaken (b.addr + header + (b.size + header + c.size)) _ hi cs (omega arith) rest),
    )

absorb-Spans :
    (lo hi : ℕ) (b : Block) (bs : List Block)
    → 0 < lo
    → hi ≤ u64
    → Spans lo (b ∷ bs) hi
    → Spans lo (absorb b bs) hi
absorb-Spans lo hi b [] low high h = unfold absorb in h
absorb-Spans lo hi b (c ∷ cs) low high h = elim (Bool-cases (b.free && c.free)) [
  | inl both ↦
      rw (absorb_both b c cs both)
        (absorb-Spans lo hi (merge b c) cs low high (merge-Spans lo hi b c cs low high h))
  | inr one ↦
      rw (absorb_one b c cs one)
        (h.0, absorb-Spans (b.addr + header + b.size) hi c cs (omega arith) high h.1)
]

Spans-mem-le :
    (lo hi : ℕ) (pre : List Block) (b : Block) (post : List Block)
    → Spans lo (pre ++ b ∷ post) hi
    → lo ≤ b.addr
Spans-mem-le lo hi [] b post h = h.0
Spans-mem-le lo hi (x ∷ pre) b post h =
    omega (arith, Spans-mem-le (x.addr + header + x.size) hi pre b post h.1)

-- Addresses grow along the chain, so `release` reaches the header that is meant.
release_lem :
    (lo hi : ℕ) (pre : List Block) (b : Block) (post : List Block)
    → Spans lo (pre ++ b ∷ post) hi
    → release b.addr (pre ++ b ∷ post) ≡ some (pre ++ absorb_next (record b { free = true }) post)
unfolding release
release_lem lo hi [] b post h = let e : (b.addr == b.addr) ≡ true = ground arith in rw e
release_lem lo hi (x ∷ pre) b post h =
    let near = Spans-mem-le (x.addr + header + x.size) hi pre b post h.1 in
    let e : (x.addr == b.addr) ≡ false = ground arith in
    rw (e, release_lem (x.addr + header + x.size) hi pre b post h.1)

absorb_next-Spans :
    (lo hi : ℕ) (b : Block) (bs : List Block)
    → 0 < lo
    → hi ≤ u64
    → Spans lo (b ∷ bs) hi
    → Spans lo (absorb_next b bs) hi
unfolding absorb_next merge
absorb_next-Spans lo hi b [] low high h = h
absorb_next-Spans lo hi b (c ∷ cs) low high h = elim (Bool-cases c.free) [
  | inl e ↦ rw e (merge-Spans lo hi b c cs low high h)
  | inr e ↦ rw e h
]

in_use-absorb_next :
    (b : Block) (bs : List Block) → b.free ≡ true → in_use (absorb_next b bs) ≡ in_use bs
unfolding absorb_next merge
in_use-absorb_next b [] h = rw h
in_use-absorb_next b (c ∷ cs) h = ground arith

coalesce-Spans :
    (lo hi : ℕ) (bs : List Block) → 0 < lo → hi ≤ u64 → Spans lo bs hi → Spans lo (coalesce bs) hi
unfolding coalesce
coalesce-Spans lo hi [] low high h = h
coalesce-Spans lo hi (b ∷ bs) low high h = absorb-Spans lo hi b bs low high h

-- The chain behind `kfree`, and the three things that it keeps or brings about.
abbrev pub Freed : ℕ → ℕ → List Block → List Block → List Block → Type 0
Freed lo hi before behind bs =
    (in_use bs ≡ in_use before ++ in_use behind) × IsWellFormed lo hi bs × Coalesced bs

-- `kfree` of a pointer to a block `b` of a well-formed chain ends (it is not stuck, nor outside the
-- chain): the blocks in use are those in use before, in the same order and with the same sizes, without `b`;
-- the chain is well formed in the same memory, and no two neighbours in it are free.
pub kfree_lem :
    (lo hi : ℕ) (h : Heap) (before : List Block) (b : Block) (behind : List Block)
    → h.blocks ≡ before ++ b ∷ behind
    → IsWellFormed lo hi h.blocks
    → (bs : List Block) × (kfree (b.addr + header) h ≡ some (record h { blocks = bs }))
      × Freed lo hi before behind bs
unfolding kfree
kfree_lem lo hi h before b behind e wf =
    let spans = rw e at wf.spans in
    let parts = Spans-split lo hi before (b ∷ behind) spans in
    let mid = parts.0 in
    let b' : Block = record b { free = true } in
    let loose : List Block = before ++ absorb_next b' behind in
    let low' : 0 < mid = omega (arith, Spans-le lo mid before parts.1, wf.low) in
    let loose-Spans =
      Spans-join lo mid hi before (absorb_next b' behind) parts.1
        (absorb_next-Spans mid hi b' behind low' wf.high parts.2) in
    let end = Spans-le (b.addr + header + b.size) hi behind parts.2.1 in
    let at_b : (b.addr + header + u64 - header) % u64 ≡ b.addr = omega (arith, wf.high) in
    let not_null : (b.addr + header == 0) ≡ false = ground arith in
    (
      coalesce loose,
      rw (not_null, at_b, e, release_lem lo hi before b behind spans),
      (
        in_use-coalesce loose
            ∙ in_use-append before (absorb_next b' behind)
            ∙ ap (◌++◌ (in_use before)) (in_use-absorb_next b' behind refl),
        record {
          low = wf.low;
          high = wf.high;
          spans = coalesce-Spans lo hi loose wf.low wf.high loose-Spans;
        },
        coalesce-Coalesced loose,
      ),
    )

Coalesced-Apart :
    (before : List Block) (b : Block) (behind : List Block)
    → Coalesced (before ++ b ∷ behind)
    → Apart b behind
Coalesced-Apart [] b behind h = h.0
Coalesced-Apart (x ∷ before) b behind h = Coalesced-Apart before b behind h.1

absorb_next-split :
    (n : ℕ) (b : Block) (behind : List Block)
    → b.free ≡ true
    → n ≤ b.size
    → n + header + 16 < b.size
    → b.size < u64
    → absorb_next
        (block b.addr n true)
        (block (b.addr + header + n) ((b.size - n + u64 - header) % u64) true ∷ behind)
      ≡ b ∷ behind
unfolding absorb_next merge
absorb_next-split n b behind free room big small = ground arith

absorb_next_whole :
    (b : Block) (behind : List Block)
    → b.free ≡ true
    → Apart b behind
    → absorb_next b behind ≡ b ∷ behind
unfolding absorb_next
absorb_next_whole b [] free h = refl
absorb_next_whole b (c ∷ cs) free h = ground arith

-- The header that `place` wrote, marked free again, takes back what was split off.
release-place :
    (n lo hi : ℕ) (pre : List Block) (b : Block) (post : List Block)
    → b.free ≡ true
    → n ≤ b.size
    → n + header + 16 < u64
    → b.size < u64
    → Apart b post
    → Spans lo (pre ++ (place n b ++ post)) hi
    → release b.addr (pre ++ (place n b ++ post)) ≡ some (pre ++ b ∷ post)
unfolding place
release-place n lo hi pre b post free room small size apart h =
    elim (Bool-cases (ltb ((n + header + 16) % u64) b.size)) [
      | inl split ↦
          let rest : List Block =
            block (b.addr + header + n) ((b.size - n + u64 - header) % u64) true ∷ post in
          rw (
            split,
            release_lem lo hi pre (block b.addr n false) rest (rw split at h),
            absorb_next-split n b post free room (ground arith) size,
          )
      | inr whole ↦
          let same : record b { free = true } ≡ b = ground arith in
          rw (
            whole,
            release_lem lo hi pre (record b { free = false }) post (rw whole at h),
            same,
            absorb_next_whole b post free apart,
          )
    ]

-- Freeing what `kmalloc` has just cut from a free block restores the heap, header for header, if
-- the chain was well formed and had no two free neighbours.
pub kfree-kmalloc {ℓ} :
    {S : Type ℓ} (sbrk : ℕ → S → ℕ × S) (n lo hi : ℕ) (h : Heap) (s : S) (r : List Block × ℕ)
    → n + 2 * page_size ≤ u64
    → IsWellFormed lo hi h.blocks
    → Coalesced h.blocks
    → first_fit (align16 n) h.blocks ≡ some r
    → kfree (kmalloc sbrk n h s).1 (kmalloc sbrk n h s).0.0 ≡ some h
unfolding kfree
kfree-kmalloc sbrk n lo hi h s r small wf co e =
    let f = Fits-first_fit (align16 n) h.blocks r e in
    let b = f.chosen in
    let (up, near) = align16-le n small in
    let new =
      rw f.new at (Fits-Spans (align16 n) lo hi h.blocks r (omega arith) wf.high f wf.spans) in
    let old = Spans-split lo hi f.before (b ∷ f.behind) (rw f.old at wf.spans) in
    let end = Spans-le (b.addr + header + b.size) hi f.behind old.2.1 in
    let at_b : (b.addr + header + u64 - header) % u64 ≡ b.addr = omega (arith, wf.high) in
    let not_null : (b.addr + header == 0) ≡ false = ground arith in
    let co' = rw f.old at co in
    rw (
      kmalloc-first_fit sbrk n h s r e,
      f.ptr,
      not_null,
      at_b,
      f.new,
      release-place (align16 n) lo hi f.before b f.behind f.free f.room (omega arith)
          (omega (arith, wf.high)) (Coalesced-Apart f.before b f.behind co') new,
      coalesce_fixed (f.before ++ b ∷ f.behind) co',
      ← f.old,
    )
