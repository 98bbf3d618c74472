-- ===== src/Heap/Malloc.antt =====
-- What `kmalloc` of mm/heap.cpp gives out.
use keon_os.Base.{
  ℕ, ◌+◌, ◌-◌, ◌*◌, ◌/◌, ◌%◌, ◌≤◌, ◌<◌, ◌≡◌, ◌⊎◌, inl, inr, refl, true, false, ◌&&◌, List, [], ◌∷◌,
  ◌++◌, arith, sym, ◌||◌, ◌==◌, none, some, leb, ltb, Bool-cases,
}
use mathlib.Core.Path.{subst}
use mathlib.Core.Bool.{false≢true}
use mathlib.Core.List.{append-nil}
use keon_os.Heap.{
  Block, Heap, block, header, u64, page_size, minus_one, align16, place, first_fit, append_region,
  kmalloc, is_null,
}
use keon_os.Heap.Layout.{
  Spans, in_use, IsWellFormed, Spans-le, Spans-split, Spans-join, in_use-append,
}

-- No block of the chain is free and holds `n` bytes.
abbrev pub NoFit : ℕ → List Block → Type 0
NoFit n [] = Unit {0}
NoFit n (b ∷ bs) = ((b.free && leb n b.size) ≡ false) × NoFit n bs

-- A walk that found the block `b` between `before` and `behind`.
pub record Fits (n : ℕ) (bs : List Block) (r : List Block × ℕ) : Type 0 where
  pub before : List Block
  pub chosen : Block
  pub behind : List Block
  pub old : bs ≡ before ++ chosen ∷ behind
  pub new : r.0 ≡ before ++ (place n chosen ++ behind)
  pub ptr : r.1 ≡ chosen.addr + header
  pub free : chosen.free ≡ true
  pub room : n ≤ chosen.size
  pub first : NoFit n before

Fits-cons :
    (n : ℕ) (b : Block) (bs : List Block) (r : List Block × ℕ)
    → (b.free && leb n b.size) ≡ false
    → Fits n bs r
    → Fits n (b ∷ bs) (b ∷ r.0, r.1)
Fits-cons n b bs r miss f = record {
  before = b ∷ f.before;
  chosen = f.chosen;
  behind = f.behind;
  old = ground (arith, f.old);
  new = ground (arith, f.new);
  ptr = f.ptr;
  free = f.free;
  room = f.room;
  first = (miss, f.first);
}

pub first_fit_lem :
    (n : ℕ) (bs : List Block)
    → ((first_fit n bs ≡ none) × NoFit n bs)
      ⊎ ((r : List Block × ℕ) × (first_fit n bs ≡ some r) × Fits n bs r)
unfolding first_fit
first_fit_lem n [] = inl (refl, tt)
first_fit_lem n (b ∷ bs) = elim (Bool-cases (b.free && leb n b.size)) [
  | inl hit ↦ inr (
    (place n b ++ bs, b.addr + header),
    rw hit,
    record {
      before = [];
      chosen = b;
      behind = bs;
      old = refl;
      new = refl;
      ptr = refl;
      free = ground arith;
      room = ground arith;
      first = tt;
    },
  )
  | inr miss ↦ elim (first_fit_lem n bs) [
    | inl (e, all) ↦ inl (rw (miss, e), (miss, all))
    | inr (r, e, f) ↦ inr ((b ∷ r.0, r.1), rw (miss, e), Fits-cons n b bs r miss f)
  ]
]

pub Fits-first_fit :
    (n : ℕ) (bs : List Block) (r : List Block × ℕ) → first_fit n bs ≡ some r → Fits n bs r
Fits-first_fit n bs r e = elim (first_fit_lem n bs) [
  | inl (e', _) ↦ absurd (false≢true (cc))
  | inr (r', e', f) ↦ let same : r' ≡ r = cc in subst (Fits n bs) same f
]

pub kmalloc-first_fit {ℓ} :
    {S : Type ℓ} (sbrk : ℕ → S → ℕ × S) (n : ℕ) (h : Heap) (s : S) (r : List Block × ℕ)
    → first_fit (align16 n) h.blocks ≡ some r
    → kmalloc sbrk n h s ≡ ((record h { blocks = r.0 }, s), r.1)
unfolding kmalloc
kmalloc-first_fit sbrk n h s r e = elim (Bool-cases (is_null h.blocks)) [
  | inl empty ↦ absurd (false≢true (nowhere h.blocks empty e))
  | inr full ↦ rw (full, e)
]
  where
    nowhere :
        (bs : List Block) → is_null bs ≡ true → first_fit (align16 n) bs ≡ some r → false ≡ true
    nowhere [] empty e = unfold first_fit in cc
    nowhere (b ∷ bs) empty e = unfold is_null in empty

place-Spans :
    (n lo hi : ℕ) (b : Block) (bs : List Block)
    → n ≤ b.size
    → n + header + 16 < u64
    → hi ≤ u64
    → Spans lo (b ∷ bs) hi
    → Spans lo (place n b ++ bs) hi
unfolding place
place-Spans n lo hi b bs room small high h =
    let end = Spans-le (b.addr + header + b.size) hi bs h.1 in
    elim (Bool-cases (ltb ((n + header + 16) % u64) b.size)) [
      | inl split ↦
          let left : b.addr + header + n + header + (b.size - n + u64 - header) % u64
              ≡ b.addr + header + b.size =
            ground arith in
          rw split (h.0, (omega arith, rw left h.1))
      | inr whole ↦ rw whole h
    ]

-- The block that `place` takes is in use, at its old address and with room for `n` bytes.
place-in_use :
    (n : ℕ) (b : Block)
    → n ≤ b.size
    → (c : Block) × (in_use (place n b) ≡ c ∷ []) × (c.addr ≡ b.addr) × (n ≤ c.size)
unfolding place
place-in_use n b room = elim (Bool-cases (ltb ((n + header + 16) % u64) b.size)) [
  | inl split ↦ (block b.addr n false, rw split, refl, omega arith)
  | inr whole ↦ (record b { free = false }, rw whole, refl, room)
]

-- `p` points to a block of at least `n` bytes that the chain `new` has in use and `old` has not;
-- all else that is in use is as it was.
pub record Granted (n p : ℕ) (old new : List Block) : Type 0 where
  pub before : List Block
  pub given : Block
  pub behind : List Block
  pub was : in_use old ≡ before ++ behind
  pub now : in_use new ≡ before ++ given ∷ behind
  pub ptr : p ≡ given.addr + header
  pub room : n ≤ given.size

pub Fits-Granted :
    (n : ℕ) (bs : List Block) (r : List Block × ℕ) → Fits n bs r → Granted n r.1 bs r.0
Fits-Granted n bs r f =
    let (c, now, addr, room) = place-in_use n f.chosen f.room in
    record {
      before = in_use f.before;
      given = c;
      behind = in_use f.behind;
      was = rw (f.old, in_use-append f.before (f.chosen ∷ f.behind), f.free);
      now = rw (
        f.new,
        in_use-append f.before (place n f.chosen ++ f.behind),
        in_use-append (place n f.chosen) f.behind,
        now,
      );
      ptr = omega (arith, f.ptr);
      room = room;
    }

pub Fits-Spans :
    (n lo hi : ℕ) (bs : List Block) (r : List Block × ℕ)
    → n + header + 16 < u64
    → hi ≤ u64
    → Fits n bs r
    → Spans lo bs hi
    → Spans lo r.0 hi
Fits-Spans n lo hi bs r small high f h =
    let (mid, left, right) = Spans-split lo hi f.before (f.chosen ∷ f.behind) (rw f.old at h) in
    rw f.new (
      Spans-join lo mid hi f.before (place n f.chosen ++ f.behind) left
        (place-Spans n mid hi f.chosen f.behind f.room small high right))

-- What `VMM::sbrk` may answer to a request of `m` bytes when the chain ends at `hi`: a failure,
-- or the start of whole pages for `m` bytes that lie above the chain.
abbrev pub Grows : ℕ → ℕ → ℕ → Type 0
Grows hi m p =
    (p ≡ minus_one) ⊎ (p ≡ 0) ⊎ ((hi ≤ p) × (p + (m + page_size - 1) / page_size * page_size ≤ u64))

-- Either `NULL`, the old heap, and no free block that holds `n` bytes; or a block of at least `n`
-- bytes, in a heap that is again well formed.
abbrev pub Outcome {ℓ} : {S : Type ℓ} → ℕ → ℕ → ℕ → Heap → (Heap × S) × ℕ → Type 0
Outcome n lo hi h r =
    ((r.1 ≡ 0) × (r.0.0 ≡ h) × NoFit n h.blocks)
    ⊎ (Granted n r.1 h.blocks r.0.0.blocks
        × ((end : ℕ) × (hi ≤ end) × IsWellFormed lo end r.0.0.blocks))

-- A block in use behind the chain.
pub append-Granted :
    (n lo hi : ℕ) (bs : List Block) (b : Block)
    → b.free ≡ false
    → n ≤ b.size
    → IsWellFormed lo hi bs
    → hi ≤ b.addr
    → b.addr + header + b.size ≤ u64
    → Granted n (b.addr + header) bs (bs ++ b ∷ [])
      × ((end : ℕ) × (hi ≤ end) × IsWellFormed lo end (bs ++ b ∷ []))
append-Granted n lo hi bs b used room wf above top = (
  record {
    before = in_use bs;
    given = b;
    behind = [];
    was = sym (append-nil (in_use bs));
    now = rw (in_use-append bs (b ∷ []), used);
    ptr = refl;
    room = room;
  },
  (
    b.addr + header + b.size,
    omega arith,
    record {
      low = wf.low;
      high = top;
      spans = Spans-join lo hi (b.addr + header + b.size) bs (b ∷ []) wf.spans (above, omega arith);
    },
  ),
)

append_region_lem {ℓ} :
    {S : Type ℓ} (n lo hi : ℕ) (h : Heap) (p : ℕ) (s : S)
    → n + header + page_size < u64
    → IsWellFormed lo hi h.blocks
    → NoFit n h.blocks
    → Grows hi (n + header) p
    → Outcome n lo hi h (append_region n h (p, s))
unfolding append_region
append_region_lem n lo hi h p s small wf all grows =
    elim (Bool-cases ((p == minus_one) || (p == 0))) [
      | inl failed ↦ rw failed (inl (refl, refl, all))
      | inr grown ↦
          let (above, top) : (hi ≤ p)
              × (p + (n + header + page_size - 1) / page_size * page_size ≤ u64) =
            ground arith in
          rw grown
            (inr (append-Granted n lo hi h.blocks _ refl (omega arith) wf above (omega arith)))
    ]

pub align16-le : (n : ℕ) → n + 2 * page_size ≤ u64 → (n ≤ align16 n) × (align16 n ≤ n + 15)
unfolding align16
align16-le n h = (omega arith, omega arith)

-- `kmalloc` on a well-formed chain, when `VMM::sbrk` keeps to its contract. A request that is two
-- pages or more below 2^64 gets `NULL` and leaves the heap alone, and then no free block holds
-- the rounded request; or it gets a block of at least the bytes that it asks for. That block was not in
-- use, all other blocks in use stay as they are, and the new chain is well formed, so the block
-- overlaps none of them.
pub kmalloc_lem {ℓ} :
    {S : Type ℓ} (sbrk : ℕ → S → ℕ × S) (n lo hi : ℕ) (h : Heap) (s : S)
    → n + 2 * page_size ≤ u64
    → IsWellFormed lo hi h.blocks
    → Grows hi (align16 n + header) (sbrk (align16 n + header) s).0
    → (n ≤ align16 n)
      × ((is_null h.blocks ≡ true) × ((kmalloc sbrk n h s).1 ≡ 0) × ((kmalloc sbrk n h s).0.0 ≡ h)
          ⊎ Outcome (align16 n) lo hi h (kmalloc sbrk n h s))
unfolding kmalloc
kmalloc_lem sbrk n lo hi h s small wf grows =
    let (up, near) = align16-le n small in
    (
      up,
      elim (Bool-cases (is_null h.blocks)) [
        | inl empty ↦ inl (empty, rw empty, rw empty)
        | inr full ↦ inr (
            rw full (elim (first_fit_lem (align16 n) h.blocks) [
              | inl (e, all) ↦
                  let fits : (align16 n + header) % u64 ≡ align16 n + header = omega arith in
                  let (p, s') = sbrk (align16 n + header) s in
                  rw (e, fits)
                    (append_region_lem (align16 n) lo hi h p s' (omega arith) wf all grows)
              | inr (r, e, f) ↦ rw e (
                  inr (
                    Fits-Granted (align16 n) h.blocks r f,
                    (
                      hi,
                      omega arith,
                      record {
                        low = wf.low;
                        high = wf.high;
                        spans =
                            Fits-Spans (align16 n) lo hi h.blocks r (omega arith) wf.high f
                              wf.spans;
                      },
                    ),
                  ))
            ]))
      ],
    )
