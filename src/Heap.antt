-- ===== src/Heap.antt =====
-- The kernel heap of mm/heap.cpp. The chain of headers that starts at `heap_start` is a list in
-- the order of the `next` links; `heap_start == NULL` is the empty list.
pub mod Layout
pub mod Malloc
mod Free
mod Tests
use keon_os.Base.{
  ℕ, ◌+◌, ◌-◌, ◌*◌, ◌/◌, ◌%◌, ◌^◌, ◌&&◌, ◌||◌, Bool, true, false, Option, none, some, List, [], ◌∷◌,
  ◌++◌, ltb, leb, ◌==◌, if◌then◌else◌,
}
use mathlib.Core.Option

-- `sizeof(struct heap_block)`: a size, a flag with its padding, a pointer.
abbrev pub header : ℕ
header = 24

abbrev pub u64 : ℕ
u64 = 2 ^ 64

abbrev pub page_size : ℕ
page_size = 4096

-- `(void*)-1`
abbrev pub minus_one : ℕ
minus_one = u64 - 1

pub record Block : Type 0 where
  pub addr : ℕ
  pub size : ℕ
  pub free : Bool

pub record Heap : Type 0 where
  pub blocks : List Block
  pub total_size : ℕ

abbrev pub block : ℕ → ℕ → Bool → Block
block a n f = record { addr = a; size = n; free = f }

pub kheap_init : ℕ → ℕ → Heap → Heap × Bool
kheap_init start n h =
    if (start == 0)
    then (h, false)
    else if ltb n (header * 2)
    then (h, false)
    else (record { blocks = block start (n - header) true ∷ []; total_size = n }, true)

-- `(size + 15) & ~15`
unfoldable pub align16 : ℕ → ℕ
align16 n = (n + 15) % u64 / 16 * 16

-- The chosen header: split if a header and more than 16 bytes are left over, else taken whole.
pub place : ℕ → Block → List Block
place n b =
    if ltb ((n + header + 16) % u64) b.size
    then block b.addr n false
      ∷ block (b.addr + header + n) ((b.size - n + u64 - header) % u64) true
      ∷ []
    else record b { free = false } ∷ []

-- The first-fit walk: the new chain and the address behind the chosen header.
pub first_fit : ℕ → List Block → Option (List Block × ℕ)
first_fit n [] = none
first_fit n (b ∷ bs) =
    let rest = first_fit n bs in
    if b.free && leb n b.size
    then some (place n b ++ bs, b.addr + header)
    else Option.map (λ r. (b ∷ r.0, r.1)) rest

-- The end of `kmalloc`, with what `VMM::sbrk` returned: a region of whole pages is appended.
unfoldable pub append_region {ℓ} : {S : Type ℓ} → ℕ → Heap → ℕ × S → (Heap × S) × ℕ
append_region n h (p, s) =
    let needed = (n + header) % u64 in
    let actual = (needed + page_size - 1) % u64 / page_size * page_size in
    if (p == minus_one) || (p == 0) then ((h, s), 0) else (
      (record h { blocks = h.blocks ++ block p ((actual + u64 - header) % u64) false ∷ [] }, s),
      p + header,
    )

pub is_null {ℓ} : {A : Type ℓ} → List A → Bool
is_null [] = true
is_null (x ∷ xs) = false

-- `sbrk` is `VMM::sbrk`, over the state `S` that it changes. A result 0 is `NULL`.
unfoldable pub kmalloc {ℓ} : {S : Type ℓ} → (ℕ → S → ℕ × S) → ℕ → Heap → S → (Heap × S) × ℕ
kmalloc sbrk n h s =
    if is_null h.blocks then ((h, s), 0) else elim (first_fit (align16 n) h.blocks) [
      | some (bs, p) ↦ ((record h { blocks = bs }, s), p)
      | none ↦ append_region (align16 n) h (sbrk ((align16 n + header) % u64) s)
    ]

-- `b` takes over the header and the bytes of the block behind it.
pub merge : Block → Block → Block
merge b c = record b { size = (b.size + header + c.size) % u64 }

pub absorb_next : Block → List Block → List Block
absorb_next b [] = b ∷ []
absorb_next b (c ∷ cs) = if c.free then merge b c ∷ cs else b ∷ c ∷ cs

-- The header at address `a` is marked free and merged with a free block behind it; `none` where
-- no header of the chain stands at `a`, and the C code writes outside the chain.
pub release : ℕ → List Block → Option (List Block)
unfolding absorb_next
release a [] = none
release a (b ∷ bs) =
    let rest = release a bs in
    if b.addr == a
    then some (absorb_next (record b { free = true }) bs)
    else Option.map (λ r. b ∷ r) rest

-- The walk that merges each run of free blocks.
pub absorb : Block → List Block → List Block
absorb b [] = b ∷ []
absorb b (c ∷ cs) = elim (b.free && c.free) [
  | true ↦ absorb (merge b c) cs
  | false ↦ b ∷ absorb c cs
]

pub coalesce : List Block → List Block
unfolding absorb
coalesce [] = []
coalesce (b ∷ bs) = absorb b bs

pub kfree : ℕ → Heap → Option Heap
kfree p h =
    if p == 0
    then some h
    else Option.map (λ bs. record h { blocks = coalesce bs })
        (release ((p + u64 - header) % u64) h.blocks)

pub record Stats : Type 0 where
  pub total_size : ℕ
  pub used_size : ℕ
  pub free_size : ℕ
  pub block_count : ℕ
  pub free_block_count : ℕ

count_blocks : List Block → Stats → Stats
count_blocks [] st = st
count_blocks (b ∷ bs) st = count_blocks bs (
    if b.free
    then record st {
      block_count = (st.block_count + 1) % u64;
      free_size = (st.free_size + b.size) % u64;
      free_block_count = (st.free_block_count + 1) % u64;
    }
    else record st {
      block_count = (st.block_count + 1) % u64;
      used_size = (st.used_size + b.size) % u64;
    })

clamp_stats : Stats → Stats
clamp_stats st =
    let used = (st.used_size + st.block_count * header % u64) % u64 in
    let used' = if ltb st.total_size used then st.total_size else used in
    record st { used_size = used'; free_size = (st.total_size + u64 - used') % u64 }

pub kheap_get_stats : Heap → Stats
unfolding count_blocks clamp_stats
kheap_get_stats h = clamp_stats (
    count_blocks h.blocks (record {
      total_size = h.total_size;
      used_size = 0;
      free_size = 0;
      block_count = 0;
      free_block_count = 0;
    }))
