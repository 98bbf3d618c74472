-- ===== src/Heap/Tests.antt =====
-- Runs of the heap, and its theorems at a heap of one page.
use keon_os.Base.{ℕ, ◌≤◌, ◌≡◌, ◌⊎◌, inl, List, refl, true, false, some, [], ◌∷◌, arith}
use keon_os.Heap.{
  Heap, Block, block, minus_one, kheap_init, align16, first_fit, place, kmalloc, is_null, kfree,
  release, absorb_next, merge, coalesce, absorb, append_region,
}
use keon_os.Heap.Layout.{IsWellFormed}
use keon_os.Heap.Malloc.{Outcome, kmalloc_lem}
use keon_os.Heap.Free.{Freed, kfree_lem, kfree-kmalloc}

abbrev page_heap : Heap
page_heap = record { blocks = block 4096 4072 true ∷ []; total_size = 4096 }

-- 112 bytes are in use, and a free block follows.
abbrev busy_heap : Heap
busy_heap = record { blocks = block 4096 112 false ∷ block 4232 3936 true ∷ []; total_size = 4096 }

abbrev no_memory : ℕ → Unit {0} → ℕ × Unit {0}
no_memory m s = (minus_one, s)

-- Each request gets whole pages from 0x10000 on.
abbrev one_page : ℕ → Unit {0} → ℕ × Unit {0}
one_page m s = (0x10000, s)

kheap_init_run : kheap_init 4096 4096 (record { blocks = []; total_size = 0 }) ≡ (page_heap, true)
unfolding kheap_init
kheap_init_run = refl

kmalloc_run : kmalloc no_memory 100 page_heap tt ≡ ((busy_heap, tt), 4120)
unfolding kmalloc is_null first_fit align16 place
kmalloc_run = refl

kmalloc_grows_run : kmalloc one_page 5000 page_heap tt ≡ (
  (record page_heap { blocks = block 4096 4072 true ∷ block 0x10000 8168 false ∷ [] }, tt),
  0x10018,
)
unfolding kmalloc is_null first_fit align16 append_region
kmalloc_grows_run = refl

kfree_run : kfree 4120 busy_heap ≡ some page_heap
unfolding kfree release absorb_next merge coalesce absorb
kfree_run = refl

-- A request of 2^64 - 1 bytes gets a block of none.
kmalloc_wraps_run : (kmalloc no_memory minus_one page_heap tt).1 ≡ 4120
unfolding kmalloc is_null first_fit align16 place
kmalloc_wraps_run = refl

page_heap-IsWellFormed : IsWellFormed 4096 8192 page_heap.blocks
page_heap-IsWellFormed = record { low = omega arith; high = omega arith; spans = omega arith }

busy_heap-IsWellFormed : IsWellFormed 4096 8192 busy_heap.blocks
busy_heap-IsWellFormed = record { low = omega arith; high = omega arith; spans = omega arith }

kmalloc_lem_example :
    (100 ≤ align16 100)
    × ((is_null page_heap.blocks ≡ true)
          × ((kmalloc no_memory 100 page_heap tt).1 ≡ 0)
          × ((kmalloc no_memory 100 page_heap tt).0.0 ≡ page_heap)
        ⊎ Outcome (align16 100) 4096 8192 page_heap (kmalloc no_memory 100 page_heap tt))
kmalloc_lem_example =
    kmalloc_lem no_memory 100 4096 8192 page_heap tt (omega arith) page_heap-IsWellFormed (inl refl)

kfree_lem_example :
    (bs : List Block) × (kfree 4120 busy_heap ≡ some (record busy_heap { blocks = bs }))
    × Freed 4096 8192 [] (block 4232 3936 true ∷ []) bs
kfree_lem_example =
    kfree_lem 4096 8192 busy_heap [] (block 4096 112 false) (block 4232 3936 true ∷ []) refl
      busy_heap-IsWellFormed

kfree-kmalloc_example :
    kfree (kmalloc no_memory 100 page_heap tt).1 (kmalloc no_memory 100 page_heap tt).0.0
    ≡ some page_heap
unfolding first_fit align16 place
kfree-kmalloc_example =
    kfree-kmalloc no_memory 100 4096 8192 page_heap tt (busy_heap.blocks, 4120) (omega arith)
      page_heap-IsWellFormed (tt, tt) refl
