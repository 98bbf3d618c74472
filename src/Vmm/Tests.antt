-- ===== src/Vmm/Tests.antt =====
-- Runs of the break over a memory of 64 frames, and its theorems at one state.
use keon_os.Base.{true, [], ◌∷◌, arith}
use keon_os.Heap.{Heap, block, align16, kmalloc}
use keon_os.Paging.Empty.{empty, empty-Sound}
use keon_os.Vmm.{Vmm, sbrk}
use keon_os.Vmm.Sbrk.{Served, kmalloc-sbrk}
use keon_os.Vmm.Pages.{Grown, sbrk-Grown}

abbrev started : Vmm
started = record { mmu = empty; kernel_dynamic_break = 0x10000; vmm_allocated_bytes = 0 }

abbrev small_heap : Heap
small_heap = record { blocks = block 0xf000 4072 true ∷ []; total_size = 4096 }

sbrk-Grown_example : Grown 5000 started (sbrk 5000 started)
sbrk-Grown_example =
    sbrk-Grown 5000 started (omega arith) (omega arith) (omega arith) (omega arith) empty-Sound
      (omega arith)

kmalloc-sbrk_example :
    Served (align16 5000) 0xf000 small_heap (kmalloc sbrk 5000 small_heap started)
unfolding align16
kmalloc-sbrk_example =
    kmalloc-sbrk 5000 0xf000 small_heap started (omega arith) (omega arith)
      (record { low = omega arith; high = omega arith; spans = (omega arith, omega arith) })
