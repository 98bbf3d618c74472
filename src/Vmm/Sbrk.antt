-- ===== src/Vmm/Sbrk.antt =====
-- `VMM::sbrk` of mm/vmm.cpp, and `kmalloc` of mm/heap.cpp over it.
use keon_os.Base.{
  ℕ, zero, suc, ◌+◌, ◌-◌, ◌*◌, ◌/◌, ◌%◌, ◌≤◌, ◌<◌, ◌≡◌, ◌⊎◌, inl, inr, refl, true, false, ◌||◌,
  ◌==◌, List, [], ◌∷◌, arith, Bool-cases,
}
use mathlib.Core.Bool.{false≢true}
use keon_os.Heap.{Heap, Block, block, header, align16, append_region, kmalloc, is_null}
use keon_os.Heap.Layout.{IsWellFormed, Spans, Spans-le, Spans-join}
use keon_os.Heap.Malloc.{
  Granted, Grows, Fits-Spans, Fits-Granted, first_fit_lem, align16-le, append-Granted,
}
use keon_os.Paging.{alloc_page, paging_map_page}
use keon_os.Pfa.{page_size, u64}
use keon_os.Vmm.{Vmm, sbrk, sbrk_pages, minus_one}

-- The break moves by whole pages, and by all `n` of them if no frame is missing.
sbrk_pages_lem :
    (n : ℕ) (v : Vmm)
    → v.kernel_dynamic_break + n * page_size < u64
    → (v.kernel_dynamic_break ≤ (sbrk_pages n v).0.kernel_dynamic_break)
      × ((sbrk_pages n v).0.kernel_dynamic_break ≤ v.kernel_dynamic_break + n * page_size)
      × ((sbrk_pages n v).1 ≡ true
          → (sbrk_pages n v).0.kernel_dynamic_break ≡ v.kernel_dynamic_break + n * page_size)
unfolding sbrk_pages
sbrk_pages_lem zero v h = (omega arith, omega arith, λ _. omega arith)
sbrk_pages_lem (suc n) v h =
    let r = alloc_page v.mmu in
    elim (Bool-cases (r.1 == 0)) [
      | inl out ↦ rw out (omega arith, omega arith, λ e. absurd (false≢true e))
      | inr page ↦
          let moved = (v.kernel_dynamic_break + page_size) % u64 in
          let fits : moved ≡ v.kernel_dynamic_break + page_size = omega arith in
          let v' = (record v {
            mmu = paging_map_page v.kernel_dynamic_break r.1 3 r.0;
            kernel_dynamic_break = moved;
          }) in
          let (low, high, all) = sbrk_pages_lem n v' (omega arith) in
          rw page (omega arith, omega arith, λ e. omega (arith, all e))
    ]

-- The bytes of the whole pages that hold `n` bytes.
abbrev pub whole_pages : ℕ → ℕ
whole_pages n = (n + page_size - 1) / page_size * page_size

-- What `VMM::sbrk` answers to `n` bytes, and where the break is after it.
abbrev pub Advanced : ℕ → Vmm → ℕ × Vmm → Type 0
Advanced n v r =
    ((r.0 ≡ minus_one)
      × (v.kernel_dynamic_break ≤ r.1.kernel_dynamic_break)
      × (r.1.kernel_dynamic_break ≤ v.kernel_dynamic_break + whole_pages n))
    ⊎ ((r.0 ≡ v.kernel_dynamic_break)
        × (r.1.kernel_dynamic_break ≡ v.kernel_dynamic_break + whole_pages n))

-- A call of `VMM::sbrk` once the break is set, for `n` bytes that fit below 2^64, either returns the
-- old break and moves the break by just the whole pages that hold the bytes, or fails
-- with -1 and leaves the break at most there and never below the old one.
pub sbrk_lem :
    (n : ℕ) (v : Vmm)
    → 0 < v.kernel_dynamic_break
    → 0 < n
    → v.kernel_dynamic_break + whole_pages n < u64
    → n + page_size ≤ u64
    → Advanced n v (sbrk n v)
unfolding sbrk
sbrk_lem n v set some_bytes fits small =
    let pages : (n + page_size - 1) % u64 ≡ n + page_size - 1 = omega arith in
    let v' = (record v { vmm_allocated_bytes = (v.vmm_allocated_bytes + whole_pages n) % u64 }) in
    let (low, high, all) = sbrk_pages_lem ((n + page_size - 1) / page_size) v' fits in
    let running : (v.kernel_dynamic_break == 0) ≡ false = ground arith in
    let wanted : (n == 0) ≡ false = ground arith in
    rw (running, wanted, pages)
      (elim (Bool-cases (sbrk_pages ((n + page_size - 1) / page_size) v').1) [
        | inl done ↦ rw done (inr (refl, all done))
        | inr short ↦ rw short (inl (refl, low, high))
      ])

-- `VMM::sbrk` keeps to what `kmalloc` relies on, wherever below the break the chain ends.
pub sbrk-Grows :
    (n hi : ℕ) (v : Vmm)
    → hi ≤ v.kernel_dynamic_break
    → Advanced n v (sbrk n v)
    → v.kernel_dynamic_break + whole_pages n < u64
    → Grows hi n (sbrk n v).0
sbrk-Grows n hi v below (inl (e, _, _)) fits = inl e
sbrk-Grows n hi v below (inr (e, _)) fits = inr (inr (rw e (below, omega arith)))

-- The answer of `kmalloc` over `VMM::sbrk`: the chain is well formed below the break.
abbrev pub Served : ℕ → ℕ → Heap → (Heap × Vmm) × ℕ → Type 0
Served n lo h r =
    IsWellFormed lo r.0.1.kernel_dynamic_break r.0.0.blocks
    × (((r.1 ≡ 0) × (r.0.0 ≡ h)) ⊎ Granted n r.1 h.blocks r.0.0.blocks)

IsWellFormed-le :
    (lo hi hi' : ℕ) (bs : List Block)
    → hi ≤ hi'
    → hi' ≤ u64
    → IsWellFormed lo hi bs
    → IsWellFormed lo hi' bs
IsWellFormed-le lo hi hi' bs le top wf = record {
  low = wf.low;
  high = top;
  spans = Spans-weaken lo bs wf.spans;
}
  where
    Spans-weaken : (lo : ℕ) (bs : List Block) → Spans lo bs hi → Spans lo bs hi'
    Spans-weaken lo [] h = omega arith
    Spans-weaken lo (b ∷ bs) (l, r) = (l, Spans-weaken (b.addr + header + b.size) bs r)

append_region-Served :
    (n lo : ℕ) (h : Heap) (v : Vmm) (r : ℕ × Vmm)
    → n + header + page_size < u64
    → v.kernel_dynamic_break + whole_pages (n + header) < u64
    → IsWellFormed lo v.kernel_dynamic_break h.blocks
    → Advanced (n + header) v r
    → Served n lo h (append_region n h r)
unfolding append_region
append_region-Served n lo h v (p, v') small fits wf (inl (e, low, high)) =
    let failed : ((p == minus_one) || (p == 0)) ≡ true = ground arith in
    rw failed (
      IsWellFormed-le lo v.kernel_dynamic_break v'.kernel_dynamic_break h.blocks low (omega arith)
          wf,
      inl (refl, refl),
    )
append_region-Served n lo h v (p, v') small fits wf (inr (e, moved)) =
    let set : 0 < v.kernel_dynamic_break =
      omega (arith, wf.low, Spans-le lo v.kernel_dynamic_break h.blocks wf.spans) in
    let grown : ((p == minus_one) || (p == 0)) ≡ false = ground arith in
    let actual = ((n + header) % u64 + page_size - 1) % u64 / page_size * page_size in
    let size = (actual + u64 - header) % u64 in
    let exact : actual ≡ whole_pages (n + header) = omega arith in
    let end : p + header + size ≡ v'.kernel_dynamic_break = omega arith in
    let (given, _) =
      append-Granted n lo v.kernel_dynamic_break h.blocks (block p size false) refl (omega arith) wf
        (omega arith) (omega arith) in
    rw grown (
      record {
        low = wf.low;
        high = omega arith;
        spans =
            Spans-join lo v.kernel_dynamic_break v'.kernel_dynamic_break h.blocks
              (block p size false ∷ []) wf.spans (omega arith, omega arith);
      },
      inr given,
    )

-- `kmalloc` over `VMM::sbrk`: while the break stays below 2^64, the chain of a heap that is well
-- formed below the break is well formed below the break that the call leaves. The call returns
-- `NULL` and the old heap, or a block of at least the rounded size that was not in use, and
-- all other blocks in use are as they were.
pub kmalloc-sbrk :
    (n lo : ℕ) (h : Heap) (v : Vmm)
    → n + 2 * page_size ≤ u64
    → v.kernel_dynamic_break + whole_pages (align16 n + header) < u64
    → IsWellFormed lo v.kernel_dynamic_break h.blocks
    → Served (align16 n) lo h (kmalloc sbrk n h v)
unfolding kmalloc
kmalloc-sbrk n lo h v small fits wf =
    let (up, near) = align16-le n small in
    let set : 0 < v.kernel_dynamic_break =
      omega (arith, wf.low, Spans-le lo v.kernel_dynamic_break h.blocks wf.spans) in
    elim (Bool-cases (is_null h.blocks)) [
      | inl empty ↦ rw empty (wf, inl (refl, refl))
      | inr full ↦ rw full (elim (first_fit_lem (align16 n) h.blocks) [
        | inl (e, all) ↦
            let whole : (align16 n + header) % u64 ≡ align16 n + header = omega arith in
            rw (e, whole)
              (append_region-Served (align16 n) lo h v (sbrk (align16 n + header) v) (omega arith)
                fits wf (sbrk_lem (align16 n + header) v set (omega arith) fits (omega arith)))
        | inr (r, e, f) ↦ rw e (
          record {
            low = wf.low;
            high = wf.high;
            spans =
                Fits-Spans (align16 n) lo v.kernel_dynamic_break h.blocks r (omega arith) wf.high f
                  wf.spans;
          },
          inr (Fits-Granted (align16 n) h.blocks r f),
        )
      ])
    ]
