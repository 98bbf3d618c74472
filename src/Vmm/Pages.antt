-- ===== src/Vmm/Pages.antt =====
-- The pages that `VMM::sbrk` of mm/vmm.cpp maps.
use keon_os.Base.{
  ℕ, zero, suc, ◌+◌, ◌*◌, ◌/◌, ◌-◌, ◌%◌, ◌<◌, ◌≤◌, ◌≡◌, ◌⊎◌, inl, inr, refl, Bool, true, false,
  ◌==◌, arith,
}
use mathlib.Core.Path.{subst}
use keon_os.Pfa.{page_size, u64}
use keon_os.Paging.{current_pml4, alloc_page, paging_map_page}
use keon_os.Paging.Descent.{Sound}
use keon_os.Paging.Fresh.{Exhausted, Small, alloc_page-Exhausted, alloc_page-Fresh}
use keon_os.Paging.Extend.{Extended, Extended-zero, Extended-suc, map-Extended}
use keon_os.Vmm.{Vmm, sbrk, sbrk_pages, minus_one}

-- The loop has mapped `j` pages from the break on, and moved the break and nothing else: all `n`, or fewer as no
-- frame was left.
record Mapping (n : ℕ) (v : Vmm) (r : Vmm × Bool) : Type 0 where
  j : ℕ
  break : r.0.kernel_dynamic_break ≡ v.kernel_dynamic_break + j * page_size
  bytes : r.0.vmm_allocated_bytes ≡ v.vmm_allocated_bytes
  extended : Extended j v.kernel_dynamic_break v.mmu r.0.mmu
  ended : ((r.1 ≡ true) × (j ≡ n)) ⊎ ((r.1 ≡ false) × (j < n) × Exhausted r.0.mmu)

sbrk_pages-Exhausted : (n : ℕ) (v : Vmm) → Exhausted v.mmu → Exhausted (sbrk_pages n v).0.mmu
unfolding sbrk_pages
sbrk_pages-Exhausted zero v out = out
sbrk_pages-Exhausted (suc n) v out =
    let none_there : ((alloc_page v.mmu).1 == 0) ≡ true =
      rw (alloc_page-Exhausted v.mmu out) refl in
    rw (none_there, alloc_page-Exhausted v.mmu out) out

sbrk_pages-Mapping :
    (n : ℕ) (v : Vmm)
    → v.kernel_dynamic_break + n * page_size < u64
    → Sound (current_pml4 v.mmu) v.mmu
    → Small v.mmu
    → Mapping n v (sbrk_pages n v)
unfolding sbrk_pages
sbrk_pages-Mapping zero v fits s small = record {
  j = 0;
  break = omega arith;
  bytes = refl;
  extended = Extended-zero v.kernel_dynamic_break v.mmu s small;
  ended = inl (refl, refl);
}
sbrk_pages-Mapping (suc n) v fits s small =
    let r = alloc_page v.mmu in
    elim (alloc_page-Fresh v.mmu s small) [
      | inl (none_left, out) ↦
          let null : (r.1 == 0) ≡ true = rw none_left refl in
          rw (null, none_left)
            (record {
              j = 0;
              break = omega arith;
              bytes = refl;
              extended = Extended-zero v.kernel_dynamic_break v.mmu s small;
              ended = inr (refl, omega arith, out);
            })
      | inr f ↦
          let first = map-Extended v.kernel_dynamic_break 3 v.mmu (omega arith) f in
          rw f.real (
            behind first (sbrk_pages-Mapping n moved (omega (arith, fits)) first.sound first.small))
    ]
  where
    moved : Vmm
    moved = record v {
      mmu = paging_map_page v.kernel_dynamic_break (alloc_page v.mmu).1 3 (alloc_page v.mmu).0;
      kernel_dynamic_break = (v.kernel_dynamic_break + page_size) % u64;
    }

    behind :
        Extended 1 v.kernel_dynamic_break v.mmu moved.mmu
        → Mapping n moved (sbrk_pages n moved)
        → Mapping (suc n) v (sbrk_pages n moved)
    behind first rest =
        let next : (v.kernel_dynamic_break + page_size) % u64 ≡ v.kernel_dynamic_break + page_size =
          omega (arith, fits) in
        record {
          j = suc rest.j;
          break = omega (arith, rest.break, next);
          bytes = rest.bytes;
          extended =
              Extended-suc rest.j v.kernel_dynamic_break v.mmu moved.mmu (sbrk_pages n moved).0.mmu
                first
                (subst (λ b. Extended rest.j b moved.mmu (sbrk_pages n moved).0.mmu) next
                  rest.extended)
                (sbrk_pages-Exhausted n moved);
          ended = elim rest.ended [
            | inl (all, e) ↦ inl (all, omega (arith, e))
            | inr (short, l, out) ↦ inr (short, omega (arith, l), out)
          ];
        }

-- The number of pages that hold `n` bytes.
abbrev pub pages_for : ℕ → ℕ
pages_for n = (n + page_size - 1) / page_size

-- What `VMM::sbrk` does for `n` bytes.
pub record Grown (n : ℕ) (v : Vmm) (r : ℕ × Vmm) : Type 0 where
  pub j : ℕ
  pub break : r.1.kernel_dynamic_break ≡ v.kernel_dynamic_break + j * page_size
  pub bytes : r.1.vmm_allocated_bytes ≡ (v.vmm_allocated_bytes + pages_for n * page_size) % u64
  pub extended : Extended j v.kernel_dynamic_break v.mmu r.1.mmu
  pub answer :
      ((r.0 ≡ v.kernel_dynamic_break) × (j ≡ pages_for n))
      ⊎ ((r.0 ≡ minus_one) × (j < pages_for n) × Exhausted r.1.mmu)

-- A call of `VMM::sbrk` once the break is set, for `n` bytes that fit below 2^64, over tables that form a tree of
-- used frames and frames below 2^64, moves the break by `j` pages. These pages have frames then, unless no frame is left, and
-- are counted; all pages that were mapped still are, and other addresses have what they had. It returns the old break,
-- and `j` is the number of pages that hold the bytes; or it returns -1, `j` is less, and no frame is left. All the
-- pages asked for are added to the allocated bytes in both cases.
pub sbrk-Grown :
    (n : ℕ) (v : Vmm)
    → 0 < v.kernel_dynamic_break
    → 0 < n
    → v.kernel_dynamic_break + pages_for n * page_size < u64
    → n + page_size ≤ u64
    → Sound (current_pml4 v.mmu) v.mmu
    → Small v.mmu
    → Grown n v (sbrk n v)
unfolding sbrk
sbrk-Grown n v set some_bytes fits low s small =
    let pages : (n + page_size - 1) % u64 ≡ n + page_size - 1 = omega arith in
    let v' = (record v {
      vmm_allocated_bytes = (v.vmm_allocated_bytes + pages_for n * page_size) % u64;
    }) in
    let m = sbrk_pages-Mapping (pages_for n) v' fits s small in
    let running : (v.kernel_dynamic_break == 0) ≡ false = ground (arith, set) in
    let wanted : (n == 0) ≡ false = ground (arith, some_bytes) in
    rw (running, wanted, pages)
      (elim m.ended [
        | inl (all, e) ↦ rw all (record {
          j = m.j;
          break = m.break;
          bytes = m.bytes;
          extended = m.extended;
          answer = inl (refl, e);
        })
        | inr (short, l, out) ↦ rw short (record {
          j = m.j;
          break = m.break;
          bytes = m.bytes;
          extended = m.extended;
          answer = inr (refl, l, out);
        })
      ])
