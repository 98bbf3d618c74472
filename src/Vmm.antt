-- ===== src/Vmm.antt =====
-- `VMM` of mm/vmm.cpp: the kernel's dynamic break, which only grows, over the page tables.
mod Sbrk
mod Pages
mod Tests
use keon_os.Base.{ℕ, zero, suc, ◌+◌, ◌-◌, ◌*◌, ◌/◌, ◌%◌, ◌==◌, Bool, true, false, if◌then◌else◌}
use keon_os.Pfa.{page_size, u64, pfa_alloc_frame, pfa_free_frame}
use keon_os.Paging.{
  Mmu, alloc_page, paging_map_page, paging_unmap_page, paging_get_physical_address,
}

pub record Vmm : Type 0 where
  pub mmu : Mmu
  pub kernel_dynamic_break : ℕ
  pub vmm_allocated_bytes : ℕ

-- The value of `(void*)-1`.
abbrev pub minus_one : ℕ
minus_one = 0xffff_ffff_ffff_ffff

-- `n` rounds of the loop of `VMM::allocate` from page `i` on; `false` when no frame is left.
pub allocate_pages : ℕ → ℕ → ℕ → ℕ → Mmu → Mmu × Bool
allocate_pages zero i break flags m = (m, true)
allocate_pages (suc n) i break flags m =
    let r = alloc_page m in
    let rest =
      allocate_pages n (i + 1) break flags
        (paging_map_page ((break + i * page_size) % u64) r.1 flags r.0) in
    if r.1 == 0 then (r.0, false) else rest

-- 0 is `nullptr`.
pub allocate : ℕ → ℕ → Vmm → Vmm × ℕ
allocate pages flags v =
    let break = v.kernel_dynamic_break in
    let r = allocate_pages pages 0 break flags v.mmu in
    if break == 0
    then (v, 0)
    else if r.1
    then (record v { mmu = r.0; kernel_dynamic_break = (break + pages * page_size) % u64 }, break)
    else (record v { mmu = r.0 }, 0)

-- One round of the loop of `VMM::free`.
pub free_page : ℕ → Mmu → Mmu
free_page virt m =
    let (m', frame) = paging_get_physical_address virt m in
    paging_unmap_page virt
      (if frame == 0 then m' else record m' { pfa = pfa_free_frame frame m'.pfa })

pub free_pages : ℕ → ℕ → ℕ → Mmu → Mmu
free_pages zero i addr m = m
free_pages (suc n) i addr m = free_pages n (i + 1) addr (free_page ((addr + i * page_size) % u64) m)

pub free : ℕ → ℕ → Vmm → Vmm
free virt_addr pages v = record v { mmu = free_pages pages 0 virt_addr v.mmu }

-- `n` rounds of the loop of `VMM::sbrk`; `false` when no frame is left.
pub sbrk_pages : ℕ → Vmm → Vmm × Bool
sbrk_pages zero v = (v, true)
sbrk_pages (suc n) v =
    let r = alloc_page v.mmu in
    let rest = sbrk_pages n (record v {
      mmu = paging_map_page v.kernel_dynamic_break r.1 3 r.0;
      kernel_dynamic_break = (v.kernel_dynamic_break + page_size) % u64;
    }) in
    if r.1 == 0 then (record v { mmu = r.0 }, false) else rest

pub sbrk : ℕ → Vmm → ℕ × Vmm
sbrk increment_bytes v =
    let old_break = v.kernel_dynamic_break in
    let pages_needed = (increment_bytes + page_size - 1) % u64 / page_size in
    let r = sbrk_pages pages_needed (record v {
      vmm_allocated_bytes = (v.vmm_allocated_bytes + pages_needed * page_size) % u64;
    }) in
    if old_break == 0
    then (minus_one, v)
    else if increment_bytes == 0
    then (old_break, v)
    else if r.1
    then (old_break, r.0)
    else (minus_one, r.0)

pub get_total_allocated : Vmm → ℕ
get_total_allocated v = v.vmm_allocated_bytes

-- `n` rounds of the loop of `VMM::map_physical_region` from page `i` on.
pub map_region : ℕ → ℕ → ℕ → ℕ → Vmm → Vmm
map_region zero i phys_addr flags v = v
map_region (suc n) i phys_addr flags v = map_region n (i + 1) phys_addr flags (record v {
  mmu = paging_map_page v.kernel_dynamic_break ((phys_addr + i * page_size) % u64) flags v.mmu;
  kernel_dynamic_break = (v.kernel_dynamic_break + page_size) % u64;
})

pub map_physical_region : ℕ → ℕ → ℕ → Vmm → Vmm × ℕ
map_physical_region phys_addr pages flags v =
    (map_region pages 0 phys_addr flags v, v.kernel_dynamic_break)
