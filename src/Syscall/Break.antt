-- ===== src/Syscall/Break.antt =====
-- `sys_sbrk` of kernel/syscalls/sys_mem.cpp over the page tables, for the current thread.
pub mod Grown
pub mod Moved
mod Tests
use keon_os.Base.{
  ℕ, zero, suc, ◌+◌, ◌-◌, ◌*◌, ◌/◌, ◌%◌, Bool, true, false, not, ◌==◌, if◌then◌else◌,
}
use keon_os.Pfa.{page_size, u64}
use keon_os.Paging.{
  Mmu, alloc_page, paging_map_page, paging_get_physical_address, paging_is_user_accessible,
}
use keon_os.Vmm.{minus_one}

pub record UserSpace : Type 0 where
  pub mmu : Mmu
  pub is_user : Bool
  pub user_heap_break : ℕ

-- The frame for a page: the one that it has, or a new one, which `pfa_alloc_frame` clears. 0 is `nullptr`.
unfoldable pub frame_for : ℕ → Mmu → Mmu × ℕ
frame_for addr m =
    let have = paging_get_physical_address addr m in
    let new = alloc_page have.0 in if have.1 == 0 then new else have

-- `n` rounds of the loop; `false` when no frame is left. `PTE_PRESENT | PTE_RW | PTE_USER` is 7.
unfoldable pub grow : ℕ → ℕ → Mmu → Mmu × Bool
grow zero addr m = (m, true)
grow (suc n) addr m =
    let r = frame_for addr m in
    let rest = grow n (addr + page_size) m in
    let mapped = grow n (addr + page_size) (paging_map_page addr r.1 7 r.0) in
    if paging_is_user_accessible addr m then rest else if r.1 == 0 then (r.0, false) else mapped

unfoldable pub sys_sbrk : ℕ → UserSpace → UserSpace × ℕ
sys_sbrk increment u =
    let old_break = u.user_heap_break in
    let new_break = (old_break + increment) % u64 in
    let start_page = old_break / page_size * page_size in
    let end_page = (new_break + 4095) % u64 / page_size * page_size in
    let r = grow ((end_page - start_page) / page_size) start_page u.mmu in
    if not u.is_user
    then (u, minus_one)
    else if increment == 0
    then (u, old_break)
    else if r.1
    then (record u { mmu = r.0; user_heap_break = new_break }, old_break)
    else (record u { mmu = r.0 }, minus_one)
