-- ===== src/Paging.antt =====
-- The four-level page tables of kernel/arch/x86_64/paging.cpp. A table is known by its physical
-- address: the code reads it through `phys_to_virt`, which adds a constant. The cache that `invlpg`
-- flushes is not part of the state.
pub mod Walk
pub mod Link
pub mod Descent
pub mod Prepare
pub mod Fresh
pub mod Extend
pub mod Empty
pub mod Frames
pub mod User
pub mod Translate
pub mod Indices
pub mod Store
pub mod Map
pub mod Unmap
mod Tests
use keon_os.Base.{
  ℕ, zero, suc, ◌+◌, ◌-◌, ◌*◌, ◌/◌, ◌%◌, ◌^◌, Bool, true, false, ◌&&◌, Option, none, some, List, [],
  ◌∷◌, ltb, ◌==◌, if◌then◌else◌, test_bit, set_bit, ◌>>=◌,
}
use keon_os.Pfa.{Pfa, page_size, u64, pfa_alloc_frame}

-- `tables t i` is the entry `i` of the table at `t`.
pub record Mmu : Type 0 where
  pub tables : ℕ → ℕ → ℕ
  pub pfa : Pfa
  pub cr3 : ℕ
  pub kernel_pml4 : ℕ
  pub mapped_pages : ℕ

abbrev pub pte_present : ℕ
pte_present = 1

abbrev pub pte_rw : ℕ
pte_rw = 2

abbrev pub pte_user : ℕ
pte_user = 4

abbrev pub is_present : ℕ → Bool
is_present = test_bit 0

abbrev pub is_rw : ℕ → Bool
is_rw = test_bit 1

abbrev pub is_user : ℕ → Bool
is_user = test_bit 2

-- `e & ~0xFFFULL`
abbrev pub frame_of : ℕ → ℕ
frame_of e = e / page_size * page_size

-- `a | b` of two words of `w` bits.
pub or_word : ℕ → ℕ → ℕ → ℕ
or_word zero a b = 0
or_word (suc w) a b = (if a % 2 == 0 then b % 2 else 1) + 2 * or_word w (a / 2) (b / 2)

-- `PML4_IDX`, `PDPT_IDX` and `PD_IDX`.
pub upper_indices : ℕ → List ℕ
upper_indices a = (a / 2 ^ 39 % 512) ∷ (a / 2 ^ 30 % 512) ∷ (a / 2 ^ 21 % 512) ∷ []

-- `PT_IDX`
pub pt_index : ℕ → ℕ
pt_index a = a / 2 ^ 12 % 512

pub write_entry : ℕ → ℕ → ℕ → Mmu → Mmu
write_entry t i e m = record m { tables = λ u j. if u == t && j == i then e else m.tables u j }

-- `pfa_alloc_frame` with the `memset` of the page that it returns.
unfoldable pub alloc_page : Mmu → Mmu × ℕ
alloc_page m =
    let r = pfa_alloc_frame m.pfa in
    if r.1 == 0
    then (record m { pfa = r.0 }, 0)
    else (record m { pfa = r.0; tables = λ u j. if u == r.1 then 0 else m.tables u j }, r.1)

-- `(uintptr_t)new_tab_phys | PTE_PRESENT | PTE_RW | (flags & PTE_USER)`
pub table_entry : ℕ → ℕ → ℕ
table_entry flags new =
    let e = set_bit 1 (set_bit 0 new) in if is_user flags then set_bit 2 e else e

-- The `else` of the loop in `get_pte`: an existing entry gets the flags that it lacks.
pub widen : ℕ → ℕ → ℕ
widen flags e =
    let e' = if is_user flags then set_bit 2 e else e in if is_rw flags then set_bit 1 e' else e'

-- The loop of `get_pte` over the upper levels: the table that the last level leads to, `none` for
-- `nullptr`.
pub descend : Bool → ℕ → List ℕ → ℕ → Mmu → Mmu × Option ℕ
descend create flags [] t m = (m, some t)
descend create flags (i ∷ is) t m =
    let e = m.tables t i in
    let r = alloc_page m in
    let old = widen flags e in
    let new = table_entry flags r.1 in
    let fresh = descend create flags is (frame_of new) (write_entry t i new r.0) in
    let known = descend create flags is (frame_of old) (write_entry t i old m) in
    if is_present e
    then known
    else if create
    then (if r.1 == 0 then (r.0, none) else fresh)
    else (m, none)

-- The table and the index of the last entry.
pub get_pte : Bool → ℕ → ℕ → ℕ → Mmu → Mmu × Option (ℕ × ℕ)
get_pte create flags pml4 virt m =
    let r = descend create flags (upper_indices virt) pml4 m in
    (r.0, (elim r.1 [ none ↦ none | some t ↦ some (t, pt_index virt) ]))

-- `cr3 & ~0xFFFULL`
pub current_pml4 : Mmu → ℕ
current_pml4 m = frame_of m.cr3

-- `((uintptr_t)phys & ~0xFFFULL) | flags | PTE_PRESENT`
pub leaf_entry : ℕ → ℕ → ℕ
leaf_entry phys flags = set_bit 0 (or_word 64 (frame_of phys) flags)

pub paging_map_page : ℕ → ℕ → ℕ → Mmu → Mmu
paging_map_page virt phys flags m =
    let r = get_pte true flags (current_pml4 m) virt m in
    elim r.1 [
      | none ↦ r.0
      | some (t, i) ↦
          let m' = write_entry t i (leaf_entry phys flags) r.0 in
          record m' { mapped_pages = (m'.mapped_pages + 1) % u64 }
    ]

pub paging_unmap_page : ℕ → Mmu → Mmu
paging_unmap_page virt m =
    let r = get_pte false 0 (current_pml4 m) virt m in
    elim r.1 [
      | none ↦ r.0
      | some (t, i) ↦
          if is_present (r.0.tables t i)
          then (let m' = write_entry t i 0 r.0 in
              record m' { mapped_pages = (m'.mapped_pages + u64 - 1) % u64 })
          else r.0
    ]

-- 0 is `nullptr`.
pub paging_get_physical_address : ℕ → Mmu → Mmu × ℕ
paging_get_physical_address virt m =
    let r = get_pte false 0 (current_pml4 m) virt m in
    (
      r.0,
      (elim r.1 [
        | none ↦ 0
        | some (t, i) ↦
            let e = r.0.tables t i in
            if is_present e then (frame_of e + virt % page_size) % u64 else 0
      ]),
    )

-- The loop of `paging_is_user_accessible` over its four indices.
unfoldable pub all_user : List ℕ → ℕ → Mmu → Bool
all_user [] t m = true
all_user (i ∷ is) t m =
    let e = m.tables t i in is_present e && (is_user e && all_user is (frame_of e) m)

unfoldable pub paging_is_user_accessible : ℕ → Mmu → Bool
paging_is_user_accessible virt m =
    all_user
      ((virt / 2 ^ 39 % 512)
        ∷ (virt / 2 ^ 30 % 512)
        ∷ (virt / 2 ^ 21 % 512)
        ∷ (virt / 2 ^ 12 % 512)
        ∷ [])
      (current_pml4 m) m

-- `paging_create_address_space`: the upper half of the kernel's table is copied.
pub paging_create_address_space : Mmu → Mmu × ℕ
paging_create_address_space m =
    let r = alloc_page m in
    (
      record r.0 {
        tables = λ u j.
            if u == r.1
            then (if ltb j 256 then 0 else r.0.tables r.0.kernel_pml4 j)
            else r.0.tables u j;
      },
      r.1,
    )

-- `n` rounds of a loop that maps pages one to one from `addr` on.
pub identity_pages : ℕ → ℕ → ℕ → Mmu → Mmu
identity_pages zero addr flags m = m
identity_pages (suc n) addr flags m =
    identity_pages n (addr + page_size) flags (paging_map_page addr addr flags m)

pub paging_identity_map : ℕ → ℕ → ℕ → Mmu → Mmu
paging_identity_map start size flags m =
    let first = frame_of start in
    let end = frame_of ((start + size + 0xfff) % u64) in
    identity_pages ((end - first) / page_size) first flags m

pub record PagingStats : Type 0 where
  pub total_frames : ℕ
  pub used_frames : ℕ
  pub free_frames : ℕ
  pub mapped_pages : ℕ

pub paging_get_stats : Mmu → PagingStats
paging_get_stats m = record {
  total_frames = m.pfa.total_frames;
  used_frames = m.pfa.used_frames;
  free_frames = (m.pfa.total_frames + u64 - m.pfa.used_frames) % u64;
  mapped_pages = m.mapped_pages;
}

-- `n` rounds of the loop of `paging_make_kernel_user_accessible`; `virt_to_phys` subtracts
-- `kernel_base`.
user_pages : ℕ → ℕ → ℕ → Mmu → Mmu
user_pages zero kernel_base p m = m
user_pages (suc n) kernel_base p m =
    user_pages n kernel_base (p + page_size) (paging_map_page p ((p + u64 - kernel_base) % u64) 7 m)

-- `kernel_end` is the address that the linker gives to `_kernel_end`.
pub paging_make_kernel_user_accessible : ℕ → ℕ → Mmu → Mmu
paging_make_kernel_user_accessible kernel_base kernel_end m =
    let k_start : ℕ = 0xffff_ffff_8010_0000 in
    let k_end = frame_of ((kernel_end + 0x4_0000 + 0xfff) % u64) in
    user_pages ((k_end - k_start) / page_size) kernel_base k_start m

-- `*get_pte(...) = e` without a test: `none` is a write through `nullptr`.
store_pte : ℕ → ℕ → ℕ → Mmu → Option Mmu
store_pte root virt e m =
    let r = get_pte true 3 root virt m in
    elim r.1 [ none ↦ none | some (t, i) ↦ some (write_entry t i e r.0) ]

-- `n` rounds of the first loop of `paging_init`: the page `p` at its own address and at its
-- address in the kernel's half.
init_pages : ℕ → ℕ → ℕ → ℕ → Mmu → Option Mmu
init_pages zero kernel_base root p m = some m
init_pages (suc n) kernel_base root p m = do
  m ← store_pte root p (set_bit 0 (set_bit 1 p)) m
  m ← store_pte root ((p + kernel_base) % u64) (set_bit 0 (set_bit 1 p)) m
  init_pages n kernel_base root (p + page_size) m

low_pages : ℕ → ℕ → Mmu → Mmu
low_pages zero p m = m
low_pages (suc n) p m =
    low_pages n (p + page_size) (paging_map_page ((0xffff_ffff_c000_0000 + p) % u64) p 3 m)

-- The last step loads `cr3`; the pages of the second loop go into the boot loader's tables.
pub paging_init : ℕ → Mmu → Option Mmu
paging_init kernel_base m = do
  let r = alloc_page m
  m ← init_pages 0x2_0000 kernel_base r.1 0 (record r.0 { kernel_pml4 = r.1 })
  m ← store_pte r.1 0xffff_ffff_800b_8000 0xb8003 (low_pages 256 0 m)
  some (record m { cr3 = r.1 })
