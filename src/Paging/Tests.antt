-- ===== src/Paging/Tests.antt =====
-- Runs of the page tables over a memory of 64 frames, and their theorems at one state.
use keon_os.Base.{◌≡◌, if◌then◌else◌, arith}
use keon_os.Paging.{current_pml4, paging_map_page, paging_unmap_page}
use keon_os.Paging.Descent.{Sound}
use keon_os.Paging.Store.{gives}
use keon_os.Paging.Indices.{same_page}
use keon_os.Paging.Empty.{empty, empty-Sound}
use keon_os.Paging.Map.{Mapped, paging_map_page_lem}
use keon_os.Paging.Unmap.{Unmapped, paging_unmap_page_lem, paging_unmap_page-paging_map_page}

paging_map_page_lem_example :
    Sound (current_pml4 empty) (paging_map_page 0x40_0123 0x5000 7 empty)
    × ((paging_map_page 0x40_0123 0x5000 7 empty).cr3 ≡ empty.cr3)
    × Mapped 0x40_0123 0x5000 empty (paging_map_page 0x40_0123 0x5000 7 empty)
paging_map_page_lem_example =
    paging_map_page_lem 0x40_0123 0x5000 7 empty (omega arith) (omega arith) empty-Sound

paging_unmap_page_lem_example :
    Sound (current_pml4 empty) (paging_unmap_page 0x40_0123 empty)
    × ((paging_unmap_page 0x40_0123 empty).cr3 ≡ empty.cr3)
    × Unmapped 0x40_0123 empty (paging_unmap_page 0x40_0123 empty)
paging_unmap_page_lem_example = paging_unmap_page_lem 0x40_0123 empty empty-Sound

paging_unmap_page-paging_map_page_example :
    gives (paging_unmap_page 0x40_0123 (paging_map_page 0x40_0123 0x5000 7 empty)) 0x40_0fff
    ≡ (if same_page 0x40_0fff 0x40_0123 then 0 else gives empty 0x40_0fff)
paging_unmap_page-paging_map_page_example =
    paging_unmap_page-paging_map_page 0x40_0123 0x5000 7 0x40_0fff empty (omega arith) (omega arith)
      empty-Sound
