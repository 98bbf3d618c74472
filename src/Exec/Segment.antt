-- ===== src/Exec/Segment.antt =====
-- The memory that a segment is loaded into, kernel/exec/kex_loader.cpp.
use keon_os.Base.{ℕ, ◌-◌, ◌/◌, ◌%◌, ◌≡◌, false, List, [], length, get_or, ltb, if◌then◌else◌}
use keon_os.Paging.Extend.{Extended}
use keon_os.Pfa.{page_size}
use keon_os.Vfs.{Fs, vfs_read}
use keon_os.Exec.{u32, World, Phdr, page_down, page_up}
use keon_os.Exec.Pages.{inside, Starts}

module _ {S : Type 0} where
  -- The segment lies in memory: the bytes that the file gave from its start on, zeros in the rest of its pages, which have new
  -- frames, and elsewhere what was there.
  pub record Loaded (start end : ℕ) (bytes : List ℕ) (w w' : World S) : Type 0 where
    pub fine : w'.faulted ≡ false
    pub pages :
        Extended ((page_up end - page_down start) / page_size) (page_down start) w.mmu w'.mmu
    pub starts : Starts ((page_up end - page_down start) / page_size) (page_down start) w'.mmu
    pub memory :
        (a : ℕ)
        → w'.memory a ≡ (
            if inside start (length bytes) a
            then get_or bytes (a - start) 0
            else if inside (page_down start) (page_up end - page_down start) a
            then 0
            else w.memory a)

  abbrev file_read : Fs S → ℕ → Phdr → S → S × List ℕ
  file_read fs file ph s = vfs_read fs file (ph.p_offset % u32) (ph.p_filesz % u32) s

  -- What the file gives for a segment, after its pages were mapped.
  abbrev pub given : Fs S → ℕ → Phdr → S → List ℕ
  given fs file ph s =
      if ltb 0 ph.p_filesz
      then (vfs_read fs file (ph.p_offset % u32) (ph.p_filesz % u32) s).1
      else []
