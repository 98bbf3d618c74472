-- ===== src/Exec.antt =====
-- kernel/exec/kex_loader.cpp: the loaders of programs and of libraries, over the files of Vfs and the page tables.
-- `memory` is the bytes at virtual addresses; a write to a page that the tables do not map sets `faulted`, and what
-- the model does behind it does not take place. Bytes of a header that a file does not give are taken as 0. `kmalloc`
-- of a buffer succeeds, as the code takes it to.
pub mod Load
pub mod Library
pub mod Pages
pub mod Segment
pub mod Reject
mod Tests
use keon_os.Base.{
  ℕ, zero, suc, ◌+◌, ◌-◌, ◌*◌, ◌/◌, ◌%◌, ◌^◌, Bool, true, false, ◌&&◌, ◌||◌, not, Option, none,
  some, List, [], ◌∷◌, ◌++◌, length, get_or, ltb, leb, ◌==◌, if◌then◌else◌,
}
use keon_os.Pfa.{page_size, u64}
use keon_os.Paging.{Mmu, alloc_page, paging_map_page, paging_get_physical_address}
use keon_os.Vfs.{Fs, same_bytes, vfs_read}

abbrev pub u32 : ℕ
u32 = 2 ^ 32

pub record World (S : Type 0) : Type 0 where
  pub files : S
  pub mmu : Mmu
  pub memory : ℕ → ℕ
  pub faulted : Bool

-- The number of `n` bytes, the low one first, at a place of a buffer.
abbrev pub number : ℕ → ℕ → List ℕ → ℕ
number zero k bs = 0
number (suc n) k bs = get_or bs k 0 + 256 * number n (k + 1) bs

-- The fields of an `Elf64_Ehdr` of 64 bytes.
abbrev pub e_type : List ℕ → ℕ
e_type = number 2 16

abbrev pub e_machine : List ℕ → ℕ
e_machine = number 2 18

abbrev pub e_entry : List ℕ → ℕ
e_entry = number 8 24

abbrev pub e_phoff : List ℕ → ℕ
e_phoff = number 8 32

abbrev pub e_phentsize : List ℕ → ℕ
e_phentsize = number 2 54

abbrev pub e_phnum : List ℕ → ℕ
e_phnum = number 2 56

abbrev pub ehdr_size : ℕ
ehdr_size = 64

abbrev pub phdr_size : ℕ
phdr_size = 56

unfoldable pub validate_elf : List ℕ → Bool
validate_elf hdr =
    if not (get_or hdr 0 0 == 0x7f)
      || not (get_or hdr 1 0 == 69)
      || not (get_or hdr 2 0 == 76)
      || not (get_or hdr 3 0 == 70)
    then false
    else if not (get_or hdr 4 0 == 2)
    then false
    else if not (get_or hdr 5 0 == 1)
    then false
    else if not (e_machine hdr == 62)
    then false
    else if not (e_type hdr == 2) && not (e_type hdr == 3)
    then false
    else true

-- `Elf64_Phdr`
pub record Phdr : Type 0 where
  pub p_type : ℕ
  pub p_offset : ℕ
  pub p_vaddr : ℕ
  pub p_filesz : ℕ
  pub p_memsz : ℕ

unfoldable pub phdr_at : ℕ → List ℕ → Phdr
phdr_at i buf = record {
  p_type = number 4 (i * phdr_size) buf;
  p_offset = number 8 (i * phdr_size + 8) buf;
  p_vaddr = number 8 (i * phdr_size + 16) buf;
  p_filesz = number 8 (i * phdr_size + 32) buf;
  p_memsz = number 8 (i * phdr_size + 40) buf;
}

-- The `n` headers from index `i` on.
unfoldable pub phdrs : ℕ → ℕ → List ℕ → List Phdr
phdrs zero i buf = []
phdrs (suc n) i buf = phdr_at i buf ∷ phdrs n (i + 1) buf

-- `a & ~0xFFF`, and the same of `a + 0xFFF`.
abbrev pub page_down : ℕ → ℕ
page_down a = a / page_size * page_size

abbrev pub page_up : ℕ → ℕ
page_up a = page_down ((a + 0xfff) % u64)

-- `memset(addr, 0, 4096)`
abbrev pub zero_page : ℕ → (ℕ → ℕ) → ℕ → ℕ
zero_page addr memory a = if leb addr a && ltb a (addr + page_size) then 0 else memory a

-- The bytes of a read put into memory.
unfoldable pub write_run : ℕ → List ℕ → (ℕ → ℕ) → ℕ → ℕ
write_run at [] memory = memory
write_run at (b ∷ bs) memory = write_run (at + 1) bs (λ a. if a == at then b else memory a)

-- The page of an address is mapped.
abbrev pub is_mapped : ℕ → Mmu → Bool
is_mapped a m = not ((paging_get_physical_address (page_down a) m).1 == 0)

-- The pages of `n` bytes from an address on are.
unfoldable pub all_mapped : ℕ → ℕ → Mmu → Bool
all_mapped zero a m = true
all_mapped (suc n) a m = let rest = all_mapped n (a + 1) m in if is_mapped a m then rest else false

-- `PTE_PRESENT | PTE_USER | PTE_RW`
abbrev pub user_flags : ℕ
user_flags = 7

module _ {S : Type 0} where
  unfoldable pub clear_page : ℕ → World S → World S
  clear_page addr w =
      if is_mapped addr w.mmu
      then record w { memory = zero_page addr w.memory }
      else record w { faulted = true }

  unfoldable pub store_bytes : ℕ → List ℕ → World S → World S
  store_bytes start bytes w =
      if all_mapped (length bytes) start w.mmu
      then record w { memory = write_run start bytes w.memory }
      else record w { faulted = true }

  -- `n` rounds of the loop over the pages of a segment; `false` when no frame is left.
  unfoldable pub map_pages : ℕ → ℕ → World S → World S × Bool
  map_pages zero addr w = (w, true)
  map_pages (suc n) addr w =
      let r = alloc_page w.mmu in
      let rest =
        map_pages n (addr + page_size)
          (clear_page addr (record w { mmu = paging_map_page addr r.1 user_flags r.0 })) in
      if r.1 == 0 then (record w { mmu = r.0 }, false) else rest

  -- The pages of a segment, and what the file has of it, for the addresses from `start` to `end`.
  unfoldable pub load_segment : Fs S → ℕ → ℕ → ℕ → Phdr → World S → World S × Bool
  load_segment fs file start end ph w =
      let mapped = map_pages ((page_up end - page_down start) / page_size) (page_down start) w in
      let r = vfs_read fs file (ph.p_offset % u32) (ph.p_filesz % u32) mapped.0.files in
      if mapped.1
      then (if ltb 0 ph.p_filesz
          then (store_bytes start r.1 (record mapped.0 { files = r.0 }), true)
          else mapped)
      else mapped
