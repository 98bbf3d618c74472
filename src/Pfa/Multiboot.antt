-- ===== src/Pfa/Multiboot.antt =====
-- `pfa_init_from_multiboot2` of kernel/arch/x86_64/paging.cpp. The boot loader's tags are a list
-- of the tags that the function reads, in their order.
mod Init
mod Tests
use keon_os.Base.{
  ℕ, zero, suc, ◌+◌, ◌-◌, ◌*◌, ◌/◌, ◌%◌, ◌^◌, List, [], ◌∷◌, ◌++◌, ltb, ◌==◌, if◌then◌else◌, length,
  replicate,
}
use keon_os.Pfa.{Pfa, u64, page_size, full_word, clear_frame, pfa_mark_used}

-- `multiboot_mmap_entry`
pub record Entry : Type 0 where
  pub addr : ℕ
  pub len : ℕ
  pub kind : ℕ

pub data Tag : Type 0 where
  mmap : List Entry → Tag
  mod_tag : ℕ → ℕ → Tag
  other : Tag

abbrev memory_available : ℕ
memory_available = 1

abbrev pub kernel_virt_offset : ℕ
kernel_virt_offset = 0xffff_ffff_8000_0000

keep_available : List Entry → List Entry
keep_available [] = []
keep_available (e ∷ es) =
    if e.kind == memory_available then e ∷ keep_available es else keep_available es

-- The entries that the two loops over the memory map visit, tag after tag.
pub available : List Tag → List Entry
unfolding keep_available
available [] = []
available (mmap es ∷ ts) = keep_available es ++ available ts
available (mod_tag start end ∷ ts) = available ts
available (other ∷ ts) = available ts

pub entry_end : Entry → ℕ
entry_end e = (e.addr + e.len) % u64

-- The first loop.
pub upper : ℕ → List Entry → ℕ
upper m [] = m
upper m (e ∷ es) = upper (if ltb m (entry_end e) then entry_end e else m) es

-- `(entry->addr + 4095) & ~4095` and `(entry->addr + entry->len) & ~4095`, counted in pages.
pub first_page : Entry → ℕ
first_page e = (e.addr + 4095) % u64 / page_size

pub last_page : Entry → ℕ
last_page e = entry_end e / page_size

-- `n` rounds of the loop that clears the frames from `f` on.
pub clear_frames : ℕ → ℕ → Pfa → Pfa
clear_frames zero f p = p
clear_frames (suc n) f p =
    clear_frames n (f + 1)
      (record p { bitmap = clear_frame p.bitmap f; used_frames = (p.used_frames + u64 - 1) % u64 })

-- The second loop.
pub clear_entries : List Entry → Pfa → Pfa
clear_entries [] p = p
clear_entries (e ∷ es) p =
    clear_entries es (clear_frames (last_page e - first_page e) (first_page e) p)

-- The third loop. `m_size` is a `uint32_t`.
pub mark_modules : List Tag → Pfa → Pfa
mark_modules [] p = p
mark_modules (mmap es ∷ ts) p = mark_modules ts p
mark_modules (mod_tag start end ∷ ts) p =
    let size = (end + 2 ^ 32 - start) % 2 ^ 32 in
    mark_modules ts (pfa_mark_used start ((size + 4095) % 2 ^ 32 / 4096) p)
mark_modules (other ∷ ts) p = mark_modules ts p

pub all_used : ℕ → Pfa
all_used total = record {
  bitmap = replicate (total / 32 + 1) full_word;
  total_frames = total;
  used_frames = total;
}

-- The regions that are taken again after the memory map has been read.
pub mark_reserved : ℕ → ℕ → ℕ → Pfa → Pfa
mark_reserved mb2_ptr kernel_start_phys kernel_end_phys p =
    let words = length p.bitmap in
    let p1 = pfa_mark_used 0 256 p in
    let kernel_pages = (kernel_end_phys + u64 - kernel_start_phys) % u64 / page_size + 2 in
    let p2 = pfa_mark_used kernel_start_phys kernel_pages p1 in
    let p3 = pfa_mark_used (kernel_end_phys + 0x1000) (words * 4 / page_size + 1) p2 in
    pfa_mark_used ((mb2_ptr + u64 - kernel_virt_offset) % u64) 64 p3

-- `mb2_ptr` and the two ends of the kernel, which the linker places, are arguments.
pub pfa_init_from_multiboot2 : ℕ → ℕ → ℕ → List Tag → Pfa
pfa_init_from_multiboot2 mb2_ptr kernel_start_phys kernel_end_phys tags =
    let es = available tags in
    let total = upper 0 es / page_size in
    mark_modules tags
      (mark_reserved mb2_ptr kernel_start_phys kernel_end_phys (clear_entries es (all_used total)))
