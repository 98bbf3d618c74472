-- ===== src/Pfa/Multiboot/Tests.antt =====
-- The allocator after the boot of a small machine.
use keon_os.Base.{ℕ, ◌+◌, ◌/◌, ◌<◌, ◌≡◌, ◌||◌, not, refl, List, [], ◌∷◌, arith}
use keon_os.Pfa.{page_size, frame_used}
use keon_os.Pfa.Count.{Inv}
use keon_os.Pfa.Multiboot.{
  Entry, Tag, mmap, mod_tag, other, available, keep_available, upper, entry_end, first_page,
  last_page, pfa_init_from_multiboot2,
}
use keon_os.Pfa.Multiboot.Init.{
  Disjoint, in_ranges, in_reserved, in_modules, pfa_init_from_multiboot2_lem,
}

-- 640 KiB at 0, and 16 MiB at 1 MiB.
abbrev low_memory : Entry
low_memory = record { addr = 0; len = 0xa0000; kind = 1 }

abbrev main_memory : Entry
main_memory = record { addr = 0x100000; len = 0x1000000; kind = 1 }

abbrev boot_tags : List Tag
boot_tags = other ∷ mmap (low_memory ∷ main_memory ∷ []) ∷ mod_tag 0x400000 0x401800 ∷ []

boot_tags-Disjoint : Disjoint (available boot_tags)
unfolding available keep_available in_ranges first_page last_page entry_end
boot_tags-Disjoint = (λ g h. ground arith, (λ g h. refl, tt))

pfa_init_from_multiboot2_lem_example :
    let total = upper 0 (available boot_tags) / page_size in
    let p = pfa_init_from_multiboot2 0xffff_ffff_8020_0000 0x100000 0x200000 boot_tags in
    Inv p
    × (p.total_frames ≡ total)
    × ((g : ℕ)
        → g < total
        → frame_used p.bitmap g ≡ (
            in_modules boot_tags g
            || (in_reserved 0xffff_ffff_8020_0000 0x100000 0x200000 (total / 32 + 1) g
                || not (in_ranges (available boot_tags) g))))
pfa_init_from_multiboot2_lem_example =
    pfa_init_from_multiboot2_lem 0xffff_ffff_8020_0000 0x100000 0x200000 boot_tags
      boot_tags-Disjoint
