-- ===== src/Paging/Map.antt =====
-- What `paging_map_page` of kernel/arch/x86_64/paging.cpp does to the addresses that the tables give.
use keon_os.Base.{
  ℕ, ◌+◌, ◌%◌, ◌<◌, ◌≡◌, ◌⊎◌, inl, inr, refl, sym, ap, ◌∙◌, true, none, some, [], if◌then◌else◌,
  Bool-cases, arith,
}
use mathlib.Core.Path.{subst}
use keon_os.Pfa.{page_size, u64, pfa_alloc_frame}
use keon_os.Paging.{
  Mmu, frame_of, write_entry, descend, get_pte, current_pml4, upper_indices, pt_index, leaf_entry,
  paging_map_page,
}
use keon_os.Paging.Walk.{follow, follow-nil}
use keon_os.Paging.Descent.{Sound, Kept}
use keon_os.Paging.Prepare.{descend_lem}
use keon_os.Paging.Translate.{target}
use keon_os.Paging.Indices.{same_page, three_indices, leaf_entry_lem}
use keon_os.Paging.Store.{
  gives, gives-target, same_root, Sound-counted, stored, stored-Sound, stored-entry,
}

map_out :
    (virt phys flags : ℕ) (m : Mmu)
    → (descend true flags (upper_indices virt) (current_pml4 m) m).1 ≡ none
    → paging_map_page virt phys flags m
      ≡ (descend true flags (upper_indices virt) (current_pml4 m) m).0
unfolding paging_map_page get_pte
map_out virt phys flags m e = rw (paging_map_page, get_pte, e) refl

map_in :
    (virt phys flags t : ℕ) (m : Mmu)
    → (descend true flags (upper_indices virt) (current_pml4 m) m).1 ≡ some t
    → paging_map_page virt phys flags m ≡ (
        let d = (descend true flags (upper_indices virt) (current_pml4 m) m).0 in
        let m' = write_entry t (pt_index virt) (leaf_entry phys flags) d in
        record m' { mapped_pages = (m'.mapped_pages + 1) % u64 })
unfolding paging_map_page get_pte
map_in virt phys flags t m e = rw (paging_map_page, get_pte, e) refl

-- Either no frame was left for a table, and no address changes; or the page of `virt` gets the frame of
-- `phys`, and no other address changes.
abbrev pub Mapped : ℕ → ℕ → Mmu → Mmu → Type 0
Mapped virt phys m m' =
    ((pfa_alloc_frame m'.pfa ≡ (m'.pfa, 0))
      × ((a : ℕ) → gives m' a ≡ gives m a)
      × (m'.mapped_pages ≡ m.mapped_pages))
    ⊎ (((a : ℕ)
          → gives m' a
            ≡ (if same_page a virt then (frame_of phys + a % page_size) % u64 else gives m a))
        × (m'.mapped_pages ≡ (m.mapped_pages + 1) % u64))

-- The state `paging_map_page` ends in.
abbrev mapped : ℕ → ℕ → ℕ → ℕ → Mmu → Mmu
mapped t virt phys flags d =
    let m' = write_entry t (pt_index virt) (leaf_entry phys flags) d in
    record m' { mapped_pages = (m'.mapped_pages + 1) % u64 }

mapped-Mapped :
    (root t virt phys flags : ℕ) (m d : Mmu)
    → phys < u64
    → flags < page_size
    → current_pml4 m ≡ root
    → Kept root m d
    → follow (upper_indices virt) root d.tables ≡ some t
    → Sound root (mapped t virt phys flags d)
      × ((mapped t virt phys flags d).cr3 ≡ m.cr3)
      × Mapped virt phys m (mapped t virt phys flags d)
unfolding write_entry
mapped-Mapped root t virt phys flags m d fits small here kept at =
    let e = leaf_entry phys flags in
    let w = stored root t e virt d kept.sound at in
    let (present, address) = leaf_entry_lem phys flags fits small in
    let m' = mapped t virt phys flags d in
    (
      Sound-counted root ((w.mapped_pages + 1) % u64) w
          (stored-Sound root t e virt d kept.sound at),
      kept.cr3,
      inr (
        λ a.
            gives-target root a m' (same_root m m' kept.cr3 ∙ here)
            ∙ ap (λ k. target k a) (stored-entry root t e virt d kept.sound at a)
            ∙ elim (Bool-cases (same_page a virt)) [
              | inl same ↦ rw (same, present, address) refl
              | inr other ↦ rw other (
                  ap (λ k. target k a)
                    (kept.leaves (upper_indices a) (pt_index a) (three_indices a))
                  ∙ sym (gives-target root a m here))
            ],
        ap (λ k. (k + 1) % u64) kept.mapped_pages,
      ),
    )

-- `paging_map_page` on tables that form a tree, for a physical address of 64 bits and flags below
-- the page size. The tables form a tree again, and the root stays. Either no frame was left for a
-- table that was missing: then no address changes its translation, and the count of mapped pages stays. Or each
-- address in the page of `virt` is translated to its offset in the frame of `phys`, all other addresses are translated
-- as before, and one more page is counted.
pub paging_map_page_lem :
    (virt phys flags : ℕ) (m : Mmu)
    → phys < u64
    → flags < page_size
    → Sound (current_pml4 m) m
    → Sound (current_pml4 m) (paging_map_page virt phys flags m)
      × ((paging_map_page virt phys flags m).cr3 ≡ m.cr3)
      × Mapped virt phys m (paging_map_page virt phys flags m)
paging_map_page_lem virt phys flags m fits small s =
    let root = current_pml4 m in
    let d = descend true flags (upper_indices virt) root m in
    let (kept, outcome) =
      descend_lem flags root root [] (upper_indices virt) m s (follow-nil root m.tables)
        (omega (arith, three_indices virt)) in
    let before = λ (a : ℕ). gives-target root a m refl in
    elim outcome [
      | inl (missing, out) ↦
          subst (λ (k : Mmu). Sound root k × (k.cr3 ≡ m.cr3) × Mapped virt phys m k)
            (sym (map_out virt phys flags m missing))
            (
              kept.sound,
              kept.cr3,
              inl (
                out,
                λ a.
                    gives-target root a d.0 (same_root m d.0 kept.cr3)
                    ∙ ap (λ e. target e a)
                        (kept.leaves (upper_indices a) (pt_index a) (three_indices a))
                    ∙ sym (before a),
                kept.mapped_pages,
              ),
            )
      | inr (t, found, at) ↦
          subst (λ (k : Mmu). Sound root k × (k.cr3 ≡ m.cr3) × Mapped virt phys m k)
            (sym (map_in virt phys flags t m found))
            (mapped-Mapped root t virt phys flags m d.0 fits small refl kept at)
    ]
