-- ===== src/Paging/Unmap.antt =====
-- What `paging_unmap_page` of kernel/arch/x86_64/paging.cpp does to the addresses that the tables give.
use keon_os.Base.{
  ℕ, ◌+◌, ◌-◌, ◌%◌, ◌<◌, ◌≡◌, inl, inr, refl, sym, ap, ◌∙◌, true, false, Option, none, some,
  if◌then◌else◌, Bool-cases, Option-cases,
}
use mathlib.Core.Path.{subst}
use keon_os.Pfa.{page_size, u64}
use keon_os.Paging.{
  Mmu, is_present, write_entry, current_pml4, upper_indices, pt_index, paging_map_page,
  paging_unmap_page,
}
use keon_os.Paging.Walk.{follow, leaf, leaf-some, leaf-none}
use keon_os.Paging.Descent.{Sound}
use keon_os.Paging.Translate.{entry, target, get_pte-follow, is_present-zero}
use keon_os.Paging.Map.{paging_map_page_lem}
use keon_os.Paging.Indices.{same_page, same_page-indices}
use keon_os.Paging.Store.{
  gives, gives-target, same_root, Sound-counted, stored, stored-Sound, stored-entry,
}

-- The end of `paging_unmap_page`, on what `get_pte` returned.
abbrev clear_entry : Mmu × Option (ℕ × ℕ) → Mmu
clear_entry r = elim r.1 [
  | none ↦ r.0
  | some (t, i) ↦
      if is_present (r.0.tables t i)
      then (let m' = write_entry t i 0 r.0 in
          record m' { mapped_pages = (m'.mapped_pages + u64 - 1) % u64 })
      else r.0
]

unmap_found :
    (virt : ℕ) (m : Mmu) (o : Option ℕ)
    → follow (upper_indices virt) (current_pml4 m) m.tables ≡ o
    → paging_unmap_page virt m
      ≡ clear_entry (m, elim o [ none ↦ none | some t ↦ some (t, pt_index virt) ])
unfolding paging_unmap_page
unmap_found virt m o e =
    ap clear_entry (get_pte-follow (current_pml4 m) virt m)
    ∙ ap (λ o. clear_entry (m, elim o [ none ↦ none | some t ↦ some (t, pt_index virt) ])) e

unmap_absent :
    (virt t : ℕ) (m : Mmu)
    → follow (upper_indices virt) (current_pml4 m) m.tables ≡ some t
    → is_present (m.tables t (pt_index virt)) ≡ false
    → paging_unmap_page virt m ≡ m
unmap_absent virt t m e gap = unmap_found virt m (some t) e ∙ rw gap refl

-- The state after an entry is cleared.
abbrev unmapped : ℕ → ℕ → Mmu → Mmu
unmapped t virt m =
    let m' = write_entry t (pt_index virt) 0 m in
    record m' { mapped_pages = (m'.mapped_pages + u64 - 1) % u64 }

unmap_present :
    (virt t : ℕ) (m : Mmu)
    → follow (upper_indices virt) (current_pml4 m) m.tables ≡ some t
    → is_present (m.tables t (pt_index virt)) ≡ true
    → paging_unmap_page virt m ≡ unmapped t virt m
unmap_present virt t m e there = unmap_found virt m (some t) e ∙ rw there refl

-- The page of `virt` has no translation, all other addresses have theirs, and one page less is
-- counted if the page was mapped.
abbrev pub Unmapped : ℕ → Mmu → Mmu → Type 0
Unmapped virt m m' =
    ((a : ℕ) → gives m' a ≡ (if same_page a virt then 0 else gives m a))
    × (m'.mapped_pages ≡ (
        if is_present (entry virt (current_pml4 m) m)
        then (m.mapped_pages + u64 - 1) % u64
        else m.mapped_pages))

Unmapped-same :
    (virt : ℕ) (m : Mmu) → is_present (entry virt (current_pml4 m) m) ≡ false → Unmapped virt m m
Unmapped-same virt m gap = (
  λ a. elim (Bool-cases (same_page a virt)) [
    | inl same ↦
        let (up, low) = same_page-indices a virt same in
        let one : entry a (current_pml4 m) m ≡ entry virt (current_pml4 m) m =
          ap (λ p. leaf p (pt_index a) (current_pml4 m) m.tables) up
          ∙ ap (λ j. leaf (upper_indices virt) j (current_pml4 m) m.tables) low in
        let gone : is_present (entry a (current_pml4 m) m) ≡ false = ap is_present one ∙ gap in
        let none_there : target (entry a (current_pml4 m) m) a ≡ 0 = rw gone refl in
        rw same (gives-target (current_pml4 m) a m refl ∙ none_there)
    | inr other ↦ rw other refl
  ],
  rw gap refl,
)

gives-unmapped :
    (t virt : ℕ) (m : Mmu)
    → Sound (current_pml4 m) m
    → follow (upper_indices virt) (current_pml4 m) m.tables ≡ some t
    → (a : ℕ) → gives (unmapped t virt m) a ≡ (if same_page a virt then 0 else gives m a)
unfolding write_entry
gives-unmapped t virt m s at a =
    let root = current_pml4 m in
    gives-target root a (unmapped t virt m) (same_root m (unmapped t virt m) refl)
    ∙ ap (λ k. target k a) (stored-entry root t 0 virt m s at a)
    ∙ elim (Bool-cases (same_page a virt)) [
      | inl same ↦ rw (same, is_present-zero) refl
      | inr other ↦ rw other (sym (gives-target root a m refl))
    ]

-- `paging_unmap_page` on tables that form a tree. The tables form a tree again, and the root stays. No
-- address in the page of `virt` is translated any more, all other addresses are translated as
-- before, and the count of mapped pages goes down by one just if the page was mapped.
pub paging_unmap_page_lem :
    (virt : ℕ) (m : Mmu)
    → Sound (current_pml4 m) m
    → Sound (current_pml4 m) (paging_unmap_page virt m)
      × ((paging_unmap_page virt m).cr3 ≡ m.cr3)
      × Unmapped virt m (paging_unmap_page virt m)
unfolding write_entry
paging_unmap_page_lem virt m s =
    let root = current_pml4 m in
    let same_state = λ (k : Mmu) (e : k ≡ m) (gap : is_present (entry virt root m) ≡ false).
      subst (λ (k : Mmu). Sound root k × (k.cr3 ≡ m.cr3) × Unmapped virt m k) (sym e)
        (s, refl, Unmapped-same virt m gap) in
    elim (Option-cases (follow (upper_indices virt) root m.tables)) [
      | inl missing ↦ same_state (paging_unmap_page virt m) (unmap_found virt m none missing) (
          ap is_present (leaf-none (upper_indices virt) (pt_index virt) root m.tables missing)
          ∙ is_present-zero)
      | inr (t, at) ↦
          let same_entry = leaf-some (upper_indices virt) (pt_index virt) root t m.tables at in
          elim (Bool-cases (is_present (m.tables t (pt_index virt)))) [
            | inl there ↦
                let w = stored root t 0 virt m s at in
                let present : is_present (entry virt root m) ≡ true =
                  ap is_present same_entry ∙ there in
                subst (λ (k : Mmu). Sound root k × (k.cr3 ≡ m.cr3) × Unmapped virt m k)
                  (sym (unmap_present virt t m at there))
                  (
                    Sound-counted root ((w.mapped_pages + u64 - 1) % u64) w
                        (stored-Sound root t 0 virt m s at),
                    refl,
                    (gives-unmapped t virt m s at, rw present refl),
                  )
            | inr gap ↦
                same_state (paging_unmap_page virt m) (unmap_absent virt t m at gap)
                  (ap is_present same_entry ∙ gap)
          ]
    ]

-- `paging_unmap_page` after `paging_map_page` at the same address, on tables that form a tree. Whether or not
-- the page could be mapped, no address in the page is translated, and each other address is
-- translated as before the two calls.
pub paging_unmap_page-paging_map_page :
    (virt phys flags a : ℕ) (m : Mmu)
    → phys < u64
    → flags < page_size
    → Sound (current_pml4 m) m
    → gives (paging_unmap_page virt (paging_map_page virt phys flags m)) a
      ≡ (if same_page a virt then 0 else gives m a)
paging_unmap_page-paging_map_page virt phys flags a m fits small s =
    let m' = paging_map_page virt phys flags m in
    let (sound, cr3, outcome) = paging_map_page_lem virt phys flags m fits small s in
    let (_, _, (cleared, _)) =
      paging_unmap_page_lem virt m' (subst (λ k. Sound k m') (sym (same_root m m' cr3)) sound) in
    cleared a ∙ elim (Bool-cases (same_page a virt)) [
      | inl same ↦ rw same refl
      | inr other ↦
          rw other
            (elim outcome [ inl (_, kept, _) ↦ kept a | inr (given, _) ↦ given a ∙ rw other refl ])
    ]
