-- ===== src/Paging/Frames.antt =====
-- What the frames of pages are after `paging_map_page` of kernel/arch/x86_64/paging.cpp.
use keon_os.Base.{
  ℕ, ◌+◌, ◌*◌, ◌/◌, ◌%◌, ◌<◌, ◌≡◌, ◌≢◌, ◌⊎◌, inl, inr, refl, sym, ap, ◌∙◌, true, if◌then◌else◌,
  Bool-cases, arith,
}
use mathlib.Core.Path.{subst}
use keon_os.Pfa.{page_size, u64}
use keon_os.Paging.{
  Mmu, frame_of, is_present, current_pml4, upper_indices, pt_index, paging_map_page,
}
use keon_os.Paging.Descent.{Sound}
use keon_os.Paging.Indices.{same_page, same_page-indices}
use keon_os.Paging.Translate.{entry, target}
use keon_os.Paging.Walk.{leaf}
use keon_os.Paging.Store.{gives, gives-target, same_root}
use keon_os.Paging.Map.{paging_map_page_lem}

-- The start of a page.
abbrev pub page_start : ℕ → ℕ
page_start a = a / page_size * page_size

-- The page has a frame, other than frame 0.
abbrev pub HasFrame : Mmu → ℕ → Type 0
HasFrame m a = gives m (page_start a) ≢ 0

-- Pages that have a frame keep it.
abbrev pub KeepsFrames : Mmu → Mmu → Type 0
KeepsFrames m m' = (a : ℕ) → HasFrame m a → gives m' a ≡ gives m a

-- Two addresses of one page are translated by one entry.
pub same_entry :
    (a b : ℕ) (m : Mmu) → same_page a b ≡ true → gives m a ≡ target (entry b (current_pml4 m) m) a
same_entry a b m same =
    let (up, low) = same_page-indices a b same in
    gives-target (current_pml4 m) a m refl
    ∙ ap (λ k. target k a)
        (ap (λ is. leaf is (pt_index a) (current_pml4 m) m.tables) up
          ∙ ap (λ i. leaf (upper_indices b) i (current_pml4 m) m.tables) low)

wrapped :
    (e a : ℕ)
    → (frame_of (frame_of e % u64) + a % page_size) % u64 ≡ (frame_of e + a % page_size) % u64
wrapped e a = omega arith

-- The frame that a page has is what its start is translated to.
page_frame :
    (a addr : ℕ) (m : Mmu)
    → addr % page_size ≡ 0
    → same_page a addr ≡ true
    → gives m addr ≢ 0
    → (frame_of (gives m addr) + a % page_size) % u64 ≡ gives m a
page_frame a addr m aligned same real =
    let e = entry addr (current_pml4 m) m in
    let here : gives m addr ≡ target e addr = gives-target (current_pml4 m) addr m refl in
    let there : gives m a ≡ target e a = same_entry a addr m same in
    elim (Bool-cases (is_present e)) [
      | inr absent ↦ absurd (real (here ∙ rw absent refl))
      | inl present ↦
          let start : gives m addr ≡ frame_of e % u64 =
            here
            ∙ (rw present
                (ap (λ o. (frame_of e + o) % u64) aligned ∙ ap (λ k. k % u64) (omega arith))) in
          let at : gives m a ≡ (frame_of e + a % page_size) % u64 = there ∙ rw present refl in
          ap (λ k. (frame_of k + a % page_size) % u64) start ∙ wrapped e a ∙ sym at
    ]

-- A map of a page to the frame that it has, or of a page without one.
pub map-KeepsFrames :
    (addr phys : ℕ) (m : Mmu)
    → addr % page_size ≡ 0
    → phys < u64
    → Sound (current_pml4 m) m
    → (gives m addr ≡ 0) ⊎ (phys ≡ gives m addr)
    → KeepsFrames m (paging_map_page addr phys 7 m)
map-KeepsFrames addr phys m aligned fits s had a real =
    elim (paging_map_page_lem addr phys 7 m fits (omega arith) s).2 [
      | inl (out, same, count) ↦ same a
      | inr (moved, count) ↦ moved a ∙ elim (Bool-cases (same_page a addr)) [
        | inr other ↦ rw other refl
        | inl here ↦ rw here (known here had)
      ]
    ]
  where
    start_of : same_page a addr ≡ true → gives m (page_start a) ≡ gives m addr
    start_of here =
        let near : same_page (page_start a) addr ≡ true = ground (arith, here) in
        let zero_offset : page_start a % page_size ≡ addr % page_size = omega (arith, aligned) in
        same_entry (page_start a) addr m near
        ∙ ap
            (λ o.
              if is_present (entry addr (current_pml4 m) m)
              then (frame_of (entry addr (current_pml4 m) m) + o) % u64
              else 0)
            zero_offset
        ∙ sym (gives-target (current_pml4 m) addr m refl)

    known :
        same_page a addr ≡ true
        → (gives m addr ≡ 0) ⊎ (phys ≡ gives m addr)
        → (frame_of phys + a % page_size) % u64 ≡ gives m a
    known here (inl none_before) = absurd (real (start_of here ∙ none_before))
    known here (inr e) =
        ap (λ k. (frame_of k + a % page_size) % u64) e
        ∙ page_frame a addr m aligned here (λ z. real (start_of here ∙ z))

-- Pages keep their frames over two steps that each let them be.
pub KeepsFrames-trans : (m m' m'' : Mmu) → KeepsFrames m m' → KeepsFrames m' m'' → KeepsFrames m m''
KeepsFrames-trans m m' m'' first later a real =
    let again : gives m' (page_start a) ≡ gives m (page_start a) =
      first (page_start a) (λ z. real (ap (gives m) (omega arith) ∙ z)) in
    later a (λ z. real (sym again ∙ z)) ∙ first a real

pub map-Sound :
    (virt phys : ℕ) (m : Mmu)
    → phys < u64
    → Sound (current_pml4 m) m
    → Sound (current_pml4 (paging_map_page virt phys 7 m)) (paging_map_page virt phys 7 m)
map-Sound virt phys m fits s =
    let (after, cr3, moved) = paging_map_page_lem virt phys 7 m fits (omega arith) s in
    let m' = paging_map_page virt phys 7 m in
    subst (λ root. Sound root m') (sym (same_root m m' cr3)) after

pub gives-fits : (a : ℕ) (m : Mmu) → gives m a < u64
gives-fits a m =
    subst (λ k. k < u64) (sym (gives-target (current_pml4 m) a m refl))
      (elim (Bool-cases (is_present (entry a (current_pml4 m) m))) [
        | inl present ↦ rw present (omega arith)
        | inr absent ↦ rw absent (omega arith)
      ])
