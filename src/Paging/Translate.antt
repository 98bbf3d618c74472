-- ===== src/Paging/Translate.antt =====
-- paging_get_physical_address of kernel/arch/x86_64/paging.cpp as a function of the last entry.
use keon_os.Base.{
  ℕ, test_bit, ◌+◌, ◌%◌, ◌≡◌, inl, inr, refl, sym, ap, ◌∙◌, true, false, ◌&&◌, Option, none, some,
  List, [], ◌∷◌, ◌==◌, if◌then◌else◌, Bool-cases, arith,
}
use mathlib.Core.Path.{fun_ext}
use keon_os.Pfa.{page_size, u64}
use keon_os.Paging.{
  Mmu, is_present, frame_of, widen, write_entry, descend, get_pte, current_pml4, upper_indices,
  pt_index, paging_get_physical_address,
}
use keon_os.Paging.Walk.{Tables, follow, follow-nil, follow-next, follow-miss, leaf, put}

-- The last entry for an address, 0 where a table is missing.
abbrev pub entry : ℕ → ℕ → Mmu → ℕ
entry virt root m = leaf (upper_indices virt) (pt_index virt) root m.tables

-- The address that an entry gives to `virt`; 0 is `nullptr`.
abbrev pub target : ℕ → ℕ → ℕ
target e virt = if is_present e then (frame_of e + virt % page_size) % u64 else 0

put-same : (t i : ℕ) (m : Tables) → put t i (m t i) m ≡ m
put-same t i m = fun_ext (λ u. fun_ext (λ j. elim (Bool-cases (u == t && j == i)) [
  | inl hit ↦
      let (here, index) : (u ≡ t) × (j ≡ i) = ground arith in
      rw hit (ap (λ k. m k i) (sym here) ∙ ap (m u) (sym index))
  | inr other ↦ rw other refl
]))

write_entry-same : (t i : ℕ) (m : Mmu) → write_entry t i (m.tables t i) m ≡ m
unfolding write_entry
write_entry-same t i m = ap (λ (k : Tables). record m { tables = k }) (put-same t i m.tables)

widen-zero : (e : ℕ) → widen 0 e ≡ e
unfolding widen test_bit
widen-zero e = refl

-- Without `create` the walk changes nothing.
pub descend-follow :
    (is : List ℕ) (t : ℕ) (m : Mmu) → descend false 0 is t m ≡ (m, follow is t m.tables)
descend-follow [] t m =
    unfold descend in ap (λ (k : Option ℕ). (m, k)) (sym (follow-nil t m.tables))
descend-follow (i ∷ is) t m = elim (Bool-cases (is_present (m.tables t i))) [
  | inl there ↦
      known i is t m there
      ∙ descend-follow is (frame_of (m.tables t i)) m
      ∙ ap (λ (k : Option ℕ). (m, k)) (sym (follow-next i is t m.tables there))
  | inr gap ↦
      missing i is t m gap ∙ ap (λ (k : Option ℕ). (m, k)) (sym (follow-miss i is t m.tables gap))
]
  where
    known :
        (i : ℕ) (is : List ℕ) (t : ℕ) (m : Mmu)
        → is_present (m.tables t i) ≡ true
        → descend false 0 (i ∷ is) t m ≡ descend false 0 is (frame_of (m.tables t i)) m
    known i is t m there =
        unfold descend in rw (there, widen-zero (m.tables t i), write_entry-same t i m) refl

    missing :
        (i : ℕ) (is : List ℕ) (t : ℕ) (m : Mmu)
        → is_present (m.tables t i) ≡ false
        → descend false 0 (i ∷ is) t m ≡ (m, none)
    missing i is t m gap = unfold descend in rw gap refl

-- The table and the index that `get_pte` finds without `create`, and the state as it was.
pub get_pte-follow :
    (root virt : ℕ) (m : Mmu)
    → get_pte false 0 root virt m ≡ (
      m,
      elim (follow (upper_indices virt) root m.tables) [
        | none ↦ none
        | some t ↦ some (t, pt_index virt)
      ],
    )
unfolding get_pte
get_pte-follow root virt m = rw (descend-follow (upper_indices virt) root m) refl

pub is_present-zero : is_present 0 ≡ false
unfolding test_bit
is_present-zero = refl

-- `paging_get_physical_address` leaves the state alone and returns what the last entry says.
pub paging_get_physical_address_lem :
    (virt : ℕ) (m : Mmu)
    → paging_get_physical_address virt m ≡ (m, target (entry virt (current_pml4 m) m) virt)
unfolding paging_get_physical_address test_bit
paging_get_physical_address_lem virt m =
    let root = current_pml4 m in
    ap finish (get_pte-follow root virt m)
    ∙ ap (λ (k : ℕ). (m, k)) (answer (follow (upper_indices virt) root m.tables))
  where
    finish : Mmu × Option (ℕ × ℕ) → Mmu × ℕ
    finish r = (r.0, elim r.1 as (λ _. ℕ) [ none ↦ 0 | some (t, i) ↦ target (r.0.tables t i) virt ])

    answer :
        (o : Option ℕ)
        → (elim (elim o as (λ _. Option (ℕ × ℕ)) [ none ↦ none | some t ↦ some (t, pt_index virt) ])
            as (λ _. ℕ) [ none ↦ 0 | some (t, i) ↦ target (m.tables t i) virt ])
          ≡ target (elim o as (λ _. ℕ) [ none ↦ 0 | some t ↦ m.tables t (pt_index virt) ]) virt
    answer none = refl
    answer (some t) = refl
