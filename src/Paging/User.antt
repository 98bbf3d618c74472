-- ===== src/Paging/User.antt =====
-- `paging_is_user_accessible` of kernel/arch/x86_64/paging.cpp finds a last entry that is present.
use keon_os.Base.{
  ℕ, ◌+◌, ◌%◌, ◌≡◌, ◌≢◌, sym, ap, ◌∙◌, refl, Bool, true, ◌&&◌, some, List, [], ◌∷◌, ◌++◌, arith,
}
use keon_os.Pfa.{page_size, u64}
use keon_os.Paging.{
  Mmu, is_present, frame_of, current_pml4, upper_indices, pt_index, all_user,
  paging_is_user_accessible,
}
use keon_os.Paging.Walk.{follow, follow-nil, follow-next, leaf-some}
use keon_os.Paging.Translate.{entry}
use keon_os.Paging.Store.{gives}
use keon_os.Paging.Frames.{same_entry}
use keon_os.Paging.Indices.{same_page}

-- The page at `addr` is translated. The test is of its second byte, which no frame puts at address 0, the value for an
-- entry that is not present.
abbrev pub IsPresent : Mmu → ℕ → Type 0
IsPresent m addr = gives m (addr + 1) ≢ 0

all_user-follow :
    (is : List ℕ) (l t : ℕ) (m : Mmu)
    → all_user (is ++ l ∷ []) t m ≡ true
    → (u : ℕ) × (follow is t m.tables ≡ some u) × (is_present (m.tables u l) ≡ true)
unfolding all_user
all_user-follow [] l t m e = (t, follow-nil t m.tables, ground (arith, e))
all_user-follow (i ∷ is) l t m e =
    let (here, rest) : (is_present (m.tables t i) ≡ true)
        × (all_user (is ++ l ∷ []) (frame_of (m.tables t i)) m ≡ true) =
      split _ _ _ e in
    let (u, at, there) = all_user-follow is l (frame_of (m.tables t i)) m rest in
    (u, follow-next i is t m.tables here ∙ at, there)
  where
    split : (a b c : Bool) → (a && (b && c)) ≡ true → (a ≡ true) × (c ≡ true)
    split a b c e = ground (arith, e)

user-present :
    (a : ℕ) (m : Mmu)
    → paging_is_user_accessible a m ≡ true
    → is_present (entry a (current_pml4 m) m) ≡ true
unfolding paging_is_user_accessible upper_indices pt_index
user-present a m e =
    let (u, at, there) = all_user-follow (upper_indices a) (pt_index a) (current_pml4 m) m e in
    ap is_present (leaf-some (upper_indices a) (pt_index a) (current_pml4 m) u m.tables at) ∙ there

pub user-IsPresent :
    (addr : ℕ) (m : Mmu)
    → addr % page_size ≡ 0
    → paging_is_user_accessible addr m ≡ true
    → IsPresent m addr
user-IsPresent addr m aligned e z =
    let near : same_page (addr + 1) addr ≡ true = ground (arith, aligned) in
    let at : gives m (addr + 1)
        ≡ (frame_of (entry addr (current_pml4 m) m) + (addr + 1) % page_size) % u64 =
      same_entry (addr + 1) addr m near ∙ rw (user-present addr m e) refl in
    let one : (addr + 1) % page_size ≡ 1 = omega (arith, aligned) in
    absurd (
      never (entry addr (current_pml4 m) m)
        (sym (ap (λ o. (frame_of (entry addr (current_pml4 m) m) + o) % u64) one) ∙ sym at ∙ z))
  where
    never : (e : ℕ) → (frame_of e + 1) % u64 ≢ 0
    never e z = omega (arith, z)
