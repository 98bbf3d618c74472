-- ===== src/Paging/Walk.antt =====
-- The walk down the tables of kernel/arch/x86_64/paging.cpp, apart from the entries that
-- `get_pte` changes on its way.
use keon_os.Base.{
  ℕ, ◌+◌, ◌≤◌, ◌<◌, ◌≡◌, ◌≢◌, inl, inr, refl, sym, ap, ◌∙◌, true, false, ◌&&◌, Option, none, some,
  List, [], ◌∷◌, ◌++◌, length, ◌==◌, if◌then◌else◌, Bool-cases, Option-cases, arith, length-append,
}
use mathlib.Core.Bool.{false≢true}
use keon_os.Paging.{is_present, frame_of}

abbrev pub Tables : Type 0
Tables = ℕ → ℕ → ℕ

-- The table that the indices lead to from the table `s` on.
pub follow : List ℕ → ℕ → Tables → Option ℕ
follow [] s m = some s
follow (i ∷ is) s m =
    let rest = follow is (frame_of (m s i)) m in if is_present (m s i) then rest else none

pub follow-nil : (s : ℕ) (m : Tables) → follow [] s m ≡ some s
unfolding follow
follow-nil s m = refl

pub follow-next :
    (i : ℕ) (is : List ℕ) (s : ℕ) (m : Tables)
    → is_present (m s i) ≡ true
    → follow (i ∷ is) s m ≡ follow is (frame_of (m s i)) m
unfolding follow
follow-next i is s m h = rw h refl

pub follow-miss :
    (i : ℕ) (is : List ℕ) (s : ℕ) (m : Tables)
    → is_present (m s i) ≡ false
    → follow (i ∷ is) s m ≡ none
unfolding follow
follow-miss i is s m h = rw h refl

pub follow-snoc :
    (p : List ℕ) (i s t : ℕ) (m : Tables)
    → follow p s m ≡ some t
    → is_present (m t i) ≡ true
    → follow (p ++ i ∷ []) s m ≡ some (frame_of (m t i))
follow-snoc [] i s t m e h =
    let same : s ≡ t = unfold follow in cc in
    let there : is_present (m s i) ≡ true = rw same h in
    follow-next i [] s m there
    ∙ follow-nil (frame_of (m s i)) m
    ∙ ap (λ k. some (frame_of (m k i))) same
follow-snoc (j ∷ p) i s t m e h = elim (Bool-cases (is_present (m s j))) [
  | inl there ↦
      follow-next j (p ++ i ∷ []) s m there
      ∙ follow-snoc p i (frame_of (m s j)) t m (sym (follow-next j p s m there) ∙ e) h
  | inr not_there ↦ let miss = follow-miss j p s m not_there in absurd (false≢true (cc))
]

-- No two paths of at most three steps lead to one table.
abbrev pub Apart : ℕ → Tables → Type 0
Apart root m =
    (p q : List ℕ) (t : ℕ)
    → length p ≤ 3
    → length q ≤ 3
    → follow p root m ≡ some t
    → follow q root m ≡ some t
    → p ≡ q

-- The entry `j` of the table that `p` leads to, 0 where it leads to none.
abbrev pub leaf : List ℕ → ℕ → ℕ → Tables → ℕ
leaf p j root m = elim (follow p root m) [ none ↦ 0 | some t ↦ m t j ]

abbrev pub put : ℕ → ℕ → ℕ → Tables → Tables
put t i e m u j = if u == t && j == i then e else m u j

abbrev pub clear : ℕ → Tables → Tables
clear z m u j = if u == z then 0 else m u j

-- Tables that agree in the present bits and the addresses have the same walks.
pub follow_agree :
    (m m' : Tables)
    → ((u j : ℕ) → is_present (m' u j) ≡ is_present (m u j))
    → ((u j : ℕ) → frame_of (m' u j) ≡ frame_of (m u j))
    → (p : List ℕ) (s : ℕ) → follow p s m' ≡ follow p s m
follow_agree m m' present frame [] s = follow-nil s m' ∙ sym (follow-nil s m)
follow_agree m m' present frame (i ∷ is) s = elim (Bool-cases (is_present (m s i))) [
  | inl there ↦
      follow-next i is s m' (present s i ∙ there)
      ∙ ap (λ k. follow is k m') (frame s i)
      ∙ follow_agree m m' present frame is (frame_of (m s i))
      ∙ sym (follow-next i is s m there)
  | inr not_there ↦
      follow-miss i is s m' (present s i ∙ not_there) ∙ sym (follow-miss i is s m not_there)
]

-- So have tables that agree wherever a walk of under three steps from the root leads.
pub follow_local :
    (root : ℕ) (m m' : Tables)
    → ((r : List ℕ) (u j : ℕ) → length r < 3 → follow r root m ≡ some u → m' u j ≡ m u j)
    → (r q : List ℕ) (s : ℕ) → follow r root m ≡ some s
    → length r + length q ≤ 3
    → follow q s m' ≡ follow q s m
follow_local root m m' agree r [] s e l = follow-nil s m' ∙ sym (follow-nil s m)
follow_local root m m' agree r (i ∷ is) s e l =
    let same = agree r s i (omega arith) e in
    elim (Bool-cases (is_present (m s i))) [
      | inl there ↦
          follow-next i is s m' (ap is_present same ∙ there)
          ∙ ap (λ k. follow is (frame_of k) m') same
          ∙ follow_local root m m' agree (r ++ i ∷ []) is (frame_of (m s i))
              (follow-snoc r i root s m e there) (omega (arith, length-append r (i ∷ [])))
          ∙ sym (follow-next i is s m there)
      | inr not_there ↦
          follow-miss i is s m' (ap is_present same ∙ not_there)
          ∙ sym (follow-miss i is s m not_there)
    ]

pub leaf-some :
    (p : List ℕ) (j root t : ℕ) (m : Tables) → follow p root m ≡ some t → leaf p j root m ≡ m t j
leaf-some p j root t m e = ap {B = ℕ} (λ o. elim o [ none ↦ 0 | some u ↦ m u j ]) e

pub leaf-none :
    (p : List ℕ) (j root : ℕ) (m : Tables) → follow p root m ≡ none → leaf p j root m ≡ 0
leaf-none p j root m e = ap {B = ℕ} (λ o. elim o [ none ↦ 0 | some u ↦ m u j ]) e

-- A longer path leads elsewhere.
pub Apart-ne :
    (root : ℕ) (m : Tables) (p q : List ℕ) (t u : ℕ)
    → Apart root m
    → length p < length q
    → length q ≤ 3
    → follow p root m ≡ some t
    → follow q root m ≡ some u
    → u ≢ t
Apart-ne root m p q t u apart l three at from same =
    let path : q ≡ p = apart q p t three (omega (arith, l, three)) (cc) at in
    let even : length q ≡ length p = ap length path in omega (arith, l, even)

-- Where a walk and the table at its end are as before, so is the last entry.
pub leaf-same :
    (q : List ℕ) (j root : ℕ) (m m' : Tables)
    → follow q root m' ≡ follow q root m
    → ((u : ℕ) → follow q root m ≡ some u → m' u j ≡ m u j)
    → leaf q j root m' ≡ leaf q j root m
leaf-same q j root m m' same entry = elim (Option-cases (follow q root m)) [
  | inl missing ↦ leaf-none q j root m' (same ∙ missing) ∙ sym (leaf-none q j root m missing)
  | inr (u, there) ↦
      leaf-some q j root u m' (same ∙ there) ∙ entry u there ∙ sym (leaf-some q j root u m there)
]
