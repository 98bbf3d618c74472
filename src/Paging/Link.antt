-- ===== src/Paging/Link.antt =====
-- What `get_pte` writes: a flag, or a link to an empty table; and the write of a last entry.
use keon_os.Base.{
  ℕ, test_bit, ◌+◌, ◌≤◌, ◌<◌, ◌≡◌, ◌≢◌, ◌⊎◌, inl, inr, refl, sym, ap, ◌∙◌, true, false, ◌&&◌,
  Option, none, some, List, [], ◌∷◌, ◌++◌, length, ◌==◌, Bool-cases, arith, length-append,
}
use mathlib.Core.Bool.{false≢true}
use mathlib.Core.List.{append_assoc}
use keon_os.Paging.{is_present, frame_of}
use keon_os.Paging.Walk.{
  Tables, follow, follow-nil, follow-next, follow-miss, follow-snoc, Apart, leaf, put, clear,
  follow_local, leaf-some, leaf-none, leaf-same, Apart-ne,
}

-- The entry `i` of the table `t` at the end of the path `p` is not present, and the table `z` is
-- at the end of no path.
pub record Linkable (root t i z e : ℕ) (p : List ℕ) (m : Tables) : Type 0 where
  pub at : follow p root m ≡ some t
  pub short : length p < 3
  pub gap : is_present (m t i) ≡ false
  pub fresh : (r : List ℕ) (u : ℕ) → length r ≤ 3 → follow r root m ≡ some u → u ≢ z
  pub present : is_present e ≡ true
  pub address : frame_of e ≡ z

-- The tables with `z` cleared and then linked.
abbrev pub linked : ℕ → ℕ → ℕ → ℕ → Tables → Tables
linked t i z e m = put t i e (clear z m)

-- A walk in the new tables is one of the old, or just the new link.
abbrev Extends : List ℕ → Option ℕ → Option ℕ → List ℕ → ℕ → Type 0
Extends whole new old path z = (new ≡ old) ⊎ ((whole ≡ path) × (old ≡ none) × (new ≡ some z))

is_present-zero : is_present 0 ≡ false
unfolding test_bit
is_present-zero = refl

linked-Extends :
    (root t i z e : ℕ) (p : List ℕ) (m : Tables)
    → Apart root m
    → Linkable root t i z e p m
    → (r q : List ℕ) (s : ℕ) → follow r root m ≡ some s
    → length r + length q ≤ 3
    → Extends (r ++ q) (follow q s (linked t i z e m)) (follow q s m) (p ++ i ∷ []) z
linked-Extends root t i z e p m apart h r [] s from l =
    inl (follow-nil s (linked t i z e m) ∙ sym (follow-nil s m))
linked-Extends root t i z e p m apart h r (j ∷ q) s from l = elim (Bool-cases (s == t && j == i)) [
  | inl hit ↦
      let (here, index) : (s ≡ t) × (j ≡ i) = ground arith in
      let path : r ≡ p = apart r p t (omega arith) (omega (arith, h.short)) (cc) h.at in
      let entry : linked t i z e m s j ≡ e = rw hit refl in
      let old : is_present (m s j) ≡ false = rw (here, index) h.gap in
      let step =
        follow-next j q s (linked t i z e m) (ap is_present entry ∙ h.present)
        ∙ ap (λ k. follow q k (linked t i z e m)) (ap frame_of entry ∙ h.address) in
      new_link q path index step (follow-miss j q s m old)
  | inr other ↦
      let far : (s == z) ≡ false = ground (arith, h.fresh r s (omega arith) from) in
      let entry : linked t i z e m s j ≡ m s j = rw (other, far) refl in
      elim (Bool-cases (is_present (m s j))) [
        | inl there ↦
            let rest =
              linked-Extends root t i z e p m apart h (r ++ j ∷ []) q (frame_of (m s j))
                (follow-snoc r j root s m from there) (omega (arith, length-append r (j ∷ []))) in
            let new =
              follow-next j q s (linked t i z e m) (ap is_present entry ∙ there)
              ∙ ap (λ k. follow q (frame_of k) (linked t i z e m)) entry in
            let old = follow-next j q s m there in
            let path = append_assoc r (j ∷ []) q in
            elim rest [
              | inl same ↦ inl (new ∙ same ∙ sym old)
              | inr (whole, none_old, some_new) ↦
                  inr (sym path ∙ whole, old ∙ none_old, new ∙ some_new)
            ]
        | inr not_there ↦ inl (
            follow-miss j q s (linked t i z e m) (ap is_present entry ∙ not_there)
            ∙ sym (follow-miss j q s m not_there))
      ]
]
  where
    new_link :
        (q : List ℕ)
        → r ≡ p
        → j ≡ i
        → follow (j ∷ q) s (linked t i z e m) ≡ follow q z (linked t i z e m)
        → follow (j ∷ q) s m ≡ none
        → Extends
            (r ++ j ∷ q)
            (follow (j ∷ q) s (linked t i z e m))
            (follow (j ∷ q) s m)
            (p ++ i ∷ [])
            z
    new_link [] path index new old = inr (
      ap (λ k. k ++ j ∷ []) path ∙ ap (λ k. p ++ k ∷ []) index,
      old,
      new ∙ follow-nil z (linked t i z e m),
    )
    new_link (k ∷ q) path index new old =
        let far : (z == t) ≡ false = ground (arith, h.fresh p t (omega (arith, h.short)) h.at) in
        let here : (z == z) ≡ true = ground arith in
        let empty : is_present (linked t i z e m z k) ≡ false = rw (far, here) is_present-zero in
        inl (new ∙ follow-miss k q z (linked t i z e m) empty ∙ sym old)

module _ (root t i z e : ℕ) (p : List ℕ) (m : Tables) (apart : Apart root m)
    (h : Linkable root t i z e p m) where
  pub linked_all :
      (q : List ℕ)
      → length q ≤ 3
      → Extends q (follow q root (linked t i z e m)) (follow q root m) (p ++ i ∷ []) z
  linked_all q l =
      linked-Extends root t i z e p m apart h [] q root (follow-nil root m) (omega (arith, l))

  -- A path of the new tables is an old one or the link.
  pub linked-some :
      (q : List ℕ) (u : ℕ)
      → length q ≤ 3
      → follow q root (linked t i z e m) ≡ some u
      → (follow q root m ≡ some u) ⊎ ((q ≡ p ++ i ∷ []) × (u ≡ z))
  linked-some q u l new = elim (linked_all q l) [
    | inl same ↦ inl (sym same ∙ new)
    | inr (path, _, link) ↦ inr (path, cc)
  ]

  pub linked-Apart : Apart root (linked t i z e m)
  linked-Apart q r u lq lr eq er = elim (linked-some q u lq eq) [
    | inl oq ↦ elim (linked-some r u lr er) [
      | inl or ↦ apart q r u lq lr oq or
      | inr (_, new) ↦ absurd (h.fresh q u lq oq new)
    ]
    | inr (path, new) ↦ elim (linked-some r u lr er) [
      | inl or ↦ absurd (h.fresh r u lr or new)
      | inr (path', _) ↦ path ∙ sym path'
    ]
  ]

  -- The last entries are as before.
  pub linked-leaf :
      (q : List ℕ) (j : ℕ) → length q ≡ 3 → leaf q j root (linked t i z e m) ≡ leaf q j root m
  linked-leaf q j three = elim (linked_all q (omega arith)) [
    | inl same ↦ leaf-same q j root m (linked t i z e m) same (λ u there.
        let not_new : (u == z) ≡ false = ground (arith, h.fresh q u (omega arith) there) in
        let elsewhere : u ≢ t =
          Apart-ne root m p q t u apart (omega (arith, h.short)) (omega arith) h.at there in
        let not_here : (u == t) ≡ false = ground (arith, elsewhere) in rw (not_here, not_new) refl)
    | inr (path, missing, link) ↦
        let here : (z == z) ≡ true = ground arith in
        let far : (z == t) ≡ false = ground (arith, h.fresh p t (omega (arith, h.short)) h.at) in
        let entry : linked t i z e m z j ≡ 0 = rw (far, here) refl in
        leaf-some q j root z (linked t i z e m) link ∙ entry ∙ sym (leaf-none q j root m missing)
  ]

  -- The link leads to the new table.
  pub linked-new : follow (p ++ i ∷ []) root (linked t i z e m) ≡ some z
  linked-new =
      let hit : (t == t && i == i) ≡ true = ground arith in
      let here : linked t i z e m t i ≡ e = rw hit refl in
      follow-snoc p i root t (linked t i z e m) old (ap is_present here ∙ h.present)
      ∙ ap (λ k. some k) (ap frame_of here ∙ h.address)
    where
      old : follow p root (linked t i z e m) ≡ some t
      old = elim (linked_all p (omega (arith, h.short))) [
        | inl same ↦ same ∙ h.at
        | inr (_, missing, _) ↦ let at = h.at in absurd (false≢true (cc))
      ]

-- A write to a last entry changes no walk, and no other last entry.
module _ (root t i e : ℕ) (p : List ℕ) (m : Tables) (apart : Apart root m) (three : length p ≡ 3)
    (at : follow p root m ≡ some t) where
  pub put_walk : (q : List ℕ) → length q ≤ 3 → follow q root (put t i e m) ≡ follow q root m
  put_walk q l =
      follow_local root m (put t i e m)
        (λ r u j short there.
          let elsewhere : u ≢ t = (λ same.
            Apart-ne root m r p u t apart (omega arith) (omega arith) there at (sym same)) in
          let other : (u == t && j == i) ≡ false = ground (arith, elsewhere) in rw other refl)
        [] q root (follow-nil root m) (omega arith)

  pub put-Apart : Apart root (put t i e m)
  put-Apart q r u lq lr eq er =
      apart q r u lq lr (sym (put_walk q lq) ∙ eq) (sym (put_walk r lr) ∙ er)

  pub put-leaf_here : leaf p i root (put t i e m) ≡ e
  put-leaf_here =
      let hit : (t == t && i == i) ≡ true = ground arith in
      let here : put t i e m t i ≡ e = rw hit refl in
      leaf-some p i root t (put t i e m) (put_walk p (omega arith) ∙ at) ∙ here

  pub put-leaf_other :
      (q : List ℕ) (j : ℕ)
      → length q ≡ 3
      → ((q ≡ p) → (j ≡ i) → ⊥)
      → leaf q j root (put t i e m) ≡ leaf q j root m
  put-leaf_other q j l differ =
      leaf-same q j root m (put t i e m) (put_walk q (omega arith)) (λ u there.
        let other : (u == t && j == i) ≡ false =
          ground
            (arith, λ (same : u ≡ t). differ (apart q p t (omega arith) (omega arith) (cc) at)) in
        rw other refl)
