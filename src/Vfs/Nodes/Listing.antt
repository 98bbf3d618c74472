-- ===== src/Vfs/Nodes/Listing.antt =====
-- Listing and look-up in `MountOverlayNode` of include/fs/vfs_node.h agree.
use keon_os.Base.{
  ℕ, zero, suc, ◌-◌, ◌≡◌, ◌≢◌, ◌≤◌, ◌<◌, ◌⊎◌, inl, inr, refl, sym, ap, ◌∙◌, true, false, Option,
  none, some, List, [], ◌∷◌, length, get_elem?, ◌==◌, Bool-cases, Option-cases, arith,
}
use mathlib.Core.Bool.{false≢true}
use keon_os.Vfs.{Dirent, same_bytes}
use keon_os.Vfs.Nodes.{first_named, MountOverlayNode, overlay_finddir, overlay_readdir}

some_inj : {A : Type 0} (x y : A) → some x ≡ some y → x ≡ y
some_inj x y e = cc

not_some : {A : Type 0} (x : A) → none ≢ some x
not_some x e = absurd (false≢true (cc))

same_bytes_self : (cs : List ℕ) → same_bytes cs cs ≡ true
unfolding same_bytes
same_bytes_self [] = refl
same_bytes_self (c ∷ cs) =
    let here : (c == c) ≡ true = ground arith in rw (here, same_bytes_self cs) refl

same_bytes-equal : (xs ys : List ℕ) → same_bytes xs ys ≡ true → xs ≡ ys
unfolding same_bytes
same_bytes-equal [] [] e = refl
same_bytes-equal [] (y ∷ ys) e = absurd (false≢true e)
same_bytes-equal (x ∷ xs) [] e = absurd (false≢true e)
same_bytes-equal (x ∷ xs) (y ∷ ys) e =
    let (here, rest) : ((x == y) ≡ true) × (same_bytes xs ys ≡ true) = ground arith in
    let head : x ≡ y = ground (arith, here) in
    ap (λ z. z ∷ xs) head ∙ ap (λ zs. y ∷ zs) (same_bytes-equal xs ys rest)

same_bytes-differ : (xs ys : List ℕ) → same_bytes xs ys ≡ false → xs ≢ ys
same_bytes-differ xs ys e same =
    false≢true (sym e ∙ ap (λ zs. same_bytes xs zs) (sym same) ∙ same_bytes_self xs)

-- No entry of the array has the name.
abbrev pub Absent : List (List ℕ × ℕ) → List ℕ → Type 0
Absent xs name = (i : ℕ) (m : List ℕ × ℕ) → get_elem? xs i ≡ some m → m.0 ≢ name

-- The node stands under the name in the array, and no entry before it has the name.
abbrev pub First : List (List ℕ × ℕ) → List ℕ → ℕ → Type 0
First xs name node =
    (j : ℕ) × (get_elem? xs j ≡ some (name, node))
    × ((i : ℕ) (m : List ℕ × ℕ) → i < j → get_elem? xs i ≡ some m → m.0 ≢ name)

first_named-Absent :
    (xs : List (List ℕ × ℕ)) (name : List ℕ) → first_named xs name ≡ none → Absent xs name
unfolding first_named
first_named-Absent [] name e i m at = absurd (not_some m at)
first_named-Absent ((n, v) ∷ rest) name e zero m at = elim (Bool-cases (same_bytes n name)) [
  | inl same ↦ absurd (not_some v (sym e ∙ rw (first_named, same) refl))
  | inr other ↦ λ same. same_bytes-differ n name other (ap (λ k. k.0) (some_inj (n, v) m at) ∙ same)
]
first_named-Absent ((n, v) ∷ rest) name e (suc i) m at = elim (Bool-cases (same_bytes n name)) [
  | inl same ↦ absurd (not_some v (sym e ∙ rw (first_named, same) refl))
  | inr other ↦ first_named-Absent rest name (sym (rw (first_named, other) refl) ∙ e) i m at
]

first_named-First :
    (xs : List (List ℕ × ℕ)) (name : List ℕ) (node : ℕ)
    → first_named xs name ≡ some node
    → First xs name node
unfolding first_named
first_named-First [] name node e = absurd (not_some node e)
first_named-First ((n, v) ∷ rest) name node e = elim (Bool-cases (same_bytes n name)) [
  | inl same ↦
      let here : v ≡ node = some_inj v node (sym (rw (first_named, same) refl) ∙ e) in
      (
        zero,
        ap (λ k. some (k, v)) (same_bytes-equal n name same) ∙ ap (λ k. some (name, k)) here,
        λ i m l at. absurd (omega (arith, l)),
      )
  | inr other ↦
      let (j, at, before) =
        first_named-First rest name node (sym (rw (first_named, other) refl) ∙ e) in
      (suc j, at, later j other before)
]
  where
    later :
        (j : ℕ)
        → same_bytes n name ≡ false
        → ((i : ℕ) (m : List ℕ × ℕ) → i < j → get_elem? rest i ≡ some m → m.0 ≢ name)
        → (i : ℕ) (m : List ℕ × ℕ) → i < suc j
        → get_elem? ((n, v) ∷ rest) i ≡ some m
        → m.0 ≢ name
    later j other before zero m l at =
        λ same. same_bytes-differ n name other (ap (λ k. k.0) (some_inj (n, v) m at) ∙ same)
    later j other before (suc i) m l at = before i m (omega (arith, l)) at

get_elem?-past : (xs : List (List ℕ × ℕ)) (i : ℕ) → get_elem? xs i ≡ none → length xs ≤ i
get_elem?-past [] i e = omega arith
get_elem?-past (x ∷ xs) zero e = absurd (not_some x (sym e))
get_elem?-past (x ∷ xs) (suc i) e = omega (arith, get_elem?-past xs i e)

module _ (kinds : ℕ → ℕ) (find_below : List ℕ → ℕ) (list_below : ℕ → Option Dirent)
    (o : MountOverlayNode) where
  -- What look-up gives for the name: the first mount under it, or what is below if no mount has it.
  abbrev pub Found : List ℕ → ℕ → Type 0
  Found name node = First o.overlay name node ⊎ (Absent o.overlay name × (node ≡ find_below name))

  -- The mount that an entry lists, with its kind; or the entry below at the rest of the index.
  abbrev pub Listed : ℕ → Dirent → Type 0
  Listed index d =
      ((node : ℕ) × (get_elem? o.overlay index ≡ some (d.name, node))
        × (d.inode ≡ index)
        × (d.kind ≡ kinds node)
        × First o.overlay d.name (overlay_finddir find_below d.name o))
      ⊎ ((length o.overlay ≤ index) × (list_below (index - length o.overlay) ≡ some d))

  overlay_finddir-Found : (name : List ℕ) → Found name (overlay_finddir find_below name o)
  unfolding overlay_finddir
  overlay_finddir-Found name = elim (Option-cases (first_named o.overlay name)) [
    | inl e ↦ rw (overlay_finddir, e) (inr (first_named-Absent o.overlay name e, refl))
    | inr (node, e) ↦ rw (overlay_finddir, e) (inl (first_named-First o.overlay name node e))
  ]

  -- An entry that `readdir` lists is that of the mount at the index, with the kind of its node, or the entry
  -- below at the index less the number of mounts. `finddir` of its name gives the node of the first mount that has
  -- the name, which there is in the first case, or what the directory below finds if no mount has it.
  pub overlay_finddir-overlay_readdir :
      (index : ℕ) (d : Dirent)
      → overlay_readdir kinds list_below index o ≡ some d
      → Listed index d × Found d.name (overlay_finddir find_below d.name o)
  unfolding overlay_readdir
  overlay_finddir-overlay_readdir index d listed =
      let found = overlay_finddir-Found d.name in
      elim (Option-cases (get_elem? o.overlay index)) [
        | inl past ↦ (
          inr (get_elem?-past o.overlay index past, sym (rw (overlay_readdir, past) refl) ∙ listed),
          found,
        )
        | inr (m, at) ↦
            let entry : record { name = m.0; inode = index; kind = kinds m.1 } ≡ d =
              some_inj (record { name = m.0; inode = index; kind = kinds m.1 }) d
                (sym (rw (overlay_readdir, at) refl) ∙ listed) in
            (
              inl (
                m.1,
                at ∙ ap (λ k. some (k.name, m.1)) entry,
                ap (λ k. k.inode) (sym entry),
                ap (λ k. k.kind) (sym entry),
                mounted m at (ap (λ k. k.name) entry) found,
              ),
              found,
            )
      ]
    where
      mounted :
          (m : List ℕ × ℕ)
          → get_elem? o.overlay index ≡ some m
          → m.0 ≡ d.name
          → Found d.name (overlay_finddir find_below d.name o)
          → First o.overlay d.name (overlay_finddir find_below d.name o)
      mounted m at name (inl first) = first
      mounted m at name (inr (absent, _)) = absurd (absent index m at name)
