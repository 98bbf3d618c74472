-- ===== src/Vfs/Resolve.antt =====
-- The walk of `vfs_open` in fs/vfs.cpp against the list of the names in the path.
use keon_os.Base.{
  ℕ, zero, suc, ◌+◌, ◌≤◌, ◌<◌, ◌≡◌, inl, inr, refl, sym, ap, ◌∙◌, true, false, some, List, [], ◌∷◌,
  length, ◌==◌, if◌then◌else◌, Bool-cases, arith,
}
use mathlib.Core.Path.{subst}
use keon_os.Vfs.{Fs, slash, dot, same_bytes, skip_slashes, component, enter, walk, start, vfs_open}

abbrev pub push : ℕ → List (List ℕ) → List (List ℕ)
push c [] = (c ∷ []) ∷ []
push c (w ∷ ws) = (c ∷ w) ∷ ws

-- The parts of a path between slashes, the empty ones included.
unfoldable pub split : List ℕ → List (List ℕ)
split [] = [] ∷ []
split (c ∷ cs) = if c == slash then [] ∷ split cs else push c (split cs)

abbrev pub non_empty : List (List ℕ) → List (List ℕ)
non_empty [] = []
non_empty ([] ∷ ws) = non_empty ws
non_empty ((c ∷ w) ∷ ws) = (c ∷ w) ∷ non_empty ws

-- The names in a path.
abbrev pub names : List ℕ → List (List ℕ)
names p = non_empty (split p)

-- All names fit `component[128]`.
abbrev pub AllShort : List (List ℕ) → Type 0
AllShort [] = Unit {0}
AllShort (w ∷ ws) = (length w < 128) × AllShort ws

-- The node that the names lead to: `.` stays, and a name that leads nowhere ends the walk.
pub resolve : {S : Type 0} → Fs S → List (List ℕ) → ℕ → S → S × ℕ
resolve fs [] current s = (s, current)
resolve fs (w ∷ ws) current s =
    let next = enter fs w current s in
    if same_bytes w (dot ∷ []) then resolve fs ws current s else elim (next.1 == 0) [
      | true ↦ (fs.close_node current next.0, 0)
      | false ↦ resolve fs ws next.1 (fs.close_node current next.0)
    ]

split-slash : (c : ℕ) (cs : List ℕ) → (c == slash) ≡ true → split (c ∷ cs) ≡ [] ∷ split cs
unfolding split
split-slash c cs e = rw e refl

split-other : (c : ℕ) (cs : List ℕ) → (c == slash) ≡ false → split (c ∷ cs) ≡ push c (split cs)
unfolding split
split-other c cs e = rw e refl

split-cons : (p : List ℕ) → (w : List ℕ) × (ws : List (List ℕ)) × (split p ≡ w ∷ ws)
split-cons [] = ([], [], (unfold split in refl))
split-cons (c ∷ cs) = elim (Bool-cases (c == slash)) [
  | inl e ↦ ([], split cs, split-slash c cs e)
  | inr e ↦ let (w, ws, h) = split-cons cs in (c ∷ w, ws, split-other c cs e ∙ ap (push c) h)
]

-- `component` takes the first part, if it is not longer than its limit.
component-split :
    (n : ℕ) (p w : List ℕ) (ws : List (List ℕ))
    → split p ≡ w ∷ ws
    → length w ≤ n
    → ((component n p).0 ≡ w)
      × (names (component n p).1 ≡ non_empty ws)
      × (length p ≡ length w + length (component n p).1)
unfolding component
component-split zero [] w ws e l =
    let (first, rest) : (w ≡ []) × (ws ≡ []) = unfold split in (cc, cc) in
    rw (first, rest) (refl, (unfold split in refl), omega arith)
component-split (suc n) [] w ws e l =
    let (first, rest) : (w ≡ []) × (ws ≡ []) = unfold split in (cc, cc) in
    rw (first, rest) (refl, (unfold split in refl), omega arith)
component-split zero (c ∷ cs) w ws e l = elim (Bool-cases (c == slash)) [
  | inl s ↦
      let h = split-slash c cs s in
      let first : w ≡ [] = cc in
      let rest : ws ≡ split cs = cc in rw (first, rest) (refl, ap non_empty h, omega arith)
  | inr s ↦
      let (v, vs, h) = split-cons cs in
      let whole = split-other c cs s ∙ ap (push c) h in
      let first : w ≡ c ∷ v = cc in
      let long : length w ≡ suc (length v) = ap length first in absurd (omega (arith, long, l))
]
component-split (suc n) (c ∷ cs) w ws e l = elim (Bool-cases (c == slash)) [
  | inl s ↦
      let h = split-slash c cs s in
      let first : w ≡ [] = cc in
      let rest : ws ≡ split cs = cc in rw (first, rest, s) (refl, ap non_empty h, omega arith)
  | inr s ↦
      let (v, vs, h) = split-cons cs in
      let whole = split-other c cs s ∙ ap (push c) h in
      let first : w ≡ c ∷ v = cc in
      let rest : ws ≡ vs = cc in
      let long : length w ≡ suc (length v) = ap length first in
      let (taken, left, size) = component-split n cs v vs h (omega (arith, long, l)) in
      rw (first, rest, s) (ap (λ k. c ∷ k) taken, left, omega (arith, size))
]

-- A path as the walk meets it: empty, or with no slash in front.
abbrev pub IsBare : List ℕ → Type 0
IsBare [] = Unit {0}
IsBare (c ∷ cs) = (c == slash) ≡ false

skip_slashes_lem :
    (p : List ℕ)
    → IsBare (skip_slashes p)
      × (names (skip_slashes p) ≡ names p)
      × (length (skip_slashes p) ≤ length p)
unfolding skip_slashes
skip_slashes_lem [] = (tt, refl, omega arith)
skip_slashes_lem (c ∷ cs) = elim (Bool-cases (c == slash)) [
  | inl s ↦
      let (bare, same, short) = skip_slashes_lem cs in
      rw s (bare, same ∙ sym (ap non_empty (split-slash c cs s)), omega arith)
  | inr s ↦ rw s (s, refl, omega arith)
]

-- The first name of a bare path.
names-cons :
    (c : ℕ) (cs : List ℕ)
    → (c == slash) ≡ false
    → (v : List ℕ) × (vs : List (List ℕ)) × (split (c ∷ cs) ≡ (c ∷ v) ∷ vs)
names-cons c cs s = let (v, vs, h) = split-cons cs in (v, vs, split-other c cs s ∙ ap (push c) h)

module _ {S : Type 0} (fs : Fs S) where
  resolve-dot :
      (w : List ℕ) (ws : List (List ℕ)) (current : ℕ) (s : S)
      → same_bytes w (dot ∷ []) ≡ true
      → resolve fs (w ∷ ws) current s ≡ resolve fs ws current s
  unfolding resolve
  resolve-dot w ws current s e = rw e refl

  resolve-miss :
      (w : List ℕ) (ws : List (List ℕ)) (current : ℕ) (s : S)
      → same_bytes w (dot ∷ []) ≡ false
      → ((enter fs w current s).1 == 0) ≡ true
      → resolve fs (w ∷ ws) current s ≡ (fs.close_node current (enter fs w current s).0, 0)
  unfolding resolve
  resolve-miss w ws current s e n = rw (resolve, e, n) refl

  resolve-go :
      (w : List ℕ) (ws : List (List ℕ)) (current : ℕ) (s : S)
      → same_bytes w (dot ∷ []) ≡ false
      → ((enter fs w current s).1 == 0) ≡ false
      → resolve fs (w ∷ ws) current s
        ≡ resolve fs ws (enter fs w current s).1 (fs.close_node current (enter fs w current s).0)
  unfolding resolve
  resolve-go w ws current s e n = rw (resolve, e, n) refl

  -- One round of the walk, at the name that `component` takes.
  module _ (fuel c : ℕ) (cs w : List ℕ) (current : ℕ) (s : S)
      (taken : (component 127 (c ∷ cs)).0 ≡ w) where
    walk-dot :
        same_bytes w (dot ∷ []) ≡ true
        → walk fs (suc fuel) (c ∷ cs) current s
          ≡ walk fs fuel (skip_slashes (component 127 (c ∷ cs)).1) current s
    unfolding walk
    walk-dot e = rw (walk, taken, e) refl

    walk-miss :
        same_bytes w (dot ∷ []) ≡ false
        → ((enter fs w current s).1 == 0) ≡ true
        → walk fs (suc fuel) (c ∷ cs) current s
          ≡ some (fs.close_node current (enter fs w current s).0, 0)
    unfolding walk
    walk-miss e n = rw (walk, taken, e, n) refl

    walk-go :
        same_bytes w (dot ∷ []) ≡ false
        → ((enter fs w current s).1 == 0) ≡ false
        → walk fs (suc fuel) (c ∷ cs) current s
          ≡ walk fs fuel
              (skip_slashes (component 127 (c ∷ cs)).1)
              (enter fs w current s).1
              (fs.close_node current (enter fs w current s).0)
    unfolding walk
    walk-go e n = rw (walk, taken, e, n) refl

  walk-resolve :
      (fuel : ℕ) (p : List ℕ) (current : ℕ) (s : S)
      → length p < fuel
      → IsBare p
      → AllShort (names p)
      → walk fs fuel p current s ≡ some (resolve fs (names p) current s)
  walk-resolve zero p current s l bare short = absurd (omega arith)
  walk-resolve (suc fuel) [] current s l bare short =
      unfold walk in unfold split in unfold resolve in refl
  walk-resolve (suc fuel) (c ∷ cs) current s l bare short =
      let (v, vs, h) = names-cons c cs bare in
      let w = c ∷ v in
      let list : names (c ∷ cs) ≡ w ∷ non_empty vs = ap non_empty h in
      let fits : AllShort (w ∷ non_empty vs) = subst AllShort list short in
      let (taken, left, size) = component-split 127 (c ∷ cs) w vs h (omega (arith, fits.0)) in
      let p' = skip_slashes (component 127 (c ∷ cs)).1 in
      let (bare', same, less) = skip_slashes_lem (component 127 (c ∷ cs)).1 in
      let list' : names p' ≡ non_empty vs = same ∙ left in
      let rest : (current' : ℕ) (s' : S)
          → walk fs fuel p' current' s' ≡ some (resolve fs (non_empty vs) current' s') =
        λ current' s'.
          walk-resolve fuel p' current' s' (omega (arith, l, size, less)) bare'
            (subst AllShort (sym list') fits.1)
          ∙ ap (λ k. some (resolve fs k current' s')) list' in
      let back = ap (λ k. some (resolve fs k current s)) (sym list) in
      elim (Bool-cases (same_bytes w (dot ∷ []))) [
        | inl e ↦
            walk-dot fuel c cs w current s taken e
            ∙ rest current s
            ∙ ap (λ r. some r) (sym (resolve-dot w (non_empty vs) current s e))
            ∙ back
        | inr e ↦ elim (Bool-cases ((enter fs w current s).1 == 0)) [
          | inl n ↦
              walk-miss fuel c cs w current s taken e n
              ∙ ap (λ r. some r) (sym (resolve-miss w (non_empty vs) current s e n))
              ∙ back
          | inr n ↦
              walk-go fuel c cs w current s taken e n
              ∙ rest (enter fs w current s).1 (fs.close_node current (enter fs w current s).0)
              ∙ ap (λ r. some r) (sym (resolve-go w (non_empty vs) current s e n))
              ∙ back
        ]
      ]

  start_lem :
      (cwd : ℕ) (path : List ℕ)
      → IsBare (start fs cwd path).1
        × (names (start fs cwd path).1 ≡ names path)
        × (length (start fs cwd path).1 ≤ length path)
  unfolding start
  start_lem cwd [] = (tt, refl, omega arith)
  start_lem cwd (c ∷ cs) = elim (Bool-cases (c == slash)) [
    | inl e ↦
        let (bare, same, less) = skip_slashes_lem cs in
        rw e (bare, same ∙ sym (ap non_empty (split-slash c cs e)), omega arith)
    | inr e ↦ rw e (e, refl, omega arith)
  ]

  -- When each name in the path is shorter than 128 bytes, `vfs_open` ends and is the walk over the
  -- list of those names, from the root for a path with a slash in front and else from the
  -- working directory: a reference that knows nothing of buffers and of repeated slashes.
  pub vfs_open-resolve :
      (cwd : ℕ) (path : List ℕ) (s : S)
      → (fs.root == 0) ≡ false
      → AllShort (names path)
      → vfs_open fs cwd path s ≡ (
          let from = (start fs cwd path).0 in
          some (resolve fs (names path) from (fs.open_node from s)))
  unfolding vfs_open
  vfs_open-resolve cwd path s root short =
      let from = (start fs cwd path).0 in
      let (bare, same, less) = start_lem cwd path in
      rw root (
        walk-resolve (suc (length path)) (start fs cwd path).1 from (fs.open_node from s)
          (omega (arith, less)) bare (subst AllShort (sym same) short)
        ∙ ap (λ k. some (resolve fs k from (fs.open_node from s))) same)
