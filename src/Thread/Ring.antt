-- ===== src/Thread/Ring.antt =====
-- The circle of threads as a list: membership, lookup by address, and the walk round it.
use keon_os.Base.{
  ℕ, ◌≡◌, ◌≢◌, ◌↔◌, ◌⊎◌, inl, inr, sym, ap, Bool, true, false, not, ◌&&◌, none, some, List, [], ◌∷◌,
  ◌++◌, map, arith, ◌==◌, Bool-cases,
}
use mathlib.Core.Bool.{false≢true}
use mathlib.Core.Path.{subst}
use keon_os.Thread.{Thread, is_ready, find, behind, before, walk, pick}

abbrev pub In : Thread → List Thread → Type 0
In t [] = ⊥
In t (x ∷ xs) = (t ≡ x) ⊎ In t xs

-- No thread of the list stands at `a`.
abbrev pub Fresh : ℕ → List Thread → Type 0
Fresh a [] = Unit {0}
Fresh a (t ∷ ts) = (t.addr ≢ a) × Fresh a ts

-- No two threads stand at one address.
abbrev pub Distinct : List Thread → Type 0
Distinct [] = Unit {0}
Distinct (t ∷ ts) = Fresh t.addr ts × Distinct ts

abbrev pub All {ℓ} : (Thread → Type ℓ) → List Thread → Type ℓ
All P [] = Unit
All P (t ∷ ts) = P t × All P ts

pub All-In {ℓ} : (P : Thread → Type ℓ) (t : Thread) (ts : List Thread) → All P ts → In t ts → P t
All-In P t [] h m = absurd m
All-In P t (x ∷ xs) h (inl e) = subst P (sym e) h.0
All-In P t (x ∷ xs) h (inr m) = All-In P t xs h.1 m

pub In-append_left : (t : Thread) (xs ys : List Thread) → In t xs → In t (xs ++ ys)
In-append_left t [] ys m = absurd m
In-append_left t (x ∷ xs) ys (inl e) = inl e
In-append_left t (x ∷ xs) ys (inr m) = inr (In-append_left t xs ys m)

pub In-append_right : (t : Thread) (xs ys : List Thread) → In t ys → In t (xs ++ ys)
In-append_right t [] ys m = m
In-append_right t (x ∷ xs) ys m = inr (In-append_right t xs ys m)

pub In-append : (t : Thread) (xs ys : List Thread) → In t (xs ++ ys) → In t xs ⊎ In t ys
In-append t [] ys m = inr m
In-append t (x ∷ xs) ys (inl e) = inl (inl e)
In-append t (x ∷ xs) ys (inr m) = elim (In-append t xs ys m) [ inl l ↦ inl (inr l) | inr r ↦ inr r ]

pub Fresh-In : (a : ℕ) (t : Thread) (ts : List Thread) → Fresh a ts → In t ts → t.addr ≢ a
Fresh-In a t ts h m = All-In (λ x. x.addr ≢ a) t ts (weak ts h) m
  where
    weak : (ts : List Thread) → Fresh a ts → All (λ x. x.addr ≢ a) ts
    weak [] h = tt
    weak (x ∷ xs) h = (h.0, weak xs h.1)

pub find-In : (a : ℕ) (ts : List Thread) (t : Thread) → find a ts ≡ some t → In t ts × (t.addr ≡ a)
unfolding find
find-In a [] t e = absurd (false≢true (cc))
find-In a (x ∷ xs) t e = elim (Bool-cases (x.addr == a)) [
  | inl hit ↦ let same : t ≡ x = ground arith in (inl same, rw same (ground arith))
  | inr miss ↦ let rest = find-In a xs t (rw miss at e) in (inr rest.0, rest.1)
]

pub In-find : (t : Thread) (ts : List Thread) → Distinct ts → In t ts → find t.addr ts ≡ some t
unfolding find
In-find t [] d m = absurd m
In-find t (x ∷ xs) d (inl e) = let hit : (x.addr == t.addr) ≡ true = ground arith in rw (hit, e)
In-find t (x ∷ xs) d (inr m) =
    let ne = Fresh-In x.addr t xs d.0 m in
    let miss : (x.addr == t.addr) ≡ false = ground arith in rw miss (In-find t xs d.1 m)

-- The list around the thread found at `a`.
pub find-split :
    (a : ℕ) (ts : List Thread) (t : Thread)
    → find a ts ≡ some t
    → ts ≡ before a ts ++ t ∷ behind a ts
unfolding find before behind
find-split a [] t e = absurd (false≢true (cc))
find-split a (x ∷ xs) t e = elim (Bool-cases (x.addr == a)) [
  | inl hit ↦ let same : x ≡ t = ground arith in rw (hit, same)
  | inr miss ↦ rw miss (ap (◌∷◌ x) (find-split a xs t (rw miss at e)))
]

-- The walk from a thread of the circle visits the threads of the circle.
pub walk-In :
    (s t : Thread) (ts : List Thread) → find s.addr ts ≡ some s → In t (walk s ts) ↔ In t ts
unfolding walk
walk-In s t ts e = (to, from)
  where
    split : ts ≡ before s.addr ts ++ s ∷ behind s.addr ts
    split = find-split s.addr ts s e

    join : In t (before s.addr ts ++ s ∷ behind s.addr ts) → In t ts
    join m = subst (In t) (sym split) m

    to : In t ((behind s.addr ts ++ before s.addr ts) ++ s ∷ []) → In t ts
    to m = elim (In-append t (behind s.addr ts ++ before s.addr ts) (s ∷ []) m) [
      | inl o ↦ elim (In-append t (behind s.addr ts) (before s.addr ts) o) [
        | inl b ↦ join (In-append_right t (before s.addr ts) (s ∷ behind s.addr ts) (inr b))
        | inr b ↦ join (In-append_left t (before s.addr ts) (s ∷ behind s.addr ts) b)
      ]
      | inr (inl same) ↦
          join (In-append_right t (before s.addr ts) (s ∷ behind s.addr ts) (inl same))
      | inr (inr never) ↦ absurd never
    ]

    from : In t ts → In t ((behind s.addr ts ++ before s.addr ts) ++ s ∷ [])
    from m = elim (In-append t (before s.addr ts) (s ∷ behind s.addr ts) (subst (In t) split m)) [
      | inl b ↦
          In-append_left t _ (s ∷ []) (In-append_right t (behind s.addr ts) (before s.addr ts) b)
      | inr (inl same) ↦
          In-append_right t (behind s.addr ts ++ before s.addr ts) (s ∷ []) (inl same)
      | inr (inr b) ↦
          In-append_left t _ (s ∷ []) (In-append_left t (behind s.addr ts) (before s.addr ts) b)
    ]

-- What `yield` looks for.
abbrev pub runnable : ℕ → Thread → Bool
runnable idle t = is_ready t.state && not (t.addr == idle)

-- `pick` returns the first runnable thread.
pub pick-some :
    (idle : ℕ) (ts : List Thread) (t : Thread)
    → pick idle ts ≡ some t
    → (pre : List Thread) × (post : List Thread) × (ts ≡ pre ++ t ∷ post)
      × (runnable idle t ≡ true)
      × All (λ x. runnable idle x ≡ false) pre
unfolding pick
pick-some idle [] t e = absurd (false≢true (cc))
pick-some idle (x ∷ xs) t e = elim (Bool-cases (runnable idle x)) [
  | inl hit ↦ let same : x ≡ t = ground arith in ([], xs, rw same, rw same at hit, tt)
  | inr miss ↦
      let (pre, post, split, run, idle_pre) = pick-some idle xs t (rw miss at e) in
      (x ∷ pre, post, rw split, run, (miss, idle_pre))
]

pub pick-none :
    (idle : ℕ) (ts : List Thread) → pick idle ts ≡ none → All (λ x. runnable idle x ≡ false) ts
unfolding pick
pick-none idle [] e = tt
pick-none idle (x ∷ xs) e = elim (Bool-cases (runnable idle x)) [
  | inl hit ↦ absurd (false≢true (ground arith))
  | inr miss ↦ (miss, pick-none idle xs (rw miss at e))
]

-- A change that leaves each thread at its address.
module _ (f : Thread → Thread) (keeps : (t : Thread) → (f t).addr ≡ t.addr) where
  pub find-map :
      (a : ℕ) (ts : List Thread) (t : Thread) → find a ts ≡ some t → find a (map f ts) ≡ some (f t)
  unfolding find
  find-map a [] t e = absurd (false≢true (cc))
  find-map a (x ∷ xs) t e = elim (Bool-cases (x.addr == a)) [
    | inl hit ↦
        let same : x ≡ t = ground arith in
        let hit' : ((f x).addr == a) ≡ true = rw (keeps x) hit in rw (hit', same)
    | inr miss ↦
        let miss' : ((f x).addr == a) ≡ false = rw (keeps x) miss in
        rw miss' (find-map a xs t (rw miss at e))
  ]

  Fresh-map : (a : ℕ) (ts : List Thread) → Fresh a ts → Fresh a (map f ts)
  Fresh-map a [] h = tt
  Fresh-map a (x ∷ xs) h = (rw (keeps x) h.0, Fresh-map a xs h.1)

  pub Distinct-map : (ts : List Thread) → Distinct ts → Distinct (map f ts)
  Distinct-map [] h = tt
  Distinct-map (x ∷ xs) h = (rw (keeps x) (Fresh-map x.addr xs h.0), Distinct-map xs h.1)

  pub All-map {ℓ} :
      (P : Thread → Type ℓ)
      → ((t : Thread) → P t → P (f t))
      → (ts : List Thread) → All P ts
      → All P (map f ts)
  All-map P step [] h = tt
  All-map P step (x ∷ xs) h = (step x h.0, All-map P step xs h.1)
