-- ===== src/Thread/Fairness.antt =====
-- The scheduler goes round the circle: a thread that stays ready is reached.
use keon_os.Base.{
  ℕ, zero, suc, ◌≤◌, ◌<◌, ◌≡◌, ◌⊎◌, inl, inr, refl, sym, ◌∙◌, ap, true, false, some, List, [], ◌∷◌,
  ◌++◌, map, arith, ◌==◌, length, length-append,
}
use mathlib.Core.Bool.{false≢true}
use mathlib.Core.Path.{subst}
use mathlib.Core.List.{append_assoc, append-nil}
use keon_os.Thread.{Thread, Sched, find, before, behind, walk, wake, yield}
use keon_os.Thread.Choice.{Inv, yield-Yielded, yield-Inv}
use keon_os.Thread.Ring.{
  In, Fresh, Distinct, Fresh-In, In-append_right, find-In, find-split, walk-In, runnable, All-In,
}

-- Two ways to cut one list.
append_cut :
    (xs ys pre : List Thread) (t : Thread) (post : List Thread)
    → xs ++ ys ≡ pre ++ t ∷ post
    → ((v : List Thread) × (xs ≡ pre ++ t ∷ v) × (post ≡ v ++ ys))
      ⊎ ((u : List Thread) × (pre ≡ xs ++ u) × (ys ≡ u ++ t ∷ post))
append_cut [] ys pre t post e = inr (pre, refl, e)
append_cut (x ∷ xs) ys [] t post e =
    let head : x ≡ t = cc in let tail : xs ++ ys ≡ post = cc in inl (xs, rw head, sym tail)
append_cut (x ∷ xs) ys (p ∷ pre) t post e =
    let head : x ≡ p = cc in
    let tail : xs ++ ys ≡ pre ++ t ∷ post = cc in
    elim (append_cut xs ys pre t post tail) [
      | inl (v, a, b) ↦ inl (v, rw (head, a), b)
      | inr (u, a, b) ↦ inr (u, rw (head, a), b)
    ]

-- Of two threads that one list holds, one stands first or they are one.
cut_order :
    (pre : List Thread) (t : Thread) (post pre' : List Thread) (x : Thread) (post' : List Thread)
    → pre ++ t ∷ post ≡ pre' ++ x ∷ post'
    → In t pre'
      ⊎ (t ≡ x)
      ⊎ ((mid : List Thread) × (pre ≡ pre' ++ x ∷ mid) × (post' ≡ mid ++ t ∷ post))
cut_order [] t post [] x post' e = inr (inl (cc))
cut_order [] t post (p ∷ pre') x post' e = inl (inl (cc))
cut_order (q ∷ pre) t post [] x post' e =
    let head : q ≡ x = cc in
    let tail : post' ≡ pre ++ t ∷ post = cc in inr (inr (pre, rw head, tail))
cut_order (q ∷ pre) t post (p ∷ pre') x post' e =
    let head : q ≡ p = cc in
    let tail : pre ++ t ∷ post ≡ pre' ++ x ∷ post' = cc in
    elim (cut_order pre t post pre' x post' tail) [
      | inl m ↦ inl (inr m)
      | inr (inl same) ↦ inr (inl same)
      | inr (inr (mid, a, b)) ↦ inr (inr (mid, rw (head, a), b))
    ]

Fresh-append :
    (pre : List Thread) (t : Thread) (post : List Thread)
    → Distinct (pre ++ t ∷ post)
    → Fresh t.addr pre
Fresh-append [] t post d = tt
Fresh-append (x ∷ pre) t post d =
    let ne =
      Fresh-In x.addr t (pre ++ t ∷ post) d.0 (In-append_right t pre (t ∷ post) (inl refl)) in
    (λ e. ne (sym e), Fresh-append pre t post d.1)

-- Where a thread of the circle stands, in a list with different addresses.
cut-at :
    (pre : List Thread) (t : Thread) (post : List Thread)
    → Fresh t.addr pre
    → (before t.addr (pre ++ t ∷ post) ≡ pre) × (behind t.addr (pre ++ t ∷ post) ≡ post)
unfolding before behind
cut-at [] t post h = let e : (t.addr == t.addr) ≡ true = ground arith in rw e (refl, refl)
cut-at (x ∷ pre) t post h =
    let ne : (x.addr == t.addr) ≡ false = ground (arith, h.0) in
    let rest = cut-at pre t post h.1 in rw ne (ap (◌∷◌ x) rest.0, rest.1)

walk-at :
    (pre : List Thread) (t : Thread) (post : List Thread)
    → Distinct (pre ++ t ∷ post)
    → walk t (pre ++ t ∷ post) ≡ (post ++ pre) ++ t ∷ []
unfolding walk
walk-at pre t post d = let c = cut-at pre t post (Fresh-append pre t post d) in rw (c.0, c.1)

walk-cut :
    (ts pre : List Thread) (t : Thread) (post : List Thread)
    → Distinct ts
    → ts ≡ pre ++ t ∷ post
    → walk t ts ≡ (post ++ pre) ++ t ∷ []
walk-cut ts pre t post d e =
    subst (λ xs. walk t xs ≡ (post ++ pre) ++ t ∷ []) (sym e)
      (walk-at pre t post (subst Distinct e d))

singleton_cut :
    (s : Thread) (u : List Thread) (t : Thread) (post : List Thread)
    → s ∷ [] ≡ u ++ t ∷ post
    → (u ≡ []) × (t ≡ s) × (post ≡ [])
singleton_cut s [] t post e = (refl, cc, cc)
singleton_cut s (x ∷ []) t post e = absurd (cc)
singleton_cut s (x ∷ y ∷ u) t post e = absurd (cc)

module _ (s : Thread) (ts : List Thread) (d : Distinct ts) (f : find s.addr ts ≡ some s) where
  circle : ts ≡ before s.addr ts ++ s ∷ behind s.addr ts
  circle = find-split s.addr ts s f

  turn-behind :
      (pre : List Thread) (t : Thread) (w : List Thread)
      → behind s.addr ts ≡ pre ++ t ∷ w
      → walk t ts ≡ (((w ++ before s.addr ts) ++ s ∷ []) ++ pre) ++ t ∷ []
  turn-behind pre t w e =
      walk-cut ts (before s.addr ts ++ s ∷ pre) t w d
        (circle ∙ ap (λ xs. before s.addr ts ++ s ∷ xs) e ∙ simp append_assoc)
      ∙ simp append_assoc

  turn-before :
      (u : List Thread) (t : Thread) (v : List Thread)
      → before s.addr ts ≡ u ++ t ∷ v
      → walk t ts ≡ ((v ++ s ∷ []) ++ (behind s.addr ts ++ u)) ++ t ∷ []
  turn-before u t v e =
      walk-cut ts u t (v ++ s ∷ behind s.addr ts) d
        (circle ∙ ap (λ xs. xs ++ s ∷ behind s.addr ts) e ∙ simp append_assoc)
      ∙ simp append_assoc

  -- The walk from a later thread of a walk is that walk, turned.
  pub walk-turn :
      (pre : List Thread) (t : Thread) (post : List Thread)
      → walk s ts ≡ pre ++ t ∷ post
      → walk t ts ≡ (post ++ pre) ++ t ∷ []
  unfolding walk
  walk-turn pre t post e =
      elim (append_cut (behind s.addr ts ++ before s.addr ts) (s ∷ []) pre t post e) [
        | inl (v, a, b) ↦ elim (append_cut (behind s.addr ts) (before s.addr ts) pre t v a) [
          | inl (w, a', b') ↦ unfold walk in rw (b, b') (turn-behind pre t w a')
          | inr (u, a', b') ↦ rw (b, a') (turn-before u t v b')
        ]
        | inr (u, a, b) ↦
            let (none_left, same, end) = singleton_cut s u t post b in
            rw (end, same, a, none_left) (simp append-nil)
      ]

-- `n` calls of `yield` in a row.
pub yields : ℕ → Sched → Sched
yields zero s = s
yields (suc n) s = yields n (yield s)

yields-suc : (k : ℕ) (s : Sched) → yields (suc k) s ≡ yields k (yield s)
unfolding yields
yields-suc k s = refl

-- No sleeper of the circle is due.
abbrev pub Settled : Sched → Type 0
Settled s = map wake s.ring ≡ s.ring

-- A runnable thread that the walk from the current one meets at a position below `n` is current
-- after at most `n` calls.
reached :
    (n : ℕ) (s : Sched) (c t : Thread) (pre post : List Thread)
    → Inv s
    → Settled s
    → find s.current s.ring ≡ some c
    → runnable s.idle t ≡ true
    → walk c s.ring ≡ pre ++ t ∷ post
    → length pre < n
    → (k : ℕ) × (k ≤ n) × ((yields k s).current ≡ t.addr)
reached zero s c t pre post inv settled at_c run split short = absurd (omega arith)
reached (suc n) s c t pre post inv settled at_c run split short =
    let y = yield-Yielded s inv in
    let ring : (yield s).ring ≡ s.ring = y.ring ∙ settled in
    let (m_c, addr_c) = find-In s.current s.ring c at_c in
    let walk_c = subst (λ a. find a s.ring ≡ some c) (sym addr_c) at_c in
    let m =
      (walk-In c t s.ring walk_c).0
        (subst (In t) (sym split) (In-append_right t pre (t ∷ post) (inl refl))) in
    let (pre', post', split', skipped) =
      y.first c t (subst (λ r. find s.current r ≡ some c) (sym ring) at_c)
        (subst (In t) (sym ring) m) run in
    let split'' = subst (λ r. walk c r ≡ pre' ++ y.next ∷ post') ring split' in
    elim (cut_order pre t post pre' y.next post' (sym split ∙ split'')) [
      | inl before_next ↦ absurd (false≢true (sym (All-In _ t pre' skipped before_next) ∙ run))
      | inr (inl same) ↦ (
        1,
        omega arith,
        unfold yields in (sym (find-In _ _ y.next y.here).1 ∙ ap (λ x. x.addr) (sym same)),
      )
      | inr (inr (mid, at_pre, at_post)) ↦
          let turned = walk-turn c s.ring inv.distinct walk_c pre' y.next post' split'' in
          let shorter = length-append pre' (y.next ∷ mid) in
          let (k, le, at) =
            reached n (yield s) y.next t mid ((post ++ pre') ++ y.next ∷ []) (yield-Inv s inv)
              (subst (λ r. map wake r ≡ r) (sym ring) settled) y.here
              (subst (λ a. runnable a t ≡ true) (sym y.idle) run)
              (subst (λ r. walk y.next r ≡ mid ++ t ∷ ((post ++ pre') ++ y.next ∷ [])) (sym ring)
                (turned ∙ rw at_post (simp append_assoc)))
              (omega (arith, ap length at_pre, shorter)) in
          (suc k, omega arith, rw (yields-suc k s) at)
    ]

length-walk :
    (c : Thread) (ts : List Thread) → find c.addr ts ≡ some c → length (walk c ts) ≡ length ts
unfolding walk
length-walk c ts e = omega (
  arith,
  ap length (find-split c.addr ts c e),
  length-append (before c.addr ts) (c ∷ behind c.addr ts),
  length-append (behind c.addr ts) (before c.addr ts),
  length-append (behind c.addr ts ++ before c.addr ts) (c ∷ []),
)

In-cut :
    (t : Thread) (ts : List Thread)
    → In t ts
    → (pre : List Thread) × (post : List Thread) × (ts ≡ pre ++ t ∷ post)
In-cut t [] m = absurd m
In-cut t (x ∷ xs) (inl e) = ([], xs, rw e)
In-cut t (x ∷ xs) (inr m) = let (pre, post, e) = In-cut t xs m in (x ∷ pre, post, rw e)

-- No starvation: while no thread changes its state, a thread that is ready and is not the idle thread
-- becomes current after at most as many calls of `yield` as there are threads on the circle.
pub yields-reach :
    (s : Sched) (c t : Thread)
    → Inv s
    → Settled s
    → find s.current s.ring ≡ some c
    → In t s.ring
    → runnable s.idle t ≡ true
    → (k : ℕ) × (k ≤ length s.ring) × ((yields k s).current ≡ t.addr)
yields-reach s c t inv settled at_c m run =
    let walk_c =
      subst (λ a. find a s.ring ≡ some c) (sym (find-In s.current s.ring c at_c).1) at_c in
    let (pre, post, e) = In-cut t (walk c s.ring) ((walk-In c t s.ring walk_c).1 m) in
    reached (length s.ring) s c t pre post inv settled at_c run e
      (omega (arith, ap length e, length-append pre (t ∷ post), length-walk c s.ring walk_c))
