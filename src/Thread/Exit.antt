-- ===== src/Thread/Exit.antt =====
-- `thread_kill` and `thread_exit` bury one thread and keep the scheduler's invariant.
use keon_os.Base.{
  ℕ, ◌-◌, ◌^◌, ◌≡◌, ◌≢◌, ◌⊎◌, inl, inr, refl, sym, ◌∙◌, Bool, true, false, ◌||◌, Option, none, some,
  List, [], ◌∷◌, arith, ◌==◌, Bool-cases, Option-cases, ap, ◌>>=◌,
}
use mathlib.Core.Bool.{false≢true}
use mathlib.Core.Path.{subst}
use keon_os.Thread.{
  Thread, Sched, find, before, behind, others, wake, yield, find_id, bury, same_id, thread_kill,
  thread_exit, leave,
}
use keon_os.Thread.Choice.{Inv, Yielded, yield-Yielded, wake-addr}
use keon_os.Thread.Invariant.{find-map-none}
use keon_os.Thread.Ring.{
  In, Distinct, Fresh-In, In-append, find-In, In-find, find-split, In-append_right, In-append_left,
}
use keon_os.Thread.Bury.{Buried, Distinct-cut, bury-Buried, bury-Inv}

find-id-In : (i : ℕ) (ts : List Thread) (t : Thread) → find_id i ts ≡ some t → In t ts × (t.id ≡ i)
unfolding find_id
find-id-In i [] t e = absurd (false≢true (cc))
find-id-In i (x ∷ xs) t e = elim (Bool-cases (x.id == i)) [
  | inl hit ↦ let same : t ≡ x = ground arith in (inl same, rw same (ground arith))
  | inr miss ↦ let rest = find-id-In i xs t (rw miss at e) in (inr rest.0, rest.1)
]

-- The others of a thread are the circle without it.
others-In :
    (c t : Thread) (ts : List Thread)
    → Distinct ts
    → find c.addr ts ≡ some c
    → In t (others c.addr ts)
    → In t ts × (t.addr ≢ c.addr)
unfolding others
others-In c t ts d e m =
    let split = find-split c.addr ts c e in
    let apart = Distinct-cut (before c.addr ts) c (behind c.addr ts) (subst Distinct split d) in
    elim (In-append t (behind c.addr ts) (before c.addr ts) m) [
      | inl b ↦ (
        subst (In t) (sym split)
            (In-append_right t (before c.addr ts) (c ∷ behind c.addr ts) (inr b)),
        Fresh-In c.addr t (behind c.addr ts) apart.1 b,
      )
      | inr b ↦ (
        subst (In t) (sym split) (In-append_left t (before c.addr ts) (c ∷ behind c.addr ts) b),
        Fresh-In c.addr t (before c.addr ts) apart.0 b,
      )
    ]

same_id-find :
    (i a : ℕ) (ts : List Thread) (t : Thread)
    → find a ts ≡ some t
    → t.id ≡ i
    → same_id i (find a ts) ≡ true
unfolding same_id
same_id-find i a ts t e h = rw e (ground arith)

middle_false : (a b c : Bool) → (a || (b || c)) ≡ false → b ≡ false
middle_false a b c h = ground arith

first_false : (a b : Bool) → (a || b) ≡ false → a ≡ false
first_false a b h = ground arith

same_id-some :
    (i : ℕ) (o : Option Thread) → same_id i o ≡ true → (t : Thread) × (o ≡ some t) × (t.id ≡ i)
unfolding same_id
same_id-some i none e = absurd (false≢true e)
same_id-some i (some t) e = (t, refl, ground arith)

find_id-none : (i : ℕ) (ts : List Thread) (t : Thread) → find_id i ts ≡ none → In t ts → t.id ≢ i
unfolding find_id
find_id-none i [] t e m = absurd m
find_id-none i (x ∷ xs) t e m = elim (Bool-cases (x.id == i)) [
  | inl hit ↦ absurd (false≢true (cc))
  | inr miss ↦ elim m [
    | inl same ↦ rw same (ground (arith, miss))
    | inr later ↦ find_id-none i xs t (rw miss at e) later
  ]
]

In-others :
    (c t : Thread) (ts : List Thread)
    → find c.addr ts ≡ some c
    → In t ts
    → (t ≡ c) ⊎ In t (others c.addr ts)
unfolding others
In-others c t ts e m =
    elim (In-append t (before c.addr ts) (c ∷ behind c.addr ts)
      (subst (In t) (find-split c.addr ts c e) m)) [
        | inl b ↦ inr (In-append_right t (behind c.addr ts) (before c.addr ts) b)
        | inr (inl same) ↦ inl same
        | inr (inr b) ↦ inr (In-append_left t (behind c.addr ts) (before c.addr ts) b)
      ]

-- Why `thread_kill` refuses: the identifier is that of the caller or of the idle thread, or 0, or no thread's.
abbrev pub Refused : ℕ → Thread → Sched → Type 0
Refused i c s =
    (c.id ≡ i)
    ⊎ (((d : Thread) × (find s.idle s.ring ≡ some d) × (d.id ≡ i))
        ⊎ ((i ≡ 0) ⊎ ((t : Thread) → In t s.ring → t.id ≢ i)))

-- What a successful `thread_kill` does: `t` was on the circle with the identifier `i`, and it is neither current nor the
-- idle thread.
pub record Killed (i : ℕ) (s q : Sched) : Type 0 where
  pub victim : Thread
  pub was : In victim s.ring
  pub id : victim.id ≡ i
  pub not_current : victim.addr ≢ s.current
  pub not_idle : victim.addr ≢ s.idle
  pub buried : Buried victim (2 ^ 32 - 1) s q

Refused-cases :
    (i : ℕ) (s : Sched) (c : Thread)
    → find s.current s.ring ≡ some c
    → (same_id i (find s.current s.ring) || (same_id i (find s.idle s.ring) || i == 0)) ≡ true
    → Refused i c s
Refused-cases i s c at_c e = elim (Bool-cases (same_id i (find s.current s.ring))) [
  | inl self ↦
      let (t, at_t, id) = same_id-some i (find s.current s.ring) self in
      let same : t ≡ c = cc in inl (subst (λ x. x.id ≡ i) same id)
  | inr apart ↦ elim (Bool-cases (same_id i (find s.idle s.ring))) [
    | inl idles ↦ inr (inl (same_id-some i (find s.idle s.ring) idles))
    | inr other ↦ inr (inr (inl (ground (arith, e, apart, other))))
  ]
]

pub thread_kill_lem :
    (i : ℕ) (s : Sched) (c : Thread)
    → Inv s
    → find s.current s.ring ≡ some c
    → Inv (thread_kill i s).0
      × ((((thread_kill i s).1 ≡ false) × ((thread_kill i s).0 ≡ s) × Refused i c s)
          ⊎ (((thread_kill i s).1 ≡ true) × Killed i s (thread_kill i s).0))
unfolding thread_kill
thread_kill_lem i s c inv at_c =
    elim (Bool-cases
      (same_id i (find s.current s.ring) || (same_id i (find s.idle s.ring) || i == 0))) [
        | inl refused ↦ rw refused (inv, inl (refl, refl, Refused-cases i s c at_c refused))
        | inr allowed ↦ elim (Option-cases (find_id i (others s.current s.ring))) [
          | inl nobody ↦
              rw (allowed, nobody) (inv, inl (refl, refl, inr (inr (inr (no_one allowed nobody)))))
          | inr (t, e) ↦
              let (m, id) = find-id-In i (others s.current s.ring) t e in
              let (on_ring, apart) =
                others-In c t s.ring inv.distinct at_c'
                  (subst (λ a. In t (others a s.ring)) (sym addr_c) m) in
              let at_t = In-find t s.ring inv.distinct on_ring in
              let not_idle : t.addr ≢ s.idle = λ q.
                let idle_t =
                  same_id-find i s.idle s.ring t (subst (λ a. find a s.ring ≡ some t) q at_t) id in
                false≢true (sym (middle_false _ _ _ allowed) ∙ idle_t) in
              rw (allowed, e)
                (
                  bury-Inv t (2 ^ 32 - 1) s inv at_t not_idle,
                  inr (
                    refl,
                    record {
                      victim = t;
                      was = on_ring;
                      id = id;
                      not_current = λ q. apart (q ∙ sym addr_c);
                      not_idle = not_idle;
                      buried = bury-Buried t (2 ^ 32 - 1) s inv.distinct at_t;
                    },
                  ),
                )
        ]
      ]
  where
    addr_c : c.addr ≡ s.current
    addr_c = (find-In s.current s.ring c at_c).1

    at_c' : find c.addr s.ring ≡ some c
    at_c' = subst (λ a. find a s.ring ≡ some c) (sym addr_c) at_c

    no_one :
        (same_id i (find s.current s.ring) || (same_id i (find s.idle s.ring) || i == 0)) ≡ false
        → find_id i (others s.current s.ring) ≡ none
        → (t : Thread) → In t s.ring
        → t.id ≢ i
    no_one allowed nobody t m = elim (In-others c t s.ring at_c' m) [
      | inr there ↦
          find_id-none i (others s.current s.ring) t nobody
            (subst (λ a. In t (others a s.ring)) addr_c there)
      | inl same ↦ λ id. false≢true (
          sym (first_false _ _ allowed)
          ∙ same_id-find i s.current s.ring c at_c (ap (λ x. x.id) (sym same) ∙ id))
    ]

-- The thread is not current, and it is off the circle.
pub record Gone (a : ℕ) (q : Sched) : Type 0 where
  pub stopped : q.current ≢ a
  pub off : find a q.ring ≡ none

yield-Gone : (a : ℕ) (s : Sched) → Inv s → find a s.ring ≡ none → Gone a (yield s)
yield-Gone a s inv off =
    let y = yield-Yielded s inv in
    let off' : find a (yield s).ring ≡ none =
      subst (λ r. find a r ≡ none) (sym y.ring) (find-map-none wake wake-addr a s.ring off) in
    record {
      stopped =
          λ q. apart y.next (sym off' ∙ subst (λ b. find b (yield s).ring ≡ some y.next) q y.here);
      off = off';
    }
  where
    apart : (t : Thread) → none ≢ some t
    apart t e = absurd (false≢true (cc))

-- What `leave` does for a thread that may leave, and what follows.
pub record Left (code : ℕ) (self : Thread) (s q : Sched) : Type 0 where
  pub may : (self.id ≢ 0) × (self.addr ≢ s.idle)
  pub left : leave code s ≡ some q
  pub inv : Inv q
  pub buried : Buried self code s q
  pub exits : thread_exit code s ≡ some (yield q)
  pub yields : Yielded q (yield q) × Gone self.addr (yield q)

-- `thread_exit` of a thread that is on the circle. For a thread of identifier 0 and for the idle thread, and for no
-- other, it panics. Any other thread leaves the circle, where the others keep their order, and leads the zombie
-- list with its exit code; the `yield` that follows runs a thread of the circle, one that may run, and the thread that left is neither current
-- nor on the circle after it.
pub thread_exit_lem :
    (code : ℕ) (s : Sched) (self : Thread)
    → Inv s
    → find s.current s.ring ≡ some self
    → ((thread_exit code s ≡ none) × (leave code s ≡ none) × ((self.id ≡ 0) ⊎ (self.addr ≡ s.idle)))
      ⊎ ((q : Sched) × Left code self s q)
unfolding thread_exit leave ◌>>=◌
thread_exit_lem code s self inv at_self = elim (Bool-cases (self.id == 0 || self.addr == s.idle)) [
  | inl panics ↦ inl (
    rw (thread_exit, leave, at_self, panics) refl,
    rw (leave, at_self, panics) refl,
    ground (arith, panics),
  )
  | inr leaves ↦
      let addr = (find-In s.current s.ring self at_self).1 in
      let at = subst (λ a. find a s.ring ≡ some self) (sym addr) at_self in
      let not_idle : self.addr ≢ s.idle = ground (arith, leaves) in
      let inv' = bury-Inv self code s inv at not_idle in
      let b = bury-Buried self code s inv.distinct at in
      inr (
        bury self code s,
        record {
          may = (ground (arith, leaves), not_idle);
          left = rw (leave, at_self, leaves) refl;
          inv = inv';
          buried = b;
          exits = rw (thread_exit, leave, at_self, leaves) refl;
          yields = (
            yield-Yielded (bury self code s) inv',
            yield-Gone self.addr (bury self code s) inv' b.off,
          );
        },
      )
]
