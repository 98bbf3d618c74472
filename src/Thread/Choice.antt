-- ===== src/Thread/Choice.antt =====
-- Whom `yield` of kernel/arch/x86_64/thread.cpp runs next.
use keon_os.Base.{
  ℕ, ◌+◌, ◌≡◌, ◌≢◌, ◌⊎◌, inl, inr, refl, sym, ◌∙◌, true, false, none, some, List, [], ◌∷◌, ◌++◌,
  map, arith, ◌==◌, if◌then◌else◌, Bool-cases, Option-cases,
}
use mathlib.Core.Bool.{false≢true}
use mathlib.Core.Path.{subst}
use keon_os.Thread.{
  Thread, Sched, State, is_ready, is_zombie, stack_size, find, walk, pick, wake, choose, switch_to,
  yield,
}
use keon_os.Thread.Ring.{
  In, Distinct, All, In-append_right, find-In, In-find, walk-In, runnable, pick-some, pick-none,
  find-map, Distinct-map, All-map, All-In,
}

-- The threads stand at different addresses; those on the circle are alive and those on the zombie
-- list are not; the idle thread is on the circle, and the current one is on one of the two.
pub record Inv (s : Sched) : Type 0 where
  pub distinct : Distinct s.ring
  pub alive : All (λ t. is_zombie t.state ≡ false) s.ring
  pub dead : All (λ t. is_zombie t.state ≡ true) s.zombies
  pub idle : (t : Thread) × (find s.idle s.ring ≡ some t)
  pub current :
      ((t : Thread) × (find s.current s.ring ≡ some t))
      ⊎ ((_ : find s.current s.ring ≡ none) × (t : Thread) × (find s.current s.zombies ≡ some t))

pub wake-addr : (t : Thread) → (wake t).addr ≡ t.addr
unfolding wake
wake-addr t = ground arith

wake-alive : (t : Thread) → is_zombie t.state ≡ false → is_zombie (wake t).state ≡ false
unfolding wake
wake-alive t h = ground arith

find-append_left :
    (a : ℕ) (xs ys : List Thread) (t : Thread) → find a xs ≡ some t → find a (xs ++ ys) ≡ some t
unfolding find
find-append_left a [] ys t e = absurd (false≢true (cc))
find-append_left a (x ∷ xs) ys t e = ground (arith, find-append_left a xs ys t)

find-append_right : (a : ℕ) (xs ys : List Thread) → find a xs ≡ none → find a (xs ++ ys) ≡ find a ys
unfolding find
find-append_right a [] ys e = refl
find-append_right a (x ∷ xs) ys e = ground (arith, find-append_right a xs ys)

find-map-none : (a : ℕ) (ts : List Thread) → find a ts ≡ none → find a (map wake ts) ≡ none
unfolding find
find-map-none a [] e = refl
find-map-none a (x ∷ xs) e = elim (Bool-cases (x.addr == a)) [
  | inl hit ↦ absurd (false≢true (ground arith))
  | inr miss ↦
      let miss' : ((wake x).addr == a) ≡ false = rw (wake-addr x) miss in
      rw miss' (find-map-none a xs (rw miss at e))
]

-- `t` may run: it is ready and not the idle thread, or it is the idle thread and nobody else is ready.
abbrev pub MayRun : ℕ → List Thread → Thread → Type 0
MayRun idle ts t =
    In t ts
    × ((runnable idle t ≡ true)
        ⊎ ((t.addr ≡ idle) × ((x : Thread) → In x ts → runnable idle x ≡ false)))

abbrev start : Thread → Thread → Thread
start prev idle = if is_zombie prev.state then idle else prev

choose-some :
    (prev idle : Thread) (ts : List Thread) (t : Thread)
    → pick idle.addr (walk (start prev idle) ts) ≡ some t
    → choose prev idle ts ≡ t
unfolding choose
choose-some prev idle ts t e = rw (e, choose)

choose-none :
    (prev idle : Thread) (ts : List Thread)
    → pick idle.addr (walk (start prev idle) ts) ≡ none
    → choose prev idle ts ≡ (if is_ready prev.state then prev else idle)
unfolding choose
choose-none prev idle ts e = rw (e, choose)

-- The thread whose successor the walk begins with is on the circle.
start-find :
    (prev idle : Thread) (ts : List Thread)
    → find idle.addr ts ≡ some idle
    → ((is_zombie prev.state ≡ true) ⊎ (find prev.addr ts ≡ some prev))
    → find (start prev idle).addr ts ≡ some (start prev idle)
start-find prev idle ts i (inl z) = rw z i
start-find prev idle ts i (inr p) = elim (Bool-cases (is_zombie prev.state)) [
  | inl z ↦ rw z i
  | inr a ↦ rw a p
]

not-ready_of_zombie : (s : State) → is_zombie s ≡ true → is_ready s ≡ false
not-ready_of_zombie s h = ground arith

choose-MayRun :
    (prev idle : Thread) (ts : List Thread)
    → find idle.addr ts ≡ some idle
    → ((is_zombie prev.state ≡ true) ⊎ (find prev.addr ts ≡ some prev))
    → MayRun idle.addr ts (choose prev idle ts)
choose-MayRun prev idle ts i p =
    let s = start prev idle in
    let at_s = start-find prev idle ts i p in
    elim (Option-cases (pick idle.addr (walk s ts))) [
      | inl none_runs ↦
          let all = pick-none idle.addr (walk s ts) none_runs in
          let nobody : (x : Thread) → In x ts → runnable idle.addr x ≡ false = λ x m.
            All-In (λ y. runnable idle.addr y ≡ false) x (walk s ts) all
              ((walk-In s x ts at_s).1 m) in
          rw (choose-none prev idle ts none_runs) (elim (Bool-cases (is_ready prev.state)) [
            | inl r ↦ rw r (elim p [
              | inl z ↦ absurd (false≢true (sym (not-ready_of_zombie prev.state z) ∙ r))
              | inr f ↦
                  let m = (find-In prev.addr ts prev f).0 in
                  (m, inr (ground (arith, nobody prev m), nobody))
            ])
            | inr w ↦ rw w ((find-In idle.addr ts idle i).0, inr (refl, nobody))
          ])
      | inr (t, e) ↦
          let (pre, post, split, run, skipped) = pick-some idle.addr (walk s ts) t e in
          rw (choose-some prev idle ts t e) (
            (walk-In s t ts at_s).0
                (subst (In t) (sym split) (In-append_right t pre (t ∷ post) (inl refl))),
            inl run,
          )
    ]

-- The walk from `c` meets `next` before any runnable thread.
abbrev pub FirstOf : ℕ → Thread → List Thread → Thread → Type 0
FirstOf idle c ts next =
    (pre : List Thread) × (post : List Thread) × (walk c ts ≡ pre ++ next ∷ post)
    × All (λ x. runnable idle x ≡ false) pre

choose-FirstOf :
    (prev idle t : Thread) (ts : List Thread)
    → find prev.addr ts ≡ some prev
    → is_zombie prev.state ≡ false
    → In t ts
    → runnable idle.addr t ≡ true
    → FirstOf idle.addr prev ts (choose prev idle ts)
choose-FirstOf prev idle t ts f alive m run =
    let here : start prev idle ≡ prev = rw alive in
    elim (Option-cases (pick idle.addr (walk prev ts))) [
      | inl none_runs ↦
          let all = pick-none idle.addr (walk prev ts) none_runs in
          let idle_t =
            All-In (λ y. runnable idle.addr y ≡ false) t (walk prev ts) all
              ((walk-In prev t ts f).1 m) in
          absurd (false≢true (sym idle_t ∙ run))
      | inr (next, e) ↦
          let (pre, post, split, _, skipped) = pick-some idle.addr (walk prev ts) next e in
          rw (choose-some prev idle ts next (rw here e)) (pre, post, split, skipped)
    ]

-- `q` is `s` after its sleepers whose time is over have been woken, with `next` as the current thread.
pub record Yielded (s q : Sched) : Type 0 where
  pub next : Thread
  pub ring : q.ring ≡ map wake s.ring
  pub zombies : q.zombies ≡ s.zombies
  pub idle : q.idle ≡ s.idle
  pub here : find q.current q.ring ≡ some next
  pub may_run : MayRun s.idle q.ring next
  pub first :
      (c t : Thread)
      → find s.current q.ring ≡ some c
      → In t q.ring
      → runnable s.idle t ≡ true
      → FirstOf s.idle c q.ring next
  pub stack :
      q.current ≢ s.current
      → (q.kernel_stack ≡ next.stack_start + stack_size)
        × (next.is_user ≡ true → q.rsp0 ≡ next.stack_start + stack_size)

-- The lookups that `yield` begins with.
module _ (s : Sched) (inv : Inv s) where
  woken : List Thread
  woken = map wake s.ring

  idle-woken : find s.idle woken ≡ some (wake inv.idle.0)
  unfolding woken
  idle-woken = find-map wake wake-addr s.idle s.ring inv.idle.0 inv.idle.1

  -- The current thread, and whether it is a zombie or on the circle.
  prev-woken :
      (prev : Thread) × (find s.current (woken ++ s.zombies) ≡ some prev)
      × (prev.addr ≡ s.current)
      × ((is_zombie prev.state ≡ true) ⊎ (find prev.addr woken ≡ some prev))
  unfolding woken
  prev-woken = elim inv.current [
    | inl (t, e) ↦
        let w = find-map wake wake-addr s.current s.ring t e in
        let at = (find-In s.current (map wake s.ring) (wake t) w).1 in
        (
          wake t,
          find-append_left s.current (map wake s.ring) s.zombies (wake t) w,
          at,
          inr (subst (λ a. find a (map wake s.ring) ≡ some (wake t)) (sym at) w),
        )
    | inr (gone, t, e) ↦
        let (m, at) = find-In s.current s.zombies t e in
        (
          t,
          find-append_right s.current (map wake s.ring) s.zombies
                (find-map-none s.current s.ring gone)
              ∙ e,
          at,
          inl (All-In (λ x. is_zombie x.state ≡ true) t s.zombies inv.dead m),
        )
  ]

-- `yield`, in a state where the idle thread is on the circle and the current one is there or a zombie. It wakes the
-- sleepers whose time is over and touches no other thread. The thread it makes current is on the circle, and it is ready;
-- or it is the idle thread and no other thread is ready. If that is another thread than before, the kernel stack
-- of the system call entry is that thread's, and for a user thread that of interrupts too.
pub yield-Yielded : (s : Sched) → Inv s → Yielded s (yield s)
unfolding woken yield switch_to
yield-Yielded s inv =
    let (prev, found, at, where_) = prev-woken s inv in
    let idle = wake inv.idle.0 in
    let found_idle = idle-woken s inv in
    let at_idle = (find-In s.idle (map wake s.ring) idle found_idle).1 in
    let next = choose prev idle (map wake s.ring) in
    let may =
      choose-MayRun prev idle (map wake s.ring)
        (subst (λ a. find a (map wake s.ring) ≡ some idle) (sym at_idle) found_idle) where_ in
    let first : (c t : Thread)
        → find s.current (map wake s.ring) ≡ some c
        → In t (map wake s.ring)
        → runnable s.idle t ≡ true
        → FirstOf s.idle c (map wake s.ring) next =
      λ c t e m run.
        let found_c = find-append_left s.current (map wake s.ring) s.zombies c e in
        let same : prev ≡ c = cc in
        let alive =
          All-In (λ x. is_zombie x.state ≡ false) c (map wake s.ring)
            (All-map wake wake-addr (λ x. is_zombie x.state ≡ false) wake-alive s.ring inv.alive)
            (find-In s.current (map wake s.ring) c e).0 in
        let at_c =
          subst (λ a. find a (map wake s.ring) ≡ some c)
            (sym (find-In s.current (map wake s.ring) c e).1) e in
        subst (λ p. FirstOf s.idle c (map wake s.ring) (choose p idle (map wake s.ring))) (sym same)
          (subst (λ a. FirstOf a c (map wake s.ring) (choose c idle (map wake s.ring))) at_idle
            (choose-FirstOf c idle t (map wake s.ring) at_c alive m
              (subst (λ a. runnable a t ≡ true) (sym at_idle) run))) in
    let may' = subst (λ a. MayRun a (map wake s.ring) next) at_idle may in
    let on_ring =
      In-find next (map wake s.ring) (Distinct-map wake wake-addr s.ring inv.distinct) may'.0 in
    elim (Bool-cases (next.addr == prev.addr)) [
      | inl same ↦
          let back : next.addr ≡ s.current = ground arith in
          rw (found, found_idle, same, yield)
            (record {
              next = next;
              ring = refl;
              zombies = refl;
              idle = refl;
              here = subst (λ a. find a (map wake s.ring) ≡ some next) back on_ring;
              may_run = may';
              first = first;
              stack = λ ne. absurd (ne refl);
            })
      | inr other ↦
          rw (found, found_idle, other, yield)
            (record {
              next = next;
              ring = refl;
              zombies = refl;
              idle = refl;
              here = on_ring;
              may_run = may';
              first = first;
              stack = λ ne. (refl, λ u. rw u);
            })
    ]

Yielded-Inv : (s q : Sched) → Inv s → Yielded s q → Inv q
Yielded-Inv s q inv y = record {
  distinct = rw y.ring (Distinct-map wake wake-addr s.ring inv.distinct);
  alive =
      rw y.ring
        (All-map wake wake-addr (λ t. is_zombie t.state ≡ false) wake-alive s.ring inv.alive);
  dead = rw y.zombies inv.dead;
  idle = (
    wake inv.idle.0,
    rw (y.ring, y.idle) (find-map wake wake-addr s.idle s.ring inv.idle.0 inv.idle.1),
  );
  current = inl (y.next, y.here);
}

pub yield-Inv : (s : Sched) → Inv s → Inv (yield s)
yield-Inv s inv = Yielded-Inv s (yield s) inv (yield-Yielded s inv)
