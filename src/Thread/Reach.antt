-- ===== src/Thread/Reach.antt =====
-- The states that the operations on threads can reach, in any order.
use keon_os.Base.{
  ℕ, ◌≡◌, ◌≢◌, inl, inr, refl, sym, ◌∙◌, true, false, Option, some, List, ◌==◌, arith,
}
use mathlib.Core.Bool.{false≢true}
use mathlib.Core.Path.{subst}
use keon_os.Thread.{
  Thread, Sched, is_zombie, find, yield, timer_handler, thread_sleep, thread_wakeup_blocked,
  thread_add, thread_kill, thread_exit, cleanup_zombies, thread_create, thread_init, kernel_thread,
}
use keon_os.Thread.Choice.{Inv, yield-Inv}
use keon_os.Thread.Ring.{Fresh}
use keon_os.Thread.Invariant.{
  timer_handler-Inv, thread_wakeup_blocked-Inv, thread_sleep-Inv, thread_add-Inv,
}
use keon_os.Thread.Exit.{thread_kill_lem, thread_exit_lem}

-- One operation, by whichever thread is current. A new thread stands at an address of its own.
pub data Step (s : Sched) : Sched → Type 0 where
  ticks : Step s (timer_handler s)
  gives_way : Step s (yield s)
  sleeps : (ms : ℕ) → Step s (thread_sleep ms s)
  wakes : Step s (thread_wakeup_blocked s)
  adds :
      (new : Thread)
      → Fresh new.addr s.ring
      → new.addr ≢ s.current
      → is_zombie new.state ≡ false
      → Step s (thread_add (some new) s)
  kills : (i : ℕ) (c : Thread) → find s.current s.ring ≡ some c → Step s (thread_kill i s).0
  exits :
      (code : ℕ) (self : Thread) (q : Sched)
      → find s.current s.ring ≡ some self
      → thread_exit code s ≡ some q
      → Step s q
  cleans : (c : Thread) → find s.current s.ring ≡ some c → Step s (cleanup_zombies s).0

pub data Reach (s : Sched) : Sched → Type 0 where
  here : Reach s s
  next : {q r : Sched} → Reach s q → Step q r → Reach s r

cleanup_zombies-Inv :
    (s : Sched) (c : Thread) → Inv s → find s.current s.ring ≡ some c → Inv (cleanup_zombies s).0
unfolding cleanup_zombies
cleanup_zombies-Inv s c inv e = record {
  distinct = inv.distinct;
  alive = inv.alive;
  dead = tt;
  idle = inv.idle;
  current = inl (c, e);
}

some_inj : (x y : Sched) → some x ≡ some y → x ≡ y
some_inj x y e = cc

thread_exit-Inv :
    (code : ℕ) (s : Sched) (self : Thread) (q : Sched)
    → Inv s
    → find s.current s.ring ≡ some self
    → thread_exit code s ≡ some q
    → Inv q
thread_exit-Inv code s self q inv e x = elim (thread_exit_lem code s self inv e) [
  | inl (panics, _, _) ↦ absurd (false≢true (cc))
  | inr (r, l) ↦
      let same : yield r ≡ q = some_inj (yield r) q (sym l.exits ∙ x) in
      subst Inv same (yield-Inv r l.inv)
]

Step-Inv : {s q : Sched} → Step s q → Inv s → Inv q
Step-Inv {s} ticks inv = timer_handler-Inv s inv
Step-Inv {s} gives_way inv = yield-Inv s inv
Step-Inv {s} (sleeps ms) inv = thread_sleep-Inv ms s inv
Step-Inv {s} wakes inv = thread_wakeup_blocked-Inv s inv
Step-Inv {s} (adds new fresh ne alive) inv = thread_add-Inv new s inv fresh ne alive
Step-Inv {s} (kills i c e) inv = (thread_kill_lem i s c inv e).0
Step-Inv {s} (exits code self q e x) inv = thread_exit-Inv code s self q inv e x
Step-Inv {s} (cleans c e) inv = cleanup_zombies-Inv s c inv e

Reach-Inv_from : {s q : Sched} → Inv s → Reach s q → Inv q
Reach-Inv_from inv here = inv
Reach-Inv_from inv (next r st) = Step-Inv st (Reach-Inv_from inv r)

thread_create-alive :
    (addr stack : ℕ) (name : Option (List ℕ)) (t : Thread)
    → thread_create addr stack name ≡ some t
    → (t.addr ≡ addr) × (is_zombie t.state ≡ false)
unfolding thread_create
thread_create-alive addr stack name t e = ground arith

thread_init-Inv :
    (addr : ℕ) (t : Thread)
    → addr ≢ t.addr
    → is_zombie t.state ≡ false
    → Inv (thread_init addr (some t))
unfolding thread_init find
thread_init-Inv addr t apart alive =
    let self : (addr == addr) ≡ true = ground arith in
    let itself : (t.addr == t.addr) ≡ true = ground arith in
    let other : (addr == t.addr) ≡ false = ground arith in
    record {
      distinct = ((λ e. apart (sym e), tt), (tt, tt));
      alive = (refl, (alive, tt));
      dead = tt;
      idle = (t, rw (other, itself));
      current = inl (kernel_thread addr, rw self);
    }

-- In every state that the operations reach after `thread_init` with an idle thread, the threads stand at different
-- addresses, those on the circle are alive and those on the zombie list are not, the idle thread is on the circle, and the
-- current thread is on the circle or a zombie.
pub Reach-Inv :
    (addr idle stack : ℕ) (name : Option (List ℕ)) (t : Thread) (s : Sched)
    → thread_create idle stack name ≡ some t
    → addr ≢ idle
    → Reach (thread_init addr (some t)) s
    → Inv s
Reach-Inv addr idle stack name t s e apart r =
    let (at, alive) = thread_create-alive idle stack name t e in
    Reach-Inv_from (thread_init-Inv addr t (λ q. apart (q ∙ at)) alive) r
