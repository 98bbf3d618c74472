-- ===== src/Thread/Invariant.antt =====
-- Ticks, sleeping, waking and adding a thread keep the scheduler's invariant.
use keon_os.Base.{
  ℕ, ◌+◌, ◌%◌, ◌^◌, ◌/◌, ◌≡◌, ◌≢◌, inl, inr, refl, sym, ◌∙◌, false, none, some, List, [], ◌∷◌, map,
  arith, ◌==◌, if◌then◌else◌, Bool-cases,
}
use mathlib.Core.Bool.{false≢true}
use keon_os.Thread.{
  Thread, Sched, sleeping, is_zombie, find, tick, timer_handler, update, thread_sleep, unblock,
  thread_wakeup_blocked, insert_after, thread_add,
}
use keon_os.Thread.Choice.{Inv, yield-Inv}
use keon_os.Thread.Ring.{Fresh, Distinct, All, Fresh-In, find-In, find-map, Distinct-map, All-map}

-- A change of each thread of the circle that keeps its address and its life.
map-Inv :
    (f : Thread → Thread) (s : Sched) (n : ℕ)
    → ((t : Thread) → (f t).addr ≡ t.addr)
    → ((t : Thread) → is_zombie t.state ≡ false → is_zombie (f t).state ≡ false)
    → ((a : ℕ) (ts : List Thread) → find a ts ≡ none → find a (map f ts) ≡ none)
    → Inv s
    → Inv (record s { ring = map f s.ring; timer_ticks = n })
map-Inv f s n keeps lives gone inv = record {
  distinct = Distinct-map f keeps s.ring inv.distinct;
  alive = All-map f keeps (λ t. is_zombie t.state ≡ false) lives s.ring inv.alive;
  dead = inv.dead;
  idle = (f inv.idle.0, find-map f keeps s.idle s.ring inv.idle.0 inv.idle.1);
  current = elim inv.current [
    | inl (t, e) ↦ inl (f t, find-map f keeps s.current s.ring t e)
    | inr (g, t, e) ↦ inr (gone s.current s.ring g, t, e)
  ];
}

pub find-map-none :
    (f : Thread → Thread) (keeps : (t : Thread) → (f t).addr ≡ t.addr) (a : ℕ) (ts : List Thread)
    → find a ts ≡ none
    → find a (map f ts) ≡ none
unfolding find
find-map-none f keeps a [] e = refl
find-map-none f keeps a (x ∷ xs) e = elim (Bool-cases (x.addr == a)) [
  | inl hit ↦ absurd (false≢true (ground arith))
  | inr miss ↦
      let miss' : ((f x).addr == a) ≡ false = rw (keeps x) miss in
      rw miss' (find-map-none f keeps a xs (rw miss at e))
]

pub tick-addr : (t : Thread) → (tick t).addr ≡ t.addr
unfolding tick
tick-addr t = ground arith

pub ticked-Inv :
    (s : Sched)
    → Inv s
    → Inv (record s { timer_ticks = (s.timer_ticks + 1) % 2 ^ 32; ring = map tick s.ring })
unfolding tick
ticked-Inv s inv =
    map-Inv tick s _ tick-addr (λ t h. ground arith) (find-map-none tick tick-addr) inv

pub timer_handler-Inv : (s : Sched) → Inv s → Inv (timer_handler s)
unfolding timer_handler
timer_handler-Inv s inv = yield-Inv _ (ticked-Inv s inv)

pub thread_wakeup_blocked-Inv : (s : Sched) → Inv s → Inv (thread_wakeup_blocked s)
unfolding thread_wakeup_blocked
thread_wakeup_blocked-Inv s inv =
    map-Inv unblock s s.timer_ticks keeps (λ t h. ground arith) (find-map-none unblock keeps) inv
  where
    keeps : (t : Thread) → (unblock t).addr ≡ t.addr
    keeps t = ground arith

-- `update` is a map.
update-map :
    (a : ℕ) (f : Thread → Thread) (ts : List Thread)
    → update a f ts ≡ map (λ t. if t.addr == a then f t else t) ts
unfolding update
update-map a f [] = refl
update-map a f (t ∷ ts) = rw (update-map a f ts)

pub thread_sleep-Inv : (ms : ℕ) (s : Sched) → Inv s → Inv (thread_sleep ms s)
unfolding thread_sleep
thread_sleep-Inv ms s inv = yield-Inv _ (
    rw (update-map s.current doze s.ring)
      (map-Inv doze' s s.timer_ticks keeps (λ t h. ground arith) (find-map-none doze' keeps) inv))
  where
    doze : Thread → Thread
    doze t = record t { sleep_ticks = (if ms / 10 == 0 then 1 else ms / 10); state = sleeping }

    doze' : Thread → Thread
    doze' t = if t.addr == s.current then doze t else t

    keeps : (t : Thread) → (doze' t).addr ≡ t.addr
    keeps t = ground arith

Fresh-insert_after :
    (b a : ℕ) (new : Thread) (ts : List Thread)
    → new.addr ≢ b
    → Fresh b ts
    → Fresh b (insert_after a new ts)
unfolding insert_after
Fresh-insert_after b a new [] ne h = tt
Fresh-insert_after b a new (t ∷ ts) ne h = elim (Bool-cases (t.addr == a)) [
  | inl hit ↦ rw hit (h.0, (ne, h.1))
  | inr miss ↦ rw miss (h.0, Fresh-insert_after b a new ts ne h.1)
]

Distinct-insert_after :
    (a : ℕ) (new : Thread) (ts : List Thread)
    → Fresh new.addr ts
    → Distinct ts
    → Distinct (insert_after a new ts)
unfolding insert_after
Distinct-insert_after a new [] h d = tt
Distinct-insert_after a new (t ∷ ts) h d = elim (Bool-cases (t.addr == a)) [
  | inl hit ↦ rw hit ((λ e. h.0 (sym e), d.0), (h.1, d.1))
  | inr miss ↦ rw miss (
    Fresh-insert_after t.addr a new ts (λ e. h.0 (sym e)) d.0,
    Distinct-insert_after a new ts h.1 d.1,
  )
]

All-insert_after {ℓ} :
    (P : Thread → Type ℓ) (a : ℕ) (new : Thread) (ts : List Thread)
    → P new
    → All P ts
    → All P (insert_after a new ts)
unfolding insert_after
All-insert_after P a new [] p h = tt
All-insert_after P a new (t ∷ ts) p h = elim (Bool-cases (t.addr == a)) [
  | inl hit ↦ rw hit (h.0, (p, h.1))
  | inr miss ↦ rw miss (h.0, All-insert_after P a new ts p h.1)
]

find-insert_after_ne :
    (b a : ℕ) (new : Thread) (ts : List Thread)
    → new.addr ≢ b
    → find b (insert_after a new ts) ≡ find b ts
unfolding insert_after find
find-insert_after_ne b a new [] ne = refl
find-insert_after_ne b a new (t ∷ ts) ne = ground (arith, find-insert_after_ne b a new ts ne)

-- `thread_add` of a live thread at an unused address.
pub thread_add-Inv :
    (new : Thread) (s : Sched)
    → Inv s
    → Fresh new.addr s.ring
    → new.addr ≢ s.current
    → is_zombie new.state ≡ false
    → Inv (thread_add (some new) s)
unfolding thread_add
thread_add-Inv new s inv fresh ne alive =
    let new' : Thread = record new { id = s.next_thread_id } in
    let apart : new.addr ≢ s.idle = λ e.
      let (t, at) = inv.idle in
      let (m, a) = find-In s.idle s.ring t at in Fresh-In new.addr t s.ring fresh m (a ∙ sym e) in
    record {
      distinct = Distinct-insert_after s.current new' s.ring fresh inv.distinct;
      alive =
          All-insert_after (λ t. is_zombie t.state ≡ false) s.current new' s.ring alive inv.alive;
      dead = inv.dead;
      idle = (inv.idle.0, find-insert_after_ne s.idle s.current new' s.ring apart ∙ inv.idle.1);
      current = elim inv.current [
        | inl (c, e) ↦ inl (c, find-insert_after_ne s.current s.current new' s.ring ne ∙ e)
        | inr (g, z, e) ↦ inr (find-insert_after_ne s.current s.current new' s.ring ne ∙ g, z, e)
      ];
    }
