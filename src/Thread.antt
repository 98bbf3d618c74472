-- ===== src/Thread.antt =====
-- The threads and the scheduler of kernel/arch/x86_64/thread.cpp, with the tick handler of
-- drivers/timer.cpp. The circular list is a list in the order of the `next` links, from any of its
-- threads on; a thread is known by its address. What `switch_context` does to the registers is not
-- modelled: a call ends where it would switch.
mod Ring
mod Choice
mod Fairness
mod Invariant
mod Bury
mod Exit
mod Reach
mod Tests
use keon_os.Base.{
  ℕ, zero, suc, ◌+◌, ◌-◌, ◌*◌, ◌/◌, ◌%◌, ◌^◌, Bool, true, false, not, ◌&&◌, ◌||◌, Option, none,
  some, List, [], ◌∷◌, ◌++◌, map, ltb, ◌==◌, if◌then◌else◌, take, ◌>>=◌,
}
use mathlib.Core.Option

pub data State : Type 0 where
  running ready sleeping blocked zombie : State

pub record Thread : Type 0 where
  pub addr : ℕ
  pub id : ℕ
  pub name : List ℕ
  pub stack_start : ℕ
  pub is_user : Bool
  pub state : State
  pub sleep_ticks : ℕ
  pub exit_code : ℕ

-- `kernel_stack` is `gs_ptr.kernel_stack` of the syscall entry, `rsp0` that of the TSS.
pub record Sched : Type 0 where
  pub ring : List Thread
  pub current : ℕ
  pub idle : ℕ
  pub zombies : List Thread
  pub next_thread_id : ℕ
  pub kernel_stack : ℕ
  pub rsp0 : ℕ
  pub timer_ticks : ℕ

abbrev pub is_ready : State → Bool
is_ready ready = true
is_ready _ = false

abbrev pub is_sleeping : State → Bool
is_sleeping sleeping = true
is_sleeping _ = false

abbrev pub is_blocked : State → Bool
is_blocked blocked = true
is_blocked _ = false

abbrev pub is_zombie : State → Bool
is_zombie zombie = true
is_zombie _ = false

abbrev pub stack_size : ℕ
stack_size = 16384

pub find : ℕ → List Thread → Option Thread
find a [] = none
find a (t ∷ ts) = if t.addr == a then some t else find a ts

-- The threads behind the one at `a`, and those before it.
pub behind : ℕ → List Thread → List Thread
behind a [] = []
behind a (t ∷ ts) = if t.addr == a then ts else behind a ts

pub before : ℕ → List Thread → List Thread
before a [] = []
before a (t ∷ ts) = if t.addr == a then [] else t ∷ before a ts

-- The walk from `t->next` round the circle, up to `t` and without it.
pub others : ℕ → List Thread → List Thread
others a ts = behind a ts ++ before a ts

-- The walk from `t->next` up to `t` itself.
pub walk : Thread → List Thread → List Thread
unfolding others
walk t ts = others t.addr ts ++ t ∷ []

-- The first loop of `yield`.
pub wake : Thread → Thread
wake t = if is_sleeping t.state && t.sleep_ticks == 0 then record t { state = ready } else t

-- The second loop of `yield`.
pub pick : ℕ → List Thread → Option Thread
pick idle [] = none
pick idle (t ∷ ts) = if is_ready t.state && not (t.addr == idle) then some t else pick idle ts

pub switch_to : Thread → Sched → Sched
switch_to t s =
    let kstack = t.stack_start + stack_size in
    record s {
      current = t.addr;
      rsp0 = (if t.is_user then kstack else s.rsp0);
      kernel_stack = kstack;
    }

-- The choice of `yield`: `prev` and `idle` are the threads at those addresses, after the waking.
pub choose : Thread → Thread → List Thread → Thread
choose prev idle ts =
    elim (pick idle.addr (walk (if is_zombie prev.state then idle else prev) ts)) [
      | some t ↦ t
      | none ↦ if is_ready prev.state then prev else idle
    ]

-- A thread that is off the circle is on the zombie list. Where a pointer leads nowhere the C code
-- would fault; the model then changes nothing.
pub yield : Sched → Sched
yield s =
    let woken = map wake s.ring in
    let s' = record s { ring = woken } in
    elim (find s.current (woken ++ s.zombies)) [
      | none ↦ s
      | some prev ↦ elim (find s.idle woken) [
        | none ↦ s
        | some idle ↦
            let next = choose prev idle woken in
            if next.addr == prev.addr then s' else switch_to next s'
      ]
    ]

-- One thread of the loop of `timer_handler`.
pub tick : Thread → Thread
tick t =
    if is_sleeping t.state
    then (let left = if ltb 0 t.sleep_ticks then t.sleep_ticks - 1 else t.sleep_ticks in
        record t { sleep_ticks = left; state = (if left == 0 then ready else t.state) })
    else t

pub timer_handler : Sched → Sched
timer_handler s =
    yield (record s { timer_ticks = (s.timer_ticks + 1) % 2 ^ 32; ring = map tick s.ring })

-- A change to the thread at one address.
pub update : ℕ → (Thread → Thread) → List Thread → List Thread
update a f [] = []
update a f (t ∷ ts) = (if t.addr == a then f t else t) ∷ update a f ts

pub thread_sleep : ℕ → Sched → Sched
thread_sleep ms s =
    let ticks = if ms / 10 == 0 then 1 else ms / 10 in
    yield (record s {
      ring = update s.current (λ t. record t { sleep_ticks = ticks; state = sleeping }) s.ring;
    })

unblock : Thread → Thread
unblock t = if is_blocked t.state then record t { state = ready } else t

pub thread_wakeup_blocked : Sched → Sched
unfolding unblock
thread_wakeup_blocked s = record s { ring = map unblock s.ring }

-- `t->next = current_thread->next; current_thread->next = t`
pub insert_after : ℕ → Thread → List Thread → List Thread
insert_after a new [] = []
insert_after a new (t ∷ ts) = if t.addr == a then t ∷ new ∷ ts else t ∷ insert_after a new ts

-- `thread_create`, with the two addresses that `kmalloc` returned. `strncpy` copies at most 15 characters
-- into the zeroed name.
pub thread_create : ℕ → ℕ → Option (List ℕ) → Option Thread
thread_create addr stack name =
    if (stack == 0) || (addr == 0)
    then none
    else some (record {
      addr = addr;
      id = 0;
      name = (elim name [ some cs ↦ take 15 cs | none ↦ b'u' ∷ b'n' ∷ b'k' ∷ [] ]);
      stack_start = stack;
      is_user = false;
      state = ready;
      sleep_ticks = 0;
      exit_code = 0;
    })

pub kernel_thread : ℕ → Thread
kernel_thread addr = record {
  addr = addr;
  id = 0;
  name = b'k' ∷ b'e' ∷ b'r' ∷ b'n' ∷ b'e' ∷ b'l' ∷ [];
  stack_start = 0;
  is_user = false;
  state = ready;
  sleep_ticks = 0;
  exit_code = 0;
}

-- `thread_init`, over memory that is all zero, with the address that `kmalloc` returned and the idle
-- thread that `thread_create` built, if it did. The idle thread keeps the identifier 0.
pub thread_init : ℕ → Option Thread → Sched
unfolding kernel_thread
thread_init addr idle = record {
  ring = (elim idle [ none ↦ kernel_thread addr ∷ [] | some t ↦ kernel_thread addr ∷ t ∷ [] ]);
  current = addr;
  idle = (elim idle [ none ↦ 0 | some t ↦ t.addr ]);
  zombies = [];
  next_thread_id = 1;
  kernel_stack = 0;
  rsp0 = 0;
  timer_ticks = 0;
}

-- `t` is what `thread_create` or `thread_create_user` built, `none` where they ran out of memory.
pub thread_add : Option Thread → Sched → Sched
thread_add none s = s
thread_add (some t) s = record s {
  ring = insert_after s.current (record t { id = s.next_thread_id }) s.ring;
  next_thread_id = (s.next_thread_id + 1) % 2 ^ 32;
}

pub find_id : ℕ → List Thread → Option Thread
find_id i [] = none
find_id i (t ∷ ts) = if t.id == i then some t else find_id i ts

pub remove : ℕ → List Thread → List Thread
remove a [] = []
remove a (t ∷ ts) = if t.addr == a then ts else t ∷ remove a ts

-- The thread that dies.
pub die : ℕ → Thread → Thread
die code t = record t { state = zombie; exit_code = code }

-- The thread is marked where it stands on the circle, `prev->next = curr->next` takes it off, and it goes to the
-- head of the zombie list.
pub bury : Thread → ℕ → Sched → Sched
bury t code s =
    let marked = update t.addr (die code) s.ring in
    record s {
      ring = remove t.addr marked;
      zombies = elim (find t.addr marked) [ some dead ↦ dead ∷ s.zombies | none ↦ s.zombies ];
    }

pub same_id : ℕ → Option Thread → Bool
same_id i none = false
same_id i (some t) = t.id == i

pub thread_kill : ℕ → Sched → Sched × Bool
thread_kill i s =
    if same_id i (find s.current s.ring) || (same_id i (find s.idle s.ring) || i == 0)
    then (s, false)
    else elim (find_id i (others s.current s.ring)) [
      | none ↦ (s, false)
      | some t ↦ (bury t (2 ^ 32 - 1) s, true)
    ]

-- `thread_exit` up to the release of the lock; `none` is the kernel's panic. A tick may come behind it, when the current
-- thread is off the circle: `timer_handler` above is for ticks that find it on the circle.
pub leave : ℕ → Sched → Option Sched
leave code s = elim (find s.current s.ring) [
  | none ↦ none
  | some self ↦ if self.id == 0 || self.addr == s.idle then none else some (bury self code s)
]

-- `thread_exit` when no interrupt comes before its `yield`.
pub thread_exit : ℕ → Sched → Option Sched
thread_exit code s = do left ← leave code s; some (yield left)

-- `cleanup_zombies` takes the whole list; the memory that it frees is not part of this state.
pub cleanup_zombies : Sched → Sched × List Thread
cleanup_zombies s = (record s { zombies = [] }, s.zombies)
