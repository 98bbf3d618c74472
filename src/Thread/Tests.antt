-- ===== src/Thread/Tests.antt =====
-- Runs of the scheduler, and its theorems at a circle of four threads.
use keon_os.Base.{
  ℕ, ◌*◌, ◌≤◌, ◌≡◌, ◌⊎◌, inl, inr, refl, Bool, true, false, some, none, [], ◌∷◌, arith,
}
use keon_os.Thread.{
  Thread, Sched, State, ready, blocked, find, behind, before, others, walk, wake, pick, choose,
  switch_to, yield, thread_kill, thread_exit, leave, same_id, find_id, thread_init, thread_create,
  thread_sleep,
}
use keon_os.Thread.Choice.{Inv, Yielded, yield-Yielded}
use keon_os.Thread.Fairness.{yields, yields-reach}
use keon_os.Thread.Exit.{Left, thread_exit_lem}
use keon_os.Thread.Reach.{here, next, sleeps, Reach-Inv}

thread : ℕ → ℕ → Bool → State → ℕ → Thread
thread a i u st n = record {
  addr = a;
  id = i;
  name = [];
  stack_start = a * 0x10000;
  is_user = u;
  state = st;
  sleep_ticks = n;
  exit_code = 0;
}

abbrev kernel : Thread
unfolding thread
kernel = thread 1 0 false ready 0

abbrev idle : Thread
unfolding thread
idle = thread 2 0 false ready 0

abbrev shell : Thread
unfolding thread
shell = thread 3 1 false blocked 0

abbrev program : Thread
unfolding thread
program = thread 4 2 true ready 0

-- The kernel thread runs; the program is ready.
abbrev four : Sched
four = record {
  ring = kernel ∷ program ∷ shell ∷ idle ∷ [];
  current = 1;
  idle = 2;
  zombies = [];
  next_thread_id = 3;
  kernel_stack = 0;
  rsp0 = 0;
  timer_ticks = 0;
}

four-Inv : Inv four
unfolding thread find
four-Inv = record {
  distinct = omega arith;
  alive = (refl, (refl, (refl, (refl, tt))));
  dead = tt;
  idle = (idle, refl);
  current = inl (kernel, refl);
}

yield_run : yield four ≡ record four { current = 4; kernel_stack = 0x44000; rsp0 = 0x44000 }
unfolding thread yield find wake choose walk behind before pick switch_to
yield_run = refl

thread_kill_run : (thread_kill 1 four).1 ≡ true
unfolding thread thread_kill same_id find find_id others behind before
thread_kill_run = refl

yield-Yielded_example : Yielded four (yield four)
yield-Yielded_example = yield-Yielded four four-Inv

yields-reach_example : (k : ℕ) × (k ≤ 4) × ((yields k four).current ≡ 4)
unfolding thread find wake
yields-reach_example = yields-reach four kernel program four-Inv refl refl (inr (inl refl)) refl

-- The program runs and leaves.
abbrev running_program : Sched
running_program = record four { current = 4 }

running_program-Inv : Inv running_program
unfolding thread find
running_program-Inv = record {
  distinct = omega arith;
  alive = (refl, (refl, (refl, (refl, tt))));
  dead = tt;
  idle = (idle, refl);
  current = inl (program, refl);
}

thread_exit_lem_example :
    ((thread_exit 7 running_program ≡ none)
      × (leave 7 running_program ≡ none)
      × ((◌≡◌ {A = ℕ} 2 0) ⊎ (◌≡◌ {A = ℕ} 4 2)))
    ⊎ ((q : Sched) × Left 7 program running_program q)
unfolding thread find
thread_exit_lem_example = thread_exit_lem 7 running_program program running_program-Inv refl

abbrev sys_idle : Thread
sys_idle = record {
  addr = 0x5000;
  id = 0;
  name = b's' ∷ [];
  stack_start = 0x6000;
  is_user = false;
  state = ready;
  sleep_ticks = 0;
  exit_code = 0;
}

Reach-Inv_example : Inv (thread_sleep 30 (thread_init 0x4000 (some sys_idle)))
unfolding thread_create
Reach-Inv_example =
    Reach-Inv 0x4000 0x5000 0x6000 (some (b's' ∷ [])) sys_idle
      (thread_sleep 30 (thread_init 0x4000 (some sys_idle))) refl (omega arith)
      (next here (sleeps 30))
