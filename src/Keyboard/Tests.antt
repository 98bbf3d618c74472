-- ===== src/Keyboard/Tests.antt =====
-- Runs of the keyboard, and its theorems at one state.
use keon_os.Base.{ℕ, ◌≡◌, ◌⊎◌, refl, true, false, none, some, List, [], ◌∷◌, ◌++◌, replicate, arith}
use keon_os.Thread.{Sched, blocked, update, yield}
use keon_os.Keyboard.{Keyboard, keyboard_getchar, keyboard_peek, keyboard_handler, decode, ascii_of}
use keon_os.Keyboard.Queue.{
  IsRing, Handled, pending, chars, keyboard_handler_lem, keyboard_getchar_lem,
}

-- Shift is down, and the characters 104 and 105 wait over the end of the ring.
abbrev typing : Keyboard
typing = record {
  shift_pressed = true;
  caps_lock = false;
  keyboard_buffer = 105 ∷ replicate 254 0 ++ 104 ∷ [];
  buffer_read_pos = 255;
  buffer_write_pos = 1;
}

abbrev alone : Sched
alone = record {
  ring = [];
  current = 0;
  idle = 0;
  zombies = [];
  next_thread_id = 1;
  kernel_stack = 0;
  rsp0 = 0;
  timer_ticks = 0;
}

pending_run : pending typing ≡ 104 ∷ 105 ∷ []
unfolding chars
pending_run = refl

decode_run : decode 0x1e true false ≡ 65
unfolding decode ascii_of
decode_run = refl

typing-IsRing : IsRing typing
typing-IsRing = record { room = refl; read = omega arith; write = omega arith }

keyboard_handler_lem_example :
    IsRing (keyboard_handler 0x1e typing alone).0
    × Handled 0x1e typing alone (keyboard_handler 0x1e typing alone)
keyboard_handler_lem_example = keyboard_handler_lem 0x1e typing alone typing-IsRing

keyboard_getchar_lem_example :
    IsRing (keyboard_getchar typing alone).0.0
    × (((pending typing ≡ [])
          × (keyboard_getchar typing alone ≡ (
            (
              typing,
              yield (record alone {
                ring = update alone.current (λ t. record t { state = blocked }) alone.ring;
              }),
            ),
            none,
          )))
        ⊎ ((c : ℕ) × (cs : List ℕ) × (pending typing ≡ c ∷ cs)
            × ((keyboard_getchar typing alone).1 ≡ some c)
            × ((keyboard_getchar typing alone).0.1 ≡ alone)
            × (pending (keyboard_getchar typing alone).0.0 ≡ cs)
            × (keyboard_peek typing ≡ c)))
keyboard_getchar_lem_example = keyboard_getchar_lem typing alone typing-IsRing
