-- ===== src/Keyboard.antt =====
-- drivers/keyboard.cpp: the translation of scan codes and the ring of characters that
-- the interrupt handler fills and readers empty. A byte that `inb` reads is an argument.
mod Queue
mod Tests
use keon_os.Base.{
  ℕ, ◌+◌, ◌-◌, ◌%◌, Bool, true, false, not, ◌&&◌, ◌||◌, Option, none, some, List, [], ◌∷◌, ltb, leb,
  ◌==◌, if◌then◌else◌, set, get_or,
}
use keon_os.Thread.{Sched, Thread, State, blocked, update, yield, thread_wakeup_blocked}

pub record Keyboard : Type 0 where
  pub shift_pressed : Bool
  pub caps_lock : Bool
  pub keyboard_buffer : List ℕ
  pub buffer_read_pos : ℕ
  pub buffer_write_pos : ℕ

abbrev pub buffer_size : ℕ
buffer_size = 256

abbrev scancode_to_ascii : List ℕ
scancode_to_ascii =
    0 ∷ 27 ∷ 49 ∷ 50 ∷ 51 ∷ 52 ∷ 53 ∷ 54 ∷ 55 ∷ 56 ∷ 57 ∷ 48 ∷ 45 ∷ 61 ∷ 8 ∷ 9 ∷ 113 ∷ 119 ∷ 101
    ∷ 114 ∷ 116 ∷ 121 ∷ 117 ∷ 105 ∷ 111 ∷ 112 ∷ 91 ∷ 93 ∷ 10 ∷ 0 ∷ 97 ∷ 115 ∷ 100 ∷ 102 ∷ 103 ∷ 104
    ∷ 106 ∷ 107 ∷ 108 ∷ 59 ∷ 39 ∷ 96 ∷ 0 ∷ 92 ∷ 122 ∷ 120 ∷ 99 ∷ 118 ∷ 98 ∷ 110 ∷ 109 ∷ 44 ∷ 46 ∷ 47
    ∷ 0 ∷ 42 ∷ 0 ∷ 32 ∷ []

-- The cases of `get_shift_variant`.
abbrev shift_variants : List (ℕ × ℕ)
shift_variants =
    (49, 33)
    ∷ (50, 64)
    ∷ (51, 35)
    ∷ (52, 36)
    ∷ (53, 37)
    ∷ (54, 94)
    ∷ (55, 38)
    ∷ (56, 42)
    ∷ (57, 40)
    ∷ (48, 41)
    ∷ (45, 95)
    ∷ (61, 43)
    ∷ (91, 123)
    ∷ (93, 125)
    ∷ (59, 58)
    ∷ (39, 34)
    ∷ (96, 126)
    ∷ (92, 124)
    ∷ (44, 60)
    ∷ (46, 62)
    ∷ (47, 63)
    ∷ []

variant : ℕ → List (ℕ × ℕ) → ℕ
variant c [] = c
variant c (r ∷ rs) = if c == r.0 then r.1 else variant c rs

pub get_shift_variant : ℕ → ℕ
unfolding variant
get_shift_variant c = variant c shift_variants

pub keyboard_init : Keyboard → Keyboard
keyboard_init k = record k { buffer_read_pos = 0; buffer_write_pos = 0 }

pub keyboard_has_input : Keyboard → Bool
keyboard_has_input k = not (k.buffer_read_pos == k.buffer_write_pos)

pub keyboard_peek : Keyboard → ℕ
keyboard_peek k = if keyboard_has_input k then get_or k.keyboard_buffer k.buffer_read_pos 0 else 0

-- One round of the loop of `keyboard_getchar`: a character, or a call of `yield` as a blocked thread.
pub keyboard_getchar : Keyboard → Sched → (Keyboard × Sched) × Option ℕ
keyboard_getchar k s =
    if keyboard_has_input k
    then (
      (record k { buffer_read_pos = (k.buffer_read_pos + 1) % buffer_size }, s),
      some (get_or k.keyboard_buffer k.buffer_read_pos 0),
    )
    else (
      (k, yield (record s { ring = update s.current (λ t. record t { state = blocked }) s.ring })),
      none,
    )

-- The entry of the table, with the letter's case or the shifted sign. The zeros at the end of the
-- table stand for codes out of its range.
unfoldable pub ascii_of : ℕ → Bool → Bool → ℕ
ascii_of scancode shift caps =
    let ascii = get_or scancode_to_ascii scancode 0 in
    let upper = if shift then not caps else caps in
    if leb 97 ascii && leb ascii 122
    then (if upper then ascii - 32 else ascii)
    else if shift
    then get_shift_variant ascii
    else ascii

-- The `switch` of `keyboard_handler` from the arrow keys on; 0 is no character.
unfoldable pub decode : ℕ → Bool → Bool → ℕ
decode scancode shift caps =
    if scancode == 0x48
    then 0x11
    else if scancode == 0x50
    then 0x12
    else if scancode == 0x4b
    then 0x13
    else if scancode == 0x4d
    then 0x14
    else if scancode == 0x0e
    then 8
    else ascii_of scancode shift caps

-- The end of `keyboard_handler`, for a character.
pub store : ℕ → Keyboard → Keyboard
store c k = record k {
  keyboard_buffer = set k.keyboard_buffer k.buffer_write_pos c;
  buffer_write_pos = (k.buffer_write_pos + 1) % buffer_size;
}

abbrev pub is_shift : ℕ → Bool
is_shift code = code == 0x2a || code == 0x36

pub keyboard_handler : ℕ → Keyboard → Sched → Keyboard × Sched
keyboard_handler scancode k s =
    let ascii = decode scancode k.shift_pressed k.caps_lock in
    if leb 0x80 scancode
    then (if is_shift (scancode % 0x80) then (record k { shift_pressed = false }, s) else (k, s))
    else if is_shift scancode
    then (record k { shift_pressed = true }, s)
    else if scancode == 0x3a
    then (record k { caps_lock = not k.caps_lock }, s)
    else if ascii == 0
    then (k, s)
    else (store ascii k, thread_wakeup_blocked s)
