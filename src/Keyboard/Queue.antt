-- ===== src/Keyboard/Queue.antt =====
-- The ring of drivers/keyboard.cpp as a queue of characters.
use keon_os.Base.{
  ℕ, zero, suc, ◌+◌, ◌-◌, ◌%◌, ◌≤◌, ◌<◌, ◌≡◌, ◌≢◌, ◌⊎◌, inl, inr, refl, sym, ap, ◌∙◌, Bool, true,
  false, not, ◌&&◌, ◌||◌, none, some, List, [], ◌∷◌, ◌++◌, leb, ◌==◌, if◌then◌else◌, set, get_or,
  length, Bool-cases, arith,
}
use keon_os.Thread.{Sched, blocked, update, yield, thread_wakeup_blocked}
use keon_os.Keyboard.{
  Keyboard, buffer_size, keyboard_has_input, keyboard_getchar, keyboard_peek, keyboard_handler,
  decode, store, is_shift,
}

-- `n` characters of the ring from position `pos` on.
unfoldable pub chars : ℕ → ℕ → List ℕ → List ℕ
chars zero pos buf = []
chars (suc n) pos buf = get_or buf pos 0 ∷ chars n ((pos + 1) % buffer_size) buf

abbrev pub count : Keyboard → ℕ
count k = (k.buffer_write_pos + buffer_size - k.buffer_read_pos) % buffer_size

-- The characters that wait to be read, the oldest first.
abbrev pub pending : Keyboard → List ℕ
pending k = chars (count k) k.buffer_read_pos k.keyboard_buffer

pub record IsRing (k : Keyboard) : Type 0 where
  pub room : length k.keyboard_buffer ≡ buffer_size
  pub read : k.buffer_read_pos < buffer_size
  pub write : k.buffer_write_pos < buffer_size

get_or-set : (xs : List ℕ) (i v : ℕ) → i < length xs → get_or (set xs i v) i 0 ≡ v
get_or-set [] i v l = absurd (omega arith)
get_or-set (x ∷ xs) zero v l = refl
get_or-set (x ∷ xs) (suc i) v l = get_or-set xs i v (omega arith)

get_or-set_ne : (xs : List ℕ) (i j v : ℕ) → i ≢ j → get_or (set xs i v) j 0 ≡ get_or xs j 0
get_or-set_ne [] i j v h = refl
get_or-set_ne (x ∷ xs) zero zero v h = absurd (h refl)
get_or-set_ne (x ∷ xs) zero (suc j) v h = refl
get_or-set_ne (x ∷ xs) (suc i) zero v h = refl
get_or-set_ne (x ∷ xs) (suc i) (suc j) v h = get_or-set_ne xs i j v (λ e. h (omega arith))

length-set : (xs : List ℕ) (i v : ℕ) → length (set xs i v) ≡ length xs
length-set [] i v = refl
length-set (x ∷ xs) zero v = refl
length-set (x ∷ xs) (suc i) v = omega (arith, length-set xs i v)

length-chars : (n pos : ℕ) (buf : List ℕ) → length (chars n pos buf) ≡ n
unfolding chars
length-chars zero pos buf = refl
length-chars (suc n) pos buf = omega (arith, length-chars n ((pos + 1) % buffer_size) buf)

-- A write behind the characters leaves them alone.
chars-set :
    (n pos p v : ℕ) (buf : List ℕ)
    → pos < buffer_size
    → p < buffer_size
    → n ≤ (p + buffer_size - pos) % buffer_size
    → chars n pos (set buf p v) ≡ chars n pos buf
unfolding chars
chars-set zero pos p v buf lpos lp h = refl
chars-set (suc n) pos p v buf lpos lp h =
    let differ : p ≢ pos = (λ e. omega (arith, e)) in
    let rest = chars-set n ((pos + 1) % buffer_size) p v buf (omega arith) lp (omega arith) in
    ap (λ c. c ∷ chars n ((pos + 1) % buffer_size) (set buf p v)) (get_or-set_ne buf p pos v differ)
    ∙ ap (λ cs. get_or buf pos 0 ∷ cs) rest

chars-suc :
    (n pos : ℕ) (buf : List ℕ)
    → pos < buffer_size
    → chars (suc n) pos buf ≡ chars n pos buf ++ get_or buf ((pos + n) % buffer_size) 0 ∷ []
unfolding chars
chars-suc zero pos buf l =
    let here : (pos + 0) % buffer_size ≡ pos = omega arith in
    ap (λ k. get_or buf k 0 ∷ []) (sym here)
chars-suc (suc n) pos buf l =
    let next : ((pos + 1) % buffer_size + n) % buffer_size ≡ (pos + suc n) % buffer_size =
      omega arith in
    ap (λ cs. get_or buf pos 0 ∷ cs)
      (chars-suc n ((pos + 1) % buffer_size) buf (omega arith)
        ∙ ap (λ k. chars n ((pos + 1) % buffer_size) buf ++ get_or buf k 0 ∷ []) next)

store-IsRing : (c : ℕ) (k : Keyboard) → IsRing k → IsRing (store c k)
unfolding store
store-IsRing c k r = record {
  room = length-set k.keyboard_buffer k.buffer_write_pos c ∙ r.room;
  read = r.read;
  write = omega arith;
}

-- With 255 characters in the ring the next one makes it look empty.
store-pending :
    (c : ℕ) (k : Keyboard)
    → IsRing k
    → pending (store c k) ≡ (if length (pending k) == 255 then [] else pending k ++ c ∷ [])
unfolding store
store-pending c k r =
    let read = r.read in
    let write = r.write in
    let long = length-chars (count k) k.buffer_read_pos k.keyboard_buffer in
    elim (Bool-cases (count k == 255)) [
      | inl full ↦
          let wraps : count (store c k) ≡ 0 = ground (arith, full) in
          let test : (length (pending k) == 255) ≡ true = ap (λ n. n == 255) long ∙ full in
          rw (test, wraps) (unfold chars in refl)
      | inr room ↦
          let buf = set k.keyboard_buffer k.buffer_write_pos c in
          let more : count (store c k) ≡ suc (count k) = ground (arith, room) in
          let test : (length (pending k) == 255) ≡ false = ap (λ n. n == 255) long ∙ room in
          let place : (k.buffer_read_pos + count k) % buffer_size ≡ k.buffer_write_pos =
            omega arith in
          rw test (
            ap (λ n. chars n k.buffer_read_pos buf) more
            ∙ chars-suc (count k) k.buffer_read_pos buf read
            ∙ ap (λ cs. cs ++ get_or buf ((k.buffer_read_pos + count k) % buffer_size) 0 ∷ [])
                (chars-set (count k) k.buffer_read_pos k.buffer_write_pos c k.keyboard_buffer read
                  write (omega arith))
            ∙ ap (λ p. pending k ++ get_or buf p 0 ∷ []) place
            ∙ ap (λ v. pending k ++ v ∷ [])
                (get_or-set k.keyboard_buffer k.buffer_write_pos c (omega (arith, r.room))))
    ]

-- The code of a key that goes down and is not Shift or Caps Lock, and stands for a character.
abbrev pub types_character : ℕ → Keyboard → Bool
types_character code k =
    not (leb 0x80 code)
    && (not (is_shift code || code == 0x3a) && not (decode code k.shift_pressed k.caps_lock == 0))

-- The 256th character empties the queue.
abbrev pub appended : ℕ → List ℕ → List ℕ
appended c cs = if length cs == 255 then [] else cs ++ c ∷ []

-- What `keyboard_handler` leaves: a character joins the queue and the blocked threads become ready just if the code
-- types one. Shift follows the last press or release of either key, and Caps Lock turns with each press.
abbrev pub Handled : ℕ → Keyboard → Sched → Keyboard × Sched → Type 0
Handled code k s r =
    (r.1 ≡ (if types_character code k then thread_wakeup_blocked s else s))
    × (pending r.0 ≡ (
        if types_character code k
        then appended (decode code k.shift_pressed k.caps_lock) (pending k)
        else pending k))
    × (r.0.shift_pressed
        ≡ (if is_shift (code % 0x80) then not (leb 0x80 code) else k.shift_pressed))
    × (r.0.caps_lock ≡ (if code == 0x3a then not k.caps_lock else k.caps_lock))

-- `keyboard_handler` keeps the ring within its bounds, for every scan code. Just if the code is of a key that
-- goes down, is not Shift or Caps Lock, and stands for a character, that character joins the end of the
-- queue and all blocked threads become ready; if 255 characters wait already, the queue is empty after that. Else queue and
-- threads stay as they are. Shift is set by the press of either Shift key and reset by its release, Caps Lock
-- turns with its press, and no other code changes them.
pub keyboard_handler_lem :
    (code : ℕ) (k : Keyboard) (s : Sched)
    → IsRing k
    → IsRing (keyboard_handler code k s).0 × Handled code k s (keyboard_handler code k s)
unfolding keyboard_handler store
keyboard_handler_lem code k s r =
    let c = decode code k.shift_pressed k.caps_lock in
    elim (Bool-cases (leb 0x80 code)) [
      | inl up ↦
          let not_caps : (code == 0x3a) ≡ false = ground (arith, up) in
          elim (Bool-cases (is_shift (code % 0x80))) [
            | inl sh ↦
                rw (up, sh, not_caps)
                  (
                    record { room = r.room; read = r.read; write = r.write },
                    (refl, refl, refl, refl),
                  )
            | inr other ↦ rw (up, other, not_caps) (r, (refl, refl, refl, refl))
          ]
      | inr down ↦
          let same : code % 0x80 ≡ code = ground (arith, down) in
          elim (Bool-cases (is_shift code)) [
            | inl sh ↦
                let not_caps : (code == 0x3a) ≡ false = ground (arith, sh) in
                rw (down, same, sh, not_caps)
                  (
                    record { room = r.room; read = r.read; write = r.write },
                    (refl, refl, refl, refl),
                  )
            | inr key ↦ elim (Bool-cases (code == 0x3a)) [
              | inl caps ↦
                  rw (down, same, key, caps)
                    (
                      record { room = r.room; read = r.read; write = r.write },
                      (refl, refl, refl, refl),
                    )
              | inr plain ↦ elim (Bool-cases (c == 0)) [
                | inl none_there ↦
                    rw (down, same, key, plain, none_there) (r, (refl, refl, refl, refl))
                | inr char ↦
                    rw (down, same, key, plain, char)
                      (store-IsRing c k r, (refl, store-pending c k r, refl, refl))
              ]
            ]
          ]
    ]

-- One round of `keyboard_getchar`. With no character waiting, the current thread blocks and yields, and the
-- keyboard is unchanged; otherwise the oldest character is returned and leaves the queue, and the
-- threads are unchanged.
pub keyboard_getchar_lem :
    (k : Keyboard) (s : Sched)
    → IsRing k
    → IsRing (keyboard_getchar k s).0.0
      × (((pending k ≡ [])
            × (keyboard_getchar k s ≡ (
              (
                k,
                yield (record s {
                  ring = update s.current (λ t. record t { state = blocked }) s.ring;
                }),
              ),
              none,
            )))
          ⊎ ((c : ℕ) × (cs : List ℕ) × (pending k ≡ c ∷ cs)
              × ((keyboard_getchar k s).1 ≡ some c)
              × ((keyboard_getchar k s).0.1 ≡ s)
              × (pending (keyboard_getchar k s).0.0 ≡ cs)
              × (keyboard_peek k ≡ c)))
unfolding keyboard_getchar keyboard_has_input keyboard_peek
keyboard_getchar_lem k s r =
    let read = r.read in
    let write = r.write in
    elim (Bool-cases (k.buffer_read_pos == k.buffer_write_pos)) [
      | inl empty ↦
          let zero_left : count k ≡ 0 = ground (arith, empty) in
          rw (empty, zero_left) (r, inl (unfold chars in refl, refl))
      | inr some_left ↦
          let next = (k.buffer_read_pos + 1) % buffer_size in
          let less = (k.buffer_write_pos + buffer_size - next) % buffer_size in
          let one_more : count k ≡ suc less = ground (arith, some_left) in
          let waiting : pending k
              ≡ get_or k.keyboard_buffer k.buffer_read_pos 0 ∷ chars less next k.keyboard_buffer =
            ap (λ n. chars n k.buffer_read_pos k.keyboard_buffer) one_more
            ∙ (unfold chars in refl) in
          rw some_left (
            record { room = r.room; read = omega arith; write = write },
            inr (
              get_or k.keyboard_buffer k.buffer_read_pos 0,
              chars less next k.keyboard_buffer,
              waiting,
              refl,
              refl,
              refl,
              refl,
            ),
          )
    ]
