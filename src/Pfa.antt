-- ===== src/Pfa.antt =====
-- The physical frame allocator of kernel/arch/x86_64/paging.cpp: a bitmap of 32-bit words, in
-- which a set bit is a frame in use, and two counters.
mod Bitmap
mod Alloc
pub mod Count
mod Tests
pub mod Multiboot
use keon_os.Base.{
  ℕ, zero, suc, ◌+◌, ◌-◌, ◌*◌, ◌/◌, ◌%◌, ◌^◌, Bool, true, false, Option, none, some, List, [], ◌∷◌,
  ltb, ◌==◌, if◌then◌else◌, set, get_or, length, replicate, test_bit, set_bit, clear_bit,
}
use mathlib.Core.Option

abbrev pub page_size : ℕ
page_size = 4096

abbrev pub u64 : ℕ
u64 = 2 ^ 64

abbrev pub full_word : ℕ
full_word = 0xffff_ffff

pub record Pfa : Type 0 where
  pub bitmap : List ℕ
  pub total_frames : ℕ
  pub used_frames : ℕ

-- `frame_bitmap[frame / 32] & (1 << (frame % 32))`
unfoldable pub frame_used : List ℕ → ℕ → Bool
frame_used bits f = test_bit (f % 32) (get_or bits (f / 32) 0)

pub set_frame : List ℕ → ℕ → List ℕ
set_frame bits f = set bits (f / 32) (set_bit (f % 32) (get_or bits (f / 32) 0))

pub clear_frame : List ℕ → ℕ → List ℕ
clear_frame bits f = set bits (f / 32) (clear_bit (f % 32) (get_or bits (f / 32) 0))

-- One round of the loop of `pfa_mark_used`.
pub mark_frame : ℕ → Pfa → Pfa
mark_frame f p =
    if ltb f p.total_frames
    then if frame_used p.bitmap f
      then p
      else record p { bitmap = set_frame p.bitmap f; used_frames = (p.used_frames + 1) % u64 }
    else p

mark_frames : ℕ → ℕ → Pfa → Pfa
mark_frames zero f p = p
mark_frames (suc n) f p = mark_frames n (f + 1) (mark_frame f p)

pub pfa_mark_used : ℕ → ℕ → Pfa → Pfa
unfolding mark_frames
pfa_mark_used frame_start frame_count p = mark_frames frame_count (frame_start / page_size) p

pub free_frame : ℕ → Pfa → Pfa
free_frame f p =
    if ltb f p.total_frames
    then if frame_used p.bitmap f
      then record p {
        bitmap = clear_frame p.bitmap f;
        used_frames = (p.used_frames + u64 - 1) % u64;
      }
      else p
    else p

-- The argument is a physical address.
pub pfa_free_frame : ℕ → Pfa → Pfa
pfa_free_frame frame p = free_frame (frame / page_size) p

-- `__builtin_ctz(~w)` for a word of `k` bits that is not full.
unfoldable pub ctz_not : ℕ → ℕ → ℕ
ctz_not zero w = 0
ctz_not (suc k) w = if w % 2 == 0 then 0 else suc (ctz_not k (w / 2))

-- The loop over the words from index `i` on: the frame found, and the words with its bit set.
unfoldable pub alloc_from : ℕ → ℕ → List ℕ → Option (ℕ × List ℕ)
alloc_from total i [] = none
alloc_from total i (w ∷ ws) =
    let rest = Option.map (λ r. (r.0, w ∷ r.1)) (alloc_from total (i + 1) ws) in
    let bit = ctz_not 32 w in
    if w == full_word
    then rest
    else if ltb (i * 32 + bit) total
    then some (i * 32 + bit, set_bit bit w ∷ ws)
    else rest

-- The frame's physical address, or `nullptr`. The page is zeroed by the caller of the model.
unfoldable pub pfa_alloc_frame : Pfa → Pfa × ℕ
pfa_alloc_frame p = elim (alloc_from p.total_frames 0 p.bitmap) [
  | none ↦ (p, 0)
  | some (frame, bits) ↦
      (record p { bitmap = bits; used_frames = (p.used_frames + 1) % u64 }, frame * page_size)
]
