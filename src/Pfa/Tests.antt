-- ===== src/Pfa/Tests.antt =====
-- Runs of the frame allocator, and its theorems at small memories.
use keon_os.Base.{
  ℕ, ◌*◌, ◌/◌, ◌<◌, ◌≡◌, ◌⊎◌, refl, true, false, [], ◌∷◌, arith, if◌then◌else◌, ◌==◌, test_bit,
  set_bit, clear_bit,
}
use keon_os.Pfa.{
  Pfa, page_size, frame_used, set_frame, clear_frame, ctz_not, alloc_from, pfa_alloc_frame,
  pfa_free_frame, free_frame, pfa_mark_used, mark_frame,
}
use keon_os.Pfa.Count.{Inv, Takes, count, pfa_alloc_frame_lem, pfa_free_frame_lem}

-- Eight frames, of which 0, 1 and 3 are in use.
abbrev eight : Pfa
eight = record { bitmap = 0b1011 ∷ []; total_frames = 8; used_frames = 3 }

eight-Inv : Inv eight
unfolding count frame_used test_bit
eight-Inv = record {
  words = omega arith;
  covered = omega arith;
  counted = refl;
  small = omega arith;
}

pfa_alloc_frame_run :
    pfa_alloc_frame eight ≡ (record eight { bitmap = 0b1111 ∷ []; used_frames = 4 }, 0x2000)
unfolding pfa_alloc_frame alloc_from ctz_not set_bit
pfa_alloc_frame_run = refl

pfa_free_frame_run :
    pfa_free_frame 0x3abc eight ≡ record eight { bitmap = 0b0011 ∷ []; used_frames = 2 }
unfolding pfa_free_frame free_frame frame_used clear_frame test_bit clear_bit
pfa_free_frame_run = refl

pfa_mark_used_run :
    pfa_mark_used 0x1fff 9 eight ≡ record eight { bitmap = 0b1111_1111 ∷ []; used_frames = 8 }
unfolding pfa_mark_used mark_frame frame_used set_frame test_bit set_bit
pfa_mark_used_run = refl

pfa_alloc_frame_lem_example :
    ((pfa_alloc_frame eight ≡ (eight, 0)) × ((g : ℕ) → g < 8 → frame_used eight.bitmap g ≡ true))
    ⊎ ((f : ℕ) × ((pfa_alloc_frame eight).1 ≡ f * page_size)
        × Takes eight f (pfa_alloc_frame eight).0
        × ((g : ℕ) → g < f → frame_used eight.bitmap g ≡ true))
pfa_alloc_frame_lem_example = pfa_alloc_frame_lem eight eight-Inv

pfa_free_frame_lem_example :
    Inv (pfa_free_frame 0x3abc eight)
    × ((g : ℕ)
        → g < 8
        → frame_used (pfa_free_frame 0x3abc eight).bitmap g
          ≡ (if 0x3abc / page_size == g then false else frame_used eight.bitmap g))
pfa_free_frame_lem_example = pfa_free_frame_lem eight 0x3abc eight-Inv
