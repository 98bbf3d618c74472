-- ===== src/Paging/Empty.antt =====
-- A state of the page tables over a memory of 64 frames, for runs.
use keon_os.Base.{ℕ, test_bit, ◌/◌, ◌≡◌, refl, sym, ap, ◌∙◌, some, List, [], ◌∷◌, arith}
use mathlib.Core.Bool.{false≢true}
use keon_os.Pfa.{page_size, frame_used}
use keon_os.Pfa.Count.{count}
use keon_os.Paging.{Mmu, current_pml4}
use keon_os.Paging.Walk.{follow, follow-nil, follow-miss}
use keon_os.Paging.Descent.{Sound}
use keon_os.Paging.Translate.{is_present-zero}

-- The frames 0 to 31 are in use, and all tables are empty.
abbrev pub empty : Mmu
empty = record {
  tables = λ t i. 0;
  pfa = record { bitmap = 0xffff_ffff ∷ 0 ∷ []; total_frames = 64; used_frames = 32 };
  cr3 = 4096;
  kernel_pml4 = 4096;
  mapped_pages = 0;
}

-- Only the empty path leads to a table.
empty-root : (p : List ℕ) (t : ℕ) → follow p 4096 empty.tables ≡ some t → (p ≡ []) × (t ≡ 4096)
empty-root [] t e = let root = follow-nil 4096 empty.tables in (refl, cc)
empty-root (i ∷ is) t e =
    let miss = follow-miss i is 4096 empty.tables is_present-zero in absurd (false≢true (cc))

pub empty-Sound : Sound (current_pml4 empty) empty
unfolding current_pml4 count frame_used test_bit
empty-Sound = record {
  apart = λ p q t lp lq ep eq. (empty-root p t ep).0 ∙ sym (empty-root q t eq).0;
  backed = λ p t l e. ap (λ k. frame_used empty.pfa.bitmap (k / page_size)) (empty-root p t e).1;
  pfa = record { words = omega arith; covered = omega arith; counted = refl; small = omega arith };
  null = refl;
}
