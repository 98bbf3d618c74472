-- ===== src/Pfa/Alloc.antt =====
-- What `pfa_alloc_frame` finds.
use keon_os.Base.{
  ℕ, zero, suc, ◌+◌, ◌-◌, ◌*◌, ◌/◌, ◌%◌, ◌^◌, ◌≤◌, ◌<◌, ◌≡◌, ◌⊎◌, refl, ap, inl, inr, true, false,
  List, [], ◌∷◌, arith, none, some, ltb, ◌==◌, length, test_bit, set_bit, Bool-cases, test_bit_ones,
  ones_of_test_bit,
}
use mathlib.Core.Option
use keon_os.Pfa.{frame_used, set_frame, ctz_not, alloc_from, full_word}
use keon_os.Pfa.Bitmap.{AllWords}

ctz_not-le : (k w : ℕ) → ctz_not k w ≤ k
unfolding ctz_not
ctz_not-le zero w = omega arith
ctz_not-le (suc k) w = ground (arith, ctz_not-le k (w / 2))

-- Below the bit that `ctz_not` finds all bits are set.
ctz_not-below : (k w j : ℕ) → j < ctz_not k w → test_bit j w ≡ true
unfolding ctz_not test_bit
ctz_not-below zero w j l = absurd (omega arith)
ctz_not-below (suc k) w zero l = ground arith
ctz_not-below (suc k) w (suc j) l = ctz_not-below k (w / 2) j (ground arith)

ctz_not-at : (k w : ℕ) → ctz_not k w < k → test_bit (ctz_not k w) w ≡ false
unfolding ctz_not test_bit
ctz_not-at zero w l = absurd (omega arith)
ctz_not-at (suc k) w l = elim (Bool-cases (w % 2 == 0)) [
  | inl even ↦ rw even (ground arith)
  | inr odd ↦ rw odd (ctz_not-at k (w / 2) (ground arith))
]

-- A 32-bit word that is not full has a clear bit, and `ctz_not` finds it.
ctz_not-lt : (w : ℕ) → w < 2 ^ 32 → (w == full_word) ≡ false → ctz_not 32 w < 32
ctz_not-lt w h ne = elim (Bool-cases (ltb (ctz_not 32 w) 32)) [
  | inl l ↦ ground arith
  | inr g ↦
      let ones =
        ones_of_test_bit 32 w h (λ j l. ctz_not-below 32 w j (ground (arith, ctz_not-le 32 w))) in
      absurd (ground arith)
]

-- The outcome of the scan of `ws`, the words from index `i` on: no frame below `total` is free, or the
-- first free frame is found, at position `at` of these words, and its bit is set.
abbrev pub NoFree : ℕ → ℕ → List ℕ → Type 0
NoFree total i ws = (g : ℕ) → g < 32 * length ws → i * 32 + g < total → frame_used ws g ≡ true

pub record Found (total i : ℕ) (ws : List ℕ) (r : ℕ × List ℕ) : Type 0 where
  pub at : ℕ
  pub frame : r.0 ≡ i * 32 + at
  pub inside : at < 32 * length ws
  pub below : r.0 < total
  pub was_free : frame_used ws at ≡ false
  pub first : (g : ℕ) → g < at → frame_used ws g ≡ true
  pub words : r.1 ≡ set_frame ws at

-- The frames of the first word and of the others.
frame_used-head : (w : ℕ) (ws : List ℕ) (g : ℕ) → g < 32 → frame_used (w ∷ ws) g ≡ test_bit g w
unfolding frame_used
frame_used-head w ws g h =
    let a : g / 32 ≡ 0 = omega arith in let b : g % 32 ≡ g = omega arith in rw (a, b)

frame_used-tail : (w : ℕ) (ws : List ℕ) (g : ℕ) → frame_used (w ∷ ws) (g + 32) ≡ frame_used ws g
unfolding frame_used
frame_used-tail w ws g =
    let a : (g + 32) / 32 ≡ suc (g / 32) = omega arith in
    let b : (g + 32) % 32 ≡ g % 32 = omega arith in rw (a, b)

set_frame-head : (w : ℕ) (ws : List ℕ) (g : ℕ) → g < 32 → set_frame (w ∷ ws) g ≡ set_bit g w ∷ ws
unfolding set_frame
set_frame-head w ws g h =
    let a : g / 32 ≡ 0 = omega arith in let b : g % 32 ≡ g = omega arith in rw (a, b)

set_frame-tail : (w : ℕ) (ws : List ℕ) (g : ℕ) → set_frame (w ∷ ws) (g + 32) ≡ w ∷ set_frame ws g
unfolding set_frame
set_frame-tail w ws g =
    let a : (g + 32) / 32 ≡ suc (g / 32) = omega arith in
    let b : (g + 32) % 32 ≡ g % 32 = omega arith in rw (a, b)

abbrev Scanned : ℕ → ℕ → List ℕ → Type 0
Scanned total i ws =
    ((alloc_from total i ws ≡ none) × NoFree total i ws)
    ⊎ ((r : ℕ × List ℕ) × (alloc_from total i ws ≡ some r) × Found total i ws r)

-- The word `w` has no free frame below `total`.
abbrev Spent : ℕ → ℕ → ℕ → Type 0
Spent total i w = (g : ℕ) → g < 32 → i * 32 + g < total → test_bit g w ≡ true

NoFree-skip :
    (total i w : ℕ) (ws : List ℕ)
    → Spent total i w
    → NoFree total (i + 1) ws
    → NoFree total i (w ∷ ws)
NoFree-skip total i w ws spent rest g l below = elim (Bool-cases (ltb g 32)) [
  | inl head ↦ rw (frame_used-head w ws g (ground arith)) (spent g (ground arith) below)
  | inr tail ↦
      let e : g ≡ g - 32 + 32 = ground arith in
      rw (e, frame_used-tail w ws (g - 32)) (rest (g - 32) (ground arith) (ground arith))
]

Found-skip :
    (total i w : ℕ) (ws : List ℕ) (r : ℕ × List ℕ)
    → Spent total i w
    → Found total (i + 1) ws r
    → Found total i (w ∷ ws) (r.0, w ∷ r.1)
Found-skip total i w ws r spent f = record {
  at = f.at + 32;
  frame = omega (arith, f.frame);
  inside = omega (arith, f.inside);
  below = f.below;
  was_free = rw (frame_used-tail w ws f.at) f.was_free;
  first = before;
  words = rw (set_frame-tail w ws f.at) (ap (◌∷◌ w) f.words);
}
  where
    before : (g : ℕ) → g < f.at + 32 → frame_used (w ∷ ws) g ≡ true
    before g l = elim (Bool-cases (ltb g 32)) [
      | inl head ↦
          rw (frame_used-head w ws g (ground arith))
            (spent g (ground arith) (ground (arith, f.below, f.frame)))
      | inr tail ↦
          let e : g ≡ g - 32 + 32 = ground arith in
          rw (e, frame_used-tail w ws (g - 32)) (f.first (g - 32) (ground arith))
    ]

Scanned-skip :
    (total i w : ℕ) (ws : List ℕ)
    → Spent total i w
    → alloc_from total i (w ∷ ws) ≡ Option.map (λ r. (r.0, w ∷ r.1)) (alloc_from total (i + 1) ws)
    → Scanned total (i + 1) ws
    → Scanned total i (w ∷ ws)
Scanned-skip total i w ws spent e (inl (e', rest)) =
    inl (rw (e, e'), NoFree-skip total i w ws spent rest)
Scanned-skip total i w ws spent e (inr (r, e', f)) =
    inr ((r.0, w ∷ r.1), rw (e, e'), Found-skip total i w ws r spent f)

-- The scan misses no free frame, and returns the first one.
pub alloc_from_lem : (total i : ℕ) (ws : List ℕ) → AllWords ws → Scanned total i ws
unfolding alloc_from
alloc_from_lem total i [] all = inl (refl, λ g l below. absurd (omega arith))
alloc_from_lem total i (w ∷ ws) all =
    let ih = alloc_from_lem total (i + 1) ws all.1 in
    let bit = ctz_not 32 w in
    elim (Bool-cases (w == full_word)) [
      | inl full ↦
          Scanned-skip total i w ws (λ g l below. test_bit_ones 32 g w (ground arith) l) (rw full)
            ih
      | inr free ↦
          let near = ctz_not-lt w all.0 free in
          elim (Bool-cases (ltb (i * 32 + bit) total)) [
            | inl hit ↦ inr (
              (i * 32 + bit, set_bit bit w ∷ ws),
              rw (free, hit),
              record {
                at = bit;
                frame = refl;
                inside = omega arith;
                below = ground arith;
                was_free = rw (frame_used-head w ws bit near) (ctz_not-at 32 w near);
                first = λ g l. rw (frame_used-head w ws g (omega arith)) (ctz_not-below 32 w g l);
                words = rw (set_frame-head w ws bit near);
              },
            )
            | inr miss ↦
                Scanned-skip total i w ws (λ g l below. ctz_not-below 32 w g (ground arith))
                  (rw (free, miss)) ih
          ]
    ]
