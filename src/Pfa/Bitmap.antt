-- ===== src/Pfa/Bitmap.antt =====
-- The bitmap as a set of frames.
use keon_os.Base.{
  ℕ, zero, suc, ◌*◌, ◌/◌, ◌%◌, ◌^◌, ◌<◌, ◌≡◌, ◌≢◌, refl, ap, inl, inr, Bool, true, false, List, [],
  ◌∷◌, arith, ◌==◌, if◌then◌else◌, set, get_or, length, test_bit, set_bit, clear_bit, Bool-cases,
  test_bit-set_bit, test_bit-set_bit_ne, test_bit-clear_bit, test_bit-clear_bit_ne, set_bit-lt,
  clear_bit-lt,
}
use keon_os.Pfa.{frame_used, set_frame, clear_frame}

get_or-set :
    (xs : List ℕ) (i j v : ℕ)
    → i < length xs
    → get_or (set xs i v) j 0 ≡ (if i == j then v else get_or xs j 0)
get_or-set [] i j v h = absurd (omega arith)
get_or-set (x ∷ xs) zero zero v h = refl
get_or-set (x ∷ xs) zero (suc j) v h = ground arith
get_or-set (x ∷ xs) (suc i) zero v h = ground arith
get_or-set (x ∷ xs) (suc i) (suc j) v h = ground (arith, get_or-set xs i j v)

length-set : (xs : List ℕ) (i v : ℕ) → length (set xs i v) ≡ length xs
length-set [] i v = refl
length-set (x ∷ xs) zero v = refl
length-set (x ∷ xs) (suc i) v = ap suc (length-set xs i v)

-- An operation that gives one bit of a word the value `b` and leaves the others alone does so to
-- one frame of the bitmap.
module _ (op : ℕ → ℕ → ℕ) (b : Bool) (here : (k w : ℕ) → test_bit k (op k w) ≡ b)
    (there : (j k w : ℕ) → j ≢ k → test_bit j (op k w) ≡ test_bit j w) where
  frame_used-set :
      (bits : List ℕ) (f g : ℕ)
      → f < 32 * length bits
      → frame_used (set bits (f / 32) (op (f % 32) (get_or bits (f / 32) 0))) g
        ≡ (if f == g then b else frame_used bits g)
  unfolding frame_used
  frame_used-set bits f g h =
      let place =
        get_or-set bits (f / 32) (g / 32) (op (f % 32) (get_or bits (f / 32) 0)) (omega arith) in
      elim (Bool-cases (f / 32 == g / 32)) [
        | inl same ↦
            let word : f / 32 ≡ g / 32 = ground arith in
            elim (Bool-cases (f == g)) [
              | inl e ↦
                  let bit : f % 32 ≡ g % 32 = ground arith in
                  rw (place, same, e, bit) (here (g % 32) (get_or bits (f / 32) 0))
              | inr ne ↦
                  let bit : g % 32 ≢ f % 32 = ground arith in
                  rw (place, same, ne, there (g % 32) (f % 32) (get_or bits (f / 32) 0) bit, word)
            ]
        | inr other ↦ let ne : (f == g) ≡ false = ground arith in rw (place, other, ne)
      ]

pub frame_used-set_frame :
    (bits : List ℕ) (f g : ℕ)
    → f < 32 * length bits
    → frame_used (set_frame bits f) g ≡ (if f == g then true else frame_used bits g)
unfolding set_frame
frame_used-set_frame = frame_used-set set_bit true test_bit-set_bit test_bit-set_bit_ne

pub frame_used-clear_frame :
    (bits : List ℕ) (f g : ℕ)
    → f < 32 * length bits
    → frame_used (clear_frame bits f) g ≡ (if f == g then false else frame_used bits g)
unfolding clear_frame
frame_used-clear_frame = frame_used-set clear_bit false test_bit-clear_bit test_bit-clear_bit_ne

-- Every word has 32 bits.
abbrev pub AllWords : List ℕ → Type 0
AllWords [] = Unit {0}
AllWords (w ∷ ws) = (w < 2 ^ 32) × AllWords ws

AllWords-get_or : (xs : List ℕ) (i : ℕ) → AllWords xs → get_or xs i 0 < 2 ^ 32
AllWords-get_or [] i h = omega arith
AllWords-get_or (x ∷ xs) zero h = h.0
AllWords-get_or (x ∷ xs) (suc i) h = AllWords-get_or xs i h.1

AllWords-set : (xs : List ℕ) (i v : ℕ) → v < 2 ^ 32 → AllWords xs → AllWords (set xs i v)
AllWords-set [] i v l h = tt
AllWords-set (x ∷ xs) zero v l h = (l, h.1)
AllWords-set (x ∷ xs) (suc i) v l h = (h.0, AllWords-set xs i v l h.1)

pub AllWords-set_frame : (bits : List ℕ) (f : ℕ) → AllWords bits → AllWords (set_frame bits f)
unfolding set_frame
AllWords-set_frame bits f h =
    AllWords-set bits (f / 32) _
      (set_bit-lt 32 (f % 32) (get_or bits (f / 32) 0) (AllWords-get_or bits (f / 32) h)
        (omega arith))
      h

pub AllWords-clear_frame : (bits : List ℕ) (f : ℕ) → AllWords bits → AllWords (clear_frame bits f)
unfolding clear_frame
AllWords-clear_frame bits f h =
    AllWords-set bits (f / 32) _
      (clear_bit-lt 32 (f % 32) (get_or bits (f / 32) 0) (AllWords-get_or bits (f / 32) h)) h

pub length-set_frame : (bits : List ℕ) (f : ℕ) → length (set_frame bits f) ≡ length bits
unfolding set_frame
length-set_frame bits f = length-set bits (f / 32) _

pub length-clear_frame : (bits : List ℕ) (f : ℕ) → length (clear_frame bits f) ≡ length bits
unfolding clear_frame
length-clear_frame bits f = length-set bits (f / 32) _
