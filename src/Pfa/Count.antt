-- ===== src/Pfa/Count.antt =====
-- The allocator's invariant, and what each operation does to the set of frames in use.
use keon_os.Base.{
  ℕ, zero, suc, ◌+◌, ◌-◌, ◌*◌, ◌/◌, ◌%◌, ◌≤◌, ◌<◌, ◌≡◌, ◌⊎◌, refl, ◌∙◌, inl, inr, Bool, true, false,
  ◌&&◌, ◌||◌, arith, ltb, leb, ◌==◌, if◌then◌else◌, length, Bool-cases,
}
use keon_os.Pfa.{
  Pfa, u64, page_size, frame_used, set_frame, clear_frame, mark_frame, mark_frames, pfa_mark_used,
  free_frame, pfa_free_frame, pfa_alloc_frame,
}
use keon_os.Pfa.Bitmap.{
  AllWords, length-set_frame, length-clear_frame, frame_used-set_frame, frame_used-clear_frame,
  AllWords-set_frame, AllWords-clear_frame,
}
use keon_os.Pfa.Alloc.{alloc_from_lem}

-- How many of the numbers below `n` pass the test.
unfoldable pub count : (ℕ → Bool) → ℕ → ℕ
count p zero = 0
count p (suc n) = count p n + (if p n then 1 else 0)

pub count-le : (p : ℕ → Bool) (n : ℕ) → count p n ≤ n
unfolding count
count-le p zero = omega arith
count-le p (suc n) = ground (arith, count-le p n)

count_same : (p q : ℕ → Bool) (n : ℕ) → ((g : ℕ) → g < n → q g ≡ p g) → count q n ≡ count p n
unfolding count
count_same p q zero h = refl
count_same p q (suc n) h = rw (h n (omega arith), count_same p q n (λ g l. h g (omega arith)))

pub count_all : (p : ℕ → Bool) (n : ℕ) → ((g : ℕ) → g < n → p g ≡ true) → count p n ≡ n
unfolding count
count_all p zero h = refl
count_all p (suc n) h =
    rw (h n (omega arith), count_all p n (λ g l. h g (omega arith))) (omega arith)

-- One more number passes.
count_add :
    (p q : ℕ → Bool) (f n : ℕ)
    → f < n
    → p f ≡ false
    → ((g : ℕ) → q g ≡ (if f == g then true else p g))
    → count q n ≡ count p n + 1
unfolding count
count_add p q f zero l e h = absurd (omega arith)
count_add p q f (suc n) l e h = elim (Bool-cases (f == n)) [
  | inl at ↦
      let same =
        count_same p q n (λ g lt. let ne : (f == g) ≡ false = ground arith in rw (h g, ne)) in
      let last : p n ≡ false = ground arith in rw (same, h n, at, last) (omega arith)
  | inr away ↦ let rest = count_add p q f n (ground arith) e h in rw (rest, h n, away) (omega arith)
]

pub record Inv (p : Pfa) : Type 0 where
  pub words : AllWords p.bitmap
  pub covered : p.total_frames ≤ 32 * length p.bitmap
  pub counted : p.used_frames ≡ count (frame_used p.bitmap) p.total_frames
  pub small : p.total_frames < u64

-- `q` is `p` with frame `f` taken.
pub record Takes (p : Pfa) (f : ℕ) (q : Pfa) : Type 0 where
  pub inside : f < p.total_frames
  pub was_free : frame_used p.bitmap f ≡ false
  pub total : q.total_frames ≡ p.total_frames
  pub one_more : q.used_frames ≡ p.used_frames + 1
  pub used : (g : ℕ) → frame_used q.bitmap g ≡ (if f == g then true else frame_used p.bitmap g)
  pub inv : Inv q

-- What `pfa_mark_used` and `pfa_alloc_frame` do to a free frame.
abbrev take_frame : ℕ → Pfa → Pfa
take_frame f p = record p { bitmap = set_frame p.bitmap f; used_frames = (p.used_frames + 1) % u64 }

take_frame-Takes :
    (p : Pfa) (f : ℕ)
    → Inv p
    → f < p.total_frames
    → frame_used p.bitmap f ≡ false
    → Takes p f (take_frame f p)
take_frame-Takes p f inv l e =
    let used = λ (g : ℕ). frame_used-set_frame p.bitmap f g (omega (arith, inv.covered)) in
    let more =
      count_add (frame_used p.bitmap) (frame_used (set_frame p.bitmap f)) f p.total_frames l e
        used in
    let room = count-le (frame_used (set_frame p.bitmap f)) p.total_frames in
    let step : (p.used_frames + 1) % u64 ≡ p.used_frames + 1 =
      omega (arith, inv.small, inv.counted) in
    record {
      inside = l;
      was_free = e;
      total = refl;
      one_more = step;
      used = used;
      inv = record {
        words = AllWords-set_frame p.bitmap f inv.words;
        covered = rw (length-set_frame p.bitmap f) inv.covered;
        counted = omega (arith, step, inv.counted);
        small = inv.small;
      };
    }

-- `pfa_alloc_frame`. Either it returns the null pointer, changes nothing, and all frames of the memory are in use;
-- or it returns the address of a frame that was free, the lowest one, and takes that frame alone. The count of
-- used frames stays exact.
pub pfa_alloc_frame_lem :
    (p : Pfa)
    → Inv p
    → ((pfa_alloc_frame p ≡ (p, 0)) × ((g : ℕ) → g < p.total_frames → frame_used p.bitmap g ≡ true))
      ⊎ ((f : ℕ) × ((pfa_alloc_frame p).1 ≡ f * page_size)
          × Takes p f (pfa_alloc_frame p).0
          × ((g : ℕ) → g < f → frame_used p.bitmap g ≡ true))
unfolding pfa_alloc_frame
pfa_alloc_frame_lem p inv = elim (alloc_from_lem p.total_frames 0 p.bitmap inv.words) [
  | inl (e, all) ↦
      inl (rw (e, pfa_alloc_frame), λ g l. all g (omega (arith, inv.covered)) (omega arith))
  | inr ((f, bits), e, found) ↦
      let at : f ≡ found.at = omega (arith, found.frame) in
      let free = rw (← at) at found.was_free in
      let taken = take_frame-Takes p f inv found.below free in
      let words : bits ≡ set_frame p.bitmap f = rw at found.words in
      inr (f, rw (e, pfa_alloc_frame), rw (e, pfa_alloc_frame, words) taken, rw at found.first)
]

-- Whether the frame `g` is among the `n` frames from `f` on.
abbrev pub among : ℕ → ℕ → ℕ → Bool
among f n g = leb f g && ltb g (f + n)

-- `q` is `p` with the frames of the memory that pass the test taken.
pub record Marks (p : Pfa) (test : ℕ → Bool) (q : Pfa) : Type 0 where
  pub total : q.total_frames ≡ p.total_frames
  pub used :
      (g : ℕ) → g < p.total_frames → frame_used q.bitmap g ≡ (test g || frame_used p.bitmap g)
  pub inv : Inv q

or_absorb : (a b : Bool) → (a ≡ true → b ≡ true) → b ≡ (a || b)
or_absorb true b h = h refl
or_absorb false b h = refl

mark_frame-Marks : (p : Pfa) (f : ℕ) → Inv p → Marks p (λ g. f == g) (mark_frame f p)
unfolding mark_frame
mark_frame-Marks p f inv = elim (Bool-cases (ltb f p.total_frames)) [
  | inl inside ↦ elim (Bool-cases (frame_used p.bitmap f)) [
    | inl taken ↦
        rw (inside, taken)
          (record {
            total = refl;
            used = λ g l.
                or_absorb (f == g) (frame_used p.bitmap g)
                  (λ h. let e : f ≡ g = ground arith in rw (← e) taken);
            inv = inv;
          })
    | inr free ↦
        let t = take_frame-Takes p f inv (ground arith) free in
        rw (inside, free)
          (record { total = refl; used = λ g l. rw (t.used g) (ground arith); inv = t.inv })
  ]
  | inr outside ↦ rw outside (record { total = refl; used = λ g l. ground arith; inv = inv })
]

mark_frames-Marks : (n f : ℕ) (p : Pfa) → Inv p → Marks p (among f n) (mark_frames n f p)
unfolding mark_frames
mark_frames-Marks zero f p inv = record { total = refl; used = λ g l. ground arith; inv = inv }
mark_frames-Marks (suc n) f p inv =
    let one = mark_frame-Marks p f inv in
    let rest = mark_frames-Marks n (f + 1) (mark_frame f p) one.inv in
    record {
      total = rest.total ∙ one.total;
      used = λ g l. rw (rest.used g (omega (arith, one.total)), one.used g l) (ground arith);
      inv = rest.inv;
    }

-- `pfa_mark_used` takes the frames of the region that lie in the memory, and no other, and the count of used
-- frames stays exact, whichever of them were in use before.
pub pfa_mark_used_lem :
    (p : Pfa) (frame_start n : ℕ)
    → Inv p
    → Marks p (among (frame_start / page_size) n) (pfa_mark_used frame_start n p)
unfolding pfa_mark_used
pfa_mark_used_lem p frame_start n inv = mark_frames-Marks n (frame_start / page_size) p inv

pub clear_frame-Inv :
    (p : Pfa) (f : ℕ)
    → Inv p
    → f < p.total_frames
    → frame_used p.bitmap f ≡ true
    → (p.used_frames ≡ (p.used_frames + u64 - 1) % u64 + 1)
      × Inv (record p {
        bitmap = clear_frame p.bitmap f;
        used_frames = (p.used_frames + u64 - 1) % u64;
      })
clear_frame-Inv p f inv l e =
    let after = frame_used (clear_frame p.bitmap f) in
    let cleared = λ (g : ℕ). frame_used-clear_frame p.bitmap f g (omega (arith, inv.covered)) in
    let gone : after f ≡ false = let at : (f == f) ≡ true = ground arith in rw (cleared f, at) in
    let back : (g : ℕ) → frame_used p.bitmap g ≡ (if f == g then true else after g) = λ g.
      elim (Bool-cases (f == g)) [
        | inl same ↦ let at : f ≡ g = ground arith in rw (same, ← at) e
        | inr other ↦ rw (other, cleared g, other)
      ] in
    let fewer = count_add after (frame_used p.bitmap) f p.total_frames l gone back in
    let room = count-le (frame_used p.bitmap) p.total_frames in
    let step : p.used_frames ≡ (p.used_frames + u64 - 1) % u64 + 1 =
      omega (arith, inv.small, inv.counted) in
    (
      step,
      record {
        words = AllWords-clear_frame p.bitmap f inv.words;
        covered = rw (length-clear_frame p.bitmap f) inv.covered;
        counted = omega (arith, step, inv.counted);
        small = inv.small;
      },
    )

-- `pfa_free_frame` frees the frame of its address, if that lies in the memory, and no other; the count of used
-- frames stays exact, also when the frame was free already.
pub pfa_free_frame_lem :
    (p : Pfa) (a : ℕ)
    → Inv p
    → Inv (pfa_free_frame a p)
      × ((g : ℕ)
          → g < p.total_frames
          → frame_used (pfa_free_frame a p).bitmap g
            ≡ (if a / page_size == g then false else frame_used p.bitmap g))
unfolding pfa_free_frame free_frame
pfa_free_frame_lem p a inv = elim (Bool-cases (ltb (a / page_size) p.total_frames)) [
  | inl inside ↦ elim (Bool-cases (frame_used p.bitmap (a / page_size))) [
    | inl taken ↦
        rw (inside, taken)
          (
            (clear_frame-Inv p (a / page_size) inv (ground arith) taken).1,
            λ g l. frame_used-clear_frame p.bitmap (a / page_size) g (ground (arith, inv.covered)),
          )
    | inr free ↦
        rw (inside, free)
          (
            inv,
            λ g l. elim (Bool-cases (a / page_size == g)) [
              | inl same ↦ let at : a / page_size ≡ g = ground arith in rw (same, ← at) free
              | inr other ↦ rw other
            ],
          )
  ]
  | inr outside ↦
      rw outside (inv, λ g l. let ne : (a / page_size == g) ≡ false = ground arith in rw ne)
]
