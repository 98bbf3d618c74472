-- ===== src/Pfa/Multiboot/Init.antt =====
-- The allocator after `pfa_init_from_multiboot2`.
use keon_os.Base.{
  ℕ, zero, suc, ◌+◌, ◌-◌, ◌*◌, ◌/◌, ◌%◌, ◌^◌, ◌≤◌, ◌<◌, ◌≡◌, refl, sym, ◌∙◌, inl, inr, Bool, true,
  false, not, ◌||◌, List, [], ◌∷◌, arith, ltb, ◌==◌, if◌then◌else◌, length, get_or, replicate,
  Bool-cases, test_bit_ones,
}
use mathlib.Core.Bool.{false≢true}
use mathlib.Core.Path.{subst}
use keon_os.Pfa.{Pfa, u64, page_size, full_word, frame_used}
use keon_os.Pfa.Bitmap.{AllWords, length-clear_frame, frame_used-clear_frame}
use keon_os.Pfa.Count.{Inv, Marks, among, count_all, clear_frame-Inv, pfa_mark_used_lem}
use keon_os.Pfa.Multiboot.{
  Entry, Tag, mmap, mod_tag, other, available, entry_end, upper, first_page, last_page,
  clear_frames, clear_entries, mark_modules, all_used, mark_reserved, pfa_init_from_multiboot2,
  kernel_virt_offset,
}

lt_of_eq : {g m n : ℕ} → n ≡ m → g < m → g < n
lt_of_eq e l = omega arith

length-replicate : (n w : ℕ) → length (replicate n w) ≡ n
length-replicate zero w = refl
length-replicate (suc n) w = omega (arith, length-replicate n w)

get_or-replicate : (n w i : ℕ) → i < n → get_or (replicate n w) i 0 ≡ w
get_or-replicate zero w i h = absurd (omega arith)
get_or-replicate (suc n) w zero h = refl
get_or-replicate (suc n) w (suc i) h = get_or-replicate n w i (omega arith)

AllWords-replicate : (n : ℕ) → AllWords (replicate n full_word)
AllWords-replicate zero = tt
AllWords-replicate (suc n) = (omega arith, AllWords-replicate n)

all_used-used : (total g : ℕ) → g < total → frame_used (all_used total).bitmap g ≡ true
unfolding frame_used all_used
all_used-used total g h =
    rw (get_or-replicate (total / 32 + 1) full_word (g / 32) (omega arith))
      (test_bit_ones 32 (g % 32) full_word refl (omega arith))

all_used-Inv : (total : ℕ) → total < u64 → Inv (all_used total)
all_used-Inv total h = record {
  words = unfold all_used in AllWords-replicate (total / 32 + 1);
  covered = unfold all_used in omega (arith, length-replicate (total / 32 + 1) full_word);
  counted =
      unfold all_used in
      sym (
        count_all (frame_used (replicate (total / 32 + 1) full_word)) total
          (λ g l. all_used-used total g l));
  small = unfold all_used in h;
}

-- `q` is `p` with the frames that pass the test freed.
pub record Clears (p : Pfa) (test : ℕ → Bool) (q : Pfa) : Type 0 where
  pub total : q.total_frames ≡ p.total_frames
  pub used :
      (g : ℕ)
      → g < p.total_frames
      → frame_used q.bitmap g ≡ (if test g then false else frame_used p.bitmap g)
  pub inv : Inv q

clear_frames-Clears :
    (n f : ℕ) (p : Pfa)
    → Inv p
    → ((g : ℕ) → among f n g ≡ true → g < p.total_frames)
    → ((g : ℕ) → among f n g ≡ true → frame_used p.bitmap g ≡ true)
    → Clears p (among f n) (clear_frames n f p)
unfolding clear_frames
clear_frames-Clears zero f p inv inside taken = record {
  total = refl;
  used = λ g l. ground arith;
  inv = inv;
}
clear_frames-Clears (suc n) f p inv inside taken =
    let at : among f (suc n) f ≡ true = ground arith in
    let low = inside f at in
    let cleared = λ (g : ℕ). frame_used-clear_frame p.bitmap f g (omega (arith, inv.covered)) in
    let one = clear_frame-Inv p f inv low (taken f at) in
    let rest =
      clear_frames-Clears n (f + 1) _ one.1
        (λ g h. let later : among f (suc n) g ≡ true = ground arith in inside g later)
        (λ g h.
          let ne : (f == g) ≡ false = ground arith in
          let later : among f (suc n) g ≡ true = ground arith in
          rw (cleared g, ne) (taken g later)) in
    record {
      total = rest.total;
      used = λ g l. rw (rest.used g l, cleared g) (ground arith);
      inv = rest.inv;
    }

-- Whether a frame lies in the pages of one of the entries.
unfoldable pub in_ranges : List Entry → ℕ → Bool
in_ranges [] g = false
in_ranges (e ∷ es) g = among (first_page e) (last_page e - first_page e) g || in_ranges es g

-- No page lies in two of the entries.
abbrev pub Disjoint : List Entry → Type 0
Disjoint [] = Unit {0}
Disjoint (e ∷ es) =
    ((g : ℕ) → among (first_page e) (last_page e - first_page e) g ≡ true → in_ranges es g ≡ false)
    × Disjoint es

-- All entries end below `m`.
abbrev Below : ℕ → List Entry → Type 0
Below m [] = Unit {0}
Below m (e ∷ es) = (entry_end e ≤ m) × Below m es

last_page-le : (m : ℕ) (e : Entry) → entry_end e ≤ m * page_size + 4095 → last_page e ≤ m
unfolding last_page
last_page-le m e h = omega arith

clear_entries-Clears :
    (es : List Entry) (p : Pfa)
    → Inv p
    → Below (p.total_frames * page_size + 4095) es
    → Disjoint es
    → ((g : ℕ) → in_ranges es g ≡ true → g < p.total_frames → frame_used p.bitmap g ≡ true)
    → Clears p (in_ranges es) (clear_entries es p)
unfolding clear_entries in_ranges
clear_entries-Clears [] p inv below apart taken = record {
  total = refl;
  used = λ g l. refl;
  inv = inv;
}
clear_entries-Clears (e ∷ es) p inv below apart taken =
    let n = last_page e - first_page e in
    let f = first_page e in
    let top = last_page-le p.total_frames e below.0 in
    let inside : (g : ℕ) → among f n g ≡ true → g < p.total_frames = λ g h. ground arith in
    let one = clear_frames-Clears n f p inv inside (λ g h. taken g (rw h) (inside g h)) in
    let still : (g : ℕ)
        → in_ranges es g ≡ true
        → g < (clear_frames n f p).total_frames
        → frame_used (clear_frames n f p).bitmap g ≡ true =
      λ g h l.
        let l' : g < p.total_frames = omega (arith, one.total) in
        elim (Bool-cases (among f n g)) [
          | inl hit ↦ absurd (false≢true (sym (apart.0 g hit) ∙ h))
          | inr miss ↦ rw (one.used g l', miss) (taken g (rw (miss, h)) l')
        ] in
    let rest =
      clear_entries-Clears es (clear_frames n f p) one.inv (rw one.total below.1) apart.1 still in
    record {
      total = rest.total ∙ one.total;
      used = λ g l. rw (rest.used g (omega (arith, one.total)), one.used g l) (ground arith);
      inv = rest.inv;
    }

upper-ge : (m : ℕ) (es : List Entry) → m ≤ upper m es
unfolding upper
upper-ge m [] = omega arith
upper-ge m (e ∷ es) = elim (Bool-cases (ltb m (entry_end e))) [
  | inl more ↦ rw more (ground (arith, upper-ge (entry_end e) es))
  | inr less ↦ rw less (upper-ge m es)
]

upper_more :
    (m : ℕ) (e : Entry) (es : List Entry)
    → ltb m (entry_end e) ≡ true
    → upper m (e ∷ es) ≡ upper (entry_end e) es
unfolding upper
upper_more m e es h = rw h

upper_less :
    (m : ℕ) (e : Entry) (es : List Entry)
    → ltb m (entry_end e) ≡ false
    → upper m (e ∷ es) ≡ upper m es
unfolding upper
upper_less m e es h = rw h

upper-Below : (m : ℕ) (es : List Entry) → Below (upper m es) es
upper-Below m [] = tt
upper-Below m (e ∷ es) = elim (Bool-cases (ltb m (entry_end e))) [
  | inl more ↦
      subst (λ k. Below k (e ∷ es)) (sym (upper_more m e es more))
        (upper-ge (entry_end e) es, upper-Below (entry_end e) es)
  | inr less ↦
      subst (λ k. Below k (e ∷ es)) (sym (upper_less m e es less))
        (ground (arith, upper-ge m es), upper-Below m es)
]

entry_end-lt : (e : Entry) → entry_end e < u64
unfolding entry_end
entry_end-lt e = omega arith

upper-lt : (m : ℕ) (es : List Entry) → m < u64 → upper m es < u64
upper-lt m [] h = unfold upper in h
upper-lt m (e ∷ es) h = elim (Bool-cases (ltb m (entry_end e))) [
  | inl more ↦ rw (upper_more m e es more) (upper-lt (entry_end e) es (entry_end-lt e))
  | inr less ↦ rw (upper_less m e es less) (upper-lt m es h)
]

Below-mono : (m n : ℕ) (es : List Entry) → m ≤ n → Below m es → Below n es
Below-mono m n [] h b = tt
Below-mono m n (e ∷ es) h b = (omega arith, Below-mono m n es h b.1)

Marks-trans :
    (p q r : Pfa) (s t : ℕ → Bool) → Marks p s q → Marks q t r → Marks p (λ g. t g || s g) r
Marks-trans p q r s t m n = record {
  total = n.total ∙ m.total;
  used = λ g l. rw (n.used g (omega (arith, m.total)), m.used g l) (ground arith);
  inv = n.inv;
}

-- Whether a frame lies in a boot module.
pub in_modules : List Tag → ℕ → Bool
in_modules [] g = false
in_modules (mmap es ∷ ts) g = in_modules ts g
in_modules (mod_tag start end ∷ ts) g =
    in_modules ts g
    || among (start / page_size) (((end + 2 ^ 32 - start) % 2 ^ 32 + 4095) % 2 ^ 32 / 4096) g
in_modules (other ∷ ts) g = in_modules ts g

mark_modules-Marks : (ts : List Tag) (p : Pfa) → Inv p → Marks p (in_modules ts) (mark_modules ts p)
unfolding mark_modules in_modules
mark_modules-Marks [] p inv = record { total = refl; used = λ g l. refl; inv = inv }
mark_modules-Marks (mmap es ∷ ts) p inv = mark_modules-Marks ts p inv
mark_modules-Marks (mod_tag start end ∷ ts) p inv =
    let one =
      pfa_mark_used_lem p start (((end + 2 ^ 32 - start) % 2 ^ 32 + 4095) % 2 ^ 32 / 4096) inv in
    Marks-trans p _ _ _ _ one (mark_modules-Marks ts _ one.inv)
mark_modules-Marks (other ∷ ts) p inv = mark_modules-Marks ts p inv

-- Whether a frame is one of the low megabyte, the kernel, the bitmap of `words` words behind it, or the boot
-- loader's tags.
pub in_reserved : ℕ → ℕ → ℕ → ℕ → ℕ → Bool
in_reserved mb2_ptr start end words g =
    among ((mb2_ptr + u64 - kernel_virt_offset) % u64 / page_size) 64 g
    || (among ((end + 0x1000) / page_size) (words * 4 / page_size + 1) g
        || (among (start / page_size) ((end + u64 - start) % u64 / page_size + 2) g
            || among (0 / page_size) 256 g))

mark_reserved-Marks :
    (mb2_ptr start end : ℕ) (p : Pfa)
    → Inv p
    → Marks p (in_reserved mb2_ptr start end (length p.bitmap)) (mark_reserved mb2_ptr start end p)
unfolding mark_reserved in_reserved
mark_reserved-Marks mb2_ptr start end p inv =
    let words = length p.bitmap in
    let m1 = pfa_mark_used_lem p 0 256 inv in
    let m2 = pfa_mark_used_lem _ start ((end + u64 - start) % u64 / page_size + 2) m1.inv in
    let m3 = pfa_mark_used_lem _ (end + 0x1000) (words * 4 / page_size + 1) m2.inv in
    let m4 = pfa_mark_used_lem _ ((mb2_ptr + u64 - kernel_virt_offset) % u64) 64 m3.inv in
    Marks-trans p _ _ _ _ (Marks-trans p _ _ _ _ (Marks-trans p _ _ _ _ m1 m2) m3) m4

length-clear_frames : (n f : ℕ) (p : Pfa) → length (clear_frames n f p).bitmap ≡ length p.bitmap
unfolding clear_frames
length-clear_frames zero f p = refl
length-clear_frames (suc n) f p = length-clear_frames n (f + 1) _ ∙ length-clear_frame p.bitmap f

length-clear_entries :
    (es : List Entry) (p : Pfa) → length (clear_entries es p).bitmap ≡ length p.bitmap
unfolding clear_entries
length-clear_entries [] p = refl
length-clear_entries (e ∷ es) p =
    length-clear_entries es _ ∙ length-clear_frames (last_page e - first_page e) (first_page e) p

length-all_used : (total : ℕ) → length (all_used total).bitmap ≡ total / 32 + 1
unfolding all_used
length-all_used total = length-replicate (total / 32 + 1) full_word

all_used_total : (total : ℕ) → (all_used total).total_frames ≡ total
unfolding all_used
all_used_total total = refl

-- When no page lies in two available regions of the memory map, what `pfa_init_from_multiboot2` leaves: every word of
-- the bitmap has 32 bits, the count of used frames is exact, and a frame of the memory is in use just if it lies in no
-- available region, or in a boot module, or in the low megabyte, the kernel, the bitmap or the boot tags.
pub pfa_init_from_multiboot2_lem :
    (mb2_ptr start end : ℕ) (tags : List Tag)
    → Disjoint (available tags)
    → let total = upper 0 (available tags) / page_size in
      let p = pfa_init_from_multiboot2 mb2_ptr start end tags in
      Inv p
      × (p.total_frames ≡ total)
      × ((g : ℕ)
          → g < total
          → frame_used p.bitmap g ≡ (
              in_modules tags g
              || (in_reserved mb2_ptr start end (total / 32 + 1) g
                  || not (in_ranges (available tags) g))))
unfolding pfa_init_from_multiboot2
pfa_init_from_multiboot2_lem mb2_ptr start end tags apart =
    let es = available tags in
    let total = upper 0 es / page_size in
    let small : total < u64 = omega (arith, upper-lt 0 es (omega arith)) in
    let start_inv = all_used-Inv total small in
    let below =
      Below-mono (upper 0 es) (total * page_size + 4095) es (omega arith) (upper-Below 0 es) in
    let cleared =
      clear_entries-Clears es (all_used total) start_inv (rw (all_used_total total) below) apart
        (λ g h l. all_used-used total g (omega (arith, all_used_total total))) in
    let reserved = mark_reserved-Marks mb2_ptr start end _ cleared.inv in
    let modules = mark_modules-Marks tags _ reserved.inv in
    let words = length-clear_entries es (all_used total) ∙ length-all_used total in
    (
      modules.inv,
      modules.total ∙ reserved.total ∙ cleared.total ∙ all_used_total total,
      λ g l.
          let l0 : g < (all_used total).total_frames = omega (arith, all_used_total total) in
          let l1 = lt_of_eq cleared.total l0 in
          rw
            (
              modules.used g (lt_of_eq reserved.total l1),
              reserved.used g l1,
              cleared.used g l0,
              all_used-used total g l,
              words,
            )
            (ground arith),
    )
