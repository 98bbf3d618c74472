-- ===== src/Paging/Extend.antt =====
-- Pages in a row that get new frames, by `pfa_alloc_frame` and `paging_map_page` of
-- kernel/arch/x86_64/paging.cpp.
use keon_os.Base.{
  ℕ, zero, suc, ◌+◌, ◌*◌, ◌%◌, ◌<◌, ◌≡◌, ◌≢◌, ◌⊎◌, inl, inr, refl, sym, ◌∙◌, Bool, true, false,
  Bool-cases, arith,
}
use mathlib.Core.Path.{subst}
use keon_os.Pfa.{page_size, u64}
use keon_os.Paging.{Mmu, frame_of, current_pml4, alloc_page, paging_map_page}
use keon_os.Paging.Descent.{Sound}
use keon_os.Paging.Indices.{same_page}
use keon_os.Paging.Store.{gives, same_root}
use keon_os.Paging.Map.{Mapped, paging_map_page_lem}
use keon_os.Paging.Fresh.{Exhausted, Small, Fresh, paging_map_page-Small}

-- The page of `a` is the page number `i` from `addr` on.
abbrev pub is_page : ℕ → ℕ → ℕ → Bool
is_page addr i a = same_page a (addr + i * page_size)

-- All `n` pages from `addr` on have a frame, and so many more are counted.
abbrev pub AllMapped : ℕ → ℕ → Mmu → Mmu → Type 0
AllMapped n addr m m' =
    ((i a : ℕ) → i < n → is_page addr i a ≡ true → gives m' a ≢ 0)
    × (m'.mapped_pages % u64 ≡ (m.mapped_pages + n) % u64)

-- The tables after `n` pages from `addr` on were to be mapped: they are sound, all that was mapped still is,
-- other pages have what they had, and the pages have frames, unless no frame is left.
pub record Extended (n addr : ℕ) (m m' : Mmu) : Type 0 where
  pub sound : Sound (current_pml4 m') m'
  pub small : Small m'
  pub keeps : (a : ℕ) → gives m a ≢ 0 → gives m' a ≢ 0
  pub outside : (a : ℕ) → ((i : ℕ) → i < n → is_page addr i a ≡ false) → gives m' a ≡ gives m a
  pub pages : Exhausted m' ⊎ AllMapped n addr m m'

pub Extended-zero :
    (addr : ℕ) (m : Mmu) → Sound (current_pml4 m) m → Small m → Extended zero addr m m
Extended-zero addr m s small = record {
  sound = s;
  small = small;
  keeps = λ a real. real;
  outside = λ a out. refl;
  pages = inr (λ i a l same. absurd (omega (arith, l)), omega arith);
}

pub map-Extended :
    (addr flags : ℕ) (m : Mmu)
    → flags < page_size
    → Fresh m (alloc_page m)
    → Extended 1 addr m (paging_map_page addr (alloc_page m).1 flags (alloc_page m).0)
map-Extended addr flags m few f =
    let (after, cr3, moved) = paging_map_page_lem addr frame flags old below few f.sound in
    record {
      sound = subst (λ root. Sound root new) (sym (same_root old new cr3)) after;
      small = paging_map_page-Small addr frame flags old f.small;
      keeps = λ a real. kept a real moved;
      outside = λ a out. others a (first a out) moved;
      pages = mapped moved;
    }
  where
    old : Mmu
    old = (alloc_page m).0

    frame : ℕ
    frame = (alloc_page m).1

    new : Mmu
    new = paging_map_page addr frame flags old

    below : frame < u64
    below = omega (arith, f.fits)

    first : (a : ℕ) → ((i : ℕ) → i < 1 → is_page addr i a ≡ false) → same_page a addr ≡ false
    first a out = subst (λ k. same_page a k ≡ false) (omega arith) (out 0 (omega arith))

    in_frame : (a : ℕ) → (frame_of frame + a % page_size) % u64 ≢ 0
    in_frame a z =
        let real : frame ≢ 0 = ground (arith, f.real) in
        absurd (real (omega (arith, z, f.fits, f.aligned)))

    kept : (a : ℕ) → gives m a ≢ 0 → Mapped addr frame old new → gives new a ≢ 0
    kept a real (inl (out, same, count)) z = real (sym (f.same a) ∙ sym (same a) ∙ z)
    kept a real (inr (moves, count)) z = elim (Bool-cases (same_page a addr)) [
      | inl here ↦ in_frame a (sym (rw here refl) ∙ sym (moves a) ∙ z)
      | inr there ↦ real (sym (f.same a) ∙ sym (rw there refl) ∙ sym (moves a) ∙ z)
    ]

    others :
        (a : ℕ) → same_page a addr ≡ false → Mapped addr frame old new → gives new a ≡ gives m a
    others a out (inl (_, same, count)) = same a ∙ f.same a
    others a out (inr (moves, count)) = moves a ∙ rw out (f.same a)

    mapped : Mapped addr frame old new → Exhausted new ⊎ AllMapped 1 addr m new
    mapped (inl (out, same, count)) = inl out
    mapped (inr (moves, count)) = inr (
      λ i a l here z.
          let start : same_page a addr ≡ true =
            subst (λ k. same_page a k ≡ true) (omega (arith, l)) here in
          in_frame a (sym (rw start refl) ∙ sym (moves a) ∙ z),
      omega (arith, count, f.mapped_pages),
    )

-- One page and then those behind it.
pub Extended-suc :
    (n addr : ℕ) (m m' m'' : Mmu)
    → Extended 1 addr m m'
    → Extended n (addr + page_size) m' m''
    → (Exhausted m' → Exhausted m'')
    → Extended (suc n) addr m m''
Extended-suc n addr m m' m'' first rest out = record {
  sound = rest.sound;
  small = rest.small;
  keeps = λ a real. rest.keeps a (first.keeps a real);
  outside = λ a outside.
      rest.outside a (λ i l.
        subst (λ k. same_page a k ≡ false) (omega arith) (outside (suc i) (omega (arith, l))))
      ∙ first.outside a
          (λ i l. subst (λ k. same_page a k ≡ false) (omega (arith, l)) (outside 0 (omega arith)));
  pages = both first.pages rest.pages;
}
  where
    both :
        Exhausted m' ⊎ AllMapped 1 addr m m'
        → Exhausted m'' ⊎ AllMapped n (addr + page_size) m' m''
        → Exhausted m'' ⊎ AllMapped (suc n) addr m m''
    both (inl none_left) later = inl (out none_left)
    both (inr here) (inl none_left) = inl none_left
    both (inr (here, count)) (inr (later, more)) =
        inr (pages here later, omega (arith, count, more))
      where
        pages :
            ((i a : ℕ) → i < 1 → is_page addr i a ≡ true → gives m' a ≢ 0)
            → ((i a : ℕ) → i < n → is_page (addr + page_size) i a ≡ true → gives m'' a ≢ 0)
            → (i a : ℕ) → i < suc n
            → is_page addr i a ≡ true
            → gives m'' a ≢ 0
        pages here later zero a l same = rest.keeps a (here 0 a (omega arith) same)
        pages here later (suc i) a l same =
            later i a (omega (arith, l)) (subst (λ k. same_page a k ≡ true) (omega arith) same)
