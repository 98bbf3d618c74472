-- ===== src/Paging/Fresh.antt =====
-- What a frame of `pfa_alloc_frame`, kernel/arch/x86_64/paging.cpp, is to the tables, and the page that is
-- mapped to it.
use keon_os.Base.{
  ℕ, ◌+◌, ◌*◌, ◌/◌, ◌≤◌, ◌≡◌, ◌⊎◌, inl, inr, refl, sym, ap, ◌∙◌, Bool, true, false, some, List, [],
  ◌∷◌, length, ◌==◌, Bool-cases, Option-cases, arith,
}
use mathlib.Core.Bool.{false≢true}
use mathlib.Core.Path.{subst}
use keon_os.Pfa.{Pfa, page_size, u64, frame_used, alloc_from, pfa_alloc_frame}
use keon_os.Paging.Prepare.{alloc_page_lem}
use keon_os.Pfa.Count.{Takes}
use keon_os.Paging.{
  Mmu, is_present, frame_of, current_pml4, upper_indices, pt_index, write_entry, alloc_page,
  descend, get_pte, paging_map_page,
}
use keon_os.Paging.Walk.{follow, follow-nil, follow_local, leaf-same, clear}
use keon_os.Paging.Descent.{Sound}
use keon_os.Paging.Translate.{entry, target}
use keon_os.Paging.Indices.{three_indices}
use keon_os.Paging.Store.{gives, gives-target, same_root}

-- No frame is free.
abbrev pub Exhausted : Mmu → Type 0
Exhausted m = pfa_alloc_frame m.pfa ≡ (m.pfa, 0)

-- All frames lie below 2^64.
abbrev pub Small : Mmu → Type 0
Small m = m.pfa.total_frames * page_size ≤ u64

-- What `pfa_alloc_frame` keeps of the allocator, the walk of `get_pte` keeps, and `paging_map_page`.
module _ (P : Pfa → Type 0) (step : (p : Pfa) → P p → P (pfa_alloc_frame p).0) where
  alloc_page-keeps : (m : Mmu) → P m.pfa → P (alloc_page m).0.pfa
  unfolding alloc_page
  alloc_page-keeps m h = elim (Bool-cases ((pfa_alloc_frame m.pfa).1 == 0)) [
    | inl out ↦ rw out (step m.pfa h)
    | inr got ↦ rw got (step m.pfa h)
  ]

  descend-keeps :
      (create : Bool) (flags : ℕ) (is : List ℕ) (t : ℕ) (m : Mmu)
      → P m.pfa
      → P (descend create flags is t m).0.pfa
  unfolding descend write_entry
  descend-keeps create flags [] t m h = h
  descend-keeps create flags (i ∷ is) t m h = elim (Bool-cases (is_present (m.tables t i))) [
    | inl there ↦ rw there (descend-keeps create flags is _ _ h)
    | inr gap ↦ elim (Bool-cases create) [
      | inr stops ↦ rw (gap, stops) h
      | inl makes ↦ elim (Bool-cases ((alloc_page m).1 == 0)) [
        | inl out ↦ rw (gap, makes, out) (alloc_page-keeps m h)
        | inr got ↦ rw (gap, makes, got) (descend-keeps create flags is _ _ (alloc_page-keeps m h))
      ]
    ]
  ]

  pub paging_map_page-keeps :
      (virt phys flags : ℕ) (m : Mmu) → P m.pfa → P (paging_map_page virt phys flags m).pfa
  unfolding paging_map_page get_pte write_entry
  paging_map_page-keeps virt phys flags m h =
      let d = descend true flags (upper_indices virt) (current_pml4 m) m in
      elim (Option-cases d.1) [
        | inl out ↦
            rw (paging_map_page, get_pte, out)
              (descend-keeps true flags (upper_indices virt) (current_pml4 m) m h)
        | inr (t, e) ↦
            rw (paging_map_page, get_pte, e)
              (descend-keeps true flags (upper_indices virt) (current_pml4 m) m h)
      ]

alloc-total : (p : Pfa) → (pfa_alloc_frame p).0.total_frames ≡ p.total_frames
unfolding pfa_alloc_frame
alloc-total p = elim (Option-cases (alloc_from p.total_frames 0 p.bitmap)) [
  | inl out ↦ rw (pfa_alloc_frame, out) refl
  | inr (r, e) ↦ rw (pfa_alloc_frame, e) refl
]

pub paging_map_page-Small :
    (virt phys flags : ℕ) (m : Mmu) → Small m → Small (paging_map_page virt phys flags m)
paging_map_page-Small virt phys flags m small =
    paging_map_page-keeps (λ p. p.total_frames * page_size ≤ u64)
      (λ p h. subst (λ n. n * page_size ≤ u64) (sym (alloc-total p)) h) virt phys flags m small

pub paging_map_page-Exhausted :
    (virt phys flags : ℕ) (m : Mmu) → Exhausted m → Exhausted (paging_map_page virt phys flags m)
paging_map_page-Exhausted virt phys flags m out =
    paging_map_page-keeps (λ p. pfa_alloc_frame p ≡ (p, 0))
      (λ p h. subst (λ q. pfa_alloc_frame q ≡ (q, 0)) (sym (ap (λ r. r.0) h)) h) virt phys flags m
      out

-- A frame that was free and is clear, and tables that give every address what they gave it.
pub record Fresh (m : Mmu) (r : Mmu × ℕ) : Type 0 where
  pub real : (r.1 == 0) ≡ false
  pub aligned : frame_of r.1 ≡ r.1
  pub fits : r.1 + page_size ≤ u64
  pub was_free : frame_used m.pfa.bitmap (r.1 / page_size) ≡ false
  pub sound : Sound (current_pml4 r.0) r.0
  pub small : Small r.0
  pub same : (a : ℕ) → gives r.0 a ≡ gives m a
  pub mapped_pages : r.0.mapped_pages ≡ m.mapped_pages

-- Tables of which a frame is cleared that was free.
module _ (root f : ℕ) (m m' : Mmu) (s : Sound root m) (got : Takes m.pfa f m'.pfa)
    (cleared : m'.tables ≡ clear (f * page_size) m.tables) where
  reached :
      (r : List ℕ) (u j : ℕ)
      → length r ≤ 3
      → follow r root m.tables ≡ some u
      → m'.tables u j ≡ m.tables u j
  reached r u j l at = ap (λ t. t u j) cleared ∙ elim (Bool-cases (u == f * page_size)) [
    | inr other ↦ rw other refl
    | inl hit ↦
        let number : u / page_size ≡ f = ground (arith, hit) in
        let used : frame_used m.pfa.bitmap f ≡ true = rw (sym number) (s.backed r u l at) in
        absurd (false≢true (sym got.was_free ∙ used))
  ]

  same_walk : (q : List ℕ) → length q ≤ 3 → follow q root m'.tables ≡ follow q root m.tables
  same_walk q l =
      follow_local root m.tables m'.tables
        (λ r u j short at. reached r u j (omega (arith, short)) at) [] q root
        (follow-nil root m.tables) (omega (arith, l))

  still_used : (g : ℕ) → frame_used m.pfa.bitmap g ≡ true → frame_used m'.pfa.bitmap g ≡ true
  still_used g used =
      got.used g
      ∙ elim (Bool-cases (f == g)) [ inl here ↦ rw here refl | inr there ↦ rw there used ]

  pub cleared-Sound : Sound root m'
  cleared-Sound = record {
    apart = λ p q t lp lq ep eq.
        s.apart p q t lp lq (sym (same_walk p lp) ∙ ep) (sym (same_walk q lq) ∙ eq);
    backed = λ p t l at. still_used (t / page_size) (s.backed p t l (sym (same_walk p l) ∙ at));
    pfa = got.inv;
    null = still_used 0 s.null;
  }

  pub cleared-entry : (a : ℕ) → entry a root m' ≡ entry a root m
  cleared-entry a =
      let l : length (upper_indices a) ≤ 3 = omega (arith, three_indices a) in
      leaf-same (upper_indices a) (pt_index a) root m.tables m'.tables
        (same_walk (upper_indices a) l) (λ u at. reached (upper_indices a) u (pt_index a) l at)

-- `pfa_alloc_frame` has no frame left and changes nothing, or gives a fresh one.
pub alloc_page-Fresh :
    (m : Mmu)
    → Sound (current_pml4 m) m
    → Small m
    → ((alloc_page m ≡ (m, 0)) × Exhausted m) ⊎ Fresh m (alloc_page m)
alloc_page-Fresh m s small = elim (alloc_page_lem m s.pfa s.null) [
  | inl (null, same, out) ↦ inl (ap (λ k. (k, (alloc_page m).1)) same ∙ ap (λ k. (m, k)) null, out)
  | inr (f, at, real, got, tables, cr3, mapped_pages) ↦
      let m' = (alloc_page m).0 in
      let root = current_pml4 m in
      let back = same_root m m' cr3 in
      inr (record {
        real = real;
        aligned = ap frame_of at ∙ omega arith ∙ sym at;
        fits = omega (arith, at, got.inside, small);
        was_free =
            ap (λ k. frame_used m.pfa.bitmap (k / page_size)) at
            ∙ ap (frame_used m.pfa.bitmap) (omega arith)
            ∙ got.was_free;
        sound = subst (λ k. Sound k m') (sym back) (cleared-Sound root f m m' s got tables);
        small = subst (λ n. n * page_size ≤ u64) (sym got.total) small;
        same = λ a.
            gives-target root a m' back
            ∙ ap (λ e. target e a) (cleared-entry root f m m' s got tables a)
            ∙ sym (gives-target root a m refl);
        mapped_pages = mapped_pages;
      })
]

pub alloc_page-Exhausted : (m : Mmu) → Exhausted m → alloc_page m ≡ (m, 0)
unfolding alloc_page
alloc_page-Exhausted m out = rw (alloc_page, out) refl
