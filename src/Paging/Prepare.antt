-- ===== src/Paging/Prepare.antt =====
-- The loop of `get_pte` of kernel/arch/x86_64/paging.cpp with `create` set.
use keon_os.Base.{
  ℕ, ◌+◌, ◌*◌, ◌<◌, ◌≡◌, ◌≢◌, ◌⊎◌, inl, inr, refl, sym, ap, ◌∙◌, true, false, Option, none, some,
  List, [], ◌∷◌, ◌++◌, length, ◌==◌, Bool-cases, arith, length-append,
}
use mathlib.Core.Bool.{false≢true}
use mathlib.Core.List.{append_assoc, append-nil}
use mathlib.Core.Path.{subst}
use keon_os.Pfa.{page_size, frame_used, pfa_alloc_frame}
use keon_os.Pfa.Count.{Inv, Takes, pfa_alloc_frame_lem}
use keon_os.Paging.{Mmu, is_present, frame_of, widen, table_entry, write_entry, alloc_page, descend}
use keon_os.Paging.Walk.{follow, follow-snoc, clear}
use keon_os.Paging.Descent.{
  Sound, Kept, Kept-trans, widened, widened-Kept, widen_walk, widen-frame_of, joined, joined-Kept,
  joined-at, table_entry_lem,
}

-- What `alloc_page` returns: `nullptr` and the old state, when no frame is free, or a
-- cleared frame that was free.
abbrev pub Allocated : Mmu → Mmu × ℕ → Type 0
Allocated m r =
    ((r.1 ≡ 0) × (r.0 ≡ m) × (pfa_alloc_frame m.pfa ≡ (m.pfa, 0)))
    ⊎ ((f : ℕ) × (r.1 ≡ f * page_size)
        × ((r.1 == 0) ≡ false)
        × Takes m.pfa f r.0.pfa
        × (r.0.tables ≡ clear (f * page_size) m.tables)
        × (r.0.cr3 ≡ m.cr3)
        × (r.0.mapped_pages ≡ m.mapped_pages))

pub alloc_page_lem :
    (m : Mmu) → Inv m.pfa → frame_used m.pfa.bitmap 0 ≡ true → Allocated m (alloc_page m)
unfolding alloc_page
alloc_page_lem m inv null = elim (pfa_alloc_frame_lem m.pfa inv) [
  | inl (out, _) ↦ rw out (inl (refl, refl, refl))
  | inr (f, address, got, _) ↦
      let free = got.was_free in
      let not_null : f ≢ 0 =
        (λ same. absurd (false≢true (sym free ∙ ap (frame_used m.pfa.bitmap) same ∙ null))) in
      let some_page : (f * page_size == 0) ≡ false = ground (arith, not_null) in
      rw (address, some_page) (inr (f, refl, some_page, got, refl, refl, refl))
]

descend-known :
    (flags i : ℕ) (is : List ℕ) (t : ℕ) (m : Mmu)
    → is_present (m.tables t i) ≡ true
    → descend true flags (i ∷ is) t m
      ≡ descend true flags is
          (frame_of (widen flags (m.tables t i)))
          (write_entry t i (widen flags (m.tables t i)) m)
unfolding descend
descend-known flags i is t m there = rw there refl

descend-fresh :
    (flags i : ℕ) (is : List ℕ) (t : ℕ) (m : Mmu)
    → is_present (m.tables t i) ≡ false
    → ((alloc_page m).1 == 0) ≡ false
    → descend true flags (i ∷ is) t m
      ≡ descend true flags is
          (frame_of (table_entry flags (alloc_page m).1))
          (write_entry t i (table_entry flags (alloc_page m).1) (alloc_page m).0)
unfolding descend
descend-fresh flags i is t m gap page = rw (gap, page) refl

descend-out :
    (flags i : ℕ) (is : List ℕ) (t : ℕ) (m : Mmu)
    → is_present (m.tables t i) ≡ false
    → ((alloc_page m).1 == 0) ≡ true
    → descend true flags (i ∷ is) t m ≡ ((alloc_page m).0, none)
unfolding descend
descend-out flags i is t m gap out = rw (gap, out) refl

-- The state keeps all last entries. Either the path leads to the table that is returned; or none is
-- returned, since no frame is left.
abbrev pub Prepared : ℕ → List ℕ → Mmu → Mmu × Option ℕ → Type 0
Prepared root path m r =
    Kept root m r.0
    × (((r.1 ≡ none) × (pfa_alloc_frame r.0.pfa ≡ (r.0.pfa, 0)))
        ⊎ ((u : ℕ) × (r.1 ≡ some u) × (follow path root r.0.tables ≡ some u)))

Prepared-trans :
    (root : ℕ) (path : List ℕ) (a b : Mmu) (r : Mmu × Option ℕ)
    → Kept root a b
    → Prepared root path b r
    → Prepared root path a r
Prepared-trans root path a b r ab (br, got) = (Kept-trans root a b r.0 ab br, got)

pub Kept-refl : (root : ℕ) (m : Mmu) → Sound root m → Kept root m m
Kept-refl root m s = record { sound = s; leaves = λ q j l. refl; cr3 = refl; mapped_pages = refl }

-- One round of the loop, once the state `m'` after it is known.
Prepared-step :
    (flags root t' i : ℕ) (p is : List ℕ) (m m' : Mmu) (r : Mmu × Option ℕ)
    → r ≡ descend true flags is t' m'
    → Kept root m m'
    → Prepared root ((p ++ i ∷ []) ++ is) m' (descend true flags is t' m')
    → Prepared root (p ++ i ∷ is) m r
Prepared-step flags root t' i p is m m' r call kept rest =
    subst (λ k. Prepared root k m r) (append_assoc p (i ∷ []) is)
      (subst (Prepared root ((p ++ i ∷ []) ++ is) m) (sym call)
        (Prepared-trans root ((p ++ i ∷ []) ++ is) m m' (descend true flags is t' m') kept rest))

pub descend_lem :
    (flags root t : ℕ) (p is : List ℕ) (m : Mmu)
    → Sound root m
    → follow p root m.tables ≡ some t
    → length p + length is ≡ 3
    → Prepared root (p ++ is) m (descend true flags is t m)
descend_lem flags root t p [] m s at l =
    unfold descend in
    (Kept-refl root m s, inr (t, refl, ap (λ k. follow k root m.tables) (append-nil p) ∙ at))
descend_lem flags root t p (i ∷ is) m s at l =
    let more = length-append p (i ∷ []) in
    elim (Bool-cases (is_present (m.tables t i))) [
      | inl there ↦
          let old = m.tables t i in
          let m' = widened flags root t i p m s at (omega (arith, l)) in
          let kept = widened-Kept flags root t i p m s at (omega (arith, l)) in
          let next : follow (p ++ i ∷ []) root m'.tables ≡ some (frame_of (widen flags old)) =
            widen_walk flags root t i p m s at (omega (arith, l)) (p ++ i ∷ [])
            ∙ follow-snoc p i root t m.tables at there
            ∙ ap (λ k. some k) (sym (widen-frame_of flags old)) in
          Prepared-step flags root (frame_of (widen flags old)) i p is m m'
            (descend true flags (i ∷ is) t m) (descend-known flags i is t m there) kept
            (descend_lem flags root (frame_of (widen flags old)) (p ++ i ∷ []) is m' kept.sound next
              (omega (arith, l, more)))
      | inr gap ↦ elim (alloc_page_lem m s.pfa s.null) [
        | inl (null, same, out) ↦
            let no_page : ((alloc_page m).1 == 0) ≡ true = ground (arith, null) in
            subst (Prepared root (p ++ i ∷ is) m) (sym (descend-out flags i is t m gap no_page)) (
              subst (λ (k : Mmu). Prepared root (p ++ i ∷ is) m (k, none)) (sym same)
                (Kept-refl root m s, inl (refl, out)))
        | inr (f, address, page, got, cleared, cr3, count) ↦
            let a = (alloc_page m).0 in
            let short : length p < 3 = omega (arith, l) in
            let m' = joined flags root t i f p m a s at short gap got cleared cr3 count in
            let kept = joined-Kept flags root t i f p m a s at short gap got cleared cr3 count in
            let call =
              descend-fresh flags i is t m gap page
              ∙ ap
                  (λ k.
                    descend true flags is (frame_of (table_entry flags k))
                      (write_entry t i (table_entry flags k) a))
                  address
              ∙ ap (λ k. descend true flags is k m') (table_entry_lem flags f).1 in
            Prepared-step flags root (f * page_size) i p is m m' (descend true flags (i ∷ is) t m)
              call kept
              (descend_lem flags root (f * page_size) (p ++ i ∷ []) is m' kept.sound
                (joined-at flags root t i f p m a s at short gap got cleared cr3 count)
                (omega (arith, l, more)))
      ]
    ]
