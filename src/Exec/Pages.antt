-- ===== src/Exec/Pages.antt =====
-- The pages that a segment is loaded into, kernel/exec/kex_loader.cpp.
use keon_os.Base.{
  ℕ, zero, suc, ◌+◌, ◌-◌, ◌*◌, ◌/◌, ◌%◌, ◌≤◌, ◌<◌, ◌≡◌, ◌≢◌, ◌⊎◌, inl, inr, refl, sym, ap, ◌∙◌,
  Bool, true, false, ◌&&◌, List, [], ◌∷◌, length, get_or, ltb, leb, ◌==◌, if◌then◌else◌, Bool-cases,
  arith,
}
use mathlib.Core.Bool.{false≢true}
use keon_os.Paging.{Mmu, current_pml4}
use keon_os.Paging.Descent.{Sound}
use keon_os.Paging.Store.{gives}
use keon_os.Paging.Fresh.{Exhausted, Small, alloc_page-Fresh, alloc_page-Exhausted}
use keon_os.Paging.Extend.{Extended, AllMapped, is_page, Extended-zero, Extended-suc, map-Extended}
use keon_os.Pfa.{page_size}
use keon_os.Paging.{alloc_page, paging_map_page}
use keon_os.Exec.{
  World, page_down, zero_page, write_run, is_mapped, all_mapped, clear_page, user_flags, map_pages,
}

-- `a` lies in the `n` addresses from `at` on.
abbrev pub inside : ℕ → ℕ → ℕ → Bool
inside at n a = leb at a && ltb a (at + n)

pub write_run_lem :
    (bs : List ℕ) (at a : ℕ) (memory : ℕ → ℕ)
    → write_run at bs memory a
      ≡ (if inside at (length bs) a then get_or bs (a - at) 0 else memory a)
unfolding write_run
write_run_lem [] at a memory = let empty : inside at 0 a ≡ false = ground arith in rw empty refl
write_run_lem (b ∷ bs) at a memory =
    let stored : ℕ → ℕ = λ x. if x == at then b else memory x in
    write_run_lem bs (at + 1) a stored ∙ elim (Bool-cases (a == at)) [
      | inl here ↦
          let later : inside (at + 1) (length bs) a ≡ false = ground (arith, here) in
          let whole : inside at (suc (length bs)) a ≡ true = ground (arith, here) in
          let none_before : a - at ≡ 0 = ground (arith, here) in
          rw (later, here, whole, none_before) refl
      | inr other ↦ elim (Bool-cases (inside (at + 1) (length bs) a)) [
        | inl later ↦
            let whole : inside at (suc (length bs)) a ≡ true = ground (arith, later) in
            let one_less : a - at ≡ suc (a - (at + 1)) = ground (arith, later) in
            rw (later, whole, one_less) refl
        | inr out ↦
            let whole : inside at (suc (length bs)) a ≡ false = ground (arith, out, other) in
            rw (out, other, whole) refl
      ]
    ]

-- One page and the pages behind it.
joined :
    (n addr a : ℕ) (memory : ℕ → ℕ)
    → (if inside (addr + page_size) (n * page_size) a then 0 else zero_page addr memory a)
      ≡ (if inside addr (suc n * page_size) a then 0 else memory a)
joined n addr a memory = elim (Bool-cases (inside (addr + page_size) (n * page_size) a)) [
  | inl later ↦
      let whole : inside addr (suc n * page_size) a ≡ true = ground (arith, later) in
      rw (later, whole) refl
  | inr before ↦ elim (Bool-cases (leb addr a && ltb a (addr + page_size))) [
    | inl here ↦
        let whole : inside addr (suc n * page_size) a ≡ true = ground (arith, here) in
        rw (before, here, whole) refl
    | inr out ↦
        let whole : inside addr (suc n * page_size) a ≡ false = ground (arith, before, out) in
        rw (before, out, whole) refl
  ]
]

-- Each of `n` pages from `addr` on is mapped at its start.
abbrev pub Starts : ℕ → ℕ → Mmu → Type 0
Starts n addr m = (i : ℕ) → i < n → gives m (addr + i * page_size) ≢ 0

mapped-real :
    (addr : ℕ) (m : Mmu) → addr % page_size ≡ 0 → is_mapped addr m ≡ true → gives m addr ≢ 0
mapped-real addr m aligned e z =
    let start : page_down addr ≡ addr = omega (arith, aligned) in
    let none_there : gives m (page_down addr) ≡ 0 = ap (gives m) start ∙ z in
    false≢true (sym (rw none_there refl) ∙ e)

real-mapped : (a : ℕ) (m : Mmu) → gives m (page_down a) ≢ 0 → is_mapped a m ≡ true
real-mapped a m real = ground (arith, real)

pub all_mapped-Starts :
    (len start addr n : ℕ) (m : Mmu)
    → addr % page_size ≡ 0
    → addr ≤ start
    → start + len ≤ addr + n * page_size
    → Starts n addr m
    → all_mapped len start m ≡ true
unfolding all_mapped
all_mapped-Starts zero start addr n m aligned low high starts = refl
all_mapped-Starts (suc len) start addr n m aligned low high starts =
    let i = (start - addr) / page_size in
    let at : addr + i * page_size ≡ page_down start = omega (arith, aligned, low) in
    let few : i < n = omega (arith, low, high) in
    let here = real-mapped start m (λ z. starts i few (ap (gives m) at ∙ z)) in
    rw here (
      all_mapped-Starts len (start + 1) addr n m aligned (omega (arith, low)) (omega (arith, high))
        starts)

module _ {S : Type 0} where
  map_pages-Exhausted :
      (n addr : ℕ) (w : World S) → Exhausted w.mmu → Exhausted (map_pages n addr w).0.mmu
  unfolding map_pages
  map_pages-Exhausted zero addr w out = out
  map_pages-Exhausted (suc n) addr w out =
      let none_there : ((alloc_page w.mmu).1 == 0) ≡ true =
        rw (alloc_page-Exhausted w.mmu out) refl in
      rw (none_there, alloc_page-Exhausted w.mmu out) out

  map_pages-faulted :
      (n addr : ℕ) (w : World S) → w.faulted ≡ true → (map_pages n addr w).0.faulted ≡ true
  unfolding map_pages clear_page
  map_pages-faulted zero addr w e = e
  map_pages-faulted (suc n) addr w e = elim (Bool-cases ((alloc_page w.mmu).1 == 0)) [
    | inl out ↦ rw out e
    | inr got ↦ rw got (
        map_pages-faulted n (addr + page_size) _ (
          still
            (record w {
              mmu = paging_map_page addr (alloc_page w.mmu).1 user_flags (alloc_page w.mmu).0;
            })
            e))
  ]
    where
      still : (v : World S) → v.faulted ≡ true → (clear_page addr v).faulted ≡ true
      still v h = elim (Bool-cases (is_mapped addr v.mmu)) [
        | inl there ↦ rw (clear_page, there) h
        | inr missing ↦ rw (clear_page, missing) refl
      ]

  -- The pages are mapped to new frames and zero, and other memory is as it was.
  abbrev pub Zeroed : ℕ → ℕ → World S → World S → Type 0
  Zeroed n addr w w' =
      (w'.faulted ≡ false)
      × Extended n addr w.mmu w'.mmu
      × Starts n addr w'.mmu
      × ((a : ℕ) → w'.memory a ≡ (if inside addr (n * page_size) a then 0 else w.memory a))

  -- No frame is left, for a page or for the tables of one, to which the kernel then writes.
  abbrev pub Failed : World S × Bool → Type 0
  Failed r = ((r.1 ≡ false) ⊎ (r.0.faulted ≡ true)) × Exhausted r.0.mmu

  pub map_pages_lem :
      (n addr : ℕ) (w : World S)
      → addr % page_size ≡ 0
      → w.faulted ≡ false
      → Sound (current_pml4 w.mmu) w.mmu
      → Small w.mmu
      → Failed (map_pages n addr w)
        ⊎ (((map_pages n addr w).1 ≡ true) × Zeroed n addr w (map_pages n addr w).0)
  unfolding map_pages clear_page
  map_pages_lem zero addr w aligned fine s small = inr (
    refl,
    (
      fine,
      Extended-zero addr w.mmu s small,
      λ i l z. omega (arith, l),
      λ a. let empty : inside addr 0 a ≡ false = ground arith in rw empty refl,
    ),
  )
  map_pages_lem (suc n) addr w aligned fine s small = elim (alloc_page-Fresh w.mmu s small) [
    | inl (none_left, out) ↦
        let null : ((alloc_page w.mmu).1 == 0) ≡ true = rw none_left refl in
        rw (null, none_left) (inl (inl refl, out))
    | inr f ↦
        let first = map-Extended addr user_flags w.mmu (omega arith) f in
        let later =
          map_pages_lem n (addr + page_size) zeroed (omega (arith, aligned)) fine first.sound
            first.small in
        rw f.real (elim (Bool-cases (is_mapped addr new)) [
          | inl there ↦ rw (clear_page, there) (behind first there later)
          | inr missing ↦
              rw (clear_page, missing)
                (inl (
                  inr (map_pages-faulted n (addr + page_size) faulting refl),
                  map_pages-Exhausted n (addr + page_size) faulting (lost missing first.pages),
                ))
        ])
  ]
    where
      new : Mmu
      new = paging_map_page addr (alloc_page w.mmu).1 user_flags (alloc_page w.mmu).0

      zeroed : World S
      zeroed = record w { mmu = new; memory = zero_page addr w.memory }

      faulting : World S
      faulting = record w { mmu = new; faulted = true }

      lost : is_mapped addr new ≡ false → Exhausted new ⊎ AllMapped 1 addr w.mmu new → Exhausted new
      lost missing (inl out) = out
      lost missing (inr (here, _)) =
          let start : page_down addr ≡ addr = omega (arith, aligned) in
          let page : is_page addr 0 (page_down addr) ≡ true = ground (arith, start) in
          absurd (
            false≢true
              (sym missing ∙ real-mapped addr new (here 0 (page_down addr) (omega arith) page)))

      behind :
          Extended 1 addr w.mmu new
          → is_mapped addr new ≡ true
          → Failed (map_pages n (addr + page_size) zeroed)
            ⊎ (((map_pages n (addr + page_size) zeroed).1 ≡ true)
                × Zeroed n (addr + page_size) zeroed (map_pages n (addr + page_size) zeroed).0)
          → Failed (map_pages n (addr + page_size) zeroed)
            ⊎ (((map_pages n (addr + page_size) zeroed).1 ≡ true)
                × Zeroed (suc n) addr w (map_pages n (addr + page_size) zeroed).0)
      behind first there (inl failed) = inl failed
      behind first there (inr (ok, (unbroken, more, starts, bytes))) = inr (
        ok,
        (
          unbroken,
          Extended-suc n addr w.mmu new (map_pages n (addr + page_size) zeroed).0.mmu first more
              (map_pages-Exhausted n (addr + page_size) zeroed),
          all_starts,
          λ a. bytes a ∙ joined n addr a w.memory,
        ),
      )
        where
          all_starts : Starts (suc n) addr (map_pages n (addr + page_size) zeroed).0.mmu
          all_starts zero l z =
              more.keeps addr (mapped-real addr new aligned there)
                (ap (gives (map_pages n (addr + page_size) zeroed).0.mmu) (omega arith) ∙ z)
          all_starts (suc i) l z =
              starts i (omega (arith, l))
                (ap (gives (map_pages n (addr + page_size) zeroed).0.mmu) (omega arith) ∙ z)
