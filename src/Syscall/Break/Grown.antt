-- ===== src/Syscall/Break/Grown.antt =====
-- What `sys_sbrk` of kernel/syscalls/sys_mem.cpp leaves of the translations that there were, and those that it
-- makes.
use keon_os.Base.{
  ℕ, zero, suc, ◌+◌, ◌*◌, ◌%◌, ◌<◌, ◌≡◌, ◌≢◌, ◌⊎◌, inl, inr, refl, sym, ap, ◌∙◌, Bool, true, false,
  ◌==◌, if◌then◌else◌, Bool-cases, arith,
}
use mathlib.Core.Bool.{false≢true}
use mathlib.Core.Path.{subst}
use keon_os.Pfa.{page_size, u64}
use keon_os.Paging.{
  Mmu, is_present, frame_of, current_pml4, alloc_page, paging_map_page, paging_is_user_accessible,
}
use keon_os.Paging.Descent.{Sound}
use keon_os.Paging.Translate.{entry, target, paging_get_physical_address_lem}
use keon_os.Paging.Indices.{same_page}
use keon_os.Paging.Store.{gives, gives-target}
use keon_os.Paging.Map.{paging_map_page_lem}
use keon_os.Paging.Frames.{
  KeepsFrames, page_start, map-KeepsFrames, KeepsFrames-trans, map-Sound, gives-fits,
}
use keon_os.Paging.Fresh.{
  Exhausted, Small, alloc_page-Fresh, alloc_page-Exhausted, paging_map_page-Small,
  paging_map_page-Exhausted,
}
use keon_os.Paging.User.{IsPresent, user-IsPresent}
use keon_os.Syscall.Break.{frame_for, grow}

-- What `frame_for` gives, and the state it leaves.
record Framed (addr : ℕ) (m : Mmu) (r : Mmu × ℕ) : Type 0 where
  sound : Sound (current_pml4 r.0) r.0
  small : Small r.0
  same : (a : ℕ) → gives r.0 a ≡ gives m a
  fits : r.1 < u64
  aligned : r.1 % page_size ≡ 0
  had : (gives m addr ≡ 0) ⊎ (r.1 ≡ gives m addr)
  out : (r.1 == 0) ≡ true → Exhausted r.0

gives-aligned : (addr : ℕ) (m : Mmu) → addr % page_size ≡ 0 → gives m addr % page_size ≡ 0
gives-aligned addr m aligned =
    let e = entry addr (current_pml4 m) m in
    ap (λ k. k % page_size) (gives-target (current_pml4 m) addr m refl)
    ∙ elim (Bool-cases (is_present e)) [
      | inl present ↦ rw present (omega (arith, aligned))
      | inr absent ↦ rw absent (omega arith)
    ]

-- `frame_for`, once the translation is known.
abbrev frame_or : Mmu × ℕ → Mmu × ℕ
frame_or have = if have.1 == 0 then alloc_page have.0 else have

frame_for-frame_or :
    (addr : ℕ) (m : Mmu)
    → frame_for addr m ≡ frame_or (m, target (entry addr (current_pml4 m) m) addr)
unfolding frame_for
frame_for-frame_or addr m = ap frame_or (paging_get_physical_address_lem addr m)

frame_for-Framed :
    (addr : ℕ) (m : Mmu)
    → addr % page_size ≡ 0
    → Sound (current_pml4 m) m
    → Small m
    → Framed addr m (frame_for addr m)
frame_for-Framed addr m aligned s small = subst (Framed addr m) (sym (frame_for-frame_or addr m)) (
    picked (target (entry addr (current_pml4 m) m) addr)
      (gives-target (current_pml4 m) addr m refl))
  where
    picked : (g : ℕ) → gives m addr ≡ g → Framed addr m (frame_or (m, g))
    picked g e = elim (Bool-cases (g == 0)) [
      | inr real ↦ rw real (record {
        sound = s;
        small = small;
        same = λ a. refl;
        fits = subst (λ k. k < u64) e (gives-fits addr m);
        aligned = subst (λ k. k % page_size ≡ 0) e (gives-aligned addr m aligned);
        had = inr (sym e);
        out = λ z. absurd (false≢true (sym real ∙ z));
      })
      | inl nil ↦
          let none_before : gives m addr ≡ 0 = ground (arith, e, nil) in
          rw nil (elim (alloc_page-Fresh m s small) [
            | inl (none_left, out) ↦ subst (Framed addr m) (sym none_left) (record {
              sound = s;
              small = small;
              same = λ a. refl;
              fits = omega arith;
              aligned = omega arith;
              had = inl none_before;
              out = λ z. out;
            })
            | inr f ↦ record {
              sound = f.sound;
              small = f.small;
              same = f.same;
              fits = omega (arith, f.fits);
              aligned = omega (arith, f.aligned);
              had = inl none_before;
              out = λ z. absurd (false≢true (sym f.real ∙ z));
            }
          ])
    ]

frame_for-Exhausted : (addr : ℕ) (m : Mmu) → Exhausted m → Exhausted (frame_for addr m).0
frame_for-Exhausted addr m out =
    subst (λ r. Exhausted r.0) (sym (frame_for-frame_or addr m))
      (elim (Bool-cases (target (entry addr (current_pml4 m) m) addr == 0)) [
        | inl nil ↦ rw nil (subst (λ r. Exhausted r.0) (sym (alloc_page-Exhausted m out)) out)
        | inr real ↦ rw real out
      ])

grow-Exhausted : (n addr : ℕ) (m : Mmu) → Exhausted m → Exhausted (grow n addr m).0
unfolding grow
grow-Exhausted zero addr m out = out
grow-Exhausted (suc n) addr m out =
    let r = frame_for addr m in
    let still = frame_for-Exhausted addr m out in
    elim (Bool-cases (paging_is_user_accessible addr m)) [
      | inl user ↦ rw user (grow-Exhausted n (addr + page_size) m out)
      | inr not_user ↦ elim (Bool-cases (r.1 == 0)) [
        | inl nil ↦ rw (not_user, nil) still
        | inr got ↦
            rw (not_user, got)
              (grow-Exhausted n (addr + page_size) (paging_map_page addr r.1 7 r.0)
                (paging_map_page-Exhausted addr r.1 7 r.0 still))
      ]
    ]

-- What is translated to an address other than 0 still is.
abbrev pub KeepsMapped : Mmu → Mmu → Type 0
KeepsMapped m m' = (a : ℕ) → gives m a ≢ 0 → gives m' a ≢ 0

-- A page that is mapped to a frame other than 0.
module _ (addr phys : ℕ) (m : Mmu) (real : (phys == 0) ≡ false) (fits : phys < u64)
    (aligned : phys % page_size ≡ 0) (s : Sound (current_pml4 m) m) where
  in_frame : (a : ℕ) → (frame_of phys + a % page_size) % u64 ≢ 0
  in_frame a z =
      let some_frame : phys ≢ 0 = ground (arith, real) in
      absurd (some_frame (omega (arith, z, fits, aligned)))

  map-KeepsMapped : KeepsMapped m (paging_map_page addr phys 7 m)
  map-KeepsMapped a there z = elim (paging_map_page_lem addr phys 7 m fits (omega arith) s).2 [
    | inl (out, same, count) ↦ there (sym (same a) ∙ z)
    | inr (moved, count) ↦ elim (Bool-cases (same_page a addr)) [
      | inl here ↦ in_frame a (sym (rw here refl) ∙ sym (moved a) ∙ z)
      | inr other ↦ there (sym (rw other refl) ∙ sym (moved a) ∙ z)
    ]
  ]

  map-IsPresent :
      addr % page_size ≡ 0
      → Exhausted (paging_map_page addr phys 7 m) ⊎ IsPresent (paging_map_page addr phys 7 m) addr
  map-IsPresent start = elim (paging_map_page_lem addr phys 7 m fits (omega arith) s).2 [
    | inl (out, same, count) ↦ inl out
    | inr (moved, count) ↦
        let here : same_page (addr + 1) addr ≡ true = ground (arith, start) in
        inr (λ z. in_frame (addr + 1) (sym (rw here refl) ∙ sym (moved (addr + 1)) ∙ z))
  ]

-- The pages from `addr` on are present, unless no frame is left; a missing frame is the only failure.
abbrev pub Ended : ℕ → ℕ → Mmu × Bool → Type 0
Ended n addr r =
    ((r.1 ≡ false) × Exhausted r.0)
    ⊎ ((r.1 ≡ true) × (Exhausted r.0 ⊎ ((i : ℕ) → i < n → IsPresent r.0 (addr + i * page_size))))

pub record Grew (n addr : ℕ) (m : Mmu) (r : Mmu × Bool) : Type 0 where
  pub sound : Sound (current_pml4 r.0) r.0
  pub keeps : KeepsFrames m r.0
  pub mapped : KeepsMapped m r.0
  pub ended : Ended n addr r

-- One page, and then those behind it.
Ended-suc :
    (n addr : ℕ) (m : Mmu) (r : Mmu × Bool)
    → Exhausted m ⊎ IsPresent m addr
    → (Exhausted m → Exhausted r.0)
    → KeepsMapped m r.0
    → Ended n (addr + page_size) r
    → Ended (suc n) addr r
Ended-suc n addr m r first out mapped (inl failed) = inl failed
Ended-suc n addr m r first out mapped (inr (ok, inl none_left)) = inr (ok, inl none_left)
Ended-suc n addr m r (inl none_left) out mapped (inr (ok, inr rest)) = inr (ok, inl (out none_left))
Ended-suc n addr m r (inr here) out mapped (inr (ok, inr rest)) = inr (ok, inr pages)
  where
    pages : (i : ℕ) → i < suc n → IsPresent r.0 (addr + i * page_size)
    pages zero l z = mapped (addr + 1) here (ap (gives r.0) (omega arith) ∙ z)
    pages (suc i) l z = rest i (omega (arith, l)) (ap (gives r.0) (omega arith) ∙ z)

pub grow_lem :
    (n addr : ℕ) (m : Mmu)
    → addr % page_size ≡ 0
    → Sound (current_pml4 m) m
    → Small m
    → Grew n addr m (grow n addr m)
unfolding grow
grow_lem zero addr m aligned s small = record {
  sound = s;
  keeps = λ a real. refl;
  mapped = λ a real. real;
  ended = inr (refl, inr (λ i l z. omega (arith, l)));
}
grow_lem (suc n) addr m aligned s small =
    let r = frame_for addr m in
    let f = frame_for-Framed addr m aligned s small in
    let m' = paging_map_page addr r.1 7 r.0 in
    let next : (addr + page_size) % page_size ≡ 0 = omega (arith, aligned) in
    elim (Bool-cases (paging_is_user_accessible addr m)) [
      | inl user ↦
          let g = grow_lem n (addr + page_size) m next s small in
          rw user (record {
            sound = g.sound;
            keeps = g.keeps;
            mapped = g.mapped;
            ended =
                Ended-suc n addr m (grow n (addr + page_size) m)
                  (inr (user-IsPresent addr m aligned user)) (grow-Exhausted n (addr + page_size) m)
                  g.mapped g.ended;
          })
      | inr not_user ↦ elim (Bool-cases (r.1 == 0)) [
        | inl nil ↦
            rw (not_user, nil)
              (record {
                sound = f.sound;
                keeps = λ a real. f.same a;
                mapped = λ a real z. real (sym (f.same a) ∙ z);
                ended = inl (refl, f.out nil);
              })
        | inr got ↦
            let first = map-KeepsFrames addr r.1 r.0 aligned f.fits f.sound (kept_frame f) in
            let through = map-KeepsMapped addr r.1 r.0 got f.fits f.aligned f.sound in
            let g =
              grow_lem n (addr + page_size) m' next (map-Sound addr r.1 r.0 f.fits f.sound)
                (paging_map_page-Small addr r.1 7 r.0 f.small) in
            rw (not_user, got)
              (record {
                sound = g.sound;
                keeps =
                    KeepsFrames-trans m m' (grow n (addr + page_size) m').0
                      (λ a real. first a (λ z. real (sym (f.same (page_start a)) ∙ z)) ∙ f.same a)
                      g.keeps;
                mapped = λ a real. g.mapped a (through a (λ z. real (sym (f.same a) ∙ z)));
                ended =
                    Ended-suc n addr m' (grow n (addr + page_size) m')
                      (map-IsPresent addr r.1 r.0 got f.fits f.aligned f.sound aligned)
                      (grow-Exhausted n (addr + page_size) m') g.mapped g.ended;
              })
      ]
    ]
  where
    kept_frame : {r : Mmu × ℕ} → Framed addr m r → (gives r.0 addr ≡ 0) ⊎ (r.1 ≡ gives r.0 addr)
    kept_frame f = elim f.had [
      | inl z ↦ inl (f.same addr ∙ z)
      | inr e ↦ inr (e ∙ sym (f.same addr))
    ]
