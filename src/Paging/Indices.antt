-- ===== src/Paging/Indices.antt =====
-- The page of an address as its four indices, and the last entry that `paging_map_page` writes, of
-- kernel/arch/x86_64/paging.cpp.
use keon_os.Base.{
  ℕ, zero, suc, test_bit-set_bit, ◌+◌, ◌*◌, ◌/◌, ◌%◌, ◌^◌, ◌<◌, ◌≡◌, inl, inr, refl, ap, ◌∙◌, Bool,
  true, length, ◌==◌, ==_iff, Bool-cases, arith,
}
use native.Mathlib.Nat.{pow-suc}
use keon_os.Pfa.{page_size, u64}
use keon_os.Paging.{is_present, frame_of, or_word, upper_indices, pt_index, leaf_entry}
use keon_os.Paging.Descent.{frame_of-set_bit}

-- Two addresses in one page of the 48-bit address space.
abbrev pub same_page : ℕ → ℕ → Bool
same_page a b = a / page_size % 2 ^ 36 == b / page_size % 2 ^ 36

pub same_page-indices :
    (a b : ℕ)
    → same_page a b ≡ true
    → (upper_indices a ≡ upper_indices b) × (pt_index a ≡ pt_index b)
unfolding upper_indices pt_index
same_page-indices a b h =
    let same : a / page_size % 2 ^ 36 ≡ b / page_size % 2 ^ 36 = ground (arith, h) in
    let top : a / 2 ^ 39 % 512 ≡ b / 2 ^ 39 % 512 = omega arith in
    let high : a / 2 ^ 30 % 512 ≡ b / 2 ^ 30 % 512 = omega arith in
    let mid : a / 2 ^ 21 % 512 ≡ b / 2 ^ 21 % 512 = omega arith in
    let low : a / 2 ^ 12 % 512 ≡ b / 2 ^ 12 % 512 = omega arith in (rw (top, high, mid) refl, low)

pub indices-same_page :
    (a b : ℕ) → upper_indices a ≡ upper_indices b → pt_index a ≡ pt_index b → same_page a b ≡ true
unfolding upper_indices pt_index
indices-same_page a b up low =
    let top : a / 2 ^ 39 % 512 ≡ b / 2 ^ 39 % 512 = cc in
    let high : a / 2 ^ 30 % 512 ≡ b / 2 ^ 30 % 512 = cc in
    let mid : a / 2 ^ 21 % 512 ≡ b / 2 ^ 21 % 512 = cc in
    let same : a / page_size % 2 ^ 36 ≡ b / page_size % 2 ^ 36 = omega arith in ground (arith, same)

pub three_indices : (virt : ℕ) → length (upper_indices virt) ≡ 3
unfolding upper_indices
three_indices virt = refl

-- `a | b` where `a` has no bit below bit `k` and `b` no other.
or_word-add :
    (k w c b : ℕ)
    → b < 2 ^ k
    → c * 2 ^ k < 2 ^ w
    → b < 2 ^ w
    → or_word w (c * 2 ^ k) b ≡ c * 2 ^ k + b
unfolding or_word
or_word-add k zero c b high ha hb = omega (arith, ha, hb)
or_word-add zero (suc w) c b high ha hb =
    let pw : 2 ^ suc w ≡ 2 ^ w * 2 = pow-suc 2 w in
    let rest =
      or_word-add zero w (c / 2) 0 (omega arith) (omega (arith, pw, ha)) (omega (arith, pw, ha)) in
    let one : b / 2 ≡ 0 = omega (arith, high) in
    let whole : c * 2 ^ 0 / 2 ≡ c / 2 * 2 ^ 0 = omega arith in
    rw (one, whole)
      (elim (Bool-cases (c * 2 ^ 0 % 2 == 0)) [
        | inl even ↦ rw even (omega (arith, rest, (==_iff (c * 2 ^ 0 % 2) 0).0 even))
        | inr odd ↦ rw odd (
            let one_left : c * 2 ^ 0 % 2 ≡ 1 = ground (arith, odd) in omega (arith, rest, one_left))
      ])
or_word-add (suc k) (suc w) c b high ha hb =
    let pw : 2 ^ suc w ≡ 2 ^ w * 2 = pow-suc 2 w in
    let pk : 2 ^ suc k ≡ 2 ^ k * 2 = pow-suc 2 k in
    let step : c * 2 ^ suc k ≡ c * (2 ^ k * 2) = ap (λ x. c * x) pk in
    let twice : c * 2 ^ suc k ≡ 2 * (c * 2 ^ k) = grind (arith, step) in
    let half : 2 * (c * 2 ^ k) / 2 ≡ c * 2 ^ k = omega arith in
    let rest =
      or_word-add k w c (b / 2) (omega (arith, pk, high)) (omega (arith, pw, ha, twice))
        (omega (arith, pw, hb)) in
    let test : (2 * (c * 2 ^ k) % 2 == 0) ≡ true = ground arith in
    rw (twice, test, half) (omega (arith, rest))

pub leaf_entry_lem :
    (phys flags : ℕ)
    → phys < u64
    → flags < page_size
    → (is_present (leaf_entry phys flags) ≡ true)
      × (frame_of (leaf_entry phys flags) ≡ frame_of phys)
unfolding leaf_entry
leaf_entry_lem phys flags fits small =
    let both = or_word-add 12 64 (phys / page_size) flags small (omega arith) (omega arith) in
    (
      test_bit-set_bit 0 (or_word 64 (frame_of phys) flags),
      frame_of-set_bit 0 (or_word 64 (frame_of phys) flags) (omega arith) ∙ omega (arith, both),
    )
