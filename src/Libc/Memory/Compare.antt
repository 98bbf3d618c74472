-- ===== src/Libc/Memory/Compare.antt =====
-- The order that memcmp of libc/string finds.
use keon_os.Base.{ℕ, zero, suc, ◌+◌, ◌<◌, ◌≡◌, ◌⊎◌, inl, inr, refl, ap, ltb, Bool-cases, arith, ◌∙◌}
use keon_os.Libc.{Memory}
use keon_os.Libc.Memory.{Sign, minus, equal, plus, memcmp}

abbrev pub Same : ℕ → ℕ → ℕ → Memory → Type 0
Same n a b m = (i : ℕ) → i < n → m (a + i) ≡ m (b + i)

-- The sign `r` is that of the first byte in which the two ranges differ.
abbrev pub Compared : ℕ → ℕ → ℕ → Memory → Sign → Type 0
Compared n a b m r =
    ((r ≡ equal) × Same n a b m)
    ⊎ ((i : ℕ) × (i < n)
        × Same i a b m
        × (((r ≡ minus) × (m (a + i) < m (b + i))) ⊎ ((r ≡ plus) × (m (b + i) < m (a + i)))))

Same-suc : (n a b : ℕ) (m : Memory) → m a ≡ m b → Same n (a + 1) (b + 1) m → Same (suc n) a b m
Same-suc n a b m e h zero lt = ap m (omega arith) ∙ e ∙ ap m (omega arith)
Same-suc n a b m e h (suc i) lt = ap m (omega arith) ∙ h i (omega arith) ∙ ap m (omega arith)

Compared-suc :
    (n a b : ℕ) (m : Memory) (r : Sign)
    → m a ≡ m b
    → Compared n (a + 1) (b + 1) m r
    → Compared (suc n) a b m r
Compared-suc n a b m r e (inl (z, h)) = inl (z, Same-suc n a b m e h)
Compared-suc n a b m r e (inr (i, lt, h, d)) =
    let left : m (a + 1 + i) ≡ m (a + suc i) = ap m (omega arith) in
    let right : m (b + 1 + i) ≡ m (b + suc i) = ap m (omega arith) in
    inr (suc i, omega arith, Same-suc i a b m e h, rw (left, right) at d)

-- `memcmp` returns 0 where the ranges are equal; otherwise its sign is the order of the first two
-- bytes that differ.
pub memcmp_lem : (n a b : ℕ) (m : Memory) → Compared n a b m (memcmp a b n m)
unfolding memcmp
memcmp_lem zero a b m = inl (refl, λ i lt. absurd (omega arith))
memcmp_lem (suc n) a b m =
    let here : (m (a + 0) ≡ m a) × (m (b + 0) ≡ m b) = (ap m (omega arith), ap m (omega arith)) in
    elim (Bool-cases (ltb (m a) (m b))) [
      | inl below ↦
          rw below
            (inr (0, omega arith, (λ i lt. absurd (omega arith)), inl (refl, ground (arith, here))))
      | inr not_below ↦ elim (Bool-cases (ltb (m b) (m a))) [
        | inl above ↦
            rw (not_below, above)
              (inr
                (0, omega arith, (λ i lt. absurd (omega arith)), inr (refl, ground (arith, here))))
        | inr not_above ↦
            rw (not_below, not_above)
              (Compared-suc n a b m (memcmp (a + 1) (b + 1) n m) (ground arith)
                (memcmp_lem n (a + 1) (b + 1) m))
      ]
    ]
