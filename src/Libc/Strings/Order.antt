-- ===== src/Libc/Strings/Order.antt =====
-- The order that strcmp of libc/string finds.
use keon_os.Base.{
  ℕ, zero, suc, ◌+◌, ◌<◌, ◌≡◌, ◌≢◌, ◌⊎◌, ◌↔◌, inl, inr, refl, sym, ap, true, false, not, ◌&&◌, some,
  List, [], ◌∷◌, length, ◌==◌, Bool-cases, arith,
}
use mathlib.Core.Path.{subst}
use mathlib.Core.List.{cons≢nil, nil≢cons}
use keon_os.Libc.{Memory}
use keon_os.Libc.Strings.{strcmp}
use keon_os.Libc.Strings.Copy.{IsString}

-- The order of the dictionary.
abbrev pub Before : List ℕ → List ℕ → Type 0
Before [] [] = ⊥
Before [] (d ∷ ds) = Unit {0}
Before (c ∷ cs) [] = ⊥
Before (c ∷ cs) (d ∷ ds) = (c < d) ⊎ ((c ≡ d) × Before cs ds)

-- The two bytes tell which of the strings comes first, and whether they are equal.
abbrev pub Ordered : List ℕ → List ℕ → ℕ × ℕ → Type 0
Ordered cs ds r =
    ((r.0 ≡ r.1) ↔ (cs ≡ ds)) × ((r.0 < r.1) ↔ Before cs ds) × ((r.1 < r.0) ↔ Before ds cs)

Ordered-cons : (c : ℕ) (cs ds : List ℕ) (r : ℕ × ℕ) → Ordered cs ds r → Ordered (c ∷ cs) (c ∷ ds) r
Ordered-cons c cs ds r (eq, lt, gt) = (
  ((λ e. ap (λ k. c ∷ k) (eq.0 e)), (λ e. eq.1 (cc))),
  ((λ l. inr (refl, lt.0 l)), (λ b. elim b [ inl l ↦ absurd (omega arith) | inr (_, b) ↦ lt.1 b ])),
  ((λ l. inr (refl, gt.0 l)), (λ b. elim b [ inl l ↦ absurd (omega arith) | inr (_, b) ↦ gt.1 b ])),
)

-- `strcmp` ends, if it may read to the end of its first string. The difference that it returns is
-- 0 just if the strings are equal, negative just if the first comes before the second in the
-- order of the dictionary, and positive just if it comes behind it.
pub strcmp_lem :
    (cs ds : List ℕ) (fuel a b : ℕ) (m : Memory)
    → IsString m a cs
    → IsString m b ds
    → length cs < fuel
    → (r : ℕ × ℕ) × (strcmp fuel a b m ≡ some r) × Ordered cs ds r
unfolding strcmp
strcmp_lem cs ds zero a b m ha hb l = absurd (omega arith)
strcmp_lem [] [] (suc fuel) a b m ha hb l =
    let stop : (not (m a == 0) && m a == m b) ≡ false = ground (arith, ha) in
    (
      (m a, m b),
      rw stop refl,
      (
        ((λ _. refl), (λ _. omega (arith, ha, hb))),
        ((λ less. omega (arith, ha, hb, less)), (λ k. absurd k)),
        ((λ less. omega (arith, ha, hb, less)), (λ k. absurd k)),
      ),
    )
strcmp_lem [] (d ∷ ds) (suc fuel) a b m ha (here, some_char, hb) l =
    let stop : (not (m a == 0) && m a == m b) ≡ false = ground (arith, ha) in
    (
      (m a, m b),
      rw stop refl,
      (
        ((λ e. absurd (omega (arith, ha, here, some_char, e))), (λ e. absurd (nil≢cons e))),
        ((λ _. tt), (λ _. omega (arith, ha, here, some_char))),
        ((λ less. omega (arith, ha, here, less)), (λ k. absurd k)),
      ),
    )
strcmp_lem (c ∷ cs) [] (suc fuel) a b m (here, some_char, ha) hb l =
    let stop : (not (m a == 0) && m a == m b) ≡ false = ground (arith, here, hb, some_char) in
    (
      (m a, m b),
      rw stop refl,
      (
        ((λ e. absurd (omega (arith, hb, here, some_char, e))), (λ e. absurd (cons≢nil e))),
        ((λ less. omega (arith, hb, here, less)), (λ k. absurd k)),
        ((λ _. tt), (λ _. omega (arith, hb, here, some_char))),
      ),
    )
strcmp_lem (c ∷ cs) (d ∷ ds) (suc fuel) a b m (here_a, char_a, ha) (here_b, char_b, hb) l =
    elim (Bool-cases (m a == m b)) [
      | inl same ↦
          let go : (not (m a == 0) && m a == m b) ≡ true = ground (arith, here_a, char_a, same) in
          let equal : c ≡ d = ground (arith, here_a, here_b, same) in
          let (r, done, order) = strcmp_lem cs ds fuel (a + 1) (b + 1) m ha hb (omega arith) in
          (
            r,
            rw go done,
            subst (λ k. Ordered (c ∷ cs) (k ∷ ds) r) equal (Ordered-cons c cs ds r order),
          )
      | inr other ↦
          let stop : (not (m a == 0) && m a == m b) ≡ false = ground (arith, other) in
          let differ : c ≢ d = ground (arith, here_a, here_b, other) in
          (
            (m a, m b),
            rw stop refl,
            (
              (
                (λ e. absurd (differ (omega (arith, here_a, here_b, e)))),
                (λ e. let head : c ≡ d = cc in absurd (differ head)),
              ),
              (
                (λ less. inl (omega (arith, here_a, here_b, less))),
                (λ k. elim k [
                  | inl less ↦ omega (arith, here_a, here_b, less)
                  | inr (e, _) ↦ absurd (differ e)
                ]),
              ),
              (
                (λ less. inl (omega (arith, here_a, here_b, less))),
                (λ k. elim k [
                  | inl less ↦ omega (arith, here_a, here_b, less)
                  | inr (e, _) ↦ absurd (differ (sym e))
                ]),
              ),
            ),
          )
    ]
