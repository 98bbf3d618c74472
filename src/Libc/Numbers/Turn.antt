-- ===== src/Libc/Numbers/Turn.antt =====
-- The second loop of ulltoa of libc/stdlib turns a range around.
use keon_os.Base.{
  ℕ, zero, suc, ◌+◌, ◌-◌, ◌*◌, ◌≤◌, ◌≡◌, inl, inr, refl, sym, ap, ◌∙◌, true, false, ◌&&◌, ltb, leb,
  ◌==◌, if◌then◌else◌, Bool-cases, arith,
}
use keon_os.Libc.{Memory}
use keon_os.Libc.Numbers.Print.{put, turn}

-- `turn` mirrors the range from `low` to `hi`.
pub turn_lem :
    (fuel low hi x : ℕ) (m : Memory)
    → hi ≤ low + 2 * fuel
    → turn fuel low hi m x ≡ (if leb low x && leb x hi then m (low + hi - x) else m x)
unfolding turn
turn_lem zero low hi x m l = elim (Bool-cases (leb low x && leb x hi)) [
  | inl both ↦ let same : low + hi - x ≡ x = ground (arith, both, l) in rw both (ap m (sym same))
  | inr out ↦ rw out refl
]
turn_lem (suc fuel) low hi x m l = elim (Bool-cases (ltb low hi)) [
  | inr met ↦ elim (Bool-cases (leb low x && leb x hi)) [
    | inl both ↦
        let same : low + hi - x ≡ x = ground (arith, both, met) in rw (met, both) (ap m (sym same))
    | inr out ↦ rw (met, out) refl
  ]
  | inl apart ↦
      let swapped = put hi (m low) (put low (m hi) m) in
      rw apart
        (turn_lem fuel (low + 1) (hi - 1) x swapped (ground (arith, l, apart)) ∙ mirrored apart)
]
  where
    mirrored :
        ltb low hi ≡ true
        → (if leb (low + 1) x && leb x (hi - 1)
            then put hi (m low) (put low (m hi) m) (low + 1 + (hi - 1) - x)
            else put hi (m low) (put low (m hi) m) x)
          ≡ (if leb low x && leb x hi then m (low + hi - x) else m x)
    mirrored apart = elim (Bool-cases (leb (low + 1) x && leb x (hi - 1))) [
      | inl within ↦
          let both : (leb low x && leb x hi) ≡ true = ground (arith, within) in
          let place : low + 1 + (hi - 1) - x ≡ low + hi - x = ground (arith, within, apart) in
          let not_hi : (low + hi - x == hi) ≡ false = ground (arith, within) in
          let not_low : (low + hi - x == low) ≡ false = ground (arith, within, apart) in
          rw (within, both, place, not_hi, not_low) refl
      | inr edge ↦ elim (Bool-cases (x == hi)) [
        | inl at_hi ↦
            let both : (leb low x && leb x hi) ≡ true = ground (arith, at_hi, apart) in
            let place : low + hi - x ≡ low = ground (arith, at_hi) in
            rw (edge, at_hi, both, place) refl
        | inr below ↦ elim (Bool-cases (x == low)) [
          | inl at_low ↦
              let both : (leb low x && leb x hi) ≡ true = ground (arith, at_low, apart) in
              let place : low + hi - x ≡ hi = ground (arith, at_low) in
              rw (edge, below, at_low, both, place) refl
          | inr above ↦
              let out : (leb low x && leb x hi) ≡ false = ground (arith, edge, below, above) in
              rw (edge, below, above, out) refl
        ]
      ]
    ]
