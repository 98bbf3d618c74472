-- ===== src/Base/Bits.antt =====
-- Single bits of a number, by the digit recursion: what `w & (1 << k)`, `w |= 1 << k` and
-- `w &= ~(1 << k)` do to a word `w`.
use Prim.Native.Nat.{ℕ, zero, suc, ◌+◌, ◌*◌, ◌/◌, ◌%◌, ◌^◌, ◌<◌}
use mathlib.Core.Path.{◌≡◌, refl}
use mathlib.Core.Logic.{◌≢◌}
use mathlib.Core.Bool.{Bool, true, false}
use native.Mathlib.Nat.{pow-suc}
use native.Mathlib.Omega.{arith}
use keon_os.Base.Tests.{◌==◌}

unfoldable pub test_bit : ℕ → ℕ → Bool
test_bit zero w = w % 2 == 1
test_bit (suc k) w = test_bit k (w / 2)

unfoldable pub set_bit : ℕ → ℕ → ℕ
set_bit zero w = w / 2 * 2 + 1
set_bit (suc k) w = w % 2 + 2 * set_bit k (w / 2)

unfoldable pub clear_bit : ℕ → ℕ → ℕ
clear_bit zero w = w / 2 * 2
clear_bit (suc k) w = w % 2 + 2 * clear_bit k (w / 2)

half_digit : (w x : ℕ) → (w % 2 + 2 * x) / 2 ≡ x
half_digit w x = omega arith

low_digit : (w x : ℕ) → (w % 2 + 2 * x) % 2 ≡ w % 2
low_digit w x = omega arith

pub test_bit-set_bit : (k w : ℕ) → test_bit k (set_bit k w) ≡ true
unfolding test_bit set_bit
test_bit-set_bit zero w = ground arith
test_bit-set_bit (suc k) w = rw (half_digit w (set_bit k (w / 2))) (test_bit-set_bit k (w / 2))

pub test_bit-set_bit_ne : (j k w : ℕ) → j ≢ k → test_bit j (set_bit k w) ≡ test_bit j w
unfolding test_bit set_bit
test_bit-set_bit_ne zero zero w h = absurd (h refl)
test_bit-set_bit_ne zero (suc k) w h = rw (low_digit w (set_bit k (w / 2)))
test_bit-set_bit_ne (suc j) zero w h = let e : (w / 2 * 2 + 1) / 2 ≡ w / 2 = omega arith in rw e
test_bit-set_bit_ne (suc j) (suc k) w h =
    rw (half_digit w (set_bit k (w / 2))) (test_bit-set_bit_ne j k (w / 2) (λ e. h (omega arith)))

pub test_bit-clear_bit : (k w : ℕ) → test_bit k (clear_bit k w) ≡ false
unfolding test_bit clear_bit
test_bit-clear_bit zero w = ground arith
test_bit-clear_bit (suc k) w =
    rw (half_digit w (clear_bit k (w / 2))) (test_bit-clear_bit k (w / 2))

pub test_bit-clear_bit_ne : (j k w : ℕ) → j ≢ k → test_bit j (clear_bit k w) ≡ test_bit j w
unfolding test_bit clear_bit
test_bit-clear_bit_ne zero zero w h = absurd (h refl)
test_bit-clear_bit_ne zero (suc k) w h = rw (low_digit w (clear_bit k (w / 2)))
test_bit-clear_bit_ne (suc j) zero w h = let e : (w / 2 * 2) / 2 ≡ w / 2 = omega arith in rw e
test_bit-clear_bit_ne (suc j) (suc k) w h =
    rw (half_digit w (clear_bit k (w / 2)))
      (test_bit-clear_bit_ne j k (w / 2) (λ e. h (omega arith)))

pub set_bit-lt : (n k w : ℕ) → w < 2 ^ n → k < n → set_bit k w < 2 ^ n
unfolding set_bit
set_bit-lt zero k w h l = absurd (omega arith)
set_bit-lt (suc n) zero w h l = omega (arith, pow-suc 2 n)
set_bit-lt (suc n) (suc k) w h l =
    omega (arith, pow-suc 2 n, set_bit-lt n k (w / 2) (omega (arith, pow-suc 2 n)) (omega arith))

pub clear_bit-lt : (n k w : ℕ) → w < 2 ^ n → clear_bit k w < 2 ^ n
unfolding clear_bit
clear_bit-lt zero zero w h = omega arith
clear_bit-lt zero (suc k) w h = omega (arith, clear_bit-lt zero k (w / 2) (omega arith))
clear_bit-lt (suc n) zero w h = omega arith
clear_bit-lt (suc n) (suc k) w h =
    omega (arith, pow-suc 2 n, clear_bit-lt n k (w / 2) (omega (arith, pow-suc 2 n)))

-- The word of `n` ones.
pub test_bit_ones : (n j w : ℕ) → w + 1 ≡ 2 ^ n → j < n → test_bit j w ≡ true
unfolding test_bit
test_bit_ones zero j w h l = absurd (omega arith)
test_bit_ones (suc n) zero w h l = let e : w % 2 ≡ 1 = omega (arith, pow-suc 2 n) in rw e
test_bit_ones (suc n) (suc j) w h l =
    test_bit_ones n j (w / 2) (omega (arith, pow-suc 2 n)) (omega arith)

pub ones_of_test_bit :
    (n w : ℕ) → w < 2 ^ n → ((j : ℕ) → j < n → test_bit j w ≡ true) → w + 1 ≡ 2 ^ n
unfolding test_bit
ones_of_test_bit zero w h all = omega arith
ones_of_test_bit (suc n) w h all = omega (
  arith,
  pow-suc 2 n,
  odd (all 0 (omega arith)),
  ones_of_test_bit n (w / 2) (omega (arith, pow-suc 2 n)) (λ j l. all (suc j) (omega arith)),
)
  where
    odd : (w % 2 == 1) ≡ true → w % 2 ≡ 1
    odd e = ground arith
