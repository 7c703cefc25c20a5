-- ===== src/Bits/Masks.antt =====
-- The bits of a power of two, and of a word with one flag set or cleared.
use native.Mathlib.Nat.{pow-suc}
use rust_computer.Base.{
  ℕ, zero, suc, ◌/◌, ◌^◌, ◌<◌, ◌≡◌, refl, arith, ap, ◌∙◌, bit_and, not, ◌&&◌, ◌==◌,
}
use rust_computer.Bits.Laws.{test_bit-and, test_bit-zero, test_bit-not32}
use rust_computer.Bits.{test_bit, not32}

pub test_bit-pow : (k i : ℕ) → test_bit (2 ^ k) i ≡ (i == k)
unfolding test_bit
test_bit-pow zero zero = refl
test_bit-pow zero (suc i) = test_bit-zero i ∙ ground arith
test_bit-pow (suc k) zero = ground (arith, pow-suc 2 k)
test_bit-pow (suc k) (suc i) = ap (λ (t : ℕ). test_bit t i) half ∙ test_bit-pow k i ∙ ground arith
  where
    half : 2 ^ suc k / 2 ≡ 2 ^ k
    half = omega (arith, pow-suc 2 k)

-- `bit_and x (not32 m)` keeps the bits that `m` does not have.
pub test_bit-clear :
    (i x m : ℕ)
    → i < 32
    → m < 2 ^ 32
    → test_bit (bit_and x (not32 m)) i ≡ (test_bit x i && not (test_bit m i))
test_bit-clear i x m b c = rw (test_bit-and i x (not32 m), test_bit-not32 i m b c) refl
