-- ===== src/Bits/Laws.antt =====
-- Each operation bit by bit, and words that agree in every bit.
use Prim.Native.Nat.{bit_and-bitwise}
use native.Mathlib.Nat.{pow-suc, one-le-pow}
use rust_computer.Base.{
  ℕ, zero, suc, ◌-◌, ◌/◌, ◌^◌, ◌≤◌, ◌<◌, bit_and, bit_or, bit_xor, ◌≡◌, refl, arith, false, not,
  ◌&&◌, ◌||◌, ◌∙◌, ap, if◌then◌else◌,
}
use rust_computer.Bits.Step.{bit_or_step, bit_xor_step, bit_and_step}
use rust_computer.Bits.{not32, has_flag, test_bit}

pub test_bit-and : (i a b : ℕ) → test_bit (bit_and a b) i ≡ (test_bit a i && test_bit b i)
unfolding test_bit
test_bit-and zero a b = ground (arith, bit_and_step a b)
test_bit-and (suc i) a b = ap (λ (t : ℕ). test_bit t i) half ∙ test_bit-and i (a / 2) (b / 2)
  where
    half : bit_and a b / 2 ≡ bit_and (a / 2) (b / 2)
    half = omega (arith, bit_and_step a b)

pub test_bit-or : (i a b : ℕ) → test_bit (bit_or a b) i ≡ (test_bit a i || test_bit b i)
unfolding test_bit
test_bit-or zero a b = ground (arith, bit_or_step a b)
test_bit-or (suc i) a b = ap (λ (t : ℕ). test_bit t i) half ∙ test_bit-or i (a / 2) (b / 2)
  where
    half : bit_or a b / 2 ≡ bit_or (a / 2) (b / 2)
    half = omega (arith, bit_or_step a b)

-- Zero has no bit set.
pub test_bit-zero : (i : ℕ) → test_bit 0 i ≡ false
unfolding test_bit
test_bit-zero zero = refl
test_bit-zero (suc i) = test_bit-zero i

-- The complement within `n` bits.
pub test_bit-complement :
    (i n a : ℕ) → i < n → a < 2 ^ n → test_bit (2 ^ n - 1 - a) i ≡ not (test_bit a i)
unfolding test_bit
test_bit-complement i zero a h w = absurd (omega arith)
test_bit-complement zero (suc n) a h w = ground (arith, pow-suc 2 n)
test_bit-complement (suc i) (suc n) a h w =
    ap (λ (t : ℕ). test_bit t i) half
    ∙ test_bit-complement i n (a / 2) (omega arith) (omega (arith, pow-suc 2 n))
  where
    half : (2 ^ suc n - 1 - a) / 2 ≡ 2 ^ n - 1 - a / 2
    half = omega (arith, pow-suc 2 n)

pub test_bit-not32 : (i a : ℕ) → i < 32 → a < 2 ^ 32 → test_bit (not32 a) i ≡ not (test_bit a i)
test_bit-not32 i a h w = test_bit-complement i 32 a h w

-- A word keeps the bits beyond its width clear.
pub test_bit_beyond : (i n a : ℕ) → a < 2 ^ n → n ≤ i → test_bit a i ≡ false
unfolding test_bit
test_bit_beyond i zero a w h = ap (λ (t : ℕ). test_bit t i) az ∙ test_bit-zero i
  where
    az : a ≡ 0
    az = omega arith
test_bit_beyond zero (suc n) a w h = absurd (omega arith)
test_bit_beyond (suc i) (suc n) a w h =
    test_bit_beyond i n (a / 2) (omega (arith, pow-suc 2 n)) (omega arith)

-- Numbers below `2 ^ n` that agree in their lowest `n` bits are equal.
pub eq_of_bits :
    (n a b : ℕ) → a < 2 ^ n → b < 2 ^ n → ((i : ℕ) → i < n → test_bit a i ≡ test_bit b i) → a ≡ b
unfolding test_bit
eq_of_bits zero a b ha hb h = omega arith
eq_of_bits (suc n) a b ha hb h =
    let halves =
      eq_of_bits n (a / 2) (b / 2) (omega (arith, pow-suc 2 n)) (omega (arith, pow-suc 2 n))
        (λ i k. h (suc i) (omega arith)) in
    ground (arith, h 0, halves)

-- `|` and `&` stay within the width.
pub bit_or-lt : (n a b : ℕ) → a < 2 ^ n → b < 2 ^ n → bit_or a b < 2 ^ n
bit_or-lt zero a b ha hb = rw (az, bz) (omega arith)
  where
    az : a ≡ 0
    az = omega arith

    bz : b ≡ 0
    bz = omega arith
bit_or-lt (suc n) a b ha hb = omega (
  arith,
  bit_or_step a b,
  pow-suc 2 n,
  bit_or-lt n (a / 2) (b / 2) (omega (arith, pow-suc 2 n)) (omega (arith, pow-suc 2 n)),
)

pub bit_xor-lt : (n a b : ℕ) → a < 2 ^ n → b < 2 ^ n → bit_xor a b < 2 ^ n
bit_xor-lt zero a b ha hb = rw (az, bz) (omega arith)
  where
    az : a ≡ 0
    az = omega arith

    bz : b ≡ 0
    bz = omega arith
bit_xor-lt (suc n) a b ha hb = omega (
  arith,
  bit_xor_step a b,
  pow-suc 2 n,
  bit_xor-lt n (a / 2) (b / 2) (omega (arith, pow-suc 2 n)) (omega (arith, pow-suc 2 n)),
)

pub bit_and-zero : (a : ℕ) → bit_and a 0 ≡ 0
bit_and-zero a = go a a (omega arith)
  where
    go : (n a : ℕ) → a ≤ n → bit_and a 0 ≡ 0
    go n zero h = refl
    go zero (suc a) h = absurd (omega arith)
    go (suc n) (suc a) h = omega (arith, bit_and_step (suc a) 0, go n (suc a / 2) (omega arith))

pub zero-bit_and : (b : ℕ) → bit_and 0 b ≡ 0
zero-bit_and b = bit_and-bitwise 0 b

pub bit_and-le : (a b : ℕ) → bit_and a b ≤ b
bit_and-le a b = go a a b (omega arith)
  where
    go : (n a b : ℕ) → a ≤ n → bit_and a b ≤ b
    go n zero b h = omega (arith, zero-bit_and b)
    go zero (suc a) b h = absurd (omega arith)
    go (suc n) (suc a) b h =
        omega (arith, bit_and_step (suc a) b, go n (suc a / 2) (b / 2) (omega arith))

-- A mask of one bit reads that bit.
pub bit_and-pow : (k a : ℕ) → bit_and a (2 ^ k) ≡ (if test_bit a k then 2 ^ k else 0)
unfolding test_bit
bit_and-pow zero a = ground (arith, bit_and_step a 1, bit_and-zero (a / 2))
bit_and-pow (suc k) a =
    ground (arith, bit_and_step a (2 ^ suc k), pow-suc 2 k, bit_and-pow k (a / 2))

pub has_flag-pow : (k a : ℕ) → has_flag a (2 ^ k) ≡ test_bit a k
unfolding has_flag
has_flag-pow k a = ground (arith, bit_and-pow k a, one-le-pow k 2)
