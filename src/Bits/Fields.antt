-- ===== src/Bits/Fields.antt =====
-- Masks of low bits and disjoint fields as arithmetic.
use Prim.Native.Nat.{bit_or-bitwise, bit_and-bitwise}
use native.Mathlib.Nat.{pow-suc, one-le-pow}
use rust_computer.Base.{
  ℕ, zero, suc, ◌+◌, ◌-◌, ◌*◌, ◌/◌, ◌%◌, ◌^◌, ◌≤◌, ◌<◌, bit_and, bit_or, ◌≡◌, arith, ap,
}
use rust_computer.Bits.Step.{bit_or_step, bit_and_step}
use rust_computer.Bits.Laws.{bit_and-zero, zero-bit_and}

-- What two numbers have in common is counted twice in their sum.
pub bit_or-add-bit_and : (a b : ℕ) → bit_or a b + bit_and a b ≡ a + b
bit_or-add-bit_and a b = go a a b (omega arith)
  where
    go : (n a b : ℕ) → a ≤ n → bit_or a b + bit_and a b ≡ a + b
    go zero (suc a) b h = absurd (omega arith)
    go zero zero b h = omega (arith, bit_or-bitwise 0 b, bit_and-bitwise 0 b)
    go (suc n) zero b h = omega (arith, bit_or-bitwise 0 b, bit_and-bitwise 0 b)
    go (suc n) (suc a) b h = omega (
      arith,
      bit_or_step (suc a) b,
      bit_and_step (suc a) b,
      go n (suc a / 2) (b / 2) (omega arith),
    )

mul-pow-suc : (q k : ℕ) → q * 2 ^ suc k ≡ 2 * (q * 2 ^ k)
mul-pow-suc q k = omega (arith, ap (λ (t : ℕ). q * t) (pow-suc 2 k))

low_mask_half : (k : ℕ) → ((2 ^ suc k - 1) / 2 ≡ 2 ^ k - 1) × ((2 ^ suc k - 1) % 2 ≡ 1)
low_mask_half k = omega (arith, pow-suc 2 k, one-le-pow k 2)

-- The mask drops the higher field and keeps the lower.
bit_and_keeps_low : (k r q : ℕ) → r < 2 ^ k → bit_and (q * 2 ^ k + r) (2 ^ k - 1) ≡ r
bit_and_keeps_low zero r q h = omega (arith, bit_and-zero (q * 1 + r))
bit_and_keeps_low (suc k) r q h = ground (
  arith,
  low_mask_half k,
  bit_and_keeps_low k (r / 2) q,
  bit_and_step (q * 2 ^ suc k + r) (2 ^ suc k - 1),
  mul-pow-suc q k,
  pow-suc 2 k,
)

-- `a & (2 ^ k - 1)` keeps the low `k` bits.
pub bit_and_low : (k a : ℕ) → bit_and a (2 ^ k - 1) ≡ a % 2 ^ k
bit_and_low k a = ground (arith, bit_and_keeps_low k (a % 2 ^ k) (a / 2 ^ k), one-le-pow k 2)

bit_and_apart : (k q r : ℕ) → r < 2 ^ k → bit_and (q * 2 ^ k) r ≡ 0
bit_and_apart zero q r h = ground (arith, bit_and-zero (q * 1))
bit_and_apart (suc k) q r h =
    ground (
      arith,
      bit_and_step (q * 2 ^ suc k) r,
      mul-pow-suc q k,
      pow-suc 2 k,
      bit_and_apart k q (r / 2),
    )

bit_and_apart_low : (k q r : ℕ) → r < 2 ^ k → bit_and r (q * 2 ^ k) ≡ 0
bit_and_apart_low zero q r h = ground (arith, zero-bit_and (q * 1))
bit_and_apart_low (suc k) q r h = ground (
  arith,
  bit_and_step r (q * 2 ^ suc k),
  mul-pow-suc q k,
  pow-suc 2 k,
  bit_and_apart_low k q (r / 2),
)

-- `|` of a high and a low field, in both orders.
pub bit_or_high_low : (k q r : ℕ) → r < 2 ^ k → bit_or (q * 2 ^ k) r ≡ q * 2 ^ k + r
bit_or_high_low k q r h = omega (arith, bit_or-add-bit_and (q * 2 ^ k) r, bit_and_apart k q r h)

pub bit_or_low_high : (k q r : ℕ) → r < 2 ^ k → bit_or r (q * 2 ^ k) ≡ q * 2 ^ k + r
bit_or_low_high k q r h = omega (arith, bit_or-add-bit_and r (q * 2 ^ k), bit_and_apart_low k q r h)
