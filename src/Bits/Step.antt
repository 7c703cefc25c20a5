-- ===== src/Bits/Step.antt =====
-- One equation for the lowest digit of each native bit operation.
use Prim.Native.Nat.{digits, bitwise, bit_and-bitwise, bit_or-bitwise, bit_xor-bitwise, differ}
use rust_computer.Base.{
  ℕ, zero, suc, ◌+◌, ◌*◌, ◌/◌, ◌%◌, ◌≤◌, min, max, bit_and, bit_or, bit_xor, ◌≡◌, refl, sym, ap,
  ◌∙◌, arith,
}

-- With as many digits to go as the number has, or more, the recursion gives `bitwise`. The bound
-- `k` is what the proof recurses on.
count_enough :
    (z : ℕ → ℕ) (f : ℕ → ℕ → ℕ) (k count a b : ℕ)
    → count ≤ k
    → a ≤ count
    → digits z f count a b ≡ bitwise z f a b
count_enough z f k (suc count) zero b below fits = refl
count_enough z f k zero zero b below fits = refl
count_enough z f k zero (suc a) b below fits = absurd (omega arith)
count_enough z f zero (suc count) (suc a) b below fits = absurd (omega arith)
count_enough z f (suc k) (suc count) (suc a) b below fits =
    let half : ℕ = suc a / 2 in
    let left : digits z f count half (b / 2) ≡ bitwise z f half (b / 2) =
      count_enough z f k count half (b / 2) (omega arith) (omega arith) in
    let right : digits z f a half (b / 2) ≡ bitwise z f half (b / 2) =
      count_enough z f k a half (b / 2) (omega arith) (omega arith) in
    ap (λ (high : ℕ). high * 2 + f (suc a % 2) (b % 2)) (left ∙ sym right)

low_digit :
    (z : ℕ → ℕ) (f : ℕ → ℕ → ℕ) (a b : ℕ)
    → bitwise z f (suc a) b ≡ bitwise z f (suc a / 2) (b / 2) * 2 + f (suc a % 2) (b % 2)
low_digit z f a b =
    ap (λ (high : ℕ). high * 2 + f (suc a % 2) (b % 2))
      (count_enough z f a a (suc a / 2) (b / 2) (omega arith) (omega arith))

-- `&` and `|` take the lower and the higher of two digits.
pub bit_and_step : (a b : ℕ) → bit_and a b ≡ bit_and (a / 2) (b / 2) * 2 + min (a % 2) (b % 2)
bit_and_step (suc a) b = simp bit_and-bitwise (low_digit (λ _. 0) min a b)
bit_and_step zero b = simp bit_and-bitwise (omega arith)

pub bit_or_step : (a b : ℕ) → bit_or a b ≡ bit_or (a / 2) (b / 2) * 2 + max (a % 2) (b % 2)
bit_or_step (suc a) b = simp bit_or-bitwise (low_digit (λ other. other) max a b)
bit_or_step zero b = simp bit_or-bitwise (omega arith)

digit-differ-le : (a b : ℕ) → a ≤ 1 → b ≤ 1 → differ a b ≤ 1
digit-differ-le zero b h g = g
digit-differ-le (suc zero) zero h g = omega arith
digit-differ-le (suc zero) (suc zero) h g = omega arith
digit-differ-le (suc zero) (suc (suc b)) h g = absurd (omega arith)
digit-differ-le (suc (suc a)) b h g = absurd (omega arith)

-- The lowest digit of an exclusive or is at most 1, so only this bound is kept of it.
pub bit_xor_step : (a b : ℕ) → bit_xor a b ≤ bit_xor (a / 2) (b / 2) * 2 + 1
bit_xor_step zero b = simp bit_xor-bitwise (omega arith)
bit_xor_step (suc a) b = simp bit_xor-bitwise (
    omega (
      arith,
      low_digit (λ other. other) differ a b,
      digit-differ-le (suc a % 2) (b % 2) (omega arith) (omega arith),
    ))
