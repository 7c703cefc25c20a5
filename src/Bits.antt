-- ===== src/Bits.antt =====
-- The bit operations of Rust's unsigned words, and what they do to each single bit.
-- `&`, `|` and `^` are the native operations; `!` is written out, at 32 and at 64 bits.
mod Step
pub mod Laws
pub mod Masks
pub mod Fields
pub mod Bytes
use rust_computer.Base.{
  ℕ, zero, suc, ◌-◌, ◌*◌, ◌/◌, ◌%◌, ◌^◌, bit_and, Bool, not, ◌==◌, ltb, if◌then◌else◌,
}

-- `!a` on u32 and on u64.
abbrev pub not32 : ℕ → ℕ
not32 a = 2 ^ 32 - 1 - a

abbrev pub not64 : ℕ → ℕ
not64 a = 2 ^ 64 - 1 - a

-- `a as u32`, `a as u64`, and the narrower casts.
abbrev pub u8 : ℕ → ℕ
u8 a = a % 2 ^ 8

abbrev pub u16 : ℕ → ℕ
u16 a = a % 2 ^ 16

abbrev pub u32 : ℕ → ℕ
u32 a = a % 2 ^ 32

abbrev pub u64 : ℕ → ℕ
u64 a = a % 2 ^ 64

-- `a << k` on u32 and `a >> k`.
abbrev pub shl : ℕ → ℕ → ℕ
shl a k = u32 (a * 2 ^ k)

abbrev pub shr : ℕ → ℕ → ℕ
shr a k = a / 2 ^ k

-- `(a & mask) != 0`.
unfoldable pub has_flag : ℕ → ℕ → Bool
has_flag a mask = not (bit_and a mask == 0)

-- Bit `i` of `a`, bit 0 the lowest: the reading that the laws are stated in.
unfoldable pub test_bit : ℕ → ℕ → Bool
test_bit a zero = a % 2 == 1
test_bit a (suc i) = test_bit (a / 2) i

-- `(value as i32) >> k`: the sign bit moves in from the left.
unfoldable pub sar : ℕ → ℕ → ℕ
sar value k = if ltb value (2 ^ 31) then value / 2 ^ k else not32 (not32 value / 2 ^ k)
