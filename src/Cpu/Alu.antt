-- ===== src/Cpu/Alu.antt =====
-- crates/cpu/src/exec/alu.rs and load_store.rs.
pub mod Signed
use rust_computer.Base.{
  ℕ, ◌+◌, ◌-◌, ◌%◌, ◌^◌, bit_and, bit_or, bit_xor, Bool, true, false, ltb, ltℤ, signed32,
  if◌then◌else◌,
}
use rust_computer.Bits.{shl, shr, u32}
use rust_computer.Bits.{sar}
use rust_computer.Isa.Opcode.{AluOp, add, sub, and, or, xor, sll, slt, sltu, srl, sra}

-- `(lhs as i32) < (rhs as i32)`.
unfoldable pub slt32 : ℕ → ℕ → Bool
slt32 lhs rhs = ltℤ (signed32 lhs) (signed32 rhs)

-- `b as u32`.
abbrev pub bool_bit : Bool → ℕ
bool_bit true = 1
bool_bit false = 0

unfoldable pub execute_alu : AluOp → ℕ → ℕ → ℕ
unfolding slt32 sar
execute_alu add lhs rhs = u32 (lhs + rhs)
execute_alu sub lhs rhs = u32 (lhs + 2 ^ 32 - rhs)
execute_alu and lhs rhs = bit_and lhs rhs
execute_alu or lhs rhs = bit_or lhs rhs
execute_alu xor lhs rhs = bit_xor lhs rhs
execute_alu sll lhs rhs = shl lhs (bit_and rhs 0x1f)
execute_alu slt lhs rhs = bool_bit (slt32 lhs rhs)
execute_alu sltu lhs rhs = bool_bit (ltb lhs rhs)
execute_alu srl lhs rhs = shr lhs (bit_and rhs 0x1f)
execute_alu sra lhs rhs = sar lhs (bit_and rhs 0x1f)

-- `base.wrapping_add_signed(offset)`, the offset given by its bit pattern.
unfoldable pub effective_address : ℕ → ℕ → ℕ
effective_address base offset = u32 (base + offset)

-- `(value as i8 as i32) as u32` and `(value as i16 as i32) as u32`.
unfoldable pub sign_extend_byte : ℕ → ℕ
sign_extend_byte value = if ltb value (2 ^ 7) then value else value + 2 ^ 32 - 2 ^ 8

unfoldable pub sign_extend_half : ℕ → ℕ
sign_extend_half value = if ltb value (2 ^ 15) then value else value + 2 ^ 32 - 2 ^ 16
