-- ===== src/Cpu/Alu/Signed.antt =====
-- The ALU's words: results stay words, `sra` divides, and the branch tests come in opposite pairs.
use native.Mathlib.Nat.{div-le_self}
use rust_computer.Base.{
  ℕ, ◌/◌, ◌^◌, ◌<◌, ◌≡◌, refl, arith, bit_and, Bool, true, false, not, ltb, signed32, floor_div,
}
use rust_computer.Bits.Laws.{bit_or-lt, bit_xor-lt, bit_and-le}
use rust_computer.Bits.{not32}
use rust_computer.Cpu.Alu.{execute_alu, slt32, bool_bit}
use rust_computer.Cpu.Branch.{branch_taken}
use rust_computer.Bits.{sar}
use rust_computer.Isa.Opcode.{
  AluOp, add, sub, and, or, xor, sll, slt, sltu, srl, sra, BranchKind, beq, bne, blt, bge, bltu,
  bgeu,
}

-- `sar` divides the signed reading of a word by a power of two, and rounds down.
pub signed32-sar : (v k : ℕ) → v < 2 ^ 32 → signed32 (sar v k) ≡ floor_div (signed32 v) (2 ^ k)
unfolding sar
signed32-sar v k h =
    ground (arith, div-le_self v (2 ^ k), div-le_self (not32 v) (2 ^ k), floor_cases)
  where
    floor_cases : not32 (not32 (not32 v / 2 ^ k)) ≡ not32 v / 2 ^ k
    floor_cases = omega (arith, div-le_self (not32 v) (2 ^ k))

bool_bit-lt : (b : Bool) → bool_bit b < 2 ^ 32
bool_bit-lt true = omega arith
bool_bit-lt false = omega arith

-- The operands being words, the result is one.
pub execute_alu-lt : (op : AluOp) (a b : ℕ) → a < 2 ^ 32 → b < 2 ^ 32 → execute_alu op a b < 2 ^ 32
unfolding execute_alu sar
execute_alu-lt add a b h g = omega arith
execute_alu-lt sub a b h g = omega arith
execute_alu-lt and a b h g = omega (arith, bit_and-le a b)
execute_alu-lt or a b h g = bit_or-lt 32 a b h g
execute_alu-lt xor a b h g = bit_xor-lt 32 a b h g
execute_alu-lt sll a b h g = omega arith
execute_alu-lt slt a b h g = bool_bit-lt (slt32 a b)
execute_alu-lt sltu a b h g = bool_bit-lt (ltb a b)
execute_alu-lt srl a b h g = omega (arith, div-le_self a (2 ^ bit_and b 31))
execute_alu-lt sra a b h g =
    ground (arith, div-le_self a (2 ^ bit_and b 31), div-le_self (not32 a) (2 ^ bit_and b 31))

-- The opposite branch.
abbrev pub opposite : BranchKind → BranchKind
opposite beq = bne
opposite bne = beq
opposite blt = bge
opposite bge = blt
opposite bltu = bgeu
opposite bgeu = bltu

-- Of a branch and its opposite, on any operands, exactly one is taken.
pub branch_taken-opposite :
    (kind : BranchKind) (a b : ℕ) → branch_taken (opposite kind) a b ≡ not (branch_taken kind a b)
unfolding branch_taken slt32
branch_taken-opposite beq a b = refl
branch_taken-opposite bne a b = ground arith
branch_taken-opposite blt a b = ground arith
branch_taken-opposite bge a b = ground arith
branch_taken-opposite bltu a b = ground arith
branch_taken-opposite bgeu a b = ground arith
