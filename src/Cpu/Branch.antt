-- ===== src/Cpu/Branch.antt =====
-- crates/cpu/src/exec/branch.rs.
use rust_computer.Base.{ℕ, ◌+◌, Bool, not, ltb, leb, leℤ, signed32, ◌==◌}
use rust_computer.Bits.{u32}
use rust_computer.Cpu.Alu.{slt32}
use rust_computer.Isa.Opcode.{BranchKind, beq, bne, blt, bge, bltu, bgeu}

unfoldable pub branch_taken : BranchKind → ℕ → ℕ → Bool
unfolding slt32
branch_taken beq lhs rhs = lhs == rhs
branch_taken bne lhs rhs = not (lhs == rhs)
branch_taken blt lhs rhs = slt32 lhs rhs
branch_taken bge lhs rhs = leℤ (signed32 rhs) (signed32 lhs)
branch_taken bltu lhs rhs = ltb lhs rhs
branch_taken bgeu lhs rhs = leb rhs lhs

-- `pc.wrapping_add_signed(imm)`.
unfoldable pub branch_target : ℕ → ℕ → ℕ
branch_target pc imm = u32 (pc + imm)
