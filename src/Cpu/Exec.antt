-- ===== src/Cpu/Exec.antt =====
-- crates/cpu/src/exec/mod.rs and csr.rs: one decoded instruction against the hart, the page walker
-- and the bus.
pub mod CsrOps
pub mod Effects
pub mod Memory
pub mod System
pub mod Sound
pub mod MemorySound
pub mod Safety
use rust_computer.Base.{ℕ, ◌+◌, ◌*◌, ◌^◌, bit_and, Option, none, some, unwrap_or, if◌then◌else◌}
use rust_computer.Bits.{shr, u32, not32}
use rust_computer.Cpu.Alu.{execute_alu, effective_address}
use rust_computer.Cpu.Branch.{branch_taken, branch_target}
use rust_computer.Cpu.Exec.CsrOps.{execute_csr}
use rust_computer.Cpu.Exec.Memory.{execute_load, execute_store}
use rust_computer.Cpu.Exec.Effects.{ExecutionResult, Outcome, retire, write_rd, register_value}
use rust_computer.Cpu.Exec.System.{execute_system}
use rust_computer.Cpu.Hart.{HartState}
use rust_computer.Cpu.Mmu.Types.{PageWalker}
use rust_computer.Isa.Decode.{DecodedInstruction}
use rust_computer.Isa.Opcode.{AluOp, InstructionKind}
use rust_computer.Isa.Opcode
use rust_computer.System.Bus.{Bus}

-- `rhs` of the immediate operations: the shifts take the raw bits above 20.
unfoldable pub immediate_operand : AluOp → DecodedInstruction → ℕ
immediate_operand AluOp.sll d = shr d.raw 20
immediate_operand AluOp.srl d = shr d.raw 20
immediate_operand AluOp.sra d = shr d.raw 20
immediate_operand _ d = d.imm

-- The new hart of an instruction that only writes a register and moves on.
abbrev assign : HartState → Option ℕ → ℕ → ℕ → HartState
assign h rd value next_pc = record (write_rd h rd value) { pc = next_pc }

module _ {S : Type 0} (bus : Bus S) where
  -- The `match decoded.kind`, with the register operands and `next_pc` at hand.
  unfoldable pub execute_kind :
      InstructionKind → DecodedInstruction → ℕ → ℕ → ℕ → HartState → PageWalker → S → Outcome S
  execute_kind InstructionKind.lui d v1 v2 next h w s = retire (assign h d.rd d.imm next) w s
  execute_kind InstructionKind.auipc d v1 v2 next h w s =
      retire (assign h d.rd (u32 (d.pc + d.imm)) next) w s
  execute_kind InstructionKind.jal d v1 v2 next h w s =
      retire (assign h d.rd next (branch_target d.pc d.imm)) w s
  execute_kind InstructionKind.jalr d v1 v2 next h w s =
      retire (assign h d.rd next (bit_and (effective_address v1 d.imm) (not32 1))) w s
  execute_kind (InstructionKind.branch kind) d v1 v2 next h w s =
      retire (record h { pc = if branch_taken kind v1 v2 then branch_target d.pc d.imm else next })
        w s
  execute_kind (InstructionKind.load kind) d v1 v2 next h w s =
      execute_load bus kind d v1 next h w s
  execute_kind (InstructionKind.store kind) d v1 v2 next h w s =
      execute_store bus kind d v1 v2 next h w s
  execute_kind (InstructionKind.op_imm op) d v1 v2 next h w s =
      retire (assign h d.rd (execute_alu op v1 (immediate_operand op d)) next) w s
  execute_kind (InstructionKind.op op) d v1 v2 next h w s =
      retire (assign h d.rd (execute_alu op v1 v2) next) w s
  execute_kind (InstructionKind.csr op) d v1 v2 next h w s = execute_csr op d v1 next h w s
  execute_kind (InstructionKind.system kind) d v1 v2 next h w s =
      execute_system kind d v1 v2 next h w s

  unfoldable pub execute_decoded : HartState → PageWalker → S → DecodedInstruction → Outcome S
  execute_decoded h w s d =
      execute_kind d.kind d (register_value h d.rs1) (register_value h d.rs2) (u32 (d.pc + 4)) h w s
