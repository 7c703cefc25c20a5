-- ===== src/Cpu/Pipeline/Execute.antt =====
-- pipeline/ex_stage.rs: the execute stage, before any access to memory.
use rust_computer.Base.{
  ℕ, ◌+◌, bit_and, Bool, true, false, not, ◌&&◌, ◌||◌, ◌==◌, if◌then◌else◌, Option, none, some,
  is_some,
}
use rust_computer.Bits.{u32, not32}
use rust_computer.Cpu.Alu.{execute_alu, effective_address}
use rust_computer.Cpu.Branch.{branch_taken, branch_target}
use rust_computer.Cpu.CsrFile
use rust_computer.Cpu.CsrFile.Interrupts.{allows_csr_access, tvm_enabled, tw_enabled, tsr_enabled}
use rust_computer.Cpu.CsrFile.{CsrFile}
use rust_computer.Cpu.Exec.CsrOps
use rust_computer.Cpu.Exec.CsrOps.{CsrWrite, CsrOutcome, illegal}
use rust_computer.Cpu.Exec.Effects.{ecall_exception}
use rust_computer.Cpu.Exec.{immediate_operand}
use rust_computer.Cpu.Mmu.Tlb.{from_operands}
use rust_computer.Cpu.Mmu.Types.{TranslationFence, Completion, done, panicked}
use rust_computer.Cpu.Privilege.{PrivilegeMode, is_user, is_supervisor, is_machine}
use rust_computer.Isa.Csr.{CsrAddress, code, is_read_only}
use rust_computer.Isa.Decode.{DecodedInstruction}
use rust_computer.Isa.Exception.{Trap, exception, breakpoint}
use rust_computer.Isa.Opcode.{
  InstructionKind, CsrOp, SystemKind, ecall, ebreak, sfence_vma, wfi, mret, sret,
}

pub record ExecuteOutcome : Type 0 where
  pub writeback_value : Option ℕ
  pub csr_write : Option CsrWrite
  pub translation_fence : Option TranslationFence
  pub memory_address : Option ℕ
  pub store_value : ℕ
  pub next_pc : ℕ

pub data ExecuteEvent : Type 0 where
  advance : ExecuteOutcome → ExecuteEvent
  trap : Trap → ExecuteEvent

abbrev pub is_load_kind : InstructionKind → Bool
is_load_kind (InstructionKind.load _) = true
is_load_kind _ = false

unfoldable pub is_load : DecodedInstruction → Bool
is_load d = is_load_kind d.kind

abbrev pub is_memory_kind : InstructionKind → Bool
is_memory_kind (InstructionKind.load _) = true
is_memory_kind (InstructionKind.store _) = true
is_memory_kind _ = false

unfoldable pub uses_memory : DecodedInstruction → Bool
uses_memory d = is_memory_kind d.kind

abbrev pub is_writing_kind : InstructionKind → Bool
is_writing_kind InstructionKind.lui = true
is_writing_kind InstructionKind.auipc = true
is_writing_kind InstructionKind.jal = true
is_writing_kind InstructionKind.jalr = true
is_writing_kind (InstructionKind.load _) = true
is_writing_kind (InstructionKind.op_imm _) = true
is_writing_kind (InstructionKind.op _) = true
is_writing_kind (InstructionKind.csr _) = true
is_writing_kind _ = false

-- `decoded.rd.is_some() && decoded.rd != Some(0)`.
abbrev pub is_written_register : Option ℕ → Bool
is_written_register none = false
is_written_register (some rd) = not (rd == 0)

unfoldable pub writes_back : DecodedInstruction → Bool
writes_back d = is_writing_kind d.kind && is_written_register d.rd

-- `ExecuteEvent::Advance` of an instruction that writes a register, or nothing.
abbrev pub plain : Option ℕ → ℕ → ExecuteEvent
plain value next = advance (record {
  writeback_value = value;
  csr_write = none;
  translation_fence = none;
  memory_address = none;
  store_value = 0;
  next_pc = next;
})

abbrev pub to_memory : ℕ → ℕ → ℕ → ExecuteEvent
to_memory address value next = advance (record {
  writeback_value = none;
  csr_write = none;
  translation_fence = none;
  memory_address = some address;
  store_value = value;
  next_pc = next;
})

unfoldable pub finish_csr : CsrAddress → CsrOutcome → DecodedInstruction → ℕ → ExecuteEvent
finish_csr csr outcome d next =
    if is_some outcome.write && is_read_only csr
    then trap (illegal d)
    else advance (record {
      writeback_value = some outcome.read_value;
      csr_write = outcome.write;
      translation_fence = none;
      memory_address = none;
      store_value = 0;
      next_pc = next;
    })

-- The arm of the CSR instructions; without an address it panics.
unfoldable pub execute_csr :
    CsrOp
    → DecodedInstruction
    → ℕ
    → ℕ
    → PrivilegeMode
    → CsrFile
    → Option CsrAddress
    → Completion ExecuteEvent
execute_csr op d v1 next privilege csrs none = panicked
execute_csr op d v1 next privilege csrs (some csr) =
    if not (allows_csr_access csrs privilege csr)
    then done (trap (illegal d))
    else if is_supervisor privilege && tvm_enabled csrs && (code csr == code CsrAddress.satp)
    then done (trap (illegal d))
    else done (finish_csr csr (CsrOps.execute op csr d csrs v1) d next)

abbrev pub fencing : TranslationFence → ℕ → ExecuteEvent
fencing fence next = advance (record {
  writeback_value = none;
  csr_write = none;
  translation_fence = some fence;
  memory_address = none;
  store_value = 0;
  next_pc = next;
})

unfoldable pub execute_system :
    SystemKind → DecodedInstruction → ℕ → ℕ → ℕ → PrivilegeMode → CsrFile → ExecuteEvent
execute_system ecall d v1 v2 next privilege csrs = trap (exception (ecall_exception privilege))
execute_system ebreak d v1 v2 next privilege csrs = trap (exception breakpoint)
execute_system sfence_vma d v1 v2 next privilege csrs =
    if is_user privilege || (is_supervisor privilege && tvm_enabled csrs)
    then trap (illegal d)
    else fencing (from_operands d.rs1 v1 d.rs2 v2) next
execute_system wfi d v1 v2 next privilege csrs =
    if not (is_machine privilege) && tw_enabled csrs then trap (illegal d) else plain none next
execute_system mret d v1 v2 next privilege csrs =
    if not (is_machine privilege)
    then trap (illegal d)
    else plain none (CsrFile.read csrs CsrAddress.mepc)
execute_system sret d v1 v2 next privilege csrs =
    if not (is_supervisor privilege) || tsr_enabled csrs
    then trap (illegal d)
    else plain none (CsrFile.read csrs CsrAddress.sepc)

-- The `match decoded.kind`, with `next_pc` at hand. `immediate_rhs` is `immediate_operand`.
unfoldable pub execute_kind :
    InstructionKind
    → DecodedInstruction
    → ℕ
    → ℕ
    → ℕ
    → PrivilegeMode
    → CsrFile
    → Completion ExecuteEvent
execute_kind InstructionKind.lui d v1 v2 next privilege csrs = done (plain (some d.imm) next)
execute_kind InstructionKind.auipc d v1 v2 next privilege csrs =
    done (plain (some (u32 (d.pc + d.imm))) next)
execute_kind InstructionKind.jal d v1 v2 next privilege csrs =
    done (plain (some next) (branch_target d.pc d.imm))
execute_kind InstructionKind.jalr d v1 v2 next privilege csrs =
    done (plain (some next) (bit_and (effective_address v1 d.imm) (not32 1)))
execute_kind (InstructionKind.branch kind) d v1 v2 next privilege csrs =
    done (plain none (if branch_taken kind v1 v2 then branch_target d.pc d.imm else next))
execute_kind (InstructionKind.load kind) d v1 v2 next privilege csrs =
    done (to_memory (effective_address v1 d.imm) 0 next)
execute_kind (InstructionKind.store kind) d v1 v2 next privilege csrs =
    done (to_memory (effective_address v1 d.imm) v2 next)
execute_kind (InstructionKind.op_imm op) d v1 v2 next privilege csrs =
    done (plain (some (execute_alu op v1 (immediate_operand op d))) next)
execute_kind (InstructionKind.op op) d v1 v2 next privilege csrs =
    done (plain (some (execute_alu op v1 v2)) next)
execute_kind (InstructionKind.csr op) d v1 v2 next privilege csrs =
    execute_csr op d v1 next privilege csrs d.csr
execute_kind (InstructionKind.system kind) d v1 v2 next privilege csrs =
    done (execute_system kind d v1 v2 next privilege csrs)

unfoldable pub execute :
    DecodedInstruction → ℕ → ℕ → PrivilegeMode → CsrFile → Completion ExecuteEvent
execute d v1 v2 privilege csrs = execute_kind d.kind d v1 v2 (u32 (d.pc + 4)) privilege csrs
