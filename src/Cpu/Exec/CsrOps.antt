-- ===== src/Cpu/Exec/CsrOps.antt =====
-- exec/csr.rs, and the arm of `execute_decoded` for the CSR instructions.
use rust_computer.Base.{
  ℕ, bit_and, bit_or, false, not, ◌&&◌, Option, none, some, is_some, unwrap_or, ◌==◌, if◌then◌else◌,
}
use rust_computer.Bits.{not32}
use rust_computer.Cpu.CsrFile.Interrupts.{allows_csr_access, tvm_enabled}
use rust_computer.Cpu.CsrFile.{CsrFile}
use rust_computer.Cpu.CsrFile
use rust_computer.Cpu.Exec.Effects.{Outcome, retire, trapped, write_rd}
use rust_computer.Cpu.Hart.{HartState}
use rust_computer.Cpu.Mmu.Types.{PageWalker, panicked}
use rust_computer.Cpu.Privilege.{is_supervisor}
use rust_computer.Isa.Csr.{CsrAddress, code, is_read_only}
use rust_computer.Isa.Decode.{DecodedInstruction}
use rust_computer.Isa.Exception.{exception, illegal_instruction, Trap}
use rust_computer.Isa.Opcode.{
  CsrOp, read_write, read_set, read_clear, read_write_immediate, read_set_immediate,
  read_clear_immediate,
}

pub record CsrWrite : Type 0 where
  pub address : CsrAddress
  pub value : ℕ

pub record CsrOutcome : Type 0 where
  pub read_value : ℕ
  pub write : Option CsrWrite

-- The register's value, or the five bits of the register's number.
unfoldable pub source : CsrOp → DecodedInstruction → ℕ → ℕ
source read_write d v1 = v1
source read_set d v1 = v1
source read_clear d v1 = v1
source read_write_immediate d v1 = unwrap_or d.rs1 0
source read_set_immediate d v1 = unwrap_or d.rs1 0
source read_clear_immediate d v1 = unwrap_or d.rs1 0

abbrev unless_zero : ℕ → CsrAddress → ℕ → Option CsrWrite
unless_zero source address value =
    if source == 0 then none else some (record { address = address; value = value })

unfoldable pub write_value : CsrOp → CsrAddress → ℕ → ℕ → Option CsrWrite
write_value read_write address current source = some (record { address = address; value = source })
write_value read_write_immediate address current source =
    some (record { address = address; value = source })
write_value read_set address current source = unless_zero source address (bit_or current source)
write_value read_set_immediate address current source =
    unless_zero source address (bit_or current source)
write_value read_clear address current source =
    unless_zero source address (bit_and current (not32 source))
write_value read_clear_immediate address current source =
    unless_zero source address (bit_and current (not32 source))

-- `csr::execute`, of an instruction known to be a CSR instruction with this address.
unfoldable pub execute : CsrOp → CsrAddress → DecodedInstruction → CsrFile → ℕ → CsrOutcome
execute op address d csrs v1 =
    let current = CsrFile.read csrs address in
    record { read_value = current; write = write_value op address current (source op d v1) }

abbrev pub apply_write : CsrFile → Option CsrWrite → CsrFile
apply_write csrs none = csrs
apply_write csrs (some x) = CsrFile.write csrs x.address x.value

-- The trap of a refused instruction.
abbrev pub illegal : DecodedInstruction → Trap
illegal d = exception (illegal_instruction d.raw)

-- The end of the arm, after the checks on the access.
unfoldable pub commit_csr :
    {S : Type 0}
    → CsrAddress
    → CsrOutcome
    → DecodedInstruction
    → ℕ
    → HartState
    → PageWalker
    → S
    → Outcome S
commit_csr address outcome d next h w s =
    if is_some outcome.write && is_read_only address
    then trapped false h w s (illegal d) d.pc
    else (let h' = write_rd h d.rd outcome.read_value in
        retire (record h' { csrs = apply_write h'.csrs outcome.write; pc = next }) w s)

unfoldable pub execute_csr_at :
    {S : Type 0}
    → CsrOp
    → DecodedInstruction
    → ℕ
    → ℕ
    → HartState
    → PageWalker
    → S
    → Option CsrAddress
    → Outcome S
execute_csr_at op d v1 next h w s none = (s, w, h, panicked)
execute_csr_at op d v1 next h w s (some address) =
    if not (allows_csr_access h.csrs h.privilege address)
    then trapped false h w s (illegal d) d.pc
    else if is_supervisor h.privilege
        && tvm_enabled h.csrs
        && (code address == code CsrAddress.satp)
    then trapped false h w s (illegal d) d.pc
    else commit_csr address (execute op address d h.csrs v1) d next h w s

unfoldable pub execute_csr :
    {S : Type 0} → CsrOp → DecodedInstruction → ℕ → ℕ → HartState → PageWalker → S → Outcome S
execute_csr op d v1 next h w s = execute_csr_at op d v1 next h w s d.csr
