-- ===== src/Cpu/Exec/System.antt =====
-- exec/mod.rs, lines 228 to 302: the system instructions.
use rust_computer.Base.{ℕ, true, false, not, ◌&&◌, ◌||◌, Option, none, some, ok, if◌then◌else◌}
use rust_computer.Cpu.CsrFile.Interrupts.{tvm_enabled, tw_enabled, tsr_enabled}
use rust_computer.Cpu.Exec.CsrOps.{illegal}
use rust_computer.Cpu.Exec.Effects.{
  ExecutionResult, Outcome, retire, trapped, return_from_trap, ecall_exception,
}
use rust_computer.Cpu.Hart.{HartState}
use rust_computer.Cpu.Mmu.Tlb.{flush_fence, from_operands}
use rust_computer.Cpu.Mmu.Types.{PageWalker, done, panicked}
use rust_computer.Cpu.Privilege.{is_user, is_supervisor, is_machine}
use rust_computer.Isa.Decode.{DecodedInstruction}
use rust_computer.Isa.Exception.{exception, breakpoint}
use rust_computer.Isa.Opcode.{SystemKind, ecall, ebreak, sfence_vma, wfi, mret, sret}

-- `return Ok(return_from_trap(..))`.
abbrev returned :
    {S : Type 0} → HartState → PageWalker → S → Option (HartState × ExecutionResult) → Outcome S
returned h w s none = (s, w, h, panicked)
returned h w s (some (h', result)) = (s, w, h', done (ok result))

unfoldable pub execute_system :
    {S : Type 0}
    → SystemKind
    → DecodedInstruction
    → ℕ
    → ℕ
    → ℕ
    → HartState
    → PageWalker
    → S
    → Outcome S
execute_system ecall d v1 v2 next h w s =
    trapped false h w s (exception (ecall_exception h.privilege)) d.pc
execute_system ebreak d v1 v2 next h w s = trapped false h w s (exception breakpoint) d.pc
execute_system sfence_vma d v1 v2 next h w s =
    if is_user h.privilege || (is_supervisor h.privilege && tvm_enabled h.csrs)
    then trapped false h w s (illegal d) d.pc
    else retire (record h { pc = next }) (flush_fence w (from_operands d.rs1 v1 d.rs2 v2)) s
execute_system wfi d v1 v2 next h w s =
    if not (is_machine h.privilege) && tw_enabled h.csrs
    then trapped false h w s (illegal d) d.pc
    else retire (record h { pc = next; halted = true }) w s
execute_system mret d v1 v2 next h w s =
    if not (is_machine h.privilege)
    then trapped false h w s (illegal d) d.pc
    else returned h w s (return_from_trap h mret)
execute_system sret d v1 v2 next h w s =
    if not (is_supervisor h.privilege) || tsr_enabled h.csrs
    then trapped false h w s (illegal d) d.pc
    else returned h w s (return_from_trap h sret)
