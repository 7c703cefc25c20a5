-- ===== src/Cpu/Exec/Effects.antt =====
-- exec/mod.rs: results, traps and the register write that every instruction uses.
use rust_computer.Base.{ℕ, Bool, false, Option, none, some, Result, ok}
use rust_computer.Cpu.CsrFile.Traps.{
  enter_trap, return_from_machine_trap, return_from_supervisor_trap,
}
use rust_computer.Cpu.CsrFile.{CsrFile}
use rust_computer.Cpu.Hart.{HartState}
use rust_computer.Cpu.Mmu.Types.{
  MemoryAccess, instruction, load, store, PageWalker, Completion, done,
}
use rust_computer.Cpu.Privilege.{PrivilegeMode, user, supervisor, machine}
use rust_computer.Cpu.Registers.{read, write}
use rust_computer.Isa.Exception.{Exception, Trap, exception}
use rust_computer.Isa.Opcode.{SystemKind, mret, sret}
use rust_computer.System.Bus.{
  BusError, busy, misaligned_access, unmapped_address, read_only_address, device_fault,
}

pub record ExecutionResult : Type 0 where
  pub retired : ℕ
  pub trap : Option Trap
  pub memory_access : Bool

-- core/trait.rs.
pub data CpuError : Type 0 where
  bus : BusError → CpuError
  decode : ℕ → CpuError

abbrev pub Outcome : Type 0 → Type 0
Outcome S = S × PageWalker × HartState × Completion (Result CpuError ExecutionResult)

unfoldable pub register_value : HartState → Option ℕ → ℕ
register_value h none = 0
register_value h (some r) = read h.registers r

unfoldable pub write_rd : HartState → Option ℕ → ℕ → HartState
write_rd h none value = h
write_rd h (some rd) value = record h { registers = write h.registers rd value }

-- The result at the end of `execute_decoded`.
abbrev pub retire : {S : Type 0} → HartState → PageWalker → S → Outcome S
retire h w s = (s, w, h, done (ok (record { retired = 1; trap = none; memory_access = false })))

unfoldable pub apply_trap : HartState → Trap → ℕ → HartState × ExecutionResult
apply_trap h trap current_pc =
    let (csrs, privilege, trap_vector) = enter_trap h.csrs trap current_pc h.privilege in
    (
      record h { csrs = csrs; privilege = privilege; pc = trap_vector; halted = false },
      record { retired = 0; trap = some trap; memory_access = false },
    )

-- `return Ok(apply_trap(..))`, with `memory_access` set as the caller sets it.
unfoldable pub trapped : {S : Type 0} → Bool → HartState → PageWalker → S → Trap → ℕ → Outcome S
trapped accessed h w s trap current_pc =
    let (h', result) = apply_trap h trap current_pc in
    (s, w, h', done (ok (record result { memory_access = accessed })))

abbrev resume : HartState → CsrFile × PrivilegeMode × ℕ → HartState
resume h (csrs, privilege, next_pc) = record h {
  csrs = csrs;
  privilege = privilege;
  pc = next_pc;
  halted = false;
}

-- `none` is the `unreachable!` of `return_from_trap`.
unfoldable pub return_from_trap : HartState → SystemKind → Option (HartState × ExecutionResult)
return_from_trap h mret = some (
  resume h (return_from_machine_trap h.csrs),
  record { retired = 1; trap = none; memory_access = false },
)
return_from_trap h sret = some (
  resume h (return_from_supervisor_trap h.csrs),
  record { retired = 1; trap = none; memory_access = false },
)
return_from_trap h _ = none

unfoldable pub ecall_exception : PrivilegeMode → Exception
ecall_exception user = Exception.environment_call_from_u_mode
ecall_exception supervisor = Exception.environment_call_from_s_mode
ecall_exception machine = Exception.environment_call_from_m_mode

abbrev misaligned : MemoryAccess → ℕ → Trap
misaligned instruction address = exception (Exception.instruction_address_misaligned address)
misaligned load address = exception (Exception.load_address_misaligned address)
misaligned store address = exception (Exception.store_address_misaligned address)

abbrev access_fault : MemoryAccess → ℕ → Trap
access_fault instruction address = exception (Exception.instruction_access_fault address)
access_fault load address = exception (Exception.load_access_fault address)
access_fault store address = exception (Exception.store_access_fault address)

unfoldable pub map_bus_error_to_trap : BusError → ℕ → MemoryAccess → Option Trap
map_bus_error_to_trap (busy _) address access = none
map_bus_error_to_trap (misaligned_access _ _) address access = some (misaligned access address)
map_bus_error_to_trap (unmapped_address _) address access = some (access_fault access address)
map_bus_error_to_trap (read_only_address _) address access = some (access_fault access address)
map_bus_error_to_trap (device_fault _ _) address access = some (access_fault access address)
