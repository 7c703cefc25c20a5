-- ===== src/Cpu/Hart.antt =====
-- crates/cpu/src/state/mod.rs: the architectural state of the hart.
use rust_computer.Base.{ℕ, Bool, false}
use rust_computer.Cpu.CsrFile.{CsrFile, write}
use rust_computer.Cpu.CsrFile
use rust_computer.Cpu.Privilege.{PrivilegeMode, machine}
use rust_computer.Cpu.Registers.{RegisterFile}
use rust_computer.Cpu.Registers
use rust_computer.Isa.Csr.{CsrAddress}

pub record HartState : Type 0 where
  pub reset_vector : ℕ
  pub pc : ℕ
  pub registers : RegisterFile
  pub csrs : CsrFile
  pub privilege : PrivilegeMode
  pub halted : Bool

unfoldable pub new : ℕ → HartState
new reset_vector = record {
  reset_vector = reset_vector;
  pc = reset_vector;
  registers = Registers.default;
  csrs = write (write CsrFile.default CsrAddress.mtvec reset_vector) CsrAddress.stvec reset_vector;
  privilege = machine;
  halted = false;
}

unfoldable pub reset : HartState → ℕ → HartState
reset h reset_vector = record h {
  reset_vector = reset_vector;
  pc = reset_vector;
  registers = Registers.default;
  csrs = write (write CsrFile.default CsrAddress.mtvec reset_vector) CsrAddress.stvec reset_vector;
  privilege = machine;
  halted = false;
}
