-- ===== src/Cpu/CsrFile.antt =====
-- crates/cpu/src/state/csr_file.rs and privilege.rs: the CSR file. Every `u32` field is a number
-- below 2 ^ 32, and the three counters are below 2 ^ 64.
mod Masks
pub mod Interrupts
pub mod Traps
pub mod Status
pub mod Restore
pub mod Chosen
pub mod Masked
pub mod Pending
pub use Masks.*
use rust_computer.Base.{
  ℕ, ◌+◌, ◌-◌, ◌*◌, ◌/◌, ◌%◌, ◌^◌, bit_and, bit_or, Bool, true, false, not, ◌&&◌, ◌||◌, Option,
  none, some, List, [], ◌∷◌, ltb, ◌==◌, if◌then◌else◌,
}
use rust_computer.Bits.{not32, not64, u32, u64, shr, has_flag}
use rust_computer.Isa.Csr.{CsrAddress}

pub record MachineCsrs : Type 0 where
  pub mstatus : ℕ
  pub medeleg : ℕ
  pub mideleg : ℕ
  pub mie : ℕ
  pub mtvec : ℕ
  pub mcounteren : ℕ
  pub mcycle : ℕ
  pub time : ℕ
  pub minstret : ℕ
  pub mepc : ℕ
  pub mcause : ℕ
  pub mtval : ℕ
  pub mip : ℕ

pub record SupervisorCsrs : Type 0 where
  pub stvec : ℕ
  pub scounteren : ℕ
  pub sepc : ℕ
  pub scause : ℕ
  pub stval : ℕ
  pub satp : ℕ

pub record CsrFile : Type 0 where
  pub machine : MachineCsrs
  pub supervisor : SupervisorCsrs
  pub software_pending : ℕ
  pub external_pending : ℕ

unfoldable pub default : CsrFile
default = record {
  machine = record {
    mstatus = 0;
    medeleg = 0;
    mideleg = 0;
    mie = 0;
    mtvec = 0;
    mcounteren = 0;
    mcycle = 0;
    time = 0;
    minstret = 0;
    mepc = 0;
    mcause = 0;
    mtval = 0;
    mip = 0;
  };
  supervisor = record { stvec = 0; scounteren = 0; sepc = 0; scause = 0; stval = 0; satp = 0 };
  software_pending = 0;
  external_pending = 0;
}

-- The fields of the two groups, given anew.
abbrev with_machine : CsrFile → MachineCsrs → CsrFile
with_machine c m = record c { machine = m }

abbrev with_supervisor : CsrFile → SupervisorCsrs → CsrFile
with_supervisor c s = record c { supervisor = s }

unfoldable pub low_half : ℕ → ℕ
low_half value = u32 value

unfoldable pub high_half : ℕ → ℕ
high_half value = shr value 32

unfoldable pub write_low_half : ℕ → ℕ → ℕ
write_low_half target value = bit_or (bit_and target (not64 0xffff_ffff)) value

unfoldable pub write_high_half : ℕ → ℕ → ℕ
write_high_half target value = bit_or (u64 (value * 2 ^ 32)) (bit_and target 0xffff_ffff)

unfoldable pub set_flag : ℕ → ℕ → Bool → ℕ
set_flag value mask enabled = if enabled then bit_or value mask else bit_and value (not32 mask)

-- `(old & !mask) | (value & mask)`, the form of the masked writes.
unfoldable pub merge : ℕ → ℕ → ℕ → ℕ
merge mask old value = bit_or (bit_and old (not32 mask)) (bit_and value mask)

unfoldable pub read : CsrFile → CsrAddress → ℕ
unfolding low_half high_half
read c CsrAddress.sstatus = bit_and c.machine.mstatus sstatus_mask
read c CsrAddress.sie = bit_and c.machine.mie sie_mask
read c CsrAddress.stvec = c.supervisor.stvec
read c CsrAddress.scounteren = c.supervisor.scounteren
read c CsrAddress.satp = c.supervisor.satp
read c CsrAddress.mstatus = c.machine.mstatus
read c CsrAddress.medeleg = c.machine.medeleg
read c CsrAddress.mideleg = c.machine.mideleg
read c CsrAddress.mie = c.machine.mie
read c CsrAddress.mtvec = c.machine.mtvec
read c CsrAddress.mcounteren = c.machine.mcounteren
read c CsrAddress.mcycle = low_half c.machine.mcycle
read c CsrAddress.minstret = low_half c.machine.minstret
read c CsrAddress.mcycleh = high_half c.machine.mcycle
read c CsrAddress.minstreth = high_half c.machine.minstret
read c CsrAddress.cycle = low_half c.machine.mcycle
read c CsrAddress.time = low_half c.machine.time
read c CsrAddress.instret = low_half c.machine.minstret
read c CsrAddress.cycleh = high_half c.machine.mcycle
read c CsrAddress.timeh = high_half c.machine.time
read c CsrAddress.instreth = high_half c.machine.minstret
read c CsrAddress.sepc = c.supervisor.sepc
read c CsrAddress.scause = c.supervisor.scause
read c CsrAddress.stval = c.supervisor.stval
read c CsrAddress.sip = bit_and c.machine.mip sip_mask
read c CsrAddress.mepc = c.machine.mepc
read c CsrAddress.mcause = c.machine.mcause
read c CsrAddress.mtval = c.machine.mtval
read c CsrAddress.mip = c.machine.mip

-- `refresh_mip`: the pending register from its software and external parts.
unfoldable pub refresh_mip : CsrFile → CsrFile
refresh_mip c = with_machine c (record (c.machine) {
  mip =
      bit_or
        (bit_or (bit_and c.machine.mip (not32 managed_interrupt_mask))
          (bit_and c.software_pending mip_writable_mask))
        (bit_and c.external_pending managed_interrupt_mask);
})

unfoldable pub write : CsrFile → CsrAddress → ℕ → CsrFile
unfolding refresh_mip write_low_half write_high_half merge
write c CsrAddress.sstatus value =
    with_machine c (record (c.machine) { mstatus = merge sstatus_mask c.machine.mstatus value })
write c CsrAddress.sie value =
    with_machine c (record (c.machine) { mie = merge sie_mask c.machine.mie value })
write c CsrAddress.stvec value = with_supervisor c (record (c.supervisor) { stvec = value })
write c CsrAddress.scounteren value =
    with_supervisor c (record (c.supervisor) { scounteren = bit_and value counteren_mask })
write c CsrAddress.satp value = with_supervisor c (record (c.supervisor) { satp = value })
write c CsrAddress.mstatus value = with_machine c (record (c.machine) { mstatus = value })
write c CsrAddress.medeleg value =
    with_machine c (record (c.machine) { medeleg = bit_and value medeleg_mask })
write c CsrAddress.mideleg value =
    with_machine c (record (c.machine) { mideleg = bit_and value mideleg_mask })
write c CsrAddress.mie value = with_machine c (record (c.machine) { mie = bit_and value mie_mask })
write c CsrAddress.mtvec value = with_machine c (record (c.machine) { mtvec = value })
write c CsrAddress.mcounteren value =
    with_machine c (record (c.machine) { mcounteren = bit_and value counteren_mask })
write c CsrAddress.mcycle value =
    with_machine c (record (c.machine) { mcycle = write_low_half c.machine.mcycle value })
write c CsrAddress.cycle value =
    with_machine c (record (c.machine) { mcycle = write_low_half c.machine.mcycle value })
write c CsrAddress.time value =
    with_machine c (record (c.machine) { time = write_low_half c.machine.time value })
write c CsrAddress.minstret value =
    with_machine c (record (c.machine) { minstret = write_low_half c.machine.minstret value })
write c CsrAddress.instret value =
    with_machine c (record (c.machine) { minstret = write_low_half c.machine.minstret value })
write c CsrAddress.mcycleh value =
    with_machine c (record (c.machine) { mcycle = write_high_half c.machine.mcycle value })
write c CsrAddress.cycleh value =
    with_machine c (record (c.machine) { mcycle = write_high_half c.machine.mcycle value })
write c CsrAddress.timeh value =
    with_machine c (record (c.machine) { time = write_high_half c.machine.time value })
write c CsrAddress.minstreth value =
    with_machine c (record (c.machine) { minstret = write_high_half c.machine.minstret value })
write c CsrAddress.instreth value =
    with_machine c (record (c.machine) { minstret = write_high_half c.machine.minstret value })
write c CsrAddress.sepc value = with_supervisor c (record (c.supervisor) { sepc = value })
write c CsrAddress.scause value = with_supervisor c (record (c.supervisor) { scause = value })
write c CsrAddress.stval value = with_supervisor c (record (c.supervisor) { stval = value })
write c CsrAddress.sip value =
    refresh_mip (record c { software_pending = merge sip_writable_mask c.software_pending value })
write c CsrAddress.mepc value = with_machine c (record (c.machine) { mepc = value })
write c CsrAddress.mcause value = with_machine c (record (c.machine) { mcause = value })
write c CsrAddress.mtval value = with_machine c (record (c.machine) { mtval = value })
write c CsrAddress.mip value =
    refresh_mip (record c { software_pending = merge mip_writable_mask c.software_pending value })
