-- ===== src/Examples/Csrs.antt =====
-- The CSR file and the traps on concrete values.
use rust_computer.Base.{
  ◌^◌, ◌≡◌, refl, arith, bit_and, true, false, ◌&&◌, ◌||◌, ◌==◌, if◌then◌else◌, ok, ◌↔◌,
}
use rust_computer.Bits.{test_bit, has_flag}
use rust_computer.Cpu.CsrFile
use rust_computer.Cpu.CsrFile.Chosen.{
  Chosen, pending_interrupt-Chosen, is_deliverable-user, is_deliverable-machine,
}
use rust_computer.Cpu.CsrFile.Interrupts.{
  is_deliverable, pending_interrupt, interrupt_is_pending, interrupt_is_enabled, sync_interrupts,
}
use rust_computer.Cpu.CsrFile.Masked.{read-write-implemented, implemented}
use rust_computer.Cpu.CsrFile.Pending.{sync_interrupts-line, line_bit}
use rust_computer.Cpu.CsrFile.Restore.{Restores, enter_trap-Restores}
use rust_computer.Cpu.CsrFile.Status.{
  machine_trap_status-round_trip, supervisor_trap_status-round_trip,
}
use rust_computer.Cpu.CsrFile.Traps.{
  enter_trap, machine_trap_status, machine_return_status, supervisor_trap_status,
  supervisor_return_status,
}
use rust_computer.Cpu.CsrFile.{read, write, mip_writable_mask}
use rust_computer.Cpu.Privilege.{supervisor, machine, user}
use rust_computer.Isa.Csr
use rust_computer.Isa.Csr.Laws.{try_from_iff}
use rust_computer.Isa.Csr.Privilege.{user_csr-read_only}
use rust_computer.Isa.Csr.{CsrAddress, code, try_from, is_read_only}
use rust_computer.Isa.Exception.{Interrupt, exception, breakpoint}
use rust_computer.System.Interrupts.{InterruptLine, contains, from_line}

-- Breakpoints go to the supervisor, and its external and timer interrupts are pending and enabled.
abbrev csrs : CsrFile.CsrFile
csrs = record (CsrFile.default) {
  machine = record (CsrFile.default.machine) {
    mstatus = 0x22;
    medeleg = 0x8;
    mie = 0x220;
    mip = 0x220;
  };
}

enter_trap-Restores_example :
    Restores supervisor 0x8000_0010 (enter_trap csrs (exception breakpoint) 0x8000_0010 supervisor)
enter_trap-Restores_example = enter_trap-Restores csrs (exception breakpoint) 0x8000_0010 supervisor

machine_trap_status-round_trip_example :
    test_bit (machine_return_status (machine_trap_status 0x8 supervisor)) 3
    ≡ (if (3 == 11) || (3 == 12) then false else if 3 == 7 then true else test_bit 0x8 3)
machine_trap_status-round_trip_example =
    machine_trap_status-round_trip 3 0x8 supervisor (omega arith)

supervisor_trap_status-round_trip_example :
    test_bit (supervisor_return_status (supervisor_trap_status 0x2 user)) 1
    ≡ (if 1 == 8 then false else if 1 == 5 then true else test_bit 0x2 1)
supervisor_trap_status-round_trip_example =
    supervisor_trap_status-round_trip 1 0x2 user (omega arith)

pending_interrupt-Chosen_example : Chosen (is_deliverable csrs user) (pending_interrupt csrs user)
pending_interrupt-Chosen_example = pending_interrupt-Chosen csrs user

is_deliverable-user_example : is_deliverable csrs user Interrupt.supervisor_timer ≡ (
    interrupt_is_pending csrs Interrupt.supervisor_timer
    && interrupt_is_enabled csrs Interrupt.supervisor_timer)
is_deliverable-user_example = is_deliverable-user csrs Interrupt.supervisor_timer

mie_clear : has_flag csrs.machine.mstatus (2 ^ 3) ≡ false
unfolding has_flag CsrFile.default
mie_clear = refl

is_deliverable-machine_example : is_deliverable csrs machine Interrupt.supervisor_timer ≡ false
is_deliverable-machine_example = is_deliverable-machine csrs Interrupt.supervisor_timer mie_clear

read-write-implemented_example :
    read (write csrs CsrAddress.sstatus 0xffff_ffff) CsrAddress.sstatus
    ≡ bit_and 0xffff_ffff (implemented CsrAddress.sstatus)
read-write-implemented_example =
    read-write-implemented csrs CsrAddress.sstatus 0xffff_ffff (omega arith) refl

sync_interrupts-line_example :
    test_bit
      (read
        (sync_interrupts (write csrs CsrAddress.mip 0x8) (from_line InterruptLine.machine_timer))
        CsrAddress.mip)
      (line_bit InterruptLine.machine_software)
    ≡ (contains (from_line InterruptLine.machine_timer) InterruptLine.machine_software
        || (test_bit mip_writable_mask (line_bit InterruptLine.machine_software)
            && test_bit 0x8 (line_bit InterruptLine.machine_software)))
sync_interrupts-line_example =
    sync_interrupts-line csrs 0x8 (from_line InterruptLine.machine_timer)
      InterruptLine.machine_software

try_from_iff_example : (try_from 0x100 ≡ ok CsrAddress.sstatus) ↔ (code CsrAddress.sstatus ≡ 0x100)
try_from_iff_example = try_from_iff 0x100 CsrAddress.sstatus

user_csr-read_only_example : is_read_only CsrAddress.cycle ≡ true
user_csr-read_only_example =
    user_csr-read_only CsrAddress.cycle (unfold Csr.min_privilege_level in omega arith)
