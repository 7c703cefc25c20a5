-- ===== src/Cpu/CsrFile/Interrupts.antt =====
-- csr_file.rs: the counters, the pending interrupts and the access checks.
use rust_computer.Base.{
  ℕ, ◌+◌, ◌^◌, bit_or, Bool, true, false, not, ◌&&◌, ◌||◌, Option, none, some, List, [], ◌∷◌, ltb,
  if◌then◌else◌,
}
use rust_computer.Bits.{u64, has_flag}
use rust_computer.Cpu.CsrFile.{
  CsrFile, with_machine, refresh_mip, mip_ssip, mip_msip, mip_stip, mip_mtip, mip_seip, mip_meip,
  mstatus_mie, mstatus_sie, mstatus_tvm, mstatus_tsr, mstatus_tw,
}
use rust_computer.Cpu.Privilege.{
  PrivilegeMode, user, supervisor, machine, csr_level, is_machine, is_user, is_supervisor,
}
use rust_computer.Isa.Csr.{CsrAddress}
use rust_computer.Isa.Csr
use rust_computer.Isa.Exception.{Interrupt, interrupt_code}
use rust_computer.Isa.Exception
use rust_computer.System.Interrupts.{InterruptSet, InterruptLine, contains}
use rust_computer.System.Interrupts

unfoldable pub increment_cycle : CsrFile → CsrFile
increment_cycle c = with_machine c (record (c.machine) { mcycle = u64 (c.machine.mcycle + 1) })

unfoldable pub increment_time : CsrFile → CsrFile
increment_time c = with_machine c (record (c.machine) { time = u64 (c.machine.time + 1) })

unfoldable pub set_time : CsrFile → ℕ → CsrFile
set_time c time = with_machine c (record (c.machine) { time = time })

unfoldable pub increment_instret : CsrFile → ℕ → CsrFile
increment_instret c retired =
    with_machine c (record (c.machine) { minstret = u64 (c.machine.minstret + retired) })

-- `if set.contains(line) { pending |= mask }`.
abbrev pub raise : InterruptSet → InterruptLine → ℕ → ℕ → ℕ
raise set line mask pending = if contains set line then bit_or pending mask else pending

unfoldable pub external_bits : InterruptSet → ℕ
external_bits set = raise set InterruptLine.supervisor_external mip_seip (
    raise set InterruptLine.machine_timer mip_mtip (
      raise set InterruptLine.supervisor_timer mip_stip (
        raise set InterruptLine.machine_software mip_msip (
          raise set InterruptLine.machine_external mip_meip
            (raise set InterruptLine.supervisor_software mip_ssip 0)))))

unfoldable pub sync_interrupts : CsrFile → InterruptSet → CsrFile
unfolding refresh_mip external_bits
sync_interrupts c set = refresh_mip (record c { external_pending = external_bits set })

unfoldable pub sync_interrupt_line : CsrFile → Option InterruptLine → CsrFile
unfolding sync_interrupts
sync_interrupt_line c none = sync_interrupts c Interrupts.empty
sync_interrupt_line c (some line) = sync_interrupts c (Interrupts.from_line line)

-- `interrupt_pending_mask` and `interrupt_enable_mask`: both give bit `n` for cause `n`.
unfoldable pub interrupt_pending_mask : Interrupt → ℕ
interrupt_pending_mask Interrupt.supervisor_software = mip_ssip
interrupt_pending_mask Interrupt.machine_software = mip_msip
interrupt_pending_mask Interrupt.supervisor_timer = mip_stip
interrupt_pending_mask Interrupt.machine_timer = mip_mtip
interrupt_pending_mask Interrupt.supervisor_external = mip_seip
interrupt_pending_mask Interrupt.machine_external = mip_meip

unfoldable pub interrupt_enable_mask : Interrupt → ℕ
interrupt_enable_mask Interrupt.supervisor_software = 2 ^ 1
interrupt_enable_mask Interrupt.machine_software = 2 ^ 3
interrupt_enable_mask Interrupt.supervisor_timer = 2 ^ 5
interrupt_enable_mask Interrupt.machine_timer = 2 ^ 7
interrupt_enable_mask Interrupt.supervisor_external = 2 ^ 9
interrupt_enable_mask Interrupt.machine_external = 2 ^ 11

abbrev pub interrupt_priority : List Interrupt
interrupt_priority =
    Interrupt.machine_external ∷ Interrupt.machine_software ∷ Interrupt.machine_timer
    ∷ Interrupt.supervisor_external ∷ Interrupt.supervisor_software ∷ Interrupt.supervisor_timer
    ∷ []

unfoldable pub interrupt_is_pending : CsrFile → Interrupt → Bool
unfolding interrupt_pending_mask
interrupt_is_pending c i = has_flag c.machine.mip (interrupt_pending_mask i)

unfoldable pub interrupt_is_enabled : CsrFile → Interrupt → Bool
unfolding interrupt_enable_mask
interrupt_is_enabled c i = has_flag c.machine.mie (interrupt_enable_mask i)

unfoldable pub delegates_interrupt_to_supervisor : CsrFile → Interrupt → Bool
delegates_interrupt_to_supervisor c i =
    Exception.is_supervisor i && has_flag c.machine.mideleg (2 ^ interrupt_code i)

unfoldable pub interrupt_target_privilege :
    CsrFile → Interrupt → PrivilegeMode → Option PrivilegeMode
unfolding delegates_interrupt_to_supervisor
interrupt_target_privilege c i current =
    if delegates_interrupt_to_supervisor c i
    then (if is_machine current then none else some supervisor)
    else some machine

unfoldable pub interrupt_globally_enabled : CsrFile → PrivilegeMode → PrivilegeMode → Bool
interrupt_globally_enabled c machine current =
    not (is_machine current) || has_flag c.machine.mstatus mstatus_mie
interrupt_globally_enabled c supervisor current =
    is_user current || (is_supervisor current && has_flag c.machine.mstatus mstatus_sie)
interrupt_globally_enabled c user current = false

-- The body of the loop of `pending_interrupt` returns the interrupt exactly when this holds.
unfoldable pub target_enabled : CsrFile → PrivilegeMode → Option PrivilegeMode → Bool
unfolding interrupt_globally_enabled
target_enabled c current none = false
target_enabled c current (some target) = interrupt_globally_enabled c target current

unfoldable pub is_deliverable : CsrFile → PrivilegeMode → Interrupt → Bool
unfolding interrupt_is_pending interrupt_is_enabled target_enabled interrupt_target_privilege
is_deliverable c current i =
    interrupt_is_pending c i
    && interrupt_is_enabled c i
    && target_enabled c current (interrupt_target_privilege c i current)

unfoldable pub first_deliverable : CsrFile → PrivilegeMode → List Interrupt → Option Interrupt
first_deliverable c current [] = none
first_deliverable c current (i ∷ rest) =
    if is_deliverable c current i then some i else first_deliverable c current rest

unfoldable pub pending_interrupt : CsrFile → PrivilegeMode → Option Interrupt
pending_interrupt c current = first_deliverable c current interrupt_priority

-- The `match privilege` of `allows_csr_access`, after the counter's mask is known.
unfoldable pub allows_counter : CsrFile → PrivilegeMode → Option ℕ → Bool
allows_counter c privilege none = true
allows_counter c machine (some mask) = true
allows_counter c supervisor (some mask) = has_flag c.machine.mcounteren mask
allows_counter c user (some mask) =
    has_flag c.machine.mcounteren mask && has_flag c.supervisor.scounteren mask

unfoldable pub allows_csr_access : CsrFile → PrivilegeMode → CsrAddress → Bool
unfolding allows_counter csr_level
allows_csr_access c privilege address =
    if ltb (csr_level privilege) (Csr.min_privilege_level address)
    then false
    else allows_counter c privilege (Csr.counteren_mask address)

unfoldable pub tvm_enabled : CsrFile → Bool
tvm_enabled c = has_flag c.machine.mstatus mstatus_tvm

unfoldable pub tsr_enabled : CsrFile → Bool
tsr_enabled c = has_flag c.machine.mstatus mstatus_tsr

unfoldable pub tw_enabled : CsrFile → Bool
tw_enabled c = has_flag c.machine.mstatus mstatus_tw
