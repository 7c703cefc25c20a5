-- ===== src/Cpu/CsrFile/Traps.antt =====
-- csr_file.rs, lines 317 to 485: entering a trap and returning from one.
use rust_computer.Base.{ℕ, ◌+◌, ◌*◌, ◌^◌, bit_and, bit_or, Bool, false, ◌&&◌, ◌==◌, if◌then◌else◌}
use rust_computer.Bits.{u32, shr, not32, has_flag}
use rust_computer.Cpu.CsrFile.{
  CsrFile, set_flag, mstatus_mie, mstatus_sie, mstatus_mpie, mstatus_spie, mstatus_spp,
  mstatus_mpp_mask, mstatus_mpp_shift,
}
use rust_computer.Cpu.CsrFile.Interrupts.{delegates_interrupt_to_supervisor}
use rust_computer.Cpu.Privilege.{
  PrivilegeMode, user, supervisor, machine, is_machine, is_supervisor,
}
use rust_computer.Isa.Exception.{
  Trap, exception, interrupt, is_interrupt, cause_code, cause_bits, tval,
}

unfoldable pub privilege_bits : PrivilegeMode → ℕ
privilege_bits user = 0
privilege_bits supervisor = 2 ^ mstatus_mpp_shift
privilege_bits machine = 3 * 2 ^ mstatus_mpp_shift

unfoldable pub privilege_from_bits : ℕ → PrivilegeMode
privilege_from_bits bits = if bits == 0 then user else if bits == 1 then supervisor else machine

unfoldable pub delegates_trap_to_supervisor : CsrFile → Trap → PrivilegeMode → Bool
delegates_trap_to_supervisor c (exception e) current =
    if is_machine current then false else has_flag c.machine.medeleg (2 ^ cause_code (exception e))
delegates_trap_to_supervisor c (interrupt i) current =
    if is_machine current then false else delegates_interrupt_to_supervisor c i

-- The address that both kinds of entry jump to, from `mtvec` or `stvec`.
unfoldable pub trap_vector : ℕ → Trap → ℕ
trap_vector tvec trap =
    let base = bit_and tvec (not32 0b11) in
    let mode = bit_and tvec 0b11 in
    if is_interrupt trap && (mode == 0b01) then u32 (base + cause_code trap * 4) else base

-- `mstatus` after a trap to machine mode: MPIE takes MIE, MIE is cleared, MPP takes the mode.
unfoldable pub machine_trap_status : ℕ → PrivilegeMode → ℕ
unfolding set_flag privilege_bits
machine_trap_status mstatus current =
    let mie = has_flag mstatus mstatus_mie in
    let saved = set_flag mstatus mstatus_mpie mie in
    let masked = bit_and saved (not32 mstatus_mie) in
    bit_or (bit_and masked (not32 mstatus_mpp_mask)) (privilege_bits current)

unfoldable pub enter_machine_trap : CsrFile → Trap → ℕ → PrivilegeMode → CsrFile × ℕ
enter_machine_trap c trap current_pc current = (
  record c {
    machine = record (c.machine) {
      mepc = current_pc;
      mcause = cause_bits trap;
      mtval = tval trap;
      mstatus = machine_trap_status c.machine.mstatus current;
    };
  },
  trap_vector c.machine.mtvec trap,
)

unfoldable pub supervisor_trap_status : ℕ → PrivilegeMode → ℕ
unfolding set_flag
supervisor_trap_status mstatus current =
    let sie = has_flag mstatus mstatus_sie in
    let saved = set_flag mstatus mstatus_spie sie in
    let masked = bit_and saved (not32 mstatus_sie) in
    set_flag masked mstatus_spp (is_supervisor current)

unfoldable pub enter_supervisor_trap : CsrFile → Trap → ℕ → PrivilegeMode → CsrFile × ℕ
enter_supervisor_trap c trap current_pc current = (
  record c {
    machine = record (c.machine) { mstatus = supervisor_trap_status c.machine.mstatus current };
    supervisor = record (c.supervisor) {
      sepc = current_pc;
      scause = cause_bits trap;
      stval = tval trap;
    };
  },
  trap_vector c.supervisor.stvec trap,
)

unfoldable pub enter_trap : CsrFile → Trap → ℕ → PrivilegeMode → CsrFile × PrivilegeMode × ℕ
enter_trap c trap current_pc current =
    if delegates_trap_to_supervisor c trap current
    then (let (c', vector) = enter_supervisor_trap c trap current_pc current in
        (c', supervisor, vector))
    else (let (c', vector) = enter_machine_trap c trap current_pc current in (c', machine, vector))

unfoldable pub machine_return_status : ℕ → ℕ
unfolding set_flag
machine_return_status mstatus =
    let mpie = has_flag mstatus mstatus_mpie in
    let restored = set_flag mstatus mstatus_mie mpie in
    bit_and (bit_or restored mstatus_mpie) (not32 mstatus_mpp_mask)

unfoldable pub return_from_machine_trap : CsrFile → CsrFile × PrivilegeMode × ℕ
return_from_machine_trap c =
    let mpp = shr (bit_and c.machine.mstatus mstatus_mpp_mask) mstatus_mpp_shift in
    (
      record c {
        machine = record (c.machine) { mstatus = machine_return_status c.machine.mstatus };
      },
      privilege_from_bits mpp,
      c.machine.mepc,
    )

unfoldable pub supervisor_return_status : ℕ → ℕ
unfolding set_flag
supervisor_return_status mstatus =
    let spie = has_flag mstatus mstatus_spie in
    let restored = set_flag mstatus mstatus_sie spie in
    bit_and (bit_or restored mstatus_spie) (not32 mstatus_spp)

unfoldable pub return_from_supervisor_trap : CsrFile → CsrFile × PrivilegeMode × ℕ
return_from_supervisor_trap c = (
  record c {
    machine = record (c.machine) { mstatus = supervisor_return_status c.machine.mstatus };
  },
  if has_flag c.machine.mstatus mstatus_spp then supervisor else user,
  c.supervisor.sepc,
)
