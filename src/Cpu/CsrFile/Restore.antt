-- ===== src/Cpu/CsrFile/Restore.antt =====
-- A trap and the return from it: the mode and the address.
use rust_computer.Base.{
  ℕ, ◌^◌, ◌<◌, ◌≤◌, ◌≡◌, refl, sym, arith, ap, ◌∙◌, bit_and, Bool, true, false, if◌then◌else◌,
  if_elim, false≢true,
}
use rust_computer.Bits.Laws.{test_bit-and, bit_and-le, eq_of_bits, has_flag-pow}
use rust_computer.Bits.{test_bit, has_flag, shr}
use rust_computer.Cpu.CsrFile.Traps.{
  privilege_bits, privilege_from_bits, machine_trap_status, supervisor_trap_status,
  enter_machine_trap, enter_supervisor_trap, enter_trap, return_from_machine_trap,
  return_from_supervisor_trap, delegates_trap_to_supervisor,
}
use rust_computer.Cpu.CsrFile.{CsrFile, mstatus_mpp_mask, mstatus_mpp_shift}
use rust_computer.Cpu.Privilege.{
  PrivilegeMode, user, supervisor, machine, csr_level, is_machine, is_supervisor,
}
use rust_computer.Isa.Exception.{Trap, exception, interrupt}
use rust_computer.Cpu.CsrFile.Status.{
  test_bit-mpp, privilege_bits-bit, machine_trap_status-bit, supervisor_trap_status-bit,
}

-- The mode that a trap saved in MPP is read back from it.
privilege_bits-lt : (p : PrivilegeMode) → privilege_bits p < 2 ^ 32
unfolding privilege_bits
privilege_bits-lt user = omega arith
privilege_bits-lt supervisor = omega arith
privilege_bits-lt machine = omega arith

mpp-machine_trap_status :
    (m : ℕ) (p : PrivilegeMode)
    → bit_and (machine_trap_status m p) mstatus_mpp_mask ≡ privilege_bits p
mpp-machine_trap_status m p =
    eq_of_bits 32 _ _ (omega (arith, bit_and-le (machine_trap_status m p) mstatus_mpp_mask))
      (privilege_bits-lt p) (λ i h. same i h)
  where
    same :
        (i : ℕ)
        → i < 32
        → test_bit (bit_and (machine_trap_status m p) mstatus_mpp_mask) i
          ≡ test_bit (privilege_bits p) i
    same i h =
        rw
          (
            test_bit-and i (machine_trap_status m p) mstatus_mpp_mask,
            machine_trap_status-bit i m p h,
            test_bit-mpp i,
          )
          (ground (arith, privilege_bits-bit i p))

privilege_from_bits-privilege_bits :
    (p : PrivilegeMode) → privilege_from_bits (shr (privilege_bits p) mstatus_mpp_shift) ≡ p
unfolding privilege_from_bits privilege_bits
privilege_from_bits-privilege_bits user = refl
privilege_from_bits-privilege_bits supervisor = refl
privilege_from_bits-privilege_bits machine = refl

spp-supervisor_trap_status :
    (m : ℕ) (p : PrivilegeMode) → has_flag (supervisor_trap_status m p) (2 ^ 8) ≡ is_supervisor p
spp-supervisor_trap_status m p =
    has_flag-pow 8 (supervisor_trap_status m p) ∙ supervisor_trap_status-bit 8 m p (omega arith)

-- The return instruction of a mode, MRET for machine and SRET for supervisor mode.
abbrev pub return_from : PrivilegeMode → CsrFile → CsrFile × PrivilegeMode × ℕ
return_from machine c = return_from_machine_trap c
return_from _ c = return_from_supervisor_trap c

delegated_below_machine :
    (c : CsrFile) (trap : Trap) (p : PrivilegeMode)
    → delegates_trap_to_supervisor c trap p ≡ true
    → is_machine p ≡ false
unfolding delegates_trap_to_supervisor
delegated_below_machine c (exception e) p d = ground arith
delegated_below_machine c (interrupt i) p d = ground arith

-- A trap entry from mode `p` at `pc`, after which the return instruction of the entered mode goes
-- back to both, and which did not enter a mode below `p`.
unfoldable pub Restores : PrivilegeMode → ℕ → CsrFile × PrivilegeMode × ℕ → Type 0
Restores p pc (c, target, vector) =
    ((return_from target c).1 ≡ p)
    × ((return_from target c).2 ≡ pc)
    × (csr_level p ≤ csr_level target)

machine-Restores :
    (c : CsrFile) (trap : Trap) (pc : ℕ) (p : PrivilegeMode)
    → Restores p pc
        ((enter_machine_trap c trap pc p).0, machine, (enter_machine_trap c trap pc p).1)
unfolding Restores enter_machine_trap return_from_machine_trap
machine-Restores c trap pc p = (
  ap (λ (b : ℕ). privilege_from_bits (shr b mstatus_mpp_shift))
        (mpp-machine_trap_status c.machine.mstatus p)
      ∙ privilege_from_bits-privilege_bits p,
  refl,
  top p,
)
  where
    top : (p : PrivilegeMode) → csr_level p ≤ csr_level machine
    top user = unfold csr_level in omega arith
    top supervisor = unfold csr_level in omega arith
    top machine = unfold csr_level in omega arith

supervisor-Restores :
    (c : CsrFile) (trap : Trap) (pc : ℕ) (p : PrivilegeMode)
    → is_machine p ≡ false
    → Restores p pc
        ((enter_supervisor_trap c trap pc p).0, supervisor, (enter_supervisor_trap c trap pc p).1)
unfolding Restores enter_supervisor_trap return_from_supervisor_trap
supervisor-Restores c trap pc user h = (
  ap (λ (b : Bool). if b then supervisor else user)
      (spp-supervisor_trap_status c.machine.mstatus user),
  refl,
  unfold csr_level in omega arith,
)
supervisor-Restores c trap pc supervisor h = (
  ap (λ (b : Bool). if b then supervisor else user)
      (spp-supervisor_trap_status c.machine.mstatus supervisor),
  refl,
  unfold csr_level in omega arith,
)
supervisor-Restores c trap pc machine h = absurd (false≢true (sym h))

-- Whatever traps, in whatever mode: the return instruction of the mode that the trap enters goes
-- back to the mode and to the address that the trap came from, and a trap never enters a mode below
-- the one it came from.
pub enter_trap-Restores :
    (c : CsrFile) (trap : Trap) (pc : ℕ) (p : PrivilegeMode)
    → Restores p pc (enter_trap c trap pc p)
unfolding enter_trap
enter_trap-Restores c trap pc p =
    if_elim (Restores p pc) (delegates_trap_to_supervisor c trap p)
      (λ d. supervisor-Restores c trap pc p (delegated_below_machine c trap p d))
      (λ d. machine-Restores c trap pc p)
