-- ===== src/Cpu/CsrFile/Status.antt =====
-- `mstatus` through a trap and the return from it.
use rust_computer.Base.{
  ℕ, ◌^◌, ◌<◌, ◌≡◌, arith, ◌∙◌, bit_and, bit_or, Bool, true, false, ◌||◌, ◌==◌, if◌then◌else◌,
}
use rust_computer.Bits.Laws.{test_bit-or, test_bit-zero, has_flag-pow}
use rust_computer.Bits.Masks.{test_bit-pow, test_bit-clear}
use rust_computer.Bits.{test_bit, not32, has_flag}
use rust_computer.Cpu.CsrFile.Traps.{
  privilege_bits, machine_trap_status, supervisor_trap_status, machine_return_status,
  supervisor_return_status,
}
use rust_computer.Cpu.CsrFile.{set_flag, mstatus_mpp_mask}
use rust_computer.Cpu.Privilege.{PrivilegeMode, user, supervisor, machine, is_supervisor}

pub test_bit-set_flag :
    (i k x : ℕ) (b : Bool)
    → i < 32
    → k < 32
    → 2 ^ k < 2 ^ 32
    → test_bit (set_flag x (2 ^ k) b) i ≡ (if i == k then b else test_bit x i)
unfolding set_flag
test_bit-set_flag i k x true h w p = rw (test_bit-or i x (2 ^ k), test_bit-pow k i) (ground arith)
test_bit-set_flag i k x false h w p =
    rw (test_bit-clear i x (2 ^ k) h p, test_bit-pow k i) (ground arith)

-- The two bits of MPP.
unfoldable pub is_mpp : ℕ → Bool
is_mpp i = (i == 11) || (i == 12)

pub test_bit-mpp : (i : ℕ) → test_bit mstatus_mpp_mask i ≡ is_mpp i
unfolding is_mpp
test_bit-mpp i =
    test_bit-or i (2 ^ 11) (2 ^ 12) ∙ rw (test_bit-pow 11 i, test_bit-pow 12 i) (ground arith)

pub privilege_bits-bit :
    (i : ℕ) (p : PrivilegeMode) → is_mpp i ≡ false → test_bit (privilege_bits p) i ≡ false
unfolding privilege_bits
privilege_bits-bit i user h = test_bit-zero i
privilege_bits-bit i supervisor h = test_bit-pow 11 i ∙ unfold is_mpp in ground arith
privilege_bits-bit i machine h = test_bit-mpp i ∙ h

-- A bit of `mstatus` after the entry into machine mode.
pub machine_trap_status-bit :
    (i m : ℕ) (p : PrivilegeMode)
    → i < 32
    → test_bit (machine_trap_status m p) i ≡ (
        if is_mpp i
        then test_bit (privilege_bits p) i
        else (if i == 3 then false else (if i == 7 then test_bit m 3 else test_bit m i)))
unfolding machine_trap_status
machine_trap_status-bit i m p h =
    rw
      (
        test_bit-or i
            (bit_and (bit_and (set_flag m (2 ^ 7) (has_flag m (2 ^ 3))) (not32 (2 ^ 3)))
              (not32 mstatus_mpp_mask))
            (privilege_bits p),
        test_bit-clear i (bit_and (set_flag m (2 ^ 7) (has_flag m (2 ^ 3))) (not32 (2 ^ 3)))
            mstatus_mpp_mask h (omega arith),
        test_bit-clear i (set_flag m (2 ^ 7) (has_flag m (2 ^ 3))) (2 ^ 3) h (omega arith),
        test_bit-set_flag i 7 m (has_flag m (2 ^ 3)) h (omega arith) (omega arith),
        has_flag-pow 3 m,
        test_bit-pow 3 i,
        test_bit-mpp i,
      )
      (ground (arith, privilege_bits-bit i p))

machine_return_status-bit :
    (i s : ℕ)
    → i < 32
    → test_bit (machine_return_status s) i ≡ (
        if is_mpp i
        then false
        else (if i == 7 then true else (if i == 3 then test_bit s 7 else test_bit s i)))
unfolding machine_return_status
machine_return_status-bit i s h =
    rw
      (
        test_bit-clear i (bit_or (set_flag s (2 ^ 3) (has_flag s (2 ^ 7))) (2 ^ 7)) mstatus_mpp_mask
            h (omega arith),
        test_bit-or i (set_flag s (2 ^ 3) (has_flag s (2 ^ 7))) (2 ^ 7),
        test_bit-set_flag i 3 s (has_flag s (2 ^ 7)) h (omega arith) (omega arith),
        has_flag-pow 7 s,
        test_bit-pow 7 i,
        test_bit-mpp i,
      )
      (ground arith)

pub supervisor_trap_status-bit :
    (i m : ℕ) (p : PrivilegeMode)
    → i < 32
    → test_bit (supervisor_trap_status m p) i ≡ (
        if i == 8
        then is_supervisor p
        else (if i == 1 then false else (if i == 5 then test_bit m 1 else test_bit m i)))
unfolding supervisor_trap_status
supervisor_trap_status-bit i m p h =
    rw
      (
        test_bit-set_flag i 8 (bit_and (set_flag m (2 ^ 5) (has_flag m (2 ^ 1))) (not32 (2 ^ 1)))
            (is_supervisor p) h (omega arith) (omega arith),
        test_bit-clear i (set_flag m (2 ^ 5) (has_flag m (2 ^ 1))) (2 ^ 1) h (omega arith),
        test_bit-set_flag i 5 m (has_flag m (2 ^ 1)) h (omega arith) (omega arith),
        has_flag-pow 1 m,
        test_bit-pow 1 i,
      )
      (ground arith)

supervisor_return_status-bit :
    (i s : ℕ)
    → i < 32
    → test_bit (supervisor_return_status s) i ≡ (
        if i == 8
        then false
        else (if i == 5 then true else (if i == 1 then test_bit s 5 else test_bit s i)))
unfolding supervisor_return_status
supervisor_return_status-bit i s h =
    rw
      (
        test_bit-clear i (bit_or (set_flag s (2 ^ 1) (has_flag s (2 ^ 5))) (2 ^ 5)) (2 ^ 8) h
            (omega arith),
        test_bit-or i (set_flag s (2 ^ 1) (has_flag s (2 ^ 5))) (2 ^ 5),
        test_bit-set_flag i 1 s (has_flag s (2 ^ 5)) h (omega arith) (omega arith),
        has_flag-pow 5 s,
        test_bit-pow 5 i,
        test_bit-pow 8 i,
      )
      (ground arith)

-- A trap into machine mode, then MRET: every bit of `mstatus` below 32 is what it was, save that MPP
-- is cleared and MPIE set.
pub machine_trap_status-round_trip :
    (i m : ℕ) (p : PrivilegeMode)
    → i < 32
    → test_bit (machine_return_status (machine_trap_status m p)) i
      ≡ (if (i == 11) || (i == 12) then false else if i == 7 then true else test_bit m i)
unfolding is_mpp
machine_trap_status-round_trip i m p h =
    rw
      (
        machine_return_status-bit i (machine_trap_status m p) h,
        machine_trap_status-bit i m p h,
        machine_trap_status-bit 7 m p (omega arith),
      )
      (ground arith)

-- A trap into supervisor mode, then SRET: every bit of `mstatus` below 32 is what it was, save that
-- SPP is cleared and SPIE set.
pub supervisor_trap_status-round_trip :
    (i m : ℕ) (p : PrivilegeMode)
    → i < 32
    → test_bit (supervisor_return_status (supervisor_trap_status m p)) i
      ≡ (if i == 8 then false else if i == 5 then true else test_bit m i)
supervisor_trap_status-round_trip i m p h =
    rw
      (
        supervisor_return_status-bit i (supervisor_trap_status m p) h,
        supervisor_trap_status-bit i m p h,
        supervisor_trap_status-bit 5 m p (omega arith),
      )
      (ground arith)
