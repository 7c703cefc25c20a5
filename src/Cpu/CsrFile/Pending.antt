-- ===== src/Cpu/CsrFile/Pending.antt =====
-- The pending register as the union of what software set and what the lines raise.
use rust_computer.Base.{
  ℕ, ◌^◌, ◌<◌, ◌≡◌, refl, arith, ◌∙◌, bit_and, bit_or, true, ◌&&◌, ◌||◌, ◌==◌, Bool-cases, inl, inr,
}
use rust_computer.Bits.Laws.{test_bit-and, test_bit-or, test_bit-zero}
use rust_computer.Bits.Masks.{test_bit-clear, test_bit-pow}
use rust_computer.Bits.{test_bit, not32}
use rust_computer.Cpu.CsrFile.Interrupts.{sync_interrupts, external_bits, raise}
use rust_computer.Cpu.CsrFile.Masked.{test_bit-merge}
use rust_computer.Cpu.CsrFile.{
  CsrFile, read, write, merge, mip_writable_mask, managed_interrupt_mask, refresh_mip,
}
use rust_computer.Isa.Csr.{CsrAddress}
use rust_computer.System.Interrupts.{InterruptSet, InterruptLine, contains}

-- The pending bit of each line, as the trap cause numbers it.
unfoldable pub line_bit : InterruptLine → ℕ
line_bit InterruptLine.supervisor_software = 1
line_bit InterruptLine.machine_software = 3
line_bit InterruptLine.supervisor_timer = 5
line_bit InterruptLine.machine_timer = 7
line_bit InterruptLine.supervisor_external = 9
line_bit InterruptLine.machine_external = 11

test_bit-raise :
    (set : InterruptSet) (line : InterruptLine) (k pending i : ℕ)
    → test_bit (raise set line (2 ^ k) pending) i
      ≡ ((contains set line && (i == k)) || test_bit pending i)
test_bit-raise set line k pending i = elim (Bool-cases (contains set line)) [
  | inl raised ↦ rw raised (test_bit-or i pending (2 ^ k) ∙ rw (test_bit-pow k i) (ground arith))
  | inr quiet ↦ rw quiet refl
]

test_bit-external_bits :
    (set : InterruptSet) (i : ℕ)
    → test_bit (external_bits set) i ≡ (
        (contains set InterruptLine.supervisor_external && (i == 9))
        || (contains set InterruptLine.machine_timer && (i == 7))
        || (contains set InterruptLine.supervisor_timer && (i == 5))
        || (contains set InterruptLine.machine_software && (i == 3))
        || (contains set InterruptLine.machine_external && (i == 11))
        || (contains set InterruptLine.supervisor_software && (i == 1)))
unfolding external_bits
test_bit-external_bits set i =
    rw
      (
        test_bit-raise set InterruptLine.supervisor_external 9 _ i,
        test_bit-raise set InterruptLine.machine_timer 7 _ i,
        test_bit-raise set InterruptLine.supervisor_timer 5 _ i,
        test_bit-raise set InterruptLine.machine_software 3 _ i,
        test_bit-raise set InterruptLine.machine_external 11 _ i,
        test_bit-raise set InterruptLine.supervisor_software 1 0 i,
        test_bit-zero i,
      )
      (ground arith)

-- A managed bit of the pending register after a refresh.
test_bit-refresh_mip :
    (c : CsrFile) (i : ℕ)
    → i < 32
    → test_bit managed_interrupt_mask i ≡ true
    → test_bit (refresh_mip c).machine.mip i ≡ (
        (test_bit mip_writable_mask i && test_bit c.software_pending i)
        || test_bit c.external_pending i)
unfolding refresh_mip
test_bit-refresh_mip c i h m =
    rw
      (
        test_bit-or i
            (bit_or (bit_and c.machine.mip (not32 managed_interrupt_mask))
              (bit_and c.software_pending mip_writable_mask))
            (bit_and c.external_pending managed_interrupt_mask),
        test_bit-or i (bit_and c.machine.mip (not32 managed_interrupt_mask))
            (bit_and c.software_pending mip_writable_mask),
        test_bit-clear i c.machine.mip managed_interrupt_mask h (omega arith),
        test_bit-and i c.software_pending mip_writable_mask,
        test_bit-and i c.external_pending managed_interrupt_mask,
        m,
      )
      (ground arith)

line_bit-managed :
    (line : InterruptLine)
    → (line_bit line < 32) × (test_bit managed_interrupt_mask (line_bit line) ≡ true)
unfolding line_bit test_bit
line_bit-managed InterruptLine.supervisor_software = (omega arith, refl)
line_bit-managed InterruptLine.machine_software = (omega arith, refl)
line_bit-managed InterruptLine.supervisor_timer = (omega arith, refl)
line_bit-managed InterruptLine.machine_timer = (omega arith, refl)
line_bit-managed InterruptLine.supervisor_external = (omega arith, refl)
line_bit-managed InterruptLine.machine_external = (omega arith, refl)

external_bits-line :
    (set : InterruptSet) (line : InterruptLine)
    → test_bit (external_bits set) (line_bit line) ≡ contains set line
unfolding line_bit
external_bits-line set InterruptLine.supervisor_software =
    test_bit-external_bits set 1 ∙ ground arith
external_bits-line set InterruptLine.machine_software = test_bit-external_bits set 3 ∙ ground arith
external_bits-line set InterruptLine.supervisor_timer = test_bit-external_bits set 5 ∙ ground arith
external_bits-line set InterruptLine.machine_timer = test_bit-external_bits set 7 ∙ ground arith
external_bits-line set InterruptLine.supervisor_external =
    test_bit-external_bits set 9 ∙ ground arith
external_bits-line set InterruptLine.machine_external = test_bit-external_bits set 11 ∙ ground arith

-- After software writes `mip` and the lines are sampled, the pending bit of a line is set exactly
-- when the line is raised or software wrote a one to a bit that it may write.
pub sync_interrupts-line :
    (c : CsrFile) (v : ℕ) (set : InterruptSet) (line : InterruptLine)
    → test_bit
        (read (sync_interrupts (write c CsrAddress.mip v) set) CsrAddress.mip)
        (line_bit line)
      ≡ (contains set line
          || (test_bit mip_writable_mask (line_bit line) && test_bit v (line_bit line)))
unfolding sync_interrupts write read
sync_interrupts-line c v set line =
    test_bit-refresh_mip
      (record (refresh_mip
        (record c { software_pending = merge mip_writable_mask c.software_pending v })) {
          external_pending = external_bits set;
        })
      (line_bit line) ((line_bit-managed line).0) ((line_bit-managed line).1)
    ∙ rw
        (
          external_bits-line set line,
          test_bit-merge (line_bit line) mip_writable_mask c.software_pending v
              ((line_bit-managed line).0) (omega arith),
        )
        (ground arith)
