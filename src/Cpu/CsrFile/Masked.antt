-- ===== src/Cpu/CsrFile/Masked.antt =====
-- What a write to a CSR leaves to be read: the bits of the value that the register implements.
use rust_computer.Base.{
  ℕ, ◌*◌, ◌/◌, ◌%◌, ◌^◌, ◌<◌, ◌≡◌, refl, sym, arith, ap, ◌∙◌, bit_and, bit_or, Bool, true, false,
  if◌then◌else◌, false≢true,
}
use rust_computer.Bits.Fields.{bit_and_low, bit_or_high_low}
use rust_computer.Bits.Laws.{
  test_bit-complement, test_bit-zero, test_bit-and, test_bit-or, eq_of_bits, bit_and-le,
}
use rust_computer.Bits.Masks.{test_bit-clear}
use rust_computer.Bits.{test_bit, not32, not64, u64}
use rust_computer.Cpu.CsrFile.{
  CsrFile, read, write, merge, low_half, high_half, write_low_half, write_high_half, sstatus_mask,
  sie_mask, mie_mask, medeleg_mask, mideleg_mask, counteren_mask,
}
use rust_computer.Isa.Csr.{CsrAddress}

-- A bit of a masked write: the value's under the mask, and the old one elsewhere.
pub test_bit-merge :
    (i mask old value : ℕ)
    → i < 32
    → mask < 2 ^ 32
    → test_bit (merge mask old value) i
      ≡ (if test_bit mask i then test_bit value i else test_bit old i)
unfolding merge
test_bit-merge i mask old value h b =
    rw
      (
        test_bit-or i (bit_and old (not32 mask)) (bit_and value mask),
        test_bit-clear i old mask h b,
        test_bit-and i value mask,
      )
      (ground arith)

-- Under the mask, a masked write reads as the value.
bit_and-merge :
    (mask old value : ℕ) → mask < 2 ^ 32 → bit_and (merge mask old value) mask ≡ bit_and value mask
bit_and-merge mask old value b =
    eq_of_bits 32 _ _ (omega (arith, bit_and-le (merge mask old value) mask))
      (omega (arith, bit_and-le value mask)) (λ i h. same i h)
  where
    same :
        (i : ℕ)
        → i < 32
        → test_bit (bit_and (merge mask old value) mask) i ≡ test_bit (bit_and value mask) i
    same i h =
        rw
          (
            test_bit-and i (merge mask old value) mask,
            test_bit-merge i mask old value h b,
            test_bit-and i value mask,
          )
          (ground arith)

all_ones : (v : ℕ) → v < 2 ^ 32 → bit_and v 0xffff_ffff ≡ v
all_ones v h = bit_and_low 32 v ∙ omega arith

low_ones : (i : ℕ) → i < 32 → test_bit 0xffff_ffff i ≡ true
low_ones i h = test_bit-complement i 32 0 h (omega arith) ∙ rw (test_bit-zero i) refl

low-write_low_half : (t v : ℕ) → v < 2 ^ 32 → low_half (write_low_half t v) ≡ v
unfolding low_half write_low_half
low-write_low_half t v h =
    sym (bit_and_low 32 (bit_or (bit_and t (not64 0xffff_ffff)) v))
    ∙ eq_of_bits 32 _ _
        (omega (arith, bit_and-le (bit_or (bit_and t (not64 0xffff_ffff)) v) 0xffff_ffff)) h
        (λ i b. same i b)
  where
    same :
        (i : ℕ)
        → i < 32
        → test_bit (bit_and (bit_or (bit_and t (not64 0xffff_ffff)) v) 0xffff_ffff) i ≡ test_bit v i
    same i b =
        rw
          (
            test_bit-and i (bit_or (bit_and t (not64 0xffff_ffff)) v) 0xffff_ffff,
            test_bit-or i (bit_and t (not64 0xffff_ffff)) v,
            test_bit-and i t (not64 0xffff_ffff),
            test_bit-complement i 64 0xffff_ffff (omega arith) (omega arith),
            low_ones i b,
          )
          (ground arith)

high-write_high_half : (t v : ℕ) → v < 2 ^ 32 → high_half (write_high_half t v) ≡ v
unfolding high_half write_high_half
high-write_high_half t v h =
    ap (λ (x : ℕ). bit_or x (bit_and t 0xffff_ffff) / 2 ^ 32) fits
    ∙ ap (λ (x : ℕ). bit_or (v * 2 ^ 32) x / 2 ^ 32) (bit_and_low 32 t)
    ∙ omega (arith, bit_or_high_low 32 v (t % 2 ^ 32) (omega arith))
  where
    fits : u64 (v * 2 ^ 32) ≡ v * 2 ^ 32
    fits = omega arith

-- The bits of each register that a write sets, apart from the two pending registers.
unfoldable pub implemented : CsrAddress → ℕ
implemented CsrAddress.sstatus = sstatus_mask
implemented CsrAddress.sie = sie_mask
implemented CsrAddress.scounteren = counteren_mask
implemented CsrAddress.mcounteren = counteren_mask
implemented CsrAddress.medeleg = medeleg_mask
implemented CsrAddress.mideleg = mideleg_mask
implemented CsrAddress.mie = mie_mask
implemented _ = 0xffff_ffff

abbrev pub is_pending_register : CsrAddress → Bool
is_pending_register CsrAddress.sip = true
is_pending_register CsrAddress.mip = true
is_pending_register _ = false

-- Every CSR but `mip` and `sip` reads, after a write, as the written value under its mask; the
-- counters too, whose halves share a 64-bit register.
pub read-write-implemented :
    (c : CsrFile) (a : CsrAddress) (v : ℕ)
    → v < 2 ^ 32
    → is_pending_register a ≡ false
    → read (write c a v) a ≡ bit_and v (implemented a)
unfolding read write implemented
read-write-implemented c CsrAddress.sstatus v h n =
    bit_and-merge sstatus_mask c.machine.mstatus v (omega arith)
read-write-implemented c CsrAddress.sie v h n = bit_and-merge sie_mask c.machine.mie v (omega arith)
read-write-implemented c CsrAddress.stvec v h n = sym (all_ones v h)
read-write-implemented c CsrAddress.satp v h n = sym (all_ones v h)
read-write-implemented c CsrAddress.mstatus v h n = sym (all_ones v h)
read-write-implemented c CsrAddress.mtvec v h n = sym (all_ones v h)
read-write-implemented c CsrAddress.sepc v h n = sym (all_ones v h)
read-write-implemented c CsrAddress.scause v h n = sym (all_ones v h)
read-write-implemented c CsrAddress.stval v h n = sym (all_ones v h)
read-write-implemented c CsrAddress.mepc v h n = sym (all_ones v h)
read-write-implemented c CsrAddress.mcause v h n = sym (all_ones v h)
read-write-implemented c CsrAddress.mtval v h n = sym (all_ones v h)
read-write-implemented c CsrAddress.scounteren v h n = refl
read-write-implemented c CsrAddress.medeleg v h n = refl
read-write-implemented c CsrAddress.mideleg v h n = refl
read-write-implemented c CsrAddress.mie v h n = refl
read-write-implemented c CsrAddress.mcounteren v h n = refl
read-write-implemented c CsrAddress.mcycle v h n =
    low-write_low_half c.machine.mcycle v h ∙ sym (all_ones v h)
read-write-implemented c CsrAddress.minstret v h n =
    low-write_low_half c.machine.minstret v h ∙ sym (all_ones v h)
read-write-implemented c CsrAddress.cycle v h n =
    low-write_low_half c.machine.mcycle v h ∙ sym (all_ones v h)
read-write-implemented c CsrAddress.time v h n =
    low-write_low_half c.machine.time v h ∙ sym (all_ones v h)
read-write-implemented c CsrAddress.instret v h n =
    low-write_low_half c.machine.minstret v h ∙ sym (all_ones v h)
read-write-implemented c CsrAddress.mcycleh v h n =
    high-write_high_half c.machine.mcycle v h ∙ sym (all_ones v h)
read-write-implemented c CsrAddress.minstreth v h n =
    high-write_high_half c.machine.minstret v h ∙ sym (all_ones v h)
read-write-implemented c CsrAddress.cycleh v h n =
    high-write_high_half c.machine.mcycle v h ∙ sym (all_ones v h)
read-write-implemented c CsrAddress.timeh v h n =
    high-write_high_half c.machine.time v h ∙ sym (all_ones v h)
read-write-implemented c CsrAddress.instreth v h n =
    high-write_high_half c.machine.minstret v h ∙ sym (all_ones v h)
read-write-implemented c CsrAddress.sip v h n = absurd (false≢true (sym n))
read-write-implemented c CsrAddress.mip v h n = absurd (false≢true (sym n))
