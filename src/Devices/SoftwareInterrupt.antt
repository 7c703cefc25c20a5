-- ===== src/Devices/SoftwareInterrupt.antt =====
-- crates/devices/src/machine_software_interrupt.rs and supervisor_software_interrupt.rs. The two
-- devices differ in the line that they raise, which is a field here.
use rust_computer.Base.{ℕ, ◌-◌, bit_and, ◌^◌, not, if◌then◌else◌}
use rust_computer.Bits.Bytes.{byte_of, replace_byte}
use rust_computer.Bits.{has_flag}
use rust_computer.System.Address.{AddressRange, contains}
use rust_computer.System.Bus.{Action, return, fail, unmapped_address}
use rust_computer.System.Interrupts.{InterruptLine, InterruptSet, empty, from_line}

pub record SoftwareInterrupt : Type 0 where
  pub line : InterruptLine
  pub range : AddressRange
  pub pending : ℕ

unfoldable pub new : InterruptLine → ℕ → SoftwareInterrupt
new line base = record { line = line; range = record { start = base; size = 4 }; pending = 0 }

unfoldable pub reset : SoftwareInterrupt → SoftwareInterrupt
reset d = record d { pending = 0 }

unfoldable pub pending_interrupts : SoftwareInterrupt → InterruptSet
pending_interrupts d = if has_flag d.pending (2 ^ 0) then from_line d.line else empty

unfoldable pub load8 : ℕ → Action SoftwareInterrupt ℕ
load8 addr d =
    if not (contains d.range addr)
    then fail (unmapped_address addr) d
    else return (byte_of d.pending (addr - d.range.start)) d

unfoldable pub store8 : ℕ → ℕ → Action SoftwareInterrupt (Unit {0})
store8 addr value d =
    if not (contains d.range addr)
    then fail (unmapped_address addr) d
    else return tt
        (record d { pending = bit_and (replace_byte d.pending (addr - d.range.start) value) 1 })
