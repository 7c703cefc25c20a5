-- ===== src/Devices/MachineTimer.antt =====
-- crates/devices/src/machine_timer.rs: `mtime` and `mtimecmp`, two 64-bit registers read and written
-- by bytes.
use rust_computer.Base.{
  ℕ, ◌+◌, ◌-◌, ◌*◌, ◌^◌, bit_and, bit_or, not, leb, if◌then◌else◌, Option, some,
}
use rust_computer.Bits.Bytes.{byte_of, replace_byte}
use rust_computer.Bits.{u32, u64, shr, not64}
use rust_computer.System.Address.{AddressRange, contains}
use rust_computer.System.Bus.{Action, return, fail, unmapped_address}
use rust_computer.System.Interrupts.{InterruptLine, InterruptSet, empty, from_line}

pub record MachineTimer : Type 0 where
  pub range : AddressRange
  pub mtime : ℕ
  pub mtimecmp : ℕ

unfoldable pub new : ℕ → MachineTimer
new base = record { range = record { start = base; size = 16 }; mtime = 0; mtimecmp = 2 ^ 64 - 1 }

unfoldable pub reset : MachineTimer → MachineTimer
reset t = record t { mtime = 0; mtimecmp = 2 ^ 64 - 1 }

unfoldable pub tick : MachineTimer → MachineTimer
tick t = record t { mtime = u64 (t.mtime + 1) }

unfoldable pub machine_time : MachineTimer → Option ℕ
machine_time t = some t.mtime

unfoldable pub pending_interrupts : MachineTimer → InterruptSet
pending_interrupts t =
    if leb t.mtimecmp t.mtime then from_line InterruptLine.machine_timer else empty

unfoldable pub read_register_byte : MachineTimer → ℕ → ℕ
read_register_byte t offset =
    if leb offset 3
    then byte_of (u32 t.mtime) offset
    else if leb offset 7
    then byte_of (u32 (shr t.mtime 32)) (offset - 4)
    else if leb offset 11
    then byte_of (u32 t.mtimecmp) (offset - 8)
    else if leb offset 15
    then byte_of (u32 (shr t.mtimecmp 32)) (offset - 12)
    else byte_of 0 0

-- A byte of the low and of the high half of a 64-bit register replaced.
unfoldable pub replace_low : ℕ → ℕ → ℕ → ℕ
replace_low register i value =
    bit_or (bit_and register (not64 0xffff_ffff)) (replace_byte (u32 register) i value)

unfoldable pub replace_high : ℕ → ℕ → ℕ → ℕ
replace_high register i value =
    bit_or (u64 (replace_byte (u32 (shr register 32)) i value * 2 ^ 32))
      (bit_and register 0xffff_ffff)

unfoldable pub write_register_byte : MachineTimer → ℕ → ℕ → MachineTimer
unfolding replace_low replace_high
write_register_byte t offset value =
    if leb offset 3
    then record t { mtime = replace_low t.mtime offset value }
    else if leb offset 7
    then record t { mtime = replace_high t.mtime (offset - 4) value }
    else if leb offset 11
    then record t { mtimecmp = replace_low t.mtimecmp (offset - 8) value }
    else if leb offset 15
    then record t { mtimecmp = replace_high t.mtimecmp (offset - 12) value }
    else t

unfoldable pub load8 : ℕ → Action MachineTimer ℕ
unfolding read_register_byte
load8 addr t =
    if not (contains t.range addr)
    then fail (unmapped_address addr) t
    else return (read_register_byte t (addr - t.range.start)) t

unfoldable pub store8 : ℕ → ℕ → Action MachineTimer (Unit {0})
unfolding write_register_byte
store8 addr value t =
    if not (contains t.range addr)
    then fail (unmapped_address addr) t
    else return tt (write_register_byte t (addr - t.range.start) value)
