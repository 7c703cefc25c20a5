-- ===== src/Devices/BlockDevice.antt =====
-- crates/devices/src/block_device.rs: blocks of bytes, moved to and from a staging window by commands
-- that take a number of ticks.
pub mod Commands
use Prim.Native.String.{String}
use rust_computer.Base.{
  ℕ, zero, suc, ◌+◌, ◌-◌, ◌*◌, ◌%◌, ◌^◌, bit_or, Bool, true, false, not, ◌&&◌, ◌||◌, leb, ltb, ◌==◌,
  if◌then◌else◌, Option, none, some, is_some, List, [], ◌∷◌, ◌++◌, length, get_or, set, replicate,
  Result, ok, err,
}
use rust_computer.Bits.Bytes.{byte_of, replace_byte}
use rust_computer.Bits.{has_flag, u32}
use rust_computer.System.Address.{AddressRange, contains}
use rust_computer.System.Bus.{BusError, Action, unmapped_address, read_only_address, device_fault}
use rust_computer.System.Interrupts.{InterruptLine, InterruptSet, empty, from_line}

pub data InterruptRoute : Type 0 where
  machine_external supervisor_external : InterruptRoute

unfoldable pub from_register : ℕ → InterruptRoute
from_register value = if has_flag value 1 then supervisor_external else machine_external

unfoldable pub register_bits : InterruptRoute → ℕ
register_bits machine_external = 0
register_bits supervisor_external = 1

unfoldable pub interrupt_line : InterruptRoute → InterruptLine
interrupt_line machine_external = InterruptLine.machine_external
interrupt_line supervisor_external = InterruptLine.supervisor_external

pub data BlockCommand : Type 0 where
  read_block write_block : BlockCommand

pub record ActiveCommand : Type 0 where
  pub kind : BlockCommand
  pub remaining_cycles : ℕ

pub record BlockDevice : Type 0 where
  pub range : AddressRange
  pub block_count : ℕ
  pub block_bytes : ℕ
  pub operation_latency : ℕ
  pub selected_block : ℕ
  pub irq_enabled : Bool
  pub done : Bool
  pub error : Bool
  pub interrupt_route : InterruptRoute
  pub staging : List ℕ
  pub storage : List ℕ
  pub active : Option ActiveCommand

unfoldable pub route_offset : ℕ → ℕ
route_offset block_bytes = 16 + block_bytes

-- `none` where an assertion fails.
unfoldable pub new : ℕ → ℕ → ℕ → ℕ → Option BlockDevice
unfolding route_offset
new base block_count block_bytes operation_latency =
    if ltb 0 block_count && ltb 0 block_bytes && block_bytes % 4 == 0
    then some (record {
      range = record { start = base; size = route_offset block_bytes + 4 };
      block_count = block_count;
      block_bytes = block_bytes;
      operation_latency = operation_latency;
      selected_block = 0;
      irq_enabled = false;
      done = false;
      error = false;
      interrupt_route = machine_external;
      staging = replicate block_bytes 0;
      storage = replicate (block_count * block_bytes) 0;
      active = none;
    })
    else none

unfoldable pub reset : BlockDevice → BlockDevice
reset d = record d {
  selected_block = 0;
  irq_enabled = false;
  done = false;
  error = false;
  interrupt_route = machine_external;
  staging = replicate (length d.staging) 0;
  storage = replicate (length d.storage) 0;
  active = none;
}

-- The bytes of a range of the storage, and the storage with a range copied over. A range stands in
-- the storage, which has `block_count` blocks.
unfoldable pub slice : ℕ → ℕ → List ℕ → List ℕ
slice start zero bytes = []
slice start (suc n) [] = []
slice zero (suc n) (b ∷ bytes) = b ∷ slice zero n bytes
slice (suc start) (suc n) (b ∷ bytes) = slice start (suc n) bytes

unfoldable pub copy_from_slice : ℕ → List ℕ → List ℕ → List ℕ
copy_from_slice start [] bytes = bytes
copy_from_slice start (v ∷ vs) bytes = copy_from_slice (start + 1) vs (set bytes start v)

-- The start of the range; its length is `block_bytes`.
unfoldable pub block_range : BlockDevice → ℕ → Option ℕ
block_range d i = if leb d.block_count i then none else some (i * d.block_bytes)

unfoldable pub block : BlockDevice → ℕ → Option (List ℕ)
block d i = elim (block_range d i) [
  | none ↦ none
  | some start ↦ some (slice start d.block_bytes d.storage)
]

-- The texts that `format!` makes are parameters.
unfoldable pub write_block_contents :
    (ℕ → ℕ → String) → (ℕ → String) → ℕ → List ℕ → Action BlockDevice (Unit {0})
write_block_contents size_text index_text i bytes d =
    if not (length bytes == d.block_bytes)
    then (d, err (device_fault (d.range.start + 16) (size_text (length bytes) d.block_bytes)))
    else elim (block_range d i) [
      | none ↦ (d, err (device_fault d.range.start (index_text i)))
      | some start ↦ (record d { storage = copy_from_slice start bytes d.storage }, ok tt)
    ]

unfoldable pub offset : BlockDevice → ℕ → Result BusError ℕ
offset d addr =
    if not (contains d.range addr) then err (unmapped_address addr) else ok (addr - d.range.start)

unfoldable pub control_word : BlockDevice → ℕ
control_word d =
    bit_or
      (bit_or (bit_or (if is_some d.active then 2 ^ 2 else 0) (if d.done then 2 ^ 3 else 0))
        (if d.irq_enabled then 2 ^ 4 else 0))
      (if d.error then 2 ^ 5 else 0)

unfoldable pub move_block : BlockDevice → BlockCommand → ℕ → BlockDevice
move_block d read_block start = record d {
  staging = slice start d.block_bytes d.storage;
  done = true;
}
move_block d write_block start = record d {
  storage = copy_from_slice start d.staging d.storage;
  done = true;
}

unfoldable pub finish_command : BlockDevice → BlockCommand → BlockDevice
finish_command d kind = elim (block_range d d.selected_block) [
  | none ↦ record d { error = true; done = false }
  | some start ↦ move_block d kind start
]

unfoldable pub start_command : BlockDevice → BlockCommand → BlockDevice
start_command d kind =
    let cleared = record d { done = false; error = false } in
    if is_some cleared.active
    then record cleared { error = true }
    else if d.operation_latency == 0
    then finish_command cleared kind
    else record cleared {
      active = some (record { kind = kind; remaining_cycles = d.operation_latency });
    }

unfoldable pub started : BlockDevice → Bool → Bool → BlockDevice
started d true false = start_command d read_block
started d false true = start_command d write_block
started d true true = record d { done = false; error = true }
started d false false = d

unfoldable pub apply_control_byte : ℕ → BlockDevice → BlockDevice
apply_control_byte control d =
    let d' = record d {
      irq_enabled = has_flag control (2 ^ 4);
      done = if has_flag control (2 ^ 3) then false else d.done;
      error = if has_flag control (2 ^ 5) then false else d.error;
    } in
    started d' (has_flag control (2 ^ 0)) (has_flag control (2 ^ 1))

unfoldable pub ticked : BlockDevice → Option ActiveCommand → BlockDevice
ticked d none = d
ticked d (some active) =
    if ltb 1 active.remaining_cycles
    then record d {
      active = some (record active { remaining_cycles = active.remaining_cycles - 1 });
    }
    else finish_command (record d { active = none }) active.kind

unfoldable pub tick : BlockDevice → BlockDevice
tick d = ticked d d.active

unfoldable pub pending_interrupts : BlockDevice → InterruptSet
pending_interrupts d =
    if d.irq_enabled && (d.done || d.error)
    then from_line (interrupt_line d.interrupt_route)
    else empty

unfoldable pub in_route : BlockDevice → ℕ → Bool
in_route d at = leb (route_offset d.block_bytes) at && ltb at (route_offset d.block_bytes + 4)

unfoldable pub read_register_byte : BlockDevice → ℕ → Result BusError ℕ
read_register_byte d at =
    if leb at 3
    then ok (byte_of d.selected_block at)
    else if leb at 7
    then ok (byte_of (control_word d) (at - 4))
    else if leb at 11
    then ok (byte_of d.block_count (at - 8))
    else if leb at 15
    then ok (byte_of (u32 d.block_bytes) (at - 12))
    else if in_route d at
    then ok (byte_of (register_bits d.interrupt_route) (at - route_offset d.block_bytes))
    else if ltb (at - 16) (length d.staging)
    then ok (get_or d.staging (at - 16) 0)
    else err (unmapped_address (d.range.start + at))

unfoldable pub load_at : BlockDevice → Result BusError ℕ → Result BusError ℕ
load_at d (ok at) = read_register_byte d at
load_at d (err e) = err e

unfoldable pub load8 : ℕ → Action BlockDevice ℕ
load8 addr d = (d, load_at d (offset d addr))

unfoldable pub store_at : ℕ → ℕ → Result BusError ℕ → Action BlockDevice (Unit {0})
store_at addr value (err e) d = (d, err e)
store_at addr value (ok at) d =
    if leb at 3
    then (record d { selected_block = replace_byte d.selected_block at value }, ok tt)
    else if leb at 7
    then ((if at == 4 then apply_control_byte value d else d), ok tt)
    else if leb at 15
    then (d, err (read_only_address addr))
    else if in_route d at
    then (
      record d {
        interrupt_route = from_register (
            replace_byte (register_bits d.interrupt_route) (at - route_offset d.block_bytes) value);
      },
      ok tt,
    )
    else if ltb (at - 16) (length d.staging)
    then (record d { staging = set d.staging (at - 16) value }, ok tt)
    else (d, err (unmapped_address (d.range.start + at)))

unfoldable pub store8 : ℕ → ℕ → Action BlockDevice (Unit {0})
store8 addr value d = store_at addr value (offset d addr) d
