-- ===== src/Devices/InterruptController.antt =====
-- crates/devices/src/interrupt_controller.rs: 32 external sources, claimed and completed through one
-- register that the bus reads and writes by bytes.
pub mod Claims
pub mod Disjoint
use rust_computer.Base.{
  ℕ, zero, suc, ◌+◌, ◌-◌, ◌*◌, ◌/◌, ◌%◌, ◌^◌, bit_and, bit_or, Bool, not, ◌&&◌, leb, ◌==◌,
  if◌then◌else◌, Option, none, some, unwrap_or, List, set, replicate, ok,
}
use rust_computer.Bits.Bytes.{byte_of, replace_byte, from_le_bytes}
use rust_computer.Bits.{shl, not32, has_flag}
use rust_computer.System.Address.{AddressRange, contains}
use rust_computer.System.Bus.{Action, return, fail, unmapped_address, read_only_address}
use rust_computer.System.Interrupts.{InterruptLine, InterruptSet, empty, from_line}

pub data InterruptRoute : Type 0 where
  machine_external supervisor_external : InterruptRoute

unfoldable pub from_register : ℕ → InterruptRoute
from_register value = if has_flag value (2 ^ 0) then supervisor_external else machine_external

unfoldable pub register_bits : InterruptRoute → ℕ
register_bits machine_external = 0
register_bits supervisor_external = 1

unfoldable pub interrupt_line : InterruptRoute → InterruptLine
interrupt_line machine_external = InterruptLine.machine_external
interrupt_line supervisor_external = InterruptLine.supervisor_external

pub record InterruptController : Type 0 where
  pub range : AddressRange
  pub pending : ℕ
  pub enable : ℕ
  pub claimed : ℕ
  pub route : InterruptRoute
  pub claim_latch : Option ℕ
  pub complete_staging : List ℕ

unfoldable pub new : ℕ → InterruptController
new base = record {
  range = record { start = base; size = 20 };
  pending = 0;
  enable = 0;
  claimed = 0;
  route = machine_external;
  claim_latch = none;
  complete_staging = replicate 4 0;
}

unfoldable pub reset : InterruptController → InterruptController
reset c = record c {
  pending = 0;
  enable = 0;
  claimed = 0;
  route = machine_external;
  claim_latch = none;
  complete_staging = replicate 4 0;
}

unfoldable pub enabled_pending : InterruptController → ℕ
enabled_pending c = bit_and c.pending c.enable

unfoldable pub source_mask : ℕ → ℕ
source_mask source_id = if leb 1 source_id && leb source_id 32 then 2 ^ (source_id - 1) else 0

-- `u32::trailing_zeros`: the digits are looked at from the lowest, 32 at most.
unfoldable pub trailing_zeros : ℕ → ℕ → ℕ
trailing_zeros zero a = 0
trailing_zeros (suc digits) a =
    let rest = trailing_zeros digits (a / 2) in if a % 2 == 1 then 0 else rest + 1

unfoldable pub highest_priority_pending_source : InterruptController → ℕ
highest_priority_pending_source c =
    if enabled_pending c == 0 then 0 else trailing_zeros 32 (enabled_pending c) + 1

unfoldable pub claim_next : InterruptController → InterruptController × ℕ
claim_next c =
    let source_id = highest_priority_pending_source c in
    if not (source_id == 0)
    then (
      record c {
        pending = bit_and c.pending (not32 (source_mask source_id));
        claimed = bit_or c.claimed (source_mask source_id);
      },
      source_id,
    )
    else (c, source_id)

unfoldable pub complete_source : InterruptController → ℕ → InterruptController
complete_source c source_id = record c {
  claimed = bit_and c.claimed (not32 (source_mask source_id));
}

unfoldable pub read_register_byte : InterruptController → ℕ → ℕ
read_register_byte c offset =
    if leb offset 3
    then byte_of c.pending offset
    else if leb offset 7
    then byte_of c.enable (offset - 4)
    else if leb offset 11
    then byte_of 0 0
    else if leb offset 15
    then byte_of (unwrap_or c.claim_latch 0) (offset - 12)
    else if leb offset 19
    then byte_of (register_bits c.route) (offset - 16)
    else byte_of 0 0

unfoldable pub pending_interrupts : InterruptController → InterruptSet
pending_interrupts c =
    if not (enabled_pending c == 0) then from_line (interrupt_line c.route) else empty

-- `self.claim_latch = Some(self.claim_next())` on the first byte of the claim register.
abbrev latched : InterruptController × ℕ → InterruptController
latched (c, source_id) = record c { claim_latch = some source_id }

unfoldable pub load_offset : ℕ → Action InterruptController ℕ
load_offset offset c =
    let c' = if offset == 12 then latched (claim_next c) else c in
    let value = read_register_byte c' offset in
    (if offset == 15 then record c' { claim_latch = none } else c', ok value)

unfoldable pub load8 : ℕ → Action InterruptController ℕ
load8 addr c =
    if not (contains c.range addr)
    then fail (unmapped_address addr) c
    else load_offset (addr - c.range.start) c

-- A byte of the completion: the fourth one completes the source that the bytes name.
unfoldable pub complete_byte : InterruptController → ℕ → ℕ → InterruptController
complete_byte c i value =
    let staging = set c.complete_staging i value in
    if i == 3
    then record (complete_source c (from_le_bytes staging)) { complete_staging = replicate 4 0 }
    else record c { complete_staging = staging }

unfoldable pub store_offset : ℕ → ℕ → ℕ → Action InterruptController (Unit {0})
store_offset addr offset value c =
    let mask = shl value (bit_and offset 0b11 * 8) in
    if leb offset 3
    then fail (read_only_address addr) c
    else if leb offset 7
    then return tt (record c { enable = replace_byte c.enable (offset - 4) value })
    else if leb offset 11
    then return tt (record c { pending = bit_or c.pending (bit_and mask (not32 c.claimed)) })
    else if leb offset 15
    then return tt (complete_byte c (offset - 12) value)
    else if leb offset 19
    then return tt (record c {
      route = from_register (replace_byte (register_bits c.route) (offset - 16) value);
    })
    else fail (unmapped_address addr) c

unfoldable pub store8 : ℕ → ℕ → Action InterruptController (Unit {0})
store8 addr value c =
    if not (contains c.range addr)
    then fail (unmapped_address addr) c
    else store_offset addr (addr - c.range.start) value c
