-- ===== src/System/MemoryMap.antt =====
-- crates/system/src/memory_map.rs: the bus that routes accesses to the first mapped device that
-- contains the address. A call that would panic gives `none`.
pub mod Access
pub mod Transactions
pub mod Bursts
pub mod Requests
pub mod Lists
pub mod Ranges
pub mod Answers
pub mod Safety
pub mod Pending
pub mod Beats
pub mod Passes
pub mod Ticks
pub mod Submitting
pub mod Performing
pub mod Countdown
pub mod Rounds
pub mod Blocked
use Prim.Native.String.{String, ◌++◌}
use rust_computer.Base.{
  ℕ, zero, suc, ◌+◌, ◌%◌, ◌^◌, Bool, true, false, List, [], ◌∷◌, Option, none, some, Result, ok,
  err, if◌then◌else◌, not, ◌||◌,
}
use rust_computer.System.Address.{AddressRange, contains, overlaps}
use rust_computer.System.Bus.{BusError, unmapped_address, device_fault}
use rust_computer.System.Device.{Addressable}
use rust_computer.System.Interrupts.{InterruptSet, empty, union}
use rust_computer.System.Transaction.{
  TransactionRequest, TransactionPhase, BurstRequest, BurstPhase,
}

pub record DeviceSlot (D : Type 0) : Type 0 where
  pub range : AddressRange
  pub name : String
  pub device : D

pub record ActiveTransaction : Type 0 where
  pub id : ℕ
  pub device_index : ℕ
  pub request : TransactionRequest
  pub phase : TransactionPhase

pub record ActiveBurst : Type 0 where
  pub id : ℕ
  pub device_index : ℕ
  pub request : BurstRequest
  pub beat_index : ℕ
  pub read_words : List ℕ
  pub phase : BurstPhase

pub record CompatTransaction : Type 0 where
  pub id : ℕ
  pub request : TransactionRequest

pub record MemoryMap (D : Type 0) : Type 0 where
  pub devices : List (DeviceSlot D)
  pub active_transactions : List ActiveTransaction
  pub active_bursts : List ActiveBurst
  pub compat_transaction : Option CompatTransaction
  pub next_transaction_id : ℕ

unfoldable pub new : {D : Type 0} → MemoryMap D
new = record {
  devices = [];
  active_transactions = [];
  active_bursts = [];
  compat_transaction = none;
  next_transaction_id = 0;
}

-- The loop of `ensure_range_available`: the first slot that overlaps.
unfoldable pub ensure_range_available :
    {D : Type 0} → List (DeviceSlot D) → AddressRange → String → Result BusError (Unit {0})
ensure_range_available [] range name = ok tt
ensure_range_available (slot ∷ slots) range name =
    if overlaps slot.range range
    then err (device_fault range.start ("device " ++ name ++ " overlaps with " ++ slot.name))
    else ensure_range_available slots range name

abbrev pub push {ℓ} : {A : Type ℓ} → List A → A → List A
push [] a = a ∷ []
push (x ∷ xs) a = x ∷ push xs a

abbrev mapped_if :
    {D : Type 0}
    → MemoryMap D
    → DeviceSlot D
    → Result BusError (Unit {0})
    → Result BusError (MemoryMap D)
mapped_if m slot (ok _) = ok (record m { devices = push m.devices slot })
mapped_if m slot (err e) = err e

abbrev pub next_index : Option ℕ → Option ℕ
next_index none = none
next_index (some i) = some (suc i)

-- The position of the first slot that contains the address.
abbrev pub position {ℓ} : {A : Type ℓ} → (A → Bool) → List A → Option ℕ
position p [] = none
position p (x ∷ xs) = if p x then some 0 else next_index (position p xs)

unfoldable pub find_device_index : {D : Type 0} → MemoryMap D → ℕ → Option ℕ
find_device_index m addr = position (λ slot. contains slot.range addr) m.devices

abbrev or_else {ℓ} : {A : Type ℓ} → Option A → Option A → Option A
or_else (some a) b = some a
or_else none b = b

module _ {D : Type 0} (ops : Addressable D) where
  unfoldable pub map_device : MemoryMap D → D → Result BusError (MemoryMap D)
  map_device m device =
      let range = ops.address_range device in
      mapped_if m (record { range = range; name = ops.name device; device = device })
        (ensure_range_available m.devices range (ops.name device))

  abbrev reset_slots : List (DeviceSlot D) → List (DeviceSlot D)
  reset_slots [] = []
  reset_slots (slot ∷ slots) = record slot { device = ops.reset slot.device } ∷ reset_slots slots

  unfoldable pub reset : MemoryMap D → MemoryMap D
  reset m = record {
    devices = reset_slots m.devices;
    active_transactions = [];
    active_bursts = [];
    compat_transaction = none;
    next_transaction_id = 0;
  }

  abbrev pub tick_slots : List (DeviceSlot D) → List (DeviceSlot D)
  tick_slots [] = []
  tick_slots (slot ∷ slots) = record slot { device = ops.tick slot.device } ∷ tick_slots slots

  abbrev first_time : List (DeviceSlot D) → Option ℕ
  first_time [] = none
  first_time (slot ∷ slots) = or_else (ops.machine_time slot.device) (first_time slots)

  unfoldable pub machine_time : MemoryMap D → Option ℕ
  machine_time m = first_time m.devices

  abbrev union_from : InterruptSet → List (DeviceSlot D) → InterruptSet
  union_from interrupts [] = interrupts
  union_from interrupts (slot ∷ slots) =
      union_from (union interrupts (ops.pending_interrupts slot.device)) slots

  unfoldable pub pending_interrupts : MemoryMap D → InterruptSet
  pending_interrupts m = union_from empty m.devices

abbrev pub is_empty {ℓ} : {A : Type ℓ} → List A → Bool
is_empty [] = true
is_empty (x ∷ xs) = false

unfoldable pub is_busy : {D : Type 0} → MemoryMap D → Bool
is_busy m = not (is_empty m.active_transactions) || not (is_empty m.active_bursts)
