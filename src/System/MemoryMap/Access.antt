-- ===== src/System/MemoryMap/Access.antt =====
-- memory_map.rs, lines 175 to 271: one request or one beat on the device at an index.
use rust_computer.Base.{
  ℕ, zero, suc, ◌+◌, Bool, List, [], ◌∷◌, Option, none, some, Result, err, get_or, if◌then◌else◌,
  ◌==◌, ◌||◌,
}
use rust_computer.Bits.{u64}
use rust_computer.System.Bus.{BusError, device_fault, Action, ◌>>=◌, ◌>>◌, return, le_byte}
use rust_computer.System.Device.{Addressable}
use rust_computer.System.MemoryMap.{MemoryMap, DeviceSlot}
use rust_computer.System.Transaction.{
  AccessKind, TransactionRequest, TransactionResponse, BurstRequest, beat_addr, word_of,
}

-- A call on the map that may panic (`none`) or fail.
abbrev pub Call : Type 0 → Type 0 → Type 0
Call D A = Option (MemoryMap D × Result BusError A)

-- `self.devices[index]`, which panics out of bounds.
abbrev pub slot_at {ℓ} : {A : Type ℓ} → List A → ℕ → Option A
slot_at [] i = none
slot_at (x ∷ xs) zero = some x
slot_at (x ∷ xs) (suc i) = slot_at xs i

abbrev pub set_device : {D : Type 0} → List (DeviceSlot D) → ℕ → D → List (DeviceSlot D)
set_device [] i d = []
set_device (slot ∷ slots) zero d = record slot { device = d } ∷ slots
set_device (slot ∷ slots) (suc i) d = slot ∷ set_device slots i d

abbrev pub kept : {D A : Type 0} → MemoryMap D → ℕ → D × Result BusError A → Call D A
kept m i (d, result) = some (record m { devices = set_device m.devices i d }, result)

abbrev pub on_slot :
    {D A : Type 0} → MemoryMap D → ℕ → Action D A → Option (DeviceSlot D) → Call D A
on_slot m i action none = none
on_slot m i action (some slot) = kept m i (action slot.device)

-- A call on the device at an index.
unfoldable pub with_device : {D A : Type 0} → MemoryMap D → ℕ → Action D A → Call D A
with_device m i action = on_slot m i action (slot_at m.devices i)

abbrev pub two_bytes : List ℕ → List ℕ
two_bytes bytes = get_or bytes 0 0 ∷ get_or bytes 1 0 ∷ []

abbrev pub word_bytes : ℕ → List ℕ
word_bytes value = le_byte value 0 ∷ le_byte value 1 ∷ le_byte value 2 ∷ le_byte value 3 ∷ []

-- The arms of the `match` that have an action.
unfoldable pub is_supported : AccessKind → ℕ → Bool
is_supported AccessKind.fetch width = width == 4
is_supported AccessKind.load width = (width == 4) || (width == 2) || (width == 1)
is_supported AccessKind.store width = (width == 4) || (width == 2) || (width == 1)

module _ {D : Type 0} (ops : Addressable D) where
  unfoldable pub load_bytes : ℕ → ℕ → Action D (List ℕ)
  load_bytes zero addr = return []
  load_bytes (suc n) addr = do
    byte ← ops.load8 addr
    bytes ← load_bytes n (u64 (addr + 1))
    return (byte ∷ bytes)

  unfoldable pub store_bytes : ℕ → List ℕ → Action D (Unit {0})
  store_bytes addr [] = return tt
  store_bytes addr (byte ∷ bytes) = do ops.store8 addr byte; store_bytes (u64 (addr + 1)) bytes

  -- `bytes[..n].copy_from_slice(..)` into four zeros.
  abbrev pub padded : List ℕ → List ℕ
  padded bytes = get_or bytes 0 0 ∷ get_or bytes 1 0 ∷ get_or bytes 2 0 ∷ get_or bytes 3 0 ∷ []

  abbrev pub read_action : ℕ → ℕ → Action D TransactionResponse
  read_action addr width = do
    bytes ← load_bytes width addr
    return (TransactionResponse.read (padded bytes) width)

  abbrev pub write_action : ℕ → List ℕ → Action D TransactionResponse
  write_action addr bytes = do store_bytes addr bytes; return TransactionResponse.write_complete

  -- The action of a supported request.
  unfoldable pub request_action : TransactionRequest → AccessKind → Action D TransactionResponse
  request_action r AccessKind.store =
      if r.width == 4
      then write_action r.addr r.write_data
      else if r.width == 2
      then write_action r.addr (two_bytes r.write_data)
      else write_action r.addr (get_or r.write_data 0 0 ∷ [])
  request_action r kind = read_action r.addr r.width

  -- The message leaves out the kind and the width.
  unfoldable pub execute_request : MemoryMap D → ℕ → TransactionRequest → Call D TransactionResponse
  execute_request m i r =
      if is_supported r.kind r.width
      then with_device m i (request_action r r.kind)
      else some (m, err (device_fault r.addr "unsupported transaction"))

  abbrev read_word_action : ℕ → Action D (Option ℕ)
  read_word_action addr = do bytes ← load_bytes 4 addr; return (some (word_of bytes))

  abbrev write_word_action : ℕ → ℕ → Action D (Option ℕ)
  write_word_action addr word = do store_bytes addr (word_bytes word); return none

  abbrev pub write_beat : MemoryMap D → ℕ → ℕ → Option ℕ → Call D (Option ℕ)
  write_beat m i addr none = none
  write_beat m i addr (some word) = with_device m i (write_word_action addr word)

  unfoldable pub execute_burst_beat : MemoryMap D → ℕ → BurstRequest → ℕ → Call D (Option ℕ)
  execute_burst_beat m i (BurstRequest.read_words base n kind) beat_index =
      with_device m i
        (read_word_action (beat_addr (BurstRequest.read_words base n kind) beat_index))
  execute_burst_beat m i (BurstRequest.write_words base words) beat_index =
      write_beat m i (beat_addr (BurstRequest.write_words base words) beat_index)
        (slot_at words beat_index)
