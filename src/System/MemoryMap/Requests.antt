-- ===== src/System/MemoryMap/Requests.antt =====
-- memory_map.rs, lines 439 to 478 and 605 to 707: `perform_request`, the methods of `Bus`, and `tick`.
use rust_computer.Base.{
  ℕ, ◌%◌, Bool, true, false, [], ◌∷◌, Option, none, some, Result, ok, err, if◌then◌else◌, ◌==◌, max,
  not, get_or, length,
}
use rust_computer.System.Bus.{BusError, busy, misaligned_access, from_le_bytes2, le_byte}
use rust_computer.System.Device.{Addressable}
use rust_computer.System.MemoryMap.Access.{Call, word_bytes}
use rust_computer.System.MemoryMap.Bursts.{advance_bursts}
use rust_computer.System.MemoryMap.Transactions.{
  transaction_phase, compat_remaining_cycles, submit_transaction, advance_transaction,
  advance_transactions, take_transaction_response,
}
use rust_computer.System.MemoryMap.{MemoryMap, CompatTransaction, tick_slots}
use rust_computer.System.Transaction.{
  TransactionRequest, TransactionResponse, TransactionPhase, same_request, fetch_request,
  load_request, store_request, word_of,
}

-- `Err(BusError::Busy { .. })`.
abbrev pub wait : {D A : Type 0} → MemoryMap D → Call D A
wait m = some (m, err (busy (max (compat_remaining_cycles m) 1)))

abbrev pub is_accepted : Option TransactionPhase → Bool
is_accepted (some TransactionPhase.accepted) = true
is_accepted _ = false

-- The end: the response if there is one.
unfoldable pub respond :
    {D : Type 0}
    → MemoryMap D × Option (Result BusError TransactionResponse)
    → Call D TransactionResponse
respond (m, none) = wait m
respond (m, some result) = some (record m { compat_transaction = none }, result)

abbrev pub responding : {D : Type 0} → ℕ → Option (MemoryMap D) → Call D TransactionResponse
responding id none = none
responding id (some m) = respond (take_transaction_response m id)

module _ {D : Type 0} (ops : Addressable D) where
  -- From the `expect` on, with the compatibility transaction's id.
  unfoldable pub drive : MemoryMap D → ℕ → Call D TransactionResponse
  drive m id =
      responding id
        (if is_accepted (transaction_phase m id) then advance_transaction ops m id else some m)

  abbrev pub drive_submitted :
      TransactionRequest → MemoryMap D × Result BusError ℕ → Call D TransactionResponse
  drive_submitted request (m, err e) = some (m, err e)
  drive_submitted request (m, ok id) =
      drive (record m { compat_transaction = some (record { id = id; request = request }) }) id

  -- A transaction that is gone is forgotten, and then the `expect` panics.
  abbrev pub drive_known : MemoryMap D → ℕ → Option TransactionPhase → Call D TransactionResponse
  drive_known m id none = none
  drive_known m id (some phase) = drive m id

  unfoldable pub drive_compat :
      MemoryMap D → TransactionRequest → Option CompatTransaction → Call D TransactionResponse
  drive_compat m request none = drive_submitted request (submit_transaction m request)
  drive_compat m request (some compat) =
      if not (same_request compat.request request)
      then wait m
      else drive_known m compat.id (transaction_phase m compat.id)

  unfoldable pub perform_request : MemoryMap D → TransactionRequest → Call D TransactionResponse
  perform_request m request = drive_compat m request m.compat_transaction

  -- `none` where the response is not the one that the method expects.
  abbrev pub word_response : Call D TransactionResponse → Call D ℕ
  word_response none = none
  word_response (some (m, err e)) = some (m, err e)
  word_response (some (m, ok (TransactionResponse.read bytes width))) =
      if width == 4 then some (m, ok (word_of bytes)) else none
  word_response (some (m, ok TransactionResponse.write_complete)) = none

  abbrev pub half_response : Call D TransactionResponse → Call D ℕ
  half_response none = none
  half_response (some (m, err e)) = some (m, err e)
  half_response (some (m, ok (TransactionResponse.read bytes width))) =
      if width == 2
      then some (m, ok (from_le_bytes2 (get_or bytes 0 0) (get_or bytes 1 0)))
      else none
  half_response (some (m, ok TransactionResponse.write_complete)) = none

  abbrev pub byte_response : Call D TransactionResponse → Call D ℕ
  byte_response none = none
  byte_response (some (m, err e)) = some (m, err e)
  byte_response (some (m, ok (TransactionResponse.read bytes width))) =
      if width == 1 then some (m, ok (get_or bytes 0 0)) else none
  byte_response (some (m, ok TransactionResponse.write_complete)) = none

  abbrev pub unit_response : Call D TransactionResponse → Call D (Unit {0})
  unit_response none = none
  unit_response (some (m, err e)) = some (m, err e)
  unit_response (some (m, ok _)) = some (m, ok tt)

  unfoldable pub fetch32 : MemoryMap D → ℕ → Call D ℕ
  fetch32 m addr =
      if not (addr % 4 == 0)
      then some (m, err (misaligned_access addr 4))
      else word_response (perform_request m (fetch_request addr))

  unfoldable pub load8 : MemoryMap D → ℕ → Call D ℕ
  load8 m addr = byte_response (perform_request m (load_request addr 1))

  unfoldable pub load16 : MemoryMap D → ℕ → Call D ℕ
  load16 m addr =
      if not (addr % 2 == 0)
      then some (m, err (misaligned_access addr 2))
      else half_response (perform_request m (load_request addr 2))

  unfoldable pub load32 : MemoryMap D → ℕ → Call D ℕ
  load32 m addr =
      if not (addr % 4 == 0)
      then some (m, err (misaligned_access addr 4))
      else word_response (perform_request m (load_request addr 4))

  unfoldable pub store8 : MemoryMap D → ℕ → ℕ → Call D (Unit {0})
  store8 m addr value =
      unit_response (perform_request m (store_request addr 1 (value ∷ 0 ∷ 0 ∷ 0 ∷ [])))

  unfoldable pub store16 : MemoryMap D → ℕ → ℕ → Call D (Unit {0})
  store16 m addr value =
      if not (addr % 2 == 0)
      then some (m, err (misaligned_access addr 2))
      else unit_response (
          perform_request m (store_request addr 2 (le_byte value 0 ∷ le_byte value 1 ∷ 0 ∷ 0 ∷ [])))

  unfoldable pub store32 : MemoryMap D → ℕ → ℕ → Call D (Unit {0})
  store32 m addr value =
      if not (addr % 4 == 0)
      then some (m, err (misaligned_access addr 4))
      else unit_response (perform_request m (store_request addr 4 (word_bytes value)))

  abbrev pub ticked : Option (MemoryMap D) → Option (MemoryMap D)
  ticked none = none
  ticked (some m) = some (record m { devices = tick_slots ops m.devices })

  abbrev pub bursts_advanced : Option (MemoryMap D) → Option (MemoryMap D)
  bursts_advanced none = none
  bursts_advanced (some m) = advance_bursts ops (length m.active_bursts) 0 m

  unfoldable pub tick : MemoryMap D → Option (MemoryMap D)
  tick m = ticked (bursts_advanced (advance_transactions ops (length m.active_transactions) 0 m))
