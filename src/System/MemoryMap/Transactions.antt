-- ===== src/System/MemoryMap/Transactions.antt =====
-- memory_map.rs, lines 273 to 344 and 430 to 529: the life of a transaction.
use rust_computer.Base.{
  ℕ, zero, suc, ◌+◌, ◌-◌, ◌%◌, ◌^◌, List, [], ◌∷◌, Option, none, some, Result, ok, err,
  if◌then◌else◌, ◌==◌, ltb,
}
use rust_computer.System.Bus.{BusError, unmapped_address}
use rust_computer.System.Device.{Addressable}
use rust_computer.System.MemoryMap.Access.{Call, slot_at, set_device, execute_request}
use rust_computer.System.MemoryMap.{
  MemoryMap, DeviceSlot, ActiveTransaction, CompatTransaction, position, push, find_device_index,
}
use rust_computer.System.Transaction.{
  TransactionRequest, TransactionResponse, TransactionPhase, accepted, in_flight, ready, failed,
}

unfoldable pub transaction_remaining_cycles : TransactionPhase → ℕ
transaction_remaining_cycles (in_flight remaining_cycles) = remaining_cycles
transaction_remaining_cycles _ = 1

-- The lists of the active transactions: `position`, an assignment of the phase, `swap_remove`.
abbrev pub transaction_index : List ActiveTransaction → ℕ → Option ℕ
transaction_index active id = position (λ t. t.id == id) active

abbrev pub set_phase : List ActiveTransaction → ℕ → TransactionPhase → List ActiveTransaction
set_phase [] i phase = []
set_phase (t ∷ ts) zero phase = record t { phase = phase } ∷ ts
set_phase (t ∷ ts) (suc i) phase = t ∷ set_phase ts i phase

abbrev pub last_or {ℓ} : {A : Type ℓ} → A → List A → A
last_or x [] = x
last_or x (y ∷ ys) = last_or y ys

abbrev pub without_last {ℓ} : {A : Type ℓ} → A → List A → List A
without_last x [] = []
without_last x (y ∷ ys) = x ∷ without_last y ys

-- `swap_remove`: the last element takes the place of the removed one.
unfoldable pub swap_remove {ℓ} : {A : Type ℓ} → List A → ℕ → List A
swap_remove [] i = []
swap_remove (x ∷ []) zero = []
swap_remove (x ∷ y ∷ ys) zero = last_or y ys ∷ without_last y ys
swap_remove (x ∷ xs) (suc i) = x ∷ swap_remove xs i

abbrev pub phase_in : Option ActiveTransaction → Option TransactionPhase
phase_in none = none
phase_in (some t) = some t.phase

abbrev pub phase_of : List ActiveTransaction → Option ℕ → Option TransactionPhase
phase_of active none = none
phase_of active (some i) = phase_in (slot_at active i)

unfoldable pub transaction_phase : {D : Type 0} → MemoryMap D → ℕ → Option TransactionPhase
transaction_phase m id = phase_of m.active_transactions (transaction_index m.active_transactions id)

abbrev remaining_or_zero : Option TransactionPhase → ℕ
remaining_or_zero none = 0
remaining_or_zero (some phase) = transaction_remaining_cycles phase

abbrev compat_phase :
    {D : Type 0} → MemoryMap D → Option CompatTransaction → Option TransactionPhase
compat_phase m none = none
compat_phase m (some compat) = transaction_phase m compat.id

unfoldable pub compat_remaining_cycles : {D : Type 0} → MemoryMap D → ℕ
compat_remaining_cycles m = remaining_or_zero (compat_phase m m.compat_transaction)

abbrev pub submitted :
    {D : Type 0} → MemoryMap D → TransactionRequest → Option ℕ → MemoryMap D × Result BusError ℕ
submitted m request none = (m, err (unmapped_address request.addr))
submitted m request (some i) = (
  record m {
    next_transaction_id = (m.next_transaction_id + 1) % 2 ^ 64;
    active_transactions = push m.active_transactions (record {
      id = m.next_transaction_id;
      device_index = i;
      request = request;
      phase = TransactionPhase.accepted;
    });
  },
  ok m.next_transaction_id,
)

unfoldable pub submit_transaction :
    {D : Type 0} → MemoryMap D → TransactionRequest → MemoryMap D × Result BusError ℕ
submit_transaction m request = submitted m request (find_device_index m request.addr)

abbrev pub result_phase : Result BusError TransactionResponse → TransactionPhase
result_phase (ok response) = ready response
result_phase (err error) = failed error

abbrev pub with_phase : {D : Type 0} → MemoryMap D → ℕ → TransactionPhase → MemoryMap D
with_phase m i phase = record m { active_transactions = set_phase m.active_transactions i phase }

abbrev pub finished : {D : Type 0} → ℕ → Call D TransactionResponse → Option (MemoryMap D)
finished i none = none
finished i (some (m, result)) = some (with_phase m i (result_phase result))

abbrev pub keep_device : {D : Type 0} → MemoryMap D → ℕ → D → MemoryMap D
keep_device m i d = record m { devices = set_device m.devices i d }

module _ {D : Type 0} (ops : Addressable D) where
  -- The latency is asked for; none means that the request is executed at once.
  unfoldable pub accept : MemoryMap D → ℕ → ActiveTransaction → D × ℕ → Option (MemoryMap D)
  accept m i t (d, latency) =
      let m' = keep_device m t.device_index d in
      if latency == 0
      then finished i (execute_request ops m' t.device_index t.request)
      else some (with_phase m' i (in_flight latency))

  abbrev pub accept_on :
      MemoryMap D → ℕ → ActiveTransaction → Option (DeviceSlot D) → Option (MemoryMap D)
  accept_on m i t none = none
  accept_on m i t (some slot) =
      accept m i t (ops.access_latency t.request.addr t.request.kind t.request.width slot.device)

  unfoldable pub advance_phase :
      MemoryMap D → ℕ → ActiveTransaction → TransactionPhase → Option (MemoryMap D)
  advance_phase m i t accepted = accept_on m i t (slot_at m.devices t.device_index)
  advance_phase m i t (in_flight remaining_cycles) =
      if ltb 1 remaining_cycles
      then some (with_phase m i (in_flight (remaining_cycles - 1)))
      else finished i (execute_request ops m t.device_index t.request)
  advance_phase m i t (ready response) = some m
  advance_phase m i t (failed error) = some m

  abbrev pub advance_slot : MemoryMap D → ℕ → Option ActiveTransaction → Option (MemoryMap D)
  advance_slot m i none = some m
  advance_slot m i (some t) = advance_phase m i t t.phase

  unfoldable pub advance_transaction_at : MemoryMap D → ℕ → Option (MemoryMap D)
  advance_transaction_at m i = advance_slot m i (slot_at m.active_transactions i)

  -- The loop of `tick` over the transactions from index `i`.
  unfoldable pub advance_transactions : ℕ → ℕ → MemoryMap D → Option (MemoryMap D)
  advance_transactions zero i m = some m
  advance_transactions (suc n) i m = elim (advance_transaction_at m i) [
    | none ↦ none
    | some m' ↦ advance_transactions n (suc i) m'
  ]

  abbrev pub advance_index : MemoryMap D → Option ℕ → Option (MemoryMap D)
  advance_index m none = some m
  advance_index m (some i) = advance_transaction_at m i

  -- The map after `advance_transaction`; its result is then `transaction_phase`.
  unfoldable pub advance_transaction : MemoryMap D → ℕ → Option (MemoryMap D)
  advance_transaction m id = advance_index m (transaction_index m.active_transactions id)

unfoldable pub clear_compat_if_matches : Option CompatTransaction → ℕ → Option CompatTransaction
clear_compat_if_matches none id = none
clear_compat_if_matches (some compat) id = if compat.id == id then none else some compat

abbrev pub taken : {D : Type 0} → MemoryMap D → ℕ → ℕ → MemoryMap D
taken m i id = record m {
  active_transactions = swap_remove m.active_transactions i;
  compat_transaction = clear_compat_if_matches m.compat_transaction id;
}

-- The response or the error of the transaction at an index, once it has one.
unfoldable pub take_phase :
    {D : Type 0}
    → MemoryMap D
    → ℕ
    → ℕ
    → Option TransactionPhase
    → MemoryMap D × Option (Result BusError TransactionResponse)
take_phase m i id none = (m, none)
take_phase m i id (some accepted) = (m, none)
take_phase m i id (some (in_flight _)) = (m, none)
take_phase m i id (some (ready response)) = (taken m i id, some (ok response))
take_phase m i id (some (failed error)) = (taken m i id, some (err error))

abbrev pub take_at :
    {D : Type 0}
    → MemoryMap D
    → ℕ
    → Option ℕ
    → MemoryMap D × Option (Result BusError TransactionResponse)
take_at m id none = (m, none)
take_at m id (some i) = take_phase m i id (phase_of m.active_transactions (some i))

unfoldable pub take_transaction_response :
    {D : Type 0} → MemoryMap D → ℕ → MemoryMap D × Option (Result BusError TransactionResponse)
take_transaction_response m id = take_at m id (transaction_index m.active_transactions id)
