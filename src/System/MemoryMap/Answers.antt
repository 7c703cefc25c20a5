-- ===== src/System/MemoryMap/Answers.antt =====
-- memory_map.rs: `execute_request` on a device that is there answers what the request asks.
use rust_computer.Base.{ℕ, ◌<◌, ◌≡◌, refl, List, length, none, some, Result, ok, err, if_elim, ◌==◌}
use rust_computer.System.Bus.{BusError, Action, follow, return}
use rust_computer.System.Device.{Addressable}
use rust_computer.System.MemoryMap.Access.{
  Call, with_device, kept, is_supported, request_action, read_action, write_action, execute_request,
  load_bytes, store_bytes, padded,
}
use rust_computer.System.MemoryMap.Lists.{length-set_device, slot_at-some}
use rust_computer.System.MemoryMap.Transactions.{result_phase}
use rust_computer.System.MemoryMap.{MemoryMap, ActiveTransaction}
use rust_computer.System.Transaction.{
  AccessKind, TransactionRequest, TransactionResponse, TransactionPhase, ready,
}

-- The response is of the request's kind and width.
unfoldable pub Responds : AccessKind → ℕ → TransactionResponse → Type 0
Responds AccessKind.store width TransactionResponse.write_complete = Unit
Responds AccessKind.store width (TransactionResponse.read bytes w) = ⊥
Responds kind width (TransactionResponse.read bytes w) = w ≡ width
Responds kind width TransactionResponse.write_complete = ⊥

unfoldable pub Fits : TransactionRequest → TransactionPhase → Type 0
Fits r (ready response) = Responds r.kind r.width response
Fits r phase = Unit

-- The transaction's device exists, and its phase fits its request.
abbrev pub IsFit : ℕ → ActiveTransaction → Type 0
IsFit n t = (t.device_index < n) × Fits t.request t.phase

-- The answer of an action is of this kind and width, if it is one.
unfoldable Answering :
    {D : Type 0} → AccessKind → ℕ → D × Result BusError TransactionResponse → Type 0
Answering kind width (d, ok response) = Responds kind width response
Answering kind width (d, err e) = Unit

follow-Answering :
    {D A : Type 0} (kind : AccessKind) (width : ℕ) (f : A → TransactionResponse)
    (x : D × Result BusError A)
    → ((a : A) → Responds kind width (f a))
    → Answering kind width (follow (λ (a : A). return (f a)) x)
unfolding Answering
follow-Answering kind width f (d, ok a) h = h a
follow-Answering kind width f (d, err e) h = tt

-- What an execution on the map leaves: as many devices, the transactions and the bursts.
pub record IsAlike {D : Type 0} (m m' : MemoryMap D) : Type 0 where
  pub devices : length m'.devices ≡ length m.devices
  pub transactions : m'.active_transactions ≡ m.active_transactions
  pub compat : m'.compat_transaction ≡ m.compat_transaction
  pub next : m'.next_transaction_id ≡ m.next_transaction_id
  pub bursts : m'.active_bursts ≡ m.active_bursts

unfoldable pub Executes :
    {D : Type 0} → MemoryMap D → TransactionRequest → Call D TransactionResponse → Type 0
Executes m r none = ⊥
Executes m r (some (m', result)) = IsAlike m m' × Fits r (result_phase result)

module _ {D : Type 0} (ops : Addressable D) where
  read-Answering :
      (kind : AccessKind) (addr width : ℕ) (d : D)
      → ((bytes : List ℕ) → Responds kind width (TransactionResponse.read bytes width))
      → Answering kind width (read_action ops addr width d)
  read-Answering kind addr width d h =
      follow-Answering kind width
        (λ (bytes : List ℕ). TransactionResponse.read (padded ops bytes) width)
        (load_bytes ops width addr d) (λ bytes. h (padded ops bytes))

  write-Answering :
      (width addr : ℕ) (bytes : List ℕ) (d : D)
      → Answering AccessKind.store width (write_action ops addr bytes d)
  write-Answering width addr bytes d =
      follow-Answering AccessKind.store width (λ (_ : Unit {0}). TransactionResponse.write_complete)
        (store_bytes ops addr bytes d) (λ _. unfold Responds in tt)

  request-Answering :
      (r : TransactionRequest) (kind : AccessKind) (d : D)
      → Answering kind r.width (request_action ops r kind d)
  unfolding request_action
  request-Answering r AccessKind.fetch d =
      read-Answering AccessKind.fetch r.addr r.width d (λ bytes. unfold Responds in refl)
  request-Answering r AccessKind.load d =
      read-Answering AccessKind.load r.addr r.width d (λ bytes. unfold Responds in refl)
  request-Answering r AccessKind.store d =
      if_elim (λ (a : Action D TransactionResponse). Answering AccessKind.store r.width (a d))
        (r.width == 4) (λ _. write-Answering r.width r.addr _ d)
        (λ _.
          if_elim (λ (a : Action D TransactionResponse). Answering AccessKind.store r.width (a d))
            (r.width == 2) (λ _. write-Answering r.width r.addr _ d)
            (λ _. write-Answering r.width r.addr _ d))

kept-Executes :
    {D : Type 0} (m : MemoryMap D) (i : ℕ) (r : TransactionRequest)
    (x : D × Result BusError TransactionResponse)
    → Answering r.kind r.width x
    → Executes m r (kept m i x)
unfolding Answering Executes Fits
kept-Executes m i r (d, ok response) a = (
  record {
    devices = length-set_device m.devices i d;
    transactions = refl;
    compat = refl;
    next = refl;
    bursts = refl;
  },
  a,
)
kept-Executes m i r (d, err e) a = (
  record {
    devices = length-set_device m.devices i d;
    transactions = refl;
    compat = refl;
    next = refl;
    bursts = refl;
  },
  tt,
)

refused-Executes :
    {D : Type 0} (m : MemoryMap D) (r : TransactionRequest) (e : BusError)
    → Executes m r (some (m, err e))
unfolding Executes Fits
refused-Executes m r e =
    (record { devices = refl; transactions = refl; compat = refl; next = refl; bursts = refl }, tt)

pub execute_request-Executes :
    {D : Type 0} (ops : Addressable D) (m : MemoryMap D) (i : ℕ) (r : TransactionRequest)
    → i < length m.devices
    → Executes m r (execute_request ops m i r)
unfolding execute_request with_device
execute_request-Executes ops m i r b =
    if_elim (Executes m r) (is_supported r.kind r.width)
      (λ _.
        let (slot, e) = slot_at-some m.devices i b in
        rw e (kept-Executes m i r _ (request-Answering ops r r.kind slot.device)))
      (λ _. refused-Executes m r _)
