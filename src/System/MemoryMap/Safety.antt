-- ===== src/System/MemoryMap/Safety.antt =====
-- memory_map.rs: the sound maps, and the steps of a transaction that keep them sound.
use rust_computer.Base.{
  ℕ, ◌-◌, ◌<◌, ◌≡◌, refl, List, All, length, Option, none, some, if_elim, Bool-cases, inl, inr,
  ◌==◌, ltb, sym, ◌∙◌, subst, ==_iff, false≢true,
}
use rust_computer.System.Device.{Addressable}
use rust_computer.System.MemoryMap.Access.{Call, slot_at}
use rust_computer.System.MemoryMap.Lists.{
  All-slot, All-set_phase, transaction_index-set_phase, slot_at-set_phase, slot_at-set_phase_ne,
  length-set_device, slot_at-some,
}
use rust_computer.System.MemoryMap.Transactions.{
  transaction_index, set_phase, result_phase, with_phase, finished, accept, advance_phase,
  advance_transaction_at,
}
use rust_computer.System.MemoryMap.{MemoryMap, ActiveTransaction, CompatTransaction}
use rust_computer.System.Transaction.{
  TransactionRequest, TransactionResponse, TransactionPhase, accepted, in_flight, ready, failed,
}
use rust_computer.System.MemoryMap.Answers.{
  Fits, IsFit, IsAlike, Executes, execute_request-Executes,
}
use rust_computer.System.MemoryMap.Transactions.{advance_transaction, keep_device}

-- The transaction that is found under an identifier asks what the request asks.
pub record IsHeld (ts : List ActiveTransaction) (id : ℕ) (r : TransactionRequest) : Type 0 where
  pub index : ℕ
  pub transaction : ActiveTransaction
  pub found : transaction_index ts id ≡ some index
  pub there : slot_at ts index ≡ some transaction
  pub same_kind : transaction.request.kind ≡ r.kind
  pub same_width : transaction.request.width ≡ r.width

unfoldable pub HoldsCompat : List ActiveTransaction → Option CompatTransaction → Type 0
HoldsCompat ts none = Unit
HoldsCompat ts (some c) = IsHeld ts c.id c.request

abbrev FitsSome : TransactionPhase → Option ActiveTransaction → Type 0
FitsSome p none = Unit
FitsSome p (some t) = Fits t.request p

-- Every transaction has its device and a phase that fits, its identifier is older than the next one,
-- and the compatibility transaction, if any, is active.
pub record IsSound {D : Type 0} (m : MemoryMap D) : Type 0 where
  pub fit : All (IsFit (length m.devices)) m.active_transactions
  pub fresh : All (λ t. t.id < m.next_transaction_id) m.active_transactions
  pub compat : HoldsCompat m.active_transactions m.compat_transaction

-- An update of one phase keeps what is held.
set_phase-IsHeld :
    (ts : List ActiveTransaction) (i : ℕ) (p : TransactionPhase) (id : ℕ) (r : TransactionRequest)
    → IsHeld ts id r
    → IsHeld (set_phase ts i p) id r
set_phase-IsHeld ts i p id r h = elim (Bool-cases (i == h.index)) [
  | inl e ↦ record {
    index = h.index;
    transaction = record (h.transaction) { phase = p };
    found = transaction_index-set_phase ts i p id ∙ h.found;
    there =
        subst
          (λ (j : ℕ).
            slot_at (set_phase ts j p) h.index ≡ some (record (h.transaction) { phase = p }))
          (sym ((==_iff i h.index).0 e)) (slot_at-set_phase ts h.index p h.transaction h.there);
    same_kind = h.same_kind;
    same_width = h.same_width;
  }
  | inr e ↦ record {
    index = h.index;
    transaction = h.transaction;
    found = transaction_index-set_phase ts i p id ∙ h.found;
    there =
        slot_at-set_phase_ne ts i h.index p (λ x. false≢true (sym e ∙ (==_iff i h.index).1 x))
        ∙ h.there;
    same_kind = h.same_kind;
    same_width = h.same_width;
  }
]

set_phase-HoldsCompat :
    (ts : List ActiveTransaction) (i : ℕ) (p : TransactionPhase) (c : Option CompatTransaction)
    → HoldsCompat ts c
    → HoldsCompat (set_phase ts i p) c
unfolding HoldsCompat
set_phase-HoldsCompat ts i p none h = tt
set_phase-HoldsCompat ts i p (some c) h = set_phase-IsHeld ts i p c.id c.request h

pub with_phase-IsSound :
    {D : Type 0} (m : MemoryMap D) (i : ℕ) (p : TransactionPhase) (t : ActiveTransaction)
    → IsSound m
    → slot_at m.active_transactions i ≡ some t
    → Fits t.request p
    → IsSound (with_phase m i p)
with_phase-IsSound m i p t s e f =
    let ts = m.active_transactions in
    let n = length m.devices in
    record {
      fit = All-set_phase (IsFit n) ts i p s.fit (λ t' e'. (
        (All-slot (IsFit n) ts i t' s.fit e').0,
        subst (λ (o : Option ActiveTransaction). FitsSome p o) (sym e ∙ e') f,
      ));
      fresh =
          All-set_phase (λ x. x.id < m.next_transaction_id) ts i p s.fresh
            (λ t' e'. All-slot (λ x. x.id < m.next_transaction_id) ts i t' s.fresh e');
      compat = set_phase-HoldsCompat ts i p m.compat_transaction s.compat;
    }

pub alike-IsSound : {D : Type 0} (m m' : MemoryMap D) → IsAlike m m' → IsSound m → IsSound m'
alike-IsSound m m' a s = record {
  fit = rw (a.transactions) (rw (a.devices) s.fit);
  fresh = rw (a.transactions) (rw (a.next) s.fresh);
  compat = rw (a.transactions) (rw (a.compat) s.compat);
}

-- The map after a step of a transaction that asks what `r` asks.
unfoldable pub Advanced : {D : Type 0} → ℕ → TransactionRequest → Option (MemoryMap D) → Type 0
Advanced id r none = ⊥
Advanced id r (some m') = IsSound m' × IsHeld m'.active_transactions id r

module _ {D : Type 0} (ops : Addressable D) where
  finished-Advanced :
      (m : MemoryMap D) (i id : ℕ) (r : TransactionRequest) (t : ActiveTransaction)
      (x : Call D TransactionResponse)
      → IsSound m
      → slot_at m.active_transactions i ≡ some t
      → IsHeld m.active_transactions id r
      → Executes m t.request x
      → Advanced id r (finished i x)
  unfolding Executes Advanced
  finished-Advanced m i id r t none s e h x = absurd x
  finished-Advanced m i id r t (some (m', result)) s e h (a, f) = (
    with_phase-IsSound m' i (result_phase result) t (alike-IsSound m m' a s) (rw (a.transactions) e)
        f,
    set_phase-IsHeld m'.active_transactions i (result_phase result) id r (rw (a.transactions) h),
  )

  accept-Advanced :
      (m : MemoryMap D) (i id : ℕ) (r : TransactionRequest) (t : ActiveTransaction) (x : D × ℕ)
      → IsSound m
      → slot_at m.active_transactions i ≡ some t
      → IsHeld m.active_transactions id r
      → t.device_index < length m.devices
      → Advanced id r (accept ops m i t x)
  unfolding accept
  accept-Advanced m i id r t (d, latency) s e h b =
      let m' = keep_device m t.device_index d in
      let same = length-set_device m.devices t.device_index d in
      let s' =
        alike-IsSound m m'
          (record {
            devices = same;
            transactions = refl;
            compat = refl;
            next = refl;
            bursts = refl;
          })
          s in
      if_elim (Advanced id r) (latency == 0)
        (λ _.
          finished-Advanced m' i id r t _ s' e h
            (execute_request-Executes ops m' t.device_index t.request (rw same b)))
        (λ _.
          unfold Advanced in
          (
            with_phase-IsSound m' i (in_flight latency) t s' e (unfold Fits in tt),
            set_phase-IsHeld m.active_transactions i (in_flight latency) id r h,
          ))

  advance_phase-Advanced :
      (m : MemoryMap D) (i id : ℕ) (r : TransactionRequest) (t : ActiveTransaction)
      (p : TransactionPhase)
      → IsSound m
      → slot_at m.active_transactions i ≡ some t
      → IsHeld m.active_transactions id r
      → t.device_index < length m.devices
      → Advanced id r (advance_phase ops m i t p)
  unfolding advance_phase
  advance_phase-Advanced m i id r t accepted s e h b =
      let (slot, there) = slot_at-some m.devices t.device_index b in
      rw there (accept-Advanced m i id r t _ s e h b)
  advance_phase-Advanced m i id r t (in_flight n) s e h b =
      if_elim (Advanced id r) (ltb 1 n)
        (λ _.
          unfold Advanced in
          (
            with_phase-IsSound m i (in_flight (n - 1)) t s e (unfold Fits in tt),
            set_phase-IsHeld m.active_transactions i (in_flight (n - 1)) id r h,
          ))
        (λ _.
          finished-Advanced m i id r t _ s e h
            (execute_request-Executes ops m t.device_index t.request b))
  advance_phase-Advanced m i id r t (ready _) s e h b = unfold Advanced in (s, h)
  advance_phase-Advanced m i id r t (failed _) s e h b = unfold Advanced in (s, h)

  pub advance_transaction-Advanced :
      (m : MemoryMap D) (id : ℕ) (r : TransactionRequest)
      → IsSound m
      → IsHeld m.active_transactions id r
      → Advanced id r (advance_transaction ops m id)
  unfolding advance_transaction advance_transaction_at
  advance_transaction-Advanced m id r s h = rw (h.found) (
      rw (h.there) (
        advance_phase-Advanced m h.index id r h.transaction _ s h.there h
          (All-slot (IsFit (length m.devices)) m.active_transactions h.index h.transaction s.fit
            h.there).0))
