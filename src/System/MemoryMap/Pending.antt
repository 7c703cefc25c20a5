-- ===== src/System/MemoryMap/Pending.antt =====
-- memory_map.rs: a tick leaves the compatibility transaction alone.
use rust_computer.Base.{
  ℕ, zero, suc, ◌≡◌, refl, length, Option, none, some, if_elim, ◌==◌, ltb, subst,
}
use rust_computer.System.Bus.{Action}
use rust_computer.System.Device.{Addressable}
use rust_computer.System.MemoryMap.Access.{
  Call, slot_at, on_slot, with_device, is_supported, execute_request, execute_burst_beat,
  write_beat,
}
use rust_computer.System.MemoryMap.Bursts.{
  settled, after_beat, accept_beat, accept_beat_on, advance_burst_phase, advance_burst_slot,
  advance_burst_at, advance_bursts,
}
use rust_computer.System.MemoryMap.Requests.{tick, ticked, bursts_advanced}
use rust_computer.System.MemoryMap.Transactions.{
  finished, accept, accept_on, advance_phase, advance_slot, advance_transaction_at,
  advance_transactions, keep_device,
}
use rust_computer.System.MemoryMap.{
  MemoryMap, DeviceSlot, ActiveTransaction, ActiveBurst, CompatTransaction,
}
use rust_computer.System.Transaction.{
  TransactionRequest, TransactionResponse, TransactionPhase, BurstRequest, BurstPhase, beat_addr,
  accepted, in_flight, ready, failed,
}

-- The compatibility transaction, wherever a map results.
unfoldable pub Keeps : {D : Type 0} → Option CompatTransaction → Option (MemoryMap D) → Type 0
Keeps c none = Unit
Keeps c (some m) = m.compat_transaction ≡ c

unfoldable pub CallKeeps : {D A : Type 0} → Option CompatTransaction → Call D A → Type 0
CallKeeps c none = Unit
CallKeeps c (some (m, result)) = m.compat_transaction ≡ c

same-Keeps : {D : Type 0} (m : MemoryMap D) → Keeps m.compat_transaction (some m)
unfolding Keeps
same-Keeps m = refl

with_device-Keeps :
    {D A : Type 0} (m : MemoryMap D) (i : ℕ) (action : Action D A)
    → CallKeeps m.compat_transaction (with_device m i action)
unfolding with_device CallKeeps
with_device-Keeps {D} {A} m i action = on (slot_at m.devices i)
  where
    on : (o : Option (DeviceSlot D)) → CallKeeps m.compat_transaction (on_slot m i action o)
    on none = tt
    on (some slot) = refl

execute_request-Keeps :
    {D : Type 0} (ops : Addressable D) (m : MemoryMap D) (i : ℕ) (r : TransactionRequest)
    → CallKeeps m.compat_transaction (execute_request ops m i r)
unfolding execute_request
execute_request-Keeps ops m i r =
    if_elim (CallKeeps m.compat_transaction) (is_supported r.kind r.width)
      (λ _. with_device-Keeps m i _) (λ _. unfold CallKeeps in refl)

finished-Keeps :
    {D : Type 0} (c : Option CompatTransaction) (i : ℕ) (x : Call D TransactionResponse)
    → CallKeeps c x
    → Keeps c (finished i x)
unfolding CallKeeps Keeps
finished-Keeps c i none k = tt
finished-Keeps c i (some (m, result)) k = k

module _ {D : Type 0} (ops : Addressable D) where
  accept-Keeps :
      (m : MemoryMap D) (i : ℕ) (t : ActiveTransaction) (x : D × ℕ)
      → Keeps m.compat_transaction (accept ops m i t x)
  unfolding accept
  accept-Keeps m i t (d, latency) =
      if_elim (Keeps m.compat_transaction) (latency == 0)
        (λ _. finished-Keeps _ i _ (execute_request-Keeps ops (keep_device m t.device_index d) _ _))
        (λ _. unfold Keeps in refl)

  advance_phase-Keeps :
      (m : MemoryMap D) (i : ℕ) (t : ActiveTransaction) (p : TransactionPhase)
      → Keeps m.compat_transaction (advance_phase ops m i t p)
  unfolding advance_phase
  advance_phase-Keeps m i t accepted = on (slot_at m.devices t.device_index)
    where
      on : (o : Option (DeviceSlot D)) → Keeps m.compat_transaction (accept_on ops m i t o)
      on none = unfold Keeps in tt
      on (some slot) = accept-Keeps m i t _
  advance_phase-Keeps m i t (in_flight n) =
      if_elim (Keeps m.compat_transaction) (ltb 1 n) (λ _. unfold Keeps in refl)
        (λ _. finished-Keeps _ i _ (execute_request-Keeps ops m _ _))
  advance_phase-Keeps m i t (ready _) = same-Keeps m
  advance_phase-Keeps m i t (failed _) = same-Keeps m

  advance_transaction_at-Keeps :
      (m : MemoryMap D) (i : ℕ) → Keeps m.compat_transaction (advance_transaction_at ops m i)
  unfolding advance_transaction_at
  advance_transaction_at-Keeps m i = on (slot_at m.active_transactions i)
    where
      on : (o : Option ActiveTransaction) → Keeps m.compat_transaction (advance_slot ops m i o)
      on none = same-Keeps m
      on (some t) = advance_phase-Keeps m i t t.phase

-- A loop of such steps.
loop-Keeps :
    {D : Type 0} (c : Option CompatTransaction) (x : Option (MemoryMap D))
    (rest : MemoryMap D → Option (MemoryMap D))
    → Keeps c x
    → ((m : MemoryMap D) → Keeps m.compat_transaction (rest m))
    → Keeps c (elim x [ none ↦ none | some m ↦ rest m ])
unfolding Keeps
loop-Keeps c none rest k f = tt
loop-Keeps c (some m) rest k f = subst (λ (o : Option CompatTransaction). Keeps o (rest m)) k (f m)

module _ {D : Type 0} (ops : Addressable D) where
  advance_transactions-Keeps :
      (k i : ℕ) (m : MemoryMap D) → Keeps m.compat_transaction (advance_transactions ops k i m)
  unfolding advance_transactions
  advance_transactions-Keeps zero i m = same-Keeps m
  advance_transactions-Keeps (suc k) i m =
      loop-Keeps m.compat_transaction _ (advance_transactions ops k (suc i))
        (advance_transaction_at-Keeps ops m i) (advance_transactions-Keeps k (suc i))

settled-Keeps :
    {D : Type 0} (m : MemoryMap D) (i : ℕ) (x : Option ActiveBurst)
    → Keeps m.compat_transaction (settled i m x)
unfolding Keeps
settled-Keeps m i none = tt
settled-Keeps m i (some b) = refl

after_beat-Keeps :
    {D : Type 0} (c : Option CompatTransaction) (i : ℕ) (b : ActiveBurst) (x : Call D (Option ℕ))
    → CallKeeps c x
    → Keeps c (after_beat i b x)
unfolding CallKeeps
after_beat-Keeps c i b none k = unfold Keeps in tt
after_beat-Keeps c i b (some (m, result)) k =
    subst (λ (o : Option CompatTransaction). Keeps o (after_beat i b (some (m, result)))) k
      (settled-Keeps m i _)

module _ {D : Type 0} (ops : Addressable D) where
  execute_burst_beat-Keeps :
      (m : MemoryMap D) (i : ℕ) (r : BurstRequest) (beat : ℕ)
      → CallKeeps m.compat_transaction (execute_burst_beat ops m i r beat)
  unfolding execute_burst_beat
  execute_burst_beat-Keeps m i (BurstRequest.read_words base n kind) beat = with_device-Keeps m i _
  execute_burst_beat-Keeps m i (BurstRequest.write_words base words) beat = on (slot_at words beat)
    where
      on :
          (o : Option ℕ)
          → CallKeeps m.compat_transaction
              (write_beat ops m i (beat_addr (BurstRequest.write_words base words) beat) o)
      on none = unfold CallKeeps in tt
      on (some word) = with_device-Keeps m i _

  accept_beat-Keeps :
      (m : MemoryMap D) (i : ℕ) (b : ActiveBurst) (x : D × ℕ)
      → Keeps m.compat_transaction (accept_beat ops m i b x)
  unfolding accept_beat
  accept_beat-Keeps m i b (d, latency) =
      let m' = keep_device m b.device_index d in
      if_elim (Keeps m.compat_transaction) (latency == 0)
        (λ _. after_beat-Keeps m.compat_transaction i b _ (execute_burst_beat-Keeps m' _ _ _))
        (λ _. settled-Keeps m' i _)

  advance_burst_phase-Keeps :
      (m : MemoryMap D) (i : ℕ) (b : ActiveBurst) (p : BurstPhase)
      → Keeps m.compat_transaction (advance_burst_phase ops m i b p)
  unfolding advance_burst_phase
  advance_burst_phase-Keeps m i b (BurstPhase.accepted _ _) = on (slot_at m.devices b.device_index)
    where
      on : (o : Option (DeviceSlot D)) → Keeps m.compat_transaction (accept_beat_on ops m i b o)
      on none = unfold Keeps in tt
      on (some slot) = accept_beat-Keeps m i b _
  advance_burst_phase-Keeps m i b (BurstPhase.in_flight _ _ n) =
      if_elim (Keeps m.compat_transaction) (ltb 1 n) (λ _. settled-Keeps m i _)
        (λ _. after_beat-Keeps m.compat_transaction i b _ (execute_burst_beat-Keeps m _ _ _))
  advance_burst_phase-Keeps m i b (BurstPhase.ready _) = same-Keeps m
  advance_burst_phase-Keeps m i b (BurstPhase.failed _) = same-Keeps m

  advance_burst_at-Keeps :
      (m : MemoryMap D) (i : ℕ) → Keeps m.compat_transaction (advance_burst_at ops m i)
  unfolding advance_burst_at
  advance_burst_at-Keeps m i = on (slot_at m.active_bursts i)
    where
      on : (o : Option ActiveBurst) → Keeps m.compat_transaction (advance_burst_slot ops m i o)
      on none = same-Keeps m
      on (some b) = advance_burst_phase-Keeps m i b b.phase

  advance_bursts-Keeps :
      (k i : ℕ) (m : MemoryMap D) → Keeps m.compat_transaction (advance_bursts ops k i m)
  unfolding advance_bursts
  advance_bursts-Keeps zero i m = same-Keeps m
  advance_bursts-Keeps (suc k) i m =
      loop-Keeps m.compat_transaction _ (advance_bursts ops k (suc i)) (advance_burst_at-Keeps m i)
        (advance_bursts-Keeps k (suc i))

  ticked-Keeps :
      (c : Option CompatTransaction) (x : Option (MemoryMap D)) → Keeps c x → Keeps c (ticked ops x)
  unfolding Keeps
  ticked-Keeps c none k = tt
  ticked-Keeps c (some m) k = k

  bursts_advanced-Keeps :
      (c : Option CompatTransaction) (x : Option (MemoryMap D))
      → Keeps c x
      → Keeps c (bursts_advanced ops x)
  unfolding Keeps
  bursts_advanced-Keeps c none k = tt
  bursts_advanced-Keeps c (some m) k =
      subst
        (λ (o : Option CompatTransaction).
          Keeps o (advance_bursts ops (length m.active_bursts) 0 m))
        k (advance_bursts-Keeps (length m.active_bursts) 0 m)

  pub tick-Keeps : (m : MemoryMap D) → Keeps m.compat_transaction (tick ops m)
  unfolding tick
  tick-Keeps m = ticked-Keeps m.compat_transaction _ (
      bursts_advanced-Keeps m.compat_transaction _
        (advance_transactions-Keeps ops (length m.active_transactions) 0 m))
