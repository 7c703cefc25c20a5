-- ===== src/System/MemoryMap/Performing.antt =====
-- memory_map.rs: `perform_request` never panics, and answers what the request asks.
use rust_computer.System.MemoryMap.Answers.{Responds, Fits, IsFit}
use rust_computer.System.MemoryMap.Requests.{
  wait, respond, responding, is_accepted, drive, drive_submitted, drive_compat, perform_request,
}
use rust_computer.System.MemoryMap.Transactions.{
  take_phase, take_transaction_response, phase_in, submitted, submit_transaction, swap_remove,
}
use rust_computer.System.MemoryMap.{find_device_index, position, push, next_index}
use rust_computer.System.Transaction.{same_request, same_kind}
use rust_computer.Base.{
  ℕ, suc, ◌+◌, ◌%◌, ◌^◌, ◌<◌, ◌≡◌, refl, arith, Bool, true, List, [], ◌∷◌, length, Option, none,
  some, ok, err, if_elim, Bool-cases, inl, inr, ap, sym, ◌∙◌, subst,
}
use rust_computer.System.Device.{Addressable}
use rust_computer.System.MemoryMap.Access.{Call}
use rust_computer.System.MemoryMap.Lists.{
  All-slot, All-push, All-swap_remove, All-map, transaction_index-push, slot_at-push,
}
use rust_computer.System.MemoryMap.Transactions.{transaction_phase}
use rust_computer.System.MemoryMap.{MemoryMap, ActiveTransaction, CompatTransaction}
use rust_computer.System.Transaction.{
  AccessKind, TransactionRequest, TransactionResponse, TransactionPhase, accepted, in_flight, ready,
  failed,
}
use rust_computer.System.MemoryMap.Safety.{
  IsHeld, HoldsCompat, IsSound, Advanced, advance_transaction-Advanced,
}

-- The answer to a request, on a map that is sound again.
unfoldable pub Answers : {D : Type 0} → TransactionRequest → Call D TransactionResponse → Type 0
Answers r none = ⊥
Answers r (some (m, ok response)) = IsSound m × Responds r.kind r.width response
Answers r (some (m, err e)) = IsSound m

wait-Answers :
    {D : Type 0} (m : MemoryMap D) (r : TransactionRequest) → IsSound m → Answers r (wait m)
unfolding Answers
wait-Answers m r s = s

removed-IsSound :
    {D : Type 0} (m : MemoryMap D) (i : ℕ)
    → IsSound m
    → IsSound (record m {
      active_transactions = swap_remove m.active_transactions i;
      compat_transaction = none;
    })
unfolding HoldsCompat
removed-IsSound m i s = record {
  fit = All-swap_remove (IsFit (length m.devices)) m.active_transactions i s.fit;
  fresh = All-swap_remove (λ t. t.id < m.next_transaction_id) m.active_transactions i s.fresh;
  compat = tt;
}

take_phase-Answers :
    {D : Type 0} (m : MemoryMap D) (i id : ℕ) (r : TransactionRequest) (p : TransactionPhase)
    → IsSound m
    → Fits r p
    → Answers r (respond (take_phase m i id (some p)))
unfolding take_phase respond Fits
take_phase-Answers m i id r accepted s f = wait-Answers m r s
take_phase-Answers m i id r (in_flight _) s f = wait-Answers m r s
take_phase-Answers m i id r (ready _) s f = unfold Answers in (removed-IsSound m i s, f)
take_phase-Answers m i id r (failed _) s f = unfold Answers in removed-IsSound m i s

alike-Fits :
    (a b : TransactionRequest) (p : TransactionPhase)
    → a.kind ≡ b.kind
    → a.width ≡ b.width
    → Fits a p
    → Fits b p
unfolding Fits
alike-Fits a b accepted k w f = tt
alike-Fits a b (in_flight _) k w f = tt
alike-Fits a b (ready response) k w f = rw (sym k) (rw (sym w) f)
alike-Fits a b (failed _) k w f = tt

take-Answers :
    {D : Type 0} (m : MemoryMap D) (id : ℕ) (r : TransactionRequest)
    → IsSound m
    → IsHeld m.active_transactions id r
    → Answers r (respond (take_transaction_response m id))
unfolding take_transaction_response
take-Answers m id r s h =
    let t = h.transaction in
    let fit = All-slot (IsFit (length m.devices)) m.active_transactions h.index t s.fit h.there in
    rw (h.found) (
      subst (λ (o : Option TransactionPhase). Answers r (respond (take_phase m h.index id o)))
        (sym (ap phase_in h.there))
        (take_phase-Answers m h.index id r t.phase s
          (alike-Fits t.request r t.phase h.same_kind h.same_width fit.1)))

unfoldable pub Below : ℕ → Option ℕ → Type 0
Below n none = Unit
Below n (some i) = i < n

next-Below : (n : ℕ) (x : Option ℕ) → Below n x → Below (suc n) (next_index x)
unfolding Below
next-Below n none b = tt
next-Below n (some i) b = omega (arith, b)

pub position-Below : {A : Type 0} (p : A → Bool) (xs : List A) → Below (length xs) (position p xs)
position-Below p [] = unfold Below in tt
position-Below p (x ∷ xs) =
    if_elim (Below (suc (length xs))) (p x) (λ _. zero-Below (length xs))
      (λ _. next-Below (length xs) (position p xs) (position-Below p xs))
  where
    zero-Below : (n : ℕ) → Below (suc n) (some 0)
    zero-Below n = unfold Below in omega arith

accepted-Fits : (r : TransactionRequest) → Fits r accepted
unfolding Fits
accepted-Fits r = tt

abbrev submission : {D : Type 0} → MemoryMap D → ℕ → TransactionRequest → ActiveTransaction
submission m i r = record {
  id = m.next_transaction_id;
  device_index = i;
  request = r;
  phase = accepted;
}

pushed-IsHeld :
    {D : Type 0} (m : MemoryMap D) (i : ℕ) (r : TransactionRequest)
    → IsSound m
    → IsHeld (push m.active_transactions (submission m i r)) m.next_transaction_id r
pushed-IsHeld m i r s = record {
  index = length m.active_transactions;
  transaction = submission m i r;
  found = transaction_index-push m.active_transactions (submission m i r) s.fresh;
  there = slot_at-push m.active_transactions (submission m i r);
  same_kind = refl;
  same_width = refl;
}

same_kind-≡ : (a b : AccessKind) → same_kind a b ≡ true → a ≡ b
same_kind-≡ AccessKind.fetch AccessKind.fetch e = refl
same_kind-≡ AccessKind.load AccessKind.load e = refl
same_kind-≡ AccessKind.store AccessKind.store e = refl
same_kind-≡ AccessKind.fetch AccessKind.load e = cc
same_kind-≡ AccessKind.fetch AccessKind.store e = cc
same_kind-≡ AccessKind.load AccessKind.fetch e = cc
same_kind-≡ AccessKind.load AccessKind.store e = cc
same_kind-≡ AccessKind.store AccessKind.fetch e = cc
same_kind-≡ AccessKind.store AccessKind.load e = cc

same_request-kind :
    (a b : TransactionRequest) → same_request a b ≡ true → (a.kind ≡ b.kind) × (a.width ≡ b.width)
unfolding same_request
same_request-kind a b e = (same_kind-≡ a.kind b.kind (ground (arith, e)), ground (arith, e))

retarget :
    {D : Type 0} (m : MemoryMap D) (id : ℕ) (a b : TransactionRequest)
    → IsHeld m.active_transactions id a
    → same_request a b ≡ true
    → IsHeld m.active_transactions id b
retarget m id a b h e = record {
  index = h.index;
  transaction = h.transaction;
  found = h.found;
  there = h.there;
  same_kind = h.same_kind ∙ (same_request-kind a b e).0;
  same_width = h.same_width ∙ (same_request-kind a b e).1;
}

phase-there :
    {D : Type 0} (m : MemoryMap D) (id : ℕ) (r : TransactionRequest)
    → (h : IsHeld m.active_transactions id r) → transaction_phase m id ≡ some h.transaction.phase
unfolding transaction_phase
phase-there m id r h = rw (h.found) (ap phase_in h.there)

module _ {D : Type 0} (ops : Addressable D) where
  responding-Answers :
      (id : ℕ) (r : TransactionRequest) (x : Option (MemoryMap D))
      → Advanced id r x
      → Answers r (responding id x)
  unfolding Advanced
  responding-Answers id r none a = absurd a
  responding-Answers id r (some m) a = take-Answers m id r a.0 a.1

  drive-Answers :
      (m : MemoryMap D) (id : ℕ) (r : TransactionRequest)
      → IsSound m
      → IsHeld m.active_transactions id r
      → Answers r (drive ops m id)
  unfolding drive
  drive-Answers m id r s h = responding-Answers id r _ (
      if_elim (Advanced id r) (is_accepted (transaction_phase m id))
        (λ _. advance_transaction-Advanced ops m id r s h) (λ _. unfold Advanced in (s, h)))

  submitted-Answers :
      (m : MemoryMap D) (r : TransactionRequest) (x : Option ℕ)
      → IsSound m
      → m.next_transaction_id + 1 < 2 ^ 64
      → Below (length m.devices) x
      → Answers r (drive_submitted ops r (submitted m r x))
  unfolding Below
  submitted-Answers m r none s b l = unfold Answers in s
  submitted-Answers m r (some i) s b l =
      let h = pushed-IsHeld m i r s in
      drive-Answers _ m.next_transaction_id r
        (record {
          fit =
              All-push (IsFit (length m.devices)) m.active_transactions _ s.fit
                (l, accepted-Fits r);
          fresh =
              All-push (λ t. t.id < (m.next_transaction_id + 1) % 2 ^ 64) m.active_transactions _
                (All-map (λ t. t.id < m.next_transaction_id)
                  (λ t. t.id < (m.next_transaction_id + 1) % 2 ^ 64) m.active_transactions
                  (λ t o. omega (arith, b, o)) s.fresh)
                (omega (arith, b));
          compat = unfold HoldsCompat in h;
        })
        h

  drive_compat-Answers :
      (m : MemoryMap D) (r : TransactionRequest) (c : Option CompatTransaction)
      → IsSound m
      → m.next_transaction_id + 1 < 2 ^ 64
      → HoldsCompat m.active_transactions c
      → Answers r (drive_compat ops m r c)
  unfolding drive_compat HoldsCompat
  drive_compat-Answers m r none s b h =
      unfold submit_transaction in
      unfold find_device_index in submitted-Answers m r _ s b (position-Below _ m.devices)
  drive_compat-Answers m r (some c) s b h = elim (Bool-cases (same_request c.request r)) [
    | inl e ↦ rw e (
        rw (phase-there m c.id c.request h)
          (drive-Answers m c.id r s (retarget m c.id c.request r h e)))
    | inr e ↦ rw e (wait-Answers m r s)
  ]

  -- On a sound map whose identifiers do not run out, `perform_request` does not panic in a release
  -- build, where address arithmetic wraps: it answers with a response of the request's kind and width, or with an error, and leaves a sound map.
  pub perform_request-Answers :
      (m : MemoryMap D) (r : TransactionRequest)
      → IsSound m
      → m.next_transaction_id + 1 < 2 ^ 64
      → Answers r (perform_request ops m r)
  unfolding perform_request
  perform_request-Answers m r s b = drive_compat-Answers m r m.compat_transaction s b s.compat
