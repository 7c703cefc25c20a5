-- ===== src/System/MemoryMap/Countdown.antt =====
-- memory_map.rs: one step of a transaction, and how much closer it comes to its end.
use rust_computer.Base.{
  ℕ, zero, suc, ◌-◌, ◌≤◌, ◌<◌, max, ◌≡◌, refl, arith, List, [], ◌∷◌, length, Option, none, some,
  Result, ok, err, if_elim, ◌==◌, ltb, ltb→lt, ap, sym, ◌∙◌, subst,
}
use rust_computer.System.Device.{Addressable}
use rust_computer.System.MemoryMap.Access.{Call, slot_at}
use rust_computer.System.MemoryMap.Answers.{Fits, IsAlike, Executes, execute_request-Executes}
use rust_computer.System.MemoryMap.Lists.{length-set_device, slot_at-some}
use rust_computer.System.MemoryMap.Safety.{IsSound, alike-IsSound, with_phase-IsSound}
use rust_computer.System.MemoryMap.Transactions.{
  set_phase, result_phase, with_phase, finished, keep_device, accept, advance_phase,
}
use rust_computer.System.MemoryMap.{MemoryMap, ActiveTransaction}
use rust_computer.System.Transaction.{
  TransactionResponse, TransactionPhase, accepted, in_flight, ready, failed,
}

-- The number of steps until a started transaction has its response or its error.
unfoldable pub steps_left : TransactionPhase → ℕ
steps_left accepted = 0
steps_left (in_flight n) = max n 1
steps_left (ready _) = 0
steps_left (failed _) = 0

unfoldable pub IsStarted : TransactionPhase → Type 0
IsStarted accepted = ⊥
IsStarted _ = Unit

unfoldable pub IsFinished : TransactionPhase → Type 0
IsFinished accepted = ⊥
IsFinished (in_flight _) = ⊥
IsFinished _ = Unit

pub record IsStep {D : Type 0} (m m' : MemoryMap D) (j : ℕ) (t : ActiveTransaction) : Type 0 where
  pub phase : TransactionPhase
  pub alike : IsAlike (with_phase m j phase) m'
  pub fits : Fits t.request phase
  pub started : IsStarted phase
  pub closer : IsStarted t.phase → steps_left phase ≤ steps_left t.phase - 1

unfoldable pub Steps :
    {D : Type 0} → MemoryMap D → ℕ → ActiveTransaction → Option (MemoryMap D) → Type 0
Steps m j t none = ⊥
Steps m j t (some m') = IsStep m m' j t

first_phase : (x t : ActiveTransaction) → some x ≡ some t → x.phase ≡ t.phase
first_phase x t e = cc

set_phase-same :
    (ts : List ActiveTransaction) (i : ℕ) (t : ActiveTransaction)
    → slot_at ts i ≡ some t
    → ts ≡ set_phase ts i t.phase
set_phase-same [] i t e = refl
set_phase-same (x ∷ xs) zero t e =
    ap (λ (p : TransactionPhase). record x { phase = p } ∷ xs) (first_phase x t e)
set_phase-same (x ∷ xs) (suc i) t e =
    ap (λ (l : List ActiveTransaction). x ∷ l) (set_phase-same xs i t e)

result-IsStarted :
    (x : Result _ TransactionResponse)
    → IsStarted (result_phase x) × (steps_left (result_phase x) ≡ 0)
unfolding IsStarted steps_left
result-IsStarted (ok _) = (tt, refl)
result-IsStarted (err _) = (tt, refl)

module _ {D : Type 0} (ops : Addressable D) where
  finished-Steps :
      (m : MemoryMap D) (j : ℕ) (t : ActiveTransaction) (x : Call D TransactionResponse)
      → Executes m t.request x
      → Steps m j t (finished j x)
  unfolding Executes Steps
  finished-Steps m j t none e = absurd e
  finished-Steps m j t (some (m', result)) (a, f) = record {
    phase = result_phase result;
    alike = record {
      devices = a.devices;
      transactions =
          ap (λ (ts : List ActiveTransaction). set_phase ts j (result_phase result)) a.transactions;
      compat = a.compat;
      next = a.next;
      bursts = a.bursts;
    };
    fits = f;
    started = (result-IsStarted result).0;
    closer = λ _. omega (arith, (result-IsStarted result).1);
  }

  counted-Steps :
      (m : MemoryMap D) (j : ℕ) (t : ActiveTransaction) (n : ℕ)
      → t.phase ≡ in_flight n
      → 1 < n
      → Steps m j t (some (with_phase m j (in_flight (n - 1))))
  unfolding Steps Fits IsStarted steps_left
  counted-Steps m j t n e l = record {
    phase = in_flight (n - 1);
    alike = record {
      devices = refl;
      transactions = refl;
      compat = refl;
      next = refl;
      bursts = refl;
    };
    fits = tt;
    started = tt;
    closer = λ _. rw e (omega (arith, l));
  }

  ended-Steps :
      (m : MemoryMap D) (j : ℕ) (t : ActiveTransaction)
      → slot_at m.active_transactions j ≡ some t
      → IsStarted t.phase
      → steps_left t.phase ≡ 0
      → Fits t.request t.phase
      → Steps m j t (some m)
  unfolding Steps
  ended-Steps m j t e s z f = record {
    phase = t.phase;
    alike = record {
      devices = refl;
      transactions = set_phase-same m.active_transactions j t e;
      compat = refl;
      next = refl;
      bursts = refl;
    };
    fits = f;
    started = s;
    closer = λ _. omega (arith, z);
  }

  -- A device that keeps what it was asked changes nothing here.
  kept-Steps :
      (m : MemoryMap D) (i j : ℕ) (d : D) (t : ActiveTransaction) (x : Option (MemoryMap D))
      → Steps (keep_device m i d) j t x
      → Steps m j t x
  unfolding Steps
  kept-Steps m i j d t none s = absurd s
  kept-Steps m i j d t (some m') s = record {
    phase = s.phase;
    alike = record {
      devices = s.alike.devices ∙ length-set_device m.devices i d;
      transactions = s.alike.transactions;
      compat = s.alike.compat;
      next = s.alike.next;
      bursts = s.alike.bursts;
    };
    fits = s.fits;
    started = s.started;
    closer = s.closer;
  }

  flight-Steps :
      (m : MemoryMap D) (j : ℕ) (t : ActiveTransaction) (latency : ℕ)
      → t.phase ≡ accepted
      → Steps m j t (some (with_phase m j (in_flight latency)))
  unfolding Steps Fits IsStarted
  flight-Steps m j t latency q = record {
    phase = in_flight latency;
    alike = record {
      devices = refl;
      transactions = refl;
      compat = refl;
      next = refl;
      bursts = refl;
    };
    fits = tt;
    started = tt;
    closer = λ s. absurd (subst IsStarted q s);
  }

  accept-Steps :
      (m : MemoryMap D) (j : ℕ) (t : ActiveTransaction) (x : D × ℕ)
      → t.phase ≡ accepted
      → t.device_index < length m.devices
      → Steps m j t (accept ops m j t x)
  unfolding accept
  accept-Steps m j t (d, latency) q b =
      let m' = keep_device m t.device_index d in
      kept-Steps m t.device_index j d t _ (
        if_elim (Steps m' j t) (latency == 0)
          (λ _. finished-Steps m' j t _ (
            execute_request-Executes ops m' t.device_index t.request
              (rw (length-set_device m.devices t.device_index d) b)))
          (λ _. flight-Steps m' j t latency q))

  pub advance_phase-Steps :
      (m : MemoryMap D) (j : ℕ) (t : ActiveTransaction) (p : TransactionPhase)
      → t.phase ≡ p
      → slot_at m.active_transactions j ≡ some t
      → Fits t.request t.phase
      → t.device_index < length m.devices
      → Steps m j t (advance_phase ops m j t p)
  unfolding advance_phase IsStarted steps_left
  advance_phase-Steps m j t accepted q e f b =
      let (slot, there) = slot_at-some m.devices t.device_index b in
      rw there (accept-Steps m j t _ q b)
  advance_phase-Steps m j t (in_flight n) q e f b =
      if_elim (Steps m j t) (ltb 1 n) (λ l. counted-Steps m j t n q (ltb→lt 1 n l))
        (λ _. finished-Steps m j t _ (execute_request-Executes ops m t.device_index t.request b))
  advance_phase-Steps m j t (ready r) q e f b =
      ended-Steps m j t e (subst IsStarted (sym q) tt) (ap steps_left q) f
  advance_phase-Steps m j t (failed x) q e f b =
      ended-Steps m j t e (subst IsStarted (sym q) tt) (ap steps_left q) f

-- After some steps: the map is sound, and the transaction at the index has come closer to its end.
unfoldable pub Closer : {D : Type 0} → ℕ → ActiveTransaction → ℕ → Option (MemoryMap D) → Type 0
Closer i t c none = ⊥
Closer i t c (some m) =
    IsSound m
    × (t' : ActiveTransaction) × (slot_at m.active_transactions i ≡ some t')
    × IsStarted t'.phase
    × (steps_left t'.phase ≤ steps_left t.phase - c)

pub step-IsSound :
    {D : Type 0} (m m' : MemoryMap D) (j : ℕ) (t : ActiveTransaction)
    → IsSound m
    → slot_at m.active_transactions j ≡ some t
    → IsStep m m' j t
    → IsSound m'
step-IsSound m m' j t s e k =
    alike-IsSound (with_phase m j k.phase) m' k.alike (with_phase-IsSound m j k.phase t s e k.fits)
