-- ===== src/System/MemoryMap/Ticks.antt =====
-- memory_map.rs: ticks bring each transaction in flight to its end.
use rust_computer.Base.{
  ℕ, zero, suc, ◌-◌, ◌≤◌, ◌<◌, ◌≡◌, refl, arith, true, List, [], ◌∷◌, All, length, Option, none,
  some, ap, sym, ◌∙◌, subst,
}
use rust_computer.System.Device.{Addressable}
use rust_computer.System.MemoryMap.Access.{slot_at}
use rust_computer.System.MemoryMap.Beats.{IsBurst, Advances}
use rust_computer.System.MemoryMap.Countdown.{
  steps_left, IsStarted, IsFinished, Steps, Closer, step-IsSound,
}
use rust_computer.System.MemoryMap.Passes.{advance_bursts-Advances}
use rust_computer.System.MemoryMap.Requests.{tick, ticked, bursts_advanced}
use rust_computer.System.MemoryMap.Rounds.{
  advance_rest, advance_slot-Steps, advance_transactions-Closer,
}
use rust_computer.System.MemoryMap.Safety.{IsSound, alike-IsSound}
use rust_computer.System.MemoryMap.Transactions.{advance_transactions, advance_transaction_at}
use rust_computer.System.MemoryMap.{MemoryMap, DeviceSlot, ActiveTransaction, tick_slots}
use rust_computer.System.Transaction.{TransactionPhase, accepted, in_flight, ready, failed}

-- A sound map whose bursts are sound as well.
pub record IsSteady {D : Type 0} (m : MemoryMap D) : Type 0 where
  pub sound : IsSound m
  pub bursts : All (IsBurst (length m.devices)) m.active_bursts

-- The pass over the transactions keeps the number of devices and the bursts.
unfoldable Through : {D : Type 0} → MemoryMap D → Option (MemoryMap D) → Type 0
Through m none = ⊥
Through m (some m') =
    IsSound m' × (length m'.devices ≡ length m.devices) × (m'.active_bursts ≡ m.active_bursts)

from-Through :
    {D : Type 0} (m m' : MemoryMap D) (x : Option (MemoryMap D))
    → length m'.devices ≡ length m.devices
    → m'.active_bursts ≡ m.active_bursts
    → Through m' x
    → Through m x
unfolding Through
from-Through m m' none d b k = absurd k
from-Through m m' (some m'') d b k = (k.0, k.1 ∙ d, k.2 ∙ b)

step-Through :
    {D : Type 0} (m : MemoryMap D) (j : ℕ) (u : ActiveTransaction) (x : Option (MemoryMap D))
    (rest : MemoryMap D → Option (MemoryMap D))
    → IsSound m
    → slot_at m.active_transactions j ≡ some u
    → Steps m j u x
    → ((m' : MemoryMap D) → IsSound m' → Through m' (rest m'))
    → Through m (elim x [ none ↦ none | some m' ↦ rest m' ])
unfolding Steps
step-Through m j u none rest s e k f = absurd k
step-Through m j u (some m') rest s e k f =
    from-Through m m' (rest m') k.alike.devices k.alike.bursts (f m' (step-IsSound m m' j u s e k))

module _ {D : Type 0} (ops : Addressable D) where
  rest-Through :
      (m : MemoryMap D) (j : ℕ) (rest : MemoryMap D → Option (MemoryMap D))
      (o : Option ActiveTransaction)
      → IsSound m
      → slot_at m.active_transactions j ≡ o
      → ((m' : MemoryMap D) → IsSound m' → Through m' (rest m'))
      → Through m (advance_rest ops m j rest o)
  rest-Through m j rest none s e f = f m s
  rest-Through m j rest (some u) s e f =
      step-Through m j u _ rest s e (advance_slot-Steps ops m j u s e) f

  advance_transactions-Through :
      (k j : ℕ) (m : MemoryMap D) → IsSound m → Through m (advance_transactions ops k j m)
  unfolding advance_transactions advance_transaction_at
  advance_transactions-Through zero j m s = unfold Through in (s, refl, refl)
  advance_transactions-Through (suc k) j m s =
      rest-Through m j (advance_transactions ops k (suc j)) _ s refl
        (advance_transactions-Through k (suc j))

  length-tick_slots : (slots : List (DeviceSlot D)) → length (tick_slots ops slots) ≡ length slots
  length-tick_slots [] = refl
  length-tick_slots (s ∷ ss) = ap suc (length-tick_slots ss)

slot_at-length : {A : Type 0} (xs : List A) (i : ℕ) (x : A) → slot_at xs i ≡ some x → i < length xs
slot_at-length [] i x e = cc
slot_at-length (y ∷ ys) zero x e = omega arith
slot_at-length (y ∷ ys) (suc i) x e = omega (arith, slot_at-length ys i x e)

no_steps_left : (p : TransactionPhase) → IsStarted p → steps_left p ≤ 0 → IsFinished p
unfolding IsStarted IsFinished steps_left
no_steps_left accepted s l = s
no_steps_left (in_flight n) s l = absurd (omega (arith, l))
no_steps_left (ready _) s l = tt
no_steps_left (failed _) s l = tt

-- The transaction at the index has its response or its error.
unfoldable pub Finishes : {D : Type 0} → ℕ → Option (MemoryMap D) → Type 0
Finishes i none = ⊥
Finishes i (some m) =
    (t : ActiveTransaction) × (slot_at m.active_transactions i ≡ some t) × IsFinished t.phase

-- After a tick: the map is steady, and the transaction has come closer to its end.
unfoldable Ticked : {D : Type 0} → ℕ → ActiveTransaction → Option (MemoryMap D) → Type 0
Ticked i t none = ⊥
Ticked i t (some m) =
    IsSteady m
    × (t' : ActiveTransaction) × (slot_at m.active_transactions i ≡ some t')
    × IsStarted t'.phase
    × (steps_left t'.phase ≤ steps_left t.phase - 1)

module _ {D : Type 0} (ops : Addressable D) where
  ticked-Ticked :
      (i : ℕ) (t : ActiveTransaction) (m : MemoryMap D) (x : Option (MemoryMap D))
      → Closer i t 1 (some m)
      → Advances m x
      → Ticked i t (ticked ops x)
  unfolding Closer Advances Ticked
  ticked-Ticked i t m none c a = absurd a
  ticked-Ticked i t m (some m') (s, t', e, st, l) a =
      let after = record m' { devices = tick_slots ops m'.devices } in
      let same : length (tick_slots ops m'.devices) ≡ length m.devices =
        length-tick_slots ops m'.devices ∙ a.alike.devices in
      let s' =
        alike-IsSound m (record after { active_bursts = m.active_bursts })
          (record {
            devices = same;
            transactions = a.alike.transactions;
            compat = a.alike.compat;
            next = a.alike.next;
            bursts = refl;
          })
          s in
      (
        record {
          sound = record { fit = s'.fit; fresh = s'.fresh; compat = s'.compat };
          bursts = subst (λ (n : ℕ). All (IsBurst n) m'.active_bursts) (sym same) a.bursts;
        },
        t',
        ap (λ (ts : List ActiveTransaction). slot_at ts i) a.alike.transactions ∙ e,
        st,
        l,
      )

  passes-Ticked :
      (i : ℕ) (t : ActiveTransaction) (m : MemoryMap D) (x : Option (MemoryMap D))
      → All (IsBurst (length m.devices)) m.active_bursts
      → Closer i t 1 x
      → Through m x
      → Ticked i t (ticked ops (bursts_advanced ops x))
  unfolding Through
  passes-Ticked i t m none h c k = absurd k
  passes-Ticked i t m (some m') h c k =
      let h' =
        subst (λ (n : ℕ). All (IsBurst n) m'.active_bursts) (sym k.1)
          (subst (All (IsBurst (length m.devices))) (sym k.2) h) in
      ticked-Ticked i t m' _ c (advance_bursts-Advances ops (length m'.active_bursts) 0 m' h')

  tick-Ticked :
      (i : ℕ) (m : MemoryMap D) (t : ActiveTransaction)
      → IsSteady m
      → slot_at m.active_transactions i ≡ some t
      → IsStarted t.phase
      → Ticked i t (tick ops m)
  unfolding tick
  tick-Ticked i m t s e st =
      passes-Ticked i t m _ s.bursts
        (advance_transactions-Closer ops (length m.active_transactions) 0 i true m t s.sound e st
          (λ _. (omega arith, omega (arith, slot_at-length m.active_transactions i t e))))
        (advance_transactions-Through ops (length m.active_transactions) 0 m s.sound)

  -- Several ticks.
  unfoldable pub ticks : ℕ → MemoryMap D → Option (MemoryMap D)
  ticks zero m = some m
  ticks (suc n) m = elim (tick ops m) [ none ↦ none | some m' ↦ ticks n m' ]

after_tick :
    {D : Type 0} (i : ℕ) (t : ActiveTransaction) (x : Option (MemoryMap D))
    (next : MemoryMap D → Option (MemoryMap D))
    → Ticked i t x
    → ((m : MemoryMap D) (t' : ActiveTransaction)
        → IsSteady m
        → slot_at m.active_transactions i ≡ some t'
        → IsStarted t'.phase
        → steps_left t'.phase ≤ steps_left t.phase - 1
        → Finishes i (next m))
    → Finishes i (elim x [ none ↦ none | some m ↦ next m ])
unfolding Ticked
after_tick i t none next k f = absurd k
after_tick i t (some m) next k f = f m k.1 k.0 k.2 k.3 k.4

module _ {D : Type 0} (ops : Addressable D) where
  enough_ticks :
      (n i : ℕ) (m : MemoryMap D) (t : ActiveTransaction)
      → IsSteady m
      → slot_at m.active_transactions i ≡ some t
      → IsStarted t.phase
      → steps_left t.phase ≤ n
      → Finishes i (ticks ops n m)
  unfolding ticks
  enough_ticks zero i m t s e st l = unfold Finishes in (t, e, no_steps_left t.phase st l)
  enough_ticks (suc n) i m t s e st l =
      after_tick i t _ (ticks ops n) (tick-Ticked ops i m t s e st)
        (λ m' t' s' e' st' l'. enough_ticks n i m' t' s' e' st' (omega (arith, l, l')))

  -- On a map whose transactions and bursts are sound, a transaction that is in flight, or done, has its
  -- response or its error after as many ticks as its remaining cycles, at least one if it is in flight,
  -- whatever the devices, the bursts and the other transactions do; no tick panics in a release build.
  pub ticks-Finishes :
      (i : ℕ) (m : MemoryMap D) (t : ActiveTransaction)
      → IsSteady m
      → slot_at m.active_transactions i ≡ some t
      → IsStarted t.phase
      → Finishes i (ticks ops (steps_left t.phase) m)
  ticks-Finishes i m t s e st = enough_ticks (steps_left t.phase) i m t s e st (omega arith)
