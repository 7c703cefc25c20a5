-- ===== src/System/MemoryMap/Passes.antt =====
-- memory_map.rs: a pass over the bursts, and one over the transactions, never panics and keeps the rest.
use rust_computer.Base.{
  ℕ, zero, suc, refl, All, length, Option, none, some, if_elim, ◌==◌, ltb, subst, ◌∙◌, sym,
  Option-cases, inl, inr, ◌-◌, ◌<◌,
}
use rust_computer.System.Device.{Addressable}
use rust_computer.System.MemoryMap.Access.{Call, slot_at}
use rust_computer.System.MemoryMap.Answers.{IsAlike}
use rust_computer.System.MemoryMap.Beats.{
  IsGoing, IsBurst, Settles, settle_beat-Settles, IsAfter, Advances, settled-Advances, Beats,
  execute_burst_beat-Beats,
}
use rust_computer.System.MemoryMap.Bursts.{
  BeatAdvance, settle_beat, after_beat, accept_beat, advance_burst_phase, advance_burst_at,
  advance_bursts,
}
use rust_computer.System.MemoryMap.Lists.{All-slot, length-set_device, slot_at-some}
use rust_computer.System.MemoryMap.Transactions.{keep_device}
use rust_computer.System.MemoryMap.{MemoryMap, ActiveBurst}
use rust_computer.System.Transaction.{BurstPhase, beats}

IsAlike-refl : {D : Type 0} (m : MemoryMap D) → IsAlike m m
IsAlike-refl m = record {
  devices = refl;
  transactions = refl;
  compat = refl;
  next = refl;
  bursts = refl;
}

IsAlike-trans : {D : Type 0} (a b c : MemoryMap D) → IsAlike a b → IsAlike b c → IsAlike a c
IsAlike-trans a b c x y = record {
  devices = y.devices ∙ x.devices;
  transactions = y.transactions ∙ x.transactions;
  compat = y.compat ∙ x.compat;
  next = y.next ∙ x.next;
  bursts = y.bursts ∙ x.bursts;
}

waiting-Settles :
    (n : ℕ) (b : ActiveBurst) (p : BurstPhase)
    → IsBurst n b
    → IsGoing b p
    → Settles n (settle_beat b (BeatAdvance.phase p))
unfolding settle_beat Settles IsGoing
waiting-Settles n b p k g = record { there = k.there; room = k.room; going = same b p g }
  where
    same : (b : ActiveBurst) (p : BurstPhase) → IsGoing b p → IsGoing (record b { phase = p }) p
    same b (BurstPhase.accepted x y) g = g
    same b (BurstPhase.in_flight x y z) g = g
    same b (BurstPhase.ready x) g = g
    same b (BurstPhase.failed x) g = g

after_beat-Advances :
    {D : Type 0} (m m0 : MemoryMap D) (i : ℕ) (b : ActiveBurst) (x : Call D (Option ℕ))
    → IsAlike m m0
    → All (IsBurst (length m.devices)) m.active_bursts
    → IsBurst (length m.devices) b
    → b.beat_index < beats b.request
    → Beats m0 x
    → Advances m (after_beat i b x)
unfolding Beats
after_beat-Advances m m0 i b none a h k l e = absurd e
after_beat-Advances m m0 i b (some (m', result)) a h k l e =
    settled-Advances m m' i _ (IsAlike-trans m m0 m' a e) h
      (settle_beat-Settles (length m.devices) b result k l)

module _ {D : Type 0} (ops : Addressable D) where
  accept_beat-Advances :
      (m : MemoryMap D) (i : ℕ) (b : ActiveBurst) (x : D × ℕ)
      → All (IsBurst (length m.devices)) m.active_bursts
      → IsBurst (length m.devices) b
      → b.beat_index < beats b.request
      → Advances m (accept_beat ops m i b x)
  unfolding accept_beat
  accept_beat-Advances m i b (d, latency) h k l =
      let m' = keep_device m b.device_index d in
      let same = length-set_device m.devices b.device_index d in
      let a : IsAlike m m' = record {
        devices = same;
        transactions = refl;
        compat = refl;
        next = refl;
        bursts = refl;
      } in
      if_elim (Advances m) (latency == 0)
        (λ _. after_beat-Advances m m' i b _ a h k l (
          execute_burst_beat-Beats ops m' b.device_index b.request b.beat_index (rw same (k.there))
            l))
        (λ _. settled-Advances m m' i _ a h (
          waiting-Settles (length m.devices) b
            (BurstPhase.in_flight b.beat_index (beats b.request) latency) k (unfold IsGoing in l)))

  advance_burst_phase-Advances :
      (m : MemoryMap D) (i : ℕ) (b : ActiveBurst) (p : BurstPhase)
      → All (IsBurst (length m.devices)) m.active_bursts
      → IsBurst (length m.devices) b
      → IsGoing b p
      → Advances m (advance_burst_phase ops m i b p)
  unfolding advance_burst_phase IsGoing
  advance_burst_phase-Advances m i b (BurstPhase.accepted _ _) h k l =
      let (slot, e) = slot_at-some m.devices b.device_index k.there in
      rw e (accept_beat-Advances m i b _ h k l)
  advance_burst_phase-Advances m i b (BurstPhase.in_flight _ _ n) h k l =
      if_elim (Advances m) (ltb 1 n)
        (λ _. settled-Advances m m i _ (IsAlike-refl m) h (
          waiting-Settles (length m.devices) b
            (BurstPhase.in_flight b.beat_index (beats b.request) (n - 1)) k l))
        (λ _.
          after_beat-Advances m m i b _ (IsAlike-refl m) h k l
            (execute_burst_beat-Beats ops m b.device_index b.request b.beat_index k.there l))
  advance_burst_phase-Advances m i b (BurstPhase.ready _) h k l =
      unfold Advances in record { alike = IsAlike-refl m; bursts = h }
  advance_burst_phase-Advances m i b (BurstPhase.failed _) h k l =
      unfold Advances in record { alike = IsAlike-refl m; bursts = h }

  advance_burst_at-Advances :
      (m : MemoryMap D) (i : ℕ)
      → All (IsBurst (length m.devices)) m.active_bursts
      → Advances m (advance_burst_at ops m i)
  unfolding advance_burst_at
  advance_burst_at-Advances m i h = elim (Option-cases (slot_at m.active_bursts i)) [
    | inl e ↦ rw e (unfold Advances in record { alike = IsAlike-refl m; bursts = h })
    | inr (b, e) ↦
        (let k = All-slot (IsBurst (length m.devices)) m.active_bursts i b h e in
          rw e (advance_burst_phase-Advances m i b b.phase h k k.going))
  ]

IsAfter-trans : {D : Type 0} (a b c : MemoryMap D) → IsAfter a b → IsAfter b c → IsAfter a c
IsAfter-trans a b c x y = record {
  alike = record {
    devices = y.alike.devices ∙ x.alike.devices;
    transactions = y.alike.transactions ∙ x.alike.transactions;
    compat = y.alike.compat ∙ x.alike.compat;
    next = y.alike.next ∙ x.alike.next;
    bursts = refl;
  };
  bursts = subst (λ (n : ℕ). All (IsBurst n) c.active_bursts) x.alike.devices y.bursts;
}

from-Advances :
    {D : Type 0} (m m' : MemoryMap D) (x : Option (MemoryMap D))
    → IsAfter m m'
    → Advances m' x
    → Advances m x
unfolding Advances
from-Advances m m' none a b = absurd b
from-Advances m m' (some m'') a b = IsAfter-trans m m' m'' a b

loop-Advances :
    {D : Type 0} (m : MemoryMap D) (x : Option (MemoryMap D))
    (rest : MemoryMap D → Option (MemoryMap D))
    → Advances m x
    → ((m' : MemoryMap D)
        → All (IsBurst (length m'.devices)) m'.active_bursts
        → Advances m' (rest m'))
    → Advances m (elim x [ none ↦ none | some m' ↦ rest m' ])
unfolding Advances
loop-Advances m none rest a f = absurd a
loop-Advances m (some m') rest a f =
    from-Advances m m' (rest m') a
      (f m' (subst (λ (n : ℕ). All (IsBurst n) m'.active_bursts) (sym a.alike.devices) a.bursts))

module _ {D : Type 0} (ops : Addressable D) where
  pub advance_bursts-Advances :
      (k i : ℕ) (m : MemoryMap D)
      → All (IsBurst (length m.devices)) m.active_bursts
      → Advances m (advance_bursts ops k i m)
  unfolding advance_bursts
  advance_bursts-Advances zero i m h =
      unfold Advances in record { alike = IsAlike-refl m; bursts = h }
  advance_bursts-Advances (suc k) i m h =
      loop-Advances m _ (advance_bursts ops k (suc i)) (advance_burst_at-Advances ops m i h)
        (advance_bursts-Advances k (suc i))
