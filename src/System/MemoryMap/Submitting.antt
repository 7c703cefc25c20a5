-- ===== src/System/MemoryMap/Submitting.antt =====
-- memory_map.rs: a submitted burst keeps the map steady.
use rust_computer.Base.{
  ℕ, ◌+◌, ◌%◌, ◌^◌, ◌≤◌, ◌<◌, arith, length, length-replicate, Option, none, some, Result, ok, err,
  if_elim, ◌==◌,
}
use rust_computer.System.MemoryMap.Access.{Call}
use rust_computer.System.MemoryMap.Beats.{IsGoing, IsBurst}
use rust_computer.System.MemoryMap.Bursts.{submit_burst, burst_submitted, burst_pushed}
use rust_computer.System.MemoryMap.Lists.{All-push, All-map}
use rust_computer.System.MemoryMap.Performing.{Below, position-Below}
use rust_computer.System.MemoryMap.Ticks.{IsSteady}
use rust_computer.System.MemoryMap.{MemoryMap, find_device_index}
use rust_computer.System.Transaction.{BurstRequest, beats}

-- The map after a call that does not panic.
unfoldable pub IsSteadyAfter : {D A : Type 0} → Call D A → Type 0
IsSteadyAfter none = ⊥
IsSteadyAfter (some (m, result)) = IsSteady m

burst_pushed-IsSteady :
    {D : Type 0} (m : MemoryMap D) (r : BurstRequest) (i : ℕ) (x : Result _ (Unit {0}))
    → IsSteady m
    → 1 ≤ beats r
    → m.next_transaction_id + 1 < 2 ^ 64
    → i < length m.devices
    → IsSteady (burst_pushed m r i x).0
burst_pushed-IsSteady m r i (err e) s l b k = s
burst_pushed-IsSteady m r i (ok _) s l b k = record {
  sound = record {
    fit = s.sound.fit;
    fresh =
        All-map (λ t. t.id < m.next_transaction_id)
          (λ t. t.id < (m.next_transaction_id + 1) % 2 ^ 64) m.active_transactions
          (λ t h. omega (arith, h, b)) s.sound.fresh;
    compat = s.sound.compat;
  };
  bursts =
      All-push (IsBurst (length m.devices)) m.active_bursts _ s.bursts
        (record { there = k; room = length-replicate (beats r) 0; going = unfold IsGoing in l });
}

burst_submitted-IsSteady :
    {D : Type 0} (m : MemoryMap D) (r : BurstRequest) (x : Option ℕ)
    → IsSteady m
    → 1 ≤ beats r
    → m.next_transaction_id + 1 < 2 ^ 64
    → Below (length m.devices) x
    → IsSteady (burst_submitted m r x).0
unfolding Below
burst_submitted-IsSteady m r none s l b k = s
burst_submitted-IsSteady m r (some i) s l b k = burst_pushed-IsSteady m r i _ s l b k

-- On a map whose transactions and bursts are sound, and whose identifiers do not run out, submitting a
-- burst of at least one beat does not panic in a release build and leaves such a map, whether the burst
-- is taken or refused.
pub submit_burst-IsSteady :
    {D : Type 0} (m : MemoryMap D) (r : BurstRequest)
    → IsSteady m
    → 1 ≤ beats r
    → m.next_transaction_id + 1 < 2 ^ 64
    → IsSteadyAfter (submit_burst m r)
unfolding submit_burst IsSteadyAfter find_device_index
submit_burst-IsSteady m r s l b =
    if_elim IsSteadyAfter (beats r == 0) (λ e. absurd (ground (arith, e, l)))
      (λ _. burst_submitted-IsSteady m r _ s l b (position-Below _ m.devices))
