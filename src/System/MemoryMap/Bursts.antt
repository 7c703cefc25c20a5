-- ===== src/System/MemoryMap/Bursts.antt =====
-- memory_map.rs, lines 346 to 428 and 531 to 603: the life of a burst.
use rust_computer.Base.{
  ℕ, zero, suc, ◌+◌, ◌-◌, ◌%◌, ◌^◌, Bool, false, List, [], ◌∷◌, Option, none, some, Result, ok, err,
  if◌then◌else◌, ◌==◌, ltb, set, length, replicate,
}
use rust_computer.System.Bus.{BusError, unmapped_address, device_fault}
use rust_computer.System.Device.{Addressable}
use rust_computer.System.MemoryMap.Access.{Call, slot_at, set_device, execute_burst_beat}
use rust_computer.System.MemoryMap.Transactions.{swap_remove}
use rust_computer.System.MemoryMap.{
  MemoryMap, DeviceSlot, ActiveBurst, position, push, find_device_index,
}
use rust_computer.System.Transaction.{
  BurstRequest, BurstResponse, BurstPhase, accepted, in_flight, ready, beats, base_addr, beat_addr,
  beat_kind,
}

pub data BeatAdvance : Type 0 where
  phase : BurstPhase → BeatAdvance
  completed : Option ℕ → BeatAdvance
  failed : BusError → BeatAdvance

abbrev pub burst_index : List ActiveBurst → ℕ → Option ℕ
burst_index active id = position (λ b. b.id == id) active

abbrev pub set_burst : List ActiveBurst → ℕ → ActiveBurst → List ActiveBurst
set_burst [] i b = []
set_burst (x ∷ xs) zero b = b ∷ xs
set_burst (x ∷ xs) (suc i) b = x ∷ set_burst xs i b

abbrev pub burst_phase_of : List ActiveBurst → Option ℕ → Option BurstPhase
burst_phase_of active none = none
burst_phase_of active (some i) = elim (slot_at active i) [ none ↦ none | some b ↦ some b.phase ]

unfoldable pub burst_phase : {D : Type 0} → MemoryMap D → ℕ → Option BurstPhase
burst_phase m id = burst_phase_of m.active_bursts (burst_index m.active_bursts id)

-- `read_words[beat_index] = word`, which panics out of bounds.
abbrev pub keep_word : List ℕ → ℕ → Option ℕ → Option (List ℕ)
keep_word words i none = some words
keep_word words i (some word) = if ltb i (length words) then some (set words i word) else none

abbrev pub next_phase : ℕ → ℕ → BurstPhase
next_phase beat total =
    if beat == total then BurstPhase.ready total else BurstPhase.accepted beat total

-- The `match next_state`; `none` is the panic.
unfoldable pub settle_beat : ActiveBurst → BeatAdvance → Option ActiveBurst
settle_beat b (BeatAdvance.phase next) = some (record b { phase = next })
settle_beat b (completed read_word) = elim (keep_word b.read_words b.beat_index read_word) [
  | none ↦ none
  | some words ↦ some (record b {
    read_words = words;
    beat_index = b.beat_index + 1;
    phase = next_phase (b.beat_index + 1) (beats b.request);
  })
]
settle_beat b (BeatAdvance.failed error) = some (record b { phase = BurstPhase.failed error })

abbrev pub settled : {D : Type 0} → ℕ → MemoryMap D → Option ActiveBurst → Option (MemoryMap D)
settled i m none = none
settled i m (some b) = some (record m { active_bursts = set_burst m.active_bursts i b })

abbrev pub beat_result : Result BusError (Option ℕ) → BeatAdvance
beat_result (ok read_word) = completed read_word
beat_result (err error) = BeatAdvance.failed error

abbrev pub after_beat : {D : Type 0} → ℕ → ActiveBurst → Call D (Option ℕ) → Option (MemoryMap D)
after_beat i b none = none
after_beat i b (some (m, result)) = settled i m (settle_beat b (beat_result result))

module _ {D : Type 0} (ops : Addressable D) where
  unfoldable pub accept_beat : MemoryMap D → ℕ → ActiveBurst → D × ℕ → Option (MemoryMap D)
  accept_beat m i b (d, latency) =
      let m' = record m { devices = set_device m.devices b.device_index d } in
      if latency == 0
      then after_beat i b (execute_burst_beat ops m' b.device_index b.request b.beat_index)
      else settled i m' (
          settle_beat b
            (BeatAdvance.phase (BurstPhase.in_flight b.beat_index (beats b.request) latency)))

  abbrev pub accept_beat_on :
      MemoryMap D → ℕ → ActiveBurst → Option (DeviceSlot D) → Option (MemoryMap D)
  accept_beat_on m i b none = none
  accept_beat_on m i b (some slot) =
      accept_beat m i b
        (ops.access_latency (beat_addr b.request b.beat_index) (beat_kind b.request) 4 slot.device)

  unfoldable pub advance_burst_phase :
      MemoryMap D → ℕ → ActiveBurst → BurstPhase → Option (MemoryMap D)
  advance_burst_phase m i b (accepted beat total) =
      accept_beat_on m i b (slot_at m.devices b.device_index)
  advance_burst_phase m i b (in_flight beat total remaining_cycles) =
      if ltb 1 remaining_cycles
      then settled i m (
          settle_beat b (
            BeatAdvance.phase
              (BurstPhase.in_flight b.beat_index (beats b.request) (remaining_cycles - 1))))
      else after_beat i b (execute_burst_beat ops m b.device_index b.request b.beat_index)
  advance_burst_phase m i b (ready completed_beats) = some m
  advance_burst_phase m i b (BurstPhase.failed error) = some m

  abbrev pub advance_burst_slot : MemoryMap D → ℕ → Option ActiveBurst → Option (MemoryMap D)
  advance_burst_slot m i none = some m
  advance_burst_slot m i (some b) = advance_burst_phase m i b b.phase

  unfoldable pub advance_burst_at : MemoryMap D → ℕ → Option (MemoryMap D)
  advance_burst_at m i = advance_burst_slot m i (slot_at m.active_bursts i)

  unfoldable pub advance_bursts : ℕ → ℕ → MemoryMap D → Option (MemoryMap D)
  advance_bursts zero i m = some m
  advance_bursts (suc n) i m = elim (advance_burst_at m i) [
    | none ↦ none
    | some m' ↦ advance_bursts n (suc i) m'
  ]

  abbrev advance_burst_index : MemoryMap D → Option ℕ → Option (MemoryMap D)
  advance_burst_index m none = some m
  advance_burst_index m (some i) = advance_burst_at m i

  -- The map after `advance_burst`; its result is then `burst_phase`.
  unfoldable pub advance_burst : MemoryMap D → ℕ → Option (MemoryMap D)
  advance_burst m id = advance_burst_index m (burst_index m.active_bursts id)

abbrev is_index : Option ℕ → ℕ → Bool
is_index none i = false
is_index (some j) i = j == i

-- The loop over the beats after the first: `n` of them from `beat_index`.
unfoldable pub check_beats :
    {D : Type 0} → MemoryMap D → ℕ → BurstRequest → ℕ → ℕ → Result BusError (Unit {0})
check_beats m i request zero beat_index = ok tt
check_beats m i request (suc n) beat_index =
    if is_index (find_device_index m (beat_addr request beat_index)) i
    then check_beats m i request n (suc beat_index)
    else err (device_fault (beat_addr request beat_index) "burst crosses device boundary")

abbrev pub burst_pushed :
    {D : Type 0}
    → MemoryMap D
    → BurstRequest
    → ℕ
    → Result BusError (Unit {0})
    → MemoryMap D × Result BusError ℕ
burst_pushed m request i (err e) = (m, err e)
burst_pushed m request i (ok _) = (
  record m {
    next_transaction_id = (m.next_transaction_id + 1) % 2 ^ 64;
    active_bursts = push m.active_bursts (record {
      id = m.next_transaction_id;
      device_index = i;
      request = request;
      beat_index = 0;
      read_words = replicate (beats request) 0;
      phase = BurstPhase.accepted 0 (beats request);
    });
  },
  ok m.next_transaction_id,
)

abbrev pub burst_submitted :
    {D : Type 0} → MemoryMap D → BurstRequest → Option ℕ → MemoryMap D × Result BusError ℕ
burst_submitted m request none = (m, err (unmapped_address (base_addr request)))
burst_submitted m request (some i) =
    burst_pushed m request i (check_beats m i request (beats request - 1) 1)

-- A burst of no beats panics.
unfoldable pub submit_burst : {D : Type 0} → MemoryMap D → BurstRequest → Call D ℕ
submit_burst m request =
    if beats request == 0
    then none
    else some (burst_submitted m request (find_device_index m (base_addr request)))

abbrev response_of : ActiveBurst → BurstRequest → ℕ → BurstResponse
response_of b (BurstRequest.read_words _ _ _) completed_beats =
    BurstResponse.read_words b.read_words
response_of b (BurstRequest.write_words _ _) completed_beats =
    BurstResponse.write_complete completed_beats

unfoldable pub take_burst_phase :
    {D : Type 0}
    → MemoryMap D
    → ℕ
    → ActiveBurst
    → BurstPhase
    → MemoryMap D × Option (Result BusError BurstResponse)
take_burst_phase m i b (accepted _ _) = (m, none)
take_burst_phase m i b (in_flight _ _ _) = (m, none)
take_burst_phase m i b (ready completed_beats) = (
  record m { active_bursts = swap_remove m.active_bursts i },
  some (ok (response_of b b.request completed_beats)),
)
take_burst_phase m i b (BurstPhase.failed error) =
    (record m { active_bursts = swap_remove m.active_bursts i }, some (err error))

abbrev take_burst_slot :
    {D : Type 0}
    → MemoryMap D
    → ℕ
    → Option ActiveBurst
    → MemoryMap D × Option (Result BusError BurstResponse)
take_burst_slot m i none = (m, none)
take_burst_slot m i (some b) = take_burst_phase m i b b.phase

abbrev take_burst_at :
    {D : Type 0} → MemoryMap D → Option ℕ → MemoryMap D × Option (Result BusError BurstResponse)
take_burst_at m none = (m, none)
take_burst_at m (some i) = take_burst_slot m i (slot_at m.active_bursts i)

unfoldable pub take_burst_response :
    {D : Type 0} → MemoryMap D → ℕ → MemoryMap D × Option (Result BusError BurstResponse)
take_burst_response m id = take_burst_at m (burst_index m.active_bursts id)
