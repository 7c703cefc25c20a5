-- ===== src/Examples/Maps.antt =====
-- A memory map with a device of one byte that takes two cycles.
use rust_computer.Base.{ℕ, ◌≤◌, err, false, ◌≡◌, refl, arith, true, [], ◌∷◌, some, none, ok}
use rust_computer.System.Address.{contains, end}
use rust_computer.System.Bus.{busy}
use rust_computer.System.Device.{Addressable}
use rust_computer.System.Interrupts.{empty}
use rust_computer.System.MemoryMap.Answers.{Fits}
use rust_computer.System.MemoryMap.Blocked.{begun, perform_request-blocked}
use rust_computer.System.MemoryMap.Countdown.{IsStarted, steps_left}
use rust_computer.System.MemoryMap.Performing.{Answers, perform_request-Answers}
use rust_computer.System.MemoryMap.Ranges.{
  IsDisjoint, KeepsApart, map_device-KeepsApart, find_device_index-slot,
}
use rust_computer.System.MemoryMap.Requests.{perform_request}
use rust_computer.System.MemoryMap.Beats.{IsGoing}
use rust_computer.System.MemoryMap.Bursts.{submit_burst}
use rust_computer.System.MemoryMap.Submitting.{IsSteadyAfter, submit_burst-IsSteady}
use rust_computer.System.MemoryMap.Ticks.{IsSteady, Finishes, ticks, ticks-Finishes}
use rust_computer.System.MemoryMap.Safety.{IsSound, HoldsCompat}
use rust_computer.System.MemoryMap.{
  MemoryMap, CompatTransaction, DeviceSlot, ActiveTransaction, ActiveBurst, map_device,
  find_device_index,
}
use rust_computer.System.Transaction.{
  AccessKind, TransactionRequest, BurstRequest, BurstPhase, TransactionPhase, beats, same_request,
}

abbrev cell_ops : Addressable ℕ
cell_ops = record {
  name = λ d. "cell";
  address_range = λ d. record { start = 0x100; size = 1 };
  reset = λ d. 0;
  tick = λ d. d;
  machine_time = λ d. none;
  access_latency = λ addr kind width d. (d, 2);
  pending_interrupts = λ d. empty;
  load8 = λ addr d. (d, ok d);
  store8 = λ addr value d. (value, ok tt);
}

abbrev cell_slot : DeviceSlot ℕ
cell_slot = record { range = record { start = 0x200; size = 4 }; name = "cell"; device = 7 }

abbrev load_byte : TransactionRequest
load_byte = record {
  addr = 0x200;
  kind = AccessKind.load;
  width = 1;
  write_data = 0 ∷ 0 ∷ 0 ∷ 0 ∷ [];
}

abbrev flying : ActiveTransaction
flying = record {
  id = 0;
  device_index = 0;
  request = load_byte;
  phase = TransactionPhase.in_flight 2;
}

abbrev cell_map : MemoryMap ℕ
cell_map = record {
  devices = cell_slot ∷ [];
  active_transactions = flying ∷ [];
  active_bursts = [];
  compat_transaction = none;
  next_transaction_id = 1;
}

cell_map-IsSound : IsSound cell_map
unfolding Fits HoldsCompat
cell_map-IsSound = record { fit = ((omega arith, tt), tt); fresh = (omega arith, tt); compat = tt }

cell_map-IsDisjoint : IsDisjoint cell_map.devices
unfolding IsDisjoint
cell_map-IsDisjoint = (tt, tt)

cell_slot-contains : contains cell_slot.range 0x203 ≡ true
unfolding contains end
cell_slot-contains = refl

flying-IsStarted : IsStarted flying.phase
unfolding IsStarted
flying-IsStarted = tt

perform_request-Answers_example : Answers load_byte (perform_request cell_ops cell_map load_byte)
perform_request-Answers_example =
    perform_request-Answers cell_ops cell_map load_byte cell_map-IsSound (omega arith)

-- The same map while a burst of one word is in flight too.
abbrev word_burst : ActiveBurst
word_burst = record {
  id = 0;
  device_index = 0;
  request = BurstRequest.read_words 0x200 1 AccessKind.load;
  beat_index = 0;
  read_words = 0 ∷ [];
  phase = BurstPhase.in_flight 0 1 2;
}

abbrev bursting_map : MemoryMap ℕ
bursting_map = record cell_map { active_bursts = word_burst ∷ [] }

bursting_map-IsSteady : IsSteady bursting_map
unfolding IsGoing beats
bursting_map-IsSteady = record {
  sound = record {
    fit = cell_map-IsSound.fit;
    fresh = cell_map-IsSound.fresh;
    compat = cell_map-IsSound.compat;
  };
  bursts = (record { there = omega arith; room = refl; going = omega arith }, tt);
}

ticks-Finishes_example : Finishes 0 (ticks cell_ops (steps_left flying.phase) bursting_map)
ticks-Finishes_example =
    ticks-Finishes cell_ops 0 bursting_map flying bursting_map-IsSteady refl flying-IsStarted

-- A burst of one word for an address of the device, on the busy map.
abbrev word_request : BurstRequest
word_request = BurstRequest.read_words 0x200 1 AccessKind.load

one_beat : 1 ≤ beats word_request
unfolding beats
one_beat = omega arith

submit_burst-IsSteady_example : IsSteadyAfter (submit_burst bursting_map word_request)
submit_burst-IsSteady_example =
    submit_burst-IsSteady bursting_map word_request bursting_map-IsSteady one_beat (omega arith)

map_device-KeepsApart_example : KeepsApart (map_device cell_ops cell_map 7)
map_device-KeepsApart_example = map_device-KeepsApart cell_ops cell_map 7 cell_map-IsDisjoint

find_device_index-slot_example : find_device_index cell_map 0x203 ≡ some 0
find_device_index-slot_example =
    find_device_index-slot cell_map 0 cell_slot 0x203 cell_map-IsDisjoint refl cell_slot-contains

-- A load of one address is pending, and another address is asked for.
abbrev other_byte : TransactionRequest
other_byte = record {
  addr = 0x201;
  kind = AccessKind.load;
  width = 1;
  write_data = 0 ∷ 0 ∷ 0 ∷ 0 ∷ [];
}

abbrev pending_load : CompatTransaction
pending_load = record { id = 0; request = load_byte }

abbrev pending_map : MemoryMap ℕ
pending_map = record cell_map { compat_transaction = some pending_load }

other_byte-differs : same_request load_byte other_byte ≡ false
unfolding same_request
other_byte-differs = refl

perform_request-blocked_example :
    (n : ℕ) × (1 ≤ n)
    × (perform_request cell_ops pending_map other_byte ≡ some (pending_map, err (busy n)))
perform_request-blocked_example =
    perform_request-blocked cell_ops pending_map pending_map pending_load other_byte refl begun
      other_byte-differs
