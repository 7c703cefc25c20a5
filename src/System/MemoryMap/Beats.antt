-- ===== src/System/MemoryMap/Beats.antt =====
-- memory_map.rs: a step of a burst never panics and keeps the bursts sound.
use rust_computer.Base.{
  ℕ, zero, suc, ◌+◌, ◌<◌, ◌≡◌, refl, arith, Bool, true, List, [], ◌∷◌, All, length, length-set, set,
  Option, none, some, Result, ok, err, if_elim, ◌==◌, ltb, lt→ltb, sym, ◌∙◌, subst, if◌then◌else◌,
}
use rust_computer.System.Bus.{Action}
use rust_computer.System.Device.{Addressable}
use rust_computer.System.MemoryMap.Access.{Call, with_device, execute_burst_beat}
use rust_computer.System.MemoryMap.Answers.{IsAlike}
use rust_computer.System.MemoryMap.Bursts.{set_burst, next_phase, settle_beat, settled, beat_result}
use rust_computer.System.MemoryMap.Lists.{length-set_device, slot_at-some}
use rust_computer.System.MemoryMap.{MemoryMap, ActiveBurst}
use rust_computer.System.Transaction.{BurstRequest, BurstPhase, beats}

-- A burst that is not over is at one of its beats.
unfoldable pub IsGoing : ActiveBurst → BurstPhase → Type 0
IsGoing b (BurstPhase.accepted _ _) = b.beat_index < beats b.request
IsGoing b (BurstPhase.in_flight _ _ _) = b.beat_index < beats b.request
IsGoing b _ = Unit

-- The burst's device is one of `n`, and it has room for the words of all its beats.
pub record IsBurst (n : ℕ) (b : ActiveBurst) : Type 0 where
  pub there : b.device_index < n
  pub room : length b.read_words ≡ beats b.request
  pub going : IsGoing b b.phase

unfoldable pub Settles : ℕ → Option ActiveBurst → Type 0
Settles n none = ⊥
Settles n (some b) = IsBurst n b

ended-Settles :
    (n : ℕ) (b : ActiveBurst) (words : List ℕ)
    → IsBurst n b
    → b.beat_index < beats b.request
    → length words ≡ beats b.request
    → IsBurst n (record b {
      read_words = words;
      beat_index = b.beat_index + 1;
      phase = next_phase (b.beat_index + 1) (beats b.request);
    })
unfolding IsGoing
ended-Settles n b words k l e = record {
  there = k.there;
  room = e;
  going =
      if_elim (IsGoing (record b { read_words = words; beat_index = b.beat_index + 1 }))
        (b.beat_index + 1 == beats b.request) (λ _. tt) (λ h. ground (arith, l, h));
}

-- The burst past its beat, with the words of `keep_word`.
abbrev advanced : ActiveBurst → Option (List ℕ) → Option ActiveBurst
advanced b o = elim o [
  | none ↦ none
  | some words ↦ some (record b {
    read_words = words;
    beat_index = b.beat_index + 1;
    phase = next_phase (b.beat_index + 1) (beats b.request);
  })
]

pub settle_beat-Settles :
    (n : ℕ) (b : ActiveBurst) (next : Result _ (Option ℕ))
    → IsBurst n b
    → b.beat_index < beats b.request
    → Settles n (settle_beat b (beat_result next))
unfolding settle_beat Settles IsGoing
settle_beat-Settles n b (err e) k l = record { there = k.there; room = k.room; going = tt }
settle_beat-Settles n b (ok none) k l = ended-Settles n b b.read_words k l k.room
settle_beat-Settles n b (ok (some word)) k l =
    let fits : ltb b.beat_index (length b.read_words) ≡ true =
      lt→ltb b.beat_index (length b.read_words) (rw (k.room) l) in
    subst
      (λ (c : Bool).
        Settles n (advanced b (if c then some (set b.read_words b.beat_index word) else none)))
      (sym fits)
      (unfold Settles in
        ended-Settles n b (set b.read_words b.beat_index word) k l
          (length-set b.read_words b.beat_index word ∙ k.room))

All-set_burst :
    (P : ActiveBurst → Type 0) (bs : List ActiveBurst) (i : ℕ) (b : ActiveBurst)
    → All P bs
    → P b
    → All P (set_burst bs i b)
All-set_burst P [] i b h p = tt
All-set_burst P (x ∷ xs) zero b h p = (p, h.1)
All-set_burst P (x ∷ xs) (suc i) b h p = (h.0, All-set_burst P xs i b h.1 p)

-- After steps of bursts: all else is alike, and the bursts are sound.
pub record IsAfter {D : Type 0} (m m' : MemoryMap D) : Type 0 where
  pub alike : IsAlike m (record m' { active_bursts = m.active_bursts })
  pub bursts : All (IsBurst (length m.devices)) m'.active_bursts

unfoldable pub Advances : {D : Type 0} → MemoryMap D → Option (MemoryMap D) → Type 0
Advances m none = ⊥
Advances m (some m') = IsAfter m m'

pub settled-Advances :
    {D : Type 0} (m m' : MemoryMap D) (i : ℕ) (x : Option ActiveBurst)
    → IsAlike m m'
    → All (IsBurst (length m.devices)) m.active_bursts
    → Settles (length m.devices) x
    → Advances m (settled i m' x)
unfolding Settles Advances
settled-Advances m m' i none a h s = absurd s
settled-Advances m m' i (some b) a h s = record {
  alike = record {
    devices = a.devices;
    transactions = a.transactions;
    compat = a.compat;
    next = a.next;
    bursts = refl;
  };
  bursts = All-set_burst (IsBurst (length m.devices)) m'.active_bursts i b (rw (a.bursts) h) s;
}

-- A beat on a device that is there.
unfoldable pub Beats : {D A : Type 0} → MemoryMap D → Call D A → Type 0
Beats m none = ⊥
Beats m (some (m', result)) = IsAlike m m'

with_device-Beats :
    {D A : Type 0} (m : MemoryMap D) (i : ℕ) (action : Action D A)
    → i < length m.devices
    → Beats m (with_device m i action)
unfolding with_device Beats
with_device-Beats m i action l =
    let (slot, e) = slot_at-some m.devices i l in
    rw e (record {
      devices = length-set_device m.devices i (action slot.device).0;
      transactions = refl;
      compat = refl;
      next = refl;
      bursts = refl;
    })

pub execute_burst_beat-Beats :
    {D : Type 0} (ops : Addressable D) (m : MemoryMap D) (i : ℕ) (r : BurstRequest) (beat : ℕ)
    → i < length m.devices
    → beat < beats r
    → Beats m (execute_burst_beat ops m i r beat)
unfolding execute_burst_beat beats
execute_burst_beat-Beats ops m i (BurstRequest.read_words base n kind) beat l g =
    with_device-Beats m i _ l
execute_burst_beat-Beats ops m i (BurstRequest.write_words base words) beat l g =
    let (word, e) = slot_at-some words beat g in rw e (with_device-Beats m i _ l)
