-- ===== src/Cpu/Predictor/Training.antt =====
-- The branch history table: its counters stay two bits wide, and two outcomes train a prediction.
use native.Mathlib.Nat.{mod-lt}
use rust_computer.Base.{
  ℕ, zero, suc, ◌%◌, ◌≤◌, ◌<◌, ◌≡◌, arith, ap, ◌∙◌, max, Bool, true, false, length, get_or,
  replicate, length-set, length-replicate, get_or-set_self, All, All-set, All-get_or, leb,
  if◌then◌else◌,
}
use rust_computer.Bits.{shr}
use rust_computer.Cpu.Predictor.{BimodalPredictor, new, index, predict, next_counter, update}

pub record IsValid (p : BimodalPredictor) : Type 0 where
  pub nonempty : 1 ≤ length p.table
  pub two_bits : All (λ (c : ℕ). c ≤ 3) p.table

next_counter-le : (c : ℕ) (taken : Bool) → next_counter c taken ≤ 3
unfolding next_counter
next_counter-le c true = ground arith
next_counter-le c false = ground arith

All-replicate : (n : ℕ) (c : ℕ) → c ≤ 3 → All (λ (c : ℕ). c ≤ 3) (replicate n c)
All-replicate zero c h = tt
All-replicate (suc n) c h = (h, All-replicate n c h)

-- A new table, of any size asked for, is valid.
pub new-IsValid : (entries : ℕ) → IsValid (new entries)
unfolding new
new-IsValid entries = record {
  nonempty = omega (arith, length-replicate {A = ℕ} (max entries 1) 0b01);
  two_bits = All-replicate (max entries 1) 0b01 (omega arith);
}

-- Training keeps the table valid.
pub update-IsValid :
    (p : BimodalPredictor) (pc : ℕ) (taken : Bool) → IsValid p → IsValid (update p pc taken)
unfolding update
update-IsValid p pc taken h = record {
  nonempty = omega (
    arith,
    length-set p.table (index p pc) (next_counter (get_or p.table (index p pc) 0) taken),
    h.nonempty,
  );
  two_bits =
      All-set (λ (c : ℕ). c ≤ 3) p.table (index p pc) _
        (next_counter-le (get_or p.table (index p pc) 0) taken) h.two_bits;
}

index-lt : (p : BimodalPredictor) (pc : ℕ) → IsValid p → index p pc < length p.table
unfolding index
index-lt p pc h = mod-lt (shr pc 2) (h.nonempty)

index-update :
    (p : BimodalPredictor) (pc other : ℕ) (taken : Bool)
    → index (update p pc taken) other ≡ index p other
unfolding index update
index-update p pc other taken = ap (λ (n : ℕ). shr other 2 % n) (length-set p.table _ _)

counter-update :
    (p : BimodalPredictor) (pc : ℕ) (taken : Bool)
    → IsValid p
    → get_or (update p pc taken).table (index p pc) 0
      ≡ next_counter (get_or p.table (index p pc) 0) taken
unfolding update
counter-update p pc taken h = get_or-set_self p.table (index p pc) _ 0 (index-lt p pc h)

counter_below : (p : BimodalPredictor) (i : ℕ) → IsValid p → get_or p.table i 0 ≤ 3
counter_below p i h = All-get_or (λ (c : ℕ). c ≤ 3) p.table i 0 (omega arith) h.two_bits

twice :
    (c : ℕ) (taken : Bool) → c ≤ 3 → leb 0b10 (next_counter (next_counter c taken) taken) ≡ taken
unfolding next_counter
twice c true h = ground arith
twice c false h = ground arith

-- After the branch at `pc` has gone the same way twice, the table predicts that way for it.
pub predict-update-update :
    (p : BimodalPredictor) (pc fallthrough target : ℕ) (taken : Bool)
    → IsValid p
    → predict (update (update p pc taken) pc taken) pc fallthrough target
      ≡ record { taken = taken; target = if taken then target else fallthrough }
unfolding predict
predict-update-update p pc fallthrough target taken h =
    ap (λ (b : Bool). record { taken = b; target = if b then target else fallthrough })
      (ap (λ (c : ℕ). leb 0b10 c) trained
        ∙ twice (get_or p.table (index p pc) 0) taken (counter_below p (index p pc) h))
  where
    once : BimodalPredictor
    once = update p pc taken

    trained :
        get_or (update once pc taken).table (index (update once pc taken) pc) 0
        ≡ next_counter (next_counter (get_or p.table (index p pc) 0) taken) taken
    trained =
        ap (λ (i : ℕ). get_or (update once pc taken).table i 0) (index-update once pc pc taken)
        ∙ counter-update once pc taken (update-IsValid p pc taken h)
        ∙ ap (λ (i : ℕ). next_counter (get_or once.table i 0) taken) (index-update p pc pc taken)
        ∙ ap (λ (c : ℕ). next_counter c taken) (counter-update p pc taken h)
