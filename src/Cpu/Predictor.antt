-- ===== src/Cpu/Predictor.antt =====
-- crates/cpu/src/predictor: the two-bit branch history table and the static predictor.
pub mod Training
use rust_computer.Base.{
  ℕ, ◌+◌, ◌/◌, ◌%◌, ◌^◌, max, Bool, true, false, List, leb, ◌==◌, if◌then◌else◌, length, get_or,
  set, replicate,
}
use rust_computer.Bits.{shr}

pub record BranchPrediction : Type 0 where
  pub taken : Bool
  pub target : ℕ

pub record BimodalPredictor : Type 0 where
  pub table : List ℕ

unfoldable pub new : ℕ → BimodalPredictor
new entries = record { table = replicate (max entries 1) 0b01 }

unfoldable pub index : BimodalPredictor → ℕ → ℕ
index p pc = shr pc 2 % length p.table

unfoldable pub predict : BimodalPredictor → ℕ → ℕ → ℕ → BranchPrediction
unfolding index
predict p pc fallthrough target =
    let taken = leb 0b10 (get_or p.table (index p pc) 0) in
    record { taken = taken; target = if taken then target else fallthrough }

-- The `match (*entry, taken)` of `update`.
unfoldable pub next_counter : ℕ → Bool → ℕ
next_counter entry false =
    if entry == 0b00
    then 0b00
    else if entry == 0b01
    then 0b00
    else if entry == 0b10
    then 0b01
    else if entry == 0b11
    then 0b10
    else 0b01
next_counter entry true =
    if entry == 0b00
    then 0b01
    else if entry == 0b01
    then 0b10
    else if entry == 0b10
    then 0b11
    else if entry == 0b11
    then 0b11
    else 0b01

unfoldable pub update : BimodalPredictor → ℕ → Bool → BimodalPredictor
unfolding index next_counter
update p pc taken = record {
  table = set p.table (index p pc) (next_counter (get_or p.table (index p pc) 0) taken);
}

-- `AlwaysNotTaken::predict`.
unfoldable pub predict_not_taken : ℕ → ℕ → ℕ → BranchPrediction
predict_not_taken pc fallthrough target = record { taken = false; target = fallthrough }
