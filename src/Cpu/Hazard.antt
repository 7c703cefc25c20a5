-- ===== src/Cpu/Hazard.antt =====
-- crates/cpu/src/hazard: the status records of one field are their field.
pub mod Independence
use rust_computer.Base.{ℕ, Bool, false, not, ◌&&◌, ◌||◌, Option, none, some, ◌==◌}

-- `consumer == Some(producer)`.
abbrev pub reads : Option ℕ → ℕ → Bool
reads none producer = false
reads (some r) producer = r == producer

unfoldable pub detect_raw_hazard : Option ℕ → Option ℕ → Option ℕ → Bool
detect_raw_hazard none consumer_rs1 consumer_rs2 = false
detect_raw_hazard (some producer) consumer_rs1 consumer_rs2 =
    not (producer == 0) && (reads consumer_rs1 producer || reads consumer_rs2 producer)

unfoldable pub detect_branch_flush : ℕ → ℕ → Bool
detect_branch_flush predicted_pc actual_pc = not (predicted_pc == actual_pc)

unfoldable pub fetch_blocked_by_memory_access : Bool → Bool → Bool
fetch_blocked_by_memory_access unified_memory memory_stage_accessed =
    unified_memory && memory_stage_accessed
