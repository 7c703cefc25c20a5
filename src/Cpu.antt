-- ===== src/Cpu.antt =====
-- crates/cpu: execution helpers, architectural state, hazards, prediction, translation, execution.
pub mod Alu
pub mod Branch
pub mod Hazard
pub mod Predictor
pub mod Registers
pub mod CsrFile
pub mod Privilege
pub mod Mmu
pub mod Hart
pub mod Exec
pub mod Reference
pub mod Pipeline
