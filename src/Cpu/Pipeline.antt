-- ===== src/Cpu/Pipeline.antt =====
-- crates/cpu/src/pipeline and core/pipeline.rs: the five stages and the core that runs them.
pub mod Latches
pub mod Execute
pub mod Memory
pub mod Writeback
pub mod Fetch
pub mod Core
pub mod Progress
pub mod BackEnd
pub mod FrontEnd
pub mod Cycle
pub mod Refinement
pub mod Stages
pub mod Sound
pub mod Safety
pub mod Cycles
pub mod Forwarding
