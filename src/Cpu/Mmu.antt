-- ===== src/Cpu/Mmu.antt =====
-- crates/cpu/src/mmu.rs: Sv32 translation with a page walker and an eight-entry TLB.
pub mod Types
pub mod Pte
pub mod Tlb
pub mod Walker
pub mod Translate
pub mod Requests
pub mod Steps
pub mod Fuel
pub mod Fences
