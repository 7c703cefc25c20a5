-- ===== src/System.antt =====
-- crates/system: the parts of the unified bus that the processor and the devices share.
pub mod Interrupts
pub mod Address
pub mod Bus
pub mod Transaction
pub mod Device
pub mod MemoryMap
pub mod Machine
