-- ===== src/Devices.antt =====
-- crates/devices: memory-mapped devices. A device's `load8` and `store8` are actions on its state.
pub mod SoftwareInterrupt
pub mod MachineTimer
pub mod InterruptController
pub mod Ram
pub mod Dram
pub mod Memories
pub mod Bytes
pub mod Rom
pub mod LatencyAdapter
pub mod SimpleUart
pub mod BlockDevice
