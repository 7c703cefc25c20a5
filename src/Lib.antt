-- ===== src/Lib.antt =====
-- The cycle-driven RV32I machine of this repository: its instruction set, its hart with the CSR file
-- and the Sv32 page walker, the reference core, the pipelined core, the bus interface, the memory map,
-- the interrupt devices and the memories.
--
-- The parts and their files
--   Isa         crates/isa/src: opcodes, CSR addresses, traps (Opcode, Csr, Exception), and `decode`
--               with its helpers by name (Decode).
--   System      crates/system/src/bus.rs: interrupt lines (Interrupts), address ranges (Address), the
--               trait `Bus` as a record of operations, with the provided methods (Bus). A client of the
--               bus takes that record as a parameter, so what is shown holds for every implementation.
--               Transaction and Device have the transactions, the bursts and the trait `Addressable`;
--               MemoryMap is memory_map.rs, in the order of the source: Access (one request on a
--               device), Transactions, Bursts, Requests (`perform_request`, the bus methods, `tick`).
--               Machine is machine.rs with clock.rs, over any processor and bus.
--   Cpu         crates/cpu/src: state/ (Registers, Privilege, CsrFile, Hart), exec/ (Alu, Branch, Exec),
--               mmu.rs (Mmu), hazard/ and predictor/ (Hazard, Predictor), core/reference.rs (Reference),
--               core/pipeline.rs with pipeline/ and trace.rs (Pipeline).
--   Devices     crates/devices/src: interrupt_controller.rs, machine_timer.rs and the two software
--               interrupt registers, as the bus drives them, by bytes; ram.rs, dram.rs, rom.rs,
--               latency_adapter.rs, block_device.rs and simple_uart.rs.
--   Base, Bits  what the parts share: tests, lists, results, the signed reading of words; the bit
--               operations and their laws. Examples applies the theorems to concrete machines.
--
-- How the parts interact: Reference.step_cycle brings the counters and the pending bits up to date,
-- asks CsrFile for an interrupt, lets Mmu translate the program counter, fetches over the bus, decodes
-- (Isa) and executes (Exec), which translates and accesses memory over the same bus. Traps go through
-- CsrFile.Traps. Pipeline.Cycle.step_cycle does the same over five stages, from the last one back: each
-- part of the source's long function is a function on the record Progress, which holds its local
-- variables. The stages are Execute, Memory, Writeback and Fetch, and decoding is Isa's. The interrupt
-- devices give the line set that the bus reports. A memory map routes to its devices
-- through the operations of `Addressable`, and keeps transactions between ticks.
--
-- Conventions
--   A `u32` is a number below 2 ^ 32 with its wrap-around written out; an `i32` is the number with the
--   same bits. The arithmetic is that of a release build: the `u64` counters of cycles and statistics
--   and the sums of addresses wrap at 2 ^ 64, where a debug build panics instead. `&mut self` is a
--   state taken and returned. A call on the bus takes the state S of the bus and gives the next one
--   with a `Result`. A function with clauses per `match` arm is named after the source, and a part of a
--   long function has a name of its own.
--   `Completion` is what a call gives: done, panicked (an `expect` or `unreachable!` reached) or
--   out_of_fuel. The loop of `translate` runs on five turns of fuel: a turn either answers or lowers the
--   level of the walk, a foreign walk is drained in two turns and an own one takes two, so that the
--   fifth is never needed.
--   A register index is below 32 as the decoder makes it; beyond that the source panics, and here a
--   read gives 0 and a write nothing. So the panic of an index beyond 31 is not part of the model.
--
--   A call on the memory map gives `none` where the source would panic. All the devices of a map have
--   one type of state; a machine with several kinds takes their sum. Identifiers wrap at 2 ^ 64.
--
-- Not modelled
--   The arbiter, the cache and the DMA controller. A device that is shared with other owners (the wrapper
--   of `map_shared_device`) and the texts of device faults that print numbers are left out. The command
--   line program is wiring and output. The accessors and the texts of `Display` have no model.
pub mod Base
pub mod Bits
pub mod Isa
pub mod System
pub mod Cpu
pub mod Devices
pub mod Examples
