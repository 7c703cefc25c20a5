-- ===== src/Cpu/Pipeline/BackEnd.antt =====
-- core/pipeline.rs, lines 236 to 299: write back, the interrupt and the memory stage.
use rust_computer.Base.{
  ◌+◌, true, false, not, ◌&&◌, if◌then◌else◌, Option, none, some, is_some, ok, err,
}
use rust_computer.Cpu.CsrFile.Interrupts.{pending_interrupt}
use rust_computer.Cpu.Hazard.{fetch_blocked_by_memory_access}
use rust_computer.Cpu.Mmu.Types.{PageWalker, done, panicked, out_of_fuel}
use rust_computer.Cpu.Pipeline.Core.{is_translation_barrier_payload}
use rust_computer.Cpu.Pipeline.Execute.{uses_memory}
use rust_computer.Cpu.Pipeline.Latches.{ExMemPayload, MemWbPayload}
use rust_computer.Cpu.Pipeline.Memory.{MemoryEvent, Accessed, access}
use rust_computer.Cpu.Pipeline.Writeback.{write_back}
use rust_computer.Isa.Exception.{Interrupt, interrupt}
use rust_computer.System.Bus.{Bus}
use rust_computer.Cpu.Pipeline.Progress.{Progress, take_trap, Staged, on}

unfoldable pub write_back_stage : Progress → Option MemWbPayload → Progress
write_back_stage p none = p
write_back_stage p (some payload) =
    let (h, w, event) = write_back p.core.state p.core.page_walker payload in
    record p {
      core = record (p.core) { state = h; page_walker = w };
      commit = some event;
      retired_instructions = p.retired_instructions + 1;
      translation_barrier =
          if is_translation_barrier_payload payload.decoded payload.csr_write
          then false
          else p.translation_barrier;
    }

unfoldable pub interrupt_taken : Progress → Option Interrupt → Progress
interrupt_taken p none = p
interrupt_taken p (some i) = take_trap p (interrupt i) p.core.state.pc "interrupt"

unfoldable pub interrupt_stage : {S : Type 0} → Bus S → S → Progress → Progress
interrupt_stage bus s p = interrupt_taken p (
    if not p.translation_barrier && not (bus.is_busy s)
    then pending_interrupt p.core.state.csrs p.core.state.privilege
    else none)

abbrev pub with_walker : Progress → PageWalker → Progress
with_walker p w = record p { core = record (p.core) { page_walker = w } }

-- The `match` on the event of the memory stage.
unfoldable pub memory_event : Progress → ExMemPayload → MemoryEvent → Progress
memory_event p payload (MemoryEvent.advance result) = record p {
  next = record (p.next) { mem_wb = some result };
}
memory_event p payload (MemoryEvent.stall kept) = record p {
  memory_wait = true;
  fetch_stalled = true;
  decode_stalled = is_some p.core.latches.if_id;
  next = record (p.next) {
    ex_mem = some kept;
    id_ex = p.core.latches.id_ex;
    if_id = p.core.latches.if_id;
  };
  note = "memory wait";
}
memory_event p payload (MemoryEvent.trap trap) = take_trap p trap payload.decoded.pc "memory trap"

unfoldable pub memory_accessed : {S : Type 0} → Progress → ExMemPayload → Accessed S → Staged S
memory_accessed p payload (s, w, done (ok event)) =
    on s (memory_event (with_walker p w) payload event)
memory_accessed p payload (s, w, done (err e)) = (s, with_walker p w, done (err e))
memory_accessed p payload (s, w, panicked) = (s, with_walker p w, panicked)
memory_accessed p payload (s, w, out_of_fuel) = (s, with_walker p w, out_of_fuel)

unfoldable pub memory_latched : {S : Type 0} → Bus S → S → Progress → Option ExMemPayload → Staged S
memory_latched bus s p none = on s p
memory_latched bus s p (some payload) =
    if p.flushed
    then on s p
    else memory_accessed
        (record p {
          fetch_stalled =
              fetch_blocked_by_memory_access p.core.unified_memory (uses_memory payload.decoded);
        })
        payload (access bus p.core.page_walker p.core.state.csrs p.core.state.privilege payload s)

unfoldable pub memory_stage : {S : Type 0} → Bus S → S → Progress → Staged S
memory_stage bus s p = memory_latched bus s p p.core.latches.ex_mem
