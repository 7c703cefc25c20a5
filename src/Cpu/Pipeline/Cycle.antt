-- ===== src/Cpu/Pipeline/Cycle.antt =====
-- core/pipeline.rs: the fetch stage, the end of the cycle, and `step_cycle`.
use rust_computer.Base.{
  ℕ, ◌+◌, Bool, true, false, not, ◌&&◌, ◌||◌, if◌then◌else◌, Option, none, some, is_some, Result,
  ok, err,
}
use rust_computer.Bits.{u64}
use rust_computer.Cpu.CsrFile.Interrupts.{
  increment_cycle, set_time, increment_time, increment_instret, sync_interrupts, pending_interrupt,
}
use rust_computer.Cpu.CsrFile.{CsrFile}
use rust_computer.Cpu.Exec.Effects.{CpuError, ExecutionResult, apply_trap}
use rust_computer.Cpu.Mmu.Types.{Completion, done, panicked, out_of_fuel}
use rust_computer.Cpu.Pipeline.Core.{PipelineCore, FlushReason, no_trace, no_result}
use rust_computer.Cpu.Pipeline.Execute.{uses_memory}
use rust_computer.Cpu.Pipeline.Fetch.{FetchEvent, Fetched, fetch}
use rust_computer.Cpu.Pipeline.Latches
use rust_computer.Cpu.Pipeline.Latches.{
  IfIdPayload, IdExPayload, ExMemPayload, MemWbPayload, PipelineLatches,
}
use rust_computer.Cpu.Predictor.{predict}
use rust_computer.Cpu.Reference.{CpuCycle}
use rust_computer.Isa.Exception.{Trap, Interrupt, interrupt}
use rust_computer.System.Bus.{Bus}
use rust_computer.Cpu.Pipeline.Progress.{Progress, start, take_trap, Staged, on, then_stage}
use rust_computer.Cpu.Pipeline.BackEnd.{
  write_back_stage, interrupt_stage, memory_stage, with_walker,
}
use rust_computer.Cpu.Pipeline.FrontEnd.{execute_stage, decode_stage}
use rust_computer.Cpu.Pipeline.Core.{PipelineStats, PipelineTrace, map_or}
use text.Mathlib.Text.{◌==◌ as str_eq}

-- `note == "progress"`.
abbrev pub progressing : Progress → Bool
progressing p = str_eq p.note "progress"

-- The event of the fetch stage.
unfoldable pub fetch_event : Progress → ℕ → FetchEvent → Progress
fetch_event p pc (FetchEvent.advance payload) = record p {
  fetched_pc = some payload.pc;
  predicted_taken = payload.predicted_taken;
  next = record (p.next) { if_id = some payload };
  next_front_end_pc = payload.predicted_pc;
  note = if payload.predicted_taken && progressing p then "predicted taken" else p.note;
}
fetch_event p pc FetchEvent.stall = record p {
  fetch_stalled = true;
  note = if progressing p then "fetch wait" else p.note;
}
fetch_event p pc (FetchEvent.trap trap) = take_trap p trap pc "fetch trap"

unfoldable pub fetch_done : {S : Type 0} → Progress → ℕ → Fetched S → Staged S
fetch_done p pc (s, w, done (ok event)) = on s (fetch_event (with_walker p w) pc event)
fetch_done p pc (s, w, done (err e)) = (s, with_walker p w, done (err e))
fetch_done p pc (s, w, panicked) = (s, with_walker p w, panicked)
fetch_done p pc (s, w, out_of_fuel) = (s, with_walker p w, out_of_fuel)

unfoldable pub fetch_stage : {S : Type 0} → Bus S → S → Progress → Staged S
fetch_stage bus s p =
    if p.flushed
    then on s (record p { next = record (p.next) { if_id = none; id_ex = none } })
    else if not p.memory_wait
        && not p.decode_stalled
        && not p.fetch_stalled
        && not p.translation_barrier
    then fetch_done p p.next_front_end_pc (
        fetch bus p.core.page_walker p.core.state.csrs p.core.state.privilege p.next_front_end_pc
          (predict p.core.predictor) s)
    else if p.fetch_stalled && progressing p
    then on s (record p { note = "structural hazard" })
    else on s p

abbrev bool_count : Bool → ℕ
bool_count true = 1
bool_count false = 0

-- The counters of the flushes by reason.
unfoldable pub count_flush : PipelineStats → Option FlushReason → PipelineStats
count_flush t none = t
count_flush t (some FlushReason.branch_redirect) = record t {
  branch_flushes = u64 (t.branch_flushes + 1);
}
count_flush t (some FlushReason.trap) = record t { trap_flushes = u64 (t.trap_flushes + 1) }
count_flush t (some FlushReason.return_from_trap) = record t {
  return_flushes = u64 (t.return_flushes + 1);
}
count_flush t (some FlushReason.translation_barrier) = record t {
  translation_barrier_flushes = u64 (t.translation_barrier_flushes + 1);
}

abbrev pub trap_retired : Option ExecutionResult → ℕ
trap_retired none = 0
trap_retired (some r) = r.retired

abbrev trap_of : Option ExecutionResult → Option Trap
trap_of none = none
trap_of (some r) = r.trap

abbrev trap_memory : Option ExecutionResult → Bool
trap_memory none = false
trap_memory (some r) = r.memory_access

unfoldable pub cycle_result : Progress → ExecutionResult
cycle_result p = record {
  retired = p.retired_instructions + trap_retired p.trap_result;
  trap = trap_of p.trap_result;
  memory_access =
      map_or (λ payload. uses_memory payload.decoded) p.core.latches.ex_mem
      || trap_memory p.trap_result;
}

unfoldable pub cycle_stats : Progress → ExecutionResult → PipelineStats
cycle_stats p result =
    let t = p.core.stats in
    let counted =
      count_flush
        (record t {
          retired_instructions = u64 (t.retired_instructions + result.retired);
          fetch_stall_cycles = u64 (t.fetch_stall_cycles + bool_count p.fetch_stalled);
          decode_stall_cycles = u64 (t.decode_stall_cycles + bool_count p.decode_stalled);
          flush_cycles = u64 (t.flush_cycles + bool_count p.flushed);
          predicted_taken_fetches = u64 (t.predicted_taken_fetches + bool_count p.predicted_taken);
        })
        p.flush_reason in
    record counted { trap_count = u64 (counted.trap_count + bool_count (is_some result.trap)) }

abbrev map_pc {ℓ} : {A : Type ℓ} → (A → ℕ) → Option A → Option ℕ
map_pc f none = none
map_pc f (some a) = some (f a)

unfoldable pub cycle_trace : Progress → ExecutionResult → PipelineTrace
cycle_trace p result = record {
  cycle = p.core.cycle;
  fetched_pc = p.fetched_pc;
  decode_pc = map_pc (λ payload. payload.pc) p.core.latches.if_id;
  execute_pc = map_pc (λ payload. payload.decoded.pc) p.core.latches.id_ex;
  memory_pc = map_pc (λ payload. payload.decoded.pc) p.core.latches.ex_mem;
  writeback_pc = map_pc (λ payload. payload.decoded.pc) p.core.latches.mem_wb;
  commit = p.commit;
  trap = result.trap;
  flush_reason = p.flush_reason;
  retired_instructions = p.retired_instructions;
  predicted_taken = p.predicted_taken;
  fetch_stalled = p.fetch_stalled;
  decode_stalled = p.decode_stalled;
  flushed = p.flushed;
  note = p.note;
}

abbrev pub Cycled : Type 0 → Type 0
Cycled S = S × PipelineCore × Completion (Result CpuError CpuCycle)

-- The end of the cycle, after its last stage.
unfoldable pub finish : Progress → PipelineCore
finish p =
    let result = cycle_result p in
    record (p.core) {
      state = record (p.core.state) { csrs = increment_instret p.core.state.csrs result.retired };
      stats = cycle_stats p result;
      front_end_pc = p.next_front_end_pc;
      translation_barrier = p.translation_barrier;
      latches = p.next;
      last_commit = p.commit;
      last_result = result;
      last_trace = cycle_trace p result;
    }

unfoldable pub finish_cycle : {S : Type 0} → Staged S → Cycled S
finish_cycle (s, p, done (ok _)) = (
  s,
  finish p,
  done (
      ok (record {
        retired_instructions = (cycle_result p).retired;
        stalled = p.fetch_stalled || p.decode_stalled;
      })),
)
finish_cycle (s, p, done (err e)) = (s, p.core, done (err (CpuError.bus e)))
finish_cycle (s, p, panicked) = (s, p.core, panicked)
finish_cycle (s, p, out_of_fuel) = (s, p.core, out_of_fuel)

abbrev idle_cycle : {S : Type 0} → S → PipelineCore → Cycled S
idle_cycle s c = (s, c, done (ok (record { retired_instructions = 0; stalled = true })))

-- A cycle of a halted core, with the interrupt that wakes it.
unfoldable pub halted_cycle : {S : Type 0} → S → PipelineCore → Option Interrupt → Cycled S
halted_cycle s c none = idle_cycle s (record c {
  stats = record (c.stats) { fetch_stall_cycles = u64 (c.stats.fetch_stall_cycles + 1) };
  last_commit = none;
  last_result = no_result;
  last_trace = record no_trace { cycle = c.cycle; note = "halted"; fetch_stalled = true };
})
halted_cycle s c (some i) =
    let (h, result) = apply_trap c.state (interrupt i) c.state.pc in
    idle_cycle s (record c {
      state = h;
      stats = record (c.stats) {
        flush_cycles = u64 (c.stats.flush_cycles + 1);
        trap_flushes = u64 (c.stats.trap_flushes + 1);
        trap_count = u64 (c.stats.trap_count + 1);
      };
      front_end_pc = h.pc;
      latches = Latches.default;
      last_commit = none;
      last_result = result;
      last_trace = record no_trace {
        cycle = c.cycle;
        trap = result.trap;
        flush_reason = some FlushReason.trap;
        fetch_stalled = true;
        flushed = true;
        note = "interrupt";
      };
    })

abbrev timed : CsrFile → Option ℕ → CsrFile
timed csrs none = increment_time csrs
timed csrs (some time) = set_time csrs time

module _ {S : Type 0} (bus : Bus S) where
  unfoldable pub begin_cycle : PipelineCore → S → PipelineCore
  begin_cycle c s =
      let csrs = timed (increment_cycle c.state.csrs) (bus.machine_time s) in
      record c {
        cycle = u64 (c.cycle + 1);
        stats = record (c.stats) { cycles = u64 (c.stats.cycles + 1) };
        state = record (c.state) { csrs = sync_interrupts csrs (bus.pending_interrupts s) };
      }

  -- The five stages, from the last one back.
  unfoldable pub run_stages : PipelineCore → S → Staged S
  run_stages c s = then_stage (fetch_stage bus) (
      then_stage (λ s' p. on s' (decode_stage p))
        (then_stage execute_stage (
          memory_stage bus s
            (interrupt_stage bus s (write_back_stage (start c) c.latches.mem_wb)))))

  unfoldable pub awake_cycle : PipelineCore → S → Cycled S
  awake_cycle c s =
      if c.state.halted
      then halted_cycle s c
          (if not (bus.is_busy s) then pending_interrupt c.state.csrs c.state.privilege else none)
      else finish_cycle (run_stages c s)

  unfoldable pub step_cycle : PipelineCore → S → Cycled S
  step_cycle c s = awake_cycle (begin_cycle c s) s
