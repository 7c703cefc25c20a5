-- ===== src/Cpu/Pipeline/Progress.antt =====
-- core/pipeline.rs: the local variables of `step_cycle` as the record `Progress`; each part of the
-- cycle is a function from one record to the next.
use Prim.Native.String.{String}
use rust_computer.Base.{ℕ, Bool, true, false, Option, none, some, Result, ok, err}
use rust_computer.Cpu.CsrFile.Interrupts.{}
use rust_computer.Cpu.Exec.Effects.{ExecutionResult, apply_trap}
use rust_computer.Cpu.Mmu.Types.{Completion, done, panicked, out_of_fuel}
use rust_computer.Cpu.Pipeline.Core.{PipelineCore, FlushReason}
use rust_computer.Cpu.Pipeline.Latches
use rust_computer.Cpu.Pipeline.Latches.{
  IfIdPayload, IdExPayload, ExMemPayload, MemWbPayload, PipelineLatches,
}
use rust_computer.Cpu.Pipeline.Writeback.{CommitEvent}
use rust_computer.Isa.Exception.{Trap}
use rust_computer.System.Bus.{BusError}

-- `core` is `self` with what the cycle has changed so far; its latches are `current`.
pub record Progress : Type 0 where
  pub core : PipelineCore
  pub next : PipelineLatches
  pub next_front_end_pc : ℕ
  pub retired_instructions : ℕ
  pub fetch_stalled : Bool
  pub decode_stalled : Bool
  pub flushed : Bool
  pub note : String
  pub fetched_pc : Option ℕ
  pub predicted_taken : Bool
  pub trap_result : Option ExecutionResult
  pub commit : Option CommitEvent
  pub flush_reason : Option FlushReason
  pub memory_wait : Bool
  pub translation_barrier : Bool

unfoldable pub start : PipelineCore → Progress
start c = record {
  core = c;
  next = Latches.default;
  next_front_end_pc = c.front_end_pc;
  retired_instructions = 0;
  fetch_stalled = false;
  decode_stalled = false;
  flushed = false;
  note = "progress";
  fetched_pc = none;
  predicted_taken = false;
  trap_result = none;
  commit = none;
  flush_reason = none;
  memory_wait = false;
  translation_barrier = c.translation_barrier;
}

-- A trap taken in the cycle, with the note of the stage that takes it.
unfoldable pub take_trap : Progress → Trap → ℕ → String → Progress
take_trap p trap pc note =
    let (h, result) = apply_trap p.core.state trap pc in
    record p {
      core = record (p.core) { state = h };
      trap_result = some result;
      next_front_end_pc = h.pc;
      flushed = true;
      flush_reason = some FlushReason.trap;
      note = note;
    }

-- A stage that may end the cycle: `?` on a bus error, or a panic.
abbrev pub Staged : Type 0 → Type 0
Staged S = S × Progress × Completion (Result BusError (Unit {0}))

abbrev pub on : {S : Type 0} → S → Progress → Staged S
on s p = (s, p, done (ok tt))

abbrev pub then_stage : {S : Type 0} → (S → Progress → Staged S) → Staged S → Staged S
then_stage next (s, p, done (ok _)) = next s p
then_stage next (s, p, done (err e)) = (s, p, done (err e))
then_stage next (s, p, panicked) = (s, p, panicked)
then_stage next (s, p, out_of_fuel) = (s, p, out_of_fuel)
