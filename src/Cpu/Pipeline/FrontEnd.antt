-- ===== src/Cpu/Pipeline/FrontEnd.antt =====
-- core/pipeline.rs, lines 305 to 452: the execute and the decode stage.
use Prim.Native.String.{String}
use rust_computer.Base.{
  ℕ, ◌+◌, Bool, true, false, not, ◌&&◌, ◌||◌, ◌==◌, if◌then◌else◌, Option, none, some, is_some,
  unwrap_or, Result, ok, err,
}
use rust_computer.Bits.{u32}
use rust_computer.Cpu.CsrFile.Interrupts.{}
use rust_computer.Cpu.Hazard.{detect_branch_flush, detect_raw_hazard}
use rust_computer.Cpu.Mmu.Types.{Completion, done, panicked, out_of_fuel}
use rust_computer.Cpu.Pipeline.Core.{
  PipelineCore, FlushReason, forwarded_operand, is_translation_barrier_payload, is_xret,
  requires_csr_serialization, has_in_flight_csr_instruction,
}
use rust_computer.Cpu.Pipeline.Execute.{ExecuteOutcome, ExecuteEvent, execute, is_load}
use rust_computer.Cpu.Pipeline.Latches.{IfIdPayload, IdExPayload, ExMemPayload, PipelineLatches}
use rust_computer.Cpu.Predictor.{update}
use rust_computer.Cpu.Registers.{read}
use rust_computer.Isa.Decode.{DecodedInstruction, decode}
use rust_computer.Isa.Exception.{exception, illegal_instruction}
use rust_computer.Isa.Opcode.{InstructionKind}
use rust_computer.Cpu.Pipeline.Progress.{Progress, take_trap, Staged, on}

-- Why the front end restarts after an instruction that went elsewhere than predicted.
abbrev redirect_reason : InstructionKind → FlushReason
redirect_reason kind =
    if is_xret kind then FlushReason.return_from_trap else FlushReason.branch_redirect

abbrev redirect_note : InstructionKind → String
redirect_note kind = if is_xret kind then "xret" else "branch flush"

unfoldable pub redirect : Progress → DecodedInstruction → ExecuteOutcome → ℕ → Progress
redirect p d outcome predicted_pc =
    if is_translation_barrier_payload d outcome.csr_write
    then record p {
      flushed = true;
      next_front_end_pc = outcome.next_pc;
      translation_barrier = true;
      flush_reason = some FlushReason.translation_barrier;
      note = "translation barrier";
    }
    else if detect_branch_flush predicted_pc outcome.next_pc
    then record p {
      flushed = true;
      next_front_end_pc = outcome.next_pc;
      flush_reason = some (redirect_reason d.kind);
      note = redirect_note d.kind;
    }
    else p

abbrev is_branch : InstructionKind → Bool
is_branch (InstructionKind.branch _) = true
is_branch _ = false

-- A branch teaches the predictor whether it left the straight line.
unfoldable pub train : PipelineCore → DecodedInstruction → ExecuteOutcome → PipelineCore
train c d outcome =
    if is_branch d.kind
    then record c { predictor = update c.predictor d.pc (not (outcome.next_pc == u32 (d.pc + 4))) }
    else c

abbrev pub ex_mem_payload : DecodedInstruction → ExecuteOutcome → ExMemPayload
ex_mem_payload d outcome = record {
  decoded = d;
  writeback_value = outcome.writeback_value;
  csr_write = outcome.csr_write;
  translation_fence = outcome.translation_fence;
  memory_address = outcome.memory_address;
  store_value = outcome.store_value;
  next_pc = outcome.next_pc;
}

unfoldable pub execute_event : Progress → IdExPayload → ExecuteEvent → Progress
execute_event p payload (ExecuteEvent.advance outcome) =
    let trained = record p { core = train p.core payload.decoded outcome } in
    let p' = redirect trained payload.decoded outcome payload.predicted_pc in
    record p' { next = record (p'.next) { ex_mem = some (ex_mem_payload payload.decoded outcome) } }
execute_event p payload (ExecuteEvent.trap trap) =
    take_trap p trap payload.decoded.pc "execute trap"

unfoldable pub executed :
    {S : Type 0} → S → Progress → IdExPayload → Completion ExecuteEvent → Staged S
executed s p payload (done event) = on s (execute_event p payload event)
executed s p payload panicked = (s, p, panicked)
executed s p payload out_of_fuel = (s, p, out_of_fuel)

abbrev pub forwarded : PipelineLatches → Option ℕ → ℕ → ℕ
forwarded current source latched_value =
    forwarded_operand source latched_value current.ex_mem current.mem_wb

unfoldable pub execute_payload : {S : Type 0} → S → Progress → Option IdExPayload → Staged S
execute_payload s p none = on s p
execute_payload s p (some payload) = executed s p payload (
    execute payload.decoded (forwarded p.core.latches payload.decoded.rs1 payload.rs1_value)
      (forwarded p.core.latches payload.decoded.rs2 payload.rs2_value) p.core.state.privilege
      p.core.state.csrs)

unfoldable pub execute_stage : {S : Type 0} → S → Progress → Staged S
execute_stage s p =
    if not p.flushed && not p.memory_wait && not p.translation_barrier
    then execute_payload s p p.core.latches.id_ex
    else on s p

-- `load_use_hazard.stall`: the instruction before is a load that writes an operand.
abbrev pub load_use_hazard : Option IdExPayload → DecodedInstruction → Bool
load_use_hazard none d = false
load_use_hazard (some producer) d =
    if is_load producer.decoded then detect_raw_hazard producer.decoded.rd d.rs1 d.rs2 else false

unfoldable pub decode_payload : Progress → IfIdPayload → Result ℕ DecodedInstruction → Progress
decode_payload p payload (ok d) =
    let current = p.core.latches in
    let csr_hazard = requires_csr_serialization d && has_in_flight_csr_instruction current in
    if load_use_hazard current.id_ex d || csr_hazard
    then record p {
      decode_stalled = true;
      next = record (p.next) { if_id = some payload };
      note = if csr_hazard then "csr stall" else "load-use stall";
    }
    else record p {
      next = record (p.next) {
        id_ex = some (record {
          decoded = d;
          rs1_value = read p.core.state.registers (unwrap_or d.rs1 0);
          rs2_value = read p.core.state.registers (unwrap_or d.rs2 0);
          predicted_pc = payload.predicted_pc;
          predicted_taken = payload.predicted_taken;
        });
      };
    }
decode_payload p payload (err _) =
    take_trap p (exception (illegal_instruction payload.raw)) payload.pc "illegal instruction"

unfoldable pub decode_latched : Progress → Option IfIdPayload → Progress
decode_latched p none = p
decode_latched p (some payload) = decode_payload p payload (decode payload.raw payload.pc)

unfoldable pub decode_stage : Progress → Progress
decode_stage p =
    if not p.flushed && not p.memory_wait && not p.translation_barrier
    then decode_latched p p.core.latches.if_id
    else if not p.flushed && not p.memory_wait && p.translation_barrier
    then record p {
      fetch_stalled = true;
      decode_stalled = is_some p.core.latches.if_id;
      next = record (p.next) { if_id = p.core.latches.if_id; id_ex = p.core.latches.id_ex };
      note = "translation barrier";
    }
    else p
