-- ===== src/Cpu/Pipeline/Core.antt =====
-- core/pipeline.rs: the state of the core, with the records of trace.rs, and its helpers.
use Prim.Native.String.{String}
use rust_computer.Base.{
  ℕ, Bool, true, false, ◌&&◌, ◌||◌, ◌==◌, if◌then◌else◌, Option, none, some, unwrap_or,
}
use rust_computer.Cpu.Exec.CsrOps.{CsrWrite}
use rust_computer.Cpu.Exec.Effects.{ExecutionResult}
use rust_computer.Cpu.Hart
use rust_computer.Cpu.Hart.{HartState}
use rust_computer.Cpu.Mmu.Tlb
use rust_computer.Cpu.Mmu.Types
use rust_computer.Cpu.Mmu.Types.{PageWalker}
use rust_computer.Cpu.Pipeline.Execute.{writes_back}
use rust_computer.Cpu.Pipeline.Latches
use rust_computer.Cpu.Pipeline.Latches.{IdExPayload, ExMemPayload, MemWbPayload, PipelineLatches}
use rust_computer.Cpu.Pipeline.Writeback.{CommitEvent}
use rust_computer.Cpu.Predictor
use rust_computer.Cpu.Predictor.{BimodalPredictor}
use rust_computer.Isa.Csr.{CsrAddress, code}
use rust_computer.Isa.Decode.{DecodedInstruction}
use rust_computer.Isa.Exception.{Trap}
use rust_computer.Isa.Opcode.{InstructionKind, sfence_vma, mret, sret}

pub data FlushReason : Type 0 where
  branch_redirect trap return_from_trap translation_barrier : FlushReason

pub record PipelineStats : Type 0 where
  pub cycles : ℕ
  pub retired_instructions : ℕ
  pub fetch_stall_cycles : ℕ
  pub decode_stall_cycles : ℕ
  pub flush_cycles : ℕ
  pub branch_flushes : ℕ
  pub trap_flushes : ℕ
  pub return_flushes : ℕ
  pub translation_barrier_flushes : ℕ
  pub predicted_taken_fetches : ℕ
  pub trap_count : ℕ

abbrev pub no_stats : PipelineStats
no_stats = record {
  cycles = 0;
  retired_instructions = 0;
  fetch_stall_cycles = 0;
  decode_stall_cycles = 0;
  flush_cycles = 0;
  branch_flushes = 0;
  trap_flushes = 0;
  return_flushes = 0;
  translation_barrier_flushes = 0;
  predicted_taken_fetches = 0;
  trap_count = 0;
}

pub record PipelineTrace : Type 0 where
  pub cycle : ℕ
  pub fetched_pc : Option ℕ
  pub decode_pc : Option ℕ
  pub execute_pc : Option ℕ
  pub memory_pc : Option ℕ
  pub writeback_pc : Option ℕ
  pub commit : Option CommitEvent
  pub trap : Option Trap
  pub flush_reason : Option FlushReason
  pub retired_instructions : ℕ
  pub predicted_taken : Bool
  pub fetch_stalled : Bool
  pub decode_stalled : Bool
  pub flushed : Bool
  pub note : String

abbrev pub no_trace : PipelineTrace
no_trace = record {
  cycle = 0;
  fetched_pc = none;
  decode_pc = none;
  execute_pc = none;
  memory_pc = none;
  writeback_pc = none;
  commit = none;
  trap = none;
  flush_reason = none;
  retired_instructions = 0;
  predicted_taken = false;
  fetch_stalled = false;
  decode_stalled = false;
  flushed = false;
  note = "";
}

abbrev pub no_result : ExecutionResult
no_result = record { retired = 0; trap = none; memory_access = false }

-- `structural_hazards` is its one field, `unified_memory`.
pub record PipelineCore : Type 0 where
  pub reset_vector : ℕ
  pub cycle : ℕ
  pub front_end_pc : ℕ
  pub state : HartState
  pub page_walker : PageWalker
  pub translation_barrier : Bool
  pub predictor : BimodalPredictor
  pub latches : PipelineLatches
  pub unified_memory : Bool
  pub last_commit : Option CommitEvent
  pub last_trace : PipelineTrace
  pub last_result : ExecutionResult
  pub stats : PipelineStats

-- `BimodalPredictor::default` has 64 entries.
unfoldable pub new : ℕ → PipelineCore
new reset_vector = record {
  reset_vector = reset_vector;
  cycle = 0;
  front_end_pc = reset_vector;
  state = Hart.new reset_vector;
  page_walker = Types.default;
  translation_barrier = false;
  predictor = Predictor.new 64;
  latches = Latches.default;
  unified_memory = true;
  last_commit = none;
  last_trace = no_trace;
  last_result = no_result;
  stats = no_stats;
}

-- The predictor keeps what it learnt.
unfoldable pub reset : PipelineCore → PipelineCore
reset c = record c {
  cycle = 0;
  front_end_pc = c.reset_vector;
  state = Hart.reset c.state c.reset_vector;
  page_walker = Tlb.reset c.page_walker;
  translation_barrier = false;
  latches = Latches.default;
  last_commit = none;
  last_trace = no_trace;
  last_result = no_result;
  stats = no_stats;
}

-- `decoded.rd == Some(source)`.
abbrev pub is_register : Option ℕ → ℕ → Bool
is_register none source = false
is_register (some rd) source = rd == source

abbrev pub from_mem_wb : ℕ → ℕ → Option MemWbPayload → ℕ
from_mem_wb source latched none = latched
from_mem_wb source latched (some p) =
    if is_register p.decoded.rd source then unwrap_or p.writeback_value latched else latched

abbrev pub from_ex_mem : ℕ → ℕ → Option ExMemPayload → ℕ
from_ex_mem source otherwise none = otherwise
from_ex_mem source otherwise (some p) =
    if is_register p.decoded.rd source && writes_back p.decoded
    then unwrap_or p.writeback_value otherwise
    else otherwise

-- `forwarded_operand`, which reads nothing of the core.
unfoldable pub forwarded_operand : Option ℕ → ℕ → Option ExMemPayload → Option MemWbPayload → ℕ
forwarded_operand none latched_value ex_mem mem_wb = latched_value
forwarded_operand (some source) latched_value ex_mem mem_wb =
    if source == 0 then 0 else from_ex_mem source (from_mem_wb source latched_value mem_wb) ex_mem

abbrev is_fence : InstructionKind → Bool
is_fence (InstructionKind.system sfence_vma) = true
is_fence _ = false

abbrev writes_satp : Option CsrWrite → Bool
writes_satp none = false
writes_satp (some w) = code w.address == code CsrAddress.satp

unfoldable pub is_translation_barrier_payload : DecodedInstruction → Option CsrWrite → Bool
is_translation_barrier_payload d csr_write = is_fence d.kind || writes_satp csr_write

abbrev pub is_xret : InstructionKind → Bool
is_xret (InstructionKind.system mret) = true
is_xret (InstructionKind.system sret) = true
is_xret _ = false

abbrev pub is_csr : InstructionKind → Bool
is_csr (InstructionKind.csr _) = true
is_csr _ = false

unfoldable pub requires_csr_serialization : DecodedInstruction → Bool
requires_csr_serialization d = is_csr d.kind || is_xret d.kind

abbrev pub map_or {ℓ} : {A : Type ℓ} → (A → Bool) → Option A → Bool
map_or f none = false
map_or f (some a) = f a

unfoldable pub has_in_flight_csr_instruction : PipelineLatches → Bool
has_in_flight_csr_instruction current =
    map_or (λ p. is_csr p.decoded.kind) current.id_ex
    || map_or (λ p. is_csr p.decoded.kind) current.ex_mem
    || map_or (λ p. is_csr p.decoded.kind) current.mem_wb
