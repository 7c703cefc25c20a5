-- ===== src/Cpu/Pipeline/Fetch.antt =====
-- pipeline/if_stage.rs: the fetch stage, for any branch predictor. Its `sign_extend`, `imm_b` and
-- `imm_j` repeat those of the decoder, and are the same functions here.
use rust_computer.Base.{
  ℕ, ◌+◌, bit_and, true, false, ◌==◌, if◌then◌else◌, Option, none, some, Result, ok, err,
}
use rust_computer.Bits.{u32}
use rust_computer.Cpu.CsrFile.{CsrFile}
use rust_computer.Cpu.Exec.Effects.{map_bus_error_to_trap}
use rust_computer.Cpu.Mmu.Translate.{Translated, translate}
use rust_computer.Cpu.Mmu.Types.{
  MemoryAccess, TranslationResult, physical_address, fault, PageWalker, Completion, done, panicked,
  out_of_fuel,
}
use rust_computer.Cpu.Pipeline.Latches.{IfIdPayload}
use rust_computer.Cpu.Predictor.{BranchPrediction}
use rust_computer.Cpu.Privilege.{PrivilegeMode}
use rust_computer.Isa.Decode.{imm_b, imm_j}
use rust_computer.Isa.Exception.{Trap}
use rust_computer.System.Bus.{Bus, BusError, busy}

pub data FetchEvent : Type 0 where
  advance : IfIdPayload → FetchEvent
  stall : FetchEvent
  trap : Trap → FetchEvent

abbrev pub Fetched : Type 0 → Type 0
Fetched S = S × PageWalker × Completion (Result BusError FetchEvent)

-- `BranchPredictor::predict`: the address, the next one and the target.
abbrev pub Predict : Type 0
Predict = ℕ → ℕ → ℕ → BranchPrediction

unfoldable pub predict_from_raw : Predict → ℕ → ℕ → BranchPrediction
predict_from_raw predict pc raw =
    if bit_and raw 0x7f == 0x63
    then predict pc (u32 (pc + 4)) (u32 (pc + imm_b raw))
    else if bit_and raw 0x7f == 0x6f
    then record { taken = true; target = u32 (pc + imm_j raw) }
    else record { taken = false; target = u32 (pc + 4) }

abbrev predicted : ℕ → ℕ → BranchPrediction → FetchEvent
predicted pc raw prediction = FetchEvent.advance (record {
  pc = pc;
  raw = raw;
  predicted_pc = prediction.target;
  predicted_taken = prediction.taken;
})

unfoldable pub trap_or : BusError → Option Trap → Result BusError FetchEvent
trap_or e none = err e
trap_or e (some t) = ok (FetchEvent.trap t)

unfoldable pub fetch_failed : BusError → ℕ → Result BusError FetchEvent
fetch_failed (busy _) pc = ok FetchEvent.stall
fetch_failed e pc = trap_or e (map_bus_error_to_trap e pc MemoryAccess.instruction)

unfoldable pub fetched : {S : Type 0} → Predict → ℕ → PageWalker → S × Result BusError ℕ → Fetched S
fetched predict pc w (s, ok raw) =
    (s, w, done (ok (predicted pc raw (predict_from_raw predict pc raw))))
fetched predict pc w (s, err e) = (s, w, done (fetch_failed e pc))

module _ {S : Type 0} (bus : Bus S) where
  unfoldable pub fetch_at : Predict → ℕ → Translated S → Fetched S
  fetch_at predict pc (s, w, done (physical_address address)) =
      fetched predict pc w (bus.fetch32 address s)
  fetch_at predict pc (s, w, done TranslationResult.stall) = (s, w, done (ok FetchEvent.stall))
  fetch_at predict pc (s, w, done (fault t)) = (s, w, done (ok (FetchEvent.trap t)))
  fetch_at predict pc (s, w, panicked) = (s, w, panicked)
  fetch_at predict pc (s, w, out_of_fuel) = (s, w, out_of_fuel)

  unfoldable pub fetch : PageWalker → CsrFile → PrivilegeMode → ℕ → Predict → S → Fetched S
  fetch w csrs privilege pc predict s =
      fetch_at predict pc (translate bus w csrs privilege pc MemoryAccess.instruction s)
