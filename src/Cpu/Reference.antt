-- ===== src/Cpu/Reference.antt =====
-- crates/cpu/src/core/reference.rs: the core that retires at most one instruction a cycle.
pub mod Steps
use rust_computer.Base.{
  ℕ, ◌+◌, Bool, true, false, not, ◌&&◌, Option, none, some, Result, ok, err, is_some, ◌==◌,
  if◌then◌else◌,
}
use rust_computer.Bits.{u64}
use rust_computer.Cpu.CsrFile.Interrupts.{
  increment_cycle, set_time, increment_time, increment_instret, sync_interrupts, pending_interrupt,
}
use rust_computer.Cpu.CsrFile.{CsrFile}
use rust_computer.Cpu.Exec.Effects.{
  CpuError, ExecutionResult, Outcome, apply_trap, map_bus_error_to_trap,
}
use rust_computer.Cpu.Exec.{execute_decoded}
use rust_computer.Cpu.Hart.{HartState}
use rust_computer.Cpu.Hart
use rust_computer.Cpu.Mmu.Tlb
use rust_computer.Cpu.Mmu.Translate.{translate, Translated}
use rust_computer.Cpu.Mmu.Types.{
  MemoryAccess, physical_address, stall, fault, PageWalker, Completion, done, panicked, out_of_fuel,
}
use rust_computer.Cpu.Mmu.Types
use rust_computer.Isa.Decode.{DecodedInstruction, decode}
use rust_computer.Isa.Exception.{Trap, Interrupt, exception, interrupt, illegal_instruction}
use rust_computer.System.Bus.{Bus, BusError, busy}

pub record ReferenceCore : Type 0 where
  pub reset_vector : ℕ
  pub cycle : ℕ
  pub state : HartState
  pub page_walker : PageWalker
  pub pending_decoded : Option DecodedInstruction
  pub last_result : ExecutionResult

-- system/src/component.rs.
pub record CpuCycle : Type 0 where
  pub retired_instructions : ℕ
  pub stalled : Bool

abbrev no_result : ExecutionResult
no_result = record { retired = 0; trap = none; memory_access = false }

unfoldable pub new : ℕ → ReferenceCore
new reset_vector = record {
  reset_vector = reset_vector;
  cycle = 0;
  state = Hart.new reset_vector;
  page_walker = Types.default;
  pending_decoded = none;
  last_result = no_result;
}

unfoldable pub reset : ReferenceCore → ReferenceCore
reset c = record c {
  cycle = 0;
  state = Hart.reset c.state c.reset_vector;
  page_walker = Tlb.reset c.page_walker;
  pending_decoded = none;
  last_result = no_result;
}

abbrev Cycled : Type 0 → Type 0
Cycled S = S × ReferenceCore × Completion (Result CpuError CpuCycle)

abbrev idle_cycle : {S : Type 0} → S → ReferenceCore → Cycled S
idle_cycle s c = (s, c, done (ok (record { retired_instructions = 0; stalled = true })))

-- `self.last_result = apply_trap(..)` and the stalled cycle after it.
unfoldable pub trap_cycle : {S : Type 0} → S → ReferenceCore → Trap → ℕ → Cycled S
trap_cycle s c trap pc =
    let (h, result) = apply_trap c.state trap pc in
    idle_cycle s (record c { state = h; last_result = result })

-- The wait for a busy bus or an unfinished walk.
unfoldable pub wait_cycle : {S : Type 0} → S → ReferenceCore → Cycled S
wait_cycle s c =
    idle_cycle s
      (record c { last_result = record { retired = 0; trap = none; memory_access = true } })

abbrev set_csrs : ReferenceCore → CsrFile → ReferenceCore
set_csrs c csrs = record c { state = record (c.state) { csrs = csrs } }

abbrev timed : CsrFile → Option ℕ → CsrFile
timed csrs none = increment_time csrs
timed csrs (some time) = set_time csrs time

-- The instruction is kept where it neither retired nor trapped.
unfoldable pub finish_cycle :
    {S : Type 0} → ReferenceCore → DecodedInstruction → Outcome S → Cycled S
finish_cycle c d (s, w, h, done (ok result)) = (
  s,
  record c {
    state = record h { csrs = increment_instret h.csrs result.retired };
    page_walker = w;
    last_result = result;
    pending_decoded = if (result.retired == 0) && not (is_some result.trap) then some d else none;
  },
  done (ok (record { retired_instructions = result.retired; stalled = result.retired == 0 })),
)
finish_cycle c d (s, w, h, done (err e)) =
    (s, record c { state = h; page_walker = w }, done (err e))
finish_cycle c d (s, w, h, panicked) = (s, record c { state = h; page_walker = w }, panicked)
finish_cycle c d (s, w, h, out_of_fuel) = (s, record c { state = h; page_walker = w }, out_of_fuel)

module _ {S : Type 0} (bus : Bus S) where
  unfoldable pub execute_cycle : ReferenceCore → S → DecodedInstruction → Cycled S
  execute_cycle c s d = finish_cycle c d (execute_decoded bus c.state c.page_walker s d)

  unfoldable pub decoded_cycle : ReferenceCore → S → ℕ → ℕ → Result ℕ DecodedInstruction → Cycled S
  decoded_cycle c s raw pc (ok d) = execute_cycle c s d
  decoded_cycle c s raw pc (err _) = trap_cycle s c (exception (illegal_instruction raw)) pc

  unfoldable pub refused_cycle : ReferenceCore → S → ℕ → BusError → Option Trap → Cycled S
  refused_cycle c s pc e none = (s, c, done (err (CpuError.bus e)))
  refused_cycle c s pc e (some trap) = trap_cycle s c trap pc

  unfoldable pub fetched_cycle : ReferenceCore → ℕ → S × Result BusError ℕ → Cycled S
  fetched_cycle c pc (s, ok raw) = decoded_cycle c s raw pc (decode raw pc)
  fetched_cycle c pc (s, err (busy _)) = wait_cycle s c
  fetched_cycle c pc (s, err e) =
      refused_cycle c s pc e (map_bus_error_to_trap e pc MemoryAccess.instruction)

  unfoldable pub fetch_cycle : ReferenceCore → ℕ → Translated S → Cycled S
  fetch_cycle c pc (s, w, done (physical_address address)) =
      fetched_cycle (record c { page_walker = w }) pc (bus.fetch32 address s)
  fetch_cycle c pc (s, w, done stall) = wait_cycle s (record c { page_walker = w })
  fetch_cycle c pc (s, w, done (fault trap)) = trap_cycle s (record c { page_walker = w }) trap pc
  fetch_cycle c pc (s, w, panicked) = (s, record c { page_walker = w }, panicked)
  fetch_cycle c pc (s, w, out_of_fuel) = (s, record c { page_walker = w }, out_of_fuel)

  -- After the interrupt check and the check of `halted`.
  unfoldable pub run_cycle : ReferenceCore → S → Option DecodedInstruction → Cycled S
  run_cycle c s (some d) = execute_cycle c s d
  run_cycle c s none = fetch_cycle c c.state.pc (
      translate bus c.page_walker c.state.csrs c.state.privilege c.state.pc MemoryAccess.instruction
        s)

  -- After the counters and the pending bits are brought up to date.
  unfoldable pub guarded_cycle : ReferenceCore → S → Option Interrupt → Cycled S
  guarded_cycle c s (some i) = trap_cycle s c (interrupt i) c.state.pc
  guarded_cycle c s none =
      if c.state.halted then idle_cycle s c else run_cycle c s c.pending_decoded

  -- The interrupt that the cycle takes, if no instruction is pending and the bus is free.
  unfoldable pub taken_interrupt : ReferenceCore → S → Option Interrupt
  taken_interrupt c s =
      if not (is_some c.pending_decoded) && not (bus.is_busy s)
      then pending_interrupt c.state.csrs c.state.privilege
      else none

  unfoldable pub begin_cycle : ReferenceCore → S → ReferenceCore
  begin_cycle c s =
      let csrs = timed (increment_cycle c.state.csrs) (bus.machine_time s) in
      set_csrs (record c { cycle = u64 (c.cycle + 1) })
        (sync_interrupts csrs (bus.pending_interrupts s))

  unfoldable pub step_cycle : ReferenceCore → S → Cycled S
  step_cycle c s = let c' = begin_cycle c s in guarded_cycle c' s (taken_interrupt c' s)
