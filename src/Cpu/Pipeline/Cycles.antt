-- ===== src/Cpu/Pipeline/Cycles.antt =====
-- core/pipeline.rs completes every cycle, from reset on, on any bus.
use rust_computer.Cpu.Pipeline.Stages.{fetch-Fetches}
use rust_computer.Cpu.Pipeline.Core.{PipelineCore}
use rust_computer.Cpu.Pipeline.Progress.{on}
use rust_computer.Cpu.Pipeline.BackEnd.{interrupt_stage, memory_stage}
use rust_computer.Cpu.Pipeline.FrontEnd.{decode_stage}
use rust_computer.Cpu.Pipeline.Sound.{
  IsHeld, IsSound, Sounds, start-IsSound, write_back_stage-IsSound, interrupt_taken-IsSound,
  memory_latched-Sounds, present,
}
use rust_computer.Cpu.Pipeline.Core.{new, reset}
use rust_computer.Cpu.Pipeline.Cycle.{
  Cycled, fetch_stage, progressing, begin_cycle, run_stages, awake_cycle, step_cycle,
}
use rust_computer.Bits.{u64}
use rust_computer.Base.{ℕ, ◌+◌, arith, not, ◌&&◌, ok, err, if◌then◌else◌, if_elim}
use rust_computer.Cpu.Hart.{HartState}
use rust_computer.Cpu.Mmu.Types.{
  MemoryAccess, TranslationResult, TranslationFence, physical_address, fault, PageWalker,
  Completion, done, panicked, out_of_fuel,
}
use rust_computer.Cpu.Pipeline.Latches.{default}
use rust_computer.Cpu.Pipeline.Progress.{Progress}
use rust_computer.Cpu.Hart
use rust_computer.Cpu.Mmu.Tlb
use rust_computer.Cpu.Mmu.Types
use rust_computer.Cpu.Registers.Laws
use rust_computer.System.Bus.{Bus}
use rust_computer.Cpu.Pipeline.Safety.{
  execute_stage-Sounds, decode_stage-IsSound, fetch_done-Sounds, on-Sounds, then_stage-Sounds,
  cleared-IsSound, IsReady, Completes, finish_cycle-Completes, halted_cycle-Completes, both_if,
}

module _ {S : Type 0} (bus : Bus S) where
  fetch_stage-Sounds :
      (n m : ℕ) (s : S) (p : Progress) → IsSound n m p → Sounds n m (fetch_stage bus s p)
  unfolding fetch_stage
  fetch_stage-Sounds n m s p i =
      if_elim (Sounds n m) p.flushed (λ _. unfold Sounds in cleared-IsSound n m p i)
        (λ _.
          if_elim (Sounds n m)
            (not p.memory_wait
              && not p.decode_stalled
              && not p.fetch_stalled
              && not p.translation_barrier)
            (λ _. fetch_done-Sounds n m p _ _ i (fetch-Fetches bus _ _ _ _ _ s i.at_rest))
            (λ _.
              if_elim (Sounds n m) (p.fetch_stalled && progressing p) (λ _. unfold Sounds in i)
                (λ _. unfold Sounds in i)))

  run_stages-Sounds :
      (c : PipelineCore) (s : S)
      → IsReady c
      → Sounds c.cycle (present c.latches.mem_wb) (run_stages bus c s)
  unfolding run_stages memory_stage interrupt_stage
  run_stages-Sounds c s r =
      let n = c.cycle in
      let m = present c.latches.mem_wb in
      then_stage-Sounds n m _ _
        (then_stage-Sounds n m (λ s' p. on s' (decode_stage p)) _
          (then_stage-Sounds n m _ _
            (memory_latched-Sounds bus n m _ s _ (
              interrupt_taken-IsSound n m _ _ (
                write_back_stage-IsSound n _ c.latches.mem_wb
                  (start-IsSound c r.at_rest r.registers r.held))))
            (λ s' p i. execute_stage-Sounds n m s' p i))
          (λ s' p i. on-Sounds n m s' (decode_stage p) (decode_stage-IsSound n m p i)))
        (λ s' p i. fetch_stage-Sounds n m s' p i)

  -- On any bus, a cycle of a ready pipeline returns a cycle report and no error or panic; the core is
  -- ready again and its cycle count is one more, modulo 2 ^ 64. A core that is not halted retires
  -- exactly the instruction that the last latch held, if any, and a halted core retires none.
  pub step_cycle-Completes :
      (c : PipelineCore) (s : S)
      → IsReady c
      → Completes
          (u64 (c.cycle + 1))
          (if c.state.halted then 0 else present c.latches.mem_wb)
          (step_cycle bus c s)
  unfolding step_cycle awake_cycle begin_cycle
  step_cycle-Completes c s r =
      let begun = begin_cycle bus c s in
      let r' : IsReady begun = record {
        at_rest = r.at_rest;
        registers = r.registers;
        held = r.held;
      } in
      both_if (Completes (u64 (c.cycle + 1))) c.state.halted (halted_cycle-Completes s begun _ r')
        (finish_cycle-Completes (u64 (c.cycle + 1)) _ _ (run_stages-Sounds begun s r'))

  -- A core after reset and any number of cycles; between two cycles the machine may change the bus.
  pub data Reached : PipelineCore → Type 0 where
    started : (reset_vector : ℕ) → Reached (new reset_vector)
    restarted : {c : PipelineCore} → Reached c → Reached (reset c)
    cycled : {c : PipelineCore} (s : S) → Reached c → Reached ((step_cycle bus c s).1)

  reset-IsReady : (c : PipelineCore) → IsReady (reset c)
  unfolding reset Hart.reset Tlb.reset Types.default Tlb.is_global Tlb.all IsHeld default
  reset-IsReady c = record { at_rest = omega arith; registers = Laws.default-IsValid; held = tt }

  new-IsReady : (v : ℕ) → IsReady (new v)
  unfolding new Hart.new Types.default IsHeld default
  new-IsReady v = record { at_rest = omega arith; registers = Laws.default-IsValid; held = tt }

  Completes-IsReady : (n m : ℕ) (x : Cycled S) → Completes n m x → IsReady x.1
  unfolding Completes
  Completes-IsReady n m (s, c, done (ok cycle)) p = p.0
  Completes-IsReady n m (s, c, done (err e)) p = absurd p
  Completes-IsReady n m (s, c, panicked) p = absurd p
  Completes-IsReady n m (s, c, out_of_fuel) p = absurd p

  Reached-IsReady : (c : PipelineCore) → Reached c → IsReady c
  Reached-IsReady _ (started v) = new-IsReady v
  Reached-IsReady _ (restarted {c} r) = reset-IsReady c
  Reached-IsReady _ (cycled {c} s r) =
      Completes-IsReady _ _ (step_cycle bus c s) (step_cycle-Completes c s (Reached-IsReady c r))

  -- A pipeline that was made by `new` and has gone through any number of resets and of cycles on any
  -- states of the bus completes its next cycle: no error and no panic of a release build; the cycle
  -- count is one more, modulo 2 ^ 64, and the instructions retired are the one that the last latch
  -- held, if any and unless it is halted.
  pub step_cycle-Reached :
      (c : PipelineCore) (s : S)
      → Reached c
      → Completes
          (u64 (c.cycle + 1))
          (if c.state.halted then 0 else present c.latches.mem_wb)
          (step_cycle bus c s)
  step_cycle-Reached c s r = step_cycle-Completes c s (Reached-IsReady c r)
