-- ===== src/Examples/Pipelines.antt =====
-- The pipeline on the byte memory of the other core's examples.
use rust_computer.Base.{◌+◌, ◌≡◌, refl, arith, some, none, if◌then◌else◌}
use rust_computer.Bits.{u64}
use rust_computer.Cpu.Exec.Effects.{register_value}
use rust_computer.Cpu.Exec.{execute_decoded}
use rust_computer.Cpu.Hart
use rust_computer.Cpu.Mmu.Types
use rust_computer.Cpu.Pipeline.Core.{new, forwarded_operand}
use rust_computer.Cpu.Pipeline.Cycle.{step_cycle}
use rust_computer.Cpu.Pipeline.Cycles.{started, cycled, step_cycle-Reached}
use rust_computer.Cpu.Pipeline.Forwarding.{
  settled, IsProduced, IsTargeted, forwarded_operand-settled,
}
use rust_computer.Cpu.Pipeline.Latches.{ExMemPayload, MemWbPayload}
use rust_computer.Cpu.Pipeline.Refinement.{run_alone, run_alone-execute_decoded}
use rust_computer.Cpu.Pipeline.Safety.{Completes}
use rust_computer.Cpu.Pipeline.Sound.{present}
use rust_computer.Cpu.Registers.Laws
use rust_computer.Examples.Cores.{memory_bus, program, addi}
use rust_computer.Isa.Decode.Fields.{IsRegister}

run_alone-execute_decoded_example :
    run_alone memory_bus (Hart.new 0x8000_0000) Types.default program addi
    ≡ execute_decoded memory_bus (Hart.new 0x8000_0000) Types.default program addi
run_alone-execute_decoded_example =
    run_alone-execute_decoded memory_bus (Hart.new 0x8000_0000) Types.default program addi

step_cycle-Reached_example :
    Completes
      (u64 ((step_cycle memory_bus (new 0x8000_0000) program).1.cycle + 1))
      (if (step_cycle memory_bus (new 0x8000_0000) program).1.state.halted
        then 0
        else present (step_cycle memory_bus (new 0x8000_0000) program).1.latches.mem_wb)
      (step_cycle memory_bus (step_cycle memory_bus (new 0x8000_0000) program).1 program)
step_cycle-Reached_example =
    step_cycle-Reached memory_bus (step_cycle memory_bus (new 0x8000_0000) program).1 program
      (cycled program (started 0x8000_0000))

-- `addi x1, x0, 5` between memory and write back, and behind it.
abbrev younger : ExMemPayload
younger = record {
  decoded = addi;
  writeback_value = some 5;
  csr_write = none;
  translation_fence = none;
  memory_address = none;
  store_value = 0;
  next_pc = 0x8000_0004;
}

abbrev older : MemWbPayload
older = record {
  decoded = addi;
  writeback_value = some 4;
  csr_write = none;
  translation_fence = none;
  next_pc = 0x8000_0004;
}

abbrev idle_hart : Hart.HartState
idle_hart = Hart.new 0x8000_0000

younger-IsProduced : IsProduced (some younger)
unfolding IsProduced IsRegister
younger-IsProduced = (omega arith, λ v e. refl)

older-IsTargeted : IsTargeted (some older)
unfolding IsTargeted IsRegister
older-IsTargeted = omega arith

idle-IsValid : Laws.IsValid idle_hart.registers
unfolding Hart.new
idle-IsValid = Laws.default-IsValid

forwarded_operand-settled_example :
    forwarded_operand (some 1) (register_value idle_hart (some 1)) (some younger) (some older)
    ≡ register_value (settled idle_hart (some older) (some younger)) (some 1)
forwarded_operand-settled_example =
    forwarded_operand-settled idle_hart (some 1) (some younger) (some older) idle-IsValid
      younger-IsProduced older-IsTargeted
