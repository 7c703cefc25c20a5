-- ===== src/Examples/Units.antt =====
-- The register file, the ALU, the predictor and the interrupt controller on concrete values.
use rust_computer.Base.{refl, false, some, ◌≡◌, ◌≢◌, arith, true, not, ◌&&◌, ◌==◌, if◌then◌else◌}
use rust_computer.Cpu.Alu.Signed.{branch_taken-opposite, opposite}
use rust_computer.Cpu.Branch.{branch_taken}
use rust_computer.Cpu.Exec.Effects.{register_value, write_rd}
use rust_computer.Cpu.Hart
use rust_computer.Cpu.Hart.{HartState}
use rust_computer.Cpu.Hazard.Independence.{detect_raw_hazard-independent}
use rust_computer.Cpu.Hazard.{detect_raw_hazard}
use rust_computer.Cpu.Registers.Laws
use rust_computer.Cpu.Predictor
use rust_computer.Cpu.Predictor.Training
use rust_computer.Cpu.Predictor.Training.{new-IsValid, update-IsValid, predict-update-update}
use rust_computer.Cpu.Predictor.{predict, update}
use rust_computer.Cpu.Registers
use rust_computer.Cpu.Registers.Laws.{default-IsValid, read-write}
use rust_computer.Devices.InterruptController
use rust_computer.Devices.InterruptController.Claims.{Claims, claim_next-Claims}
use rust_computer.Devices.InterruptController.Disjoint
use rust_computer.Devices.InterruptController.Disjoint.{
  reset-IsValid, store8-IsValid, load8-IsValid,
}
use rust_computer.Devices.InterruptController.{claim_next, enabled_pending, store8, load8}
use rust_computer.Isa.Opcode.{blt}

read-write_example :
    Registers.read (Registers.write Registers.default 5 7) 5
    ≡ (if (5 == 5) && not (5 == 0) then 7 else Registers.read Registers.default 5)
read-write_example = read-write Registers.default 5 5 7 default-IsValid (omega arith)

branch_taken-opposite_example :
    branch_taken (opposite blt) 0xffff_ffff 1 ≡ not (branch_taken blt 0xffff_ffff 1)
branch_taken-opposite_example = branch_taken-opposite blt 0xffff_ffff 1

update-IsValid_example : Training.IsValid (update (Predictor.new 16) 0x8000_0004 true)
update-IsValid_example = update-IsValid (Predictor.new 16) 0x8000_0004 true (new-IsValid 16)

predict-update-update_example :
    predict (update (update (Predictor.new 16) 0x40 true) 0x40 true) 0x40 0x44 0x20
    ≡ record { taken = true; target = if true then 0x20 else 0x44 }
predict-update-update_example =
    predict-update-update (Predictor.new 16) 0x40 0x44 0x20 true (new-IsValid 16)

-- Sources 3 and 6 wait, and both are enabled.
abbrev waiting : InterruptController.InterruptController
waiting = record (InterruptController.new 0x0c00_0000) { pending = 0x24; enable = 0xff }

waiting-nonzero : enabled_pending waiting ≢ 0
unfolding enabled_pending InterruptController.new
waiting-nonzero e = omega (arith, e)

claim_next-Claims_example : Claims waiting (claim_next waiting).0 (claim_next waiting).1
claim_next-Claims_example = claim_next-Claims waiting (omega arith) waiting-nonzero

store8-IsValid_example :
    Disjoint.IsValid (store8 0x0c00_0008 0xff (InterruptController.reset waiting)).0
store8-IsValid_example =
    store8-IsValid 0x0c00_0008 0xff (InterruptController.reset waiting) (reset-IsValid waiting)

-- Source 3 is pending and enabled, by two stores.
abbrev stocked : InterruptController.InterruptController
stocked = (store8 0x0c00_0004 0xff (store8 0x0c00_0008 0x4 (InterruptController.reset waiting)).0).0

stocked-IsValid : Disjoint.IsValid stocked
stocked-IsValid =
    store8-IsValid 0x0c00_0004 0xff (store8 0x0c00_0008 0x4 (InterruptController.reset waiting)).0
      (store8-IsValid 0x0c00_0008 0x4 (InterruptController.reset waiting) (reset-IsValid waiting))

load8-IsValid_example : Disjoint.IsValid (load8 0x0c00_000c stocked).0
load8-IsValid_example = load8-IsValid 0x0c00_000c stocked stocked-IsValid

abbrev hart : HartState
hart = Hart.new 0x8000_0000

hart-IsValid : Laws.IsValid hart.registers
unfolding Hart.new
hart-IsValid = default-IsValid

-- The producer writes x5; the consumer reads x6 and x7.
no_hazard : detect_raw_hazard (some 5) (some 6) (some 7) ≡ false
unfolding detect_raw_hazard
no_hazard = refl

detect_raw_hazard-independent_example :
    (register_value (write_rd hart (some 5) 9) (some 6) ≡ register_value hart (some 6))
    × (register_value (write_rd hart (some 5) 9) (some 7) ≡ register_value hart (some 7))
detect_raw_hazard-independent_example =
    detect_raw_hazard-independent hart 5 9 (some 6) (some 7) hart-IsValid (omega arith) no_hazard
