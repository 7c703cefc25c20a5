-- ===== src/Cpu/Hazard/Independence.antt =====
-- An instruction that the data hazard test lets pass reads what it would have read before the
-- producer wrote its register.
use rust_computer.Base.{ℕ, ◌<◌, ◌≡◌, refl, arith, false, not, ◌&&◌, ◌==◌, Option, none, some, ◌∙◌}
use rust_computer.Cpu.Exec.Effects.{register_value, write_rd}
use rust_computer.Cpu.Hart.{HartState}
use rust_computer.Cpu.Hazard.{reads, detect_raw_hazard}
use rust_computer.Cpu.Registers.Laws
use rust_computer.Cpu.Registers.Laws.{read-write}

operand-independent :
    (h : HartState) (producer v : ℕ) (operand : Option ℕ)
    → Laws.IsValid h.registers
    → producer < 32
    → (not (producer == 0) && reads operand producer) ≡ false
    → register_value (write_rd h (some producer) v) operand ≡ register_value h operand
unfolding register_value write_rd
operand-independent h producer v none valid b e = refl
operand-independent h producer v (some r) valid b e =
    read-write h.registers producer r v valid b ∙ ground (arith, e)

-- Where the data hazard test finds none, the write of the producer does not change the operands that
-- the consumer reads, in a valid register file and for a producer below 32.
pub detect_raw_hazard-independent :
    (h : HartState) (producer v : ℕ) (rs1 rs2 : Option ℕ)
    → Laws.IsValid h.registers
    → producer < 32
    → detect_raw_hazard (some producer) rs1 rs2 ≡ false
    → (register_value (write_rd h (some producer) v) rs1 ≡ register_value h rs1)
      × (register_value (write_rd h (some producer) v) rs2 ≡ register_value h rs2)
unfolding detect_raw_hazard
detect_raw_hazard-independent h producer v rs1 rs2 valid b e = (
  operand-independent h producer v rs1 valid b (ground (arith, e)),
  operand-independent h producer v rs2 valid b (ground (arith, e)),
)
