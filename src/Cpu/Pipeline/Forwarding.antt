-- ===== src/Cpu/Pipeline/Forwarding.antt =====
-- core/pipeline.rs: the forwarded operands of the execute stage against the registers that the
-- instructions ahead in the pipeline are about to write.
use rust_computer.Base.{
  ℕ, ◌≡◌, refl, arith, true, false, ◌&&◌, ◌==◌, Option, none, some, unwrap_or, if◌then◌else◌, sym,
  ◌∙◌, ap, inl, inr, Bool-cases,
}
use rust_computer.Cpu.Exec.Effects.{write_rd, register_value}
use rust_computer.Cpu.Exec.Sound.{write_rd-IsValid}
use rust_computer.Cpu.Hart.{HartState}
use rust_computer.Cpu.Pipeline.Core.{forwarded_operand, from_mem_wb, from_ex_mem, is_register}
use rust_computer.Cpu.Pipeline.Execute.{writes_back, is_writing_kind, is_written_register}
use rust_computer.Cpu.Pipeline.Latches.{ExMemPayload, MemWbPayload}
use rust_computer.Cpu.Pipeline.Writeback.{write_value}
use rust_computer.Cpu.Registers.Laws
use rust_computer.Cpu.Registers.Laws.{read-write}
use rust_computer.Cpu.Registers.{RegisterFile, read}
use rust_computer.Isa.Decode.Fields.{IsRegister}
use rust_computer.Isa.Opcode.{InstructionKind}

-- The registers once both latched instructions have written theirs, the older one first.
abbrev pub settle_mem_wb : HartState → Option MemWbPayload → HartState
settle_mem_wb h none = h
settle_mem_wb h (some q) = write_value h q.decoded.rd q.writeback_value

abbrev pub settle_ex_mem : HartState → Option ExMemPayload → HartState
settle_ex_mem h none = h
settle_ex_mem h (some p) = write_value h p.decoded.rd p.writeback_value

unfoldable pub settled : HartState → Option MemWbPayload → Option ExMemPayload → HartState
settled h q p = settle_ex_mem (settle_mem_wb h q) p

-- The destinations are registers, and only an instruction that writes one carries a value.
unfoldable pub IsProduced : Option ExMemPayload → Type 0
IsProduced none = Unit
IsProduced (some p) =
    IsRegister p.decoded.rd
    × ((v : ℕ) → p.writeback_value ≡ some v → is_writing_kind p.decoded.kind ≡ true)

unfoldable pub IsTargeted : Option MemWbPayload → Type 0
IsTargeted none = Unit
IsTargeted (some q) = IsRegister q.decoded.rd

read-write_value :
    (h : HartState) (rd v : Option ℕ) (source : ℕ)
    → Laws.IsValid h.registers
    → IsRegister rd
    → (source == 0) ≡ false
    → read (write_value h rd v).registers source ≡ (
        if is_register rd source
        then unwrap_or v (read h.registers source)
        else read h.registers source)
unfolding write_rd IsRegister
read-write_value h none none source ok b z = refl
read-write_value h (some rd) none source ok b z = ground arith
read-write_value h none (some v) source ok b z = refl
read-write_value h (some rd) (some v) source ok b z =
    ground (arith, read-write h.registers rd source v ok b)

written-IsValid :
    (h : HartState) (rd v : Option ℕ)
    → Laws.IsValid h.registers
    → Laws.IsValid (write_value h rd v).registers
written-IsValid h rd none ok = ok
written-IsValid h rd (some v) ok = write_rd-IsValid h rd v ok

settle-IsValid :
    (h : HartState) (q : Option MemWbPayload)
    → Laws.IsValid h.registers
    → Laws.IsValid (settle_mem_wb h q).registers
settle-IsValid h none ok = ok
settle-IsValid h (some q) ok = written-IsValid h q.decoded.rd q.writeback_value ok

from_mem_wb-read :
    (h : HartState) (source : ℕ) (q : Option MemWbPayload)
    → Laws.IsValid h.registers
    → IsTargeted q
    → (source == 0) ≡ false
    → from_mem_wb source (read h.registers source) q ≡ read (settle_mem_wb h q).registers source
unfolding IsTargeted
from_mem_wb-read h source none ok b z = refl
from_mem_wb-read h source (some q) ok b z =
    sym (read-write_value h q.decoded.rd q.writeback_value source ok b z)

forwarded_value :
    (kind : InstructionKind) (rd v : Option ℕ) (source r : ℕ)
    → (source == 0) ≡ false
    → ((x : ℕ) → v ≡ some x → is_writing_kind kind ≡ true)
    → (if is_register rd source && (is_writing_kind kind && is_written_register rd)
        then unwrap_or v r
        else r)
      ≡ (if is_register rd source then unwrap_or v r else r)
forwarded_value kind none v source r z f = refl
forwarded_value kind (some rd) none source r z f = ground arith
forwarded_value kind (some rd) (some x) source r z f = ground (arith, f x refl)

from_ex_mem-read :
    (h : HartState) (source : ℕ) (p : Option ExMemPayload)
    → Laws.IsValid h.registers
    → IsProduced p
    → (source == 0) ≡ false
    → from_ex_mem source (read h.registers source) p ≡ read (settle_ex_mem h p).registers source
unfolding IsProduced writes_back
from_ex_mem-read h source none ok b z = refl
from_ex_mem-read h source (some p) ok b z =
    forwarded_value p.decoded.kind p.decoded.rd p.writeback_value source _ z b.1
    ∙ sym (read-write_value h p.decoded.rd p.writeback_value source ok b.0 z)

settled-IsValid :
    (h : HartState) (q : Option MemWbPayload) (p : Option ExMemPayload)
    → Laws.IsValid h.registers
    → Laws.IsValid (settled h q p).registers
unfolding settled
settled-IsValid h q none ok = settle-IsValid h q ok
settled-IsValid h q (some p) ok =
    written-IsValid (settle_mem_wb h q) p.decoded.rd p.writeback_value (settle-IsValid h q ok)

zero_register :
    (r : RegisterFile) (source : ℕ) → Laws.IsValid r → (source == 0) ≡ true → 0 ≡ read r source
unfolding read
zero_register r source ok z = ground (arith, ok.x0)

-- For valid registers and latched instructions whose destinations are registers below 32 and where only
-- an instruction that writes a register carries a value: the operand forwarded from the value that
-- the register held at decode is what the register holds once the instructions in the last two
-- latches have written their values, the older one first.
pub forwarded_operand-settled :
    (h : HartState) (source : Option ℕ) (p : Option ExMemPayload) (q : Option MemWbPayload)
    → Laws.IsValid h.registers
    → IsProduced p
    → IsTargeted q
    → forwarded_operand source (register_value h source) p q ≡ register_value (settled h q p) source
unfolding forwarded_operand register_value settled
forwarded_operand-settled h none p q ok bp bq = refl
forwarded_operand-settled h (some source) p q ok bp bq = elim (Bool-cases (source == 0)) [
  | inl z ↦ rw z (zero_register _ source (settled-IsValid h q p ok) z)
  | inr z ↦ rw z (
      ap (λ (v : ℕ). from_ex_mem source v p) (from_mem_wb-read h source q ok bq z)
      ∙ from_ex_mem-read (settle_mem_wb h q) source p (settle-IsValid h q ok) bp z)
]
