-- ===== src/Examples/Cores.antt =====
-- A hart with a byte memory behind it: translation, execution and whole cycles.
use rust_computer.Base.{
  [], ◌∷◌, false, ℕ, ◌+◌, ◌≡◌, ◌≤◌, refl, arith, none, some, ok, ◌==◌, if◌then◌else◌,
}
use rust_computer.Bits.{sar, u64}
use rust_computer.Cpu.CsrFile
use rust_computer.Cpu.Exec.Safety.{execute_decoded-Executes}
use rust_computer.Cpu.Exec.Sound.{Executes}
use rust_computer.Cpu.Exec.{execute_decoded}
use rust_computer.Cpu.Hart
use rust_computer.Cpu.Hart.{HartState}
use rust_computer.Cpu.Mmu.Fences.{fence_address_forgets, address_fence}
use rust_computer.Cpu.Mmu.Fuel.{translate_returns}
use rust_computer.Cpu.Mmu.Steps.{rank}
use rust_computer.Cpu.Mmu.Tlb.{flush_fence, lookup_tlb}
use rust_computer.Cpu.Mmu.Translate.{translate}
use rust_computer.Cpu.Mmu.Types
use rust_computer.Cpu.Mmu.Types.{
  MemoryAccess, PageWalker, TranslationFence, TranslationRequest, TranslationResult, TlbEntry, done,
}
use rust_computer.Cpu.Privilege.{user}
use rust_computer.Cpu.Reference.Steps.{started, cycled, Completes, Reached-Completes}
use rust_computer.Cpu.Reference.{new, step_cycle}
use rust_computer.Isa.Decode.Fields.{IsCut, decode-IsCut}
use rust_computer.Isa.Decode.{DecodedInstruction, decode, decode_op_imm, imm_i, sign_extend}
use rust_computer.Isa.Opcode.{InstructionKind, AluOp}
use rust_computer.System.Bus.{Action, Bus, return, provided}

-- A memory whose every byte is a function of its address.
abbrev pub Memory : Type 0
Memory = ℕ → ℕ

abbrev load_byte : ℕ → Action Memory ℕ
load_byte addr m = return (m addr) m

abbrev store_byte : ℕ → ℕ → Action Memory (Unit {0})
store_byte addr value m = return tt (λ a. if a == addr then value else m a)

abbrev pub memory_bus : Bus Memory
memory_bus = provided load_byte store_byte

-- `addi x1, x0, 5` at 0x8000_0000, zeros elsewhere.
abbrev pub program : Memory
program a = if a == 0x8000_0000 then 0x93 else if a == 0x8000_0002 then 0x50 else 0

abbrev pub addi : DecodedInstruction
addi = record {
  raw = 0x0050_0093;
  pc = 0x8000_0000;
  kind = InstructionKind.op_imm AluOp.add;
  rd = some 1;
  rs1 = some 0;
  rs2 = none;
  imm = 5;
  csr = none;
}

decode-addi : decode 0x0050_0093 0x8000_0000 ≡ ok addi
unfolding decode decode_op_imm imm_i sign_extend sar
decode-addi = refl

Reached-Completes_example :
    Completes
      (u64 ((step_cycle memory_bus (new 0x8000_0000) program).1.cycle + 1))
      (step_cycle memory_bus (step_cycle memory_bus (new 0x8000_0000) program).1 program)
Reached-Completes_example =
    Reached-Completes memory_bus (step_cycle memory_bus (new 0x8000_0000) program).1 program
      (cycled program (started 0x8000_0000))

execute_decoded-Executes_example :
    Executes
      (Hart.new 0x8000_0000)
      (execute_decoded memory_bus (Hart.new 0x8000_0000) Types.default program addi)
unfolding Types.default
execute_decoded-Executes_example =
    execute_decoded-Executes memory_bus 0x0050_0093 0x8000_0000 addi (Hart.new 0x8000_0000)
      Types.default program decode-addi (omega arith)

-- Sv32 is on, and the root table is in page 1.
abbrev paged : CsrFile.CsrFile
paged = record (CsrFile.default) {
  supervisor = record (CsrFile.default.supervisor) { satp = 0x8000_0001 };
}

translate_returns_example :
    (s' : Memory) × (w' : PageWalker) × (t : TranslationResult) × (translate memory_bus
        Types.default paged user 0x4000 MemoryAccess.load program
      ≡ (s', w', done t))
    × (rank w' ≤ 2)
unfolding Types.default
translate_returns_example =
    translate_returns memory_bus Types.default paged user 0x4000 MemoryAccess.load program
      (omega arith)

decode-IsCut_example : IsCut 1 0 5 0x0050_0093 0x8000_0000 addi
decode-IsCut_example = decode-IsCut 0x0050_0093 0x8000_0000 addi decode-addi

-- A walker with one page in its buffer, and a request for that page.
abbrev page_entry : TlbEntry
page_entry = record {
  satp = 0x8000_0001;
  virtual_base = 0x4000;
  physical_base = 0x9000;
  page_mask = 0xfff;
  flags = 0xdf;
  global_mapping = false;
}

abbrev filled : PageWalker
filled = record { active = none; tlb = some page_entry ∷ none ∷ []; next_tlb_entry = 1 }

abbrev page_request : TranslationRequest
page_request = record {
  satp = 0x8000_0001;
  status = 0;
  privilege = user;
  virtual_address = 0x4008;
  access = MemoryAccess.load;
}

fence_address_forgets_example :
    lookup_tlb (flush_fence filled (address_fence page_request.virtual_address)) page_request ≡ none
fence_address_forgets_example = fence_address_forgets filled page_request
