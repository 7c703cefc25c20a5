-- ===== src/Cpu/Pipeline/Writeback.antt =====
-- pipeline/wb_stage.rs, and the record of trace.rs that it returns.
use rust_computer.Base.{ℕ, Bool, true, false, Option, none, some}
use rust_computer.Cpu.Exec.CsrOps.{CsrWrite, apply_write}
use rust_computer.Cpu.Exec.Effects.{ExecutionResult, return_from_trap, write_rd}
use rust_computer.Cpu.Hart.{HartState}
use rust_computer.Cpu.Mmu.Tlb.{flush_fence}
use rust_computer.Cpu.Mmu.Types.{TranslationFence, PageWalker}
use rust_computer.Cpu.Pipeline.Latches.{MemWbPayload}
use rust_computer.Isa.Opcode.{InstructionKind, wfi, mret, sret}

pub record CommitEvent : Type 0 where
  pub pc : ℕ
  pub next_pc : ℕ
  pub kind : InstructionKind
  pub destination : Option ℕ
  pub value : Option ℕ
  pub csr_write : Option CsrWrite

abbrev pub apply_fence : PageWalker → Option TranslationFence → PageWalker
apply_fence w none = w
apply_fence w (some fence) = flush_fence w fence

-- `if let (Some(rd), Some(value)) = ..`.
abbrev pub write_value : HartState → Option ℕ → Option ℕ → HartState
write_value h rd none = h
write_value h rd (some value) = write_rd h rd value

abbrev pub is_wfi : InstructionKind → Bool
is_wfi (InstructionKind.system wfi) = true
is_wfi _ = false

-- `none` is the `unreachable!` of `return_from_trap`.
abbrev pub returned : HartState → Option (HartState × ExecutionResult) → HartState
returned h none = h
returned h (some (h', result)) = h'

-- The branch of every instruction but MRET and SRET.
unfoldable pub write_results : HartState → PageWalker → MemWbPayload → HartState × PageWalker
write_results h w p =
    let h1 = record h { csrs = apply_write h.csrs p.csr_write } in
    let h2 = record (write_value h1 p.decoded.rd p.writeback_value) { pc = p.next_pc } in
    (
      elim (is_wfi p.decoded.kind) [ true ↦ record h2 { halted = true } | false ↦ h2 ],
      apply_fence w p.translation_fence,
    )

unfoldable pub write_kind :
    InstructionKind → HartState → PageWalker → MemWbPayload → HartState × PageWalker
write_kind (InstructionKind.system mret) h w p = (returned h (return_from_trap h mret), w)
write_kind (InstructionKind.system sret) h w p = (returned h (return_from_trap h sret), w)
write_kind _ h w p = write_results h w p

-- `next_pc` is the new program counter on both branches.
unfoldable pub write_back :
    HartState → PageWalker → MemWbPayload → HartState × PageWalker × CommitEvent
write_back h w p =
    let (h', w') = write_kind p.decoded.kind h w p in
    (
      h',
      w',
      record {
        pc = p.decoded.pc;
        next_pc = h'.pc;
        kind = p.decoded.kind;
        destination = p.decoded.rd;
        value = p.writeback_value;
        csr_write = p.csr_write;
      },
    )
