-- ===== src/Cpu/Pipeline/Refinement.antt =====
-- The execute, memory and write-back stages of the pipeline, on one instruction alone, against
-- `execute_decoded` of exec/mod.rs.
use rust_computer.Base.{
  ℕ, ◌+◌, ◌≡◌, refl, ap, true, false, Option, none, some, Result, ok, err, not, is_some, inl, inr,
  Bool-cases, ◌&&◌, ◌||◌, ◌==◌,
}
use rust_computer.Bits.{u32}
use rust_computer.Cpu.Alu.{effective_address}
use rust_computer.Cpu.CsrFile.Interrupts.{allows_csr_access, tvm_enabled, tw_enabled, tsr_enabled}
use rust_computer.Cpu.Exec
use rust_computer.Cpu.Exec.CsrOps
use rust_computer.Cpu.Exec.CsrOps.{CsrOutcome, CsrWrite}
use rust_computer.Cpu.Exec.Effects.{
  CpuError, Outcome, trapped, register_value, write_rd, retire, return_from_trap,
  map_bus_error_to_trap,
}
use rust_computer.Cpu.Exec.Memory
use rust_computer.Cpu.Exec.System
use rust_computer.Cpu.Exec.{execute_decoded}
use rust_computer.Cpu.Hart.{HartState}
use rust_computer.Cpu.Mmu.Translate.{Translated}
use rust_computer.Cpu.Mmu.Types.{
  MemoryAccess, TranslationResult, physical_address, fault, PageWalker, Completion, done, panicked,
  out_of_fuel,
}
use rust_computer.Cpu.Pipeline.Execute as ExStage
use rust_computer.Cpu.Pipeline.Execute.{ExecuteEvent, ExecuteOutcome, execute, uses_memory}
use rust_computer.Cpu.Pipeline.FrontEnd.{ex_mem_payload}
use rust_computer.Cpu.Pipeline.Latches.{ExMemPayload}
use rust_computer.Cpu.Pipeline.Memory as MemStage
use rust_computer.Cpu.Pipeline.Memory.{MemoryEvent, Accessed, access}
use rust_computer.Cpu.Pipeline.Writeback.{write_back, write_kind, write_results}
use rust_computer.Cpu.Privilege.{is_machine, is_supervisor, is_user}
use rust_computer.Isa.Csr.{CsrAddress, code, is_read_only}
use rust_computer.Isa.Decode.{DecodedInstruction}
use rust_computer.Isa.Opcode.{
  InstructionKind, LoadKind, StoreKind, CsrOp, SystemKind, ecall, ebreak, sfence_vma, wfi, mret,
  sret,
}
use rust_computer.System.Bus.{
  Bus, BusError, busy, misaligned_access, unmapped_address, read_only_address, device_fault,
}

-- What the core makes of the memory stage's result when nothing else is in flight.
unfoldable pub committed : {S : Type 0} → HartState → DecodedInstruction → Accessed S → Outcome S
committed h d (s, w, done (ok (MemoryEvent.advance p))) =
    let (h', w', event) = write_back h w p in
    (s, w', h', done (ok (record { retired = 1; trap = none; memory_access = uses_memory d })))
committed h d (s, w, done (ok (MemoryEvent.stall p))) =
    (s, w, h, done (ok (record { retired = 0; trap = none; memory_access = true })))
committed h d (s, w, done (ok (MemoryEvent.trap t))) = trapped true h w s t d.pc
committed h d (s, w, done (err e)) = (s, w, h, done (err (CpuError.bus e)))
committed h d (s, w, panicked) = (s, w, h, panicked)
committed h d (s, w, out_of_fuel) = (s, w, h, out_of_fuel)

module _ {S : Type 0} (bus : Bus S) where
  unfoldable pub after_execute :
      HartState → PageWalker → S → DecodedInstruction → Completion ExecuteEvent → Outcome S
  after_execute h w s d (done (ExecuteEvent.advance o)) =
      committed h d (access bus w h.csrs h.privilege (ex_mem_payload d o) s)
  after_execute h w s d (done (ExecuteEvent.trap t)) = trapped false h w s t d.pc
  after_execute h w s d panicked = (s, w, h, panicked)
  after_execute h w s d out_of_fuel = (s, w, h, out_of_fuel)

  -- The three stages in a row.
  unfoldable pub run_alone : HartState → PageWalker → S → DecodedInstruction → Outcome S
  run_alone h w s d =
      after_execute h w s d
        (execute d (register_value h d.rs1) (register_value h d.rs2) h.privilege h.csrs)

abbrev of_kind : DecodedInstruction → InstructionKind → DecodedInstruction
of_kind d kind = record d { kind = kind }

abbrev memory_outcome : ℕ → ℕ → ℕ → ExecuteOutcome
memory_outcome to v next = record {
  writeback_value = none;
  csr_write = none;
  translation_fence = none;
  memory_address = some to;
  store_value = v;
  next_pc = next;
}

failed_agrees :
    {S : Type 0} (h : HartState) (d : DecodedInstruction) (p : ExMemPayload) (w : PageWalker)
    (s : S) (e : BusError) (a : ℕ) (access : MemoryAccess)
    → committed h d (s, w, done (MemStage.access_failed p e a access))
      ≡ Memory.access_failed h w s e d.pc a access
unfolding committed MemStage.access_failed MemStage.trap_or Memory.access_failed Memory.unless_trap
    map_bus_error_to_trap
failed_agrees h d p w s (busy _) a access = refl
failed_agrees h d p w s (misaligned_access _ _) a access = refl
failed_agrees h d p w s (unmapped_address _) a access = refl
failed_agrees h d p w s (read_only_address _) a access = refl
failed_agrees h d p w s (device_fault _ _) a access = refl

translated_agrees :
    {S : Type 0} (h : HartState) (d : DecodedInstruction) (p : ExMemPayload)
    (staged : PageWalker → ℕ → S → Accessed S) (direct : PageWalker → ℕ → S → Outcome S)
    (x : Translated S)
    → ((w : PageWalker) (a : ℕ) (s : S) → committed h d (staged w a s) ≡ direct w a s)
    → committed h d (MemStage.translated p staged x) ≡ Memory.translated h d.pc direct x
unfolding committed MemStage.translated Memory.translated
translated_agrees h d p staged direct (s, w, done (physical_address a)) same = same w a s
translated_agrees h d p staged direct (s, w, done TranslationResult.stall) same = refl
translated_agrees h d p staged direct (s, w, done (fault t)) same = refl
translated_agrees h d p staged direct (s, w, panicked) same = refl
translated_agrees h d p staged direct (s, w, out_of_fuel) same = refl

loaded_agrees :
    {S : Type 0} (k : LoadKind) (h : HartState) (d : DecodedInstruction) (a to next : ℕ)
    (w : PageWalker) (x : S × Result BusError ℕ)
    → committed h (of_kind d (InstructionKind.load k)) (
        MemStage.loaded
          (ex_mem_payload (of_kind d (InstructionKind.load k)) (memory_outcome to 0 next))
          a
          w
          x)
      ≡ Memory.loaded (of_kind d (InstructionKind.load k)) next a h w x
unfolding committed write_back write_kind write_results uses_memory MemStage.loaded Memory.loaded
loaded_agrees k h d a to next w (s, ok value) = refl
loaded_agrees k h d a to next w (s, err e) =
    failed_agrees h (of_kind d (InstructionKind.load k)) _ w s e a MemoryAccess.load

stored_agrees :
    {S : Type 0} (k : StoreKind) (h : HartState) (d : DecodedInstruction) (a to v next : ℕ)
    (w : PageWalker) (x : S × Result BusError (Unit {0}))
    → committed h (of_kind d (InstructionKind.store k)) (
        MemStage.stored
          (ex_mem_payload (of_kind d (InstructionKind.store k)) (memory_outcome to v next))
          a
          w
          x)
      ≡ Memory.stored (of_kind d (InstructionKind.store k)) next a h w x
unfolding committed write_back write_kind write_results uses_memory MemStage.stored Memory.stored
stored_agrees k h d a to v next w (s, ok _) = refl
stored_agrees k h d a to v next w (s, err e) =
    failed_agrees h (of_kind d (InstructionKind.store k)) _ w s e a MemoryAccess.store

write_agrees :
    (h : HartState) (rd : Option ℕ) (v : ℕ) (x : Option CsrWrite) (next : ℕ)
    → record (write_rd (record h { csrs = CsrOps.apply_write h.csrs x }) rd v) { pc = next }
      ≡ record (write_rd h rd v) { csrs = CsrOps.apply_write ((write_rd h rd v).csrs) x; pc = next }
unfolding write_rd
write_agrees h none v x next = refl
write_agrees h (some r) v x next = refl

module _ {S : Type 0} (bus : Bus S) where
  -- The end of a CSR instruction.
  commit_agrees :
      (op : CsrOp) (a : CsrAddress) (o : CsrOutcome) (d : DecodedInstruction) (next : ℕ)
      (h : HartState) (w : PageWalker) (s : S)
      → after_execute bus h w s
          (of_kind d (InstructionKind.csr op))
          (done (ExStage.finish_csr a o (of_kind d (InstructionKind.csr op)) next))
        ≡ CsrOps.commit_csr a o (of_kind d (InstructionKind.csr op)) next h w s
  unfolding after_execute ExStage.finish_csr CsrOps.commit_csr access MemStage.access_kind committed
      write_back write_kind write_results uses_memory
  commit_agrees op a o d next h w s = elim (Bool-cases (is_some o.write && is_read_only a)) [
    | inl r ↦ rw r refl
    | inr r ↦
        rw r
          ((ap (λ (x : HartState). retire x w s) (write_agrees h d.rd o.read_value o.write next)))
  ]

  csr_at_agrees :
      (op : CsrOp) (d : DecodedInstruction) (v1 next : ℕ) (h : HartState) (w : PageWalker) (s : S)
      (x : Option CsrAddress)
      → after_execute bus h w s
          (of_kind d (InstructionKind.csr op))
          (ExStage.execute_csr op (of_kind d (InstructionKind.csr op)) v1 next h.privilege h.csrs x)
        ≡ CsrOps.execute_csr_at op (of_kind d (InstructionKind.csr op)) v1 next h w s x
  unfolding after_execute ExStage.execute_csr CsrOps.execute_csr_at
  csr_at_agrees op d v1 next h w s none = refl
  csr_at_agrees op d v1 next h w s (some a) =
      elim (Bool-cases (allows_csr_access h.csrs h.privilege a)) [
        | inl allowed ↦
            elim (Bool-cases (
              is_supervisor h.privilege
              && tvm_enabled h.csrs
              && (code a == code CsrAddress.satp))) [
                | inl trapped ↦ rw allowed (rw trapped refl)
                | inr open_access ↦ rw allowed (rw open_access (commit_agrees op a _ d next h w s))
              ]
        | inr refused ↦ rw refused refl
      ]

  system_agrees :
      (k : SystemKind) (d : DecodedInstruction) (v1 v2 next : ℕ) (h : HartState) (w : PageWalker)
      (s : S)
      → after_execute bus h w s (of_kind d (InstructionKind.system k)) (
          done (
            ExStage.execute_system k
              (of_kind d (InstructionKind.system k))
              v1
              v2
              next
              h.privilege
              h.csrs))
        ≡ System.execute_system k (of_kind d (InstructionKind.system k)) v1 v2 next h w s
  unfolding after_execute ExStage.execute_system System.execute_system access MemStage.access_kind
      committed write_back write_kind write_results uses_memory return_from_trap
  system_agrees ecall d v1 v2 next h w s = refl
  system_agrees ebreak d v1 v2 next h w s = refl
  system_agrees sfence_vma d v1 v2 next h w s =
      elim (Bool-cases (is_user h.privilege || (is_supervisor h.privilege && tvm_enabled h.csrs))) [
        | inl r ↦ rw r refl
        | inr r ↦ rw r refl
      ]
  system_agrees wfi d v1 v2 next h w s =
      elim (Bool-cases (not (is_machine h.privilege) && tw_enabled h.csrs)) [
        | inl r ↦ rw r refl
        | inr r ↦ rw r refl
      ]
  system_agrees mret d v1 v2 next h w s = elim (Bool-cases (is_machine h.privilege)) [
    | inl r ↦ rw r refl
    | inr r ↦ rw r refl
  ]
  system_agrees sret d v1 v2 next h w s =
      elim (Bool-cases (not (is_supervisor h.privilege) || tsr_enabled h.csrs)) [
        | inl r ↦ rw r refl
        | inr r ↦ rw r refl
      ]

module _ {S : Type 0} (bus : Bus S) where
  agrees_kind :
      (kind : InstructionKind) (d : DecodedInstruction) (h : HartState) (w : PageWalker) (s : S)
      → run_alone bus h w s (of_kind d kind) ≡ execute_decoded bus h w s (of_kind d kind)
  unfolding run_alone after_execute execute ExStage.execute_kind access MemStage.access_kind
      committed write_back write_kind write_results uses_memory execute_decoded Exec.execute_kind
      Memory.execute_load Memory.execute_store CsrOps.execute_csr
  agrees_kind InstructionKind.lui d h w s = refl
  agrees_kind InstructionKind.auipc d h w s = refl
  agrees_kind InstructionKind.jal d h w s = refl
  agrees_kind InstructionKind.jalr d h w s = refl
  agrees_kind (InstructionKind.branch k) d h w s = refl
  agrees_kind (InstructionKind.load k) d h w s =
      let to = effective_address (register_value h d.rs1) d.imm in
      translated_agrees h (of_kind d (InstructionKind.load k)) _ _ _ _
        (λ w' a s'. loaded_agrees k h d to to (u32 (d.pc + 4)) w' (Memory.load_value bus k a s'))
  agrees_kind (InstructionKind.store k) d h w s =
      let to = effective_address (register_value h d.rs1) d.imm in
      let v = register_value h d.rs2 in
      translated_agrees h (of_kind d (InstructionKind.store k)) _ _ _ _ (λ w' a s'.
        stored_agrees k h d to to v (u32 (d.pc + 4)) w' (Memory.store_value bus k a v s'))
  agrees_kind (InstructionKind.op_imm op) d h w s = refl
  agrees_kind (InstructionKind.op op) d h w s = refl
  agrees_kind (InstructionKind.csr op) d h w s = csr_at_agrees bus op d _ _ h w s d.csr
  agrees_kind (InstructionKind.system k) d h w s = system_agrees bus k d _ _ _ h w s

  -- For every decoded instruction, bus, hart and page walker: the execute stage, the memory stage on
  -- what it latches and the write-back stage on what that latches, in a row with nothing else in
  -- flight, leave the hart, the page walker and the bus as `execute_decoded` does, and give its result.
  pub run_alone-execute_decoded :
      (h : HartState) (w : PageWalker) (s : S) (d : DecodedInstruction)
      → run_alone bus h w s d ≡ execute_decoded bus h w s d
  run_alone-execute_decoded h w s d = agrees_kind d.kind d h w s
