-- ===== src/Cpu/Exec/Safety.antt =====
-- Every decoded instruction executes: CSR and system instructions, and all of them together.
use rust_computer.Base.{
  ℕ, ◌≤◌, ◌≡◌, refl, arith, true, false, Option, none, some, ok, inl, inr, Bool-cases, subst, sym,
  ◌∙◌, false≢true,
}
use rust_computer.Cpu.CsrFile.Interrupts.{allows_csr_access, tsr_enabled}
use rust_computer.Cpu.Exec.CsrOps.{
  CsrOutcome, CsrWrite, execute, commit_csr, execute_csr_at, execute_csr, illegal,
}
use rust_computer.Cpu.Exec.Effects.{retire, return_from_trap}
use rust_computer.Cpu.Exec.MemorySound.{execute_load-Executes, execute_store-Executes}
use rust_computer.Cpu.Exec.Sound.{
  Executes, retire-Executes, privileged-Executes, trapped-Executes, write_rd-IsValid,
  write_rd-privilege, write_rd-csrs,
}
use rust_computer.Cpu.Exec.System.{execute_system}
use rust_computer.Cpu.Exec.{execute_kind, execute_decoded, assign}
use rust_computer.Cpu.Hart.{HartState}
use rust_computer.Cpu.Mmu.Fences.{flush_fence-slots}
use rust_computer.Cpu.Mmu.Steps.{rank}
use rust_computer.Cpu.Mmu.Tlb.{flush_fence, from_operands}
use rust_computer.Cpu.Mmu.Types.{PageWalker}
use rust_computer.Cpu.Privilege.{user, csr_level, is_machine, is_supervisor}
use rust_computer.Isa.Csr.Privilege.{user_csr-read_only}
use rust_computer.Isa.Csr.{CsrAddress, is_read_only}
use rust_computer.Isa.Decode.Fields.{HasCsr, decode-HasCsr}
use rust_computer.Isa.Decode.{DecodedInstruction, decode}
use rust_computer.Isa.Opcode.{
  CsrOp, SystemKind, ecall, ebreak, sfence_vma, wfi, mret, sret, InstructionKind,
}
use rust_computer.System.Bus.{Bus}

-- A CSR instruction of user mode that passes the checks does not write.
user_writes_nothing :
    (h : HartState) (a : CsrAddress)
    → allows_csr_access h.csrs h.privilege a ≡ true
    → h.privilege ≡ user
    → is_read_only a ≡ true
unfolding allows_csr_access csr_level
user_writes_nothing h a allowed u = ground (arith, user_csr-read_only a)

commit-Executes :
    {S : Type 0} (a : CsrAddress) (o : CsrOutcome) (x : Option CsrWrite) (d : DecodedInstruction)
    (next : ℕ) (h : HartState) (w : PageWalker) (s : S)
    → o.write ≡ x
    → allows_csr_access h.csrs h.privilege a ≡ true
    → rank w ≤ 2
    → Executes h (commit_csr a o d next h w s)
unfolding commit_csr
commit-Executes a o none d next h w s e allowed b = rw e (
    retire-Executes h _ w s (write_rd-privilege h d.rd o.read_value)
      (write_rd-csrs h d.rd o.read_value) (write_rd-IsValid h d.rd o.read_value) b)
commit-Executes a o (some x) d next h w s e allowed b = elim (Bool-cases (is_read_only a)) [
  | inl fixed ↦ rw e (rw fixed (trapped-Executes false h w s (illegal d) d.pc b))
  | inr writable ↦ rw e (
      rw writable (
        privileged-Executes h _ w s
          (λ u. false≢true (sym writable ∙ user_writes_nothing h a allowed u))
          (write_rd-IsValid h d.rd o.read_value) b))
]

execute_csr_at-Executes :
    {S : Type 0} (op : CsrOp) (d : DecodedInstruction) (v1 next : ℕ) (h : HartState)
    (w : PageWalker) (s : S) (a : CsrAddress)
    → rank w ≤ 2
    → Executes h (execute_csr_at op d v1 next h w s (some a))
unfolding execute_csr_at
execute_csr_at-Executes op d v1 next h w s a b = ground (
  arith,
  trapped-Executes false h w s (illegal d) d.pc b,
  commit-Executes a (execute op a d h.csrs v1) (execute op a d h.csrs v1).write d next h w s refl,
  b,
)

execute_csr-Executes :
    {S : Type 0} (op : CsrOp) (d : DecodedInstruction) (v1 next : ℕ) (h : HartState)
    (w : PageWalker) (s : S)
    → HasCsr (InstructionKind.csr op) d.csr
    → rank w ≤ 2
    → Executes h (execute_csr op d v1 next h w s)
unfolding execute_csr HasCsr
execute_csr-Executes op d v1 next h w s c b = at d.csr c
  where
    at :
        (x : Option CsrAddress)
        → HasCsr (InstructionKind.csr op) x
        → Executes h (execute_csr_at op d v1 next h w s x)
    at none c = absurd c
    at (some a) c = execute_csr_at-Executes op d v1 next h w s a b

execute_system-Executes :
    {S : Type 0} (kind : SystemKind) (d : DecodedInstruction) (v1 v2 next : ℕ) (h : HartState)
    (w : PageWalker) (s : S)
    → rank w ≤ 2
    → Executes h (execute_system kind d v1 v2 next h w s)
unfolding execute_system
execute_system-Executes ecall d v1 v2 next h w s b = trapped-Executes false h w s _ d.pc b
execute_system-Executes ebreak d v1 v2 next h w s b = trapped-Executes false h w s _ d.pc b
execute_system-Executes sfence_vma d v1 v2 next h w s b =
    let fence = from_operands d.rs1 v1 d.rs2 v2 in
    let bounded : rank (flush_fence w fence) ≤ 2 = rw ((flush_fence-slots w fence).1) b in
    ground (
      arith,
      trapped-Executes false h w s (illegal d) d.pc b,
      retire-Executes h (record h { pc = next }) (flush_fence w fence) s refl refl (λ r. r) bounded,
    )
execute_system-Executes wfi d v1 v2 next h w s b = ground (
  arith,
  trapped-Executes false h w s (illegal d) d.pc b,
  retire-Executes h (record h { pc = next; halted = true }) w s refl refl (λ r. r) b,
)
execute_system-Executes mret d v1 v2 next h w s b = elim (Bool-cases (is_machine h.privilege)) [
  | inl m ↦ rw m (
      unfold return_from_trap in
      privileged-Executes h _ w s (λ u. false≢true (subst (λ p. is_machine p ≡ true) u m)) (λ r. r)
        b)
  | inr low ↦ rw low (trapped-Executes false h w s (illegal d) d.pc b)
]
execute_system-Executes sret d v1 v2 next h w s b = elim (Bool-cases (is_supervisor h.privilege)) [
  | inl m ↦ elim (Bool-cases (tsr_enabled h.csrs)) [
    | inl t ↦ rw m (rw t (trapped-Executes false h w s (illegal d) d.pc b))
    | inr t ↦ rw m (
        rw t (
          unfold return_from_trap in
          privileged-Executes h _ w s (λ u. false≢true (subst (λ p. is_supervisor p ≡ true) u m))
            (λ r. r) b))
  ]
  | inr low ↦ rw low (trapped-Executes false h w s (illegal d) d.pc b)
]

assign-Executes :
    {S : Type 0} (h : HartState) (rd : Option ℕ) (v next : ℕ) (w : PageWalker) (s : S)
    → rank w ≤ 2
    → Executes h (retire (assign h rd v next) w s)
assign-Executes h rd v next w s b =
    retire-Executes h (assign h rd v next) w s (write_rd-privilege h rd v) (write_rd-csrs h rd v)
      (write_rd-IsValid h rd v) b

module _ {S : Type 0} (bus : Bus S) where
  pub execute_kind-Executes :
      (kind : InstructionKind) (d : DecodedInstruction) (v1 v2 next : ℕ) (h : HartState)
      (w : PageWalker) (s : S)
      → HasCsr kind d.csr
      → rank w ≤ 2
      → Executes h (execute_kind bus kind d v1 v2 next h w s)
  unfolding execute_kind
  execute_kind-Executes InstructionKind.lui d v1 v2 next h w s c b =
      assign-Executes h d.rd _ _ w s b
  execute_kind-Executes InstructionKind.auipc d v1 v2 next h w s c b =
      assign-Executes h d.rd _ _ w s b
  execute_kind-Executes InstructionKind.jal d v1 v2 next h w s c b =
      assign-Executes h d.rd _ _ w s b
  execute_kind-Executes InstructionKind.jalr d v1 v2 next h w s c b =
      assign-Executes h d.rd _ _ w s b
  execute_kind-Executes (InstructionKind.branch k) d v1 v2 next h w s c b =
      retire-Executes h _ w s refl refl (λ r. r) b
  execute_kind-Executes (InstructionKind.load k) d v1 v2 next h w s c b =
      execute_load-Executes bus k d v1 next h w s b
  execute_kind-Executes (InstructionKind.store k) d v1 v2 next h w s c b =
      execute_store-Executes bus k d v1 v2 next h w s b
  execute_kind-Executes (InstructionKind.op_imm op) d v1 v2 next h w s c b =
      assign-Executes h d.rd _ _ w s b
  execute_kind-Executes (InstructionKind.op op) d v1 v2 next h w s c b =
      assign-Executes h d.rd _ _ w s b
  execute_kind-Executes (InstructionKind.csr op) d v1 v2 next h w s c b =
      execute_csr-Executes op d v1 next h w s c b
  execute_kind-Executes (InstructionKind.system k) d v1 v2 next h w s c b =
      execute_system-Executes k d v1 v2 next h w s b

  -- For every word that `decode` accepts, every bus, hart and walker at rest, `execute_decoded` returns
  -- a result and no error or panic; it retires at most one instruction, none when it traps; a stall
  -- leaves the hart as it was; in user mode without a trap the privilege and the CSRs do not change;
  -- valid registers stay valid.
  pub execute_decoded-Executes :
      (raw pc : ℕ) (d : DecodedInstruction) (h : HartState) (w : PageWalker) (s : S)
      → decode raw pc ≡ ok d
      → rank w ≤ 2
      → Executes h (execute_decoded bus h w s d)
  unfolding execute_decoded
  execute_decoded-Executes raw pc d h w s e b =
      execute_kind-Executes d.kind d _ _ _ h w s (decode-HasCsr raw pc d e) b
