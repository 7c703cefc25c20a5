-- ===== src/Cpu/Pipeline/Stages.antt =====
-- What the calls of the stages return on any bus: no error, a walker at rest, and valid registers.
use rust_computer.Base.{ℕ, ◌≤◌, Bool, true, false, Option, none, some, Result, ok, err}
use rust_computer.Cpu.Exec.CsrOps.{apply_write}
use rust_computer.Cpu.Exec.Effects.{map_bus_error_to_trap, return_from_trap}
use rust_computer.Cpu.Exec.Sound.{write_rd-IsValid}
use rust_computer.Cpu.Hart.{HartState}
use rust_computer.Cpu.Mmu.Fences.{flush_fence-slots}
use rust_computer.Cpu.Mmu.Fuel.{Returns, translate-Returns}
use rust_computer.Cpu.Mmu.Steps.{rank}
use rust_computer.Cpu.Mmu.Translate.{Translated}
use rust_computer.Cpu.Mmu.Types.{
  MemoryAccess, TranslationResult, TranslationFence, physical_address, fault, PageWalker, done,
  panicked, out_of_fuel,
}
use rust_computer.Cpu.Pipeline.Fetch
use rust_computer.Cpu.Pipeline.Fetch.{Fetched, Predict, fetch}
use rust_computer.Cpu.Pipeline.Latches.{ExMemPayload, MemWbPayload}
use rust_computer.Cpu.Pipeline.Memory
use rust_computer.Cpu.Pipeline.Memory.{Accessed, access, access_kind}
use rust_computer.Cpu.Pipeline.Writeback.{
  write_kind, write_results, apply_fence, write_value, is_wfi,
}
use rust_computer.Cpu.CsrFile.{CsrFile}
use rust_computer.Cpu.Privilege.{PrivilegeMode}
use rust_computer.Cpu.Registers.Laws
use rust_computer.Isa.Opcode.{InstructionKind, mret, sret}
use rust_computer.System.Bus.{
  Bus, BusError, busy, unmapped_address, misaligned_access, read_only_address, device_fault,
}

write_value-IsValid :
    (h : HartState) (rd v : Option ℕ)
    → Laws.IsValid h.registers
    → Laws.IsValid (write_value h rd v).registers
write_value-IsValid h rd none r = r
write_value-IsValid h rd (some v) r = write_rd-IsValid h rd v r

apply_fence-rank :
    (w : PageWalker) (x : Option TranslationFence) → rank w ≤ 2 → rank (apply_fence w x) ≤ 2
apply_fence-rank w none b = b
apply_fence-rank w (some f) b = rw ((flush_fence-slots w f).1) b

abbrev pub InOrder : HartState × PageWalker → Type 0
InOrder x = Laws.IsValid x.0.registers × (rank x.1 ≤ 2)

pub write_results-InOrder :
    (h : HartState) (w : PageWalker) (p : MemWbPayload)
    → InOrder (h, w)
    → InOrder (write_results h w p)
unfolding write_results
write_results-InOrder h w p (r, b) = (
  halts_or_not (is_wfi p.decoded.kind) _ (
      write_value-IsValid (record h { csrs = apply_write h.csrs p.csr_write }) p.decoded.rd
        p.writeback_value r),
  apply_fence-rank w p.translation_fence b,
)
  where
    halts_or_not :
        (b : Bool) (x : HartState)
        → Laws.IsValid x.registers
        → Laws.IsValid
            (elim b as (λ _. HartState) [ true ↦ record x { halted = true } | false ↦ x ]).registers
    halts_or_not true x v = v
    halts_or_not false x v = v

pub write_kind-InOrder :
    (kind : InstructionKind) (h : HartState) (w : PageWalker) (p : MemWbPayload)
    → InOrder (h, w)
    → InOrder (write_kind kind h w p)
unfolding write_kind return_from_trap
write_kind-InOrder (InstructionKind.system mret) h w p i = i
write_kind-InOrder (InstructionKind.system sret) h w p i = i
write_kind-InOrder _ h w p i = write_results-InOrder h w p i

-- A memory access ends without an error, with the walker at rest.
unfoldable pub Accesses : {S : Type 0} → Accessed S → Type 0
Accesses (s, w, done (ok event)) = rank w ≤ 2
Accesses (s, w, done (err e)) = ⊥
Accesses (s, w, panicked) = ⊥
Accesses (s, w, out_of_fuel) = ⊥

access_failed-Accesses :
    {S : Type 0} (p : ExMemPayload) (w : PageWalker) (s : S) (e : BusError) (a : ℕ)
    (access : MemoryAccess)
    → rank w ≤ 2
    → Accesses (s, w, done (Memory.access_failed p e a access))
unfolding Memory.access_failed Memory.trap_or map_bus_error_to_trap Accesses
access_failed-Accesses p w s (busy _) a access b = b
access_failed-Accesses p w s (misaligned_access _ _) a access b = b
access_failed-Accesses p w s (unmapped_address _) a access b = b
access_failed-Accesses p w s (read_only_address _) a access b = b
access_failed-Accesses p w s (device_fault _ _) a access b = b

loaded-Accesses :
    {S : Type 0} (p : ExMemPayload) (a : ℕ) (w : PageWalker) (x : S × Result BusError ℕ)
    → rank w ≤ 2
    → Accesses (Memory.loaded p a w x)
unfolding Memory.loaded
loaded-Accesses p a w (s, ok v) b = unfold Accesses in b
loaded-Accesses p a w (s, err e) b = access_failed-Accesses p w s e a MemoryAccess.load b

stored-Accesses :
    {S : Type 0} (p : ExMemPayload) (a : ℕ) (w : PageWalker) (x : S × Result BusError (Unit {0}))
    → rank w ≤ 2
    → Accesses (Memory.stored p a w x)
unfolding Memory.stored
stored-Accesses p a w (s, ok v) b = unfold Accesses in b
stored-Accesses p a w (s, err e) b = access_failed-Accesses p w s e a MemoryAccess.store b

translated-Accesses :
    {S : Type 0} (p : ExMemPayload) (next : PageWalker → ℕ → S → Accessed S) (x : Translated S)
    → Returns x
    → ((w : PageWalker) (a : ℕ) (s : S) → rank w ≤ 2 → Accesses (next w a s))
    → Accesses (Memory.translated p next x)
unfolding Memory.translated Returns Accesses
translated-Accesses p next (s, w, done (physical_address a)) b n = n w a s b
translated-Accesses p next (s, w, done TranslationResult.stall) b n = b
translated-Accesses p next (s, w, done (fault t)) b n = b
translated-Accesses p next (s, w, panicked) b n = absurd b
translated-Accesses p next (s, w, out_of_fuel) b n = absurd b

module _ {S : Type 0} (bus : Bus S) where
  access_kind-Accesses :
      (kind : InstructionKind) (p : ExMemPayload) (a : ℕ) (privilege : PrivilegeMode)
      (csrs : CsrFile) (w : PageWalker) (s : S)
      → rank w ≤ 2
      → Accesses (access_kind bus kind p a privilege csrs w s)
  unfolding access_kind
  access_kind-Accesses (InstructionKind.load k) p a privilege csrs w s b =
      translated-Accesses p _ _ (translate-Returns bus w csrs privilege a MemoryAccess.load s b)
        (λ w' x s' b'. loaded-Accesses p a w' _ b')
  access_kind-Accesses (InstructionKind.store k) p a privilege csrs w s b =
      translated-Accesses p _ _ (translate-Returns bus w csrs privilege a MemoryAccess.store s b)
        (λ w' x s' b'. stored-Accesses p a w' _ b')
  access_kind-Accesses _ p a privilege csrs w s b = unfold Accesses in b

  pub access-Accesses :
      (w : PageWalker) (csrs : CsrFile) (privilege : PrivilegeMode) (p : ExMemPayload) (s : S)
      → rank w ≤ 2
      → Accesses (access bus w csrs privilege p s)
  unfolding access
  access-Accesses w csrs privilege p s b =
      access_kind-Accesses p.decoded.kind p _ privilege csrs w s b

-- The same of a fetch.
unfoldable pub Fetches : {S : Type 0} → Fetched S → Type 0
Fetches (s, w, done (ok event)) = rank w ≤ 2
Fetches (s, w, done (err e)) = ⊥
Fetches (s, w, panicked) = ⊥
Fetches (s, w, out_of_fuel) = ⊥

fetched-Fetches :
    {S : Type 0} (predict : Predict) (pc : ℕ) (w : PageWalker) (x : S × Result BusError ℕ)
    → rank w ≤ 2
    → Fetches (Fetch.fetched predict pc w x)
unfolding Fetch.fetched Fetch.fetch_failed Fetch.trap_or map_bus_error_to_trap Fetches
fetched-Fetches predict pc w (s, ok raw) b = b
fetched-Fetches predict pc w (s, err (busy _)) b = b
fetched-Fetches predict pc w (s, err (misaligned_access _ _)) b = b
fetched-Fetches predict pc w (s, err (unmapped_address _)) b = b
fetched-Fetches predict pc w (s, err (read_only_address _)) b = b
fetched-Fetches predict pc w (s, err (device_fault _ _)) b = b

fetch_at-Fetches :
    {S : Type 0} (bus : Bus S) (predict : Predict) (pc : ℕ) (x : Translated S)
    → Returns x
    → Fetches (Fetch.fetch_at bus predict pc x)
unfolding Fetch.fetch_at Returns Fetches
fetch_at-Fetches bus predict pc (s, w, done (physical_address a)) b =
    fetched-Fetches predict pc w _ b
fetch_at-Fetches bus predict pc (s, w, done TranslationResult.stall) b = b
fetch_at-Fetches bus predict pc (s, w, done (fault t)) b = b
fetch_at-Fetches bus predict pc (s, w, panicked) b = absurd b
fetch_at-Fetches bus predict pc (s, w, out_of_fuel) b = absurd b

pub fetch-Fetches :
    {S : Type 0} (bus : Bus S) (w : PageWalker) (csrs : CsrFile) (privilege : PrivilegeMode)
    (pc : ℕ) (predict : Predict) (s : S)
    → rank w ≤ 2
    → Fetches (fetch bus w csrs privilege pc predict s)
unfolding fetch
fetch-Fetches bus w csrs privilege pc predict s b =
    fetch_at-Fetches bus predict pc _
      (translate-Returns bus w csrs privilege pc MemoryAccess.instruction s b)
