-- ===== src/Cpu/Mmu/Translate.antt =====
-- mmu.rs, lines 131 to 187: the loop of `translate`. It runs on fuel; Mmu/Fuel shows that five turns
-- are enough.
use rust_computer.Base.{ℕ, zero, suc, Bool, true, false, not, Option, none, some, if◌then◌else◌}
use rust_computer.Cpu.CsrFile.{CsrFile, read}
use rust_computer.Cpu.Mmu.Pte.{
  translation_enabled, translation_status, effective_privilege, root_pte_address,
}
use rust_computer.Cpu.Mmu.Tlb.{lookup_tlb}
use rust_computer.Cpu.Mmu.Types.{
  MemoryAccess, TranslationResult, TranslationRequest, read_pte, WalkState, PageWalker, StepResult,
  drained, ready, Completion, done, panicked, out_of_fuel, request_eq,
}
use rust_computer.Cpu.Mmu.Walker.{step}
use rust_computer.Cpu.Privilege.{PrivilegeMode}
use rust_computer.Isa.Csr.{CsrAddress}
use rust_computer.System.Bus.{Bus}

abbrev pub Translated : Type 0 → Type 0
Translated S = S × PageWalker × Completion TranslationResult

-- What the loop does with the step of another request's walk; `next` is the next turn.
unfoldable pub after_drain :
    {S : Type 0}
    → (PageWalker → S → Translated S)
    → S × PageWalker × Completion StepResult
    → Translated S
after_drain next (s, w, done StepResult.stall) = (s, w, done TranslationResult.stall)
after_drain next (s, w, done drained) = next w s
after_drain next (s, w, done (ready _)) = (s, w, panicked)
after_drain next (s, w, done (StepResult.fault _)) = (s, w, panicked)
after_drain next (s, w, panicked) = (s, w, panicked)
after_drain next (s, w, out_of_fuel) = (s, w, out_of_fuel)

-- The same for a step of the request's own walk.
unfoldable pub after_step :
    {S : Type 0}
    → (PageWalker → S → Translated S)
    → S × PageWalker × Completion StepResult
    → Translated S
after_step next (s, w, done StepResult.stall) = (s, w, done TranslationResult.stall)
after_step next (s, w, done drained) = next w s
after_step next (s, w, done (ready address)) =
    (s, w, done (TranslationResult.physical_address address))
after_step next (s, w, done (StepResult.fault trap)) = (s, w, done (TranslationResult.fault trap))
after_step next (s, w, panicked) = (s, w, panicked)
after_step next (s, w, out_of_fuel) = (s, w, out_of_fuel)

-- `if let Some(active) = self.active && active.request != request`.
unfoldable pub serves_other : Option WalkState → TranslationRequest → Bool
serves_other none r = false
serves_other (some state) r = not (request_eq state.request r)

-- The walk that a request starts with.
unfoldable pub first_walk : TranslationRequest → WalkState
first_walk r = record {
  request = r;
  level = 1;
  pte_address = root_pte_address r;
  global_mapping = false;
  phase = read_pte;
}

unfoldable pub request_for : CsrFile → PrivilegeMode → ℕ → MemoryAccess → TranslationRequest
request_for csrs privilege virtual_address access = record {
  satp = read csrs CsrAddress.satp;
  status = translation_status csrs;
  privilege = effective_privilege csrs privilege access;
  virtual_address = virtual_address;
  access = access;
}

module _ {S : Type 0} (bus : Bus S) where
  unfoldable pub after_lookup :
      (PageWalker → S → Translated S)
      → TranslationRequest
      → PageWalker
      → S
      → Option TranslationResult
      → Translated S
  after_lookup next r w s (some result) = (s, w, done result)
  after_lookup next r w s none =
      after_step next (step bus (record w { active = some (first_walk r) }) false s)

  -- The rest of a turn, by what is active.
  unfoldable pub own_walk :
      (PageWalker → S → Translated S)
      → TranslationRequest
      → PageWalker
      → S
      → Option WalkState
      → Translated S
  own_walk next r w s none = after_lookup next r w s (lookup_tlb w r)
  own_walk next r w s (some _) = after_step next (step bus w false s)

  unfoldable pub turn :
      (PageWalker → S → Translated S) → TranslationRequest → PageWalker → S → Translated S
  turn next r w s =
      if serves_other w.active r
      then after_drain next (step bus w true s)
      else if not (translation_enabled r.satp r.privilege)
      then (s, w, done (TranslationResult.physical_address r.virtual_address))
      else own_walk next r w s w.active

  unfoldable pub translate_loop : ℕ → TranslationRequest → PageWalker → S → Translated S
  translate_loop zero r w s = (s, w, out_of_fuel)
  translate_loop (suc fuel) r w s = turn (translate_loop fuel r) r w s

  unfoldable pub translate :
      PageWalker → CsrFile → PrivilegeMode → ℕ → MemoryAccess → S → Translated S
  translate w csrs privilege virtual_address access s =
      translate_loop 5 (request_for csrs privilege virtual_address access) w s
