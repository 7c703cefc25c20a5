-- ===== src/Cpu/Pipeline/Memory.antt =====
-- pipeline/mem_stage.rs: the memory stage. Its `load_value` and `store_value` repeat those of
-- exec/mod.rs, and are the same functions here.
use rust_computer.Base.{ℕ, Option, none, some, Result, ok, err, unwrap_or}
use rust_computer.Cpu.CsrFile.{CsrFile}
use rust_computer.Cpu.Exec.Effects.{map_bus_error_to_trap}
use rust_computer.Cpu.Exec.Memory.{load_value, store_value}
use rust_computer.Cpu.Mmu.Translate.{Translated, translate}
use rust_computer.Cpu.Mmu.Types.{
  MemoryAccess, TranslationResult, physical_address, fault, PageWalker, Completion, done, panicked,
  out_of_fuel,
}
use rust_computer.Cpu.Pipeline.Latches.{ExMemPayload, MemWbPayload}
use rust_computer.Cpu.Privilege.{PrivilegeMode}
use rust_computer.Isa.Exception.{Trap}
use rust_computer.Isa.Opcode.{InstructionKind}
use rust_computer.System.Bus.{Bus, BusError, busy}

pub data MemoryEvent : Type 0 where
  advance : MemWbPayload → MemoryEvent
  stall : ExMemPayload → MemoryEvent
  trap : Trap → MemoryEvent

abbrev pub Accessed : Type 0 → Type 0
Accessed S = S × PageWalker × Completion (Result BusError MemoryEvent)

-- The payload for the next stage.
abbrev pub pass : ExMemPayload → Option ℕ → MemoryEvent
pass p value = MemoryEvent.advance (record {
  decoded = p.decoded;
  writeback_value = value;
  csr_write = p.csr_write;
  translation_fence = p.translation_fence;
  next_pc = p.next_pc;
})

-- `.map(MemoryEvent::Trap).ok_or(error)`.
unfoldable pub trap_or : BusError → Option Trap → Result BusError MemoryEvent
trap_or e none = err e
trap_or e (some t) = ok (MemoryEvent.trap t)

unfoldable pub access_failed :
    ExMemPayload → BusError → ℕ → MemoryAccess → Result BusError MemoryEvent
access_failed p (busy _) address access = ok (MemoryEvent.stall p)
access_failed p e address access = trap_or e (map_bus_error_to_trap e address access)

-- The `match` on the translation, with the access as `next`.
unfoldable pub translated :
    {S : Type 0} → ExMemPayload → (PageWalker → ℕ → S → Accessed S) → Translated S → Accessed S
translated p next (s, w, done (physical_address address)) = next w address s
translated p next (s, w, done TranslationResult.stall) = (s, w, done (ok (MemoryEvent.stall p)))
translated p next (s, w, done (fault t)) = (s, w, done (ok (MemoryEvent.trap t)))
translated p next (s, w, panicked) = (s, w, panicked)
translated p next (s, w, out_of_fuel) = (s, w, out_of_fuel)

unfoldable pub loaded :
    {S : Type 0} → ExMemPayload → ℕ → PageWalker → S × Result BusError ℕ → Accessed S
loaded p address w (s, ok value) = (s, w, done (ok (pass p (some value))))
loaded p address w (s, err e) = (s, w, done (access_failed p e address MemoryAccess.load))

unfoldable pub stored :
    {S : Type 0} → ExMemPayload → ℕ → PageWalker → S × Result BusError (Unit {0}) → Accessed S
stored p address w (s, ok _) = (s, w, done (ok (pass p none)))
stored p address w (s, err e) = (s, w, done (access_failed p e address MemoryAccess.store))

module _ {S : Type 0} (bus : Bus S) where
  unfoldable pub access_kind :
      InstructionKind → ExMemPayload → ℕ → PrivilegeMode → CsrFile → PageWalker → S → Accessed S
  access_kind (InstructionKind.load kind) p address privilege csrs w s =
      translated p (λ w' physical s'. loaded p address w' (load_value bus kind physical s'))
        (translate bus w csrs privilege address MemoryAccess.load s)
  access_kind (InstructionKind.store kind) p address privilege csrs w s =
      translated p
        (λ w' physical s'. stored p address w' (store_value bus kind physical p.store_value s'))
        (translate bus w csrs privilege address MemoryAccess.store s)
  access_kind _ p address privilege csrs w s = (s, w, done (ok (pass p p.writeback_value)))

  unfoldable pub access : PageWalker → CsrFile → PrivilegeMode → ExMemPayload → S → Accessed S
  access w csrs privilege p s =
      access_kind p.decoded.kind p (unwrap_or p.memory_address 0) privilege csrs w s
