-- ===== src/Cpu/Exec/Memory.antt =====
-- exec/mod.rs, lines 78 to 174 and 390 to 415: loads and stores.
use rust_computer.Base.{ℕ, true, Option, none, some, Result, ok, err}
use rust_computer.Bits.{u8, u16}
use rust_computer.Cpu.Alu.{effective_address, sign_extend_byte, sign_extend_half}
use rust_computer.Cpu.Exec.Effects.{CpuError, Outcome, write_rd, trapped, map_bus_error_to_trap}
use rust_computer.Cpu.Hart.{HartState}
use rust_computer.Cpu.Mmu.Translate.{translate, Translated}
use rust_computer.Cpu.Mmu.Types.{
  MemoryAccess, physical_address, stall, fault, PageWalker, done, panicked, out_of_fuel,
}
use rust_computer.Isa.Decode.{DecodedInstruction}
use rust_computer.Isa.Exception.{Trap}
use rust_computer.Isa.Opcode.{LoadKind, StoreKind}
use rust_computer.System.Bus.{Bus, BusError, busy, Action, return, ◌>>=◌}

-- `ExecutionResult { retired: 0, trap: None, memory_access: true }`.
abbrev stalled : {S : Type 0} → HartState → PageWalker → S → Outcome S
stalled h w s = (s, w, h, done (ok (record { retired = 0; trap = none; memory_access = true })))

abbrev accessed : {S : Type 0} → HartState → PageWalker → S → Outcome S
accessed h w s = (s, w, h, done (ok (record { retired = 1; trap = none; memory_access = true })))

-- The end of a failed access: the trap that the error maps to, or the error.
unfoldable pub unless_trap :
    {S : Type 0} → HartState → PageWalker → S → BusError → ℕ → Option Trap → Outcome S
unless_trap h w s e current_pc none = (s, w, h, done (err (CpuError.bus e)))
unless_trap h w s e current_pc (some trap) = trapped true h w s trap current_pc

unfoldable pub access_failed :
    {S : Type 0} → HartState → PageWalker → S → BusError → ℕ → ℕ → MemoryAccess → Outcome S
access_failed h w s (busy _) current_pc address access = stalled h w s
access_failed h w s e current_pc address access =
    unless_trap h w s e current_pc (map_bus_error_to_trap e address access)

-- What follows a translation, with the access as `next`.
unfoldable pub translated :
    {S : Type 0} → HartState → ℕ → (PageWalker → ℕ → S → Outcome S) → Translated S → Outcome S
translated h current_pc next (s, w, done (physical_address address)) = next w address s
translated h current_pc next (s, w, done stall) = stalled h w s
translated h current_pc next (s, w, done (fault trap)) = trapped true h w s trap current_pc
translated h current_pc next (s, w, panicked) = (s, w, h, panicked)
translated h current_pc next (s, w, out_of_fuel) = (s, w, h, out_of_fuel)

-- The `match` on the results of `load_value` and `store_value`.
unfoldable pub loaded :
    {S : Type 0}
    → DecodedInstruction
    → ℕ
    → ℕ
    → HartState
    → PageWalker
    → S × Result BusError ℕ
    → Outcome S
loaded d next address h w (s, ok value) =
    accessed (record (write_rd h d.rd value) { pc = next }) w s
loaded d next address h w (s, err e) = access_failed h w s e d.pc address MemoryAccess.load

unfoldable pub stored :
    {S : Type 0}
    → DecodedInstruction
    → ℕ
    → ℕ
    → HartState
    → PageWalker
    → S × Result BusError (Unit {0})
    → Outcome S
stored d next address h w (s, ok _) = accessed (record h { pc = next }) w s
stored d next address h w (s, err e) = access_failed h w s e d.pc address MemoryAccess.store

module _ {S : Type 0} (bus : Bus S) where
  unfoldable pub load_value : LoadKind → ℕ → Action S ℕ
  load_value LoadKind.byte address = do value ← bus.load8 address; return (sign_extend_byte value)
  load_value LoadKind.half address = do value ← bus.load16 address; return (sign_extend_half value)
  load_value LoadKind.word address = bus.load32 address
  load_value LoadKind.byte_unsigned address = bus.load8 address
  load_value LoadKind.half_unsigned address = bus.load16 address

  unfoldable pub store_value : StoreKind → ℕ → ℕ → Action S (Unit {0})
  store_value StoreKind.byte address value = bus.store8 address (u8 value)
  store_value StoreKind.half address value = bus.store16 address (u16 value)
  store_value StoreKind.word address value = bus.store32 address value

  unfoldable pub execute_load :
      LoadKind → DecodedInstruction → ℕ → ℕ → HartState → PageWalker → S → Outcome S
  execute_load kind d v1 next h w s =
      let address = effective_address v1 d.imm in
      translated h d.pc (λ w' physical s'. loaded d next address h w' (load_value kind physical s'))
        (translate bus w h.csrs h.privilege address MemoryAccess.load s)

  unfoldable pub execute_store :
      StoreKind → DecodedInstruction → ℕ → ℕ → ℕ → HartState → PageWalker → S → Outcome S
  execute_store kind d v1 v2 next h w s =
      let address = effective_address v1 d.imm in
      translated h d.pc
        (λ w' physical s'. stored d next address h w' (store_value kind physical v2 s'))
        (translate bus w h.csrs h.privilege address MemoryAccess.store s)
