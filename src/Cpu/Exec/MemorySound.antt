-- ===== src/Cpu/Exec/MemorySound.antt =====
-- Loads and stores keep what every instruction keeps, whatever the bus answers.
use rust_computer.Base.{ℕ, ◌≤◌, refl, true, Result, ok, err}
use rust_computer.Cpu.Alu.{effective_address}
use rust_computer.Cpu.Exec.Effects.{Outcome, map_bus_error_to_trap}
use rust_computer.Cpu.Exec.Memory.{
  translated, loaded, stored, access_failed, unless_trap, execute_load, execute_store,
}
use rust_computer.Cpu.Exec.Sound.{
  Executes, retired-Change, stalled-Change, trapped-Executes, write_rd-IsValid, write_rd-privilege,
  write_rd-csrs,
}
use rust_computer.Cpu.Hart.{HartState}
use rust_computer.Cpu.Mmu.Fuel.{Returns, translate-Returns}
use rust_computer.Cpu.Mmu.Steps.{rank}
use rust_computer.Cpu.Mmu.Translate.{Translated}
use rust_computer.Cpu.Mmu.Types.{
  MemoryAccess, physical_address, stall, fault, PageWalker, done, panicked, out_of_fuel,
}
use rust_computer.Isa.Decode.{DecodedInstruction}
use rust_computer.Isa.Opcode.{LoadKind, StoreKind}
use rust_computer.System.Bus.{Bus, BusError, busy, unmapped_address}

translated-Executes :
    {S : Type 0} (h : HartState) (pc : ℕ) (next : PageWalker → ℕ → S → Outcome S) (x : Translated S)
    → Returns x
    → ((w : PageWalker) (a : ℕ) (s : S) → rank w ≤ 2 → Executes h (next w a s))
    → Executes h (translated h pc next x)
unfolding translated Returns Executes
translated-Executes h pc next (s, w, done (physical_address a)) b n = n w a s b
translated-Executes h pc next (s, w, done stall) b n = (stalled-Change h true, b)
translated-Executes h pc next (s, w, done (fault trap)) b n = trapped-Executes true h w s trap pc b
translated-Executes h pc next (s, w, panicked) b n = absurd b
translated-Executes h pc next (s, w, out_of_fuel) b n = absurd b

-- An error that is not a wait becomes a trap.
access_failed-Executes :
    {S : Type 0} (h : HartState) (w : PageWalker) (s : S) (e : BusError) (pc a : ℕ)
    (access : MemoryAccess)
    → rank w ≤ 2
    → Executes h (access_failed h w s e pc a access)
unfolding access_failed unless_trap map_bus_error_to_trap
access_failed-Executes h w s (busy _) pc a access b = unfold Executes in (stalled-Change h true, b)
access_failed-Executes h w s (unmapped_address _) pc a access b = trapped-Executes true h w s _ pc b
access_failed-Executes h w s _ pc a access b = trapped-Executes true h w s _ pc b

loaded-Executes :
    {S : Type 0} (d : DecodedInstruction) (next a : ℕ) (h : HartState) (w : PageWalker)
    (x : S × Result BusError ℕ)
    → rank w ≤ 2
    → Executes h (loaded d next a h w x)
unfolding loaded
loaded-Executes d next a h w (s, ok v) b =
    unfold Executes in
    (
      retired-Change h _ true (write_rd-privilege h d.rd v) (write_rd-csrs h d.rd v)
          (write_rd-IsValid h d.rd v),
      b,
    )
loaded-Executes d next a h w (s, err e) b =
    access_failed-Executes h w s e d.pc a MemoryAccess.load b

stored-Executes :
    {S : Type 0} (d : DecodedInstruction) (next a : ℕ) (h : HartState) (w : PageWalker)
    (x : S × Result BusError (Unit {0}))
    → rank w ≤ 2
    → Executes h (stored d next a h w x)
unfolding stored
stored-Executes d next a h w (s, ok _) b =
    unfold Executes in (retired-Change h _ true refl refl (λ r. r), b)
stored-Executes d next a h w (s, err e) b =
    access_failed-Executes h w s e d.pc a MemoryAccess.store b

module _ {S : Type 0} (bus : Bus S) where
  pub execute_load-Executes :
      (kind : LoadKind) (d : DecodedInstruction) (v1 next : ℕ) (h : HartState) (w : PageWalker)
      (s : S)
      → rank w ≤ 2
      → Executes h (execute_load bus kind d v1 next h w s)
  unfolding execute_load
  execute_load-Executes kind d v1 next h w s b =
      translated-Executes h d.pc _ _
        (translate-Returns bus w h.csrs h.privilege (effective_address v1 d.imm) MemoryAccess.load s
          b)
        (λ w' a s' b'. loaded-Executes d next _ h w' _ b')

  pub execute_store-Executes :
      (kind : StoreKind) (d : DecodedInstruction) (v1 v2 next : ℕ) (h : HartState) (w : PageWalker)
      (s : S)
      → rank w ≤ 2
      → Executes h (execute_store bus kind d v1 v2 next h w s)
  unfolding execute_store
  execute_store-Executes kind d v1 v2 next h w s b =
      translated-Executes h d.pc _ _
        (translate-Returns bus w h.csrs h.privilege (effective_address v1 d.imm) MemoryAccess.store
          s b)
        (λ w' a s' b'. stored-Executes d next _ h w' _ b')
