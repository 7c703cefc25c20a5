-- ===== src/Cpu/Reference/Steps.antt =====
-- The reference core completes every cycle, from reset on, on any bus.
use rust_computer.Bits.{u64}
use rust_computer.Base.{
  ℕ, ◌+◌, ◌≤◌, ◌≡◌, refl, arith, Bool, true, false, not, ◌&&◌, ◌==◌, Option, none, some, Result, ok,
  err, is_some, if◌then◌else◌, if_elim,
}
use rust_computer.Cpu.Exec.Effects.{Outcome, apply_trap, map_bus_error_to_trap}
use rust_computer.Cpu.Exec.Safety.{execute_kind-Executes}
use rust_computer.Cpu.Exec.Sound.{Executes}
use rust_computer.Cpu.Exec.{execute_decoded}
use rust_computer.Cpu.Hart
use rust_computer.Cpu.Hart.{HartState}
use rust_computer.Cpu.Mmu.Fuel.{Returns, translate-Returns}
use rust_computer.Cpu.Mmu.Steps.{rank}
use rust_computer.Cpu.Mmu.Tlb
use rust_computer.Cpu.Mmu.Translate.{Translated}
use rust_computer.Cpu.Mmu.Types
use rust_computer.Cpu.Mmu.Types.{
  MemoryAccess, physical_address, stall, fault, PageWalker, done, panicked, out_of_fuel,
}
use rust_computer.Cpu.Reference.{
  ReferenceCore, Cycled, new, reset, trap_cycle, wait_cycle, idle_cycle, finish_cycle,
  execute_cycle, decoded_cycle, refused_cycle, fetched_cycle, fetch_cycle, run_cycle, guarded_cycle,
  begin_cycle, step_cycle,
}
use rust_computer.Cpu.Registers.Laws
use rust_computer.Isa.Decode.Fields.{HasCsr, decode-HasCsr}
use rust_computer.Isa.Decode.{DecodedInstruction, decode}
use rust_computer.Isa.Exception.{Trap, Interrupt}
use rust_computer.System.Bus.{
  Bus, BusError, busy, unmapped_address, misaligned_access, read_only_address, device_fault,
}

unfoldable pub IsPending : Option DecodedInstruction → Type 0
IsPending none = Unit
IsPending (some d) = HasCsr d.kind d.csr

-- Between two cycles: the walker waits for the bus at most, the registers are 32 words with x0 at
-- zero, and a kept instruction is one that `decode` made.
pub record IsReady (c : ReferenceCore) : Type 0 where
  pub at_rest : rank c.page_walker ≤ 2
  pub registers : Laws.IsValid c.state.registers
  pub pending : IsPending c.pending_decoded

unfoldable pub Completes : {S : Type 0} → ℕ → Cycled S → Type 0
Completes n (s, c, done (ok cycle)) =
    IsReady c
    × (c.cycle ≡ n)
    × (cycle.retired_instructions ≤ 1)
    × (cycle.stalled ≡ (cycle.retired_instructions == 0))
Completes n (s, c, done (err e)) = ⊥
Completes n (s, c, panicked) = ⊥
Completes n (s, c, out_of_fuel) = ⊥

idle-Completes :
    {S : Type 0} (s : S) (c : ReferenceCore) → IsReady c → Completes c.cycle (idle_cycle s c)
unfolding Completes
idle-Completes s c r = (r, refl, omega arith, refl)

trap-Completes :
    {S : Type 0} (s : S) (c : ReferenceCore) (trap : Trap) (pc : ℕ)
    → IsReady c
    → Completes c.cycle (trap_cycle s c trap pc)
unfolding trap_cycle apply_trap
trap-Completes s c trap pc r =
    idle-Completes s _
      (record { at_rest = r.at_rest; registers = r.registers; pending = r.pending })

wait-Completes :
    {S : Type 0} (s : S) (c : ReferenceCore) → IsReady c → Completes c.cycle (wait_cycle s c)
unfolding wait_cycle
wait-Completes s c r =
    idle-Completes s _
      (record { at_rest = r.at_rest; registers = r.registers; pending = r.pending })

finish-Completes :
    {S : Type 0} (c : ReferenceCore) (d : DecodedInstruction) (o : Outcome S)
    → IsReady c
    → HasCsr d.kind d.csr
    → Executes c.state o
    → Completes c.cycle (finish_cycle c d o)
unfolding finish_cycle Executes Completes IsPending
finish-Completes c d (s, w, h, done (ok result)) r k e = (
  record {
    at_rest = e.1;
    registers = (e.0).keeps_registers r.registers;
    pending = kept ((result.retired == 0) && not (is_some result.trap));
  },
  refl,
  (e.0).retires_once,
  refl,
)
  where
    kept : (b : Bool) → IsPending (if b then some d else none)
    kept true = k
    kept false = tt
finish-Completes c d (s, w, h, done (err _)) r k e = absurd e
finish-Completes c d (s, w, h, panicked) r k e = absurd e
finish-Completes c d (s, w, h, out_of_fuel) r k e = absurd e

module _ {S : Type 0} (bus : Bus S) where
  execute-Completes :
      (c : ReferenceCore) (s : S) (d : DecodedInstruction)
      → IsReady c
      → HasCsr d.kind d.csr
      → Completes c.cycle (execute_cycle bus c s d)
  unfolding execute_cycle execute_decoded
  execute-Completes c s d r k =
      finish-Completes c d _ r k
        (execute_kind-Executes bus d.kind d _ _ _ c.state c.page_walker s k r.at_rest)

  decoded-Completes :
      (c : ReferenceCore) (s : S) (raw pc : ℕ) (x : Result ℕ DecodedInstruction)
      → decode raw pc ≡ x
      → IsReady c
      → Completes c.cycle (decoded_cycle bus c s raw pc x)
  unfolding decoded_cycle
  decoded-Completes c s raw pc (ok d) e r = execute-Completes c s d r (decode-HasCsr raw pc d e)
  decoded-Completes c s raw pc (err _) e r = trap-Completes s c _ pc r

  fetched-Completes :
      (c : ReferenceCore) (pc : ℕ) (x : S × Result BusError ℕ)
      → IsReady c
      → Completes c.cycle (fetched_cycle bus c pc x)
  unfolding fetched_cycle refused_cycle map_bus_error_to_trap
  fetched-Completes c pc (s, ok raw) r = decoded-Completes c s raw pc _ refl r
  fetched-Completes c pc (s, err (busy _)) r = wait-Completes s c r
  fetched-Completes c pc (s, err (unmapped_address _)) r = trap-Completes s c _ pc r
  fetched-Completes c pc (s, err (misaligned_access _ _)) r = trap-Completes s c _ pc r
  fetched-Completes c pc (s, err (read_only_address _)) r = trap-Completes s c _ pc r
  fetched-Completes c pc (s, err (device_fault _ _)) r = trap-Completes s c _ pc r

  with_walker :
      (c : ReferenceCore) (w : PageWalker)
      → IsReady c
      → rank w ≤ 2
      → IsReady (record c { page_walker = w })
  with_walker c w r b = record { at_rest = b; registers = r.registers; pending = r.pending }

  fetch-Completes :
      (c : ReferenceCore) (pc : ℕ) (x : Translated S)
      → IsReady c
      → Returns x
      → Completes c.cycle (fetch_cycle bus c pc x)
  unfolding fetch_cycle Returns
  fetch-Completes c pc (s, w, done (physical_address a)) r b =
      fetched-Completes (record c { page_walker = w }) pc _ (with_walker c w r b)
  fetch-Completes c pc (s, w, done stall) r b =
      wait-Completes s (record c { page_walker = w }) (with_walker c w r b)
  fetch-Completes c pc (s, w, done (fault trap)) r b =
      trap-Completes s (record c { page_walker = w }) trap pc (with_walker c w r b)
  fetch-Completes c pc (s, w, panicked) r b = absurd b
  fetch-Completes c pc (s, w, out_of_fuel) r b = absurd b

  run-Completes :
      (c : ReferenceCore) (s : S) (x : Option DecodedInstruction)
      → IsReady c
      → IsPending x
      → Completes c.cycle (run_cycle bus c s x)
  unfolding run_cycle IsPending
  run-Completes c s none r k =
      fetch-Completes c _ _ r (translate-Returns bus c.page_walker _ _ _ _ s r.at_rest)
  run-Completes c s (some d) r k = execute-Completes c s d r k

  guarded-Completes :
      (c : ReferenceCore) (s : S) (x : Option Interrupt)
      → IsReady c
      → Completes c.cycle (guarded_cycle bus c s x)
  unfolding guarded_cycle
  guarded-Completes c s none r =
      if_elim (Completes c.cycle) c.state.halted (λ h. idle-Completes s c r)
        (λ h. run-Completes c s c.pending_decoded r r.pending)
  guarded-Completes c s (some i) r = trap-Completes s c _ _ r

  -- On any bus, a cycle of a ready core returns a cycle report and no error or panic: the core is
  -- ready again, its cycle count is one more, modulo 2 ^ 64, and it retired at most one instruction,
  -- none exactly when the report says that it stalled.
  pub step_cycle-Completes :
      (c : ReferenceCore) (s : S) → IsReady c → Completes (u64 (c.cycle + 1)) (step_cycle bus c s)
  unfolding step_cycle begin_cycle
  step_cycle-Completes c s r =
      guarded-Completes (begin_cycle bus c s) s _
        (record { at_rest = r.at_rest; registers = r.registers; pending = r.pending })

  -- A core after reset and any number of cycles; between two cycles the machine may change the bus.
  pub data Reached : ReferenceCore → Type 0 where
    started : (reset_vector : ℕ) → Reached (new reset_vector)
    restarted : {c : ReferenceCore} → Reached c → Reached (reset c)
    cycled : {c : ReferenceCore} (s : S) → Reached c → Reached ((step_cycle bus c s).1)

  reset-IsReady : (c : ReferenceCore) → IsReady (reset c)
  unfolding reset Hart.reset Tlb.reset Types.default IsPending Tlb.is_global Tlb.all
  reset-IsReady c = record { at_rest = omega arith; registers = Laws.default-IsValid; pending = tt }

  new-IsReady : (v : ℕ) → IsReady (new v)
  unfolding new Hart.new Types.default IsPending
  new-IsReady v = record { at_rest = omega arith; registers = Laws.default-IsValid; pending = tt }

  Completes-IsReady : (n : ℕ) (x : Cycled S) → Completes n x → IsReady x.1
  unfolding Completes
  Completes-IsReady n (s, c, done (ok cycle)) p = p.0
  Completes-IsReady n (s, c, done (err e)) p = absurd p
  Completes-IsReady n (s, c, panicked) p = absurd p
  Completes-IsReady n (s, c, out_of_fuel) p = absurd p

  Reached-IsReady : (c : ReferenceCore) → Reached c → IsReady c
  Reached-IsReady _ (started v) = new-IsReady v
  Reached-IsReady _ (restarted {c} r) = reset-IsReady c
  Reached-IsReady _ (cycled {c} s r) =
      Completes-IsReady (u64 (c.cycle + 1)) (step_cycle bus c s)
        (step_cycle-Completes c s (Reached-IsReady c r))

  -- A core that was made by `new` and has gone through any number of resets and of cycles on any
  -- states of the bus completes its next cycle as well: no error and no panic of a
  -- release build; the cycle count is one more, modulo 2 ^ 64.
  pub Reached-Completes :
      (c : ReferenceCore) (s : S) → Reached c → Completes (u64 (c.cycle + 1)) (step_cycle bus c s)
  Reached-Completes c s r = step_cycle-Completes c s (Reached-IsReady c r)
