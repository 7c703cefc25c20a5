-- ===== src/Cpu/Pipeline/Sound.antt =====
-- The stages of core/pipeline.rs keep the cycle's progress sound.
use Prim.Native.String.{String}
use rust_computer.Base.{ℕ, ◌≤◌, ◌≡◌, refl, arith, Option, none, some, ok, err, if_elim}
use rust_computer.Cpu.Exec.Effects.{ExecutionResult, apply_trap}
use rust_computer.Cpu.Mmu.Steps.{rank}
use rust_computer.Cpu.Mmu.Types.{PageWalker, done, panicked, out_of_fuel}
use rust_computer.Cpu.Pipeline.Latches.{default, IdExPayload, ExMemPayload, MemWbPayload}
use rust_computer.Cpu.Pipeline.Memory.{Accessed}
use rust_computer.Cpu.Pipeline.Progress.{Progress, Staged, take_trap}
use rust_computer.Cpu.Pipeline.Writeback.{write_back}
use rust_computer.Cpu.Hazard.{detect_branch_flush}
use rust_computer.Cpu.Registers.{RegisterFile}
use rust_computer.Cpu.Pipeline.Cycle.{trap_retired}
use rust_computer.Cpu.Registers.Laws
use rust_computer.Isa.Decode.Fields.{HasCsr}
use rust_computer.Isa.Exception.{Trap}
use rust_computer.System.Bus.{Bus}
use rust_computer.Cpu.Pipeline.Stages.{Accesses, access-Accesses, write_kind-InOrder}
use rust_computer.Cpu.Pipeline.Core.{PipelineCore, is_translation_barrier_payload}
use rust_computer.Cpu.Pipeline.Execute.{ExecuteOutcome}
use rust_computer.Cpu.Pipeline.Memory.{MemoryEvent}
use rust_computer.Cpu.Pipeline.Progress.{start}
use rust_computer.Cpu.Pipeline.BackEnd.{
  write_back_stage, interrupt_taken, memory_latched, memory_accessed, memory_event, with_walker,
}
use rust_computer.Cpu.Pipeline.FrontEnd.{redirect}
use rust_computer.Isa.Decode.{DecodedInstruction}
use rust_computer.Isa.Exception.{Interrupt}

-- A latched instruction that is still to execute.
unfoldable pub IsHeld : Option IdExPayload → Type 0
IsHeld none = Unit
IsHeld (some payload) = HasCsr payload.decoded.kind payload.decoded.csr

-- The registers and the page walker are in order, both decode latches hold instructions that `decode`
-- made, the cycle's number is `n`, `m` instructions have retired, and a trap retires none.
pub record Facts (n m : ℕ) (w : PageWalker) (r : RegisterFile) (current next : Option IdExPayload)
    (cycle retired : ℕ) (trap_result : Option ExecutionResult) : Type 0 where
  pub at_rest : rank w ≤ 2
  pub registers : Laws.IsValid r
  pub held : IsHeld current
  pub next_held : IsHeld next
  pub counted : cycle ≡ n
  pub retires : retired ≡ m
  pub traps : trap_retired trap_result ≡ 0

abbrev pub IsSound : ℕ → ℕ → Progress → Type 0
IsSound n m p =
    Facts n m p.core.page_walker p.core.state.registers p.core.latches.id_ex p.next.id_ex
      p.core.cycle p.retired_instructions p.trap_result

unfoldable pub Sounds : {S : Type 0} → ℕ → ℕ → Staged S → Type 0
Sounds n m (s, p, done (ok _)) = IsSound n m p
Sounds n m (s, p, done (err e)) = ⊥
Sounds n m (s, p, panicked) = ⊥
Sounds n m (s, p, out_of_fuel) = ⊥

pub take_trap-IsSound :
    (n m : ℕ) (p : Progress) (t : Trap) (pc : ℕ) (note : String)
    → IsSound n m p
    → IsSound n m (take_trap p t pc note)
unfolding take_trap apply_trap
take_trap-IsSound n m p t pc note i = record {
  at_rest = i.at_rest;
  registers = i.registers;
  held = i.held;
  next_held = i.next_held;
  counted = i.counted;
  retires = i.retires;
  traps = refl;
}

abbrev pub present {ℓ} : {A : Type ℓ} → Option A → ℕ
present none = 0
present (some _) = 1

pub start-IsSound :
    (c : PipelineCore)
    → rank c.page_walker ≤ 2
    → Laws.IsValid c.state.registers
    → IsHeld c.latches.id_ex
    → IsSound c.cycle 0 (start c)
unfolding start IsHeld default
start-IsSound c b r k = record {
  at_rest = b;
  registers = r;
  held = k;
  next_held = tt;
  counted = refl;
  retires = refl;
  traps = refl;
}

pub write_back_stage-IsSound :
    (n : ℕ) (p : Progress) (x : Option MemWbPayload)
    → IsSound n 0 p
    → IsSound n (present x) (write_back_stage p x)
unfolding write_back_stage write_back
write_back_stage-IsSound n p none i = i
write_back_stage-IsSound n p (some payload) i =
    let k =
      write_kind-InOrder payload.decoded.kind p.core.state p.core.page_walker payload
        (i.registers, i.at_rest) in
    record {
      at_rest = k.1;
      registers = k.0;
      held = i.held;
      next_held = i.next_held;
      counted = i.counted;
      retires = omega (arith, i.retires);
      traps = i.traps;
    }

pub interrupt_taken-IsSound :
    (n m : ℕ) (p : Progress) (x : Option Interrupt)
    → IsSound n m p
    → IsSound n m (interrupt_taken p x)
unfolding interrupt_taken
interrupt_taken-IsSound n m p none i = i
interrupt_taken-IsSound n m p (some _) i = take_trap-IsSound n m p _ _ _ i

memory_event-IsSound :
    (n m : ℕ) (p : Progress) (payload : ExMemPayload) (event : MemoryEvent)
    → IsSound n m p
    → IsSound n m (memory_event p payload event)
unfolding memory_event
memory_event-IsSound n m p payload (MemoryEvent.advance _) i = i
memory_event-IsSound n m p payload (MemoryEvent.stall _) i = record {
  at_rest = i.at_rest;
  registers = i.registers;
  held = i.held;
  next_held = i.held;
  counted = i.counted;
  retires = i.retires;
  traps = i.traps;
}
memory_event-IsSound n m p payload (MemoryEvent.trap _) i = take_trap-IsSound n m p _ _ _ i

-- The stages set the walker to one at rest.
pub walker-IsSound :
    (n m : ℕ) (p : Progress) (w : PageWalker)
    → IsSound n m p
    → rank w ≤ 2
    → IsSound n m (with_walker p w)
walker-IsSound n m p w i b = record {
  at_rest = b;
  registers = i.registers;
  held = i.held;
  next_held = i.next_held;
  counted = i.counted;
  retires = i.retires;
  traps = i.traps;
}

memory_accessed-Sounds :
    {S : Type 0} (n m : ℕ) (p : Progress) (payload : ExMemPayload) (x : Accessed S)
    → IsSound n m p
    → Accesses x
    → Sounds n m (memory_accessed p payload x)
unfolding memory_accessed Accesses Sounds
memory_accessed-Sounds n m p payload (s, w, done (ok event)) i a =
    memory_event-IsSound n m (with_walker p w) payload event (walker-IsSound n m p w i a)
memory_accessed-Sounds n m p payload (s, w, done (err e)) i a = absurd a
memory_accessed-Sounds n m p payload (s, w, panicked) i a = absurd a
memory_accessed-Sounds n m p payload (s, w, out_of_fuel) i a = absurd a

module _ {S : Type 0} (bus : Bus S) where
  pub memory_latched-Sounds :
      (n m : ℕ) (p : Progress) (s : S) (x : Option ExMemPayload)
      → IsSound n m p
      → Sounds n m (memory_latched bus s p x)
  unfolding memory_latched
  memory_latched-Sounds n m p s none i = unfold Sounds in i
  memory_latched-Sounds n m p s (some payload) i =
      if_elim (Sounds n m) p.flushed (λ _. unfold Sounds in i)
        (λ _.
          memory_accessed-Sounds n m _ payload _ (i)
            (access-Accesses bus _ _ _ payload s i.at_rest))

pub redirect-IsSound :
    (n m : ℕ) (p : Progress) (d : DecodedInstruction) (o : ExecuteOutcome) (predicted : ℕ)
    → IsSound n m p
    → IsSound n m (redirect p d o predicted)
unfolding redirect
redirect-IsSound n m p d o predicted i =
    if_elim (IsSound n m) (is_translation_barrier_payload d o.csr_write) (λ _. i)
      (λ _. if_elim (IsSound n m) (detect_branch_flush predicted o.next_pc) (λ _. i) (λ _. i))
