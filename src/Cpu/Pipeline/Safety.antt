-- ===== src/Cpu/Pipeline/Safety.antt =====
-- core/pipeline.rs: the execute, decode and fetch stages keep the progress sound, and the end of a cycle.
use rust_computer.Base.{
  ℕ, ◌≤◌, ◌≡◌, refl, arith, Bool, true, false, not, ◌&&◌, ◌||◌, ◌==◌, Option, none, some, Result,
  ok, err, if◌then◌else◌, if_elim,
}
use rust_computer.Cpu.Exec.Effects.{apply_trap}
use rust_computer.Cpu.Mmu.Steps.{rank}
use rust_computer.Cpu.Mmu.Types.{Completion, done, panicked, out_of_fuel}
use rust_computer.Cpu.Pipeline.Fetch.{Fetched}
use rust_computer.Cpu.Pipeline.Latches.{default, IdExPayload}
use rust_computer.Cpu.Pipeline.Progress.{Progress, Staged}
use rust_computer.Cpu.CsrFile.{CsrFile}
use rust_computer.Cpu.Privilege.{PrivilegeMode, is_supervisor}
use rust_computer.Cpu.Registers.Laws
use rust_computer.Isa.Decode.Fields.{HasCsr}
use rust_computer.Isa.Opcode.{InstructionKind, CsrOp}
use rust_computer.System.Bus.{}
use rust_computer.Cpu.Pipeline.Stages.{Fetches}
use rust_computer.Cpu.Pipeline.Core.{
  PipelineCore, requires_csr_serialization, has_in_flight_csr_instruction,
}
use rust_computer.Cpu.Pipeline.Execute
use rust_computer.Cpu.Pipeline.Execute.{ExecuteEvent, ExecuteOutcome, execute, is_load, uses_memory}
use rust_computer.Cpu.Pipeline.Latches.{IfIdPayload}
use rust_computer.Cpu.Pipeline.Fetch.{FetchEvent}
use rust_computer.Cpu.Pipeline.Progress.{on, then_stage}
use rust_computer.Cpu.Pipeline.BackEnd.{with_walker}
use rust_computer.Cpu.Pipeline.FrontEnd.{
  execute_stage, execute_payload, executed, execute_event, train, decode_stage, decode_latched,
  decode_payload, load_use_hazard,
}
use rust_computer.Cpu.CsrFile.Interrupts.{allows_csr_access, tvm_enabled}
use rust_computer.Isa.Csr.{CsrAddress, code}
use rust_computer.Isa.Decode.{DecodedInstruction, decode}
use rust_computer.Isa.Decode.Fields.{decode-HasCsr}
use rust_computer.Isa.Exception.{Interrupt}
use rust_computer.Cpu.Pipeline.Sound.{
  IsHeld, IsSound, Sounds, take_trap-IsSound, redirect-IsSound, walker-IsSound,
}
use rust_computer.Cpu.Pipeline.Cycle.{
  Cycled, fetch_event, fetch_done, finish, finish_cycle, cycle_result, halted_cycle,
}

unfoldable pub Executed : Completion ExecuteEvent → Type 0
Executed (done event) = Unit
Executed panicked = ⊥
Executed out_of_fuel = ⊥

done-Executed : (event : ExecuteEvent) → Executed (done event)
unfolding Executed
done-Executed event = tt

csr-Executed :
    (op : CsrOp) (d : DecodedInstruction) (v1 next : ℕ) (privilege : PrivilegeMode) (csrs : CsrFile)
    (x : Option CsrAddress)
    → HasCsr (InstructionKind.csr op) x
    → Executed (Execute.execute_csr op d v1 next privilege csrs x)
unfolding Execute.execute_csr HasCsr
csr-Executed op d v1 next privilege csrs none k = absurd k
csr-Executed op d v1 next privilege csrs (some a) k =
    if_elim Executed (not (allows_csr_access csrs privilege a)) (λ _. done-Executed _)
      (λ _.
        if_elim Executed
          (is_supervisor privilege && tvm_enabled csrs && (code a == code CsrAddress.satp))
          (λ _. done-Executed _) (λ _. done-Executed _))

kind-Executed :
    (kind : InstructionKind) (d : DecodedInstruction) (v1 v2 next : ℕ) (privilege : PrivilegeMode)
    (csrs : CsrFile)
    → HasCsr kind d.csr
    → Executed (Execute.execute_kind kind d v1 v2 next privilege csrs)
unfolding Execute.execute_kind
kind-Executed (InstructionKind.csr op) d v1 v2 next privilege csrs k =
    csr-Executed op d v1 next privilege csrs d.csr k
kind-Executed _ d v1 v2 next privilege csrs k = unfold Executed in tt

execute_event-IsSound :
    (n m : ℕ) (p : Progress) (payload : IdExPayload) (event : ExecuteEvent)
    → IsSound n m p
    → IsSound n m (execute_event p payload event)
unfolding execute_event train
execute_event-IsSound n m p payload (ExecuteEvent.advance o) i =
    redirect-IsSound n m (record p { core = train p.core payload.decoded o }) payload.decoded o
      payload.predicted_pc
      (if_elim (λ (c : PipelineCore). IsSound n m (record p { core = c })) _ (λ _. i) (λ _. i))
execute_event-IsSound n m p payload (ExecuteEvent.trap t) i = take_trap-IsSound n m p t _ _ i

executed-Sounds :
    {S : Type 0} (n m : ℕ) (s : S) (p : Progress) (payload : IdExPayload)
    (x : Completion ExecuteEvent)
    → IsSound n m p
    → Executed x
    → Sounds n m (executed s p payload x)
unfolding executed Sounds Executed
executed-Sounds n m s p payload (done event) i e = execute_event-IsSound n m p payload event i
executed-Sounds n m s p payload panicked i e = absurd e
executed-Sounds n m s p payload out_of_fuel i e = absurd e

execute_payload-Sounds :
    {S : Type 0} (n m : ℕ) (s : S) (p : Progress) (x : Option IdExPayload)
    → IsSound n m p
    → IsHeld x
    → Sounds n m (execute_payload s p x)
unfolding execute_payload IsHeld
execute_payload-Sounds n m s p none i k = unfold Sounds in i
execute_payload-Sounds n m s p (some payload) i k =
    executed-Sounds n m s p payload _ i
      (unfold execute in kind-Executed payload.decoded.kind payload.decoded _ _ _ _ _ k)

pub execute_stage-Sounds :
    {S : Type 0} (n m : ℕ) (s : S) (p : Progress) → IsSound n m p → Sounds n m (execute_stage s p)
unfolding execute_stage
execute_stage-Sounds n m s p i =
    if_elim (Sounds n m) (not p.flushed && not p.memory_wait && not p.translation_barrier)
      (λ _. execute_payload-Sounds n m s p p.core.latches.id_ex i i.held) (λ _. unfold Sounds in i)

abbrev stalls : Progress → DecodedInstruction → Bool
stalls p d =
    load_use_hazard p.core.latches.id_ex d
    || (requires_csr_serialization d && has_in_flight_csr_instruction p.core.latches)

decode_payload-IsSound :
    (n m : ℕ) (p : Progress) (payload : IfIdPayload) (x : Result ℕ DecodedInstruction)
    → decode payload.raw payload.pc ≡ x
    → IsSound n m p
    → IsSound n m (decode_payload p payload x)
unfolding decode_payload IsHeld
decode_payload-IsSound n m p payload (ok d) e i =
    if_elim (λ (q : Progress). IsSound n m q) (stalls p d) (λ _. i)
      (λ _. record {
        at_rest = i.at_rest;
        registers = i.registers;
        held = i.held;
        next_held = decode-HasCsr payload.raw payload.pc d e;
        counted = i.counted;
        retires = i.retires;
        traps = i.traps;
      })
decode_payload-IsSound n m p payload (err _) e i = take_trap-IsSound n m p _ _ _ i

decode_latched-IsSound :
    (n m : ℕ) (p : Progress) (x : Option IfIdPayload)
    → IsSound n m p
    → IsSound n m (decode_latched p x)
unfolding decode_latched
decode_latched-IsSound n m p none i = i
decode_latched-IsSound n m p (some payload) i = decode_payload-IsSound n m p payload _ refl i

pub decode_stage-IsSound : (n m : ℕ) (p : Progress) → IsSound n m p → IsSound n m (decode_stage p)
unfolding decode_stage
decode_stage-IsSound n m p i =
    if_elim (λ (q : Progress). IsSound n m q)
      (not p.flushed && not p.memory_wait && not p.translation_barrier)
      (λ _. decode_latched-IsSound n m p p.core.latches.if_id i)
      (λ _.
        if_elim (λ (q : Progress). IsSound n m q)
          (not p.flushed && not p.memory_wait && p.translation_barrier)
          (λ _. record {
            at_rest = i.at_rest;
            registers = i.registers;
            held = i.held;
            next_held = i.held;
            counted = i.counted;
            retires = i.retires;
            traps = i.traps;
          })
          (λ _. i))

fetch_event-IsSound :
    (n m : ℕ) (p : Progress) (pc : ℕ) (event : FetchEvent)
    → IsSound n m p
    → IsSound n m (fetch_event p pc event)
unfolding fetch_event
fetch_event-IsSound n m p pc (FetchEvent.advance _) i = i
fetch_event-IsSound n m p pc FetchEvent.stall i = i
fetch_event-IsSound n m p pc (FetchEvent.trap t) i = take_trap-IsSound n m p t _ _ i

pub fetch_done-Sounds :
    {S : Type 0} (n m : ℕ) (p : Progress) (pc : ℕ) (x : Fetched S)
    → IsSound n m p
    → Fetches x
    → Sounds n m (fetch_done p pc x)
unfolding fetch_done Fetches Sounds
fetch_done-Sounds n m p pc (s, w, done (ok event)) i a =
    fetch_event-IsSound n m (with_walker p w) pc event (walker-IsSound n m p w i a)
fetch_done-Sounds n m p pc (s, w, done (err e)) i a = absurd a
fetch_done-Sounds n m p pc (s, w, panicked) i a = absurd a
fetch_done-Sounds n m p pc (s, w, out_of_fuel) i a = absurd a

pub on-Sounds : {S : Type 0} (n m : ℕ) (s : S) (p : Progress) → IsSound n m p → Sounds n m (on s p)
unfolding Sounds
on-Sounds n m s p i = i

pub then_stage-Sounds :
    {S : Type 0} (n m : ℕ) (next : S → Progress → Staged S) (x : Staged S)
    → Sounds n m x
    → ((s : S) (p : Progress) → IsSound n m p → Sounds n m (next s p))
    → Sounds n m (then_stage next x)
unfolding Sounds
then_stage-Sounds n m next (s, p, done (ok _)) i f = f s p i
then_stage-Sounds n m next (s, p, done (err e)) i f = absurd i
then_stage-Sounds n m next (s, p, panicked) i f = absurd i
then_stage-Sounds n m next (s, p, out_of_fuel) i f = absurd i

pub cleared-IsSound :
    (n m : ℕ) (p : Progress)
    → IsSound n m p
    → IsSound n m (record p { next = record (p.next) { if_id = none; id_ex = none } })
unfolding IsHeld
cleared-IsSound n m p i = record {
  at_rest = i.at_rest;
  registers = i.registers;
  held = i.held;
  next_held = tt;
  counted = i.counted;
  retires = i.retires;
  traps = i.traps;
}

-- Between two cycles: the walker waits for the bus at most, the registers are 32 words with x0 at
-- zero, and the instruction to execute next is one that `decode` made.
pub record IsReady (c : PipelineCore) : Type 0 where
  pub at_rest : rank c.page_walker ≤ 2
  pub registers : Laws.IsValid c.state.registers
  pub held : IsHeld c.latches.id_ex

-- `m` instructions retired in cycle `n`.
unfoldable pub Completes : {S : Type 0} → ℕ → ℕ → Cycled S → Type 0
Completes n m (s, c, done (ok cycle)) = IsReady c × (c.cycle ≡ n) × (cycle.retired_instructions ≡ m)
Completes n m (s, c, done (err e)) = ⊥
Completes n m (s, c, panicked) = ⊥
Completes n m (s, c, out_of_fuel) = ⊥

pub finish_cycle-Completes :
    {S : Type 0} (n m : ℕ) (x : Staged S) → Sounds n m x → Completes n m (finish_cycle x)
unfolding finish_cycle finish cycle_result Sounds Completes
finish_cycle-Completes n m (s, p, done (ok _)) i = (
  record { at_rest = i.at_rest; registers = i.registers; held = i.next_held },
  i.counted,
  omega (arith, i.retires, i.traps),
)
finish_cycle-Completes n m (s, p, done (err e)) i = absurd i
finish_cycle-Completes n m (s, p, panicked) i = absurd i
finish_cycle-Completes n m (s, p, out_of_fuel) i = absurd i

pub halted_cycle-Completes :
    {S : Type 0} (s : S) (c : PipelineCore) (x : Option Interrupt)
    → IsReady c
    → Completes c.cycle 0 (halted_cycle s c x)
unfolding halted_cycle apply_trap Completes IsHeld default
halted_cycle-Completes s c none r =
    (record { at_rest = r.at_rest; registers = r.registers; held = r.held }, refl, refl)
halted_cycle-Completes s c (some i) r =
    (record { at_rest = r.at_rest; registers = r.registers; held = tt }, refl, refl)

pub both_if :
    {A B : Type 0} (P : A → B → Type 0) (b : Bool) {k m : A} {x y : B}
    → P k x
    → P m y
    → P (if b then k else m) (if b then x else y)
both_if P true p q = p
both_if P false p q = q
