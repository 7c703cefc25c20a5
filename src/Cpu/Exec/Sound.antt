-- ===== src/Cpu/Exec/Sound.antt =====
-- What every executed instruction keeps, and the cases that the arms of `execute_decoded` share.
use rust_computer.Base.{ℕ, ◌≤◌, ◌≡◌, ◌≢◌, refl, arith, Bool, false, Option, none, some, ok, err}
use rust_computer.Cpu.Exec.Effects.{ExecutionResult, Outcome, retire, trapped, write_rd, apply_trap}
use rust_computer.Cpu.Hart.{HartState}
use rust_computer.Cpu.Mmu.Steps.{rank}
use rust_computer.Cpu.Mmu.Types.{PageWalker, done, panicked, out_of_fuel}
use rust_computer.Cpu.Privilege.{user}
use rust_computer.Cpu.Registers.Laws.{write-IsValid}
use rust_computer.Cpu.Registers.Laws
use rust_computer.Isa.Exception.{Trap}

-- The change of a hart by one instruction.
pub record Change (h h' : HartState) (result : ExecutionResult) : Type 0 where
  pub retires_once : result.retired ≤ 1
  pub trap_retires_none : (t : Trap) → result.trap ≡ some t → result.retired ≡ 0
  pub stall_keeps : result.retired ≡ 0 → result.trap ≡ none → h' ≡ h
  pub confined :
      h.privilege ≡ user → result.trap ≡ none → (h'.privilege ≡ user) × (h'.csrs ≡ h.csrs)
  pub keeps_registers : Laws.IsValid h.registers → Laws.IsValid h'.registers

-- The call returned a result, not an error, and the hart changed as above.
unfoldable pub Executes : {S : Type 0} → HartState → Outcome S → Type 0
Executes h (s, w, h', done (ok result)) = Change h h' result × (rank w ≤ 2)
Executes h (s, w, h', done (err e)) = ⊥
Executes h (s, w, h', panicked) = ⊥
Executes h (s, w, h', out_of_fuel) = ⊥

pub write_rd-IsValid :
    (h : HartState) (rd : Option ℕ) (v : ℕ)
    → Laws.IsValid h.registers
    → Laws.IsValid (write_rd h rd v).registers
unfolding write_rd
write_rd-IsValid h none v ok_registers = ok_registers
write_rd-IsValid h (some rd) v ok_registers = write-IsValid h.registers rd v ok_registers

pub write_rd-privilege :
    (h : HartState) (rd : Option ℕ) (v : ℕ) → (write_rd h rd v).privilege ≡ h.privilege
unfolding write_rd
write_rd-privilege h none v = refl
write_rd-privilege h (some rd) v = refl

pub write_rd-csrs : (h : HartState) (rd : Option ℕ) (v : ℕ) → (write_rd h rd v).csrs ≡ h.csrs
unfolding write_rd
write_rd-csrs h none v = refl
write_rd-csrs h (some rd) v = refl

-- An instruction that retires and leaves the privilege and the CSRs alone.
pub retired-Change :
    (h h' : HartState) (accessed : Bool)
    → h'.privilege ≡ h.privilege
    → h'.csrs ≡ h.csrs
    → (Laws.IsValid h.registers → Laws.IsValid h'.registers)
    → Change h h' (record { retired = 1; trap = none; memory_access = accessed })
retired-Change h h' accessed p c r = record {
  retires_once = omega arith;
  trap_retires_none = λ t e. cc;
  stall_keeps = λ z e. absurd (omega arith);
  confined = λ u e. (cc, c);
  keeps_registers = r;
}

pub retire-Executes :
    {S : Type 0} (h h' : HartState) (w : PageWalker) (s : S)
    → h'.privilege ≡ h.privilege
    → h'.csrs ≡ h.csrs
    → (Laws.IsValid h.registers → Laws.IsValid h'.registers)
    → rank w ≤ 2
    → Executes h (retire h' w s)
unfolding Executes
retire-Executes h h' w s p c r b = (retired-Change h h' false p c r, b)

-- An instruction that retires outside user mode, and keeps the registers.
pub privileged-Executes :
    {S : Type 0} (h h' : HartState) (w : PageWalker) (s : S)
    → h.privilege ≢ user
    → (Laws.IsValid h.registers → Laws.IsValid h'.registers)
    → rank w ≤ 2
    → Executes h (retire h' w s)
unfolding Executes
privileged-Executes h h' w s above r b = (
  record {
    retires_once = omega arith;
    trap_retires_none = λ t e. cc;
    stall_keeps = λ z e. absurd (omega arith);
    confined = λ u e. absurd (above u);
    keeps_registers = r;
  },
  b,
)

-- The stall, which leaves the hart as it was.
pub stalled-Change :
    (h : HartState) (accessed : Bool)
    → Change h h (record { retired = 0; trap = none; memory_access = accessed })
stalled-Change h accessed = record {
  retires_once = omega arith;
  trap_retires_none = λ t e. refl;
  stall_keeps = λ z e. refl;
  confined = λ u e. (u, refl);
  keeps_registers = λ r. r;
}

-- A trap, which keeps the registers.
pub trapped-Executes :
    {S : Type 0} (accessed : Bool) (h : HartState) (w : PageWalker) (s : S) (trap : Trap) (pc : ℕ)
    → rank w ≤ 2
    → Executes h (trapped accessed h w s trap pc)
unfolding Executes trapped apply_trap
trapped-Executes accessed h w s trap pc b = (
  record {
    retires_once = omega arith;
    trap_retires_none = λ t e. refl;
    stall_keeps = λ z e. cc e;
    confined = λ u e. absurd (some≢none e);
    keeps_registers = λ r. r;
  },
  b,
)
  where
    some≢none : {t : Trap} → some t ≡ none → ⊥
    some≢none e = cc e
