-- ===== src/Cpu/Mmu/Types.antt =====
-- mmu.rs, lines 35 to 105: the requests, the walker's state and the results.
use rust_computer.Base.{ℕ, Bool, true, false, Option, none, List, replicate, ◌==◌, ◌&&◌}
use rust_computer.Cpu.Privilege.{PrivilegeMode, user, supervisor, machine}
use rust_computer.Isa.Exception.{Trap}

pub data MemoryAccess : Type 0 where
  instruction load store : MemoryAccess

pub data TranslationResult : Type 0 where
  physical_address : ℕ → TranslationResult
  stall : TranslationResult
  fault : Trap → TranslationResult

pub record TranslationFence : Type 0 where
  pub virtual_address : Option ℕ
  pub asid : Option ℕ

pub data WalkPhase : Type 0 where
  read_pte : WalkPhase
  write_leaf : ℕ → ℕ → ℕ → WalkPhase  -- physical_address, flags, value

pub record TranslationRequest : Type 0 where
  pub satp : ℕ
  pub status : ℕ
  pub privilege : PrivilegeMode
  pub virtual_address : ℕ
  pub access : MemoryAccess

pub record WalkState : Type 0 where
  pub request : TranslationRequest
  pub level : ℕ
  pub pte_address : ℕ
  pub global_mapping : Bool
  pub phase : WalkPhase

pub record TlbEntry : Type 0 where
  pub satp : ℕ
  pub virtual_base : ℕ
  pub physical_base : ℕ
  pub page_mask : ℕ
  pub flags : ℕ
  pub global_mapping : Bool

abbrev pub tlb_entry_count : ℕ
tlb_entry_count = 8

pub record PageWalker : Type 0 where
  pub active : Option WalkState
  pub tlb : List (Option TlbEntry)
  pub next_tlb_entry : ℕ

pub data StepResult : Type 0 where
  stall drained : StepResult
  ready : ℕ → StepResult
  fault : Trap → StepResult

-- How a call ends: with a value, in one of the source's panics (`expect`, `unreachable!`), or, in
-- the model alone, with its loop cut off.
pub data Completion (A : Type 0) : Type 0 where
  done : A → Completion A
  panicked out_of_fuel : Completion A

unfoldable pub default : PageWalker
default = record { active = none; tlb = replicate tlb_entry_count none; next_tlb_entry = 0 }

-- The derived `==` of the request and of the enums in it.
unfoldable pub privilege_eq : PrivilegeMode → PrivilegeMode → Bool
privilege_eq user user = true
privilege_eq supervisor supervisor = true
privilege_eq machine machine = true
privilege_eq _ _ = false

unfoldable pub access_eq : MemoryAccess → MemoryAccess → Bool
access_eq instruction instruction = true
access_eq load load = true
access_eq store store = true
access_eq _ _ = false

unfoldable pub request_eq : TranslationRequest → TranslationRequest → Bool
request_eq a b =
    (a.satp == b.satp)
    && (a.status == b.status)
    && privilege_eq a.privilege b.privilege
    && (a.virtual_address == b.virtual_address)
    && access_eq a.access b.access
