-- ===== src/Cpu/Mmu/Walker.antt =====
-- mmu.rs, lines 189 to 336: one step of the walk. No path of `step` gives the `Err` of its type, so its result stands without it.
use rust_computer.Base.{
  ℕ, ◌+◌, ◌-◌, ◌*◌, Bool, not, ◌&&◌, ◌||◌, Option, none, some, Result, ok, err, ◌==◌, if◌then◌else◌,
}
use rust_computer.Bits.{shl, u32, has_flag}
use rust_computer.Cpu.Mmu.Pte.{
  vpn, page_shift, pte_flags, pte_ppn, pte_is_global, nonleaf_flags_valid, needs_access_bit_update,
  updated_flags, updated_pte, translate_leaf, permissions_allow, page_fault, access_fault, pte_v,
  pte_r, pte_w, pte_x,
}
use rust_computer.Cpu.Mmu.Tlb.{insert_tlb}
use rust_computer.Cpu.Mmu.Types.{
  WalkPhase, read_pte, write_leaf, WalkState, PageWalker, StepResult, drained, ready, Completion,
  done, panicked,
}
use rust_computer.System.Bus.{Bus, BusError, busy}

-- `if drain_only { StepResult::Drained } else { result }`.
abbrev pub or_drained : Bool → StepResult → StepResult
or_drained drain_only result = if drain_only then drained else result

abbrev idle : PageWalker → PageWalker
idle w = record w { active = none }

-- `if !drain_only { self.insert_tlb(..) }`.
abbrev pub insert_unless : Bool → PageWalker → WalkState → ℕ → ℕ → PageWalker
insert_unless drain_only w state flags address =
    if not drain_only then insert_tlb w state flags address else w

-- The walk's next state, one level down.
abbrev pub descend : WalkState → ℕ → WalkState
descend state pte =
    let next_level = state.level - 1 in
    record state {
      level = next_level;
      pte_address =
          u32 (shl (pte_ppn pte) page_shift + vpn state.request.virtual_address next_level * 4);
      global_mapping = state.global_mapping || pte_is_global (pte_flags pte);
      phase = read_pte;
    }

module _ {S : Type 0} (bus : Bus S) where
  -- The `match` on the store's result in `finish_leaf_update`.
  unfoldable pub after_store :
      PageWalker
      → WalkState
      → ℕ
      → ℕ
      → Bool
      → S × Result BusError (Unit {0})
      → S × PageWalker × Completion StepResult
  after_store w state address flags drain_only (s, ok _) = (
    s,
    idle (insert_unless drain_only w state flags address),
    done (or_drained drain_only (ready address)),
  )
  after_store w state address flags drain_only (s, err (busy _)) = (s, w, done StepResult.stall)
  after_store w state address flags drain_only (s, err _) =
      (s, idle w, done (or_drained drain_only (StepResult.fault (access_fault state.request))))

  unfoldable pub finish_leaf_update :
      PageWalker → WalkState → ℕ → ℕ → ℕ → Bool → S → S × PageWalker × Completion StepResult
  finish_leaf_update w state address flags value drain_only s =
      after_store w state address flags drain_only (bus.store32 state.pte_address value s)

  -- A leaf entry whose address is known. The recursive call of `step` finds the phase
  -- `WriteLeaf`, so it is a call of `finish_leaf_update`.
  unfoldable pub use_leaf :
      PageWalker → WalkState → ℕ → Bool → S → Option ℕ → S × PageWalker × Completion StepResult
  use_leaf w state pte drain_only s none =
      (s, idle w, done (or_drained drain_only (StepResult.fault (page_fault state.request))))
  use_leaf w state pte drain_only s (some address) =
      let r = state.request in
      let flags = pte_flags pte in
      let state' = record state {
        phase = write_leaf address (updated_flags r flags) (updated_pte pte r);
      } in
      if not (permissions_allow r flags)
      then (s, idle w, done (or_drained drain_only (StepResult.fault (page_fault r))))
      else if needs_access_bit_update r flags
      then finish_leaf_update (record w { active = some state' }) state' address
          (updated_flags r flags) (updated_pte pte r) drain_only s
      else (
        s,
        idle (insert_unless drain_only w state flags address),
        done (or_drained drain_only (ready address)),
      )

  unfoldable pub use_pte :
      PageWalker → WalkState → ℕ → Bool → S → S × PageWalker × Completion StepResult
  use_pte w state pte drain_only s =
      let flags = pte_flags pte in
      let failed : S × PageWalker × Completion StepResult =
        (s, idle w, done (or_drained drain_only (StepResult.fault (page_fault state.request)))) in
      if not (has_flag flags pte_v) || (not (has_flag flags pte_r) && has_flag flags pte_w)
      then failed
      else if has_flag flags (pte_r + pte_x)
      then use_leaf w state pte drain_only s (translate_leaf state pte)
      else if not (nonleaf_flags_valid flags)
      then failed
      else if state.level == 0
      then failed
      else (s, record w { active = some (descend state pte) }, done drained)

  -- The `match` on the result of `bus.load32`.
  unfoldable pub after_load :
      PageWalker → WalkState → Bool → S × Result BusError ℕ → S × PageWalker × Completion StepResult
  after_load w state drain_only (s, ok pte) = use_pte w state pte drain_only s
  after_load w state drain_only (s, err (busy _)) = (s, w, done StepResult.stall)
  after_load w state drain_only (s, err _) =
      (s, idle w, done (or_drained drain_only (StepResult.fault (access_fault state.request))))

  unfoldable pub step_phase :
      PageWalker → WalkState → WalkPhase → Bool → S → S × PageWalker × Completion StepResult
  step_phase w state (write_leaf address flags value) drain_only s =
      finish_leaf_update w state address flags value drain_only s
  step_phase w state read_pte drain_only s =
      after_load w state drain_only (bus.load32 state.pte_address s)

  -- `step`, on what `self.active` holds.
  unfoldable pub step_active :
      PageWalker → Option WalkState → Bool → S → S × PageWalker × Completion StepResult
  step_active w none drain_only s = (s, w, panicked)
  step_active w (some state) drain_only s = step_phase w state state.phase drain_only s

  unfoldable pub step : PageWalker → Bool → S → S × PageWalker × Completion StepResult
  step w drain_only s = step_active w w.active drain_only s
