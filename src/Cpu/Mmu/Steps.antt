-- ===== src/Cpu/Mmu/Steps.antt =====
-- How far one step takes a walk, whatever the bus answers.
use native.Mathlib.Nat.{le_refl}
use rust_computer.Base.{
  ℕ, suc, ◌≤◌, ◌<◌, ◌≡◌, refl, arith, sym, Bool, true, false, Option, none, some, Result, ok, err,
  ◌==◌, subst,
}
use rust_computer.Cpu.Mmu.Pte.{translate_leaf, pte_flags, updated_flags, updated_pte, page_fault}
use rust_computer.Cpu.Mmu.Types.{
  TranslationRequest, WalkPhase, read_pte, write_leaf, WalkState, PageWalker, StepResult, drained,
  ready, Completion, done, panicked, out_of_fuel,
}
use rust_computer.Cpu.Mmu.Walker.{
  or_drained, insert_unless, descend, after_store, finish_leaf_update, use_leaf, use_pte,
  after_load, step_phase, step_active, step,
}
use rust_computer.Isa.Exception.{Trap}
use rust_computer.System.Bus.{Bus, BusError, busy, unmapped_address}

-- How many page-table reads the active walk may still need; 0 without a walk.
abbrev pub active_rank : Option WalkState → ℕ
active_rank none = 0
active_rank (some state) = suc state.level

abbrev pub rank : PageWalker → ℕ
rank w = active_rank w.active

-- What a step may answer in a walk for the request `r` that stands at `level`.
unfoldable pub Advances :
    {S : Type 0} → Bool → TranslationRequest → ℕ → S × PageWalker × Completion StepResult → Type 0
Advances drain_only r level (s, w, done StepResult.stall) = rank w ≤ suc level
Advances true r level (s, w, done drained) = rank w < suc level
Advances false r level (s, w, done drained) =
    (next : WalkState) × (w.active ≡ some next) × (next.request ≡ r) × (next.level < level)
Advances drain_only r level (s, w, done (ready _)) = (drain_only ≡ false) × (w.active ≡ none)
Advances drain_only r level (s, w, done (StepResult.fault _)) =
    (drain_only ≡ false) × (w.active ≡ none)
Advances drain_only r level (s, w, panicked) = ⊥
Advances drain_only r level (s, w, out_of_fuel) = ⊥

-- A walk that ends has no walk left.
ready-Advances :
    {S : Type 0} (drain_only : Bool) (r : TranslationRequest) (level : ℕ) (s : S) (w : PageWalker)
    (address : ℕ)
    → w.active ≡ none
    → Advances drain_only r level (s, w, done (or_drained drain_only (ready address)))
unfolding Advances
ready-Advances true r level s w address e = rw e (omega arith)
ready-Advances false r level s w address e = (refl, e)

fault-Advances :
    {S : Type 0} (drain_only : Bool) (r : TranslationRequest) (level : ℕ) (s : S) (w : PageWalker)
    (trap : Trap)
    → w.active ≡ none
    → Advances drain_only r level (s, w, done (or_drained drain_only (StepResult.fault trap)))
unfolding Advances
fault-Advances true r level s w trap e = rw e (omega arith)
fault-Advances false r level s w trap e = (refl, e)

descend-Advances :
    {S : Type 0} (drain_only : Bool) (state : WalkState) (s : S) (w : PageWalker) (pte : ℕ)
    → (state.level == 0) ≡ false
    → Advances drain_only state.request state.level
        (s, record w { active = some (descend state pte) }, done drained)
unfolding Advances
descend-Advances true state s w pte h = ground arith
descend-Advances false state s w pte h = (descend state pte, refl, refl, ground arith)

module _ {S : Type 0} (bus : Bus S) where
  after_store-Advances :
      (w : PageWalker) (state : WalkState) (address flags : ℕ) (drain_only : Bool)
      (x : S × Result BusError (Unit {0}))
      → rank w ≤ suc state.level
      → Advances drain_only state.request state.level
          (after_store bus w state address flags drain_only x)
  unfolding after_store Advances
  after_store-Advances w state address flags drain_only (s, ok _) h =
      ready-Advances drain_only state.request state.level s _ address refl
  after_store-Advances w state address flags drain_only (s, err (busy _)) h = h
  after_store-Advances w state address flags drain_only (s, err (unmapped_address _)) h =
      fault-Advances drain_only state.request state.level s _ _ refl
  after_store-Advances w state address flags drain_only (s, err _) h =
      fault-Advances drain_only state.request state.level s _ _ refl

  finish-Advances :
      (w : PageWalker) (state : WalkState) (address flags value : ℕ) (drain_only : Bool) (s : S)
      → rank w ≤ suc state.level
      → Advances drain_only state.request state.level
          (finish_leaf_update bus w state address flags value drain_only s)
  unfolding finish_leaf_update
  finish-Advances w state address flags value drain_only s h =
      after_store-Advances w state address flags drain_only (bus.store32 state.pte_address value s)
        h

  use_leaf-Advances :
      (w : PageWalker) (state : WalkState) (pte : ℕ) (drain_only : Bool) (s : S) (x : Option ℕ)
      → Advances drain_only state.request state.level (use_leaf bus w state pte drain_only s x)
  unfolding use_leaf
  use_leaf-Advances w state pte drain_only s none =
      fault-Advances drain_only state.request state.level s _ _ refl
  use_leaf-Advances w state pte drain_only s (some address) =
      let r = state.request in
      let flags = updated_flags r (pte_flags pte) in
      let state' = record state { phase = write_leaf address flags (updated_pte pte r) } in
      ground (
        arith,
        fault-Advances drain_only state.request state.level s (record w { active = none })
            (page_fault r) refl,
        finish-Advances (record w { active = some state' }) state' address flags (updated_pte pte r)
            drain_only s (le_refl _),
        ready-Advances drain_only state.request state.level s
            (record (insert_unless drain_only w state (pte_flags pte) address) { active = none })
            address refl,
      )

  use_pte-Advances :
      (w : PageWalker) (state : WalkState) (pte : ℕ) (drain_only : Bool) (s : S)
      → Advances drain_only state.request state.level (use_pte bus w state pte drain_only s)
  unfolding use_pte
  use_pte-Advances w state pte drain_only s = ground (
    arith,
    fault-Advances drain_only state.request state.level s (record w { active = none })
        (page_fault state.request) refl,
    use_leaf-Advances w state pte drain_only s (translate_leaf state pte),
    descend-Advances drain_only state s w pte,
  )

  after_load-Advances :
      (w : PageWalker) (state : WalkState) (drain_only : Bool) (x : S × Result BusError ℕ)
      → rank w ≤ suc state.level
      → Advances drain_only state.request state.level (after_load bus w state drain_only x)
  unfolding after_load Advances
  after_load-Advances w state drain_only (s, ok pte) h = use_pte-Advances w state pte drain_only s
  after_load-Advances w state drain_only (s, err (busy _)) h = h
  after_load-Advances w state drain_only (s, err (unmapped_address _)) h =
      fault-Advances drain_only state.request state.level s _ _ refl
  after_load-Advances w state drain_only (s, err _) h =
      fault-Advances drain_only state.request state.level s _ _ refl

  step_phase-Advances :
      (w : PageWalker) (state : WalkState) (phase : WalkPhase) (drain_only : Bool) (s : S)
      → rank w ≤ suc state.level
      → Advances drain_only state.request state.level (step_phase bus w state phase drain_only s)
  unfolding step_phase
  step_phase-Advances w state (write_leaf address flags value) drain_only s h =
      finish-Advances w state address flags value drain_only s h
  step_phase-Advances w state read_pte drain_only s h =
      after_load-Advances w state drain_only (bus.load32 state.pte_address s) h

  -- A step of an active walk never panics. Draining, it never answers with a result.
  pub step-Advances :
      (w : PageWalker) (state : WalkState) (drain_only : Bool) (s : S)
      → w.active ≡ some state
      → Advances drain_only state.request state.level (step bus w drain_only s)
  unfolding step step_active
  step-Advances w state drain_only s e =
      subst (λ o. Advances drain_only state.request state.level (step_active bus w o drain_only s))
        (sym e) (step_phase-Advances w state state.phase drain_only s (rw e (le_refl _)))
