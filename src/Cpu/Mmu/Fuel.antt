-- ===== src/Cpu/Mmu/Fuel.antt =====
-- `translate` ends: its loop always returns a result,
-- whatever the bus answers, and neither its `expect` nor its `unreachable!` is reached.
use native.Mathlib.Nat.{le_refl}
use rust_computer.Base.{
  ℕ, zero, suc, ◌+◌, ◌≤◌, ◌<◌, ◌≡◌, refl, arith, ◌∙◌, Bool, true, false, inl, inr, false≢true,
  Bool-cases, Option, none, some, Option-cases,
}
use rust_computer.Cpu.CsrFile.{CsrFile}
use rust_computer.Cpu.Mmu.Requests.{request_eq_refl, request_eq→eq}
use rust_computer.Cpu.Mmu.Tlb.{lookup_tlb}
use rust_computer.Cpu.Mmu.Steps.{active_rank, rank, Advances, step-Advances}
use rust_computer.Cpu.Mmu.Translate.{
  Translated, after_drain, after_step, serves_other, first_walk, request_for, after_lookup,
  own_walk, turn, translate_loop, translate,
}
use rust_computer.Cpu.Mmu.Types.{
  MemoryAccess, TranslationResult, TranslationRequest, WalkState, PageWalker, StepResult, drained,
  ready, Completion, done, panicked, out_of_fuel,
}
use rust_computer.Cpu.Mmu.Walker.{step}
use rust_computer.Cpu.Privilege.{PrivilegeMode}
use rust_computer.System.Bus.{Bus}

-- A measure that every turn of the loop lowers: a walk for another request has to be drained
-- before the two reads of the request's own walk.
abbrev remaining : Bool → Option WalkState → ℕ
remaining true o = active_rank o + 2
remaining false none = 2
remaining false (some state) = suc state.level

turns : TranslationRequest → PageWalker → ℕ
turns r w = remaining (serves_other w.active r) w.active

-- The loop returned a result, and the walk that it left is bounded.
unfoldable pub Returns : {S : Type 0} → Translated S → Type 0
Returns (s, w, done _) = rank w ≤ 2
Returns (s, w, panicked) = ⊥
Returns (s, w, out_of_fuel) = ⊥

after_drain-Returns :
    {S : Type 0} (next : PageWalker → S → Translated S) (state : WalkState)
    (x : S × PageWalker × Completion StepResult)
    → state.level ≤ 1
    → Advances true state.request state.level x
    → ((w : PageWalker) (s : S) → rank w < suc state.level → Returns (next w s))
    → Returns (after_drain next x)
unfolding after_drain Advances Returns
after_drain-Returns next state (s, w, done StepResult.stall) l a n = omega arith
after_drain-Returns next state (s, w, done drained) l a n = n w s a
after_drain-Returns next state (s, w, done (ready _)) l a n = cc a.0
after_drain-Returns next state (s, w, done (StepResult.fault _)) l a n = cc a.0
after_drain-Returns next state (s, w, panicked) l a n = a
after_drain-Returns next state (s, w, out_of_fuel) l a n = a

after_step-Returns :
    {S : Type 0} (next : PageWalker → S → Translated S) (state : WalkState)
    (x : S × PageWalker × Completion StepResult)
    → state.level ≤ 1
    → Advances false state.request state.level x
    → ((w : PageWalker) (s : S) (st : WalkState)
        → w.active ≡ some st
        → st.request ≡ state.request
        → st.level < state.level
        → Returns (next w s))
    → Returns (after_step next x)
unfolding after_step Advances Returns
after_step-Returns next state (s, w, done StepResult.stall) l a n = omega arith
after_step-Returns next state (s, w, done drained) l a n = n w s a.0 a.1 a.2 a.3
after_step-Returns next state (s, w, done (ready _)) l a n = rw (a.1) (omega arith)
after_step-Returns next state (s, w, done (StepResult.fault _)) l a n = rw (a.1) (omega arith)
after_step-Returns next state (s, w, panicked) l a n = a
after_step-Returns next state (s, w, out_of_fuel) l a n = a

-- The measure of a walker by what it holds.
turns_fresh : (r : TranslationRequest) (w : PageWalker) → w.active ≡ none → turns r w ≡ 2
unfolding turns serves_other
turns_fresh r w e = rw e

turns_own :
    (r : TranslationRequest) (w : PageWalker) (state : WalkState)
    → w.active ≡ some state
    → state.request ≡ r
    → turns r w ≡ suc state.level
unfolding turns serves_other
turns_own r w state e same = rw e (rw same (rw request_eq_refl refl))

turns-le : (r : TranslationRequest) (w : PageWalker) → turns r w ≤ rank w + 2
unfolding turns serves_other
turns-le r w = ground (arith, Option-cases w.active)

-- A walk for another request is active.
serves_other_active :
    (w : PageWalker) (r : TranslationRequest)
    → serves_other w.active r ≡ true
    → (state : WalkState) × (w.active ≡ some state)
unfolding serves_other
serves_other_active w r h = elim (Option-cases w.active) [
  | inl e ↦ absurd (false≢true (rw e at h))
  | inr found ↦ found
]

turns_other :
    (r : TranslationRequest) (w : PageWalker) (state : WalkState)
    → w.active ≡ some state
    → serves_other w.active r ≡ true
    → turns r w ≡ suc state.level + 2
unfolding turns
turns_other r w state e h = rw h (rw e refl)

module _ {S : Type 0} (bus : Bus S) (r : TranslationRequest) where
  -- Every later turn with a smaller measure returns.
  Continues : (PageWalker → S → Translated S) → ℕ → Type 0
  Continues next measure =
      (w : PageWalker) (s : S) → rank w ≤ 2 → turns r w < measure → Returns (next w s)

  drain-Returns :
      (next : PageWalker → S → Translated S) (w : PageWalker) (s : S) (state : WalkState)
      → w.active ≡ some state
      → state.level ≤ 1
      → Continues next (suc state.level + 2)
      → Returns (after_drain next (step bus w true s))
  unfolding Continues
  drain-Returns next w s state e l n =
      after_drain-Returns next state (step bus w true s) l (step-Advances bus w state true s e)
        (λ w' s' lower. n w' s' (omega arith) (omega (arith, turns-le r w')))

  own-Returns :
      (next : PageWalker → S → Translated S) (w : PageWalker) (s : S) (state : WalkState)
      → w.active ≡ some state
      → state.request ≡ r
      → state.level ≤ 1
      → Continues next (suc state.level)
      → Returns (after_step next (step bus w false s))
  unfolding Continues
  own-Returns next w s state e same l n =
      after_step-Returns next state (step bus w false s) l (step-Advances bus w state false s e)
        (λ w' s' st e' same' lower.
          n w' s' (rw e' (omega arith)) (omega (arith, turns_own r w' st e' (same' ∙ same))))

  fresh-Returns :
      (next : PageWalker → S → Translated S) (w : PageWalker) (s : S) (x : Option TranslationResult)
      → rank w ≤ 2
      → Continues next 2
      → Returns (after_lookup bus next r w s x)
  unfolding after_lookup Returns
  fresh-Returns next w s (some result) b n = b
  fresh-Returns next w s none b n =
      own-Returns next (record w { active = some (first_walk r) }) s (first_walk r) refl
        (unfold first_walk in refl) (unfold first_walk in le_refl 1) (unfold first_walk in n)

  own_walk-Returns :
      (next : PageWalker → S → Translated S) (w : PageWalker) (s : S) (o : Option WalkState)
      → w.active ≡ o
      → serves_other o r ≡ false
      → rank w ≤ 2
      → Continues next (turns r w)
      → Returns (own_walk bus next r w s o)
  unfolding own_walk
  own_walk-Returns next w s none e own b n =
      fresh-Returns next w s (lookup_tlb w r) b (rw (turns_fresh r w e) at n)
  own_walk-Returns next w s (some state) e own b n =
      let same : state.request ≡ r =
        request_eq→eq state.request r (unfold serves_other in ground arith) in
      own-Returns next w s state e same (omega (arith, rw e at b))
        (rw (turns_own r w state e same) at n)

  turn-Returns :
      (next : PageWalker → S → Translated S) (w : PageWalker) (s : S)
      → rank w ≤ 2
      → Continues next (turns r w)
      → Returns (turn bus next r w s)
  unfolding turn
  turn-Returns next w s b n = elim (Bool-cases (serves_other w.active r)) [
    | inl other ↦
        let (state, e) = serves_other_active w r other in
        rw other (
          drain-Returns next w s state e (omega (arith, rw e at b))
            (rw (turns_other r w state e other) at n))
    | inr own ↦
        let idle : Returns (s, w, done (TranslationResult.physical_address r.virtual_address)) =
          unfold Returns in b in
        rw own (ground (arith, idle, own_walk-Returns next w s w.active refl own b n))
  ]

  loop-Returns :
      (fuel : ℕ) (w : PageWalker) (s : S)
      → rank w ≤ 2
      → turns r w < fuel
      → Returns (translate_loop bus fuel r w s)
  unfolding translate_loop Continues
  loop-Returns zero w s b h = absurd (omega arith)
  loop-Returns (suc fuel) w s b h =
      turn-Returns (translate_loop bus fuel r) w s b
        (λ w' s' b' less. loop-Returns fuel w' s' b' (omega arith))

Returns-done :
    {S : Type 0} (x : Translated S)
    → Returns x
    → (s : S) × (w : PageWalker) × (t : TranslationResult) × (x ≡ (s, w, done t)) × (rank w ≤ 2)
unfolding Returns
Returns-done (s, w, done t) h = (s, w, t, refl, h)
Returns-done (s, w, panicked) h = absurd h
Returns-done (s, w, out_of_fuel) h = absurd h

pub translate-Returns :
    {S : Type 0} (bus : Bus S) (w : PageWalker) (csrs : CsrFile) (privilege : PrivilegeMode)
    (address : ℕ) (access : MemoryAccess) (s : S)
    → rank w ≤ 2
    → Returns (translate bus w csrs privilege address access s)
unfolding translate
translate-Returns bus w csrs privilege address access s b =
    let r = request_for csrs privilege address access in
    loop-Returns bus r 5 w s b (omega (arith, turns-le r w))

-- On any bus, from any walker whose walk, if it has one, stands at level 0 or 1, `translate` ends
-- with a result: it does not panic and its loop is not cut off. The walker that it leaves is again
-- such a walker.
pub translate_returns :
    {S : Type 0} (bus : Bus S) (w : PageWalker) (csrs : CsrFile) (privilege : PrivilegeMode)
    (address : ℕ) (access : MemoryAccess) (s : S)
    → rank w ≤ 2
    → (s' : S) × (w' : PageWalker) × (t : TranslationResult) × (translate bus w csrs privilege
          address access s
        ≡ (s', w', done t))
      × (rank w' ≤ 2)
translate_returns bus w csrs privilege address access s b =
    Returns-done _ (translate-Returns bus w csrs privilege address access s b)
