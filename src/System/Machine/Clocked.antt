-- ===== src/System/Machine/Clocked.antt =====
-- machine.rs: the clock counts the cycles that the processor completed.
use rust_computer.Base.{
  ℕ, zero, suc, ◌+◌, ◌<◌, ◌≡◌, refl, subst, arith, List, length, Option, none, some, Result, ok,
  err,
}
use rust_computer.System.Machine.{
  Machine, Parts, tick, stepped, step_ticked, step_cycle, report_first, run_on, run_cycles,
}

module _ {P B E R : Type 0} where
  unfoldable Stepped : Machine P B → Option (Machine P B × Result E R) → Type 0
  Stepped m none = Unit
  Stepped m (some (m', ok r)) = m'.clock.cycle ≡ m.clock.cycle + 1
  Stepped m (some (m', err e)) = m'.clock.cycle ≡ m.clock.cycle

  -- From cycle `start`, `n` cycles were run and reported, or an earlier one failed.
  unfoldable Ran : ℕ → ℕ → Option (Machine P B × Result E (List R)) → Type 0
  Ran start n none = Unit
  Ran start n (some (m, ok reports)) = (length reports ≡ n) × (m.clock.cycle ≡ start + n)
  Ran start n (some (m, err e)) = m.clock.cycle < start + n

module _ {P B E R : Type 0} (parts : Parts P B E R) where
  stepped-Stepped :
      (m : Machine P B) (x : Option (B × P × Result E R)) → Stepped m (stepped parts m x)
  unfolding stepped Stepped tick
  stepped-Stepped m none = tt
  stepped-Stepped m (some (bus, cpu, ok r)) = refl
  stepped-Stepped m (some (bus, cpu, err e)) = refl

  step_ticked-Stepped : (m : Machine P B) (x : Option B) → Stepped m (step_ticked parts m x)
  step_ticked-Stepped m none = unfold Stepped in tt
  step_ticked-Stepped m (some bus) = stepped-Stepped m (parts.step_cpu m.cpu bus)

  report_first-Ran :
      (start n : ℕ) (r : R) (x : Option (Machine P B × Result E (List R)))
      → Ran (start + 1) n x
      → Ran start (suc n) (report_first parts r x)
  unfolding Ran
  report_first-Ran start n r none k = tt
  report_first-Ran start n r (some (m, ok rs)) k = (omega (arith, k.0), omega (arith, k.1))
  report_first-Ran start n r (some (m, err e)) k = omega (arith, k)

  run_on-Ran :
      (m : Machine P B) (n : ℕ) (rest : Machine P B → Option (Machine P B × Result E (List R)))
      (x : Option (Machine P B × Result E R))
      → Stepped m x
      → ((m' : Machine P B) → Ran m'.clock.cycle n (rest m'))
      → Ran m.clock.cycle (suc n) (run_on parts rest x)
  unfolding Stepped
  run_on-Ran m n rest none s f = unfold Ran in tt
  run_on-Ran m n rest (some (m', ok r)) s f =
      report_first-Ran m.clock.cycle n r (rest m') (subst (λ (c : ℕ). Ran c n (rest m')) s (f m'))
  run_on-Ran m n rest (some (m', err e)) s f = unfold Ran in omega (arith, s)

  -- For any processor and bus, when a run of `n` cycles succeeds it gives `n` reports and the clock is
  -- `n` further; when a cycle fails, the clock has counted the ones before it only, fewer than `n`.
  run_cycles-Ran : (n : ℕ) (m : Machine P B) → Ran m.clock.cycle n (run_cycles parts n m)
  unfolding run_cycles
  run_cycles-Ran zero m = unfold Ran in (refl, omega arith)
  run_cycles-Ran (suc n) m =
      run_on-Ran m n (run_cycles parts n) (step_cycle parts m)
        (unfold step_cycle in step_ticked-Stepped m (parts.tick_bus m.bus)) (run_cycles-Ran n)
