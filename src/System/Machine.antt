-- ===== src/System/Machine.antt =====
-- crates/system/src/machine.rs and clock.rs: a processor and a bus under one clock. The processor
-- and the bus are operations on their states; a cycle that panics gives `none`.
pub mod Clocked
use rust_computer.Base.{ℕ, zero, suc, ◌+◌, List, [], ◌∷◌, Option, none, some, Result, ok, err}

pub record Clock : Type 0 where
  pub cycle : ℕ

unfoldable pub tick : Clock → Clock
tick clock = record { cycle = clock.cycle + 1 }

pub record Machine (P B : Type 0) : Type 0 where
  pub clock : Clock
  pub cpu : P
  pub bus : B

-- `Processor` and the two methods of `Bus` that the machine calls.
pub record Parts (P B E R : Type 0) : Type 0 where
  pub reset_cpu : P → P
  pub reset_bus : B → B
  pub tick_bus : B → Option B
  pub step_cpu : P → B → Option (B × P × Result E R)

unfoldable pub new : {P B : Type 0} → P → B → Machine P B
new cpu bus = record { clock = record { cycle = 0 }; cpu = cpu; bus = bus }

module _ {P B E R : Type 0} (parts : Parts P B E R) where
  unfoldable pub reset : Machine P B → Machine P B
  reset m = record {
    clock = record { cycle = 0 };
    cpu = parts.reset_cpu m.cpu;
    bus = parts.reset_bus m.bus;
  }

  -- The clock stands still where the processor fails.
  unfoldable pub stepped :
      Machine P B → Option (B × P × Result E R) → Option (Machine P B × Result E R)
  stepped m none = none
  stepped m (some (bus, cpu, ok report)) =
      some (record { clock = tick m.clock; cpu = cpu; bus = bus }, ok report)
  stepped m (some (bus, cpu, err e)) = some (record m { cpu = cpu; bus = bus }, err e)

  abbrev step_ticked : Machine P B → Option B → Option (Machine P B × Result E R)
  step_ticked m none = none
  step_ticked m (some bus) = stepped m (parts.step_cpu m.cpu bus)

  unfoldable pub step_cycle : Machine P B → Option (Machine P B × Result E R)
  step_cycle m = step_ticked m (parts.tick_bus m.bus)

  abbrev report_first :
      R → Option (Machine P B × Result E (List R)) → Option (Machine P B × Result E (List R))
  report_first r none = none
  report_first r (some (m, ok rs)) = some (m, ok (r ∷ rs))
  report_first r (some (m, err e)) = some (m, err e)

  abbrev run_on :
      (Machine P B → Option (Machine P B × Result E (List R)))
      → Option (Machine P B × Result E R)
      → Option (Machine P B × Result E (List R))
  run_on rest none = none
  run_on rest (some (m, ok r)) = report_first r (rest m)
  run_on rest (some (m, err e)) = some (m, err e)

  unfoldable pub run_cycles : ℕ → Machine P B → Option (Machine P B × Result E (List R))
  run_cycles zero m = some (m, ok [])
  run_cycles (suc n) m = run_on (λ m'. run_cycles n m') (step_cycle m)
