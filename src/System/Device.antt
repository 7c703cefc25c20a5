-- ===== src/System/Device.antt =====
-- crates/system/src/bus.rs, lines 356 to 377: the `Addressable` trait of a mapped device, with the
-- devices of the machine in one type. `access_latency` takes `&self`, but a device may keep what it
-- was asked in a cell.
use Prim.Native.String.{String}
use rust_computer.Base.{ℕ, Option}
use rust_computer.System.Address.{AddressRange}
use rust_computer.System.Bus.{Action}
use rust_computer.System.Interrupts.{InterruptSet}
use rust_computer.System.Transaction.{AccessKind}

pub record Addressable (D : Type 0) : Type 0 where
  pub name : D → String
  pub address_range : D → AddressRange
  pub reset : D → D
  pub tick : D → D
  pub machine_time : D → Option ℕ
  pub access_latency : ℕ → AccessKind → ℕ → D → D × ℕ
  pub pending_interrupts : D → InterruptSet
  pub load8 : ℕ → Action D ℕ
  pub store8 : ℕ → ℕ → Action D (Unit {0})
