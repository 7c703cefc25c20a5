-- ===== src/Devices/LatencyAdapter.antt =====
-- crates/devices/src/latency_adapter.rs: a device with a latency of its own. It implements
-- `machine_time` by the trait's default, which gives none.
use rust_computer.Base.{ℕ, none, Result}
use rust_computer.System.Bus.{BusError}
use rust_computer.System.Device.{Addressable}

pub record LatencyAdapter (D : Type 0) : Type 0 where
  pub inner : D
  pub latency_cycles : ℕ

unfoldable pub new : {D : Type 0} → D → ℕ → LatencyAdapter D
new inner latency_cycles = record { inner = inner; latency_cycles = latency_cycles }

abbrev with_inner :
    {D A : Type 0} → LatencyAdapter D → D × Result BusError A → LatencyAdapter D × Result BusError A
with_inner a (inner, result) = (record a { inner = inner }, result)

-- The methods of the adapter over those of its device.
unfoldable pub adapted : {D : Type 0} → Addressable D → Addressable (LatencyAdapter D)
adapted ops = record {
  name = λ a. ops.name a.inner;
  address_range = λ a. ops.address_range a.inner;
  reset = λ a. record a { inner = ops.reset a.inner };
  tick = λ a. record a { inner = ops.tick a.inner };
  machine_time = λ a. none;
  access_latency = λ addr kind width a. (a, a.latency_cycles);
  pending_interrupts = λ a. ops.pending_interrupts a.inner;
  load8 = λ addr a. with_inner a (ops.load8 addr a.inner);
  store8 = λ addr value a. with_inner a (ops.store8 addr value a.inner);
}
