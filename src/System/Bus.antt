-- ===== src/System/Bus.antt =====
-- crates/system/src/bus.rs, lines 131 to 139 and 379 to 445: the bus errors and the `Bus` trait.
-- A call through `&mut dyn Bus` takes the bus's state and gives the new one, also on an error.
use Prim.Native.String.{String}
pub mod Words
use rust_computer.Base.{
  ℕ, ◌+◌, ◌*◌, ◌/◌, ◌%◌, ◌^◌, Bool, false, Option, none, Result, ok, err, ◌==◌, if◌then◌else◌, not,
}
use rust_computer.Bits.{u8}
use rust_computer.System.Interrupts.{InterruptSet, empty}

pub data BusError : Type 0 where
  busy : ℕ → BusError
  unmapped_address : ℕ → BusError
  misaligned_access : ℕ → ℕ → BusError
  read_only_address : ℕ → BusError
  device_fault : ℕ → String → BusError

-- A bus action: the state is kept where the call fails.
abbrev pub Action : Type 0 → Type 0 → Type 0
Action S A = S → S × Result BusError A

abbrev pub follow :
    {S A B : Type 0} → (A → Action S B) → S × Result BusError A → S × Result BusError B
follow f (s, ok a) = f a s
follow f (s, err e) = (s, err e)

infixl 5 ◌>>=◌ ◌>>◌
abbrev pub ◌>>=◌ : {S A B : Type 0} → Action S A → (A → Action S B) → Action S B
◌>>=◌ m f s = follow f (m s)

abbrev pub ◌>>◌ : {S B : Type 0} → Action S (Unit {0}) → Action S B → Action S B
m >> k = m >>= λ _. k

abbrev pub return : {S A : Type 0} → A → Action S A
return a s = (s, ok a)

abbrev pub fail : {S A : Type 0} → BusError → Action S A
fail e s = (s, err e)

-- The trait's methods that the processor calls. An implementation may replace the provided ones;
-- `reset` and `tick` are called by the machine around the processor.
pub record Bus (S : Type 0) : Type 0 where
  pub load8 : ℕ → Action S ℕ
  pub load16 : ℕ → Action S ℕ
  pub load32 : ℕ → Action S ℕ
  pub fetch32 : ℕ → Action S ℕ
  pub store8 : ℕ → ℕ → Action S (Unit {0})
  pub store16 : ℕ → ℕ → Action S (Unit {0})
  pub store32 : ℕ → ℕ → Action S (Unit {0})
  pub machine_time : S → Option ℕ
  pub is_busy : S → Bool
  pub pending_interrupts : S → InterruptSet

-- `uN::from_le_bytes`, and byte `i` of `to_le_bytes`.
unfoldable pub from_le_bytes2 : ℕ → ℕ → ℕ
from_le_bytes2 b0 b1 = b0 + b1 * 2 ^ 8

unfoldable pub from_le_bytes4 : ℕ → ℕ → ℕ → ℕ → ℕ
from_le_bytes4 b0 b1 b2 b3 = b0 + b1 * 2 ^ 8 + b2 * 2 ^ 16 + b3 * 2 ^ 24

unfoldable pub le_byte : ℕ → ℕ → ℕ
le_byte value i = u8 (value / 2 ^ (8 * i))

-- The provided methods, over an implementation's `load8` and `store8`.
module _ {S : Type 0} (load8 : ℕ → Action S ℕ) (store8 : ℕ → ℕ → Action S (Unit {0})) where
  unfoldable pub provided_load16 : ℕ → Action S ℕ
  unfolding from_le_bytes2
  provided_load16 addr =
      if not (addr % 2 == 0)
      then fail (misaligned_access addr 2)
      else (do b0 ← load8 addr; b1 ← load8 (addr + 1); return (from_le_bytes2 b0 b1))

  unfoldable pub provided_load32 : ℕ → Action S ℕ
  unfolding from_le_bytes4
  provided_load32 addr = if not (addr % 4 == 0) then fail (misaligned_access addr 4) else (do
    b0 ← load8 addr
    b1 ← load8 (addr + 1)
    b2 ← load8 (addr + 2)
    b3 ← load8 (addr + 3)
    return (from_le_bytes4 b0 b1 b2 b3))

  unfoldable pub provided_store16 : ℕ → ℕ → Action S (Unit {0})
  unfolding le_byte
  provided_store16 addr value =
      if not (addr % 2 == 0)
      then fail (misaligned_access addr 2)
      else (do store8 addr (le_byte value 0); store8 (addr + 1) (le_byte value 1))

  unfoldable pub provided_store32 : ℕ → ℕ → Action S (Unit {0})
  unfolding le_byte
  provided_store32 addr value = if not (addr % 4 == 0) then fail (misaligned_access addr 4) else (do
    store8 addr (le_byte value 0)
    store8 (addr + 1) (le_byte value 1)
    store8 (addr + 2) (le_byte value 2)
    store8 (addr + 3) (le_byte value 3))

  unfoldable pub provided : Bus S
  unfolding provided_load16 provided_load32 provided_store16 provided_store32
  provided = record {
    load8 = load8;
    load16 = provided_load16;
    load32 = provided_load32;
    fetch32 = provided_load32;
    store8 = store8;
    store16 = provided_store16;
    store32 = provided_store32;
    machine_time = λ s. none;
    is_busy = λ s. false;
    pending_interrupts = λ s. empty;
  }
