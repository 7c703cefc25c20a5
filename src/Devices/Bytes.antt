-- ===== src/Devices/Bytes.antt =====
-- crates/devices/src/ram.rs: the memory of bytes that the word accesses of the bus ask for.
use rust_computer.Base.{
  ℕ, ◌+◌, ◌-◌, ◌<◌, ◌≡◌, ◌≢◌, refl, arith, true, length, get_or, set, length-set, get_or-set_self,
  get_or-set_ne, lt→ltb, ok,
}
use rust_computer.Devices.Ram.{Ram, offset, load_at, store_at, load8, store8}
use rust_computer.System.Address.{contains}
use rust_computer.System.Bus.Words.{ByteMemory, HeldWord}

-- An address in the range, with its byte there.
abbrev pub IsHeld : ℕ → Ram → Type 0
IsHeld a ram = (contains ram.range a ≡ true) × (a - ram.range.start < length ram.bytes)

load8-held :
    (a : ℕ) (ram : Ram)
    → IsHeld a ram
    → load8 a ram ≡ (ram, ok (get_or ram.bytes (a - ram.range.start) 0))
unfolding load8 offset load_at
load8-held a ram h = rw (h.0, lt→ltb (a - ram.range.start) (length ram.bytes) h.1) refl

store8-held :
    (a v : ℕ) (ram : Ram)
    → IsHeld a ram
    → store8 a v ram ≡ (record ram { bytes = set ram.bytes (a - ram.range.start) v }, ok tt)
unfolding store8 offset store_at
store8-held a v ram h = rw (h.0, lt→ltb (a - ram.range.start) (length ram.bytes) h.1) refl

offsets_apart :
    (ram : Ram) (a b : ℕ)
    → IsHeld a ram
    → IsHeld b ram
    → a ≢ b
    → a - ram.range.start ≢ b - ram.range.start
unfolding contains
offsets_apart ram a b h k ne e = ground (arith, h.0, k.0, ne, e)

pub ram_memory : ByteMemory load8 store8
ram_memory = record {
  Held = IsHeld;
  get = λ a ram. get_or ram.bytes (a - ram.range.start) 0;
  put = λ a v ram. record ram { bytes = set ram.bytes (a - ram.range.start) v };
  loads = load8-held;
  stores = store8-held;
  held-put = λ a b v ram h. (h.0, omega (arith, h.1, length-set ram.bytes (a - ram.range.start) v));
  get-put = λ a v ram h. get_or-set_self ram.bytes (a - ram.range.start) v 0 h.1;
  get-put_ne = λ a b v ram h k ne.
      get_or-set_ne ram.bytes (a - ram.range.start) (b - ram.range.start) v 0
        (offsets_apart ram a b h k ne);
}

-- A word whose four bytes stand in the memory.
pub ram_memory-HeldWord :
    (a : ℕ) (ram : Ram)
    → IsHeld a ram
    → IsHeld (a + 1) ram
    → IsHeld (a + 2) ram
    → IsHeld (a + 3) ram
    → HeldWord load8 store8 ram_memory a ram
unfolding ram_memory
ram_memory-HeldWord a ram h0 h1 h2 h3 = (h0, h1, h2, h3)
