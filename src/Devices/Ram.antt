-- ===== src/Devices/Ram.antt =====
-- crates/devices/src/ram.rs: the random-access memory.
use rust_computer.Base.{
  ℕ, ◌+◌, ◌-◌, not, List, length, get_or, set, replicate, Option, none, some, Result, ok, err,
  if◌then◌else◌, ltb, leb,
}
use rust_computer.System.Address.{AddressRange, contains}
use rust_computer.System.Bus.{BusError, unmapped_address, Action, from_le_bytes4}

-- The field `data` is `bytes` here.
pub record Ram : Type 0 where
  pub range : AddressRange
  pub bytes : List ℕ

unfoldable pub new : ℕ → ℕ → Ram
new base size = record { range = record { start = base; size = size }; bytes = replicate size 0 }

unfoldable pub offset : AddressRange → ℕ → Result BusError ℕ
offset range addr =
    if not (contains range addr) then err (unmapped_address addr) else ok (addr - range.start)

-- The accesses after `self.offset(addr)?`.
unfoldable pub load_at : List ℕ → ℕ → Result BusError ℕ → Result BusError ℕ
load_at bytes addr (ok i) =
    if ltb i (length bytes) then ok (get_or bytes i 0) else err (unmapped_address addr)
load_at bytes addr (err e) = err e

unfoldable pub store_at : List ℕ → ℕ → ℕ → Result BusError ℕ → List ℕ × Result BusError (Unit {0})
store_at bytes addr value (ok i) =
    if ltb i (length bytes)
    then (set bytes i value, ok tt)
    else (bytes, err (unmapped_address addr))
store_at bytes addr value (err e) = (bytes, err e)

unfoldable pub reset : Ram → Ram
reset ram = record ram { bytes = replicate (length ram.bytes) 0 }

unfoldable pub load8 : ℕ → Action Ram ℕ
load8 addr ram = (ram, load_at ram.bytes addr (offset ram.range addr))

unfoldable pub store8 : ℕ → ℕ → Action Ram (Unit {0})
store8 addr value ram =
    let (bytes, result) = store_at ram.bytes addr value (offset ram.range addr) in
    (record ram { bytes = bytes }, result)

-- The bytes at an offset: `data.get(offset..offset + 4)?`.
unfoldable pub read_word_at : List ℕ → Result BusError ℕ → Option ℕ
read_word_at bytes (ok i) =
    if leb (i + 4) (length bytes)
    then some (
        from_le_bytes4 (get_or bytes i 0) (get_or bytes (i + 1) 0) (get_or bytes (i + 2) 0)
          (get_or bytes (i + 3) 0))
    else none
read_word_at bytes (err e) = none

unfoldable pub read_word : Ram → ℕ → Option ℕ
read_word ram addr = read_word_at ram.bytes (offset ram.range addr)
