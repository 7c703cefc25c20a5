-- ===== src/Devices/Rom.antt =====
-- crates/devices/src/rom.rs: the read-only memory.
use rust_computer.Base.{
  ℕ, ◌-◌, not, List, [], ◌∷◌, length, get_or, Result, ok, err, if◌then◌else◌, ltb,
}
use rust_computer.System.Address.{AddressRange, contains}
use rust_computer.System.Bus.{BusError, unmapped_address, read_only_address, Action, le_byte}

-- The field `data` is `bytes` here.
pub record Rom : Type 0 where
  pub range : AddressRange
  pub bytes : List ℕ

-- The loop over the words.
unfoldable pub bytes_of : List ℕ → List ℕ
bytes_of [] = []
bytes_of (word ∷ words) =
    le_byte word 0 ∷ le_byte word 1 ∷ le_byte word 2 ∷ le_byte word 3 ∷ bytes_of words

unfoldable pub from_words : ℕ → List ℕ → Rom
from_words base words = record {
  range = record { start = base; size = length (bytes_of words) };
  bytes = bytes_of words;
}

unfoldable pub offset : Rom → ℕ → Result BusError ℕ
offset rom addr =
    if not (contains rom.range addr)
    then err (unmapped_address addr)
    else ok (addr - rom.range.start)

unfoldable pub load_at : Rom → ℕ → Result BusError ℕ → Result BusError ℕ
load_at rom addr (ok i) =
    if ltb i (length rom.bytes) then ok (get_or rom.bytes i 0) else err (unmapped_address addr)
load_at rom addr (err e) = err e

unfoldable pub load8 : ℕ → Action Rom ℕ
load8 addr rom = (rom, load_at rom addr (offset rom addr))

unfoldable pub store8 : ℕ → ℕ → Action Rom (Unit {0})
store8 addr value rom = (rom, err (read_only_address addr))
