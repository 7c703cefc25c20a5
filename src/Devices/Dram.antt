-- ===== src/Devices/Dram.antt =====
-- crates/devices/src/dram.rs: a memory with an open row and bursts.
use rust_computer.Base.{
  ℕ, ◌+◌, ◌-◌, ◌/◌, ◌^◌, Bool, false, ◌&&◌, List, length, get_or, set, replicate, Option, none,
  some, Result, ok, err, if◌then◌else◌, ◌==◌, ltb,
}
use rust_computer.Devices.Ram.{Ram}
use rust_computer.System.Address.{AddressRange, contains}
use rust_computer.System.Bus.{BusError, unmapped_address, Action, from_le_bytes4}
use rust_computer.System.Transaction.{AccessKind}

pub record DramConfig : Type 0 where
  pub row_size : ℕ
  pub row_miss_latency : ℕ
  pub row_hit_latency : ℕ
  pub burst_latency : ℕ

pub record PendingAccess : Type 0 where
  pub start : ℕ
  pub row_index : ℕ
  pub next_burst_addr : Option ℕ

-- The cells are fields; `data` is `bytes`.
pub record Dram : Type 0 where
  pub range : AddressRange
  pub bytes : List ℕ
  pub config : DramConfig
  pub open_row : Option ℕ
  pub next_burst_addr : Option ℕ
  pub pending_access : Option PendingAccess

unfoldable pub new : ℕ → ℕ → DramConfig → Dram
new base size config = record {
  range = record { start = base; size = size };
  bytes = replicate size 0;
  config = config;
  open_row = none;
  next_burst_addr = none;
  pending_access = none;
}

unfoldable pub offset : Dram → ℕ → Result BusError ℕ
offset d addr =
    if contains d.range addr then ok (addr - d.range.start) else err (unmapped_address addr)

-- `self.data.get(offset..offset + 4)?` as a word.
abbrev word_from : List ℕ → Result BusError ℕ → Option ℕ
word_from bytes (err e) = none
word_from bytes (ok i) =
    if ltb (length bytes) (i + 4)
    then none
    else some (
        from_le_bytes4 (get_or bytes i 0) (get_or bytes (i + 1) 0) (get_or bytes (i + 2) 0)
          (get_or bytes (i + 3) 0))

unfoldable pub read_word : Dram → ℕ → Option ℕ
read_word d address = word_from d.bytes (offset d address)

-- A `u64` quotient; `addr` is in the range.
unfoldable pub row_index : Dram → ℕ → ℕ
row_index d addr = (addr - d.range.start) / d.config.row_size

-- The next address of the burst, if it is a `u64` and its access ends in the same row.
unfoldable pub next_burst : Dram → ℕ → ℕ → ℕ → Option ℕ
next_burst d addr width row =
    let next_addr = addr + width in
    if ltb next_addr (2 ^ 64) && (row_index d (next_addr - 1) == row) then some next_addr else none

abbrev pub is_value : Option ℕ → ℕ → Bool
is_value none n = false
is_value (some m) n = m == n

abbrev pub commit : Dram → ℕ → Option PendingAccess → Dram
commit d addr none = d
commit d addr (some pending) =
    if pending.start == addr
    then record d {
      open_row = some pending.row_index;
      next_burst_addr = pending.next_burst_addr;
      pending_access = none;
    }
    else d

unfoldable pub commit_pending_access : Dram → ℕ → Dram
commit_pending_access d addr = commit d addr d.pending_access

unfoldable pub reset : Dram → Dram
reset d = record d {
  bytes = replicate (length d.bytes) 0;
  open_row = none;
  next_burst_addr = none;
  pending_access = none;
}

unfoldable pub latency : Dram → ℕ → ℕ
latency d addr =
    if is_value d.open_row (row_index d addr)
    then if is_value d.next_burst_addr addr
      then d.config.burst_latency
      else d.config.row_hit_latency
    else d.config.row_miss_latency

unfoldable pub access_latency : ℕ → AccessKind → ℕ → Dram → Dram × ℕ
access_latency addr kind width d = (
  record d {
    pending_access = some (record {
      start = addr;
      row_index = row_index d addr;
      next_burst_addr = next_burst d addr width (row_index d addr);
    });
  },
  latency d addr,
)

-- The accesses of a device whose access is committed, at an offset.
unfoldable pub load_byte : Dram → ℕ → Result BusError ℕ → Dram × Result BusError ℕ
load_byte d addr (err e) = (d, err e)
load_byte d addr (ok i) =
    (d, if ltb i (length d.bytes) then ok (get_or d.bytes i 0) else err (unmapped_address addr))

unfoldable pub store_byte : Dram → ℕ → ℕ → Result BusError ℕ → Dram × Result BusError (Unit {0})
store_byte d addr value (err e) = (d, err e)
store_byte d addr value (ok i) =
    if ltb i (length d.bytes)
    then (record d { bytes = set d.bytes i value }, ok tt)
    else (d, err (unmapped_address addr))

unfoldable pub load8 : ℕ → Action Dram ℕ
load8 addr d =
    let committed = commit_pending_access d addr in load_byte committed addr (offset committed addr)

unfoldable pub store8 : ℕ → ℕ → Action Dram (Unit {0})
store8 addr value d =
    let committed = commit_pending_access d addr in
    store_byte committed addr value (offset committed addr)

-- The contents, without the timing.
unfoldable pub contents : Dram → Ram
contents d = record { range = d.range; bytes = d.bytes }
