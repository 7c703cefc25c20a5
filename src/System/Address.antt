-- ===== src/System/Address.antt =====
-- crates/system/src/bus.rs, lines 102 to 129: half-open physical address ranges. An `Address` is a
-- `u64`, and `end` wraps.
use rust_computer.Base.{ℕ, ◌+◌, ◌%◌, ◌^◌, Bool, ◌&&◌, ltb, leb}

pub record AddressRange : Type 0 where
  pub start : ℕ
  pub size : ℕ

unfoldable pub end : AddressRange → ℕ
end r = (r.start + r.size) % 2 ^ 64

unfoldable pub contains : AddressRange → ℕ → Bool
unfolding end
contains r addr = leb r.start addr && ltb addr (end r)

unfoldable pub overlaps : AddressRange → AddressRange → Bool
unfolding end
overlaps r other = ltb r.start (end other) && ltb other.start (end r)
