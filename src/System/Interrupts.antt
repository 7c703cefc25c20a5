-- ===== src/System/Interrupts.antt =====
-- crates/system/src/bus.rs, lines 16 to 100: the interrupt lines and the set of raised ones.
use rust_computer.Base.{ℕ, ◌^◌, bit_or, Bool, Option, none, some, if◌then◌else◌}
use rust_computer.Bits.{has_flag}

pub data InterruptLine : Type 0 where
  supervisor_software machine_software supervisor_timer : InterruptLine
  machine_timer supervisor_external machine_external : InterruptLine

-- The field is a `u8`.
pub record InterruptSet : Type 0 where
  pub bits : ℕ

unfoldable pub mask_for : InterruptLine → ℕ
mask_for supervisor_software = 2 ^ 0
mask_for machine_software = 2 ^ 1
mask_for supervisor_timer = 2 ^ 2
mask_for machine_timer = 2 ^ 3
mask_for supervisor_external = 2 ^ 4
mask_for machine_external = 2 ^ 5

unfoldable pub empty : InterruptSet
empty = record { bits = 0 }

unfoldable pub from_line : InterruptLine → InterruptSet
unfolding mask_for
from_line line = record { bits = mask_for line }

unfoldable pub contains : InterruptSet → InterruptLine → Bool
unfolding mask_for
contains set line = has_flag set.bits (mask_for line)

unfoldable pub union : InterruptSet → InterruptSet → InterruptSet
union set other = record { bits = bit_or set.bits other.bits }

unfoldable pub highest_priority : InterruptSet → Option InterruptLine
unfolding contains
highest_priority set =
    if contains set machine_external
    then some machine_external
    else if contains set machine_software
    then some machine_software
    else if contains set machine_timer
    then some machine_timer
    else if contains set supervisor_external
    then some supervisor_external
    else if contains set supervisor_software
    then some supervisor_software
    else if contains set supervisor_timer
    then some supervisor_timer
    else none
