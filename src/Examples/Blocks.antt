-- ===== src/Examples/Blocks.antt =====
-- A block device of two blocks of four bytes, which reads its second block in three ticks.
use rust_computer.Base.{◌≡◌, refl, true, false, none, [], ◌∷◌}
use rust_computer.Devices.BlockDevice.Commands.{ticks, ticks-start_command}
use rust_computer.Devices.BlockDevice.{
  BlockDevice, InterruptRoute, BlockCommand, finish_command, start_command, move_block, block_range,
  slice,
}

abbrev disk : BlockDevice
disk = record {
  range = record { start = 0x7000_0000; size = 24 };
  block_count = 2;
  block_bytes = 4;
  operation_latency = 3;
  selected_block = 1;
  irq_enabled = true;
  done = true;
  error = false;
  interrupt_route = InterruptRoute.machine_external;
  staging = 0 ∷ 0 ∷ 0 ∷ 0 ∷ [];
  storage = 1 ∷ 2 ∷ 3 ∷ 4 ∷ 5 ∷ 6 ∷ 7 ∷ 8 ∷ [];
  active = none;
}

finish_command-disk :
    finish_command disk BlockCommand.read_block
    ≡ record disk { staging = 5 ∷ 6 ∷ 7 ∷ 8 ∷ []; done = true }
unfolding finish_command move_block block_range slice
finish_command-disk = refl

ticks-start_command_example :
    ticks 3 (start_command disk BlockCommand.read_block)
    ≡ finish_command
        (record disk { done = false; error = false; active = none })
        BlockCommand.read_block
ticks-start_command_example = ticks-start_command disk BlockCommand.read_block refl
