-- ===== src/Examples/Store.antt =====
-- Memories of four bytes.
use rust_computer.Base.{
  signed32, ◌^◌, ◌<◌, ◌≡◌, refl, arith, true, ok, none, some, [], ◌∷◌, ◌==◌, if◌then◌else◌,
}
use rust_computer.Devices.Dram
use rust_computer.Devices.Dram.{Dram, DramConfig, contents}
use rust_computer.Devices.Memories.{load8-store8, dram-ram}
use rust_computer.Devices.Ram
use rust_computer.Devices.Ram.{Ram}
use rust_computer.Devices.Bytes.{ram_memory, ram_memory-HeldWord}
use rust_computer.Isa.Decode.Extend.{signed, sign_extend-signed}
use rust_computer.Isa.Decode.{sign_extend}
use rust_computer.System.Bus.Words.{HeldWord, stored, load32-store32}
use rust_computer.System.Bus.{provided_load32, provided_store32}
use rust_computer.System.Address.{AddressRange, contains, end}

abbrev four : AddressRange
four = record { start = 0x100; size = 4 }

abbrev small_ram : Ram
small_ram = record { range = four; bytes = 1 ∷ 2 ∷ 3 ∷ 4 ∷ [] }

abbrev config : DramConfig
config = record { row_size = 4; row_miss_latency = 6; row_hit_latency = 3; burst_latency = 1 }

abbrev small_dram : Dram
small_dram = record {
  range = four;
  bytes = 1 ∷ 2 ∷ 3 ∷ 4 ∷ [];
  config = config;
  open_row = some 0;
  next_burst_addr = some 0x102;
  pending_access = none;
}

in_four-1 : contains four 0x101 ≡ true
unfolding contains end
in_four-1 = refl

in_four-2 : contains four 0x102 ≡ true
unfolding contains end
in_four-2 = refl

load8-store8_example :
    (Ram.load8 0x102 (Ram.store8 0x101 9 small_ram).0).1
    ≡ (if 0x101 == 0x102 then ok 9 else (Ram.load8 0x102 small_ram).1)
load8-store8_example = load8-store8 small_ram 0x101 0x102 9 refl in_four-1 in_four-2

dram-ram_example :
    ((Dram.load8 0x102 small_dram).1 ≡ (Ram.load8 0x102 (contents small_dram)).1)
    × (contents (Dram.load8 0x102 small_dram).0 ≡ contents small_dram)
    × ((Dram.store8 0x102 9 small_dram).1 ≡ (Ram.store8 0x102 9 (contents small_dram)).1)
    × (contents (Dram.store8 0x102 9 small_dram).0 ≡ (Ram.store8 0x102 9 (contents small_dram)).0)
dram-ram_example = dram-ram small_dram 0x102 9

-- A word in the small memory.
small_ram-HeldWord : HeldWord Ram.load8 Ram.store8 ram_memory 0x100 small_ram
unfolding contains end
small_ram-HeldWord =
    ram_memory-HeldWord 0x100 small_ram (refl, omega arith) (refl, omega arith) (refl, omega arith)
      (refl, omega arith)

load32-store32_example :
    provided_load32 Ram.load8 Ram.store8 0x100
      (provided_store32 Ram.load8 Ram.store8 0x100 0xdead_beef small_ram).0
    ≡ (stored Ram.load8 Ram.store8 ram_memory 0x100 0xdead_beef small_ram, ok 0xdead_beef)
load32-store32_example =
    load32-store32 Ram.load8 Ram.store8 ram_memory 0x100 0xdead_beef small_ram small_ram-HeldWord
      refl (omega arith)

sign_extend-signed_example :
    (0xffc < 2 ^ 12 → signed32 (sign_extend 0xffc 12) ≡ signed 12 0xffc)
    × (0xffc < 2 ^ 13 → signed32 (sign_extend 0xffc 13) ≡ signed 13 0xffc)
    × (0xffc < 2 ^ 21 → signed32 (sign_extend 0xffc 21) ≡ signed 21 0xffc)
sign_extend-signed_example = sign_extend-signed 0xffc
