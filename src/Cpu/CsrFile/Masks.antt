-- ===== src/Cpu/CsrFile/Masks.antt =====
-- The constants of csr_file.rs, lines 6 to 55, as the numbers that their bits make.
use rust_computer.Base.{ℕ, ◌+◌, ◌-◌, ◌*◌, ◌^◌}

abbrev pub mstatus_sie : ℕ
mstatus_sie = 2 ^ 1

abbrev pub mstatus_mie : ℕ
mstatus_mie = 2 ^ 3

abbrev pub mstatus_spie : ℕ
mstatus_spie = 2 ^ 5

abbrev pub mstatus_mpie : ℕ
mstatus_mpie = 2 ^ 7

abbrev pub mstatus_spp : ℕ
mstatus_spp = 2 ^ 8

abbrev pub mstatus_sum : ℕ
mstatus_sum = 2 ^ 18

abbrev pub mstatus_mxr : ℕ
mstatus_mxr = 2 ^ 19

abbrev pub mstatus_tvm : ℕ
mstatus_tvm = 2 ^ 20

abbrev pub mstatus_tw : ℕ
mstatus_tw = 2 ^ 21

abbrev pub mstatus_tsr : ℕ
mstatus_tsr = 2 ^ 22

abbrev pub mstatus_mpp_shift : ℕ
mstatus_mpp_shift = 11

abbrev pub mstatus_mpp_mask : ℕ
mstatus_mpp_mask = 3 * 2 ^ mstatus_mpp_shift

-- SIE, SPIE, SPP, SUM and MXR.
abbrev pub sstatus_mask : ℕ
sstatus_mask = 2 ^ 1 + 2 ^ 5 + 2 ^ 8 + 2 ^ 18 + 2 ^ 19

-- The software, timer and external bits: of the supervisor, and of both modes.
abbrev pub sie_mask : ℕ
sie_mask = 2 ^ 1 + 2 ^ 5 + 2 ^ 9

abbrev pub mie_mask : ℕ
mie_mask = 2 ^ 1 + 2 ^ 3 + 2 ^ 5 + 2 ^ 7 + 2 ^ 9 + 2 ^ 11

abbrev pub mip_ssip : ℕ
mip_ssip = 2 ^ 1

abbrev pub mip_msip : ℕ
mip_msip = 2 ^ 3

abbrev pub mip_stip : ℕ
mip_stip = 2 ^ 5

abbrev pub mip_mtip : ℕ
mip_mtip = 2 ^ 7

abbrev pub mip_seip : ℕ
mip_seip = 2 ^ 9

abbrev pub mip_meip : ℕ
mip_meip = 2 ^ 11

abbrev pub sip_mask : ℕ
sip_mask = 2 ^ 1 + 2 ^ 5 + 2 ^ 9

abbrev pub managed_interrupt_mask : ℕ
managed_interrupt_mask = 2 ^ 1 + 2 ^ 3 + 2 ^ 5 + 2 ^ 7 + 2 ^ 9 + 2 ^ 11

abbrev pub mip_writable_mask : ℕ
mip_writable_mask = 2 ^ 1 + 2 ^ 3

abbrev pub sip_writable_mask : ℕ
sip_writable_mask = 2 ^ 1

-- The causes 0 to 9, 12, 13 and 15.
abbrev pub medeleg_mask : ℕ
medeleg_mask = 2 ^ 10 - 1 + 2 ^ 12 + 2 ^ 13 + 2 ^ 15

abbrev pub mideleg_mask : ℕ
mideleg_mask = 2 ^ 1 + 2 ^ 5 + 2 ^ 9

abbrev pub counteren_mask : ℕ
counteren_mask = 2 ^ 0 + 2 ^ 1 + 2 ^ 2
