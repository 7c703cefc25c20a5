-- ===== src/Isa/Csr.antt =====
-- crates/isa/src/csr.rs: the modelled CSR addresses. `CsrAddressError(value)` is its value.
pub mod Laws
pub mod Privilege
use rust_computer.Base.{
  ℕ, suc, ◌*◌, ◌^◌, bit_and, Bool, Option, none, some, Result, ok, err, ◌==◌, if◌then◌else◌,
}
use rust_computer.Bits.{shr, u8}

pub data CsrAddress : Type 0 where
  sstatus sie stvec scounteren satp : CsrAddress
  mstatus medeleg mideleg mie mtvec mcounteren : CsrAddress
  mcycle minstret mcycleh minstreth : CsrAddress
  cycle time instret cycleh timeh instreth : CsrAddress
  sepc scause stval sip mepc mcause mtval mip : CsrAddress

-- `self as u16`: the discriminants.
unfoldable pub code : CsrAddress → ℕ
code sstatus = 0x100
code sie = 0x104
code stvec = 0x105
code scounteren = 0x106
code satp = 0x180
code mstatus = 0x300
code medeleg = 0x302
code mideleg = 0x303
code mie = 0x304
code mtvec = 0x305
code mcounteren = 0x306
code mcycle = 0xb00
code minstret = 0xb02
code mcycleh = 0xb80
code minstreth = 0xb82
code cycle = 0xc00
code time = 0xc01
code instret = 0xc02
code cycleh = 0xc80
code timeh = 0xc81
code instreth = 0xc82
code sepc = 0x141
code scause = 0x142
code stval = 0x143
code sip = 0x144
code mepc = 0x341
code mcause = 0x342
code mtval = 0x343
code mip = 0x344

-- `min_privilege_level`: bits 8 and 9 of the address.
unfoldable pub min_privilege_level : CsrAddress → ℕ
unfolding code
min_privilege_level a = u8 (bit_and (shr (code a) 8) 0b11)

-- `is_read_only`: bits 10 and 11 of the address are both set.
unfoldable pub is_read_only : CsrAddress → Bool
unfolding code
is_read_only a = bit_and (shr (code a) 10) 0b11 == 0b11

unfoldable pub counteren_mask : CsrAddress → Option ℕ
counteren_mask cycle = some (2 ^ 0)
counteren_mask cycleh = some (2 ^ 0)
counteren_mask time = some (2 ^ 1)
counteren_mask timeh = some (2 ^ 1)
counteren_mask instret = some (2 ^ 2)
counteren_mask instreth = some (2 ^ 2)
counteren_mask _ = none

-- `TryFrom<u16>`.
unfoldable pub try_from : ℕ → Result ℕ CsrAddress
try_from value =
    if value == 0x100
    then ok sstatus
    else if value == 0x104
    then ok sie
    else if value == 0x105
    then ok stvec
    else if value == 0x106
    then ok scounteren
    else if value == 0x180
    then ok satp
    else if value == 0x300
    then ok mstatus
    else if value == 0x302
    then ok medeleg
    else if value == 0x303
    then ok mideleg
    else if value == 0x304
    then ok mie
    else if value == 0x305
    then ok mtvec
    else if value == 0x306
    then ok mcounteren
    else if value == 0xb00
    then ok mcycle
    else if value == 0xb02
    then ok minstret
    else if value == 0xb80
    then ok mcycleh
    else if value == 0xb82
    then ok minstreth
    else if value == 0xc00
    then ok cycle
    else if value == 0xc01
    then ok time
    else if value == 0xc02
    then ok instret
    else if value == 0xc80
    then ok cycleh
    else if value == 0xc81
    then ok timeh
    else if value == 0xc82
    then ok instreth
    else if value == 0x141
    then ok sepc
    else if value == 0x142
    then ok scause
    else if value == 0x143
    then ok stval
    else if value == 0x144
    then ok sip
    else if value == 0x341
    then ok mepc
    else if value == 0x342
    then ok mcause
    else if value == 0x343
    then ok mtval
    else if value == 0x344
    then ok mip
    else err value
