-- ===== src/Cpu/Mmu/Pte.antt =====
-- mmu.rs, lines 6 to 33 and 448 to 614: the constants, and the pure functions on page-table
-- entries, requests and CSR values.
use rust_computer.Base.{
  ℕ, zero, suc, ◌+◌, ◌-◌, ◌*◌, ◌^◌, bit_and, bit_or, Bool, true, false, not, ◌&&◌, ◌||◌, Option,
  none, some, ◌==◌, if◌then◌else◌,
}
use rust_computer.Bits.{shl, shr, u16, u32, has_flag}
use rust_computer.Cpu.CsrFile.{CsrFile, read}
use rust_computer.Cpu.Mmu.Types.{
  MemoryAccess, instruction, load, store, TranslationRequest, WalkState, access_eq,
}
use rust_computer.Cpu.Privilege.{PrivilegeMode, user, supervisor, machine, is_machine}
use rust_computer.Isa.Csr.{CsrAddress}
use rust_computer.Isa.Exception.{Trap, exception}
use rust_computer.Isa.Exception

abbrev pub page_shift : ℕ
page_shift = 12

abbrev pub page_offset_mask : ℕ
page_offset_mask = 2 ^ page_shift - 1

abbrev pub superpage_offset_mask : ℕ
superpage_offset_mask = 2 ^ 22 - 1

abbrev pub satp_asid_mask : ℕ
satp_asid_mask = 2 ^ 9 - 1

abbrev pub satp_ppn_mask : ℕ
satp_ppn_mask = 2 ^ 22 - 1

abbrev pub mstatus_mprv : ℕ
mstatus_mprv = 2 ^ 17

abbrev pub mstatus_sum : ℕ
mstatus_sum = 2 ^ 18

abbrev pub mstatus_mxr : ℕ
mstatus_mxr = 2 ^ 19

abbrev pub mstatus_mpp_mask : ℕ
mstatus_mpp_mask = 3 * 2 ^ 11

abbrev pub pte_v : ℕ
pte_v = 2 ^ 0

abbrev pub pte_r : ℕ
pte_r = 2 ^ 1

abbrev pub pte_w : ℕ
pte_w = 2 ^ 2

abbrev pub pte_x : ℕ
pte_x = 2 ^ 3

abbrev pub pte_u : ℕ
pte_u = 2 ^ 4

abbrev pub pte_g : ℕ
pte_g = 2 ^ 5

abbrev pub pte_a : ℕ
pte_a = 2 ^ 6

abbrev pub pte_d : ℕ
pte_d = 2 ^ 7

abbrev pub pte_ppn_mask : ℕ
pte_ppn_mask = 2 ^ 22 - 1

abbrev pub pte_ppn0_mask : ℕ
pte_ppn0_mask = 2 ^ 10 - 1

abbrev pub nonleaf_reserved_mask : ℕ
nonleaf_reserved_mask = pte_u + pte_a + pte_d

unfoldable pub translation_enabled : ℕ → PrivilegeMode → Bool
translation_enabled satp privilege = not (is_machine privilege) && (shr satp 31 == 1)

unfoldable pub satp_asid : ℕ → ℕ
satp_asid satp = u16 (bit_and (shr satp 22) satp_asid_mask)

unfoldable pub translation_status : CsrFile → ℕ
translation_status csrs = bit_and (read csrs CsrAddress.mstatus) (mstatus_sum + mstatus_mxr)

-- mmu.rs has its own copy of this function.
unfoldable pub privilege_from_bits : ℕ → PrivilegeMode
privilege_from_bits bits = if bits == 0 then user else if bits == 1 then supervisor else machine

unfoldable pub effective_privilege : CsrFile → PrivilegeMode → MemoryAccess → PrivilegeMode
unfolding privilege_from_bits access_eq
effective_privilege csrs current access =
    if access_eq access instruction || not (is_machine current)
    then current
    else let mstatus = read csrs CsrAddress.mstatus in
      if bit_and mstatus mstatus_mprv == 0
      then current
      else privilege_from_bits (shr (bit_and mstatus mstatus_mpp_mask) 11)

unfoldable pub vpn : ℕ → ℕ → ℕ
vpn virtual_address zero = bit_and (shr virtual_address 12) 0x3ff
vpn virtual_address (suc zero) = bit_and (shr virtual_address 22) 0x3ff
vpn virtual_address (suc (suc _)) = 0

unfoldable pub root_pte_address : TranslationRequest → ℕ
unfolding vpn
root_pte_address r =
    u32 (shl (bit_and r.satp satp_ppn_mask) page_shift + vpn r.virtual_address 1 * 4)

unfoldable pub pte_flags : ℕ → ℕ
pte_flags pte = bit_and pte 0xff

unfoldable pub pte_ppn : ℕ → ℕ
pte_ppn pte = bit_and (shr pte 10) pte_ppn_mask

unfoldable pub pte_is_global : ℕ → Bool
pte_is_global flags = has_flag flags pte_g

unfoldable pub nonleaf_flags_valid : ℕ → Bool
nonleaf_flags_valid flags = bit_and flags nonleaf_reserved_mask == 0

unfoldable pub access_bits_for : TranslationRequest → ℕ
unfolding access_eq
access_bits_for r = bit_or pte_a (if access_eq r.access store then pte_d else 0)

unfoldable pub needs_access_bit_update : TranslationRequest → ℕ → Bool
unfolding access_bits_for
needs_access_bit_update r flags = not (bit_and flags (access_bits_for r) == access_bits_for r)

unfoldable pub updated_flags : TranslationRequest → ℕ → ℕ
unfolding access_bits_for
updated_flags r flags = bit_or flags (access_bits_for r)

unfoldable pub updated_pte : ℕ → TranslationRequest → ℕ
unfolding access_bits_for
updated_pte pte r = bit_or pte (access_bits_for r)

-- The physical page of a leaf at the given level: a superpage must be aligned.
unfoldable pub leaf_page : ℕ → ℕ → ℕ → Option ℕ
unfolding vpn
leaf_page zero ppn va = some (bit_or (shl (shr ppn 10) 10) (bit_and ppn pte_ppn0_mask))
leaf_page (suc zero) ppn va =
    if not (bit_and ppn pte_ppn0_mask == 0)
    then none
    else some (bit_or (shl (shr ppn 10) 10) (vpn va 0))
leaf_page (suc (suc _)) ppn va = none

-- The page shifted into place, with the offset in it.
abbrev with_offset : ℕ → Option ℕ → Option ℕ
with_offset offset none = none
with_offset offset (some physical_page) = some (bit_or (shl physical_page page_shift) offset)

unfoldable pub translate_leaf : WalkState → ℕ → Option ℕ
unfolding leaf_page pte_ppn
translate_leaf state pte =
    with_offset (bit_and state.request.virtual_address page_offset_mask)
      (leaf_page state.level (pte_ppn pte) state.request.virtual_address)

-- The inner `match request.access`.
abbrev kind_permitted : MemoryAccess → Bool → Bool → Bool → Bool
kind_permitted instruction executable load_permitted writable = executable
kind_permitted load executable load_permitted writable = load_permitted
kind_permitted store executable load_permitted writable = writable

-- The `match request.privilege`, over the flags that it reads.
unfoldable pub mode_permits : PrivilegeMode → MemoryAccess → Bool → Bool → Bool → Bool → Bool → Bool
unfolding access_eq
mode_permits machine access user_page sum executable load_permitted writable = true
mode_permits supervisor access true sum executable load_permitted writable =
    if access_eq access instruction || not sum
    then false
    else kind_permitted access executable load_permitted writable
mode_permits supervisor access false sum executable load_permitted writable =
    kind_permitted access executable load_permitted writable
mode_permits user access false sum executable load_permitted writable = false
mode_permits user access true sum executable load_permitted writable =
    kind_permitted access executable load_permitted writable

unfoldable pub permissions_allow : TranslationRequest → ℕ → Bool
unfolding mode_permits
permissions_allow r flags =
    let executable = has_flag flags pte_x in
    let load_permitted = has_flag flags pte_r || (has_flag r.status mstatus_mxr && executable) in
    mode_permits r.privilege r.access (has_flag flags pte_u) (has_flag r.status mstatus_sum)
      executable load_permitted (has_flag flags pte_w)

abbrev fault_kind :
    MemoryAccess
    → (ℕ → Exception.Exception)
    → (ℕ → Exception.Exception)
    → (ℕ → Exception.Exception)
    → ℕ
    → Trap
fault_kind instruction i l s addr = exception (i addr)
fault_kind load i l s addr = exception (l addr)
fault_kind store i l s addr = exception (s addr)

unfoldable pub page_fault : TranslationRequest → Trap
page_fault r =
    fault_kind r.access Exception.instruction_page_fault Exception.load_page_fault
      Exception.store_page_fault r.virtual_address

unfoldable pub access_fault : TranslationRequest → Trap
access_fault r =
    fault_kind r.access Exception.instruction_access_fault Exception.load_access_fault
      Exception.store_access_fault r.virtual_address
