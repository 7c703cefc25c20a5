-- ===== src/Cpu/Mmu/Requests.antt =====
-- The derived `==` of translation requests is equality.
use rust_computer.Base.{◌≡◌, refl, arith, true}
use rust_computer.Cpu.Mmu.Types.{
  MemoryAccess, instruction, TranslationRequest, request_eq, privilege_eq, access_eq,
}
use rust_computer.Cpu.Privilege.{PrivilegeMode, user}

privilege_eq_refl : (p : PrivilegeMode) → privilege_eq p p ≡ true
unfolding privilege_eq
privilege_eq_refl user = refl
privilege_eq_refl _ = refl

access_eq_refl : (a : MemoryAccess) → access_eq a a ≡ true
unfolding access_eq
access_eq_refl instruction = refl
access_eq_refl _ = refl

privilege_eq→eq : (p q : PrivilegeMode) → privilege_eq p q ≡ true → p ≡ q
unfolding privilege_eq
privilege_eq→eq p q h = ground arith

access_eq→eq : (a b : MemoryAccess) → access_eq a b ≡ true → a ≡ b
unfolding access_eq
access_eq→eq a b h = ground arith

-- The derived equality of requests is equality.
pub request_eq→eq : (a b : TranslationRequest) → request_eq a b ≡ true → a ≡ b
unfolding request_eq
request_eq→eq a b h =
    ground (arith, privilege_eq→eq a.privilege b.privilege, access_eq→eq a.access b.access)

pub request_eq_refl : (r : TranslationRequest) → request_eq r r ≡ true
unfolding request_eq
request_eq_refl r = grind (arith, privilege_eq_refl r.privilege, access_eq_refl r.access)
