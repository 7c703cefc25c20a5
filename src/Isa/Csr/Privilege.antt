-- ===== src/Isa/Csr/Privilege.antt =====
-- What the address says of the access that it allows.
use rust_computer.Base.{◌≤◌, ◌≡◌, arith, true}
use rust_computer.Isa.Csr.{CsrAddress, min_privilege_level, is_read_only}

-- Every CSR that user mode may name is read-only.
pub user_csr-read_only : (a : CsrAddress) → min_privilege_level a ≤ 0 → is_read_only a ≡ true
unfolding min_privilege_level is_read_only
user_csr-read_only CsrAddress.sstatus h = absurd (omega arith)
user_csr-read_only _ h = ground arith
