-- ===== src/Cpu/Privilege.antt =====
-- crates/cpu/src/state/privilege.rs.
use rust_computer.Base.{ℕ, Bool, true, false}

pub data PrivilegeMode : Type 0 where
  user supervisor machine : PrivilegeMode

unfoldable pub csr_level : PrivilegeMode → ℕ
csr_level user = 0
csr_level supervisor = 1
csr_level machine = 3

-- `matches!(p, PrivilegeMode::..)`.
abbrev pub is_machine : PrivilegeMode → Bool
is_machine machine = true
is_machine _ = false

abbrev pub is_supervisor : PrivilegeMode → Bool
is_supervisor supervisor = true
is_supervisor _ = false

abbrev pub is_user : PrivilegeMode → Bool
is_user user = true
is_user _ = false
