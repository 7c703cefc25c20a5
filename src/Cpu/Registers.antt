-- ===== src/Cpu/Registers.antt =====
-- crates/cpu/src/state/registers.rs: 32 words, the first of them wired to zero.
pub mod Laws
use rust_computer.Base.{ℕ, List, ◌==◌, if◌then◌else◌, get_or, set, replicate}

pub record RegisterFile : Type 0 where
  pub regs : List ℕ

unfoldable pub read : RegisterFile → ℕ → ℕ
read r index = get_or r.regs index 0

unfoldable pub write : RegisterFile → ℕ → ℕ → RegisterFile
write r index value = if index == 0 then r else record { regs = set r.regs index value }

unfoldable pub default : RegisterFile
default = record { regs = replicate 32 0 }
