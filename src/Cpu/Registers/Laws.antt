-- ===== src/Cpu/Registers/Laws.antt =====
-- The register file: a write is read back, except that x0 stays zero.
use rust_computer.Base.{
  ℕ, ◌<◌, ◌≡◌, refl, arith, get_or, length, length-set, get_or-set_self, get_or-set_ne, ◌==◌,
  if◌then◌else◌, ◌&&◌, not,
}
use rust_computer.Cpu.Registers.{RegisterFile, read, write, default}

-- A register file of 32 registers whose first one is zero.
pub record IsValid (r : RegisterFile) : Type 0 where
  pub size : length r.regs ≡ 32
  pub x0 : get_or r.regs 0 0 ≡ 0

pub default-IsValid : IsValid default
unfolding default
default-IsValid = record { size = refl; x0 = refl }

pub write-IsValid : (r : RegisterFile) (i v : ℕ) → IsValid r → IsValid (write r i v)
unfolding write
write-IsValid r i v h = record {
  size = ground (arith, length-set r.regs i v, h.size);
  x0 = ground (arith, get_or-set_ne r.regs i 0 v 0, h.x0);
}

-- After a write to a register below 32, that register reads the value, or zero if it is x0, and
-- every other register reads what it did.
pub read-write :
    (r : RegisterFile) (i j v : ℕ)
    → IsValid r
    → i < 32
    → read (write r i v) j ≡ (if (i == j) && not (i == 0) then v else read r j)
unfolding read write
read-write r i j v h b =
    ground (arith, h.size, get_or-set_self r.regs i v 0, get_or-set_ne r.regs i j v 0)
