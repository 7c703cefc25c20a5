-- ===== src/Isa/Decode/Extend.antt =====
-- decode.rs: `sign_extend` at the widths of the immediates.
use rust_computer.Base.{ℕ, ◌-◌, ◌^◌, ◌<◌, ◌≡◌, arith, ltb, if◌then◌else◌, ℤ, pos, negsuc, signed32}
use rust_computer.Bits.{sar}
use rust_computer.Isa.Decode.{sign_extend}

-- The two's complement reading of `bits` bits.
abbrev pub signed : ℕ → ℕ → ℤ
signed bits v = if ltb v (2 ^ (bits - 1)) then pos v else negsuc (2 ^ bits - v - 1)

-- A field of 12, 13 or 21 bits, the widths of the immediates, is extended to the 32-bit word of the
-- same signed value.
pub sign_extend-signed :
    (v : ℕ)
    → (v < 2 ^ 12 → signed32 (sign_extend v 12) ≡ signed 12 v)
      × (v < 2 ^ 13 → signed32 (sign_extend v 13) ≡ signed 13 v)
      × (v < 2 ^ 21 → signed32 (sign_extend v 21) ≡ signed 21 v)
unfolding sign_extend sar
sign_extend-signed v = (λ h. ground (arith, h), λ h. ground (arith, h), λ h. ground (arith, h))
