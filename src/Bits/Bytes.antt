-- ===== src/Bits/Bytes.antt =====
-- `to_le_bytes` and `from_le_bytes` of a `u32`, and one byte of a word replaced.
use rust_computer.Base.{ℕ, ◌+◌, ◌*◌, ◌/◌, ◌%◌, List, [], ◌∷◌, get_or, set}

unfoldable pub to_le_bytes : ℕ → List ℕ
to_le_bytes w = w % 256 ∷ w / 256 % 256 ∷ w / 65536 % 256 ∷ w / 16777216 % 256 ∷ []

unfoldable pub from_le_bytes : List ℕ → ℕ
from_le_bytes [] = 0
from_le_bytes (b ∷ rest) = b + 256 * from_le_bytes rest

-- `let mut bytes = w.to_le_bytes(); bytes[i] = value; u32::from_le_bytes(bytes)`.
unfoldable pub replace_byte : ℕ → ℕ → ℕ → ℕ
unfolding to_le_bytes from_le_bytes
replace_byte w i value = from_le_bytes (set (to_le_bytes w) i value)

unfoldable pub byte_of : ℕ → ℕ → ℕ
unfolding to_le_bytes
byte_of w i = get_or (to_le_bytes w) i 0
