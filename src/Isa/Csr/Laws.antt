-- ===== src/Isa/Csr/Laws.antt =====
-- `try_from` and the discriminants are inverse to each other.
use rust_computer.Base.{ℕ, ◌≡◌, refl, arith, ok, ◌↔◌}
use rust_computer.Isa.Csr.{CsrAddress, code, try_from}

pub try_from-code : (a : CsrAddress) → try_from (code a) ≡ ok a
unfolding try_from code
try_from-code CsrAddress.sstatus = refl
try_from-code _ = refl

code-try_from : (value : ℕ) (a : CsrAddress) → try_from value ≡ ok a → code a ≡ value
unfolding try_from code
code-try_from value a h = ground arith

-- A value decodes to an address exactly when it is the address's discriminant.
pub try_from_iff : (value : ℕ) (a : CsrAddress) → (try_from value ≡ ok a) ↔ (code a ≡ value)
try_from_iff value a = (code-try_from value a, λ e. rw (← e) (try_from-code a))
