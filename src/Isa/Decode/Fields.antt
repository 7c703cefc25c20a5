-- ===== src/Isa/Decode/Fields.antt =====
-- What every instruction that `decode` accepts satisfies.
use rust_computer.Base.{
  ℕ, ◌/◌, ◌%◌, ◌^◌, ◌<◌, ◌≡◌, refl, ◌∙◌, arith, Option, none, some, Result, ok, err, Bool, true,
  false, if◌then◌else◌, ◌==◌, ◌&&◌, bit_and, ◌>>=◌, subst,
}
use rust_computer.Bits.{u8, u16, shr}
use rust_computer.Bits.Fields.{bit_and_low}
use rust_computer.Isa.Csr.Laws.{try_from_iff}
use rust_computer.Isa.Csr.{CsrAddress, code, try_from}
use rust_computer.Isa.Decode.{
  DecodedInstruction, new, system_operand, decode_branch, decode_load, decode_store, decode_op_imm,
  decode_op, decode_system, decode_csr_op, decode_csr_address, decode_fields, decode, map_err,
}
use rust_computer.Isa.Opcode.{
  InstructionKind, SystemKind, CsrOp, lui, auipc, jal, branch, store, op, system, ecall, ebreak,
  sfence_vma, wfi, mret, sret,
}

-- A CSR instruction carries its CSR.
unfoldable pub HasCsr : InstructionKind → Option CsrAddress → Type 0
HasCsr (InstructionKind.csr _) none = ⊥
HasCsr _ _ = Unit

unfoldable pub IsRegister : Option ℕ → Type 0
IsRegister none = Unit
IsRegister (some i) = i < 32

-- The register fields of the instruction formats.
abbrev pub has_rd : InstructionKind → Bool
has_rd (branch _) = false
has_rd (store _) = false
has_rd (system _) = false
has_rd _ = true

abbrev pub is_fence : SystemKind → Bool
is_fence sfence_vma = true
is_fence _ = false

abbrev pub has_rs1 : InstructionKind → Bool
has_rs1 lui = false
has_rs1 auipc = false
has_rs1 jal = false
has_rs1 (system k) = is_fence k
has_rs1 _ = true

abbrev pub has_rs2 : InstructionKind → Bool
has_rs2 (branch _) = true
has_rs2 (store _) = true
has_rs2 (op _) = true
has_rs2 (system k) = is_fence k
has_rs2 _ = false

abbrev pub named : Bool → ℕ → Option ℕ
named b field = if b then some field else none

-- The CSR of a CSR instruction is the one numbered by the upper twelve bits of the word; the others
-- have none.
abbrev pub IsCsrOf : ℕ → InstructionKind → Option CsrAddress → Type 0
IsCsrOf raw (InstructionKind.csr _) none = ⊥
IsCsrOf raw (InstructionKind.csr _) (some a) = code a ≡ raw / 2 ^ 20 % 2 ^ 12
IsCsrOf raw kind a = a ≡ none

-- The instruction is cut from the word: each register that its format has is the field of the word.
pub record IsCut (rd rs1 rs2 raw pc : ℕ) (d : DecodedInstruction) : Type 0 where
  pub word : d.raw ≡ raw
  pub address : d.pc ≡ pc
  pub destination : d.rd ≡ named (has_rd d.kind) rd
  pub source1 : d.rs1 ≡ named (has_rs1 d.kind) rs1
  pub source2 : d.rs2 ≡ named (has_rs2 d.kind) rs2
  pub csr : IsCsrOf raw d.kind d.csr

unfoldable Decodes : ℕ → ℕ → ℕ → ℕ → ℕ → Result ℕ DecodedInstruction → Type 0
Decodes rd rs1 rs2 raw pc (ok d) = IsCut rd rs1 rs2 raw pc d
Decodes rd rs1 rs2 raw pc (err e) = Unit

bind-Decodes :
    {A : Type 0} (rd rs1 rs2 raw pc : ℕ) (x : Result ℕ A) (f : A → Result ℕ DecodedInstruction)
    → ((a : A) → Decodes rd rs1 rs2 raw pc (f a))
    → Decodes rd rs1 rs2 raw pc (x >>= f)
bind-Decodes rd rs1 rs2 raw pc (ok a) f p = p a
bind-Decodes rd rs1 rs2 raw pc (err e) f p = unfold Decodes in tt

system_operand-named : (k : SystemKind) (r : ℕ) → system_operand k r ≡ named (is_fence k) r
unfolding system_operand
system_operand-named ecall r = refl
system_operand-named ebreak r = refl
system_operand-named sfence_vma r = refl
system_operand-named wfi r = refl
system_operand-named mret r = refl
system_operand-named sret r = refl

refused : (rd rs1 rs2 raw pc : ℕ) → Decodes rd rs1 rs2 raw pc (err raw)
unfolding Decodes
refused rd rs1 rs2 raw pc = tt

-- The arm of the CSR instructions.
csr_address-Decodes :
    (rd rs1 rs2 raw pc : ℕ) (k : CsrOp)
    → Decodes rd rs1 rs2 raw pc (do
      address ← decode_csr_address raw
      ok (new raw pc (InstructionKind.csr k) (some rd) (some rs1) none 0 (some address)))
unfolding decode_csr_address
csr_address-Decodes rd rs1 rs2 raw pc k =
    on (u16 (bit_and (shr raw 20) 0x0fff)) _ (omega (arith, bit_and_low 12 (shr raw 20))) refl
  where
    on :
        (v : ℕ) (x : Result ℕ CsrAddress)
        → v ≡ raw / 2 ^ 20 % 2 ^ 12
        → try_from v ≡ x
        → Decodes rd rs1 rs2 raw pc (
            map_err (λ _. raw) x >>= λ address.
            ok (new raw pc (InstructionKind.csr k) (some rd) (some rs1) none 0 (some address)))
    on v (ok a) low e =
        unfold Decodes in
        record {
          word = refl;
          address = refl;
          destination = refl;
          source1 = refl;
          source2 = refl;
          csr = (try_from_iff v a).0 e ∙ low;
        }
    on v (err _) low e = unfold Decodes in tt

decode_fields-Decodes :
    (opcode rd funct3 rs1 rs2 funct7 raw pc : ℕ)
    → Decodes rd rs1 rs2 raw pc (decode_fields opcode rd funct3 rs1 rs2 funct7 raw pc)
unfolding decode_fields
decode_fields-Decodes opcode rd funct3 rs1 rs2 funct7 raw pc =
    let plain : (k : InstructionKind) (imm : ℕ) (d r1 r2 : Option ℕ)
        → d ≡ named (has_rd k) rd
        → r1 ≡ named (has_rs1 k) rs1
        → r2 ≡ named (has_rs2 k) rs2
        → IsCsrOf raw k none
        → Decodes rd rs1 rs2 raw pc (ok (new raw pc k d r1 r2 imm none)) =
      λ k imm d r1 r2 e e1 e2 c.
        unfold Decodes in
        record {
          word = refl;
          address = refl;
          destination = e;
          source1 = e1;
          source2 = e2;
          csr = c;
        } in
    if_else (opcode == 0x37) _ _ (plain _ _ _ _ _ refl refl refl refl) (
      if_else (opcode == 0x17) _ _ (plain _ _ _ _ _ refl refl refl refl) (
        if_else (opcode == 0x6f) _ _ (plain _ _ _ _ _ refl refl refl refl) (
          if_else ((opcode == 0x67) && (funct3 == 0)) _ _ (plain _ _ _ _ _ refl refl refl refl) (
            if_else (opcode == 0x63) _ _
              (bind-Decodes rd rs1 rs2 raw pc (decode_branch funct3 raw) _
                (λ k. plain _ _ _ _ _ refl refl refl refl))
              (if_else (opcode == 0x03) _ _
                (bind-Decodes rd rs1 rs2 raw pc (decode_load funct3 raw) _
                  (λ k. plain _ _ _ _ _ refl refl refl refl))
                (if_else (opcode == 0x23) _ _
                  (bind-Decodes rd rs1 rs2 raw pc (decode_store funct3 raw) _
                    (λ k. plain _ _ _ _ _ refl refl refl refl))
                  (if_else (opcode == 0x13) _ _
                    (bind-Decodes rd rs1 rs2 raw pc (decode_op_imm funct3 funct7 raw) _
                      (λ k. plain _ _ _ _ _ refl refl refl refl))
                    (if_else (opcode == 0x33) _ _
                      (bind-Decodes rd rs1 rs2 raw pc (decode_op funct3 funct7 raw) _
                        (λ k. plain _ _ _ _ _ refl refl refl refl))
                      (if_else ((opcode == 0x73) && (funct3 == 0)) _ _
                        (bind-Decodes rd rs1 rs2 raw pc (decode_system raw) _ (λ k.
                          plain _ _ _ _ _ refl (system_operand-named k rs1)
                            (system_operand-named k rs2) refl))
                        (if_else (opcode == 0x73) _ _
                          (bind-Decodes rd rs1 rs2 raw pc (decode_csr_op funct3 raw) _
                            (λ k. csr_address-Decodes rd rs1 rs2 raw pc k))
                          (refused rd rs1 rs2 raw pc)))))))))))
  where
    if_else :
        (b : Bool) (x y : Result ℕ DecodedInstruction)
        → Decodes rd rs1 rs2 raw pc x
        → Decodes rd rs1 rs2 raw pc y
        → Decodes rd rs1 rs2 raw pc (if b then x else y)
    if_else true x y p q = p
    if_else false x y p q = q

-- Five bits as a byte.
field-low : (x : ℕ) → u8 (bit_and x 0x1f) ≡ x % 32
field-low x = omega (arith, bit_and_low 5 x)

-- A word that is accepted gives the instruction of that word and address. It names exactly the
-- registers of its format, each as its field of the word: rd from bit 7, rs1 from bit 15 and rs2 from
-- bit 20, five bits each. A CSR instruction carries the CSR whose number stands in the upper twelve
-- bits, and the others carry none.
pub decode-IsCut :
    (raw pc : ℕ) (d : DecodedInstruction)
    → decode raw pc ≡ ok d
    → IsCut (raw / 2 ^ 7 % 32) (raw / 2 ^ 15 % 32) (raw / 2 ^ 20 % 32) raw pc d
unfolding decode
decode-IsCut raw pc d e =
    let cut =
      subst
        (Decodes (u8 (bit_and (shr raw 7) 0x1f)) (u8 (bit_and (shr raw 15) 0x1f))
          (u8 (bit_and (shr raw 20) 0x1f)) raw pc)
        e
        (decode_fields-Decodes (u8 (bit_and raw 0x7f)) _ (u8 (bit_and (shr raw 12) 0x7)) _ _
          (u8 (bit_and (shr raw 25) 0x7f)) raw pc) in
    at_fields (field-low (shr raw 7)) (field-low (shr raw 15)) (field-low (shr raw 20))
      (unfold Decodes in cut)
  where
    at_fields :
        {a b c a' b' c' : ℕ}
        → a ≡ a'
        → b ≡ b'
        → c ≡ c'
        → IsCut a b c raw pc d
        → IsCut a' b' c' raw pc d
    at_fields {a} {b} {c} {a'} {b'} {c'} ea eb ec k =
        subst (λ x. IsCut a' b' x raw pc d) ec
          (subst (λ x. IsCut a' x c raw pc d) eb (subst (λ x. IsCut x b c raw pc d) ea k))

IsCsrOf-HasCsr :
    (raw : ℕ) (k : InstructionKind) (a : Option CsrAddress) → IsCsrOf raw k a → HasCsr k a
unfolding HasCsr
IsCsrOf-HasCsr raw (InstructionKind.csr _) none p = absurd p
IsCsrOf-HasCsr raw (InstructionKind.csr _) (some a) p = tt
IsCsrOf-HasCsr raw _ a p = tt

pub decode-HasCsr :
    (raw pc : ℕ) (d : DecodedInstruction) → decode raw pc ≡ ok d → HasCsr d.kind d.csr
decode-HasCsr raw pc d e = IsCsrOf-HasCsr raw d.kind d.csr (decode-IsCut raw pc d e).csr
