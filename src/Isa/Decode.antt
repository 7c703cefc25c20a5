-- ===== src/Isa/Decode.antt =====
-- crates/isa/src/decode.rs and instruction.rs. A `u32` is a number below 2 ^ 32; an `i32` is the
-- number below 2 ^ 32 with the same bit pattern, so that `imm as u32` is `imm`.
-- `DecodeError { raw }` is the raw word.
pub mod Fields
pub mod Extend
use rust_computer.Base.{
  ℕ, ◌-◌, ◌/◌, ◌^◌, bit_and, bit_or, Option, none, some, Result, ok, err, ◌>>=◌, ◌&&◌, ◌==◌,
  if◌then◌else◌,
}
use rust_computer.Bits.{shl, shr, sar, u8, u16}
use rust_computer.Isa.Csr.{CsrAddress}
use rust_computer.Isa.Csr
use rust_computer.Isa.Opcode.{
  AluOp, BranchKind, LoadKind, StoreKind, CsrOp, SystemKind, InstructionKind, sfence_vma,
}

pub record DecodedInstruction : Type 0 where
  pub raw : ℕ
  pub pc : ℕ
  pub kind : InstructionKind
  pub rd : Option ℕ
  pub rs1 : Option ℕ
  pub rs2 : Option ℕ
  pub imm : ℕ
  pub csr : Option CsrAddress

-- `DecodedInstruction::new`.
abbrev pub new :
    ℕ
    → ℕ
    → InstructionKind
    → Option ℕ
    → Option ℕ
    → Option ℕ
    → ℕ
    → Option CsrAddress
    → DecodedInstruction
new raw pc kind rd rs1 rs2 imm csr = record {
  raw = raw;
  pc = pc;
  kind = kind;
  rd = rd;
  rs1 = rs1;
  rs2 = rs2;
  imm = imm;
  csr = csr;
}

unfoldable pub sign_extend : ℕ → ℕ → ℕ
unfolding sar
sign_extend value bits = sar (shl value (32 - bits)) (32 - bits)

unfoldable pub imm_i : ℕ → ℕ
imm_i raw = sign_extend (shr raw 20) 12

unfoldable pub imm_s : ℕ → ℕ
imm_s raw = sign_extend (bit_or (bit_and (shr raw 7) 0x1f) (shl (bit_and (shr raw 25) 0x7f) 5)) 12

unfoldable pub imm_b : ℕ → ℕ
imm_b raw =
    let imm =
      bit_or
        (bit_or (bit_or (shl (bit_and (shr raw 8) 0x0f) 1) (shl (bit_and (shr raw 25) 0x3f) 5))
          (shl (bit_and (shr raw 7) 0x01) 11))
        (shl (bit_and (shr raw 31) 0x01) 12) in
    sign_extend imm 13

unfoldable pub imm_u : ℕ → ℕ
imm_u raw = bit_and raw 0xffff_f000

unfoldable pub imm_j : ℕ → ℕ
imm_j raw =
    let imm =
      bit_or
        (bit_or
          (bit_or (shl (bit_and (shr raw 21) 0x03ff) 1) (shl (bit_and (shr raw 20) 0x0001) 11))
          (shl (bit_and (shr raw 12) 0x00ff) 12))
        (shl (bit_and (shr raw 31) 0x0001) 20) in
    sign_extend imm 21

unfoldable pub decode_branch : ℕ → ℕ → Result ℕ BranchKind
decode_branch funct3 raw =
    if funct3 == 0b000
    then ok BranchKind.beq
    else if funct3 == 0b001
    then ok BranchKind.bne
    else if funct3 == 0b100
    then ok BranchKind.blt
    else if funct3 == 0b101
    then ok BranchKind.bge
    else if funct3 == 0b110
    then ok BranchKind.bltu
    else if funct3 == 0b111
    then ok BranchKind.bgeu
    else err raw

unfoldable pub decode_load : ℕ → ℕ → Result ℕ LoadKind
decode_load funct3 raw =
    if funct3 == 0b000
    then ok LoadKind.byte
    else if funct3 == 0b001
    then ok LoadKind.half
    else if funct3 == 0b010
    then ok LoadKind.word
    else if funct3 == 0b100
    then ok LoadKind.byte_unsigned
    else if funct3 == 0b101
    then ok LoadKind.half_unsigned
    else err raw

unfoldable pub decode_store : ℕ → ℕ → Result ℕ StoreKind
decode_store funct3 raw =
    if funct3 == 0b000
    then ok StoreKind.byte
    else if funct3 == 0b001
    then ok StoreKind.half
    else if funct3 == 0b010
    then ok StoreKind.word
    else err raw

unfoldable pub decode_op_imm : ℕ → ℕ → ℕ → Result ℕ AluOp
decode_op_imm funct3 funct7 raw =
    if funct3 == 0b000
    then ok AluOp.add
    else if funct3 == 0b010
    then ok AluOp.slt
    else if funct3 == 0b011
    then ok AluOp.sltu
    else if funct3 == 0b100
    then ok AluOp.xor
    else if funct3 == 0b110
    then ok AluOp.or
    else if funct3 == 0b111
    then ok AluOp.and
    else if (funct3 == 0b001) && (funct7 == 0b0000000)
    then ok AluOp.sll
    else if (funct3 == 0b101) && (funct7 == 0b0000000)
    then ok AluOp.srl
    else if (funct3 == 0b101) && (funct7 == 0b0100000)
    then ok AluOp.sra
    else err raw

unfoldable pub decode_op : ℕ → ℕ → ℕ → Result ℕ AluOp
decode_op funct3 funct7 raw =
    if (funct3 == 0b000) && (funct7 == 0b0000000)
    then ok AluOp.add
    else if (funct3 == 0b000) && (funct7 == 0b0100000)
    then ok AluOp.sub
    else if (funct3 == 0b001) && (funct7 == 0b0000000)
    then ok AluOp.sll
    else if (funct3 == 0b010) && (funct7 == 0b0000000)
    then ok AluOp.slt
    else if (funct3 == 0b011) && (funct7 == 0b0000000)
    then ok AluOp.sltu
    else if (funct3 == 0b100) && (funct7 == 0b0000000)
    then ok AluOp.xor
    else if (funct3 == 0b101) && (funct7 == 0b0000000)
    then ok AluOp.srl
    else if (funct3 == 0b101) && (funct7 == 0b0100000)
    then ok AluOp.sra
    else if (funct3 == 0b110) && (funct7 == 0b0000000)
    then ok AluOp.or
    else if (funct3 == 0b111) && (funct7 == 0b0000000)
    then ok AluOp.and
    else err raw

unfoldable pub decode_system : ℕ → Result ℕ SystemKind
decode_system raw =
    if raw == 0x0000_0073
    then ok SystemKind.ecall
    else if raw == 0x0010_0073
    then ok SystemKind.ebreak
    else if raw == 0x1050_0073
    then ok SystemKind.wfi
    else if raw == 0x1020_0073
    then ok SystemKind.sret
    else if raw == 0x3020_0073
    then ok SystemKind.mret
    else if bit_and raw 0xfe00_7fff == 0x1200_0073
    then ok SystemKind.sfence_vma
    else err raw

unfoldable pub decode_csr_op : ℕ → ℕ → Result ℕ CsrOp
decode_csr_op funct3 raw =
    if funct3 == 0b001
    then ok CsrOp.read_write
    else if funct3 == 0b010
    then ok CsrOp.read_set
    else if funct3 == 0b011
    then ok CsrOp.read_clear
    else if funct3 == 0b101
    then ok CsrOp.read_write_immediate
    else if funct3 == 0b110
    then ok CsrOp.read_set_immediate
    else if funct3 == 0b111
    then ok CsrOp.read_clear_immediate
    else err raw

-- `map_err` puts the raw word in the place of the CSR error.
abbrev pub map_err {ℓ} : {E F A : Type ℓ} → (E → F) → Result E A → Result F A
map_err f (ok a) = ok a
map_err f (err e) = err (f e)

unfoldable pub decode_csr_address : ℕ → Result ℕ CsrAddress
decode_csr_address raw = map_err (λ _. raw) (Csr.try_from (u16 (bit_and (shr raw 20) 0x0fff)))

-- `let (system_rs1, system_rs2) = match kind { .. }`.
unfoldable pub system_operand : SystemKind → ℕ → Option ℕ
system_operand sfence_vma r = some r
system_operand _ r = none

-- The `match opcode { .. }` of `decode`, over the fields cut out of the word.
unfoldable pub decode_fields : ℕ → ℕ → ℕ → ℕ → ℕ → ℕ → ℕ → ℕ → Result ℕ DecodedInstruction
decode_fields opcode rd funct3 rs1 rs2 funct7 raw pc =
    if opcode == 0x37
    then ok (new raw pc InstructionKind.lui (some rd) none none (imm_u raw) none)
    else if opcode == 0x17
    then ok (new raw pc InstructionKind.auipc (some rd) none none (imm_u raw) none)
    else if opcode == 0x6f
    then ok (new raw pc InstructionKind.jal (some rd) none none (imm_j raw) none)
    else if (opcode == 0x67) && (funct3 == 0)
    then ok (new raw pc InstructionKind.jalr (some rd) (some rs1) none (imm_i raw) none)
    else if opcode == 0x63
    then (do
      kind ← decode_branch funct3 raw
      ok (new raw pc (InstructionKind.branch kind) none (some rs1) (some rs2) (imm_b raw) none))
    else if opcode == 0x03
    then (do
      kind ← decode_load funct3 raw
      ok (new raw pc (InstructionKind.load kind) (some rd) (some rs1) none (imm_i raw) none))
    else if opcode == 0x23
    then (do
      kind ← decode_store funct3 raw
      ok (new raw pc (InstructionKind.store kind) none (some rs1) (some rs2) (imm_s raw) none))
    else if opcode == 0x13
    then (do
      kind ← decode_op_imm funct3 funct7 raw
      ok (new raw pc (InstructionKind.op_imm kind) (some rd) (some rs1) none (imm_i raw) none))
    else if opcode == 0x33
    then (do
      kind ← decode_op funct3 funct7 raw
      ok (new raw pc (InstructionKind.op kind) (some rd) (some rs1) (some rs2) 0 none))
    else if (opcode == 0x73) && (funct3 == 0)
    then (do
      kind ← decode_system raw
      ok (
          new raw pc (InstructionKind.system kind) none (system_operand kind rs1)
            (system_operand kind rs2) 0 none))
    else if opcode == 0x73
    then (do
      kind ← decode_csr_op funct3 raw
      address ← decode_csr_address raw
      ok (new raw pc (InstructionKind.csr kind) (some rd) (some rs1) none 0 (some address)))
    else err raw

unfoldable pub decode : ℕ → ℕ → Result ℕ DecodedInstruction
unfolding decode_fields
decode raw pc =
    decode_fields (u8 (bit_and raw 0x7f)) (u8 (bit_and (shr raw 7) 0x1f))
      (u8 (bit_and (shr raw 12) 0x7)) (u8 (bit_and (shr raw 15) 0x1f))
      (u8 (bit_and (shr raw 20) 0x1f)) (u8 (bit_and (shr raw 25) 0x7f)) raw pc
