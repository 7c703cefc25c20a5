-- ===== src/Isa/Opcode.antt =====
-- crates/isa/src/opcode.rs: the classes of decoded instructions.

pub data AluOp : Type 0 where
  add sub and or xor sll slt sltu srl sra : AluOp

pub data BranchKind : Type 0 where
  beq bne blt bge bltu bgeu : BranchKind

pub data LoadKind : Type 0 where
  byte half word byte_unsigned half_unsigned : LoadKind

pub data StoreKind : Type 0 where
  byte half word : StoreKind

pub data CsrOp : Type 0 where
  read_write read_set read_clear : CsrOp
  read_write_immediate read_set_immediate read_clear_immediate : CsrOp

pub data SystemKind : Type 0 where
  ecall ebreak sfence_vma wfi mret sret : SystemKind

pub data InstructionKind : Type 0 where
  lui auipc jal jalr : InstructionKind
  branch : BranchKind → InstructionKind
  load : LoadKind → InstructionKind
  store : StoreKind → InstructionKind
  op_imm : AluOp → InstructionKind
  op : AluOp → InstructionKind
  csr : CsrOp → InstructionKind
  system : SystemKind → InstructionKind
