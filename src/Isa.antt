-- ===== src/Isa.antt =====
-- crates/isa: the instruction vocabulary, the CSR addresses, the traps and the decoder.
pub mod Opcode
pub mod Csr
pub mod Exception
pub mod Decode
