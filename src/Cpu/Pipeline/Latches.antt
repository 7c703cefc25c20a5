-- ===== src/Cpu/Pipeline/Latches.antt =====
-- pipeline/latches.rs. A latch is a record of one field, and is that field here.
use rust_computer.Base.{ℕ, Bool, Option, none}
use rust_computer.Cpu.Exec.CsrOps.{CsrWrite}
use rust_computer.Cpu.Mmu.Types.{TranslationFence}
use rust_computer.Isa.Decode.{DecodedInstruction}

pub record IfIdPayload : Type 0 where
  pub pc : ℕ
  pub raw : ℕ
  pub predicted_pc : ℕ
  pub predicted_taken : Bool

pub record IdExPayload : Type 0 where
  pub decoded : DecodedInstruction
  pub rs1_value : ℕ
  pub rs2_value : ℕ
  pub predicted_pc : ℕ
  pub predicted_taken : Bool

pub record ExMemPayload : Type 0 where
  pub decoded : DecodedInstruction
  pub writeback_value : Option ℕ
  pub csr_write : Option CsrWrite
  pub translation_fence : Option TranslationFence
  pub memory_address : Option ℕ
  pub store_value : ℕ
  pub next_pc : ℕ

pub record MemWbPayload : Type 0 where
  pub decoded : DecodedInstruction
  pub writeback_value : Option ℕ
  pub csr_write : Option CsrWrite
  pub translation_fence : Option TranslationFence
  pub next_pc : ℕ

pub record PipelineLatches : Type 0 where
  pub if_id : Option IfIdPayload
  pub id_ex : Option IdExPayload
  pub ex_mem : Option ExMemPayload
  pub mem_wb : Option MemWbPayload

unfoldable pub default : PipelineLatches
default = record { if_id = none; id_ex = none; ex_mem = none; mem_wb = none }
