-- ===== src/Rv32i/Instr.antt =====
-- components/rv32i/src/instr.rs: registers and decoded instructions. An `i32` field is its bit
-- pattern.
use systemscope.Base.{ℕ, ◌%◌, ◌^◌, Option, none, some, bit_and, ltb, if◌then◌else◌}
use systemscope.Base.Word.{◌>>◌}

pub record Reg : Type 0 where
  pub index : ℕ

abbrev pub reg_zero : Reg
reg_zero = record { index = 0 }

unfoldable pub reg_new : ℕ → Option Reg
reg_new index = if ltb index 32 then some (record { index = index }) else none

-- `Reg::field`.
unfoldable pub reg_field : ℕ → ℕ → Reg
reg_field word shift = record { index = bit_and (word >> shift) 0x1f % 2 ^ 8 }

pub data BranchOp : Type 0 where
  eq ne lt ge ltu geu : BranchOp

pub data LoadOp : Type 0 where
  b h w bu hu : LoadOp

pub data StoreOp : Type 0 where
  b h w : StoreOp

pub data ImmOp : Type 0 where
  addi slti sltiu xori ori andi : ImmOp

pub data ShiftOp : Type 0 where
  sll srl sra : ShiftOp

pub data RegOp : Type 0 where
  add sub sll slt sltu xor srl sra or and : RegOp

pub data Instr : Type 0 where
  lui : (rd : Reg) (imm : ℕ) → Instr
  auipc : (rd : Reg) (imm : ℕ) → Instr
  jal : (rd : Reg) (offset : ℕ) → Instr
  jalr : (rd rs1 : Reg) (offset : ℕ) → Instr
  branch : (op : BranchOp) (rs1 rs2 : Reg) (offset : ℕ) → Instr
  load : (op : LoadOp) (rd rs1 : Reg) (offset : ℕ) → Instr
  store : (op : StoreOp) (rs1 rs2 : Reg) (offset : ℕ) → Instr
  op_imm : (op : ImmOp) (rd rs1 : Reg) (imm : ℕ) → Instr
  shift_imm : (op : ShiftOp) (rd rs1 : Reg) (shamt : ℕ) → Instr
  op : (op : RegOp) (rd rs1 rs2 : Reg) → Instr
  fence ecall ebreak : Instr
