-- ===== src/Rv32i/Decode.antt =====
-- components/rv32i/src/decode.rs: the decoder of one instruction word.
mod Examples
pub mod Operands
pub mod Encode
pub mod Fields
pub mod Sound
pub mod Complete
use systemscope.Base.{
  ℕ, Bool, true, false, ◌&&◌, Option, none, some, Result, ok, err, bit_and, ◌==◌, if◌then◌else◌,
}
use mathlib.Core.Option
use systemscope.Base.Word.{◌>>◌}
use systemscope.Rv32i.Immediate.{imm_i, imm_s, imm_b, imm_u, imm_j}
use systemscope.Rv32i.Instr.{BranchOp, LoadOp, StoreOp, ImmOp, ShiftOp, RegOp, Instr, reg_field}

pub record Illegal : Type 0 where
  pub word : ℕ

-- The opcodes.
abbrev pub load_opcode : ℕ
load_opcode = 0b000_0011

abbrev pub misc_mem_opcode : ℕ
misc_mem_opcode = 0b000_1111

abbrev pub op_imm_opcode : ℕ
op_imm_opcode = 0b001_0011

abbrev pub auipc_opcode : ℕ
auipc_opcode = 0b001_0111

abbrev pub store_opcode : ℕ
store_opcode = 0b010_0011

abbrev pub op_opcode : ℕ
op_opcode = 0b011_0011

abbrev pub lui_opcode : ℕ
lui_opcode = 0b011_0111

abbrev pub branch_opcode : ℕ
branch_opcode = 0b110_0011

abbrev pub jalr_opcode : ℕ
jalr_opcode = 0b110_0111

abbrev pub jal_opcode : ℕ
jal_opcode = 0b110_1111

abbrev pub system_opcode : ℕ
system_opcode = 0b111_0011

abbrev pub ecall_word : ℕ
ecall_word = 0x0000_0073

abbrev pub ebreak_word : ℕ
ebreak_word = 0x0010_0073

-- The `funct7` of a base operation and of its alternate.
abbrev pub base_funct7 : ℕ
base_funct7 = 0b000_0000

abbrev pub alt_funct7 : ℕ
alt_funct7 = 0b010_0000

-- The operation of each format; `none` is `return illegal`.
pub branch_op : ℕ → Option BranchOp
branch_op funct3 =
    if funct3 == 0b000
    then some BranchOp.eq
    else if funct3 == 0b001
    then some BranchOp.ne
    else if funct3 == 0b100
    then some BranchOp.lt
    else if funct3 == 0b101
    then some BranchOp.ge
    else if funct3 == 0b110
    then some BranchOp.ltu
    else if funct3 == 0b111
    then some BranchOp.geu
    else none

pub load_op : ℕ → Option LoadOp
load_op funct3 =
    if funct3 == 0b000
    then some LoadOp.b
    else if funct3 == 0b001
    then some LoadOp.h
    else if funct3 == 0b010
    then some LoadOp.w
    else if funct3 == 0b100
    then some LoadOp.bu
    else if funct3 == 0b101
    then some LoadOp.hu
    else none

pub store_op : ℕ → Option StoreOp
store_op funct3 =
    if funct3 == 0b000
    then some StoreOp.b
    else if funct3 == 0b001
    then some StoreOp.h
    else if funct3 == 0b010
    then some StoreOp.w
    else none

-- The operations of `OP-IMM` that are no shifts.
pub imm_op : ℕ → Option ImmOp
imm_op funct3 =
    if funct3 == 0b000
    then some ImmOp.addi
    else if funct3 == 0b010
    then some ImmOp.slti
    else if funct3 == 0b011
    then some ImmOp.sltiu
    else if funct3 == 0b100
    then some ImmOp.xori
    else if funct3 == 0b110
    then some ImmOp.ori
    else if funct3 == 0b111
    then some ImmOp.andi
    else none

pub shift_op : ℕ → ℕ → Option ShiftOp
shift_op funct3 funct7 =
    if funct3 == 0b001 && funct7 == base_funct7
    then some ShiftOp.sll
    else if funct3 == 0b101 && funct7 == base_funct7
    then some ShiftOp.srl
    else if funct3 == 0b101 && funct7 == alt_funct7
    then some ShiftOp.sra
    else none

pub reg_op : ℕ → ℕ → Option RegOp
reg_op funct7 funct3 =
    if funct7 == base_funct7 && funct3 == 0b000
    then some RegOp.add
    else if funct7 == alt_funct7 && funct3 == 0b000
    then some RegOp.sub
    else if funct7 == base_funct7 && funct3 == 0b001
    then some RegOp.sll
    else if funct7 == base_funct7 && funct3 == 0b010
    then some RegOp.slt
    else if funct7 == base_funct7 && funct3 == 0b011
    then some RegOp.sltu
    else if funct7 == base_funct7 && funct3 == 0b100
    then some RegOp.xor
    else if funct7 == base_funct7 && funct3 == 0b101
    then some RegOp.srl
    else if funct7 == alt_funct7 && funct3 == 0b101
    then some RegOp.sra
    else if funct7 == base_funct7 && funct3 == 0b110
    then some RegOp.or
    else if funct7 == base_funct7 && funct3 == 0b111
    then some RegOp.and
    else none

abbrev pub legal : ℕ → Option Instr → Result Instr Illegal
legal word (some instr) = ok instr
legal word none = err (record { word = word })

-- The arms of `match word & 0x7f` that look further into the word.
pub decode_shift : ℕ → Option Instr
unfolding shift_op
decode_shift word =
    Option.map
      (λ op. Instr.shift_imm op (reg_field word 7) (reg_field word 15) (bit_and (word >> 20) 0x1f))
      (shift_op (bit_and (word >> 12) 0x7) (word >> 25))

pub decode_op_imm : ℕ → Option Instr
unfolding imm_op decode_shift
decode_op_imm word = elim (imm_op (bit_and (word >> 12) 0x7)) [
  | some op ↦ some (Instr.op_imm op (reg_field word 7) (reg_field word 15) (imm_i word))
  | none ↦ decode_shift word
]

pub decode_branch : ℕ → Option Instr
unfolding branch_op
decode_branch word =
    Option.map (λ op. Instr.branch op (reg_field word 15) (reg_field word 20) (imm_b word))
      (branch_op (bit_and (word >> 12) 0x7))

pub decode_load : ℕ → Option Instr
unfolding load_op
decode_load word =
    Option.map (λ op. Instr.load op (reg_field word 7) (reg_field word 15) (imm_i word))
      (load_op (bit_and (word >> 12) 0x7))

pub decode_store : ℕ → Option Instr
unfolding store_op
decode_store word =
    Option.map (λ op. Instr.store op (reg_field word 15) (reg_field word 20) (imm_s word))
      (store_op (bit_and (word >> 12) 0x7))

pub decode_op : ℕ → Option Instr
unfolding reg_op
decode_op word =
    Option.map (λ op. Instr.op op (reg_field word 7) (reg_field word 15) (reg_field word 20))
      (reg_op (word >> 25) (bit_and (word >> 12) 0x7))

-- `match word & 0x7f`.
pub decode_opcode : ℕ → ℕ → Option Instr
unfolding decode_op_imm decode_branch decode_load decode_store decode_op
decode_opcode word opcode =
    let rd = reg_field word 7 in
    let rs1 = reg_field word 15 in
    let funct3 = bit_and (word >> 12) 0x7 in
    if opcode == lui_opcode
    then some (Instr.lui rd (imm_u word))
    else if opcode == auipc_opcode
    then some (Instr.auipc rd (imm_u word))
    else if opcode == jal_opcode
    then some (Instr.jal rd (imm_j word))
    else if opcode == jalr_opcode && funct3 == 0
    then some (Instr.jalr rd rs1 (imm_i word))
    else if opcode == branch_opcode
    then decode_branch word
    else if opcode == load_opcode
    then decode_load word
    else if opcode == store_opcode
    then decode_store word
    else if opcode == op_imm_opcode
    then decode_op_imm word
    else if opcode == op_opcode
    then decode_op word
    else if opcode == misc_mem_opcode && funct3 == 0
    then some Instr.fence
    else if opcode == system_opcode && word == ecall_word
    then some Instr.ecall
    else if opcode == system_opcode && word == ebreak_word
    then some Instr.ebreak
    else none

unfoldable pub decode : ℕ → Result Instr Illegal
unfolding decode_opcode
decode word = legal word (decode_opcode word (bit_and word 0x7f))
