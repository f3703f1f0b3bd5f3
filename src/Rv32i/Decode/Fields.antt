-- ===== src/Rv32i/Decode/Fields.antt =====
-- The fields that the decoder reads, as arithmetic, and the words as sums of their fields.
use systemscope.Base.{ℕ, ◌/◌, ◌%◌, ◌^◌, ◌<◌, ◌≡◌, some, arith}
use systemscope.Base.Bits.{bit_and_mask}
use systemscope.Rv32i.Immediate.{imm_i, imm_s, imm_b, imm_u, imm_j}
use systemscope.Rv32i.Immediate.Layout.{
  imm_i-fields, imm_s-fields, imm_b-fields, imm_u-fields, imm_j-fields,
}
use systemscope.Rv32i.Instr.{reg_field, BranchOp, LoadOp, StoreOp, ImmOp, ShiftOp, RegOp}
use systemscope.Rv32i.Decode.{branch_op, load_op, store_op, imm_op, shift_op, reg_op}
use systemscope.Rv32i.Decode.Encode.{
  i_type, s_type, b_type, u_type, j_type, branch_funct3, load_funct3, store_funct3, imm_funct3,
  shift_funct3, shift_funct7, reg_funct3, reg_funct7,
}
use systemscope.Rv32i.Decode.Operands.{IsSigned}

pub reg_field-index : (w k : ℕ) → (reg_field w k).index ≡ w / 2 ^ k % 32
unfolding reg_field
reg_field-index w k = omega (arith, bit_and_mask 5 (w / 2 ^ k))

-- The `funct3` and `funct7` of an operation are those that select it.
pub branch_op-funct3 : (f : ℕ) {op : BranchOp} → branch_op f ≡ some op → branch_funct3 op ≡ f
unfolding branch_op
branch_op-funct3 f h = ground arith

pub load_op-funct3 : (f : ℕ) {op : LoadOp} → load_op f ≡ some op → load_funct3 op ≡ f
unfolding load_op
load_op-funct3 f h = ground arith

pub store_op-funct3 : (f : ℕ) {op : StoreOp} → store_op f ≡ some op → store_funct3 op ≡ f
unfolding store_op
store_op-funct3 f h = ground arith

pub imm_op-funct3 : (f : ℕ) {op : ImmOp} → imm_op f ≡ some op → imm_funct3 op ≡ f
unfolding imm_op
imm_op-funct3 f h = ground arith

pub shift_op-functs :
    (f g : ℕ) {op : ShiftOp}
    → shift_op f g ≡ some op
    → (shift_funct3 op ≡ f) × (shift_funct7 op ≡ g)
unfolding shift_op
shift_op-functs f g h = ground arith

pub reg_op-functs :
    (g f : ℕ) {op : RegOp} → reg_op g f ≡ some op → (reg_funct3 op ≡ f) × (reg_funct7 op ≡ g)
unfolding reg_op
reg_op-functs g f h = ground arith

-- Each format, read back by its immediate, gives the word.
module _ (w : ℕ) (h : w < 2 ^ 32) where
  pub i_type_of : w ≡ i_type (imm_i w) (w / 2 ^ 15 % 32) (w / 2 ^ 12 % 8) (w / 2 ^ 7 % 32) (w % 128)
  i_type_of = omega (arith, imm_i-fields w h)

  pub s_type_of :
      w ≡ s_type (imm_s w) (w / 2 ^ 20 % 32) (w / 2 ^ 15 % 32) (w / 2 ^ 12 % 8) (w % 128)
  s_type_of = omega (arith, imm_s-fields w h)

  pub b_type_of :
      w ≡ b_type (imm_b w) (w / 2 ^ 20 % 32) (w / 2 ^ 15 % 32) (w / 2 ^ 12 % 8) (w % 128)
  b_type_of = omega (arith, imm_b-fields w h)

  pub u_type_of : w ≡ u_type (imm_u w) (w / 2 ^ 7 % 32) (w % 128)
  u_type_of = omega (arith, imm_u-fields w h)

  pub j_type_of : w ≡ j_type (imm_j w) (w / 2 ^ 7 % 32) (w % 128)
  j_type_of = omega (arith, imm_j-fields w h)

  pub imm_i-IsSigned : IsSigned (2 ^ 11) (imm_i w)
  imm_i-IsSigned = omega (arith, imm_i-fields w h)

  pub imm_s-IsSigned : IsSigned (2 ^ 11) (imm_s w)
  imm_s-IsSigned = omega (arith, imm_s-fields w h)

  pub imm_b-IsSigned : IsSigned (2 ^ 12) (imm_b w)
  imm_b-IsSigned = omega (arith, imm_b-fields w h)

  pub imm_j-IsSigned : IsSigned (2 ^ 20) (imm_j w)
  imm_j-IsSigned = omega (arith, imm_j-fields w h)
