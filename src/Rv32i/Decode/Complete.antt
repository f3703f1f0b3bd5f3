-- ===== src/Rv32i/Decode/Complete.antt =====
-- Every encoding of an instruction in range is decoded, to that instruction.
use systemscope.Base.{ℕ, ◌/◌, ◌%◌, ◌^◌, ◌<◌, ◌≡◌, refl, ◌∙◌, ok, arith, bit_and}
use systemscope.Base.Word.{◌>>◌}
use systemscope.Base.Bits.{bit_and_mask}
use systemscope.Rv32i.Immediate.{imm_i, imm_s, imm_b, imm_u, imm_j}
use systemscope.Rv32i.Immediate.Layout.{
  imm_i-fields, imm_s-fields, imm_b-fields, imm_u-fields, imm_j-fields,
}
use systemscope.Rv32i.Instr.{
  Reg, BranchOp, LoadOp, StoreOp, ImmOp, ShiftOp, RegOp, Instr, reg_field,
}
use systemscope.Rv32i.Decode.{decode, decode_op_imm}
use systemscope.Rv32i.Decode.Encode.{
  Encodes, branch_funct3, load_funct3, store_funct3, imm_funct3, shift_funct3, shift_funct7,
  reg_funct3, reg_funct7,
}
use systemscope.Rv32i.Decode.Operands.{InRange}
use systemscope.Rv32i.Decode.Fields.{reg_field-index}

module _ (w : ℕ) where
  abbrev opcode : ℕ
  opcode = bit_and w 0x7f

  abbrev f3 : ℕ
  f3 = bit_and (w >> 12) 0x7

  branch_lem :
      (op : BranchOp)
      → opcode ≡ 0x63
      → f3 ≡ branch_funct3 op
      → decode w ≡ ok (Instr.branch op (reg_field w 15) (reg_field w 20) (imm_b w))
  unfolding decode
  branch_lem BranchOp.eq e f = rw (e, f)
  branch_lem _ e f = rw (e, f)

  load_lem :
      (op : LoadOp)
      → opcode ≡ 0x03
      → f3 ≡ load_funct3 op
      → decode w ≡ ok (Instr.load op (reg_field w 7) (reg_field w 15) (imm_i w))
  unfolding decode
  load_lem LoadOp.b e f = rw (e, f)
  load_lem _ e f = rw (e, f)

  store_lem :
      (op : StoreOp)
      → opcode ≡ 0x23
      → f3 ≡ store_funct3 op
      → decode w ≡ ok (Instr.store op (reg_field w 15) (reg_field w 20) (imm_s w))
  unfolding decode
  store_lem StoreOp.b e f = rw (e, f)
  store_lem _ e f = rw (e, f)

  op_imm_lem :
      (op : ImmOp)
      → opcode ≡ 0x13
      → f3 ≡ imm_funct3 op
      → decode w ≡ ok (Instr.op_imm op (reg_field w 7) (reg_field w 15) (imm_i w))
  unfolding decode
  op_imm_lem ImmOp.addi e f = rw (e, f, decode_op_imm)
  op_imm_lem _ e f = rw (e, f, decode_op_imm)

  shift_lem :
      (op : ShiftOp)
      → opcode ≡ 0x13
      → f3 ≡ shift_funct3 op
      → w >> 25 ≡ shift_funct7 op
      → decode w ≡ ok (Instr.shift_imm op (reg_field w 7) (reg_field w 15) (bit_and (w >> 20) 0x1f))
  unfolding decode
  shift_lem ShiftOp.sll e f g = rw (e, f, g, decode_op_imm) (rw f refl)
  shift_lem _ e f g = rw (e, f, g, decode_op_imm) (rw f refl)

  op_lem :
      (op : RegOp)
      → opcode ≡ 0x33
      → f3 ≡ reg_funct3 op
      → w >> 25 ≡ reg_funct7 op
      → decode w ≡ ok (Instr.op op (reg_field w 7) (reg_field w 15) (reg_field w 20))
  unfolding decode
  op_lem RegOp.add e f g = rw (e, f, g)
  op_lem _ e f g = rw (e, f, g)

  upper_lem :
      ((opcode ≡ 0x37) → decode w ≡ ok (Instr.lui (reg_field w 7) (imm_u w)))
      × ((opcode ≡ 0x17) → decode w ≡ ok (Instr.auipc (reg_field w 7) (imm_u w)))
      × ((opcode ≡ 0x6f) → decode w ≡ ok (Instr.jal (reg_field w 7) (imm_j w)))
  unfolding decode
  upper_lem = (λ e. rw e, λ e. rw e, λ e. rw e)

  jalr_lem :
      opcode ≡ 0x67 → f3 ≡ 0 → decode w ≡ ok (Instr.jalr (reg_field w 7) (reg_field w 15) (imm_i w))
  unfolding decode
  jalr_lem e f = rw (e, f)

  fence_lem : opcode ≡ 0x0f → f3 ≡ 0 → decode w ≡ ok Instr.fence
  unfolding decode
  fence_lem e f = rw (e, f)

  reg_eq : (k : ℕ) (r : Reg) → w / 2 ^ k % 32 ≡ r.index → reg_field w k ≡ r
  reg_eq k r e = λ i. record { index = (reg_field-index w k ∙ e) i }

  opcode_eq : (k : ℕ) → w % 128 ≡ k → opcode ≡ k
  opcode_eq k e = bit_and_mask 7 w ∙ e

  f3_eq : (k : ℕ) → w / 2 ^ 12 % 8 ≡ k → f3 ≡ k
  f3_eq k e = bit_and_mask 3 (w / 2 ^ 12) ∙ e

branch_funct3-lt : (op : BranchOp) → branch_funct3 op < 8
branch_funct3-lt op = ground arith

load_funct3-lt : (op : LoadOp) → load_funct3 op < 8
load_funct3-lt op = ground arith

store_funct3-lt : (op : StoreOp) → store_funct3 op < 8
store_funct3-lt op = ground arith

imm_funct3-lt : (op : ImmOp) → imm_funct3 op < 8
imm_funct3-lt op = ground arith

shift_functs-lt : (op : ShiftOp) → (shift_funct3 op < 8) × (shift_funct7 op < 128)
shift_functs-lt op = ground arith

reg_functs-lt : (op : RegOp) → (reg_funct3 op < 8) × (reg_funct7 op < 128)
reg_functs-lt op = ground arith

-- A word below 2 ^ 32 that encodes an instruction with operands in range decodes to that
-- instruction.
pub decode_complete : (w : ℕ) (i : Instr) → w < 2 ^ 32 → InRange i → Encodes i w → decode w ≡ ok i
decode_complete w (Instr.lui rd imm) h r e =
    let d = reg_eq w 7 rd (omega arith) in
    let m : imm_u w ≡ imm = omega (arith, imm_u-fields w h) in
    (upper_lem w).0 (opcode_eq w 0x37 (omega arith)) ∙ (λ i. ok (Instr.lui (d i) (m i)))
decode_complete w (Instr.auipc rd imm) h r e =
    let d = reg_eq w 7 rd (omega arith) in
    let m : imm_u w ≡ imm = omega (arith, imm_u-fields w h) in
    (upper_lem w).1 (opcode_eq w 0x17 (omega arith)) ∙ (λ i. ok (Instr.auipc (d i) (m i)))
decode_complete w (Instr.jal rd offset) h r e =
    let d = reg_eq w 7 rd (omega arith) in
    let m : imm_j w ≡ offset = omega (arith, imm_j-fields w h) in
    (upper_lem w).2 (opcode_eq w 0x6f (omega arith)) ∙ (λ i. ok (Instr.jal (d i) (m i)))
decode_complete w (Instr.jalr rd rs1 offset) h r e =
    let d = reg_eq w 7 rd (omega arith) in
    let s = reg_eq w 15 rs1 (omega arith) in
    let m : imm_i w ≡ offset = omega (arith, imm_i-fields w h) in
    jalr_lem w (opcode_eq w 0x67 (omega arith)) (f3_eq w 0 (omega arith))
    ∙ (λ i. ok (Instr.jalr (d i) (s i) (m i)))
decode_complete w (Instr.branch op rs1 rs2 offset) h r e =
    let s = reg_eq w 15 rs1 (omega (arith, branch_funct3-lt op)) in
    let t = reg_eq w 20 rs2 (omega (arith, branch_funct3-lt op)) in
    let m : imm_b w ≡ offset = omega (arith, imm_b-fields w h, branch_funct3-lt op) in
    branch_lem w op (opcode_eq w 0x63 (omega arith))
      (f3_eq w (branch_funct3 op) (omega (arith, branch_funct3-lt op)))
    ∙ (λ i. ok (Instr.branch op (s i) (t i) (m i)))
decode_complete w (Instr.load op rd rs1 offset) h r e =
    let d = reg_eq w 7 rd (omega arith) in
    let s = reg_eq w 15 rs1 (omega (arith, load_funct3-lt op)) in
    let m : imm_i w ≡ offset = omega (arith, imm_i-fields w h, load_funct3-lt op) in
    load_lem w op (opcode_eq w 0x03 (omega arith))
      (f3_eq w (load_funct3 op) (omega (arith, load_funct3-lt op)))
    ∙ (λ i. ok (Instr.load op (d i) (s i) (m i)))
decode_complete w (Instr.store op rs1 rs2 offset) h r e =
    let s = reg_eq w 15 rs1 (omega (arith, store_funct3-lt op)) in
    let t = reg_eq w 20 rs2 (omega (arith, store_funct3-lt op)) in
    let m : imm_s w ≡ offset = omega (arith, imm_s-fields w h, store_funct3-lt op) in
    store_lem w op (opcode_eq w 0x23 (omega arith))
      (f3_eq w (store_funct3 op) (omega (arith, store_funct3-lt op)))
    ∙ (λ i. ok (Instr.store op (s i) (t i) (m i)))
decode_complete w (Instr.op_imm op rd rs1 imm) h r e =
    let d = reg_eq w 7 rd (omega arith) in
    let s = reg_eq w 15 rs1 (omega (arith, imm_funct3-lt op)) in
    let m : imm_i w ≡ imm = omega (arith, imm_i-fields w h, imm_funct3-lt op) in
    op_imm_lem w op (opcode_eq w 0x13 (omega arith))
      (f3_eq w (imm_funct3 op) (omega (arith, imm_funct3-lt op)))
    ∙ (λ i. ok (Instr.op_imm op (d i) (s i) (m i)))
decode_complete w (Instr.shift_imm op rd rs1 shamt) h r e =
    let l = shift_functs-lt op in
    let d = reg_eq w 7 rd (omega arith) in
    let s = reg_eq w 15 rs1 (omega (arith, l)) in
    let m : bit_and (w >> 20) 0x1f ≡ shamt = omega (arith, bit_and_mask 5 (w / 2 ^ 20), l) in
    shift_lem w op (opcode_eq w 0x13 (omega arith)) (f3_eq w (shift_funct3 op) (omega (arith, l)))
      (omega (arith, l))
    ∙ (λ i. ok (Instr.shift_imm op (d i) (s i) (m i)))
decode_complete w (Instr.op op rd rs1 rs2) h r e =
    let l = reg_functs-lt op in
    let d = reg_eq w 7 rd (omega arith) in
    let s = reg_eq w 15 rs1 (omega (arith, l)) in
    let t = reg_eq w 20 rs2 (omega (arith, l)) in
    op_lem w op (opcode_eq w 0x33 (omega arith)) (f3_eq w (reg_funct3 op) (omega (arith, l)))
      (omega (arith, l))
    ∙ (λ i. ok (Instr.op op (d i) (s i) (t i)))
decode_complete w Instr.fence h r e = fence_lem w (opcode_eq w 0x0f e.0) (f3_eq w 0 e.1)
decode_complete w Instr.ecall h r e = rw e (unfold decode in refl)
decode_complete w Instr.ebreak h r e = rw e (unfold decode in refl)
