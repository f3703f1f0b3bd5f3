-- ===== src/Rv32i/Decode/Encode.antt =====
-- The instruction formats of RV32I, as an encoder that is independent of the decoder.
use systemscope.Base.{ℕ, ◌+◌, ◌*◌, ◌/◌, ◌%◌, ◌^◌, ◌≡◌}
use systemscope.Rv32i.Instr.{BranchOp, LoadOp, StoreOp, ImmOp, ShiftOp, RegOp, Instr}

-- The six formats. `funct7`, the registers and `funct3` are the fields' values, and an immediate
-- is a bit pattern of 32 bits.
abbrev pub r_type : ℕ → ℕ → ℕ → ℕ → ℕ → ℕ → ℕ
r_type funct7 rs2 rs1 funct3 rd opcode =
    funct7 * 2 ^ 25 + rs2 * 2 ^ 20 + rs1 * 2 ^ 15 + funct3 * 2 ^ 12 + rd * 2 ^ 7 + opcode

abbrev pub i_type : ℕ → ℕ → ℕ → ℕ → ℕ → ℕ
i_type imm rs1 funct3 rd opcode =
    imm % 2 ^ 12 * 2 ^ 20 + rs1 * 2 ^ 15 + funct3 * 2 ^ 12 + rd * 2 ^ 7 + opcode

abbrev pub s_type : ℕ → ℕ → ℕ → ℕ → ℕ → ℕ
s_type imm rs2 rs1 funct3 opcode =
    imm / 2 ^ 5 % 2 ^ 7 * 2 ^ 25
    + rs2 * 2 ^ 20
    + rs1 * 2 ^ 15
    + funct3 * 2 ^ 12
    + imm % 2 ^ 5 * 2 ^ 7
    + opcode

abbrev pub b_type : ℕ → ℕ → ℕ → ℕ → ℕ → ℕ
b_type imm rs2 rs1 funct3 opcode =
    imm / 2 ^ 12 % 2 * 2 ^ 31
    + imm / 2 ^ 5 % 2 ^ 6 * 2 ^ 25
    + rs2 * 2 ^ 20
    + rs1 * 2 ^ 15
    + funct3 * 2 ^ 12
    + imm / 2 % 2 ^ 4 * 2 ^ 8
    + imm / 2 ^ 11 % 2 * 2 ^ 7
    + opcode

abbrev pub u_type : ℕ → ℕ → ℕ → ℕ
u_type imm rd opcode = imm / 2 ^ 12 * 2 ^ 12 + rd * 2 ^ 7 + opcode

abbrev pub j_type : ℕ → ℕ → ℕ → ℕ
j_type imm rd opcode =
    imm / 2 ^ 20 % 2 * 2 ^ 31
    + imm / 2 % 2 ^ 10 * 2 ^ 21
    + imm / 2 ^ 11 % 2 * 2 ^ 20
    + imm / 2 ^ 12 % 2 ^ 8 * 2 ^ 12
    + rd * 2 ^ 7
    + opcode

abbrev pub branch_funct3 : BranchOp → ℕ
branch_funct3 BranchOp.eq = 0
branch_funct3 BranchOp.ne = 1
branch_funct3 BranchOp.lt = 4
branch_funct3 BranchOp.ge = 5
branch_funct3 BranchOp.ltu = 6
branch_funct3 BranchOp.geu = 7

abbrev pub load_funct3 : LoadOp → ℕ
load_funct3 LoadOp.b = 0
load_funct3 LoadOp.h = 1
load_funct3 LoadOp.w = 2
load_funct3 LoadOp.bu = 4
load_funct3 LoadOp.hu = 5

abbrev pub store_funct3 : StoreOp → ℕ
store_funct3 StoreOp.b = 0
store_funct3 StoreOp.h = 1
store_funct3 StoreOp.w = 2

abbrev pub imm_funct3 : ImmOp → ℕ
imm_funct3 ImmOp.addi = 0
imm_funct3 ImmOp.slti = 2
imm_funct3 ImmOp.sltiu = 3
imm_funct3 ImmOp.xori = 4
imm_funct3 ImmOp.ori = 6
imm_funct3 ImmOp.andi = 7

abbrev pub shift_funct3 : ShiftOp → ℕ
shift_funct3 ShiftOp.sll = 1
shift_funct3 ShiftOp.srl = 5
shift_funct3 ShiftOp.sra = 5

abbrev pub shift_funct7 : ShiftOp → ℕ
shift_funct7 ShiftOp.sra = 32
shift_funct7 _ = 0

abbrev pub reg_funct3 : RegOp → ℕ
reg_funct3 RegOp.add = 0
reg_funct3 RegOp.sub = 0
reg_funct3 RegOp.sll = 1
reg_funct3 RegOp.slt = 2
reg_funct3 RegOp.sltu = 3
reg_funct3 RegOp.xor = 4
reg_funct3 RegOp.srl = 5
reg_funct3 RegOp.sra = 5
reg_funct3 RegOp.or = 6
reg_funct3 RegOp.and = 7

abbrev pub reg_funct7 : RegOp → ℕ
reg_funct7 RegOp.sub = 32
reg_funct7 RegOp.sra = 32
reg_funct7 _ = 0

-- The words of an instruction. `FENCE` has every word of its opcode with `funct3` 0.
abbrev pub Encodes : Instr → ℕ → Type 0
Encodes (Instr.lui rd imm) w = w ≡ u_type imm rd.index 0x37
Encodes (Instr.auipc rd imm) w = w ≡ u_type imm rd.index 0x17
Encodes (Instr.jal rd offset) w = w ≡ j_type offset rd.index 0x6f
Encodes (Instr.jalr rd rs1 offset) w = w ≡ i_type offset rs1.index 0 rd.index 0x67
Encodes (Instr.branch op rs1 rs2 offset) w =
    w ≡ b_type offset rs2.index rs1.index (branch_funct3 op) 0x63
Encodes (Instr.load op rd rs1 offset) w = w ≡ i_type offset rs1.index (load_funct3 op) rd.index 0x03
Encodes (Instr.store op rs1 rs2 offset) w =
    w ≡ s_type offset rs2.index rs1.index (store_funct3 op) 0x23
Encodes (Instr.op_imm op rd rs1 imm) w = w ≡ i_type imm rs1.index (imm_funct3 op) rd.index 0x13
Encodes (Instr.shift_imm op rd rs1 shamt) w =
    w ≡ r_type (shift_funct7 op) shamt rs1.index (shift_funct3 op) rd.index 0x13
Encodes (Instr.op op rd rs1 rs2) w =
    w ≡ r_type (reg_funct7 op) rs2.index rs1.index (reg_funct3 op) rd.index 0x33
Encodes Instr.fence w = (w % 2 ^ 7 ≡ 0x0f) × (w / 2 ^ 12 % 2 ^ 3 ≡ 0)
Encodes Instr.ecall w = w ≡ 0x73
Encodes Instr.ebreak w = w ≡ 0x100073
