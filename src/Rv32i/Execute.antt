-- ===== src/Rv32i/Execute.antt =====
-- components/rv32i/src/execute.rs: what an instruction would do if it retired, or its trap.
pub mod Laws
use systemscope.Base.{
  ℕ, ◌%◌, ◌^◌, Bool, true, false, not, Option, none, some, Result, ok, err, bit_and, bit_or,
  bit_xor, ◌==◌, ◌!=◌, ltb, leb, if◌then◌else◌,
}
use systemscope.Base.Word.{◌+%◌, ◌-%◌, ◌<<◌, ◌>>◌, ◌>>ₐ◌, lts, complement, from_bool}
use systemscope.Rv32i.Instr.{Reg, BranchOp, ImmOp, ShiftOp, RegOp, Instr}

pub record RegWrite : Type 0 where
  pub rd : Reg
  pub value : ℕ

pub record PendingEffect : Type 0 where
  pub reg_write : Option RegWrite
  pub next_pc : ℕ

pub data TrapCause : Type 0 where
  instruction_address_misaligned load_address_misaligned load_access_fault : TrapCause
  store_address_misaligned store_access_fault instruction_access_fault : TrapCause
  illegal_instruction breakpoint environment_call : TrapCause
  environment_call_from_u environment_call_from_s : TrapCause
  instruction_page_fault load_page_fault store_page_fault : TrapCause

pub record PendingTrap : Type 0 where
  pub cause : TrapCause
  pub tval : ℕ

-- `TrapCause::code`.
unfoldable pub code : TrapCause → ℕ
code TrapCause.instruction_address_misaligned = 0
code TrapCause.instruction_access_fault = 1
code TrapCause.illegal_instruction = 2
code TrapCause.breakpoint = 3
code TrapCause.load_address_misaligned = 4
code TrapCause.load_access_fault = 5
code TrapCause.store_address_misaligned = 6
code TrapCause.store_access_fault = 7
code TrapCause.environment_call_from_u = 8
code TrapCause.environment_call_from_s = 9
code TrapCause.environment_call = 11
code TrapCause.instruction_page_fault = 12
code TrapCause.load_page_fault = 13
code TrapCause.store_page_fault = 15

pub data ExecOutcome : Type 0 where
  effect : PendingEffect → ExecOutcome
  trap : PendingTrap → ExecOutcome

-- The errors of the families: the instruction is not one of theirs.
pub data NotAlu : Type 0 where
  not_alu : NotAlu

pub data NotControl : Type 0 where
  not_control : NotControl

pub data NotSystem : Type 0 where
  not_system : NotSystem

pub taken : BranchOp → ℕ → ℕ → Bool
taken BranchOp.eq a b = a == b
taken BranchOp.ne a b = a != b
taken BranchOp.lt a b = lts a b
taken BranchOp.ge a b = not (lts a b)
taken BranchOp.ltu a b = ltb a b
taken BranchOp.geu a b = leb b a

-- Shifts `value` by the low 5 bits of `amount`.
pub shift : ShiftOp → ℕ → ℕ → ℕ
shift ShiftOp.sll value amount = value << bit_and amount 0x1f
shift ShiftOp.srl value amount = value >> bit_and amount 0x1f
shift ShiftOp.sra value amount = value >>ₐ bit_and amount 0x1f

pub op_imm : ImmOp → ℕ → ℕ → ℕ
op_imm ImmOp.addi a b = a +% b
op_imm ImmOp.slti a b = from_bool (lts a b)
op_imm ImmOp.sltiu a b = from_bool (ltb a b)
op_imm ImmOp.xori a b = bit_xor a b
op_imm ImmOp.ori a b = bit_or a b
op_imm ImmOp.andi a b = bit_and a b

pub op_reg : RegOp → ℕ → ℕ → ℕ
unfolding shift
op_reg RegOp.add a b = a +% b
op_reg RegOp.sub a b = a -% b
op_reg RegOp.sll a b = shift ShiftOp.sll a b
op_reg RegOp.slt a b = from_bool (lts a b)
op_reg RegOp.sltu a b = from_bool (ltb a b)
op_reg RegOp.xor a b = bit_xor a b
op_reg RegOp.srl a b = shift ShiftOp.srl a b
op_reg RegOp.sra a b = shift ShiftOp.sra a b
op_reg RegOp.or a b = bit_or a b
op_reg RegOp.and a b = bit_and a b

abbrev pub writes : Reg → ℕ → ℕ → PendingEffect
writes rd value next_pc = record {
  reg_write = some (record { rd = rd; value = value });
  next_pc = next_pc;
}

unfoldable pub execute_alu : Instr → ℕ → ℕ → ℕ → Result PendingEffect NotAlu
unfolding op_imm op_reg shift
execute_alu (Instr.lui rd imm) pc rs1 rs2 = ok (writes rd imm (pc +% 4))
execute_alu (Instr.auipc rd imm) pc rs1 rs2 = ok (writes rd (pc +% imm) (pc +% 4))
execute_alu (Instr.op_imm op rd _ imm) pc rs1 rs2 = ok (writes rd (op_imm op rs1 imm) (pc +% 4))
execute_alu (Instr.shift_imm op rd _ shamt) pc rs1 rs2 =
    ok (writes rd (shift op rs1 shamt) (pc +% 4))
execute_alu (Instr.op op rd _ _) pc rs1 rs2 = ok (writes rd (op_reg op rs1 rs2) (pc +% 4))
execute_alu _ pc rs1 rs2 = err not_alu

-- The common end of the control transfers: a misaligned target traps.
unfoldable pub jump_to : Option RegWrite → ℕ → ExecOutcome
jump_to reg_write target =
    if bit_and target 0x3 != 0
    then ExecOutcome.trap
        (record { cause = TrapCause.instruction_address_misaligned; tval = target })
    else ExecOutcome.effect (record { reg_write = reg_write; next_pc = target })

unfoldable pub execute_control : Instr → ℕ → ℕ → ℕ → Result ExecOutcome NotControl
unfolding taken jump_to
execute_control (Instr.branch op _ _ offset) pc rs1 rs2 =
    if taken op rs1 rs2
    then ok (jump_to none (pc +% offset))
    else ok (ExecOutcome.effect (record { reg_write = none; next_pc = pc +% 4 }))
execute_control (Instr.jal rd offset) pc rs1 rs2 =
    ok (jump_to (some (record { rd = rd; value = pc +% 4 })) (pc +% offset))
execute_control (Instr.jalr rd _ offset) pc rs1 rs2 =
    ok (
      jump_to (some (record { rd = rd; value = pc +% 4 })) (bit_and (rs1 +% offset) (complement 1)))
execute_control _ pc rs1 rs2 = err not_control

unfoldable pub execute_system : Instr → ℕ → Result ExecOutcome NotSystem
execute_system Instr.fence pc =
    ok (ExecOutcome.effect (record { reg_write = none; next_pc = pc +% 4 }))
execute_system Instr.ecall pc =
    ok (ExecOutcome.trap (record { cause = TrapCause.environment_call; tval = 0 }))
execute_system Instr.ebreak pc =
    ok (ExecOutcome.trap (record { cause = TrapCause.breakpoint; tval = pc }))
execute_system _ pc = err not_system
