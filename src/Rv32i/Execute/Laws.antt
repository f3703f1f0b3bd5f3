-- ===== src/Rv32i/Execute/Laws.antt =====
-- The instruction families, the bounds of results, and the control transfers.
use systemscope.Base.{
  ℕ, zero, suc, ◌∙◌, ap, subst_ok, ◌+◌, ◌-◌, ◌*◌, ◌/◌, ◌%◌, ◌^◌, ◌≤◌, ◌<◌, ◌≡◌, ◌≢◌, ◌↔◌, refl,
  Bool, true, Option, none, some, Result, ok, err, arith, bit_and, ◌!=◌, if◌then◌else◌, Bool-cases,
  inl, inr, ltb,
}
use native.Mathlib.Nat.{
  div-le_self, div-lt_iff_lt-mul, pow-suc, one-le-pow, pow-le-pow_right, zero-add, suc-add,
}
use systemscope.Base.Bits.{bit_and_mask, bit_and-lt, bit_or-lt, bit_xor-lt}
use systemscope.Base.Word.{◌+%◌, from_bool, complement}
use systemscope.Rv32i.Instr.{Reg, BranchOp, ImmOp, ShiftOp, RegOp, Instr}
use systemscope.Rv32i.Execute.{
  PendingEffect, TrapCause, ExecOutcome, execute_alu, execute_control, execute_system, taken, shift,
  op_imm, op_reg, jump_to, RegWrite, writes,
}
use systemscope.Rv32i.Decode.Operands.{InRange}
use systemscope.Rv32i.Memory.{prepare_memory}

-- 1 for a result, 0 for an error.
abbrev pub count_ok {ℓ κ} : {A : Type ℓ} {E : Type κ} → Result A E → ℕ
count_ok (ok _) = 1
count_ok (err _) = 0

-- Exactly one of the four families executes an instruction, whatever its operands are.
families_partition :
    (i : Instr) (pc rs1 rs2 : ℕ)
    → count_ok (execute_alu i pc rs1 rs2)
        + count_ok (execute_control i pc rs1 rs2)
        + count_ok (execute_system i pc)
        + count_ok (prepare_memory i pc rs1 rs2)
      ≡ 1
unfolding execute_alu execute_control execute_system prepare_memory
families_partition (Instr.branch op rs1 rs2 offset) pc a b = elim (Bool-cases (taken op a b)) [
  | inl e ↦ rw e refl
  | inr e ↦ rw e refl
]
families_partition (Instr.lui _ _) pc a b = refl
families_partition _ pc a b = refl

-- The value that a bit pattern of 32 bits stands for, plus 2 ^ 32.
abbrev pub signed_above : ℕ → ℕ
signed_above a = if ltb a (2 ^ 31) then a + 2 ^ 32 else a

abbrev pub IsTaken : BranchOp → ℕ → ℕ → Type 0
IsTaken BranchOp.eq a b = a ≡ b
IsTaken BranchOp.ne a b = a ≢ b
IsTaken BranchOp.lt a b = signed_above a < signed_above b
IsTaken BranchOp.ge a b = signed_above b ≤ signed_above a
IsTaken BranchOp.ltu a b = a < b
IsTaken BranchOp.geu a b = b ≤ a

-- On words, a branch is taken exactly when its comparison holds, the signed ones on the values
-- that the words stand for.
taken_iff :
    (op : BranchOp) (a b : ℕ) → a < 2 ^ 32 → b < 2 ^ 32 → (taken op a b ≡ true) ↔ IsTaken op a b
unfolding taken
taken_iff BranchOp.eq a b h l = ground arith
taken_iff BranchOp.ne a b h l = ground arith
taken_iff BranchOp.lt a b h l = ground arith
taken_iff BranchOp.ge a b h l = ground arith
taken_iff BranchOp.ltu a b h l = ground arith
taken_iff BranchOp.geu a b h l = ground arith

-- What a control transfer may come to.
abbrev pub IsTransfer : ExecOutcome → Type 0
IsTransfer (ExecOutcome.effect e) = (e.next_pc % 4 ≡ 0) × (e.next_pc < 2 ^ 32)
IsTransfer (ExecOutcome.trap t) =
    (t.cause ≡ TrapCause.instruction_address_misaligned) × (t.tval % 4 ≢ 0)

jump_to-IsTransfer : (r : Option RegWrite) (t : ℕ) → t < 2 ^ 32 → IsTransfer (jump_to r t)
unfolding jump_to
jump_to-IsTransfer r t h = elim (Bool-cases (bit_and t 0x3 != 0)) [
  | inl e ↦ rw e (refl, ground (arith, bit_and_mask 2 t, e))
  | inr e ↦ rw e (ground (arith, bit_and_mask 2 t, e), h)
]

-- From an aligned `pc` a control transfer retires with an aligned next `pc` below 2 ^ 32, or it
-- traps with the misaligned target.
execute_control-IsTransfer :
    (i : Instr) (pc rs1 rs2 : ℕ) {o : ExecOutcome}
    → pc % 4 ≡ 0
    → execute_control i pc rs1 rs2 ≡ ok o
    → IsTransfer o
unfolding execute_control
execute_control-IsTransfer (Instr.branch op _ _ offset) pc a b h e =
    elim (Bool-cases (taken op a b)) [
      | inl t ↦
          subst_ok IsTransfer (rw (t, execute_control) at e)
            (jump_to-IsTransfer none (pc +% offset) (omega arith))
      | inr n ↦ subst_ok IsTransfer (rw (n, execute_control) at e) (omega arith, omega arith)
    ]
execute_control-IsTransfer (Instr.jal _ offset) pc a b h e =
    subst_ok IsTransfer e (jump_to-IsTransfer _ (pc +% offset) (omega arith))
execute_control-IsTransfer (Instr.jalr _ _ offset) pc a b h e = subst_ok IsTransfer e (
    jump_to-IsTransfer _ (bit_and (a +% offset) (complement 1))
      (bit_and-lt 32 (a +% offset) (complement 1) (omega arith)))
execute_control-IsTransfer _ pc a b h e = cc

pow_add : (k m : ℕ) → 2 ^ k * 2 ^ m ≡ 2 ^ (k + m)
pow_add zero m = rw zero-add (omega arith)
pow_add (suc k) m =
    rw suc-add (
      omega (arith, pow-suc 2 k, pow-suc 2 (k + m), pow_add k m, ap (λ t. t * 2 ^ m) (pow-suc 2 k)))

pub shift-lt : (op : ShiftOp) (a n : ℕ) → a < 2 ^ 32 → shift op a n < 2 ^ 32
unfolding shift
shift-lt ShiftOp.sll a n h = omega arith
shift-lt ShiftOp.srl a n h = omega (arith, div-le_self a (2 ^ bit_and n 0x1f))
shift-lt ShiftOp.sra a n h =
    let k = bit_and n 0x1f in
    let small : k < 32 = omega (arith, bit_and_mask 5 n) in
    let total : (32 - k) + k ≡ 32 = omega arith in
    let split : 2 ^ (32 - k) * 2 ^ k ≡ 2 ^ 32 = pow_add (32 - k) k ∙ ap (λ t. 2 ^ t) total in
    let top : a / 2 ^ k < 2 ^ (32 - k) =
      (div-lt_iff_lt-mul (one-le-pow k 2 (omega arith))).1 (rw split h) in
    let below : 32 - k ≤ 32 = omega arith in
    let room : 2 ^ (32 - k) ≤ 2 ^ 32 = pow-le-pow_right (omega arith) below in
    ground (arith, top, room, div-le_self a (2 ^ k))

from_bool-lt : (b : Bool) → from_bool b < 2 ^ 32
from_bool-lt b = ground arith

pub op_imm-lt : (op : ImmOp) (a b : ℕ) → a < 2 ^ 32 → b < 2 ^ 32 → op_imm op a b < 2 ^ 32
unfolding op_imm
op_imm-lt ImmOp.addi a b h l = omega arith
op_imm-lt ImmOp.slti a b h l = from_bool-lt _
op_imm-lt ImmOp.sltiu a b h l = from_bool-lt _
op_imm-lt ImmOp.xori a b h l = bit_xor-lt 32 a b h l
op_imm-lt ImmOp.ori a b h l = bit_or-lt 32 a b h l
op_imm-lt ImmOp.andi a b h l = bit_and-lt 32 a b h

pub op_reg-lt : (op : RegOp) (a b : ℕ) → a < 2 ^ 32 → b < 2 ^ 32 → op_reg op a b < 2 ^ 32
unfolding op_reg
op_reg-lt RegOp.add a b h l = omega arith
op_reg-lt RegOp.sub a b h l = omega arith
op_reg-lt RegOp.sll a b h l = shift-lt ShiftOp.sll a b h
op_reg-lt RegOp.slt a b h l = from_bool-lt _
op_reg-lt RegOp.sltu a b h l = from_bool-lt _
op_reg-lt RegOp.xor a b h l = bit_xor-lt 32 a b h l
op_reg-lt RegOp.srl a b h l = shift-lt ShiftOp.srl a b h
op_reg-lt RegOp.sra a b h l = shift-lt ShiftOp.sra a b h
op_reg-lt RegOp.or a b h l = bit_or-lt 32 a b h l
op_reg-lt RegOp.and a b h l = bit_and-lt 32 a b h

-- An effect that goes on to the next instruction and writes a word to a register.
pub record IsAluEffect (pc : ℕ) (e : PendingEffect) : Type 0 where
  pub write : RegWrite
  pub writes_it : e.reg_write ≡ some write
  pub is_word : write.value < 2 ^ 32
  pub falls_through : e.next_pc ≡ (pc + 4) % 2 ^ 32

alu : {pc : ℕ} (rd : Reg) (v : ℕ) → v < 2 ^ 32 → IsAluEffect pc (writes rd v (pc +% 4))
alu rd v h = record {
  write = record { rd = rd; value = v };
  writes_it = refl;
  is_word = h;
  falls_through = refl;
}

-- An ALU instruction with operands in range, on words, writes a word to its destination and goes
-- on to `pc + 4`.
execute_alu-IsAluEffect :
    (i : Instr) (pc rs1 rs2 : ℕ) {e : PendingEffect}
    → InRange i
    → rs1 < 2 ^ 32
    → rs2 < 2 ^ 32
    → execute_alu i pc rs1 rs2 ≡ ok e
    → IsAluEffect pc e
unfolding execute_alu
execute_alu-IsAluEffect (Instr.lui rd imm) pc a b r h l e =
    subst_ok (IsAluEffect pc) e (alu rd imm r.1)
execute_alu-IsAluEffect (Instr.auipc rd imm) pc a b r h l e =
    subst_ok (IsAluEffect pc) e (alu rd (pc +% imm) (omega arith))
execute_alu-IsAluEffect (Instr.op_imm op rd _ imm) pc a b r h l e =
    subst_ok (IsAluEffect pc) e (alu rd (op_imm op a imm) (op_imm-lt op a imm h (omega arith)))
execute_alu-IsAluEffect (Instr.shift_imm op rd _ n) pc a b r h l e =
    subst_ok (IsAluEffect pc) e (alu rd (shift op a n) (shift-lt op a n h))
execute_alu-IsAluEffect (Instr.op op rd _ _) pc a b r h l e =
    subst_ok (IsAluEffect pc) e (alu rd (op_reg op a b) (op_reg-lt op a b h l))
execute_alu-IsAluEffect _ pc a b r h l e = cc
