-- ===== src/Rv32i/Cpu/Wf/Effects.antt =====
-- What the pure parts give of words and of an aligned pc.
use systemscope.Base.{
  ℕ, zero, suc, ◌-◌, Option, none, some, List, [], ◌∷◌, All, arith, bit_and, ◌!=◌, if-cases, get_or,
  set,
}
use systemscope.Base.Bits.{bit_and_mask, bit_and-lt}
use systemscope.Base.Word.{◌+%◌, complement}
use systemscope.Rv32i.Instr.{Reg, Instr}
use systemscope.Rv32i.Decode.Operands.{InRange}
use systemscope.Rv32i.Execute.{
  RegWrite, TrapCause, ExecOutcome, execute_alu, execute_control, execute_system, taken, jump_to,
  NotControl,
}
use systemscope.Rv32i.Execute.Laws.{op_imm-lt, op_reg-lt, shift-lt}
use systemscope.Rv32i.Memory.{
  MemoryPlan, MemoryPrep, MemWidth, bytes, prepare_memory, check_aligned,
}
use systemscope.Rv32i.Regfile.{RegisterFile, regfile_read, regfile_write, read_index, write_index}
use systemscope.Rv32i.Cpu.Isa.{Isa, Outcome, Step, ok_map, prepared, family, ecall_cause}
use systemscope.Rv32i.Cpu.State.{Rv32iProfile}
use systemscope.Rv32i.Cpu.Wf.{IsWord, IsTarget, IsWrite, IsExec, IsPlan, IsStep}

-- There is a value, and it has the property.
abbrev pub Yields : {A : Type 0} → (A → Type 0) → Option A → Type 0
Yields P (some a) = P a
Yields P none = ⊥

-- A value, if there is one, has the property.
abbrev pub Every : {A : Type 0} → (A → Type 0) → Option A → Type 0
Every P (some a) = P a
Every P none = Unit

get_or-IsWord : (xs : List ℕ) (i : ℕ) → All IsWord xs → IsWord (get_or xs i 0)
get_or-IsWord [] i h = omega arith
get_or-IsWord (x ∷ xs) zero h = h.0
get_or-IsWord (x ∷ xs) (suc i) h = get_or-IsWord xs i h.1

set-IsWord : (xs : List ℕ) (i v : ℕ) → All IsWord xs → IsWord v → All IsWord (set xs i v)
set-IsWord [] i v h l = tt
set-IsWord (x ∷ xs) zero v h l = (l, h.1)
set-IsWord (x ∷ xs) (suc i) v h l = (h.0, set-IsWord xs i v h.1 l)

pub regfile_read-IsWord : (f : RegisterFile) (r : Reg) → All IsWord f.x → IsWord (regfile_read f r)
unfolding regfile_read
regfile_read-IsWord f r h = go r.index
  where
    go : (i : ℕ) → IsWord (read_index f.x i)
    go zero = omega arith
    go (suc i) = get_or-IsWord f.x i h

pub regfile_write-IsWord :
    (f : RegisterFile) (r : Reg) (v : ℕ)
    → All IsWord f.x
    → IsWord v
    → All IsWord (regfile_write f r v).x
unfolding regfile_write
regfile_write-IsWord f r v h l = go r.index
  where
    go : (i : ℕ) → All IsWord (write_index f.x i v)
    go zero = h
    go (suc i) = set-IsWord f.x i v h l

pub next-IsTarget : (pc : ℕ) → IsTarget pc → IsTarget (pc +% 4)
next-IsTarget pc h = (omega arith, omega arith)

jump_to-IsExec : (w : Option RegWrite) (t : ℕ) → IsWrite w → IsWord t → IsExec (jump_to w t)
unfolding jump_to
jump_to-IsExec w t h l =
    if-cases IsExec (bit_and t 0x3 != 0) (λ _. l)
      (λ e. (h, (ground (arith, bit_and_mask 2 t, e), l)))

check_aligned-IsStep :
    (p : Rv32iProfile) (addr : ℕ) (width : MemWidth) (cause : TrapCause) (plan : MemoryPlan)
    → IsWord addr
    → IsPlan plan
    → IsStep p (prepared (check_aligned addr width cause plan))
unfolding check_aligned
check_aligned-IsStep p addr width cause plan h l =
    if-cases (λ r. IsStep p (prepared r)) (bit_and addr (bytes width - 1) != 0)
      {x = MemoryPrep.misaligned (record { cause = cause; tval = addr })}
      {y = MemoryPrep.request plan} (λ _. h) (λ _. l)

cause_kept : (isa : Isa) (o : ExecOutcome) → IsExec o → IsExec (ecall_cause isa o)
unfolding ecall_cause
cause_kept (Isa.m3 mode) (ExecOutcome.trap t) h = h
cause_kept (Isa.m3 mode) (ExecOutcome.effect e) h = h
cause_kept Isa.m1 o h = h
cause_kept Isa.m2 o h = h

module _ (p : Rv32iProfile) (isa : Isa) (pc a b : ℕ) (t : IsTarget pc) (h : IsWord a)
    (l : IsWord b) where
  -- Every instruction belongs to the family that executes it, and what it comes to is well formed.
  pub family-Yields : (i : Instr) → InRange i → Yields (IsStep p) (family isa i pc a b)
  unfolding family execute_control execute_system execute_alu prepare_memory
  family-Yields (Instr.lui rd imm) r = (r.1, next-IsTarget pc t)
  family-Yields (Instr.auipc rd imm) r = (omega arith, next-IsTarget pc t)
  family-Yields (Instr.jal rd offset) r =
      jump_to-IsExec (some (record { rd = rd; value = pc +% 4 })) (pc +% offset) (omega arith)
        (omega arith)
  family-Yields (Instr.jalr rd rs1 offset) r =
      jump_to-IsExec (some (record { rd = rd; value = pc +% 4 }))
        (bit_and (a +% offset) (complement 1)) (omega arith)
        (bit_and-lt 32 (a +% offset) (complement 1) (omega arith))
  family-Yields (Instr.branch op rs1 rs2 offset) r =
      if-cases
        (λ o. Yields (IsStep p) (ok_map {E = NotControl} (λ x. Step.done (Outcome.exec x)) o))
        (taken op a b) (λ _. jump_to-IsExec none (pc +% offset) tt (omega arith))
        (λ _. (tt, next-IsTarget pc t))
  family-Yields (Instr.load op rd rs1 offset) r =
      check_aligned-IsStep p (a +% offset) _ _ _ (omega arith) (omega arith, next-IsTarget pc t)
  family-Yields (Instr.store op rs1 rs2 offset) r =
      check_aligned-IsStep p (a +% offset) _ _ _ (omega arith) (omega arith, next-IsTarget pc t)
  family-Yields (Instr.op_imm op rd rs1 imm) r =
      (op_imm-lt op a imm h (omega arith), next-IsTarget pc t)
  family-Yields (Instr.shift_imm op rd rs1 n) r = (shift-lt op a n h, next-IsTarget pc t)
  family-Yields (Instr.op op rd rs1 rs2) r = (op_reg-lt op a b h l, next-IsTarget pc t)
  family-Yields Instr.fence r = cause_kept isa _ (tt, next-IsTarget pc t)
  family-Yields Instr.ecall r = cause_kept isa _ (omega arith)
  family-Yields Instr.ebreak r = cause_kept isa _ t.1
