-- ===== src/Rv32i/Cpu/Isa.antt =====
-- components/rv32i/src/cpu.rs: how a fetched word executes under a profile, through the pure parts.
use systemscope.Base.{ℕ, Bool, not, ◌||◌, Option, none, some, Result, ok, err, if◌then◌else◌}
use systemscope.Base.Word.{◌+%◌}
use systemscope.Rv32i.Instr.{Reg, reg_zero, Instr}
use systemscope.Rv32i.Decode.{decode}
use systemscope.Rv32i.Execute.{TrapCause, ExecOutcome, execute_alu, execute_control, execute_system}
use systemscope.Rv32i.Memory.{MemoryPlan, MemoryPrep, prepare_memory}
use systemscope.Rv32i.Regfile.{RegisterFile, regfile_read}
use systemscope.Rv32i.Csr.{
  CsrOp, CsrSource, PrivInstr, priv_writes, is_supported, decode_privileged,
}
use systemscope.Rv32i.Privilege.{
  Privilege, SupervisorInstr, decode_supervisor, m3_is_supported, accessible,
}

pub record PendingCsr : Type 0 where
  pub csr : ℕ
  pub op : CsrOp
  pub write : Bool
  pub operand : ℕ
  pub rd : Reg
  pub next_pc : ℕ

pub data Outcome : Type 0 where
  exec : ExecOutcome → Outcome
  csr : PendingCsr → Outcome
  mret sret : Outcome

pub data Step : Type 0 where
  done : Outcome → Step
  memory : MemoryPlan → Step

pub data Isa : Type 0 where
  m1 m2 : Isa
  m3 : Privilege → Isa

-- `illegal(word)`.
abbrev pub illegal : ℕ → Outcome
illegal word =
    Outcome.exec (ExecOutcome.trap (record { cause = TrapCause.illegal_instruction; tval = word }))

abbrev pub source_value : CsrSource → RegisterFile → ℕ
source_value (CsrSource.reg rs1) regs = regfile_read regs rs1
source_value (CsrSource.imm uimm) regs = uimm

unfoldable pub csr_operation : CsrOp → Reg → CsrSource → ℕ → Bool → ℕ → RegisterFile → PendingCsr
csr_operation op rd src number write pc regs = record {
  csr = number;
  op = op;
  write = write;
  operand = source_value src regs;
  rd = rd;
  next_pc = pc +% 4;
}

unfoldable pub privileged : PrivInstr → ℕ → ℕ → RegisterFile → Outcome
unfolding csr_operation
privileged PrivInstr.mret word pc regs = Outcome.mret
privileged (PrivInstr.csr op rd src number) word pc regs =
    if not (is_supported number)
    then illegal word
    else Outcome.csr
        (csr_operation op rd src number (priv_writes (PrivInstr.csr op rd src number)) pc regs)

abbrev pub m3_mret_in : Privilege → ℕ → Outcome
m3_mret_in Privilege.machine word = Outcome.mret
m3_mret_in _ word = illegal word

-- The arms of `privileged_m3` for an instruction of `decode_privileged`.
abbrev pub m3_privileged_in : Privilege → PrivInstr → ℕ → ℕ → RegisterFile → Outcome
m3_privileged_in mode PrivInstr.mret word pc regs = m3_mret_in mode word
m3_privileged_in mode (PrivInstr.csr op rd src number) word pc regs =
    let write = priv_writes (PrivInstr.csr op rd src number) in
    if not (m3_is_supported number) || not (accessible number mode write)
    then illegal word
    else Outcome.csr (csr_operation op rd src number write pc regs)

-- The arms for an instruction of `decode_supervisor`: in user mode both are illegal.
abbrev pub supervisor_in : Privilege → SupervisorInstr → ℕ → ℕ → Outcome
supervisor_in Privilege.user _ word pc = illegal word
supervisor_in _ SupervisorInstr.sret word pc = Outcome.sret
supervisor_in _ SupervisorInstr.sfence_vma word pc =
    Outcome.exec (ExecOutcome.effect (record { reg_write = none; next_pc = pc +% 4 }))

unfoldable pub privileged_m3 : Privilege → ℕ → ℕ → RegisterFile → Option Outcome
unfolding csr_operation
privileged_m3 mode word pc regs = elim (decode_privileged word) [
  | some instr ↦ some (m3_privileged_in mode instr word pc regs)
  | none ↦ elim (decode_supervisor word) [
    | some instr ↦ some (supervisor_in mode instr word pc)
    | none ↦ none
  ]
]

abbrev pub ecall_of : Privilege → TrapCause
ecall_of Privilege.user = TrapCause.environment_call_from_u
ecall_of Privilege.supervisor = TrapCause.environment_call_from_s
ecall_of Privilege.machine = TrapCause.environment_call

-- The cause of an `ECALL` in a mode; other causes stay.
abbrev pub cause_in : Privilege → TrapCause → TrapCause
cause_in mode TrapCause.environment_call = ecall_of mode
cause_in mode cause = cause

unfoldable pub ecall_cause : Isa → ExecOutcome → ExecOutcome
ecall_cause (Isa.m3 mode) (ExecOutcome.trap t) =
    ExecOutcome.trap (record { cause = cause_in mode t.cause; tval = t.tval })
ecall_cause _ outcome = outcome

unfoldable pub sources : Instr → Reg × Reg
sources (Instr.jalr _ rs1 _) = (rs1, reg_zero)
sources (Instr.load _ _ rs1 _) = (rs1, reg_zero)
sources (Instr.op_imm _ _ rs1 _) = (rs1, reg_zero)
sources (Instr.shift_imm _ _ rs1 _) = (rs1, reg_zero)
sources (Instr.branch _ rs1 rs2 _) = (rs1, rs2)
sources (Instr.store _ rs1 rs2 _) = (rs1, rs2)
sources (Instr.op _ _ rs1 rs2) = (rs1, rs2)
sources _ = (reg_zero, reg_zero)

abbrev pub prepared : MemoryPrep → Step
prepared (MemoryPrep.request plan) = Step.memory plan
prepared (MemoryPrep.misaligned t) = Step.done (Outcome.exec (ExecOutcome.trap t))

-- `r.ok().map(f)`.
abbrev pub ok_map : {A B E : Type 0} → (A → B) → Result A E → Option B
ok_map f (ok a) = some (f a)
ok_map f (err e) = none

-- The family that the match lists an instruction with; `none` is the failed `expect`.
unfoldable pub family : Isa → Instr → ℕ → ℕ → ℕ → Option Step
unfolding ecall_cause
family isa (Instr.jal rd offset) pc a b =
    ok_map (λ o. Step.done (Outcome.exec o)) (execute_control (Instr.jal rd offset) pc a b)
family isa (Instr.jalr rd rs1 offset) pc a b =
    ok_map (λ o. Step.done (Outcome.exec o)) (execute_control (Instr.jalr rd rs1 offset) pc a b)
family isa (Instr.branch op rs1 rs2 offset) pc a b =
    ok_map (λ o. Step.done (Outcome.exec o))
      (execute_control (Instr.branch op rs1 rs2 offset) pc a b)
family isa Instr.fence pc a b =
    ok_map (λ o. Step.done (Outcome.exec (ecall_cause isa o))) (execute_system Instr.fence pc)
family isa Instr.ecall pc a b =
    ok_map (λ o. Step.done (Outcome.exec (ecall_cause isa o))) (execute_system Instr.ecall pc)
family isa Instr.ebreak pc a b =
    ok_map (λ o. Step.done (Outcome.exec (ecall_cause isa o))) (execute_system Instr.ebreak pc)
family isa (Instr.load op rd rs1 offset) pc a b =
    ok_map prepared (prepare_memory (Instr.load op rd rs1 offset) pc a b)
family isa (Instr.store op rs1 rs2 offset) pc a b =
    ok_map prepared (prepare_memory (Instr.store op rs1 rs2 offset) pc a b)
family isa instr pc a b =
    ok_map (λ e. Step.done (Outcome.exec (ExecOutcome.effect e))) (execute_alu instr pc a b)

-- `step` after the privileged instructions of the profile.
unfoldable pub step_rv32i : Isa → ℕ → ℕ → RegisterFile → Option Step
unfolding sources family
step_rv32i isa word pc regs = elim (decode word) [
  | err e ↦ some (Step.done (illegal word))
  | ok instr ↦
      let (rs1, rs2) = sources instr in
      family isa instr pc (regfile_read regs rs1) (regfile_read regs rs2)
]

-- `step`; `none` is the failed `expect`.
unfoldable pub step : Isa → ℕ → ℕ → RegisterFile → Option Step
unfolding privileged privileged_m3 step_rv32i
step Isa.m1 word pc regs = step_rv32i Isa.m1 word pc regs
step Isa.m2 word pc regs = elim (decode_privileged word) [
  | some instr ↦ some (Step.done (privileged instr word pc regs))
  | none ↦ step_rv32i Isa.m2 word pc regs
]
step (Isa.m3 mode) word pc regs = elim (privileged_m3 mode word pc regs) [
  | some outcome ↦ some (Step.done outcome)
  | none ↦ step_rv32i (Isa.m3 mode) word pc regs
]
