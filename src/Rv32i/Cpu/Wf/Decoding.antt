-- ===== src/Rv32i/Cpu/Wf/Decoding.antt =====
-- The execution of a fetched word always succeeds, and what it gives is well formed.
use systemscope.Base.{
  ℕ, ◌≡◌, Bool, true, false, not, ◌||◌, All, arith, if-cases, Option-cases, Result-cases, inl, inr,
  subst,
}
use systemscope.Rv32i.Instr.{Reg}
use systemscope.Rv32i.Decode.{decode}
use systemscope.Rv32i.Decode.Sound.{decode_sound}
use systemscope.Rv32i.Regfile.{RegisterFile, regfile_read}
use systemscope.Rv32i.Csr.{
  CsrOp, CsrSource, PrivInstr, priv_writes, is_supported, decode_privileged,
}
use systemscope.Rv32i.Privilege.{
  Privilege, M3State, SupervisorInstr, decode_supervisor, m3_is_supported, accessible,
}
use systemscope.Rv32i.Cpu.Isa.{
  Isa, Outcome, source_value, csr_operation, privileged, m3_mret_in, m3_privileged_in,
  supervisor_in, privileged_m3, sources, step_rv32i, step,
}
use systemscope.Rv32i.Cpu.State.{Rv32iProfile, isa_of}
use systemscope.Rv32i.Cpu.Wf.{IsWord, IsTarget, IsOutcome, IsStep, supports}
use systemscope.Rv32i.Cpu.Wf.Effects.{
  Yields, Every, regfile_read-IsWord, next-IsTarget, family-Yields,
}

-- The immediate of a CSR instruction is a word.
abbrev IsSource : CsrSource → Type 0
IsSource (CsrSource.reg rs1) = Unit
IsSource (CsrSource.imm uimm) = IsWord uimm

abbrev IsPriv : PrivInstr → Type 0
IsPriv PrivInstr.mret = Unit
IsPriv (PrivInstr.csr op rd src number) = IsSource src

not-false : {b : Bool} → not b ≡ false → b ≡ true
not-false e = ground arith

or_false : (a b : Bool) → (a || b) ≡ false → a ≡ false
or_false a b e = ground arith

decode_privileged-IsPriv : (w : ℕ) → Every IsPriv (decode_privileged w)
unfolding decode_privileged
decode_privileged-IsPriv w = ground arith

module _ (p : Rv32iProfile) (w pc : ℕ) (regs : RegisterFile) where
  module _ (h : IsWord w) (t : IsTarget pc) (r : All IsWord regs.x) where
    step_rv32i-Yields : (isa : Isa) → Yields (IsStep p) (step_rv32i isa w pc regs)
    unfolding step_rv32i
    step_rv32i-Yields isa = elim (Result-cases (decode w)) [
      | inl (i, e) ↦
          rw (step_rv32i, e)
            (family-Yields p isa pc (regfile_read regs (sources i).0)
              (regfile_read regs (sources i).1) t (regfile_read-IsWord regs (sources i).0 r)
              (regfile_read-IsWord regs (sources i).1 r) i (decode_sound w h e).in_range)
      | inr (x, e) ↦ rw (step_rv32i, e) h
    ]

    source-IsWord : (src : CsrSource) → IsSource src → IsWord (source_value src regs)
    source-IsWord (CsrSource.reg rs1) k = regfile_read-IsWord regs rs1 r
    source-IsWord (CsrSource.imm uimm) k = k

    csr-IsOutcome :
        (op : CsrOp) (rd : Reg) (src : CsrSource) (n : ℕ) (write : Bool)
        → IsSource src
        → supports p n ≡ true
        → IsOutcome p (Outcome.csr (csr_operation op rd src n write pc regs))
    unfolding csr_operation
    csr-IsOutcome op rd src n write k s = (source-IsWord src k, next-IsTarget pc t, s)

    supervisor-IsOutcome :
        (mode : Privilege) (i : SupervisorInstr) → IsOutcome p (supervisor_in mode i w pc)
    supervisor-IsOutcome Privilege.user i = h
    supervisor-IsOutcome Privilege.supervisor SupervisorInstr.sret = tt
    supervisor-IsOutcome Privilege.machine SupervisorInstr.sret = tt
    supervisor-IsOutcome Privilege.supervisor SupervisorInstr.sfence_vma = (tt, next-IsTarget pc t)
    supervisor-IsOutcome Privilege.machine SupervisorInstr.sfence_vma = (tt, next-IsTarget pc t)

    mret-IsOutcome : (mode : Privilege) → IsOutcome p (m3_mret_in mode w)
    mret-IsOutcome Privilege.machine = tt
    mret-IsOutcome Privilege.user = h
    mret-IsOutcome Privilege.supervisor = h

module _ (w pc : ℕ) (regs : RegisterFile) (h : IsWord w) (t : IsTarget pc)
    (r : All IsWord regs.x) where
  privileged-IsOutcome :
      (i : PrivInstr) → IsPriv i → IsOutcome Rv32iProfile.m2 (privileged i w pc regs)
  unfolding privileged
  privileged-IsOutcome PrivInstr.mret k = tt
  privileged-IsOutcome (PrivInstr.csr op rd src n) k =
      if-cases (IsOutcome Rv32iProfile.m2) (not (is_supported n)) (λ _. h)
        (λ e.
          csr-IsOutcome Rv32iProfile.m2 w pc regs h t r op rd src n
            (priv_writes (PrivInstr.csr op rd src n)) k (not-false e))

  m3_privileged-IsOutcome :
      (mode : Privilege) (i : PrivInstr)
      → IsPriv i
      → IsOutcome Rv32iProfile.m3 (m3_privileged_in mode i w pc regs)
  m3_privileged-IsOutcome mode PrivInstr.mret k =
      mret-IsOutcome Rv32iProfile.m3 w pc regs h t r mode
  m3_privileged-IsOutcome mode (PrivInstr.csr op rd src n) k =
      let write = priv_writes (PrivInstr.csr op rd src n) in
      if-cases (IsOutcome Rv32iProfile.m3)
        (not (m3_is_supported n) || not (accessible n mode write)) (λ _. h)
        (λ e.
          csr-IsOutcome Rv32iProfile.m3 w pc regs h t r op rd src n write k
            (not-false (or_false (not (m3_is_supported n)) _ e)))

  step_m2-Yields : Yields (IsStep Rv32iProfile.m2) (step Isa.m2 w pc regs)
  unfolding step
  step_m2-Yields = elim (Option-cases (decode_privileged w)) [
    | inl e ↦ rw (step, e) (step_rv32i-Yields Rv32iProfile.m2 w pc regs h t r Isa.m2)
    | inr (i, e) ↦
        rw (step, e) (privileged-IsOutcome i (subst (Every IsPriv) e (decode_privileged-IsPriv w)))
  ]

  step_m3-Yields :
      (mode : Privilege) → Yields (IsStep Rv32iProfile.m3) (step (Isa.m3 mode) w pc regs)
  unfolding step privileged_m3
  step_m3-Yields mode = elim (Option-cases (decode_privileged w)) [
    | inl e ↦ elim (Option-cases (decode_supervisor w)) [
      | inl f ↦
          rw (step, privileged_m3, e, f)
            (step_rv32i-Yields Rv32iProfile.m3 w pc regs h t r (Isa.m3 mode))
      | inr (i, f) ↦
          rw (step, privileged_m3, e, f)
            (supervisor-IsOutcome Rv32iProfile.m3 w pc regs h t r mode i)
    ]
    | inr (i, e) ↦
        rw (step, privileged_m3, e)
          (m3_privileged-IsOutcome mode i (subst (Every IsPriv) e (decode_privileged-IsPriv w)))
  ]

  -- A fetched word always executes, under any profile, to a well-formed outcome or memory plan.
  pub step-Yields :
      (p : Rv32iProfile) (hart : M3State) → Yields (IsStep p) (step (isa_of p hart) w pc regs)
  unfolding step
  step-Yields Rv32iProfile.m1 hart = step_rv32i-Yields Rv32iProfile.m1 w pc regs h t r Isa.m1
  step-Yields Rv32iProfile.m2 hart = step_m2-Yields
  step-Yields Rv32iProfile.m3 hart = step_m3-Yields hart.privilege
