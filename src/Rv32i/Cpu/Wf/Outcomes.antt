-- ===== src/Rv32i/Cpu/Wf/Outcomes.antt =====
-- The effects of an outcome that retires keep a CPU well formed.
use systemscope.Base.{
  ℕ, ◌≡◌, sym, subst, ap, ◌∙◌, true, Option, none, some, Result, ok, err, arith, if-cases, All,
}
use systemscope.Rv32i.Execute.{RegWrite, ExecOutcome}
use systemscope.Rv32i.Regfile.{RegisterFile, regfile_write}
use systemscope.Rv32i.Csr.{CsrFile, csr_mret, csr_take_mei, csr_mei_eligible, csr_apply}
use systemscope.Rv32i.Csr.Laws.{IsCsrFile}
use systemscope.Rv32i.Privilege.{M3State, m3_mret, m3_sret, m3_mei_eligible, m3_take_mei}
use systemscope.Rv32i.Privilege.Laws.{IsM3State}
use systemscope.Rv32i.Cpu.Isa.{Outcome, PendingCsr}
use systemscope.Rv32i.Cpu.State.{Rv32iProfile, Rv32iCpu, read_csr, CpuFault}
use systemscope.Rv32i.Cpu.Commit.{
  write_back, csr_done, csr_stored, csr_loaded, commit_csr, mret_under, sret_of, apply_outcome,
  sample_under,
}
use systemscope.Rv32i.Cpu.Wf.{
  IsWord, IsTarget, IsWrite, IsOutcome, IsArch, IsLive, supports, AreWords,
}
use systemscope.Rv32i.Cpu.Wf.Effects.{Yields, regfile_write-IsWord}
use systemscope.Rv32i.Cpu.Wf.Csrs.{csr_apply-IsWord, read_csr-Yields, write_csr-Yields, IsWritten}

abbrev pub IsRetiring : Outcome → Type 0
IsRetiring (Outcome.exec (ExecOutcome.trap t)) = ⊥
IsRetiring _ = Unit

-- The result is a CPU with the property.
abbrev pub Leaves : Result Rv32iCpu (Rv32iCpu × CpuFault) → Type 0
Leaves (ok d) = IsLive d
Leaves (err e) = ⊥

module _ (c : Rv32iCpu) (l : IsLive c) where
  changed-IsLive :
      (pc : ℕ) (regs : RegisterFile) (csrs : CsrFile) (hart : M3State)
      → IsTarget pc
      → All IsWord regs.x
      → IsCsrFile csrs
      → IsM3State hart × AreWords hart
      → IsLive (record c { pc = pc; regs = regs; csrs = csrs; m3 = hart })
  changed-IsLive pc regs csrs hart t r f h = record {
    arch = record {
      pc_target = t;
      regs_words = r;
      csrs_legal = f;
      hart_legal = h.0;
      hart_words = h.1;
    };
    limit_fits = l.limit_fits;
    txn_fits = l.txn_fits;
    below = l.below;
  }

  kept_hart : IsM3State c.m3 × AreWords c.m3
  kept_hart = (l.arch.hart_legal, l.arch.hart_words)

  mepc : IsTarget c.csrs.mepc
  mepc = (l.arch.csrs_legal.mepc_aligned, l.arch.csrs_legal.mepc_word)

  mtvec : IsTarget c.csrs.mtvec
  mtvec = (l.arch.csrs_legal.mtvec_aligned, l.arch.csrs_legal.mtvec_word)

  entered : IsCsrFile (csr_take_mei c.csrs c.pc).0
  unfolding csr_take_mei
  entered = ground arith

  moved-IsLive :
      (w : Option RegWrite) (pc : ℕ)
      → IsWrite w
      → IsTarget pc
      → IsLive (record (write_back w c) { pc = pc })
  moved-IsLive none pc h t =
      changed-IsLive pc c.regs c.csrs c.m3 t l.arch.regs_words l.arch.csrs_legal kept_hart
  moved-IsLive (some w) pc h t =
      changed-IsLive pc (regfile_write c.regs w.rd w.value) c.csrs c.m3 t
        (regfile_write-IsWord c.regs w.rd w.value l.arch.regs_words h) l.arch.csrs_legal kept_hart

  mret-IsLive : (p : Rv32iProfile) → IsLive (mret_under p c)
  unfolding csr_mret m3_mret
  mret-IsLive Rv32iProfile.m1 =
      changed-IsLive _ c.regs _ c.m3 mepc l.arch.regs_words (ground arith) kept_hart
  mret-IsLive Rv32iProfile.m2 =
      changed-IsLive _ c.regs _ c.m3 mepc l.arch.regs_words (ground arith) kept_hart
  mret-IsLive Rv32iProfile.m3 =
      changed-IsLive _ c.regs _ _ mepc l.arch.regs_words (ground arith) (ground arith, ground arith)

  sret-IsLive : IsLive (sret_of c)
  unfolding m3_sret
  sret-IsLive =
      changed-IsLive _ c.regs c.csrs _ (l.arch.hart_legal.sepc_aligned, l.arch.hart_legal.sepc_word)
        l.arch.regs_words l.arch.csrs_legal (ground arith, ground arith)

  pub sample-IsLive : (p : Rv32iProfile) → IsLive (sample_under p c)
  unfolding csr_take_mei m3_take_mei
  sample-IsLive Rv32iProfile.m1 = l
  sample-IsLive Rv32iProfile.m2 =
      if-cases IsLive (csr_mei_eligible c.csrs)
        (λ _. changed-IsLive _ c.regs _ c.m3 mtvec l.arch.regs_words entered kept_hart) (λ _. l)
  sample-IsLive Rv32iProfile.m3 =
      if-cases IsLive (m3_mei_eligible c.m3 c.csrs)
        (λ _.
          changed-IsLive _ c.regs _ _ mtvec l.arch.regs_words entered (ground arith, ground arith))
        (λ _. l)

  csr_done-Leaves :
      (op : PendingCsr) (old : ℕ) (o : Option ℕ)
      → IsTarget op.next_pc
      → IsWord old
      → Yields IsWord o
      → Leaves (csr_done c op old o)
  csr_done-Leaves op old none t w y = absurd y
  csr_done-Leaves op old (some v) t w y =
      changed-IsLive op.next_pc (regfile_write c.regs op.rd old) c.csrs c.m3 t
        (regfile_write-IsWord c.regs op.rd old l.arch.regs_words w) l.arch.csrs_legal kept_hart

written-IsLive : (c d : Rv32iCpu) → IsLive c → IsWritten c d → IsLive d
written-IsLive c d l w =
    let f = w.frame in
    subst IsLive (sym f) (record {
      arch = subst IsArch f w.legal;
      limit_fits = l.limit_fits;
      txn_fits = l.txn_fits;
      below = l.below;
    })

module _ (c : Rv32iCpu) (l : IsLive c) where
  csr_stored-Leaves :
      (op : PendingCsr) (old : ℕ) (o : Option Rv32iCpu)
      → IsTarget op.next_pc
      → IsWord old
      → supports c.config.profile op.csr ≡ true
      → Yields (IsWritten c) o
      → Leaves (csr_stored c op old o)
  csr_stored-Leaves op old none t w s y = absurd y
  csr_stored-Leaves op old (some d) t w s y =
      let m = written-IsLive c d l y in
      let f = y.frame in
      let same : d.config.profile ≡ c.config.profile = ap (λ (x : Rv32iCpu). x.config.profile) f in
      csr_done-Leaves d m op old (read_csr d op.csr) t w
        (read_csr-Yields d m.arch op.csr (ap (λ q. supports q op.csr) same ∙ s))

  csr_loaded-Leaves :
      (op : PendingCsr) (o : Option ℕ)
      → IsOutcome c.config.profile (Outcome.csr op)
      → Yields IsWord o
      → Leaves (csr_loaded c op o)
  csr_loaded-Leaves op none h y = absurd y
  csr_loaded-Leaves op (some old) h y =
      if-cases Leaves op.write
        (λ _. csr_stored-Leaves op old _ h.1 y h.2 (
          write_csr-Yields c l.arch op.csr (csr_apply op.op old op.operand)
            (csr_apply-IsWord op.op old op.operand y h.0) h.2))
        (λ _. csr_done-Leaves c l op old (some old) h.1 y y)

  pub apply_outcome-Leaves :
      (insn : ℕ) (o : Outcome)
      → IsOutcome c.config.profile o
      → (IsRetiring o)
      → Leaves (apply_outcome c o)
  unfolding apply_outcome commit_csr
  apply_outcome-Leaves insn (Outcome.exec (ExecOutcome.effect e)) h r =
      moved-IsLive c l e.reg_write e.next_pc h.0 h.1
  apply_outcome-Leaves insn (Outcome.exec (ExecOutcome.trap t)) h r = absurd r
  apply_outcome-Leaves insn (Outcome.csr op) h r =
      csr_loaded-Leaves op _ h (read_csr-Yields c l.arch op.csr h.2)
  apply_outcome-Leaves insn Outcome.mret h r = mret-IsLive c l c.config.profile
  apply_outcome-Leaves insn Outcome.sret h r = sret-IsLive c l
