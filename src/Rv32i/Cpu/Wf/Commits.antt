-- ===== src/Rv32i/Cpu/Wf/Commits.antt =====
-- The commit of a pending outcome keeps a CPU well formed, and it succeeds.
use systemscope.Base.{
  ℕ, ◌+◌, ◌%◌, ◌^◌, ◌≡◌, refl, false, Option, none, some, Result, ok, err, arith, if-cases, leb,
}
use systemscope.Rv32i.Execute.{ExecOutcome}
use systemscope.Rv32i.Cpu.Isa.{Outcome}
use systemscope.Rv32i.Cpu.State.{Rv32iCpu, State, Halt, CpuFault, SimContext}
use systemscope.Rv32i.Cpu.Commit.{commit_trap, retire, applied, commit}
use systemscope.Rv32i.Cpu.Wf.{IsOutcome, HasWord, IsCpu, IsLive, Holds}
use systemscope.Rv32i.Cpu.Wf.Traps.{fetch_next-Holds, trap_under-Holds}
use systemscope.Rv32i.Cpu.Wf.Outcomes.{Leaves, sample-IsLive, apply_outcome-Leaves}

module _ (d : Rv32iCpu) (h : IsLive d) where
  counted-IsLive :
      leb d.config.max_instructions ((d.instret + 1) % 2 ^ 64) ≡ false
      → IsLive (record d { instret = (d.instret + 1) % 2 ^ 64 })
  counted-IsLive e = record {
    arch = record {
      pc_target = h.arch.pc_target;
      regs_words = h.arch.regs_words;
      csrs_legal = h.arch.csrs_legal;
      hart_legal = h.arch.hart_legal;
      hart_words = h.arch.hart_words;
    };
    limit_fits = h.limit_fits;
    txn_fits = h.txn_fits;
    below = ground arith;
  }

  limited-IsCpu :
      IsCpu (record d {
        instret = (d.instret + 1) % 2 ^ 64;
        state = State.halted Halt.instruction_limit;
      })
  limited-IsCpu = record {
    arch = record {
      pc_target = h.arch.pc_target;
      regs_words = h.arch.regs_words;
      csrs_legal = h.arch.csrs_legal;
      hart_legal = h.arch.hart_legal;
      hart_words = h.arch.hart_words;
    };
    limit_fits = h.limit_fits;
    txn_fits = h.txn_fits;
    counts = (let b = h.below in let f = h.limit_fits in omega arith);
    holds = tt;
  }

module _ (ctx : SimContext) where
  applied-Holds : (r : Result Rv32iCpu (Rv32iCpu × CpuFault)) → Leaves r → Holds ctx (applied ctx r)
  unfolding retire
  applied-Holds (err e) h = absurd h
  applied-Holds (ok d) h =
      let counted : Rv32iCpu = record d { instret = (d.instret + 1) % 2 ^ 64 } in
      if-cases (Holds ctx) (leb d.config.max_instructions ((d.instret + 1) % 2 ^ 64))
        (λ e. record { keeps = limited-IsCpu d h; proceeds = λ g. refl })
        (λ e.
          fetch_next-Holds ctx _ (sample-IsLive counted (counted-IsLive d h e) d.config.profile))

  pub commit-Holds :
      (c : Rv32iCpu) (insn : Option ℕ) (o : Outcome)
      → IsLive c
      → IsOutcome c.config.profile o
      → HasWord insn o
      → Holds ctx (commit ctx c insn o)
  unfolding commit commit_trap
  commit-Holds c insn (Outcome.exec (ExecOutcome.trap t)) l h w =
      trap_under-Holds ctx c.config.profile c t l h
  commit-Holds c (some insn) (Outcome.exec (ExecOutcome.effect e)) l h w =
      applied-Holds _ (apply_outcome-Leaves c l insn _ h tt)
  commit-Holds c (some insn) (Outcome.csr op) l h w =
      applied-Holds _ (apply_outcome-Leaves c l insn _ h tt)
  commit-Holds c (some insn) Outcome.mret l h w =
      applied-Holds _ (apply_outcome-Leaves c l insn _ h tt)
  commit-Holds c (some insn) Outcome.sret l h w =
      applied-Holds _ (apply_outcome-Leaves c l insn _ h tt)
  commit-Holds c none (Outcome.exec (ExecOutcome.effect e)) l h w = absurd w
  commit-Holds c none (Outcome.csr op) l h w = absurd w
  commit-Holds c none Outcome.mret l h w = absurd w
  commit-Holds c none Outcome.sret l h w = absurd w
