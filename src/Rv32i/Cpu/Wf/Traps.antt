-- ===== src/Rv32i/Cpu/Wf/Traps.antt =====
-- The commit of a trap keeps a CPU well formed, and it succeeds.
use systemscope.Base.{ℕ, ◌≡◌, refl, subst, Option, none, some, arith, if-cases}
use systemscope.Rv32i.Execute.{PendingTrap, TrapCause, code}
use systemscope.Rv32i.Privilege.{M3State, take_exception}
use systemscope.Rv32i.Privilege.Traps.{take_exception-IsDelivered}
use systemscope.Rv32i.Cpu.State.{Rv32iProfile, Rv32iCpu, State, Halt, translating, Call, SimContext}
use systemscope.Rv32i.Cpu.Calls.{ask, fetch_next}
use systemscope.Rv32i.Cpu.Commit.{stop, delegated, trap_under}
use systemscope.Rv32i.Cpu.Wf.{IsWord, IsState, IsCount, IsCpu, IsLive, Holds, AreWords}
use systemscope.Rv32i.Cpu.Wf.Effects.{Every}

pub live-IsCpu :
    (c : Rv32iCpu) (s : State)
    → IsLive c
    → IsCount s c.instret c.config.max_instructions
    → IsState c.config.profile c.next_txn s
    → IsCpu (record c { state = s })
live-IsCpu c s l n k = record {
  arch = record {
    pc_target = l.arch.pc_target;
    regs_words = l.arch.regs_words;
    csrs_legal = l.arch.csrs_legal;
    hart_legal = l.arch.hart_legal;
    hart_words = l.arch.hart_words;
  };
  limit_fits = l.limit_fits;
  txn_fits = l.txn_fits;
  counts = n;
  holds = k;
}

code-IsWord : (cause : TrapCause) → IsWord (code cause)
unfolding code
code-IsWord cause = ground arith

take_exception-AreWords :
    (s : M3State) (cause : TrapCause) (pc tval : ℕ)
    → AreWords s
    → IsWord tval
    → Every (λ (q : M3State × ℕ). AreWords q.0) (take_exception s cause pc tval)
unfolding take_exception
take_exception-AreWords s cause pc tval h w = ground (arith, code-IsWord cause)

delivered-IsLive :
    (c : Rv32iCpu) (t : PendingTrap) (hart : M3State) (handler : ℕ)
    → take_exception c.m3 t.cause c.pc t.tval ≡ some (hart, handler)
    → IsLive c
    → IsWord t.tval
    → IsLive (record c { m3 = hart; pc = handler })
delivered-IsLive c t hart handler e l w =
    let d =
      take_exception-IsDelivered c.m3 t.cause c.pc t.tval l.arch.hart_legal l.arch.pc_target.0
        l.arch.pc_target.1 e in
    record {
      arch = record {
        pc_target =
            (let same = d.handler in
              let aligned = l.arch.hart_legal.stvec_aligned in
              let word = l.arch.hart_legal.stvec_word in (omega arith, omega arith));
        regs_words = l.arch.regs_words;
        csrs_legal = l.arch.csrs_legal;
        hart_legal = d.well_formed;
        hart_words =
            subst (Every (λ (q : M3State × ℕ). AreWords q.0)) e
              (take_exception-AreWords c.m3 t.cause c.pc t.tval l.arch.hart_words w);
      };
      limit_fits = l.limit_fits;
      txn_fits = l.txn_fits;
      below = l.below;
    }

module _ (ctx : SimContext) where
  pub ask-Holds : (c : Rv32iCpu) (call : Call) → IsCpu c → Holds ctx (ask ctx c call)
  ask-Holds c call h =
      if-cases (Holds ctx) (ctx.refuses call)
        (λ e. record { keeps = h; proceeds = λ g. let k = g call in absurd cc })
        (λ e. record { keeps = h; proceeds = λ g. refl })

  pub fetch_next-Holds : (c : Rv32iCpu) → IsLive c → Holds ctx (fetch_next ctx c)
  unfolding fetch_next
  fetch_next-Holds c l =
      if-cases (Holds ctx) (translating c)
        (λ _. ask-Holds _ _ (live-IsCpu c _ l l.below (tt, omega arith)))
        (λ _. ask-Holds _ _ (live-IsCpu c _ l l.below tt))

  stop-Holds : (c : Rv32iCpu) (halt : Halt) → IsLive c → Holds ctx (stop c halt)
  stop-Holds c halt l = record {
    keeps = live-IsCpu c (State.halted halt) l (let b = l.below in omega arith) tt;
    proceeds = λ g. refl;
  }

  delegated-Holds :
      (c : Rv32iCpu) (t : PendingTrap) (r : Option (M3State × ℕ))
      → take_exception c.m3 t.cause c.pc t.tval ≡ r
      → IsLive c
      → IsWord t.tval
      → Holds ctx (delegated ctx c t r)
  delegated-Holds c t none e l w = stop-Holds c _ l
  delegated-Holds c t (some (hart, handler)) e l w =
      fetch_next-Holds _ (delivered-IsLive c t hart handler e l w)

  pub trap_under-Holds :
      (p : Rv32iProfile) (c : Rv32iCpu) (t : PendingTrap)
      → IsLive c
      → IsWord t.tval
      → Holds ctx (trap_under p ctx c t)
  trap_under-Holds Rv32iProfile.m1 c t l w = stop-Holds c _ l
  trap_under-Holds Rv32iProfile.m2 c t l w = stop-Holds c _ l
  trap_under-Holds Rv32iProfile.m3 c t l w = delegated-Holds c t _ refl l w
