-- ===== src/Rv32i/Cpu/Rank/Run.antt =====
-- components/rv32i/src/cpu.rs: the events between two commits are bounded.
use systemscope.Base.{
  ℕ, suc, refl, Bool, true, false, not, ◌≡◌, ◌<◌, ◌≤◌, ◌+◌, ◌%◌, ◌^◌, Option, none, some, Result,
  ok, err, if-cases, ◌==◌, arith, List, [], ◌∷◌, if◌then◌else◌, ◌&&◌, &&_true, Option-cases, inl,
  inr, subst, leb,
}
use systemscope.Rv32i.Execute.{ExecOutcome, PendingTrap}
use systemscope.Rv32i.Privilege.{M3State}
use systemscope.Rv32i.Cpu.Isa.{Outcome}
use systemscope.Rv32i.Cpu.State.{
  Rv32iProfile, Rv32iCpu, Halt, translating, CpuFault, Call, SimContext, Handled, commit_token,
}
use systemscope.Rv32i.Cpu.Calls.{faulted, ask, fetch_next}
use systemscope.Rv32i.Cpu.Commit.{
  stop, delegated, trap_under, commit_trap, apply_outcome, retire, applied, commit_retiring, commit,
}
use systemscope.Rv32i.Cpu.Handlers.{
  wake, irq, Message, Delivered, on_mem, on_irq, on_port, handle_event,
}
use systemscope.Rv32i.Cpu.Rank.{Unchanged, rank, Lowers, wake_in-Lowers, on_mem-Lowers}

-- A level of `irq.v0` counts for nothing; every other event counts for one.
abbrev pub weight : Delivered → ℕ
weight (Delivered.message port (Message.level _)) = 0
weight _ = 1

abbrev pub is_commit : Delivered → Bool
is_commit (Delivered.wake_token token) = token == commit_token
is_commit (Delivered.message port msg) = false

-- A handler that succeeds left a state whose rank is lower by `n`, and not zero if `n` is not; it
-- changed no more than an event outside a commit may.
pub record Falls (n : ℕ) (c : Rv32iCpu) (h : Handled) : Type 0 where
  pub falls :
      h.fault ≡ none
      → (rank h.cpu.state + n ≤ rank c.state)
        × (h.cpu.next_txn ≤ suc c.next_txn)
        × (n ≤ rank h.cpu.state)
  pub frame : Unchanged c h.cpu

Falls-Lowers : (c : Rv32iCpu) (h : Handled) → Lowers (rank c.state) c h → Falls 1 c h
Falls-Lowers c h l = record {
  falls = λ e. let k = l.lowers e in let t = l.sends in omega arith;
  frame = l.frame;
}

Falls-faulted : (n : ℕ) (c : Rv32iCpu) (f : CpuFault) → Falls n c (faulted c f)
Falls-faulted n c f = record { falls = λ e. absurd cc; frame = refl }

module _ (ctx : SimContext) (c : Rv32iCpu) where
  Falls-on_irq : (msg : Message) → Falls (weight (Delivered.message 1 msg)) c (on_irq ctx c msg)
  unfolding irq
  Falls-on_irq (Message.mem txn msg) = Falls-faulted 1 c _
  Falls-on_irq Message.other = Falls-faulted 1 c _
  Falls-on_irq (Message.level b) =
      if-cases (Falls 0 c) (not ctx.in_complete) (λ _. Falls-faulted 0 c _)
        (λ _. record { falls = λ e. omega arith; frame = refl })

  Falls-on_mem :
      (port : ℕ) (msg : Message) → Falls (weight (Delivered.message port msg)) c (on_mem ctx c msg)
  Falls-on_mem port (Message.mem txn msg) =
      Falls-Lowers c _ (on_mem-Lowers ctx c (Message.mem txn msg))
  Falls-on_mem port (Message.level b) = Falls-faulted 0 c _
  Falls-on_mem port Message.other = Falls-faulted 1 c _

  Falls-ports :
      (port : ℕ) (msg : Message)
      → Falls (weight (Delivered.message port msg)) c (
          if port == 0
          then on_mem ctx c msg
          else if port == 1
          then on_irq ctx c msg
          else faulted c CpuFault.unknown_port)
  Falls-ports port msg =
      let P = Falls (weight (Delivered.message port msg)) c in
      if-cases P (port == 0) (λ _. Falls-on_mem port msg)
        (λ _. if-cases P (port == 1) (λ _. Falls-on_irq msg) (λ _. Falls-faulted _ c _))

  Falls-on_port :
      (p : Rv32iProfile) (port : ℕ) (msg : Message)
      → Falls (weight (Delivered.message port msg)) c (on_port p ctx c port msg)
  Falls-on_port Rv32iProfile.m1 port msg = Falls-on_mem port msg
  Falls-on_port Rv32iProfile.m2 port msg = Falls-ports port msg
  Falls-on_port Rv32iProfile.m3 port msg = Falls-ports port msg

  pub Falls-handle_event :
      (e : Delivered) → is_commit e ≡ false → Falls (weight e) c (handle_event ctx c e)
  unfolding handle_event wake
  Falls-handle_event (Delivered.wake_token token) h =
      Falls-Lowers c _ (wake_in-Lowers ctx c.state c token h)
  Falls-handle_event (Delivered.message port msg) h = Falls-on_port c.config.profile port msg

-- Architectural state changes in a commit only. Every other event, whether its handler succeeds or
-- not, leaves `pc`, the registers, the CSRs but for the interrupt level, the hart and the count of
-- retired instructions as they were.
pub handle_event-Unchanged :
    (ctx : SimContext) (c : Rv32iCpu) (e : Delivered)
    → is_commit e ≡ false
    → Unchanged c (handle_event ctx c e).cpu
handle_event-Unchanged ctx c e h = (Falls-handle_event ctx c e h).frame

abbrev accepted : Handled → Option Rv32iCpu
accepted h = elim h.fault [ none ↦ some h.cpu | some _ ↦ none ]

-- A sequence of deliveries, each with what the runtime gives its handler; `none` when one faults.
unfoldable pub run : List (SimContext × Delivered) → Rv32iCpu → Option Rv32iCpu
run [] c = some c
run ((ctx, e) ∷ es) c = elim (accepted (handle_event ctx c e)) [ none ↦ none | some d ↦ run es d ]

abbrev pub weights : List (SimContext × Delivered) → ℕ
weights [] = 0
weights ((_, e) ∷ es) = weight e + weights es

abbrev pub no_commit : List (SimContext × Delivered) → Bool
no_commit [] = true
no_commit ((_, e) ∷ es) = not (is_commit e) && no_commit es

accepted-fault : (h : Handled) (d : Rv32iCpu) → accepted h ≡ some d → (h.fault ≡ none) × (h.cpu ≡ d)
accepted-fault h d e = elim (Option-cases h.fault) [
  | inl f ↦ (f, ground arith)
  | inr (_, f) ↦ absurd (ground arith)
]

weights-rank :
    (es : List (SimContext × Delivered)) (c d : Rv32iCpu)
    → run es c ≡ some d
    → no_commit es ≡ true
    → rank d.state + weights es ≤ rank c.state
unfolding run
weights-rank [] c d e h = ground arith
weights-rank ((ctx, x) ∷ es) c d e h = elim (Option-cases (accepted (handle_event ctx c x))) [
  | inl n ↦ absurd (ground arith)
  | inr (m, n) ↦
      let (f, g) = accepted-fault (handle_event ctx c x) m n in
      let (q, r) = &&_true (not (is_commit x)) (no_commit es) h in
      let fall = ((Falls-handle_event ctx c x (ground arith)).falls f).0 in
      let rest = weights-rank es m d (rw (run, n) at e) r in
      let near = subst (λ (k : Rv32iCpu). rank k.state + weight x ≤ rank c.state) g fall in
      omega arith
]

-- A handler that succeeds left a state at most 13 events from a commit.
record Settles (h : Handled) : Type 0 where
  settles : h.fault ≡ none → rank h.cpu.state < 14

faulted-Settles : (c : Rv32iCpu) (f : CpuFault) → Settles (faulted c f)
faulted-Settles c f = record { settles = λ e. absurd cc }

ask-Settles :
    (ctx : SimContext) (c : Rv32iCpu) (call : Call) → rank c.state < 14 → Settles (ask ctx c call)
ask-Settles ctx c call h =
    if-cases Settles (ctx.refuses call) (λ _. faulted-Settles c CpuFault.refused)
      (λ _. record { settles = λ _. h })

module _ (ctx : SimContext) where
  fetch_next-Settles : (c : Rv32iCpu) → Settles (fetch_next ctx c)
  unfolding fetch_next rank
  fetch_next-Settles c =
      if-cases Settles (translating c) (λ _. ask-Settles ctx _ _ (omega arith))
        (λ _. ask-Settles ctx _ _ (omega arith))

  stop-Settles : (c : Rv32iCpu) (halt : Halt) → Settles (stop c halt)
  unfolding rank
  stop-Settles c halt = record { settles = λ _. omega arith }

  delegated-Settles :
      (c : Rv32iCpu) (t : PendingTrap) (r : Option (M3State × ℕ)) → Settles (delegated ctx c t r)
  delegated-Settles c t none = stop-Settles c _
  delegated-Settles c t (some (hart, handler)) = fetch_next-Settles _

  trap_under-Settles :
      (p : Rv32iProfile) (c : Rv32iCpu) (t : PendingTrap) → Settles (trap_under p ctx c t)
  trap_under-Settles Rv32iProfile.m1 c t = stop-Settles c _
  trap_under-Settles Rv32iProfile.m2 c t = stop-Settles c _
  trap_under-Settles Rv32iProfile.m3 c t = delegated-Settles c t _

  applied-Settles : (r : Result Rv32iCpu (Rv32iCpu × CpuFault)) → Settles (applied ctx r)
  unfolding retire
  applied-Settles (err (d, f)) = faulted-Settles d f
  applied-Settles (ok d) =
      if-cases Settles (leb d.config.max_instructions ((d.instret + 1) % 2 ^ 64))
        (λ _. stop-Settles (record d { instret = (d.instret + 1) % 2 ^ 64 }) _)
        (λ _. fetch_next-Settles _)

  retiring-Settles :
      (c : Rv32iCpu) (insn : Option ℕ) (o : Outcome) → Settles (commit_retiring ctx c insn o)
  retiring-Settles c none o = faulted-Settles c _
  retiring-Settles c (some insn) o = applied-Settles (apply_outcome c o)

  commit-Settles : (c : Rv32iCpu) (insn : Option ℕ) (o : Outcome) → Settles (commit ctx c insn o)
  unfolding commit commit_trap
  commit-Settles c insn (Outcome.exec (ExecOutcome.trap t)) =
      trap_under-Settles c.config.profile c t
  commit-Settles c insn (Outcome.exec (ExecOutcome.effect e)) = retiring-Settles c insn _
  commit-Settles c insn (Outcome.csr op) = retiring-Settles c insn _
  commit-Settles c insn Outcome.mret = retiring-Settles c insn _
  commit-Settles c insn Outcome.sret = retiring-Settles c insn _

-- After a commit that succeeds, the CPU accepts a bounded number of events before its next commit:
-- deliveries that all succeed and have no `COMMIT` wake among them are at most 13, levels of
-- `irq.v0` not counted, less the rank of the state that they reach.
pub commit-run :
    (ctx : SimContext) (c : Rv32iCpu) (insn : Option ℕ) (o : Outcome)
    → (commit ctx c insn o).fault ≡ none
    → (es : List (SimContext × Delivered)) (d : Rv32iCpu)
    → run es (commit ctx c insn o).cpu ≡ some d
    → no_commit es ≡ true
    → rank d.state + weights es ≤ 13
commit-run ctx c insn o f es d e h =
    let k = (commit-Settles ctx c insn o).settles f in
    let l = weights-rank es (commit ctx c insn o).cpu d e h in omega arith
