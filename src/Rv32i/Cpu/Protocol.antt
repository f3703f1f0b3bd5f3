-- ===== src/Rv32i/Cpu/Protocol.antt =====
-- components/rv32i/src/cpu.rs: the call that each state of the CPU waits on, and that a handler makes it.
pub mod Responses
use systemscope.Base.{
  ℕ, suc, zero, refl, Bool, true, false, ◌≡◌, Option, none, some, Result, ok, err, if-cases, leb,
  sym, ◌!=◌, not, if◌then◌else◌, ◌+◌, ◌%◌, ◌^◌, ◌==◌,
}
use systemscope.Rv32i.Execute.{ExecOutcome, PendingTrap}
use systemscope.Rv32i.Memory.{MemMsg, MemoryCompletionError}
use systemscope.Rv32i.Privilege.{M3State}
use systemscope.Rv32i.Sv32
use systemscope.Rv32i.Sv32.{Fault, pte_address}
use systemscope.Rv32i.Cpu.Isa.{Outcome, Step}
use systemscope.Rv32i.Cpu.State.{
  Rv32iProfile, Rv32iCpu, State, Halt, Walk, Purpose, plan_addr, translating, walk_va, CpuFault,
  MemReq, Call, SimContext, Handled, fetch_token, memory_token, commit_token, walk_token,
}
use systemscope.Rv32i.Cpu.Calls.{faulted, ask, fetch_next, send_as, send}
use systemscope.Rv32i.Cpu.Commit.{
  stop, delegated, trap_under, commit_trap, apply_outcome, retire, applied, commit_retiring, commit,
}
use systemscope.Rv32i.Cpu.Handlers.{
  unwrap_or, plan_request, wake_in, wake, proceed, executed, fetched, fetch_response, completed,
  mem_response, walk_leaf, walk_down, walk_fault, walk_step, walk_read, walk_response, respond,
  respond_to, response, Message, Delivered, on_mem, on_irq, on_port, handle_event, is_request,
  outstanding,
}

-- The call whose event the CPU waits for in its state.
unfoldable pub owed_in : State → Rv32iCpu → Option Call
owed_in (State.fetch_issue _) c = some (Call.wake_next_cycle fetch_token)
owed_in (State.fetch_wait txn pa) c = some (Call.request txn (MemReq.read (unwrap_or pa c.pc) 4))
owed_in (State.mem_issue _ _ _) c = some (Call.wake_next_cycle memory_token)
owed_in (State.mem_wait txn _ plan pa) c =
    some (Call.request txn (plan_request plan (unwrap_or pa (plan_addr plan))))
owed_in (State.walk_issue _) c = some (Call.wake_next_cycle walk_token)
owed_in (State.walk_wait txn walk) c =
    some (Call.request txn (MemReq.read (pte_address walk.table (walk_va c walk) walk.level) 4))
owed_in (State.commit_pending _ _ _) c = some Call.wake_commit
owed_in (State.halted _) c = none

abbrev pub owed : Rv32iCpu → Option Call
owed c = owed_in c.state c

abbrev pub is_level : Message → Bool
is_level (Message.level _) = true
is_level _ = false

abbrev pub carries_level : Delivered → Bool
carries_level (Delivered.message port msg) = is_level msg
carries_level (Delivered.wake_token token) = false

-- A handler that succeeds made the call that its state waits on; one that fails made none.
pub record CallsOwed (h : Handled) : Type 0 where
  pub succeeds : h.fault ≡ none → h.call ≡ owed h.cpu
  pub fails : (f : CpuFault) → h.fault ≡ some f → h.call ≡ none

pub faulted-CallsOwed : (c : Rv32iCpu) (f : CpuFault) → CallsOwed (faulted c f)
faulted-CallsOwed c f = record { succeeds = λ e. absurd cc; fails = λ g e. refl }

module _ (ctx : SimContext) where
  pub ask-CallsOwed : (c : Rv32iCpu) (call : Call) → owed c ≡ some call → CallsOwed (ask ctx c call)
  ask-CallsOwed c call e =
      if-cases CallsOwed (ctx.refuses call) (λ _. faulted-CallsOwed c CpuFault.refused)
        (λ _. record { succeeds = λ _. sym e; fails = λ g h. absurd cc })

  fetch_next-CallsOwed : (c : Rv32iCpu) → CallsOwed (fetch_next ctx c)
  unfolding fetch_next owed_in
  fetch_next-CallsOwed c =
      if-cases CallsOwed (translating c) (λ _. ask-CallsOwed _ _ refl) (λ _. ask-CallsOwed _ _ refl)

  send_as-CallsOwed :
      (next : Option ℕ) (c : Rv32iCpu) (req : MemReq) (waiting : ℕ → State)
      → ((txn next : ℕ)
          → owed (record c { next_txn = next; state = waiting txn }) ≡ some (Call.request txn req))
      → CallsOwed (send_as next ctx c req waiting)
  send_as-CallsOwed none c req waiting h = faulted-CallsOwed c CpuFault.txn_exhausted
  send_as-CallsOwed (some next) c req waiting h =
      if-cases CallsOwed (ctx.refuses (Call.request c.next_txn req))
        (λ _. faulted-CallsOwed c CpuFault.refused)
        (λ _. record { succeeds = λ _. sym (h c.next_txn next); fails = λ g e. absurd cc })

  stop-CallsOwed : (c : Rv32iCpu) (halt : Halt) → CallsOwed (stop c halt)
  unfolding owed_in
  stop-CallsOwed c halt = record { succeeds = λ _. refl; fails = λ g h. refl }

  delegated-CallsOwed :
      (c : Rv32iCpu) (t : PendingTrap) (r : Option (M3State × ℕ)) → CallsOwed (delegated ctx c t r)
  delegated-CallsOwed c t none = stop-CallsOwed c _
  delegated-CallsOwed c t (some (hart, handler)) = fetch_next-CallsOwed _

  trap_under-CallsOwed :
      (p : Rv32iProfile) (c : Rv32iCpu) (t : PendingTrap) → CallsOwed (trap_under p ctx c t)
  trap_under-CallsOwed Rv32iProfile.m1 c t = stop-CallsOwed c _
  trap_under-CallsOwed Rv32iProfile.m2 c t = stop-CallsOwed c _
  trap_under-CallsOwed Rv32iProfile.m3 c t = delegated-CallsOwed c t _

  applied-CallsOwed : (r : Result Rv32iCpu (Rv32iCpu × CpuFault)) → CallsOwed (applied ctx r)
  unfolding retire
  applied-CallsOwed (err (d, f)) = faulted-CallsOwed d f
  applied-CallsOwed (ok d) =
      if-cases CallsOwed (leb d.config.max_instructions ((d.instret + 1) % 2 ^ 64))
        (λ _. stop-CallsOwed (record d { instret = (d.instret + 1) % 2 ^ 64 }) _)
        (λ _. fetch_next-CallsOwed _)

  retiring-CallsOwed :
      (c : Rv32iCpu) (insn : Option ℕ) (o : Outcome) → CallsOwed (commit_retiring ctx c insn o)
  retiring-CallsOwed c none o = faulted-CallsOwed c _
  retiring-CallsOwed c (some insn) o = applied-CallsOwed (apply_outcome c o)

  commit-CallsOwed :
      (c : Rv32iCpu) (insn : Option ℕ) (o : Outcome) → CallsOwed (commit ctx c insn o)
  unfolding commit commit_trap
  commit-CallsOwed c insn (Outcome.exec (ExecOutcome.trap t)) =
      trap_under-CallsOwed c.config.profile c t
  commit-CallsOwed c insn (Outcome.exec (ExecOutcome.effect e)) = retiring-CallsOwed c insn _
  commit-CallsOwed c insn (Outcome.csr op) = retiring-CallsOwed c insn _
  commit-CallsOwed c insn Outcome.mret = retiring-CallsOwed c insn _
  commit-CallsOwed c insn Outcome.sret = retiring-CallsOwed c insn _

  pub guarded :
      (b : Bool) (c : Rv32iCpu) (f : CpuFault) {h : Handled}
      → CallsOwed h
      → CallsOwed (if b then h else faulted c f)
  guarded b c f k = if-cases CallsOwed b (λ _. k) (λ _. faulted-CallsOwed c f)

  pub refused :
      (b : Bool) (c : Rv32iCpu) (f : CpuFault) {h : Handled}
      → CallsOwed h
      → CallsOwed (if b then faulted c f else h)
  refused b c f k = if-cases CallsOwed b (λ _. faulted-CallsOwed c f) (λ _. k)

  pub wake_in-CallsOwed : (s : State) (c : Rv32iCpu) (token : ℕ) → CallsOwed (wake_in s ctx c token)
  unfolding wake_in send owed_in walk_va
  wake_in-CallsOwed (State.fetch_issue pa) c token =
      guarded (token == fetch_token) c _ (send_as-CallsOwed _ c _ _ (λ txn next. refl))
  wake_in-CallsOwed (State.mem_issue insn plan pa) c token =
      guarded (token == memory_token) c _ (send_as-CallsOwed _ c _ _ (λ txn next. refl))
  wake_in-CallsOwed (State.walk_issue walk) c token =
      guarded (token == walk_token) c _ (send_as-CallsOwed _ c _ _ (λ txn next. refl))
  wake_in-CallsOwed (State.commit_pending insn o pa) c token =
      guarded (token == commit_token) c _ (commit-CallsOwed c insn o)
  wake_in-CallsOwed (State.fetch_wait _ _) c token = faulted-CallsOwed c _
  wake_in-CallsOwed (State.mem_wait _ _ _ _) c token = faulted-CallsOwed c _
  wake_in-CallsOwed (State.walk_wait _ _) c token = faulted-CallsOwed c _
  wake_in-CallsOwed (State.halted _) c token = faulted-CallsOwed c _
