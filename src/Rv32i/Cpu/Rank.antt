-- ===== src/Rv32i/Cpu/Rank.antt =====
-- components/rv32i/src/cpu.rs: how far a state of the CPU is from its commit.
pub mod Run
use systemscope.Base.{
  ℕ, suc, zero, refl, Bool, true, false, not, ◌≡◌, ◌<◌, ◌≤◌, ◌+◌, ◌*◌, ◌%◌, ◌^◌, Option, none, some,
  Result, ok, err, if-cases, ◌==◌, ◌!=◌, arith, List, [], ◌∷◌, if◌then◌else◌, ◌&&◌, &&_true,
  Option-cases, inl, inr, subst, leb,
}
use systemscope.Rv32i.Execute.{ExecOutcome, PendingTrap}
use systemscope.Rv32i.Memory.{MemoryPlan, MemMsg, MemoryCompletionError}
use systemscope.Rv32i.Privilege.{M3State}
use systemscope.Rv32i.Sv32
use systemscope.Rv32i.Sv32.{Fault}
use systemscope.Rv32i.Cpu.Isa.{Outcome, Step}
use systemscope.Rv32i.Cpu.State.{
  Rv32iProfile, Rv32iCpu, State, Halt, Walk, Purpose, translating, walk_va, CpuFault, MemReq, Call,
  SimContext, Handled, fetch_token, memory_token, commit_token, walk_token,
}
use systemscope.Rv32i.Cpu.Wf.Effects.{Every}
use systemscope.Rv32i.Cpu.Calls.{advance, faulted, ask, fetch_next, send_as, send}
use systemscope.Rv32i.Cpu.Commit.{
  stop, delegated, trap_under, commit_trap, apply_outcome, retire, applied, commit_retiring, commit,
}
use systemscope.Rv32i.Cpu.Handlers.{
  wake_in, wake, proceed, executed, fetched, fetch_response, completed, mem_response, walk_leaf,
  walk_down, walk_fault, walk_step, walk_read, walk_response, respond, respond_to, response, irq,
  Message, Delivered, on_mem, on_irq, on_port, handle_event, is_request, outstanding,
}

abbrev pub walk_rank : Purpose → ℕ → ℕ
walk_rank Purpose.fetch level = 10 + 2 * level
walk_rank (Purpose.access _ _) level = 4 + 2 * level

-- How many events a state is from its commit, at most.
unfoldable pub rank : State → ℕ
rank (State.walk_issue w) = suc (walk_rank w.purpose w.level)
rank (State.walk_wait _ w) = walk_rank w.purpose w.level
rank (State.fetch_issue _) = 9
rank (State.fetch_wait _ _) = 8
rank (State.mem_issue _ _ _) = 3
rank (State.mem_wait _ _ _ _) = 2
rank (State.commit_pending _ _ _) = 1
rank (State.halted _) = 0

-- But for its state, its count of transactions and the interrupt level, `d` is `c`.
abbrev pub Unchanged : Rv32iCpu → Rv32iCpu → Type 0
Unchanged c d = d ≡ record c {
  next_txn = d.next_txn;
  state = d.state;
  csrs = record c.csrs { irq_level = d.csrs.irq_level };
}

-- A handler that succeeds left a state of a rank below `n` that has not halted. It sent at most one
-- transaction, and changed nothing else.
pub record Lowers (n : ℕ) (c : Rv32iCpu) (h : Handled) : Type 0 where
  pub lowers : h.fault ≡ none → (0 < rank h.cpu.state) × (rank h.cpu.state < n)
  pub sends : h.cpu.next_txn ≤ suc c.next_txn
  pub frame : Unchanged c h.cpu

pub faulted-Lowers : {n : ℕ} (c : Rv32iCpu) (f : CpuFault) → Lowers n c (faulted c f)
faulted-Lowers c f = record { lowers = λ e. absurd cc; sends = omega arith; frame = refl }

refused-Lowers :
    {n : ℕ} (b : Bool) (c : Rv32iCpu) (f : CpuFault) {h : Handled}
    → Lowers n c h
    → Lowers n c (if b then faulted c f else h)
refused-Lowers {n} b c f k = if-cases (Lowers n c) b (λ _. faulted-Lowers c f) (λ _. k)

guarded-Lowers :
    {n : ℕ} (b : Bool) (c : Rv32iCpu) (f : CpuFault) {h : Handled}
    → (b ≡ true → Lowers n c h)
    → Lowers n c (if b then h else faulted c f)
guarded-Lowers {n} b c f k = if-cases (Lowers n c) b k (λ _. faulted-Lowers c f)

pub walk_rank-pos : (p : Purpose) (l : ℕ) → 1 < walk_rank p l
walk_rank-pos Purpose.fetch l = omega arith
walk_rank-pos (Purpose.access _ _) l = omega arith

advance-next : (p : Rv32iProfile) (txn : ℕ) → Every (λ t. t ≤ suc txn) (advance p txn)
advance-next Rv32iProfile.m1 txn = omega arith
advance-next Rv32iProfile.m2 txn = ground arith
advance-next Rv32iProfile.m3 txn = ground arith

module _ (ctx : SimContext) where
  pub ask-Lowers :
      {n : ℕ} (c : Rv32iCpu) (s : State) (call : Call)
      → (0 < rank s) × (rank s < n)
      → Lowers n c (ask ctx (record c { state = s }) call)
  ask-Lowers {n} c s call h =
      if-cases (Lowers n c) (ctx.refuses call)
        (λ _. record { lowers = λ e. absurd cc; sends = omega arith; frame = refl })
        (λ _. record { lowers = λ _. h; sends = omega arith; frame = refl })

  send_as-Lowers :
      {n : ℕ} (next : Option ℕ) (c : Rv32iCpu) (req : MemReq) (waiting : ℕ → State)
      → Every (λ t. t ≤ suc c.next_txn) next
      → ((txn : ℕ) → (0 < rank (waiting txn)) × (rank (waiting txn) < n))
      → Lowers n c (send_as next ctx c req waiting)
  send_as-Lowers none c req waiting k h = faulted-Lowers c _
  send_as-Lowers (some next) c req waiting k h =
      refused-Lowers (ctx.refuses (Call.request c.next_txn req)) c CpuFault.refused
        (record { lowers = λ _. h c.next_txn; sends = k; frame = refl })

  pub wake_in-Lowers :
      (s : State) (c : Rv32iCpu) (token : ℕ)
      → (token == commit_token) ≡ false
      → Lowers (rank s) c (wake_in s ctx c token)
  unfolding wake_in send rank
  wake_in-Lowers (State.fetch_issue pa) c token h =
      guarded-Lowers (token == fetch_token) c _
        (λ _. send_as-Lowers _ c _ _ (advance-next c.config.profile c.next_txn) (λ _. omega arith))
  wake_in-Lowers (State.mem_issue insn plan pa) c token h =
      guarded-Lowers (token == memory_token) c _
        (λ _. send_as-Lowers _ c _ _ (advance-next c.config.profile c.next_txn) (λ _. omega arith))
  wake_in-Lowers (State.walk_issue walk) c token h = guarded-Lowers (token == walk_token) c _ (λ _.
      send_as-Lowers _ c _ _ (advance-next c.config.profile c.next_txn)
        (λ _. omega (arith, walk_rank-pos walk.purpose walk.level)))
  wake_in-Lowers (State.commit_pending insn o pa) c token h =
      guarded-Lowers (token == commit_token) c _ (λ e. absurd cc)
  wake_in-Lowers (State.fetch_wait _ _) c token h = faulted-Lowers c _
  wake_in-Lowers (State.mem_wait _ _ _ _) c token h = faulted-Lowers c _
  wake_in-Lowers (State.walk_wait _ _) c token h = faulted-Lowers c _
  wake_in-Lowers (State.halted _) c token h = faulted-Lowers c _

  proceed-Lowers :
      {n : ℕ} (c : Rv32iCpu) (insn : Option ℕ) (s : Step) (pa : Option ℕ)
      → 8 ≤ n
      → Lowers n c (proceed ctx c insn s pa)
  unfolding proceed rank
  proceed-Lowers c insn (Step.done o) pa h = ask-Lowers c _ _ (omega arith)
  proceed-Lowers c none (Step.memory plan) pa h = faulted-Lowers c _
  proceed-Lowers {n} c (some insn) (Step.memory plan) pa h =
      if-cases (Lowers n c) (translating c) (λ _. ask-Lowers c _ _ (omega arith))
        (λ _. ask-Lowers c _ _ (omega arith))

  executed-Lowers : (c : Rv32iCpu) (w : ℕ) (s : Option Step) → Lowers 8 c (executed ctx c w s)
  executed-Lowers c w none = faulted-Lowers c _
  executed-Lowers c w (some s) = proceed-Lowers c (some w) s none (omega arith)

  fetched-Lowers : (c : Rv32iCpu) (r : Result (Option ℕ) CpuFault) → Lowers 8 c (fetched ctx c r)
  fetched-Lowers c (err f) = faulted-Lowers c f
  fetched-Lowers c (ok none) = proceed-Lowers c none _ none (omega arith)
  fetched-Lowers c (ok (some w)) = executed-Lowers c w _

  completed-Lowers :
      (c : Rv32iCpu) (insn : ℕ) (pa : Option ℕ) (r : Result ExecOutcome MemoryCompletionError)
      → Lowers 2 c (completed ctx c insn pa r)
  unfolding proceed rank
  completed-Lowers c insn pa (err e) = faulted-Lowers c _
  completed-Lowers c insn pa (ok o) = ask-Lowers c _ _ (omega arith)

  walk_down-Lowers :
      (c : Rv32iCpu) (p : Purpose) (l t : ℕ) → Lowers (walk_rank p l) c (walk_down ctx c p l t)
  unfolding rank
  walk_down-Lowers c p zero t = faulted-Lowers c _
  walk_down-Lowers c Purpose.fetch (suc l) t = ask-Lowers c _ _ (omega arith)
  walk_down-Lowers c (Purpose.access insn plan) (suc l) t = ask-Lowers c _ _ (omega arith)

  walk_leaf-Lowers :
      (c : Rv32iCpu) (p : Purpose) (l pa : ℕ) → Lowers (walk_rank p l) c (walk_leaf ctx c p pa)
  unfolding rank
  walk_leaf-Lowers c Purpose.fetch l pa = ask-Lowers c _ _ (omega arith)
  walk_leaf-Lowers c (Purpose.access insn plan) l pa = ask-Lowers c _ _ (omega arith)

  walk_fault-Lowers :
      (c : Rv32iCpu) (w : Walk) (f : Fault)
      → Lowers (walk_rank w.purpose w.level) c (walk_fault ctx c w f)
  unfolding rank
  walk_fault-Lowers c w f = ask-Lowers c _ _ (omega arith, walk_rank-pos w.purpose w.level)

  walk_step-Lowers :
      (c : Rv32iCpu) (w : Walk) (s : Sv32.Step)
      → Lowers (walk_rank w.purpose w.level) c (walk_step ctx c w s)
  walk_step-Lowers c w (Sv32.Step.next t) = walk_down-Lowers c w.purpose w.level t
  walk_step-Lowers c w (Sv32.Step.leaf pa) = walk_leaf-Lowers c w.purpose w.level pa
  walk_step-Lowers c w Sv32.Step.page_fault = walk_fault-Lowers c w Fault.page

  walk_read-Lowers :
      (c : Rv32iCpu) (w : Walk) (r : Result (Option ℕ) CpuFault)
      → Lowers (walk_rank w.purpose w.level) c (walk_read ctx c w r)
  walk_read-Lowers c w (err f) = faulted-Lowers c f
  walk_read-Lowers c w (ok none) = walk_fault-Lowers c w Fault.access
  walk_read-Lowers c w (ok (some pte)) = walk_step-Lowers c w _

  respond-Lowers :
      (s : State) (c : Rv32iCpu) (msg : MemMsg) → Lowers (rank s) c (respond s ctx c msg)
  unfolding respond fetch_response mem_response walk_response rank
  respond-Lowers (State.fetch_wait _ _) c msg = fetched-Lowers c _
  respond-Lowers (State.mem_wait _ insn plan pa) c msg = completed-Lowers c insn pa _
  respond-Lowers (State.walk_wait _ w) c msg = walk_read-Lowers c w _
  respond-Lowers (State.fetch_issue _) c msg = faulted-Lowers c _
  respond-Lowers (State.mem_issue _ _ _) c msg = faulted-Lowers c _
  respond-Lowers (State.walk_issue _) c msg = faulted-Lowers c _
  respond-Lowers (State.commit_pending _ _ _) c msg = faulted-Lowers c _
  respond-Lowers (State.halted _) c msg = faulted-Lowers c _

  respond_to-Lowers :
      (o : Option ℕ) (c : Rv32iCpu) (txn : ℕ) (msg : MemMsg)
      → Lowers (rank c.state) c (respond_to o ctx c txn msg)
  respond_to-Lowers none c txn msg = faulted-Lowers c _
  respond_to-Lowers (some expected) c txn msg =
      refused-Lowers (txn != expected) c _
        (refused-Lowers (not ctx.in_complete) c _ (respond-Lowers c.state c msg))

  pub on_mem-Lowers : (c : Rv32iCpu) (msg : Message) → Lowers (rank c.state) c (on_mem ctx c msg)
  unfolding response
  on_mem-Lowers c (Message.mem txn msg) =
      refused-Lowers (is_request msg) c _ (respond_to-Lowers (outstanding c.state) c txn msg)
  on_mem-Lowers c (Message.level _) = faulted-Lowers c _
  on_mem-Lowers c Message.other = faulted-Lowers c _
