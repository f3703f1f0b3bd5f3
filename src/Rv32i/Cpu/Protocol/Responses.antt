-- ===== src/Rv32i/Cpu/Protocol/Responses.antt =====
-- components/rv32i/src/cpu.rs: each handler makes the call that its new state waits on.
use systemscope.Base.{
  ℕ, suc, zero, refl, false, ◌≡◌, Option, none, some, Result, ok, err, if-cases, ◌!=◌, not,
  if◌then◌else◌, ◌==◌,
}
use systemscope.Rv32i.Execute.{ExecOutcome}
use systemscope.Rv32i.Memory.{MemMsg, MemoryCompletionError}
use systemscope.Rv32i.Sv32
use systemscope.Rv32i.Sv32.{Fault, pte_address}
use systemscope.Rv32i.Cpu.Isa.{Step}
use systemscope.Rv32i.Cpu.State.{
  Rv32iProfile, Rv32iCpu, State, Walk, Purpose, translating, CpuFault, Call, SimContext, Handled,
}
use systemscope.Rv32i.Cpu.Calls.{faulted}
use systemscope.Rv32i.Cpu.Handlers.{
  wake, proceed, executed, fetched, fetch_response, completed, mem_response, walk_leaf, walk_down,
  walk_fault, walk_step, walk_read, walk_response, respond, respond_to, response, Message,
  Delivered, on_mem, on_irq, on_port, handle_event, is_request, outstanding,
}
use systemscope.Rv32i.Cpu.Protocol.{
  owed, owed_in, CallsOwed, faulted-CallsOwed, ask-CallsOwed, guarded, refused, wake_in-CallsOwed,
  is_level, carries_level,
}

module _ (ctx : SimContext) where
  proceed-CallsOwed :
      (c : Rv32iCpu) (insn : Option ℕ) (s : Step) (pa : Option ℕ)
      → CallsOwed (proceed ctx c insn s pa)
  unfolding proceed owed_in
  proceed-CallsOwed c insn (Step.done o) pa = ask-CallsOwed ctx _ _ refl
  proceed-CallsOwed c none (Step.memory plan) pa = faulted-CallsOwed c _
  proceed-CallsOwed c (some insn) (Step.memory plan) pa =
      if-cases CallsOwed (translating c) (λ _. ask-CallsOwed ctx _ _ refl)
        (λ _. ask-CallsOwed ctx _ _ refl)

  executed-CallsOwed : (c : Rv32iCpu) (w : ℕ) (s : Option Step) → CallsOwed (executed ctx c w s)
  executed-CallsOwed c w none = faulted-CallsOwed c _
  executed-CallsOwed c w (some s) = proceed-CallsOwed c (some w) s none

  fetched-CallsOwed : (c : Rv32iCpu) (r : Result (Option ℕ) CpuFault) → CallsOwed (fetched ctx c r)
  fetched-CallsOwed c (err f) = faulted-CallsOwed c f
  fetched-CallsOwed c (ok none) = proceed-CallsOwed c none _ none
  fetched-CallsOwed c (ok (some w)) = executed-CallsOwed c w _

  completed-CallsOwed :
      (c : Rv32iCpu) (insn : ℕ) (pa : Option ℕ) (r : Result ExecOutcome MemoryCompletionError)
      → CallsOwed (completed ctx c insn pa r)
  completed-CallsOwed c insn pa (err e) = faulted-CallsOwed c _
  completed-CallsOwed c insn pa (ok o) = proceed-CallsOwed c (some insn) _ _

  walk_down-CallsOwed : (c : Rv32iCpu) (p : Purpose) (l t : ℕ) → CallsOwed (walk_down ctx c p l t)
  unfolding owed_in
  walk_down-CallsOwed c p zero t = faulted-CallsOwed c _
  walk_down-CallsOwed c p (suc l) t = ask-CallsOwed ctx _ _ refl

  walk_leaf-CallsOwed : (c : Rv32iCpu) (p : Purpose) (pa : ℕ) → CallsOwed (walk_leaf ctx c p pa)
  unfolding owed_in
  walk_leaf-CallsOwed c Purpose.fetch pa = ask-CallsOwed ctx _ _ refl
  walk_leaf-CallsOwed c (Purpose.access insn plan) pa = ask-CallsOwed ctx _ _ refl

  walk_fault-CallsOwed : (c : Rv32iCpu) (w : Walk) (f : Fault) → CallsOwed (walk_fault ctx c w f)
  unfolding owed_in
  walk_fault-CallsOwed c w f = ask-CallsOwed ctx _ _ refl

  walk_step-CallsOwed : (c : Rv32iCpu) (w : Walk) (s : Sv32.Step) → CallsOwed (walk_step ctx c w s)
  walk_step-CallsOwed c w (Sv32.Step.next t) = walk_down-CallsOwed c w.purpose w.level t
  walk_step-CallsOwed c w (Sv32.Step.leaf pa) = walk_leaf-CallsOwed c w.purpose pa
  walk_step-CallsOwed c w Sv32.Step.page_fault = walk_fault-CallsOwed c w Fault.page

  walk_read-CallsOwed :
      (c : Rv32iCpu) (w : Walk) (r : Result (Option ℕ) CpuFault) → CallsOwed (walk_read ctx c w r)
  walk_read-CallsOwed c w (err f) = faulted-CallsOwed c f
  walk_read-CallsOwed c w (ok none) = walk_fault-CallsOwed c w Fault.access
  walk_read-CallsOwed c w (ok (some pte)) = walk_step-CallsOwed c w _

  respond-CallsOwed : (s : State) (c : Rv32iCpu) (msg : MemMsg) → CallsOwed (respond s ctx c msg)
  unfolding respond fetch_response mem_response walk_response
  respond-CallsOwed (State.fetch_wait _ _) c msg = fetched-CallsOwed c _
  respond-CallsOwed (State.mem_wait _ insn plan pa) c msg = completed-CallsOwed c insn pa _
  respond-CallsOwed (State.walk_wait _ w) c msg = walk_read-CallsOwed c w _
  respond-CallsOwed (State.fetch_issue _) c msg = faulted-CallsOwed c _
  respond-CallsOwed (State.mem_issue _ _ _) c msg = faulted-CallsOwed c _
  respond-CallsOwed (State.walk_issue _) c msg = faulted-CallsOwed c _
  respond-CallsOwed (State.commit_pending _ _ _) c msg = faulted-CallsOwed c _
  respond-CallsOwed (State.halted _) c msg = faulted-CallsOwed c _

  respond_to-CallsOwed :
      (o : Option ℕ) (c : Rv32iCpu) (txn : ℕ) (msg : MemMsg)
      → CallsOwed (respond_to o ctx c txn msg)
  respond_to-CallsOwed none c txn msg = faulted-CallsOwed c _
  respond_to-CallsOwed (some expected) c txn msg =
      refused ctx (txn != expected) c _
        (refused ctx (not ctx.in_complete) c _ (respond-CallsOwed c.state c msg))

  pub response-CallsOwed :
      (c : Rv32iCpu) (txn : ℕ) (msg : MemMsg) → CallsOwed (response ctx c txn msg)
  unfolding response
  response-CallsOwed c txn msg =
      refused ctx (is_request msg) c _ (respond_to-CallsOwed (outstanding c.state) c txn msg)

  on_mem-CallsOwed : (c : Rv32iCpu) (msg : Message) → CallsOwed (on_mem ctx c msg)
  on_mem-CallsOwed c (Message.mem txn msg) = response-CallsOwed c txn msg
  on_mem-CallsOwed c (Message.level _) = faulted-CallsOwed c _
  on_mem-CallsOwed c Message.other = faulted-CallsOwed c _

  on_irq-CallsOwed :
      (c : Rv32iCpu) (msg : Message) → is_level msg ≡ false → CallsOwed (on_irq ctx c msg)
  on_irq-CallsOwed c (Message.mem txn msg) h = faulted-CallsOwed c _
  on_irq-CallsOwed c (Message.level _) h = absurd cc
  on_irq-CallsOwed c Message.other h = faulted-CallsOwed c _

  ports-CallsOwed :
      (c : Rv32iCpu) (port : ℕ) (msg : Message)
      → is_level msg ≡ false
      → CallsOwed (
          if port == 0
          then on_mem ctx c msg
          else if port == 1
          then on_irq ctx c msg
          else faulted c CpuFault.unknown_port)
  ports-CallsOwed c port msg h =
      if-cases CallsOwed (port == 0) (λ _. on_mem-CallsOwed c msg)
        (λ _. guarded ctx (port == 1) c _ (on_irq-CallsOwed c msg h))

  on_port-CallsOwed :
      (p : Rv32iProfile) (c : Rv32iCpu) (port : ℕ) (msg : Message)
      → is_level msg ≡ false
      → CallsOwed (on_port p ctx c port msg)
  on_port-CallsOwed Rv32iProfile.m1 c port msg h = on_mem-CallsOwed c msg
  on_port-CallsOwed Rv32iProfile.m2 c port msg h = ports-CallsOwed c port msg h
  on_port-CallsOwed Rv32iProfile.m3 c port msg h = ports-CallsOwed c port msg h

events-CallsOwed :
    (ctx : SimContext) (c : Rv32iCpu) (e : Delivered)
    → carries_level e ≡ false
    → CallsOwed (handle_event ctx c e)
unfolding handle_event wake
events-CallsOwed ctx c (Delivered.wake_token token) h = wake_in-CallsOwed ctx c.state c token
events-CallsOwed ctx c (Delivered.message port msg) h =
    on_port-CallsOwed ctx c.config.profile c port msg h

-- The call that a handler is to make: what its state waits on, or none when it fails.
abbrev pub due : Option CpuFault → Rv32iCpu → Option Call
due none c = owed c
due (some _) c = none

due-CallsOwed :
    (h : Handled) (f : Option CpuFault) → h.fault ≡ f → CallsOwed h → h.call ≡ due f h.cpu
due-CallsOwed h none e k = k.succeeds e
due-CallsOwed h (some f) e k = k.fails f e

-- A handler that succeeds, but for an interrupt level, made the one call whose event the CPU then
-- waits for: the wake at the next cycle of an issue state, the wake at this tick's commit of a
-- pending outcome, the request under the outstanding transaction of a wait state, and none when it
-- halted. A handler that fails made no call.
pub handle_event-call :
    (ctx : SimContext) (c : Rv32iCpu) (e : Delivered)
    → carries_level e ≡ false
    → let h = handle_event ctx c e in h.call ≡ due h.fault h.cpu
handle_event-call ctx c e k =
    due-CallsOwed (handle_event ctx c e) _ refl (events-CallsOwed ctx c e k)
