-- ===== src/Rv32i/Cpu/Handlers.antt =====
-- components/rv32i/src/cpu.rs: the handlers of wakes, responses and interrupt levels.
use systemscope.Base.{
  ℕ, zero, suc, ◌+◌, ◌*◌, ◌^◌, Bool, true, false, not, Option, none, some, Result, ok, err, [], ◌∷◌,
  ◌==◌, ◌!=◌, if◌then◌else◌,
}
use systemscope.Rv32i.Execute.{TrapCause, ExecOutcome}
use systemscope.Rv32i.Memory.{
  MemoryCompletionError, MemoryPlan, MemMsg, ReadOutcome, bytes, complete_memory,
}
use systemscope.Rv32i.Privilege.{root}
use systemscope.Rv32i.Sv32
use systemscope.Rv32i.Sv32.{Fault, fault_cause, pte_address}
use systemscope.Rv32i.Cpu.Isa.{Outcome, Step, step}
use systemscope.Rv32i.Cpu.State.{
  Rv32iProfile, Rv32iCpu, State, Walk, Purpose, purpose_access, plan_addr, cpu_isa, translating,
  walk_va, CpuFault, MemReq, Call, SimContext, Handled, fetch_token, memory_token, commit_token,
  walk_token,
}
use systemscope.Rv32i.Cpu.Calls.{faulted, ask, send}
use systemscope.Rv32i.Cpu.Commit.{commit}

abbrev pub unwrap_or : Option ℕ → ℕ → ℕ
unwrap_or (some a) d = a
unwrap_or none d = d

abbrev pub plan_request : MemoryPlan → ℕ → MemReq
plan_request (MemoryPlan.load_plan load) addr = MemReq.read addr (bytes load.width)
plan_request (MemoryPlan.store_plan store) addr = MemReq.write addr store.bytes_out

-- `wake` by state, for a token that fits or not.
unfoldable pub wake_in : State → SimContext → Rv32iCpu → ℕ → Handled
wake_in (State.fetch_issue pa) ctx c token =
    if token == fetch_token
    then send ctx c (MemReq.read (unwrap_or pa c.pc) 4) (λ txn. State.fetch_wait txn pa)
    else faulted c CpuFault.wake_mismatch
wake_in (State.mem_issue insn plan pa) ctx c token =
    if token == memory_token
    then send ctx c (plan_request plan (unwrap_or pa (plan_addr plan)))
        (λ txn. State.mem_wait txn insn plan pa)
    else faulted c CpuFault.wake_mismatch
wake_in (State.walk_issue walk) ctx c token =
    if token == walk_token
    then send ctx c (MemReq.read (pte_address walk.table (walk_va c walk) walk.level) 4)
        (λ txn. State.walk_wait txn walk)
    else faulted c CpuFault.wake_mismatch
wake_in (State.commit_pending insn outcome pa) ctx c token =
    if token == commit_token then commit ctx c insn outcome else faulted c CpuFault.wake_mismatch
wake_in _ ctx c token = faulted c CpuFault.wake_mismatch

unfoldable pub wake : SimContext → Rv32iCpu → ℕ → Handled
wake ctx c token = wake_in c.state ctx c token

-- The end of `response`: what the word or the access needs next. Only a fetched word can need
-- memory.
unfoldable pub proceed : SimContext → Rv32iCpu → Option ℕ → Step → Option ℕ → Handled
proceed ctx c insn (Step.done outcome) pa =
    ask ctx (record c { state = State.commit_pending insn outcome pa }) Call.wake_commit
proceed ctx c none (Step.memory plan) pa = faulted c CpuFault.unreachable
proceed ctx c (some insn) (Step.memory plan) pa =
    if translating c
    then ask ctx
        (record c {
          state =
              State.walk_issue
                (record { purpose = Purpose.access insn plan; level = 1; table = root c.m3 });
        })
        (Call.wake_next_cycle walk_token)
    else ask ctx (record c { state = State.mem_issue insn plan none })
        (Call.wake_next_cycle memory_token)

-- `u32::from_le_bytes`.
abbrev pub from_le_bytes : ℕ → ℕ → ℕ → ℕ → ℕ
from_le_bytes b0 b1 b2 b3 = b0 + b1 * 2 ^ 8 + b2 * 2 ^ 16 + b3 * 2 ^ 24

-- A read of one word: the word, `none` for an access fault, or the fault of the session.
abbrev pub read_word : CpuFault → CpuFault → MemMsg → Result (Option ℕ) CpuFault
read_word length kind (MemMsg.read_resp (ReadOutcome.bytes_in (b0 ∷ b1 ∷ b2 ∷ b3 ∷ []))) =
    ok (some (from_le_bytes b0 b1 b2 b3))
read_word length kind (MemMsg.read_resp (ReadOutcome.bytes_in _)) = err length
read_word length kind (MemMsg.read_resp ReadOutcome.access_fault) = ok none
read_word length kind _ = err kind

abbrev pub executed : SimContext → Rv32iCpu → ℕ → Option Step → Handled
executed ctx c word none = faulted c CpuFault.unreachable
executed ctx c word (some next) = proceed ctx c (some word) next none

abbrev pub fetched : SimContext → Rv32iCpu → Result (Option ℕ) CpuFault → Handled
fetched ctx c (err f) = faulted c f
fetched ctx c (ok none) =
    proceed ctx c none
      (Step.done (
        Outcome.exec
          (ExecOutcome.trap (record { cause = TrapCause.instruction_access_fault; tval = c.pc }))))
      none
fetched ctx c (ok (some word)) = executed ctx c word (step (cpu_isa c) word c.pc c.regs)

unfoldable pub fetch_response : SimContext → Rv32iCpu → MemMsg → Handled
fetch_response ctx c msg =
    fetched ctx c (read_word CpuFault.fetch_length CpuFault.fetch_write_response msg)

abbrev pub kept_pa : ExecOutcome → Option ℕ → Option ℕ
kept_pa (ExecOutcome.effect _) pa = pa
kept_pa (ExecOutcome.trap _) pa = none

abbrev pub completed :
    SimContext → Rv32iCpu → ℕ → Option ℕ → Result ExecOutcome MemoryCompletionError → Handled
completed ctx c insn pa (err e) = faulted c (CpuFault.completion e)
completed ctx c insn pa (ok outcome) =
    proceed ctx c (some insn) (Step.done (Outcome.exec outcome)) (kept_pa outcome pa)

unfoldable pub mem_response : SimContext → Rv32iCpu → ℕ → MemoryPlan → Option ℕ → MemMsg → Handled
mem_response ctx c insn plan pa msg = completed ctx c insn pa (complete_memory plan msg)

abbrev pub purpose_insn : Purpose → Option ℕ
purpose_insn Purpose.fetch = none
purpose_insn (Purpose.access insn _) = some insn

abbrev pub walk_fault : SimContext → Rv32iCpu → Walk → Fault → Handled
walk_fault ctx c walk fault =
    ask ctx
      (record c {
        state =
            State.commit_pending (purpose_insn walk.purpose)
              (Outcome.exec (
                ExecOutcome.trap (record {
                  cause = fault_cause fault (purpose_access walk.purpose);
                  tval = walk_va c walk;
                })))
              none;
      })
      Call.wake_commit

abbrev pub walk_leaf : SimContext → Rv32iCpu → Purpose → ℕ → Handled
walk_leaf ctx c Purpose.fetch pa =
    ask ctx (record c { state = State.fetch_issue (some pa) }) (Call.wake_next_cycle fetch_token)
walk_leaf ctx c (Purpose.access insn plan) pa =
    ask ctx (record c { state = State.mem_issue insn plan (some pa) })
      (Call.wake_next_cycle memory_token)

-- The next level; a pointer at level 0 would be the underflow of `level - 1`.
abbrev pub walk_down : SimContext → Rv32iCpu → Purpose → ℕ → ℕ → Handled
walk_down ctx c purpose zero table = faulted c CpuFault.unreachable
walk_down ctx c purpose (suc level) table =
    ask ctx
      (record c {
        state = State.walk_issue (record { purpose = purpose; level = level; table = table });
      })
      (Call.wake_next_cycle walk_token)

abbrev pub walk_step : SimContext → Rv32iCpu → Walk → Sv32.Step → Handled
walk_step ctx c walk (Sv32.Step.next table) = walk_down ctx c walk.purpose walk.level table
walk_step ctx c walk (Sv32.Step.leaf pa) = walk_leaf ctx c walk.purpose pa
walk_step ctx c walk Sv32.Step.page_fault = walk_fault ctx c walk Fault.page

abbrev pub walk_read : SimContext → Rv32iCpu → Walk → Result (Option ℕ) CpuFault → Handled
walk_read ctx c walk (err f) = faulted c f
walk_read ctx c walk (ok none) = walk_fault ctx c walk Fault.access
walk_read ctx c walk (ok (some pte)) = walk_step ctx c walk (
    Sv32.step
      (record {
        privilege = c.m3.privilege;
        sum = c.m3.sum;
        mxr = c.m3.mxr;
        access = purpose_access walk.purpose;
      })
      (walk_va c walk) walk.level pte)

unfoldable pub walk_response : SimContext → Rv32iCpu → Walk → MemMsg → Handled
walk_response ctx c walk msg =
    walk_read ctx c walk (read_word CpuFault.pte_length CpuFault.pte_write_response msg)

abbrev pub outstanding : State → Option ℕ
outstanding (State.fetch_wait txn _) = some txn
outstanding (State.mem_wait txn _ _ _) = some txn
outstanding (State.walk_wait txn _) = some txn
outstanding _ = none

abbrev pub is_request : MemMsg → Bool
is_request MemMsg.read_req = true
is_request MemMsg.write_req = true
is_request _ = false

-- The match on the waiting states.
unfoldable pub respond : State → SimContext → Rv32iCpu → MemMsg → Handled
respond (State.walk_wait txn walk) ctx c msg = walk_response ctx c walk msg
respond (State.fetch_wait txn pa) ctx c msg = fetch_response ctx c msg
respond (State.mem_wait txn insn plan pa) ctx c msg = mem_response ctx c insn plan pa msg
respond _ ctx c msg = faulted c CpuFault.unreachable

abbrev pub respond_to : Option ℕ → SimContext → Rv32iCpu → ℕ → MemMsg → Handled
respond_to none ctx c txn msg = faulted c CpuFault.no_transaction
respond_to (some expected) ctx c txn msg =
    if txn != expected
    then faulted c CpuFault.txn_not_outstanding
    else if not ctx.in_complete
    then faulted c CpuFault.outside_complete
    else respond c.state ctx c msg

unfoldable pub response : SimContext → Rv32iCpu → ℕ → MemMsg → Handled
response ctx c txn msg =
    if is_request msg
    then faulted c CpuFault.request_on_initiator
    else respond_to (outstanding c.state) ctx c txn msg

unfoldable pub irq : SimContext → Rv32iCpu → Bool → Handled
irq ctx c asserted =
    if not ctx.in_complete then faulted c CpuFault.irq_outside_complete else record {
      cpu = record c { csrs = record c.csrs { irq_level = asserted } };
      call = none;
      fault = none;
    }

-- What the runtime delivers. Ports are numbered; a message is of `mem.v1` with its `TxnId`, a
-- level of `irq.v0`, or of another protocol.
pub data Message : Type 0 where
  mem : (txn : ℕ) → MemMsg → Message
  level : Bool → Message
  other : Message

pub data Delivered : Type 0 where
  wake_token : (token : ℕ) → Delivered
  message : (port : ℕ) → Message → Delivered

abbrev pub on_mem : SimContext → Rv32iCpu → Message → Handled
on_mem ctx c (Message.mem txn msg) = response ctx c txn msg
on_mem ctx c _ = faulted c CpuFault.not_mem

abbrev pub on_irq : SimContext → Rv32iCpu → Message → Handled
on_irq ctx c (Message.level asserted) = irq ctx c asserted
on_irq ctx c _ = faulted c CpuFault.not_irq

abbrev pub on_port : Rv32iProfile → SimContext → Rv32iCpu → ℕ → Message → Handled
on_port Rv32iProfile.m1 ctx c port msg = on_mem ctx c msg
on_port _ ctx c port msg =
    if port == 0
    then on_mem ctx c msg
    else if port == 1
    then on_irq ctx c msg
    else faulted c CpuFault.unknown_port

unfoldable pub handle_event : SimContext → Rv32iCpu → Delivered → Handled
handle_event ctx c (Delivered.wake_token token) = wake ctx c token
handle_event ctx c (Delivered.message port msg) = on_port c.config.profile ctx c port msg
