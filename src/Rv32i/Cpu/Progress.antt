-- ===== src/Rv32i/Cpu/Progress.antt =====
-- components/rv32i/src/cpu.rs: the CPU accepts the answer to the call that it waits on, and reaches its
-- next commit.
pub mod Loop
use systemscope.Base.{
  ℕ, zero, suc, ◌+◌, ◌%◌, ◌^◌, ◌<◌, ◌≤◌, ◌≡◌, refl, sym, subst, ap, ◌∙◌, Bool, true, false, not,
  Option, none, some, Result, ok, err, arith, List, [], ◌∷◌, All, length, leb, ◌==◌, ◌!=◌,
  if◌then◌else◌, is_ok, Result-cases, Option-cases, inl, inr, subst_some,
}
use systemscope.Rv32i.Execute.{ExecOutcome}
use systemscope.Rv32i.Memory.{
  MemoryPlan, MemMsg, ReadOutcome, MemoryCompletionError, complete_memory,
}
use systemscope.Rv32i.Memory.Laws.{answers, is_ok-complete_memory}
use systemscope.Rv32i.Sv32.{pte_address}
use systemscope.Rv32i.Cpu.Isa.{Outcome}
use systemscope.Rv32i.Cpu.State.{
  Rv32iProfile, Rv32iCpu, State, Walk, CpuFault, MemReq, Call, SimContext, Handled, plan_addr,
  walk_va, fetch_token, memory_token, commit_token, walk_token,
}
use systemscope.Rv32i.Cpu.Calls.{faulted, advance, send_as, send}
use systemscope.Rv32i.Cpu.Handlers.{
  unwrap_or, plan_request, wake_in, wake, read_word, fetched, fetch_response, completed,
  mem_response, walk_read, walk_response, respond, respond_to, response, Message, Delivered, on_mem,
  on_port, handle_event, is_request, outstanding,
}
use systemscope.Rv32i.Cpu.Protocol.{owed_in, owed}
use systemscope.Rv32i.Cpu.Rank.{rank}
use systemscope.Rv32i.Cpu.Wf.{
  IsWord, IsExec, IsOutcome, HasWord, IsPlan, IsWalk, IsLatest, IsState, IsCount, IsCpu, IsLive,
  Grants, Holds, AreBytes,
}
use systemscope.Rv32i.Cpu.Wf.Effects.{Yields, Every}
use systemscope.Rv32i.Cpu.Wf.Commits.{commit-Holds}
use systemscope.Rv32i.Cpu.Wf.Events.{
  EachOk, complete_memory-IsExec, read_word-IsWord, send_as-Holds, fetched-Holds, completed-Holds,
  walk_read-Holds,
}
use systemscope.Rv32i.Cpu.Wf.Keeps.{IsCpu-IsLive, sent-IsCpu}
use systemscope.Rv32i.Cpu.Reply.{
  IsReply, answer, IsReply-AreBytes, IsReply-response, read_word-ok, plan_answered,
}

pub advance-Yields :
    (p : Rv32iProfile) (txn : ℕ)
    → txn + 1 < 2 ^ 64
    → Yields (λ n. n ≡ (txn + 1) % 2 ^ 64) (advance p txn)
advance-Yields Rv32iProfile.m1 txn h = refl
advance-Yields Rv32iProfile.m2 txn h = ground arith
advance-Yields Rv32iProfile.m3 txn h = ground arith

abbrev Accepts : Handled → Type 0
Accepts h = h.fault ≡ none

otherwise : (b : Bool) (x y : Handled) → b ≡ false → Accepts y → Accepts (if b then x else y)
otherwise true x y e a = absurd cc
otherwise false x y e a = a

module _ (ctx : SimContext) (grants : Grants ctx) (c : Rv32iCpu) (h : IsCpu c) where
  send-Accepts :
      (req : MemReq) (waiting : ℕ → State)
      → c.next_txn + 1 < 2 ^ 64
      → IsLive c
      → IsCount (waiting c.next_txn) c.instret c.config.max_instructions
      → IsState c.config.profile ((c.next_txn + 1) % 2 ^ 64) (waiting c.next_txn)
      → Accepts (send ctx c req waiting)
  unfolding send
  send-Accepts req waiting room l n k =
      (send_as-Holds ctx c l _ req waiting (advance-Yields c.config.profile c.next_txn room)
          (sent-IsCpu c (waiting c.next_txn) l n k) h).proceeds
        grants

  fetched-Accepts :
      (r : Result (Option ℕ) CpuFault)
      → IsLive c
      → EachOk (Every IsWord) r
      → is_ok r ≡ true
      → Accepts (fetched ctx c r)
  fetched-Accepts (ok o) l k e = (fetched-Holds ctx c l o k).proceeds grants
  fetched-Accepts (err f) l k e = absurd cc

  walk_read-Accepts :
      (w : Walk) (r : Result (Option ℕ) CpuFault)
      → IsLive c
      → IsWalk w
      → is_ok r ≡ true
      → Accepts (walk_read ctx c w r)
  walk_read-Accepts w (ok o) l k e = (walk_read-Holds ctx c l w o k).proceeds grants
  walk_read-Accepts w (err f) l k e = absurd cc

  completed-Accepts :
      (insn : ℕ) (pa : Option ℕ) (r : Result ExecOutcome MemoryCompletionError)
      → IsLive c
      → EachOk IsExec r
      → is_ok r ≡ true
      → Accepts (completed ctx c insn pa r)
  completed-Accepts insn pa (ok o) l k e = (completed-Holds ctx c l insn pa o k).proceeds grants
  completed-Accepts insn pa (err f) l k e = absurd cc

  response-Accepts :
      (txn : ℕ) (msg : MemMsg)
      → ctx.in_complete ≡ true
      → is_request msg ≡ false
      → outstanding c.state ≡ some txn
      → Accepts (respond c.state ctx c msg)
      → Accepts (response ctx c txn msg)
  unfolding response
  response-Accepts txn msg i q o a = otherwise (is_request msg) _ _ q (
      rw o (
        otherwise (txn != txn) _ _ (ground arith)
          (otherwise (not ctx.in_complete) _ _ (ap not i) a)))

  module _ (memory : MemReq → MemMsg) (replies : (req : MemReq) → IsReply req (memory req)) where
    sent_to :
        (txn : ℕ) (req : MemReq)
        → ctx.in_complete ≡ true
        → outstanding c.state ≡ some txn
        → Accepts (respond c.state ctx c (memory req))
        → Accepts (handle_event ctx c (answer memory (Call.request txn req)))
    unfolding handle_event
    sent_to txn req i o a =
        on_port_0 c.config.profile (
          response-Accepts txn (memory req) i (IsReply-response req (memory req) (replies req)) o a)
      where
        on_port_0 :
            (p : Rv32iProfile)
            → Accepts (response ctx c txn (memory req))
            → Accepts (on_port p ctx c 0 (Message.mem txn (memory req)))
        on_port_0 Rv32iProfile.m1 a = a
        on_port_0 Rv32iProfile.m2 a = a
        on_port_0 Rv32iProfile.m3 a = a

    AnsweredBy : Call → Type 0
    AnsweredBy call = Accepts (handle_event ctx c (answer memory call))

    woken :
        (token : ℕ) (s : State)
        → c.state ≡ s
        → Accepts (wake_in s ctx c token)
        → Accepts (handle_event ctx c (Delivered.wake_token token))
    unfolding handle_event wake
    woken token s e a = subst (λ t. Accepts (wake_in t ctx c token)) (sym e) a

    replied :
        (txn : ℕ) (req : MemReq) (s : State)
        → c.state ≡ s
        → outstanding s ≡ some txn
        → ctx.in_complete ≡ true
        → Accepts (respond s ctx c (memory req))
        → AnsweredBy (Call.request txn req)
    unfolding AnsweredBy
    replied txn req s e o i a =
        sent_to txn req i (ap outstanding e ∙ o)
          (subst (λ t. Accepts (respond t ctx c (memory req))) (sym e) a)

    bytes_of : (req : MemReq) → AreBytes (memory req)
    bytes_of req = IsReply-AreBytes req (memory req) (replies req)

    state-Accepts :
        (s : State)
        → c.state ≡ s
        → ctx.in_complete ≡ true
        → c.next_txn + 1 < 2 ^ 64
        → IsCount s c.instret c.config.max_instructions
        → IsState c.config.profile c.next_txn s
        → (call : Call) → owed_in s c ≡ some call
        → Accepts (handle_event ctx c (answer memory call))
    unfolding AnsweredBy wake_in respond fetch_response mem_response walk_response owed_in
    state-Accepts (State.fetch_issue pa) e i room b k call o = subst_some AnsweredBy o (
        woken fetch_token (State.fetch_issue pa) e
          (send-Accepts _ _ room (IsCpu-IsLive c h b) b refl))
    state-Accepts (State.mem_issue insn plan pa) e i room b k call o = subst_some AnsweredBy o (
        woken memory_token (State.mem_issue insn plan pa) e
          (send-Accepts _ _ room (IsCpu-IsLive c h b) b (refl, k)))
    state-Accepts (State.walk_issue walk) e i room b k call o = subst_some AnsweredBy o (
        woken walk_token (State.walk_issue walk) e
          (send-Accepts _ _ room (IsCpu-IsLive c h b) b (refl, k)))
    state-Accepts (State.commit_pending insn out pa) e i room b k call o = subst_some AnsweredBy o (
        woken commit_token (State.commit_pending insn out pa) e
          ((commit-Holds ctx c insn out (IsCpu-IsLive c h b) k.0 k.1).proceeds grants))
    state-Accepts (State.fetch_wait txn pa) e i room b k call o =
        let req = MemReq.read (unwrap_or pa c.pc) 4 in
        subst_some AnsweredBy o (
          replied txn req (State.fetch_wait txn pa) e refl i (
            fetched-Accepts _ (IsCpu-IsLive c h b)
              (read_word-IsWord _ _ (memory req) (bytes_of req))
              (read_word-ok _ _ (unwrap_or pa c.pc) (memory req) (replies req))))
    state-Accepts (State.mem_wait txn insn plan pa) e i room b k call o =
        let addr = unwrap_or pa (plan_addr plan) in
        let req = plan_request plan addr in
        subst_some AnsweredBy o (
          replied txn req (State.mem_wait txn insn plan pa) e refl i (
            completed-Accepts insn pa _ (IsCpu-IsLive c h b)
              (complete_memory-IsExec plan (memory req) k.1 (bytes_of req))
              (is_ok-complete_memory plan (memory req)
                ∙ plan_answered plan addr (memory req) (replies req))))
    state-Accepts (State.walk_wait txn walk) e i room b k call o =
        let req = MemReq.read (pte_address walk.table (walk_va c walk) walk.level) 4 in
        subst_some AnsweredBy o (
          replied txn req (State.walk_wait txn walk) e refl i (
            walk_read-Accepts walk _ (IsCpu-IsLive c h b) k.1 (
              read_word-ok _ _ (pte_address walk.table (walk_va c walk) walk.level) (memory req)
                (replies req))))
    state-Accepts (State.halted halt) e i room b k call o = absurd cc

-- A well-formed CPU accepts the answer to the call that its state waits on: the wake that it asked
-- for, or a reply that the contract of the memory allows to its request, delivered in the
-- `Complete` phase. The runtime refuses no call, and a transaction number is left.
pub handle_event-Accepts :
    (ctx : SimContext) (memory : MemReq → MemMsg) (c : Rv32iCpu) (call : Call)
    → Grants ctx
    → ctx.in_complete ≡ true
    → ((req : MemReq) → IsReply req (memory req))
    → IsCpu c
    → c.next_txn + 1 < 2 ^ 64
    → owed c ≡ some call
    → (handle_event ctx c (answer memory call)).fault ≡ none
handle_event-Accepts ctx memory c call grants i replies h room o =
    state-Accepts ctx grants c h memory replies c.state refl i room h.counts h.holds call o
