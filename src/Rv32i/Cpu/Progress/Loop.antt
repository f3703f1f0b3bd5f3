-- ===== src/Rv32i/Cpu/Progress/Loop.antt =====
-- components/rv32i/src/cpu.rs: a runtime that answers each call brings the CPU to its next commit.
use systemscope.Base.{
  ℕ, zero, suc, ◌+◌, ◌^◌, ◌<◌, ◌≤◌, ◌≡◌, refl, Bool, true, false, Option, none, some, arith,
  Bool-cases, inl, inr,
}
use systemscope.Rv32i.Memory.{MemMsg}
use systemscope.Rv32i.Cpu.State.{Rv32iCpu, State, MemReq, Call, SimContext}
use systemscope.Rv32i.Cpu.Handlers.{handle_event}
use systemscope.Rv32i.Cpu.Protocol.{owed_in, owed}
use systemscope.Rv32i.Cpu.Rank.{rank, walk_rank-pos}
use systemscope.Rv32i.Cpu.Rank.Run.{Falls-handle_event, is_commit, weight}
use systemscope.Rv32i.Cpu.Wf.{IsCpu, Grants}
use systemscope.Rv32i.Cpu.Wf.Keeps.{CarriesBytes}
use systemscope.Rv32i.Cpu.Wf.Invariant.{handle_event-IsCpu}
use systemscope.Rv32i.Cpu.Reply.{IsReply, answer, IsReply-AreBytes}
use systemscope.Rv32i.Cpu.Progress.{handle_event-Accepts}

-- The CPUs that follow when each call is answered in turn, by a memory that replies.
pub data Answered (ctx : SimContext) (memory : MemReq → MemMsg) : Rv32iCpu → Rv32iCpu → Type 0 where
  here : {c : Rv32iCpu} → Answered ctx memory c c
  next :
      {c d : Rv32iCpu} (call : Call)
      → owed c ≡ some call
      → (handle_event ctx c (answer memory call)).fault ≡ none
      → Answered ctx memory (handle_event ctx c (answer memory call)).cpu d
      → Answered ctx memory c d

abbrev pub is_pending : State → Bool
is_pending (State.commit_pending _ _ _) = true
is_pending _ = false

abbrev pub is_halted : State → Bool
is_halted (State.halted _) = true
is_halted _ = false

-- A state that is neither pending nor halted waits on a call other than the commit's wake.
record Busy (memory : MemReq → MemMsg) (o : Option Call) : Type 0 where
  call : Call
  waits : o ≡ some call
  no_commit : is_commit (answer memory call) ≡ false
  weighs : weight (answer memory call) ≡ 1

busy :
    (memory : MemReq → MemMsg) (s : State) (c : Rv32iCpu)
    → is_pending s ≡ false
    → is_halted s ≡ false
    → Busy memory (owed_in s c)
unfolding owed_in
busy memory (State.fetch_issue _) c p h = record {
  call = _;
  waits = refl;
  no_commit = refl;
  weighs = refl;
}
busy memory (State.fetch_wait _ _) c p h = record {
  call = _;
  waits = refl;
  no_commit = refl;
  weighs = refl;
}
busy memory (State.mem_issue _ _ _) c p h = record {
  call = _;
  waits = refl;
  no_commit = refl;
  weighs = refl;
}
busy memory (State.mem_wait _ _ _ _) c p h = record {
  call = _;
  waits = refl;
  no_commit = refl;
  weighs = refl;
}
busy memory (State.walk_issue _) c p h = record {
  call = _;
  waits = refl;
  no_commit = refl;
  weighs = refl;
}
busy memory (State.walk_wait _ _) c p h = record {
  call = _;
  waits = refl;
  no_commit = refl;
  weighs = refl;
}
busy memory (State.commit_pending _ _ _) c p h = absurd cc
busy memory (State.halted _) c p h = absurd cc

answer-CarriesBytes :
    (memory : MemReq → MemMsg)
    → ((req : MemReq) → IsReply req (memory req))
    → (call : Call) → CarriesBytes (answer memory call)
answer-CarriesBytes memory r (Call.wake_next_cycle token) = tt
answer-CarriesBytes memory r Call.wake_commit = tt
answer-CarriesBytes memory r (Call.request txn req) = IsReply-AreBytes req (memory req) (r req)

pos-is_halted : (s : State) → 0 < rank s → is_halted s ≡ false
unfolding rank
pos-is_halted (State.halted _) h = absurd (omega arith)
pos-is_halted _ h = refl

rank-pos : (s : State) → is_halted s ≡ false → 0 < rank s
unfolding rank
rank-pos (State.walk_issue w) h = omega arith
rank-pos (State.walk_wait _ w) h = omega (arith, walk_rank-pos w.purpose w.level)
rank-pos (State.halted _) h = absurd cc
rank-pos _ h = omega arith

-- A well-formed CPU whose commit is pending.
pub record ReachesCommit (ctx : SimContext) (memory : MemReq → MemMsg) (c : Rv32iCpu) : Type 0 where
  pub last : Rv32iCpu
  pub run : Answered ctx memory c last
  pub pending : is_pending last.state ≡ true
  pub legal : IsCpu last

module _ (ctx : SimContext) (memory : MemReq → MemMsg) (grants : Grants ctx)
    (complete : ctx.in_complete ≡ true) (replies : (req : MemReq) → IsReply req (memory req)) where
  abbrev Reaches : Rv32iCpu → Type 0
  Reaches = ReachesCommit ctx memory

  -- One answered call, then the rest.
  after :
      (n : ℕ) (c : Rv32iCpu)
      → rank c.state ≤ suc n
      → IsCpu c
      → c.next_txn + suc n < 2 ^ 64
      → ((m : Rv32iCpu)
          → rank m.state ≤ n
          → IsCpu m
          → is_halted m.state ≡ false
          → m.next_txn + n < 2 ^ 64
          → Reaches m)
      → Busy memory (owed c)
      → Reaches c
  after n c r h room reaches b =
      let accepted =
        handle_event-Accepts ctx memory c b.call grants complete replies h (omega arith) b.waits in
      let (lower, sent, left) =
        (Falls-handle_event ctx c (answer memory b.call) b.no_commit).falls accepted in
      let one = b.weighs in
      let m = (handle_event ctx c (answer memory b.call)).cpu in
      let rest =
        reaches m (omega arith)
          (handle_event-IsCpu ctx c (answer memory b.call) h
            (answer-CarriesBytes memory replies b.call))
          (pos-is_halted m.state (omega arith)) (omega arith) in
      record {
        last = rest.last;
        run = next b.call b.waits accepted rest.run;
        pending = rest.pending;
        legal = rest.legal;
      }

  pending_or : (c : Rv32iCpu) → IsCpu c → (is_pending c.state ≡ false → Reaches c) → Reaches c
  pending_or c h rest = elim (Bool-cases (is_pending c.state)) [
    | inl p ↦ record { last = c; run = here; pending = p; legal = h }
    | inr p ↦ rest p
  ]

  reaches :
      (n : ℕ) (c : Rv32iCpu)
      → rank c.state ≤ n
      → IsCpu c
      → is_halted c.state ≡ false
      → c.next_txn + n < 2 ^ 64
      → Reaches c
  reaches zero c r h s room = absurd (let p = rank-pos c.state s in omega arith)
  reaches (suc n) c r h s room =
      pending_or c h (λ p. after n c r h room (reaches n) (busy memory c.state c p s))

-- From any state but a halt, a well-formed CPU reaches its next commit, well formed and without a
-- fault, when each call that it waits on is answered in turn: the wakes that it asked for, and the
-- replies of any memory that keeps to its contract, delivered in the `Complete` phase. The runtime
-- refuses no call, and as many transaction numbers are left as the state has events before it.
pub next_commit :
    (ctx : SimContext) (memory : MemReq → MemMsg) (c : Rv32iCpu)
    → Grants ctx
    → ctx.in_complete ≡ true
    → ((req : MemReq) → IsReply req (memory req))
    → IsCpu c
    → is_halted c.state ≡ false
    → c.next_txn + rank c.state < 2 ^ 64
    → ReachesCommit ctx memory c
next_commit ctx memory c grants i replies h s room =
    reaches ctx memory grants i replies (rank c.state) c (omega arith) h s room
