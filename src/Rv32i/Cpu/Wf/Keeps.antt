-- ===== src/Rv32i/Cpu/Wf/Keeps.antt =====
-- Each handler keeps the CPU well formed.
use systemscope.Base.{
  ℕ, ◌+◌, ◌%◌, ◌^◌, ◌<◌, ◌≡◌, ◌≢◌, refl, Bool, not, Option, none, some, Result, ok, err, arith,
  if-cases, ◌==◌, ◌!=◌, if◌then◌else◌,
}
use systemscope.Rv32i.Execute.{ExecOutcome}
use systemscope.Rv32i.Memory.{MemMsg, MemoryCompletionError}
use systemscope.Rv32i.Cpu.State.{
  Rv32iProfile, Rv32iConfig, CpuConfigError, Rv32iCpu, State, Walk, CpuFault, MemReq, SimContext,
  Handled, fetch_token, memory_token, commit_token, walk_token,
}
use systemscope.Rv32i.Cpu.Calls.{faulted, advance, send_as, send}
use systemscope.Rv32i.Cpu.Handlers.{
  wake_in, fetched, fetch_response, completed, mem_response, walk_read, walk_response, respond,
  respond_to, response, irq, Message, Delivered, on_mem, on_irq, on_port, is_request, outstanding,
}
use systemscope.Rv32i.Cpu.Wf.{IsWord, IsExec, IsWalk, IsState, IsCount, IsCpu, IsLive, AreBytes}
use systemscope.Rv32i.Cpu.Wf.Effects.{Every}
use systemscope.Rv32i.Cpu.Wf.Commits.{commit-Holds}
use systemscope.Rv32i.Cpu.Wf.Events.{
  EachOk, complete_memory-IsExec, read_word-IsWord, send_as-Holds, fetched-Holds, completed-Holds,
  walk_read-Holds,
}

abbrev pub Keeps : Handled → Type 0
Keeps h = IsCpu h.cpu

abbrev pub BytesIn : Message → Type 0
BytesIn (Message.mem txn msg) = AreBytes msg
BytesIn _ = Unit

abbrev pub CarriesBytes : Delivered → Type 0
CarriesBytes (Delivered.message port msg) = BytesIn msg
CarriesBytes (Delivered.wake_token token) = Unit

-- What `cpu_new` may give.
abbrev pub NewCpu : Rv32iConfig → Result Rv32iCpu CpuConfigError → Type 0
NewCpu config (ok c) = (config.entry % 4 ≡ 0) × IsCpu c
NewCpu config (err e) = config.entry % 4 ≢ 0

pub advance-Every :
    (p : Rv32iProfile) (txn : ℕ)
    → txn < 2 ^ 64
    → Every (λ n. n ≡ (txn + 1) % 2 ^ 64) (advance p txn)
advance-Every Rv32iProfile.m1 txn h = refl
advance-Every Rv32iProfile.m2 txn h = ground arith
advance-Every Rv32iProfile.m3 txn h = ground arith

pub IsCpu-IsLive : (c : Rv32iCpu) → IsCpu c → c.instret < c.config.max_instructions → IsLive c
IsCpu-IsLive c h b = record {
  arch = h.arch;
  limit_fits = h.limit_fits;
  txn_fits = h.txn_fits;
  below = b;
}

pub sent-IsCpu :
    (c : Rv32iCpu) (s : State)
    → IsLive c
    → IsCount s c.instret c.config.max_instructions
    → IsState c.config.profile ((c.next_txn + 1) % 2 ^ 64) s
    → IsCpu (record c { next_txn = (c.next_txn + 1) % 2 ^ 64; state = s })
sent-IsCpu c s l n k = record {
  arch = record {
    pc_target = l.arch.pc_target;
    regs_words = l.arch.regs_words;
    csrs_legal = l.arch.csrs_legal;
    hart_legal = l.arch.hart_legal;
    hart_words = l.arch.hart_words;
  };
  limit_fits = l.limit_fits;
  txn_fits = omega arith;
  counts = n;
  holds = k;
}

module _ (ctx : SimContext) (c : Rv32iCpu) (h : IsCpu c) where
  guarded-Keeps :
      (b : Bool) (f : CpuFault) (r : Handled) → Keeps r → Keeps (if b then r else faulted c f)
  guarded-Keeps b f r k = if-cases Keeps b (λ _. k) (λ _. h)

  refused-Keeps :
      (b : Bool) (f : CpuFault) (r : Handled) → Keeps r → Keeps (if b then faulted c f else r)
  refused-Keeps b f r k = if-cases Keeps b (λ _. h) (λ _. k)

  send_as-Keeps :
      (next : Option ℕ) (req : MemReq) (waiting : ℕ → State)
      → IsLive c
      → Every (λ n. n ≡ (c.next_txn + 1) % 2 ^ 64) next
      → IsCpu (record c { next_txn = (c.next_txn + 1) % 2 ^ 64; state = waiting c.next_txn })
      → Keeps (send_as next ctx c req waiting)
  send_as-Keeps none req waiting l y k = h
  send_as-Keeps (some n) req waiting l y k =
      (send_as-Holds ctx c l (some n) req waiting y k h).keeps

  send-Keeps :
      (req : MemReq) (waiting : ℕ → State)
      → IsLive c
      → IsCount (waiting c.next_txn) c.instret c.config.max_instructions
      → IsState c.config.profile ((c.next_txn + 1) % 2 ^ 64) (waiting c.next_txn)
      → Keeps (send ctx c req waiting)
  unfolding send
  send-Keeps req waiting l n k =
      send_as-Keeps _ req waiting l (advance-Every c.config.profile c.next_txn h.txn_fits)
        (sent-IsCpu c (waiting c.next_txn) l n k)

  pub wake_in-Keeps :
      (s : State) (token : ℕ)
      → IsCount s c.instret c.config.max_instructions
      → IsState c.config.profile c.next_txn s
      → Keeps (wake_in s ctx c token)
  unfolding wake_in
  wake_in-Keeps (State.fetch_issue pa) token b k =
      guarded-Keeps (token == fetch_token) _ _ (send-Keeps _ _ (IsCpu-IsLive c h b) b refl)
  wake_in-Keeps (State.mem_issue insn plan pa) token b k =
      guarded-Keeps (token == memory_token) _ _ (send-Keeps _ _ (IsCpu-IsLive c h b) b (refl, k))
  wake_in-Keeps (State.walk_issue walk) token b k =
      guarded-Keeps (token == walk_token) _ _ (send-Keeps _ _ (IsCpu-IsLive c h b) b (refl, k))
  wake_in-Keeps (State.commit_pending insn o pa) token b k =
      guarded-Keeps (token == commit_token) _ _
        (commit-Holds ctx c insn o (IsCpu-IsLive c h b) k.0 k.1).keeps
  wake_in-Keeps (State.fetch_wait _ _) token b k = h
  wake_in-Keeps (State.mem_wait _ _ _ _) token b k = h
  wake_in-Keeps (State.walk_wait _ _) token b k = h
  wake_in-Keeps (State.halted _) token b k = h

  fetched-Keeps :
      (r : Result (Option ℕ) CpuFault)
      → IsLive c
      → EachOk (Every IsWord) r
      → Keeps (fetched ctx c r)
  fetched-Keeps (err f) l k = h
  fetched-Keeps (ok o) l k = (fetched-Holds ctx c l o k).keeps

  completed-Keeps :
      (insn : ℕ) (pa : Option ℕ) (r : Result ExecOutcome MemoryCompletionError)
      → IsLive c
      → EachOk IsExec r
      → Keeps (completed ctx c insn pa r)
  completed-Keeps insn pa (err e) l k = h
  completed-Keeps insn pa (ok o) l k = (completed-Holds ctx c l insn pa o k).keeps

  walk_read-Keeps :
      (w : Walk) (r : Result (Option ℕ) CpuFault)
      → IsLive c
      → IsWalk w
      → Keeps (walk_read ctx c w r)
  walk_read-Keeps w (err f) l k = h
  walk_read-Keeps w (ok o) l k = (walk_read-Holds ctx c l w o k).keeps

  respond-Keeps :
      (s : State) (msg : MemMsg)
      → IsCount s c.instret c.config.max_instructions
      → IsState c.config.profile c.next_txn s
      → AreBytes msg
      → Keeps (respond s ctx c msg)
  unfolding respond fetch_response mem_response walk_response
  respond-Keeps (State.fetch_wait _ _) msg b k y =
      fetched-Keeps _ (IsCpu-IsLive c h b) (read_word-IsWord _ _ msg y)
  respond-Keeps (State.mem_wait _ insn plan pa) msg b k y =
      completed-Keeps insn pa _ (IsCpu-IsLive c h b) (complete_memory-IsExec plan msg k.1 y)
  respond-Keeps (State.walk_wait _ w) msg b k y = walk_read-Keeps w _ (IsCpu-IsLive c h b) k.1
  respond-Keeps (State.fetch_issue _) msg b k y = h
  respond-Keeps (State.mem_issue _ _ _) msg b k y = h
  respond-Keeps (State.walk_issue _) msg b k y = h
  respond-Keeps (State.commit_pending _ _ _) msg b k y = h
  respond-Keeps (State.halted _) msg b k y = h

  respond_to-Keeps :
      (o : Option ℕ) (txn : ℕ) (msg : MemMsg) → AreBytes msg → Keeps (respond_to o ctx c txn msg)
  respond_to-Keeps none txn msg y = h
  respond_to-Keeps (some expected) txn msg y =
      refused-Keeps (txn != expected) _ _
        (refused-Keeps (not ctx.in_complete) _ _ (respond-Keeps c.state msg h.counts h.holds y))

  on_mem-Keeps : (msg : Message) → BytesIn msg → Keeps (on_mem ctx c msg)
  unfolding response
  on_mem-Keeps (Message.mem txn msg) y =
      refused-Keeps (is_request msg) _ _ (respond_to-Keeps (outstanding c.state) txn msg y)
  on_mem-Keeps (Message.level _) y = h
  on_mem-Keeps Message.other y = h

  on_irq-Keeps : (msg : Message) → Keeps (on_irq ctx c msg)
  unfolding irq
  on_irq-Keeps (Message.mem txn msg) = h
  on_irq-Keeps Message.other = h
  on_irq-Keeps (Message.level b) = refused-Keeps (not ctx.in_complete) _ _ (record {
    arch = record {
      pc_target = h.arch.pc_target;
      regs_words = h.arch.regs_words;
      csrs_legal = (let f = h.arch.csrs_legal in ground arith);
      hart_legal = h.arch.hart_legal;
      hart_words = h.arch.hart_words;
    };
    limit_fits = h.limit_fits;
    txn_fits = h.txn_fits;
    counts = h.counts;
    holds = h.holds;
  })

  ports-Keeps :
      (port : ℕ) (msg : Message)
      → BytesIn msg
      → Keeps (
          if port == 0
          then on_mem ctx c msg
          else if port == 1
          then on_irq ctx c msg
          else faulted c CpuFault.unknown_port)
  ports-Keeps port msg y =
      if-cases Keeps (port == 0) (λ _. on_mem-Keeps msg y)
        (λ _. guarded-Keeps (port == 1) _ _ (on_irq-Keeps msg))

  pub on_port-Keeps :
      (p : Rv32iProfile) (port : ℕ) (msg : Message) → BytesIn msg → Keeps (on_port p ctx c port msg)
  on_port-Keeps Rv32iProfile.m1 port msg y = on_mem-Keeps msg y
  on_port-Keeps Rv32iProfile.m2 port msg y = ports-Keeps port msg y
  on_port-Keeps Rv32iProfile.m3 port msg y = ports-Keeps port msg y
