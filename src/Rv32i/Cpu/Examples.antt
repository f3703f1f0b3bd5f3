-- ===== src/Rv32i/Cpu/Examples.antt =====
-- The CPU on concrete inputs.
use systemscope.Base.{
  ℕ, zero, suc, ◌+◌, ◌<◌, ◌≤◌, ◌≡◌, refl, true, false, none, some, arith, List, [], ◌∷◌, All,
  replicate, length-replicate,
}
use systemscope.Rv32i.Execute.{ExecOutcome}
use systemscope.Rv32i.Memory.{MemMsg, ReadOutcome, WriteOutcome}
use systemscope.Rv32i.Regfile.{regfile_new}
use systemscope.Rv32i.Csr.{csr_new}
use systemscope.Rv32i.Privilege.{m3_new, m3_mei_eligible, translates}
use systemscope.Rv32i.Cpu.Isa.{Outcome}
use systemscope.Rv32i.Cpu.State.{
  Rv32iProfile, Rv32iConfig, Rv32iCpu, State, MemReq, Call, SimContext, cpu_new, fetch_token,
  translating,
}
use systemscope.Rv32i.Cpu.Calls.{fetch_next, send}
use systemscope.Rv32i.Cpu.Commit.{commit, apply_outcome, retire}
use systemscope.Rv32i.Cpu.Handlers.{Delivered, handle_event, wake, wake_in}
use systemscope.Rv32i.Cpu.Protocol.{owed_in}
use systemscope.Rv32i.Cpu.Protocol.Responses.{handle_event-call, due}
use systemscope.Rv32i.Cpu.Rank.{rank, Unchanged}
use systemscope.Rv32i.Cpu.Rank.Run.{run, weights, commit-run, handle_event-Unchanged}
use systemscope.Rv32i.Cpu.Wf.{IsCpu}
use systemscope.Rv32i.Cpu.Wf.Invariant.{cpu_new-IsCpu, handle_event-IsCpu}
use systemscope.Rv32i.Cpu.Reply.{IsReply}
use systemscope.Rv32i.Cpu.Progress.{handle_event-Accepts}
use systemscope.Rv32i.Cpu.Progress.Loop.{ReachesCommit, next_commit}

-- A runtime in its `Complete` phase that refuses nothing.
abbrev granting : SimContext
granting = record { in_complete = true; refuses = λ _. false }

abbrev boot : Rv32iConfig
boot = record { entry = 0x1000; max_instructions = 5; profile = Rv32iProfile.m3 }

abbrev fresh : Rv32iCpu
fresh = record {
  config = boot;
  pc = 0x1000;
  regs = regfile_new;
  instret = 0;
  next_txn = 0;
  state = State.fetch_issue none;
  csrs = csr_new;
  m3 = m3_new;
}

-- A memory of which every byte is 0x37: each word is `lui x14, 0x37373`.
abbrev filled : MemReq → MemMsg
filled (MemReq.read addr len) = MemMsg.read_resp (ReadOutcome.bytes_in (replicate len 0x37))
filled (MemReq.write addr l) = MemMsg.write_resp WriteOutcome.done

replicate-bytes : (n : ℕ) → All (λ b. b < 256) (replicate n 0x37)
replicate-bytes zero = tt
replicate-bytes (suc n) = (omega arith, replicate-bytes n)

filled-IsReply : (req : MemReq) → IsReply req (filled req)
filled-IsReply (MemReq.read addr len) = (length-replicate len 0x37, replicate-bytes len)
filled-IsReply (MemReq.write addr l) = tt

fresh-IsCpu : IsCpu fresh
unfolding cpu_new
fresh-IsCpu = (cpu_new-IsCpu boot (omega arith) (omega arith) (omega arith)).1

handle_event-call_example :
    let h = handle_event granting fresh (Delivered.wake_token 0) in h.call ≡ due h.fault h.cpu
handle_event-call_example = handle_event-call granting fresh (Delivered.wake_token 0) refl

handle_event-Unchanged_example :
    Unchanged fresh (handle_event granting fresh (Delivered.wake_token 0)).cpu
handle_event-Unchanged_example = handle_event-Unchanged granting fresh (Delivered.wake_token 0) refl

handle_event-IsCpu_example : IsCpu (handle_event granting fresh (Delivered.wake_token 0)).cpu
handle_event-IsCpu_example =
    handle_event-IsCpu granting fresh (Delivered.wake_token 0) fresh-IsCpu tt

handle_event-Accepts_example : (handle_event granting fresh (Delivered.wake_token 0)).fault ≡ none
unfolding owed_in
handle_event-Accepts_example =
    handle_event-Accepts granting filled fresh (Call.wake_next_cycle fetch_token) (λ _. refl) refl
      filled-IsReply fresh-IsCpu (omega arith) refl

next_commit_example : ReachesCommit granting filled fresh
unfolding rank
next_commit_example =
    next_commit granting filled fresh (λ _. refl) refl filled-IsReply fresh-IsCpu refl (omega arith)

-- The commit of an effect that goes on at 0x1004, and the issue of the next fetch.
abbrev go_on : Outcome
go_on = Outcome.exec (ExecOutcome.effect (record { reg_write = none; next_pc = 0x1004 }))

abbrev issue : List (SimContext × Delivered)
issue = (granting, Delivered.wake_token 0) ∷ []

abbrev waiting : Rv32iCpu
waiting = record fresh { pc = 0x1004; instret = 1; next_txn = 1; state = State.fetch_wait 0 none }

commit-run_example : rank waiting.state + weights issue ≤ 13
unfolding commit apply_outcome retire fetch_next translating run handle_event wake wake_in send
    m3_new csr_new m3_mei_eligible translates
commit-run_example = commit-run granting fresh (some 0x37373737) go_on refl issue waiting refl refl
