-- ===== src/Rv32i/Cpu/Reply.antt =====
-- The replies that a memory may give to the requests of the CPU.
use systemscope.Base.{ℕ, ◌<◌, ◌≡◌, refl, true, false, arith, [], ◌∷◌, All, length, is_ok}
use systemscope.Rv32i.Memory.{MemoryPlan, MemMsg, ReadOutcome}
use systemscope.Rv32i.Memory.Laws.{answers}
use systemscope.Rv32i.Cpu.State.{CpuFault, MemReq, Call, commit_token}
use systemscope.Rv32i.Cpu.Handlers.{plan_request, read_word, Message, Delivered, is_request}
use systemscope.Rv32i.Cpu.Wf.{AreBytes}

-- What the contract of the memory allows in reply to a request.
abbrev pub IsReply : MemReq → MemMsg → Type 0
IsReply (MemReq.read addr len) (MemMsg.read_resp (ReadOutcome.bytes_in l)) =
    (length l ≡ len) × All (λ b. b < 256) l
IsReply (MemReq.read addr len) (MemMsg.read_resp ReadOutcome.access_fault) = Unit
IsReply (MemReq.write addr l) (MemMsg.write_resp r) = Unit
IsReply _ _ = ⊥

-- The event that answers a call, with a memory that replies.
abbrev pub answer : (MemReq → MemMsg) → Call → Delivered
answer memory (Call.wake_next_cycle token) = Delivered.wake_token token
answer memory Call.wake_commit = Delivered.wake_token commit_token
answer memory (Call.request txn req) = Delivered.message 0 (Message.mem txn (memory req))

pub IsReply-AreBytes : (req : MemReq) (msg : MemMsg) → IsReply req msg → AreBytes msg
IsReply-AreBytes (MemReq.read addr len) (MemMsg.read_resp (ReadOutcome.bytes_in l)) h = h.1
IsReply-AreBytes (MemReq.read addr len) (MemMsg.read_resp ReadOutcome.access_fault) h = tt
IsReply-AreBytes (MemReq.write addr l) (MemMsg.write_resp r) h = tt
IsReply-AreBytes (MemReq.read addr len) (MemMsg.write_resp r) h = absurd h
IsReply-AreBytes (MemReq.write addr l) (MemMsg.read_resp r) h = absurd h
IsReply-AreBytes _ MemMsg.read_req h = tt
IsReply-AreBytes _ MemMsg.write_req h = tt

pub IsReply-response : (req : MemReq) (msg : MemMsg) → IsReply req msg → is_request msg ≡ false
IsReply-response (MemReq.read addr len) MemMsg.read_req h = absurd h
IsReply-response (MemReq.read addr len) MemMsg.write_req h = absurd h
IsReply-response (MemReq.write addr l) MemMsg.read_req h = absurd h
IsReply-response (MemReq.write addr l) MemMsg.write_req h = absurd h
IsReply-response _ (MemMsg.read_resp r) h = refl
IsReply-response _ (MemMsg.write_resp r) h = refl

-- A reply to the read of one word is a word or an access fault.
pub read_word-ok :
    (x y : CpuFault) (addr : ℕ) (msg : MemMsg)
    → IsReply (MemReq.read addr 4) msg
    → is_ok (read_word x y msg) ≡ true
read_word-ok x y addr (MemMsg.read_resp ReadOutcome.access_fault) h = refl
read_word-ok x y addr (MemMsg.read_resp (ReadOutcome.bytes_in (b0 ∷ b1 ∷ b2 ∷ b3 ∷ []))) h = refl
read_word-ok x y addr (MemMsg.read_resp (ReadOutcome.bytes_in (b0 ∷ b1 ∷ b2 ∷ b3 ∷ b4 ∷ l))) h =
    absurd (let n = h.0 in omega arith)
read_word-ok x y addr (MemMsg.read_resp (ReadOutcome.bytes_in _)) h =
    absurd (let n = h.0 in omega arith)
read_word-ok x y addr _ h = absurd h

pub plan_answered :
    (plan : MemoryPlan) (addr : ℕ) (msg : MemMsg)
    → IsReply (plan_request plan addr) msg
    → answers plan msg ≡ true
plan_answered (MemoryPlan.load_plan l) addr (MemMsg.read_resp (ReadOutcome.bytes_in b)) h =
    let n = h.0 in ground arith
plan_answered (MemoryPlan.load_plan l) addr (MemMsg.read_resp ReadOutcome.access_fault) h = refl
plan_answered (MemoryPlan.store_plan s) addr (MemMsg.write_resp r) h = refl
plan_answered (MemoryPlan.load_plan l) addr (MemMsg.write_resp r) h = absurd h
plan_answered (MemoryPlan.store_plan s) addr (MemMsg.read_resp r) h = absurd h
plan_answered (MemoryPlan.load_plan l) addr MemMsg.read_req h = absurd h
plan_answered (MemoryPlan.load_plan l) addr MemMsg.write_req h = absurd h
plan_answered (MemoryPlan.store_plan l) addr MemMsg.read_req h = absurd h
plan_answered (MemoryPlan.store_plan l) addr MemMsg.write_req h = absurd h
