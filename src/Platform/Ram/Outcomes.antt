-- ===== src/Platform/Ram/Outcomes.antt =====
-- Each request to the RAM is handled as by a flat memory.
use systemscope.Base.{
  ℕ, ◌+◌, ◌^◌, ◌≤◌, ◌<◌, ◌≡◌, Bool, true, false, none, some, List, arith, length, leb, ◌==◌,
  Bool-cases, inl, inr,
}
use systemscope.Rv32i.Memory.{MemMsg, ReadOutcome, WriteOutcome}
use systemscope.Rv32i.Cpu.State.{MemReq}
use systemscope.Platform.Ram.{
  Ram, store, Access, Incoming, RamFault, Served, served, reply, ram_event,
}
use systemscope.Platform.Ram.Pages.{IsRam, byte_at, overlay}
use systemscope.Platform.Ram.Contents.{flat_bytes, load-flat_bytes, store-byte_at, size-store}
use systemscope.Platform.Ram.Serving.{
  first_byte, request_len, PayloadBytes, AccessLaws, ram_event-expected,
}

-- What a flat memory of as many bytes does with a request: the RAM after it, and the response.
pub data IsOutcome (r : Ram) : MemReq → Ram → MemMsg → Type 0 where
  reads :
      (addr len : ℕ)
      → addr + len ≤ r.size
      → IsOutcome r
          (MemReq.read addr len)
          r
          (MemMsg.read_resp (ReadOutcome.bytes_in (flat_bytes (byte_at r) addr len)))
  reads_beyond :
      (addr len : ℕ)
      → r.size < addr + len
      → IsOutcome r (MemReq.read addr len) r (MemMsg.read_resp ReadOutcome.access_fault)
  writes :
      (addr : ℕ) (payload : List ℕ) (r' : Ram)
      → addr + length payload ≤ r.size
      → r'.size ≡ r.size
      → ((a : ℕ) → byte_at r' a ≡ overlay addr payload a (byte_at r a))
      → IsOutcome r (MemReq.write addr payload) r' (MemMsg.write_resp WriteOutcome.done)
  writes_beyond :
      (addr : ℕ) (payload : List ℕ)
      → r.size < addr + length payload
      → IsOutcome r (MemReq.write addr payload) r (MemMsg.write_resp WriteOutcome.access_fault)

-- The handler left the RAM `r'`, and sent the response unless the runtime refused it.
pub data IsSent (refuses : ℕ × MemMsg → Bool) (r' : Ram) (txn : ℕ) (msg : MemMsg)
    : Served → Type 0 where
  sends :
      refuses (txn, msg) ≡ false
      → IsSent refuses r' txn msg (record { ram = r'; sent = some (txn, msg); fault = none })
  refused :
      refuses (txn, msg) ≡ true
      → IsSent refuses r' txn msg (record { ram = r'; sent = none; fault = some RamFault.refused })

pub data IsHandled (refuses : ℕ × MemMsg → Bool) (r : Ram) (txn : ℕ) (req : MemReq)
    : Served → Type 0 where
  empty :
      request_len req ≡ 0
      → IsHandled refuses r txn req
          (record { ram = r; sent = none; fault = some RamFault.zero_length })
  handled :
      (r' : Ram) (msg : MemMsg) (h : Served)
      → 0 < request_len req
      → IsOutcome r req r' msg
      → IsSent refuses r' txn msg h
      → IsHandled refuses r txn req h

reply-IsSent :
    (refuses : ℕ × MemMsg → Bool) (r : Ram) (txn : ℕ) (msg : MemMsg)
    → IsSent refuses r txn msg (reply refuses txn (r, msg))
reply-IsSent refuses r txn msg = elim (Bool-cases (refuses (txn, msg))) [
  | inl e ↦ rw e (IsSent.refused e)
  | inr e ↦ rw e (IsSent.sends e)
]

served-IsOutcome :
    (r : Ram) (req : MemReq)
    → IsRam r
    → PayloadBytes req
    → let (r', msg) = served r req (leb (first_byte req + request_len req) r.size) in
      IsOutcome r req r' msg
served-IsOutcome r (MemReq.read addr len) h p = elim (Bool-cases (leb (addr + len) r.size)) [
  | inl e ↦ rw (e, load-flat_bytes r addr len h) (IsOutcome.reads addr len (ground (arith, e)))
  | inr e ↦ rw e (IsOutcome.reads_beyond addr len (ground (arith, e)))
]
served-IsOutcome r (MemReq.write addr payload) h p =
    elim (Bool-cases (leb (addr + length payload) r.size)) [
      | inl e ↦ rw e (
          IsOutcome.writes addr payload (store r addr payload) (ground (arith, e))
            (size-store r addr payload) (λ a. store-byte_at r addr payload a h p))
      | inr e ↦ rw e (IsOutcome.writes_beyond addr payload (ground (arith, e)))
    ]

-- An empty request faults the session. Every other is handled as by a flat memory: one that ends
-- within the size gives the bytes, or puts the payload over them and changes no other byte, and
-- one beyond the size, also where its end passes 2 ^ 64, gives an access fault and changes nothing.
-- The response is sent, or the runtime's refusal is the fault. The RAM is well formed, its size is at
-- most 2 ^ 32, and bytes are written.
pub ram_event-IsHandled :
    (access : MemReq → Access) (refuses : ℕ × MemMsg → Bool) (r : Ram) (txn : ℕ) (req : MemReq)
    → AccessLaws access
    → r.size ≤ 2 ^ 32
    → IsRam r
    → PayloadBytes req
    → IsHandled refuses r txn req (ram_event access refuses r (Incoming.request txn req))
ram_event-IsHandled access refuses r txn req laws l h p = elim (Bool-cases (request_len req == 0)) [
  | inl e ↦
      rw (ram_event-expected access refuses r txn req laws l, e)
        (IsHandled.empty (ground (arith, e)))
  | inr e ↦
      let (r', msg) = served r req (leb (first_byte req + request_len req) r.size) in
      rw (ram_event-expected access refuses r txn req laws l, e)
        (IsHandled.handled r' msg _ (ground (arith, e)) (served-IsOutcome r req h p)
          (reply-IsSent refuses r' txn msg))
]
