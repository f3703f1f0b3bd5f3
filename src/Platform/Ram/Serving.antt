-- ===== src/Platform/Ram/Serving.antt =====
-- Each request to the RAM is served within its size, and answered as the contract of the memory says.
use systemscope.Base.{
  ℕ, ◌+◌, ◌-◌, ◌^◌, ◌≤◌, ◌<◌, ◌≡◌, refl, Bool, true, false, none, some, arith, length, All, ltb,
  leb, ◌==◌, if◌then◌else◌, Bool-cases, inl, inr,
}
use systemscope.Rv32i.Memory.{MemMsg}
use systemscope.Rv32i.Cpu.State.{MemReq}
use systemscope.Rv32i.Cpu.Reply.{IsReply}
use systemscope.Platform.Ram.{
  Ram, Access, Incoming, RamFault, Served, served, reply, serve, ram_event,
}
use systemscope.Platform.Ram.Pages.{IsRam}
use systemscope.Platform.Ram.Contents.{store-IsRam, load-AreBytes}

abbrev pub first_byte : MemReq → ℕ
first_byte (MemReq.read addr len) = addr
first_byte (MemReq.write addr payload) = addr

abbrev pub request_len : MemReq → ℕ
request_len (MemReq.read addr len) = len
request_len (MemReq.write addr payload) = length payload

abbrev pub PayloadBytes : MemReq → Type 0
PayloadBytes (MemReq.read addr len) = Unit
PayloadBytes (MemReq.write addr payload) = All (λ b. b < 256) payload

-- `MemMsg::access` as it is documented (docs/m1-design.md, section 4.2): the range of a request is
-- computed with checked 64-bit arithmetic.
pub record AccessLaws (access : MemReq → Access) : Type 0 where
  pub of_none : (req : MemReq) → request_len req ≡ 0 → access req ≡ Access.empty
  pub of_past :
      (req : MemReq)
      → 0 < request_len req
      → 2 ^ 64 < first_byte req + request_len req
      → access req ≡ Access.out_of_range
  pub of_span :
      (req : MemReq)
      → 0 < request_len req
      → first_byte req + request_len req ≤ 2 ^ 64
      → access req ≡ Access.bytes (first_byte req) (first_byte req + request_len req - 1)

-- The cases of the handler, without its checks of the range.
abbrev pub expected : (ℕ × MemMsg → Bool) → Ram → ℕ → MemReq → Served
expected refuses r txn req =
    if request_len req == 0
    then record { ram = r; sent = none; fault = some RamFault.zero_length }
    else reply refuses txn (served r req (leb (first_byte req + request_len req) r.size))

module _ (access : MemReq → Access) (laws : AccessLaws access) (refuses : ℕ × MemMsg → Bool) where
  serve-expected :
      (r : Ram) (txn : ℕ) (req : MemReq)
      → r.size ≤ 2 ^ 32
      → serve refuses r txn req (access req) ≡ expected refuses r txn req
  serve-expected r txn req h = elim (Bool-cases (request_len req == 0)) [
    | inl e ↦ rw (laws.of_none req (ground arith), e) refl
    | inr e ↦ elim (Bool-cases (leb (first_byte req + request_len req) (2 ^ 64))) [
      | inl f ↦
          let within : ltb (first_byte req + request_len req - 1) r.size
              ≡ leb (first_byte req + request_len req) r.size =
            ground arith in
          rw (laws.of_span req (ground arith) (ground arith), e, within) refl
      | inr f ↦
          let beyond : leb (first_byte req + request_len req) r.size ≡ false = ground arith in
          rw (laws.of_past req (ground arith) (ground arith), e, beyond) refl
    ]
  ]

pub ram_event-expected :
    (access : MemReq → Access) (refuses : ℕ × MemMsg → Bool) (r : Ram) (txn : ℕ) (req : MemReq)
    → AccessLaws access
    → r.size ≤ 2 ^ 32
    → ram_event access refuses r (Incoming.request txn req) ≡ expected refuses r txn req
unfolding ram_event
ram_event-expected access refuses r txn req laws h = serve-expected access laws refuses r txn req h

-- The handler answered the request, and left a well-formed RAM.
pub record IsServed (txn : ℕ) (req : MemReq) (h : Served) : Type 0 where
  pub msg : MemMsg
  pub answered : h.sent ≡ some (txn, msg)
  pub replied : IsReply req msg
  pub legal : IsRam h.ram
  pub succeeds : h.fault ≡ none

served-IsServed :
    (refuses : ℕ × MemMsg → Bool) (r : Ram) (txn : ℕ) (req : MemReq) (b : Bool)
    → ((m : ℕ × MemMsg) → refuses m ≡ false)
    → IsRam r
    → PayloadBytes req
    → IsServed txn req (reply refuses txn (served r req b))
served-IsServed refuses r txn (MemReq.read addr len) true g h p =
    rw (g (txn, (served r (MemReq.read addr len) true).1)) (record {
      msg = _;
      answered = refl;
      replied = load-AreBytes r addr len h;
      legal = h;
      succeeds = refl;
    })
served-IsServed refuses r txn (MemReq.read addr len) false g h p =
    rw (g (txn, (served r (MemReq.read addr len) false).1))
      (record { msg = _; answered = refl; replied = tt; legal = h; succeeds = refl })
served-IsServed refuses r txn (MemReq.write addr payload) true g h p =
    rw (g (txn, (served r (MemReq.write addr payload) true).1)) (record {
      msg = _;
      answered = refl;
      replied = tt;
      legal = store-IsRam r addr payload h p;
      succeeds = refl;
    })
served-IsServed refuses r txn (MemReq.write addr payload) false g h p =
    rw (g (txn, (served r (MemReq.write addr payload) false).1))
      (record { msg = _; answered = refl; replied = tt; legal = h; succeeds = refl })

-- A well-formed RAM answers every request but an empty one with a reply that the CPU accepts, and
-- stays well formed. The runtime refuses no send, and a written payload is of bytes.
pub ram_event-IsServed :
    (access : MemReq → Access) (refuses : ℕ × MemMsg → Bool) (r : Ram) (txn : ℕ) (req : MemReq)
    → AccessLaws access
    → ((m : ℕ × MemMsg) → refuses m ≡ false)
    → r.size ≤ 2 ^ 32
    → IsRam r
    → PayloadBytes req
    → 0 < request_len req
    → IsServed txn req (ram_event access refuses r (Incoming.request txn req))
ram_event-IsServed access refuses r txn req laws g l h p n =
    let some_bytes : (request_len req == 0) ≡ false = ground arith in
    rw (ram_event-expected access refuses r txn req laws l, some_bytes)
      (served-IsServed refuses r txn req _ g h p)
