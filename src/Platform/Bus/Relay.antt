-- ===== src/Platform/Bus/Relay.antt =====
-- A request and its response through the bus, and through the bus and the memories behind it.
use systemscope.Base.{
  ℕ, zero, suc, ◌+◌, ◌-◌, ◌^◌, ◌≤◌, ◌<◌, ◌≡◌, refl, sym, subst, Bool, true, false, not, Option,
  none, some, List, [], ◌∷◌, arith, leb, ltb, ◌==◌, ◌!=◌, get_elem?, length, Bool-cases,
  Option-cases, inl, inr, if◌then◌else◌, is_some,
}
use systemscope.Rv32i.Memory.{MemMsg, ReadOutcome}
use systemscope.Rv32i.Cpu.State.{MemReq}
use systemscope.Rv32i.Cpu.Reply.{IsReply}
use systemscope.Platform.Ram.{Ram, Access, Incoming, ram_event}
use systemscope.Platform.Ram.Pages.{IsRam}
use systemscope.Platform.Ram.Serving.{
  first_byte, request_len, PayloadBytes, AccessLaws, ram_event-IsServed,
}
use systemscope.Platform.Bus.{
  Region, Outstanding, AddressBus, BusSend, BusEvent, Moved, find_txn, route, target, located,
  respond, is_write, is_empty, at_offset, fault_reply, response_write, bus_event, bus_request,
  bus_response,
}
use systemscope.Platform.Bus.Routing.{route_sound}

get_elem?-bound {ℓ} :
    {A : Type ℓ} (xs : List A) (i : ℕ) (x : A) → get_elem? xs i ≡ some x → ltb i (length xs) ≡ true
get_elem?-bound [] i x e = absurd cc
get_elem?-bound (y ∷ xs) zero x e = ground arith
get_elem?-bound (y ∷ xs) (suc i) x e = ground (arith, get_elem?-bound xs i x e)

-- The bus with a request forwarded to the region at `i`.
abbrev pub awaiting : AddressBus → ℕ → ℕ → MemReq → AddressBus
awaiting b i txn req = record b {
  outstanding = (txn, record { region = i; write = is_write req }) ∷ b.outstanding;
}

-- The bus sent `m`, and is now `c`.
abbrev pub moved : AddressBus → BusSend → Moved
moved c m = record { bus = c; sent = some m; fault = none }

kind_eq : (req : MemReq) → (if is_write req then not (is_write req) else is_write req) ≡ false
kind_eq (MemReq.read addr len) = refl
kind_eq (MemReq.write addr payload) = refl

module _ (access : MemReq → Access) (refuses : BusSend → Bool)
    (sends : (m : BusSend) → refuses m ≡ false) where
  request-forwarded :
      (b : AddressBus) (txn : ℕ) (req : MemReq) (i first : ℕ) (r : Region)
      → is_some (find_txn txn b.outstanding) ≡ false
      → is_empty (access req) ≡ false
      → target b.regions (access req) ≡ some (i, r, first)
      → bus_event access refuses true b (BusEvent.cpu_request txn req)
        ≡ moved (awaiting b i txn req) (BusSend.to_region i txn (at_offset req (first - r.base)))
  unfolding bus_event bus_request
  request-forwarded b txn req i first r n e t =
      rw (n, e, t, sends (BusSend.to_region i txn (at_offset req (first - r.base)))) refl

  request-refused :
      (b : AddressBus) (txn : ℕ) (req : MemReq)
      → is_some (find_txn txn b.outstanding) ≡ false
      → is_empty (access req) ≡ false
      → target b.regions (access req) ≡ none
      → bus_event access refuses true b (BusEvent.cpu_request txn req)
        ≡ moved b (BusSend.to_cpu txn (fault_reply req))
  unfolding bus_event bus_request
  request-refused b txn req n e t = rw (n, e, t, sends (BusSend.to_cpu txn (fault_reply req))) refl

  response-relayed :
      (b : AddressBus) (phase : Bool) (txn : ℕ) (req : MemReq) (i : ℕ) (msg : MemMsg)
      → ltb i (length b.regions) ≡ true
      → response_write msg ≡ some (is_write req)
      → bus_event access refuses phase (awaiting b i txn req) (BusEvent.on_region i txn msg)
        ≡ moved b (BusSend.to_cpu_in_phase txn msg)
  unfolding bus_event bus_response
  response-relayed b phase txn req i msg l e =
      let own : (txn == txn) ≡ true = ground arith in
      let same : (i != i) ≡ false = ground arith in
      let kind : (if is_write req then not (is_write req) else is_write req) ≡ false =
        kind_eq req in
      let entry : Outstanding = record { region = i; write = is_write req } in
      let found : find_txn txn ((txn, entry) ∷ b.outstanding) ≡ some entry = rw (own) refl in
      let c = awaiting b i txn req in
      rw (e, l)
        (subst
          (λ o.
            respond access refuses c i txn msg (is_write req) o
            ≡ moved b (BusSend.to_cpu_in_phase txn msg))
          (sym found) (rw (same, kind, own, sends (BusSend.to_cpu_in_phase txn msg)) refl))

located-bound :
    (rs : List Region) (from end_at : ℕ) (i first : ℕ) (r : Region) (o : Option (ℕ × Region))
    → route rs from end_at ≡ o
    → located from o ≡ some (i, r, first)
    → ltb i (length rs) ≡ true
located-bound rs from end_at i first r none f e = absurd cc
located-bound rs from end_at i first r (some (j, s)) f e =
    let same : j ≡ i = cc in
    subst (λ j. ltb j (length rs) ≡ true) same
      (get_elem?-bound rs j s (route_sound rs from end_at j s f).at)

target-bound :
    (rs : List Region) (a : Access) (i first : ℕ) (r : Region)
    → target rs a ≡ some (i, r, first)
    → ltb i (length rs) ≡ true
target-bound rs Access.empty i first r e = absurd cc
target-bound rs Access.out_of_range i first r e = absurd cc
target-bound rs (Access.bytes from end_at) i first r e =
    located-bound rs from end_at i first r (route rs from end_at) refl e

is_empty-access :
    (access : MemReq → Access) (req : MemReq)
    → AccessLaws access
    → 0 < request_len req
    → is_empty (access req) ≡ false
is_empty-access access req laws n =
    elim (Bool-cases (leb (first_byte req + request_len req) (2 ^ 64))) [
      | inl f ↦ rw (laws.of_span req n (ground arith)) refl
      | inr f ↦ rw (laws.of_past req n (ground arith)) refl
    ]

fault_reply-IsReply : (req : MemReq) → IsReply req (fault_reply req)
fault_reply-IsReply (MemReq.read addr len) = tt
fault_reply-IsReply (MemReq.write addr payload) = tt

-- The reply to the request that a region gets is one to the request of the CPU.
at_offset-IsReply :
    (req : MemReq) (offset : ℕ) (msg : MemMsg)
    → IsReply (at_offset req offset) msg
    → IsReply req msg × (response_write msg ≡ some (is_write req))
at_offset-IsReply (MemReq.read addr len) o (MemMsg.read_resp (ReadOutcome.bytes_in l)) h = (h, refl)
at_offset-IsReply (MemReq.read addr len) o (MemMsg.read_resp ReadOutcome.access_fault) h =
    (tt, refl)
at_offset-IsReply (MemReq.write addr l) o (MemMsg.write_resp r) h = (tt, refl)
at_offset-IsReply (MemReq.read addr len) o (MemMsg.write_resp r) h = absurd h
at_offset-IsReply (MemReq.write addr l) o (MemMsg.read_resp r) h = absurd h
at_offset-IsReply (MemReq.read addr len) o MemMsg.read_req h = absurd h
at_offset-IsReply (MemReq.read addr len) o MemMsg.write_req h = absurd h
at_offset-IsReply (MemReq.write addr l) o MemMsg.read_req h = absurd h
at_offset-IsReply (MemReq.write addr l) o MemMsg.write_req h = absurd h

at_offset-PayloadBytes :
    (req : MemReq) (o : ℕ)
    → PayloadBytes req
    → 0 < request_len req
    → PayloadBytes (at_offset req o) × (0 < request_len (at_offset req o))
at_offset-PayloadBytes (MemReq.read addr len) o p n = (p, n)
at_offset-PayloadBytes (MemReq.write addr l) o p n = (p, n)

-- The answers of a bus with a RAM behind each region: the bus's own, or that of one RAM, after which
-- the bus is as it was.
pub data IsAnswered (access : MemReq → Access) (refuses : BusSend → Bool)
    (stops : ℕ × MemMsg → Bool) (rams : ℕ → Ram) (b : AddressBus) (txn : ℕ) (req : MemReq)
    : Type 0 where
  by_bus :
      (msg : MemMsg)
      → IsReply req msg
      → bus_event access refuses true b (BusEvent.cpu_request txn req)
        ≡ moved b (BusSend.to_cpu txn msg)
      → IsAnswered access refuses stops rams b txn req
  by_ram :
      (c : AddressBus) (i : ℕ) (asked : MemReq) (msg : MemMsg)
      → bus_event access refuses true b (BusEvent.cpu_request txn req)
        ≡ moved c (BusSend.to_region i txn asked)
      → (ram_event access stops (rams i) (Incoming.request txn asked)).sent ≡ some (txn, msg)
      → IsRam (ram_event access stops (rams i) (Incoming.request txn asked)).ram
      → ((phase : Bool)
          → bus_event access refuses phase c (BusEvent.on_region i txn msg)
            ≡ moved b (BusSend.to_cpu_in_phase txn msg))
      → IsReply req msg
      → IsAnswered access refuses stops rams b txn req

-- A request in its phase, of a transaction that is not outstanding and of at least one byte, is
-- answered with a reply that the CPU accepts: by the bus at once, or by the RAM behind one region,
-- whose reply the bus relays. The runtime refuses no send, and the RAMs are well formed.
pub bus_event-IsAnswered :
    (access : MemReq → Access) (refuses : BusSend → Bool) (stops : ℕ × MemMsg → Bool)
    (rams : ℕ → Ram) (b : AddressBus) (txn : ℕ) (req : MemReq)
    → AccessLaws access
    → ((m : BusSend) → refuses m ≡ false)
    → ((m : ℕ × MemMsg) → stops m ≡ false)
    → ((i : ℕ) → ((rams i).size ≤ 2 ^ 32) × IsRam (rams i))
    → PayloadBytes req
    → 0 < request_len req
    → is_some (find_txn txn b.outstanding) ≡ false
    → IsAnswered access refuses stops rams b txn req
bus_event-IsAnswered access refuses stops rams b txn req laws sends passes legal p n fresh =
    let some_byte = is_empty-access access req laws n in
    elim (Option-cases (target b.regions (access req))) [
      | inl t ↦
          IsAnswered.by_bus (fault_reply req) (fault_reply-IsReply req)
            (request-refused access refuses sends b txn req fresh some_byte t)
      | inr ((i, r, first), t) ↦
          let offset = first - r.base in
          let (p', n') = at_offset-PayloadBytes req offset p n in
          let (size, ram) = legal i in
          let done =
            ram_event-IsServed access stops (rams i) txn (at_offset req offset) laws passes size ram
              p' n' in
          let (replied, kind) = at_offset-IsReply req offset done.msg done.replied in
          IsAnswered.by_ram (awaiting b i txn req) i (at_offset req offset) done.msg
            (request-forwarded access refuses sends b txn req i first r fresh some_byte t)
            done.answered done.legal
            (λ phase.
              response-relayed access refuses sends b phase txn req i done.msg
                (target-bound b.regions (access req) i first r t) kind)
            replied
    ]
