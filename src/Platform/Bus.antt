-- ===== src/Platform/Bus.antt =====
-- components/platform/src/bus.rs: the interconnect of one initiator. The map of outstanding requests
-- is a list of its entries.
pub mod New
pub mod Routing
pub mod Relay
mod Examples
use systemscope.Base.{
  ℕ, suc, ◌+◌, ◌-◌, ◌^◌, Bool, true, false, not, ◌&&◌, Option, none, some, Result, ok, err, List,
  [], ◌∷◌, ◌++◌, leb, ltb, ◌==◌, ◌!=◌, if◌then◌else◌, is_some, length, get_elem?,
}
use Prim.Native.String.{String}
use systemscope.Rv32i.Memory.{MemMsg, ReadOutcome, WriteOutcome}
use systemscope.Rv32i.Cpu.State.{MemReq}
use systemscope.Platform.Ram.{Access}

pub record Region : Type 0 where
  pub name : String
  pub base : ℕ
  pub size : ℕ

-- `Region::last`.
abbrev pub last : Region → ℕ
last r = r.base + (r.size - 1)

pub record Outstanding : Type 0 where
  pub region : ℕ
  pub write : Bool

pub record AddressBus : Type 0 where
  pub regions : List Region
  pub outstanding : List (ℕ × Outstanding)

abbrev pub holds : Region → ℕ → Bool
holds r first = leb r.base first && leb first (last r)

-- The `position` of the region that holds `first`, from index `i` on, with that region.
abbrev pub position : ℕ → List Region → ℕ → Option (ℕ × Region)
position i [] first = none
position i (r ∷ rs) first = if holds r first then some (i, r) else position (suc i) rs first

abbrev pub routed : ℕ → Option (ℕ × Region) → Option (ℕ × Region)
routed end_at none = none
routed end_at (some (i, r)) = if leb end_at (last r) then some (i, r) else none

-- `AddressBus::route`, with the region that it finds.
unfoldable pub route : List Region → ℕ → ℕ → Option (ℕ × Region)
route rs first end_at = routed end_at (position 0 rs first)

-- The map: `get`, `insert` of a new key, and `remove`.
abbrev pub find_txn : ℕ → List (ℕ × Outstanding) → Option Outstanding
find_txn txn [] = none
find_txn txn ((t, o) ∷ m) = if t == txn then some o else find_txn txn m

abbrev pub remove_txn : ℕ → List (ℕ × Outstanding) → List (ℕ × Outstanding)
remove_txn txn [] = []
remove_txn txn ((t, o) ∷ m) = if t == txn then m else (t, o) ∷ remove_txn txn m

pub data BusFault : Type 0 where
  response_on_cpu late_request reused_txn zero_length : BusFault
  request_on_region unknown_port unknown_txn wrong_region kind_mismatch : BusFault
  mem_v0_message non_mem_message unexpected_wake : BusFault
  refused : BusFault

-- What is delivered: on the CPU's port, on the port of the region at an index, or anything else.
pub data BusEvent : Type 0 where
  cpu_request : (txn : ℕ) → MemReq → BusEvent
  cpu_response : BusEvent
  on_region : (region txn : ℕ) → MemMsg → BusEvent
  mem_v0 non_mem wake : BusEvent

-- A send: to the port of a region in this tick's `Transfer`, or to the CPU in `Complete` or in the
-- phase of the handler.
pub data BusSend : Type 0 where
  to_region : (region txn : ℕ) → MemReq → BusSend
  to_cpu : (txn : ℕ) → MemMsg → BusSend
  to_cpu_in_phase : (txn : ℕ) → MemMsg → BusSend

-- The bus after a handler, what it sent, and its fault.
pub record Moved : Type 0 where
  pub bus : AddressBus
  pub sent : Option BusSend
  pub fault : Option BusFault

abbrev pub failed : AddressBus → BusFault → Moved
failed b f = record { bus = b; sent = none; fault = some f }

abbrev pub is_write : MemReq → Bool
is_write (MemReq.read addr len) = false
is_write (MemReq.write addr bytes) = true

-- `at_offset`.
abbrev pub at_offset : MemReq → ℕ → MemReq
at_offset (MemReq.read addr len) offset = MemReq.read offset len
at_offset (MemReq.write addr bytes) offset = MemReq.write offset bytes

abbrev pub fault_reply : MemReq → MemMsg
fault_reply (MemReq.read addr len) = MemMsg.read_resp ReadOutcome.access_fault
fault_reply (MemReq.write addr bytes) = MemMsg.write_resp WriteOutcome.access_fault

-- `response`'s kind of a message; `none` is a request.
abbrev pub response_write : MemMsg → Option Bool
response_write (MemMsg.read_resp r) = some false
response_write (MemMsg.write_resp r) = some true
response_write MemMsg.read_req = none
response_write MemMsg.write_req = none

abbrev pub is_empty : Access → Bool
is_empty Access.empty = true
is_empty Access.out_of_range = false
is_empty (Access.bytes first end_at) = false

abbrev pub located : ℕ → Option (ℕ × Region) → Option (ℕ × Region × ℕ)
located first none = none
located first (some (i, r)) = some (i, r, first)

abbrev pub target : List Region → Access → Option (ℕ × Region × ℕ)
target rs Access.empty = none
target rs Access.out_of_range = none
target rs (Access.bytes first end_at) = located first (route rs first end_at)

-- What the runtime refuses, and `MemMsg::access`.
module _ (access : MemReq → Access) (refuses : BusSend → Bool) where
  abbrev pub send : AddressBus → BusSend → Moved
  send b s =
      if refuses s
      then failed b BusFault.refused
      else record { bus = b; sent = some s; fault = none }

  abbrev pub forward : AddressBus → ℕ → MemReq → Option (ℕ × Region × ℕ) → Moved
  forward b txn req none = send b (BusSend.to_cpu txn (fault_reply req))
  forward b txn req (some (i, r, first)) =
      send
        (record b {
          outstanding = (txn, record { region = i; write = is_write req }) ∷ b.outstanding;
        })
        (BusSend.to_region i txn (at_offset req (first - r.base)))

  -- `request`, in the phase `Request` or in another.
  unfoldable pub bus_request : Bool → AddressBus → ℕ → MemReq → Moved
  bus_request in_request b txn req =
      if not in_request
      then failed b BusFault.late_request
      else if is_some (find_txn txn b.outstanding)
      then failed b BusFault.reused_txn
      else if is_empty (access req)
      then failed b BusFault.zero_length
      else forward b txn req (target b.regions (access req))

  abbrev pub respond : AddressBus → ℕ → ℕ → MemMsg → Bool → Option Outstanding → Moved
  respond b region txn msg write none = failed b BusFault.unknown_txn
  respond b region txn msg write (some o) =
      if o.region != region
      then failed b BusFault.wrong_region
      else if (if o.write then not write else write)
      then failed b BusFault.kind_mismatch
      else send (record b { outstanding = remove_txn txn b.outstanding })
          (BusSend.to_cpu_in_phase txn msg)

  -- The port is that of the region at index `region`, so its check is that of the index.
  abbrev pub checked_response : AddressBus → ℕ → ℕ → MemMsg → Option Bool → Moved
  checked_response b region txn msg none = failed b BusFault.request_on_region
  checked_response b region txn msg (some write) =
      if not (ltb region (length b.regions))
      then failed b BusFault.unknown_port
      else respond b region txn msg write (find_txn txn b.outstanding)

  -- `response`.
  unfoldable pub bus_response : AddressBus → ℕ → ℕ → MemMsg → Moved
  bus_response b region txn msg = checked_response b region txn msg (response_write msg)

  -- `handle_event`.
  unfoldable pub bus_event : Bool → AddressBus → BusEvent → Moved
  unfolding bus_request bus_response
  bus_event in_request b (BusEvent.cpu_request txn req) = bus_request in_request b txn req
  bus_event in_request b BusEvent.cpu_response = failed b BusFault.response_on_cpu
  bus_event in_request b (BusEvent.on_region region txn msg) = bus_response b region txn msg
  bus_event in_request b BusEvent.mem_v0 = failed b BusFault.mem_v0_message
  bus_event in_request b BusEvent.non_mem = failed b BusFault.non_mem_message
  bus_event in_request b BusEvent.wake = failed b BusFault.unexpected_wake
