-- ===== src/Platform/Ram.antt =====
-- components/platform/src/ram.rs: the sparse memory. The map of pages is a function of the page index;
-- `Access` is of the contracts, and the latency only names when a response arrives.
pub mod Slices
pub mod Pages
pub mod Chunks
pub mod Loops
pub mod Contents
pub mod Canonical
pub mod Serving
pub mod Outcomes
pub mod New
pub mod Examples
pub use systemscope.Base.{drop}
use systemscope.Base.{
  ℕ, zero, suc, ◌+◌, ◌-◌, ◌*◌, ◌/◌, ◌%◌, ◌^◌, Bool, true, false, not, ◌&&◌, Option, none, some,
  List, [], ◌∷◌, ◌++◌, length, take, replicate, ltb, ◌==◌, if◌then◌else◌,
}
use systemscope.Rv32i.Memory.{MemMsg, ReadOutcome, WriteOutcome}
use systemscope.Rv32i.Cpu.State.{MemReq}

abbrev pub page_size : ℕ
page_size = 4096

pub record Ram : Type 0 where
  pub size : ℕ
  pub pages : ℕ → Option (List ℕ)

-- `copy_from_slice` into `page[start..start + chunk.len()]`.
abbrev pub splice : List ℕ → ℕ → List ℕ → List ℕ
splice page start chunk = take start page ++ (chunk ++ drop (start + length chunk) page)

abbrev pub all_zero : List ℕ → Bool
all_zero [] = true
all_zero (b ∷ l) = (b == 0) && all_zero l

-- `(PAGE_SIZE - start).min(left)`.
abbrev pub chunk_len : ℕ → ℕ → ℕ
chunk_len at left = let room = page_size - at % page_size in if ltb room left then room else left

abbrev pub page_bytes : Option (List ℕ) → ℕ → ℕ → List ℕ
page_bytes (some page) start n = take n (drop start page)
page_bytes none start n = replicate n 0

-- The loop of `load`, with fuel, from `at` with `left` bytes to go.
unfoldable pub load_loop : ℕ → Ram → ℕ → ℕ → List ℕ
load_loop zero r at left = []
load_loop (suc fuel) r at left =
    let n = chunk_len at left in
    let rest = load_loop fuel r (at + n) (left - n) in
    if left == 0 then [] else page_bytes (r.pages (at / page_size)) (at % page_size) n ++ rest

-- `load`. A round takes a byte at least, so the length is fuel enough.
unfoldable pub load : Ram → ℕ → ℕ → List ℕ
load r offset len = load_loop len r offset len

abbrev pub with_page : Ram → ℕ → Option (List ℕ) → Ram
with_page r index entry = record r { pages = λ k. if k == index then entry else r.pages k }

-- What the entry of a page becomes.
abbrev pub written : Option (List ℕ) → ℕ → List ℕ → Option (List ℕ)
written (some page) start chunk =
    if all_zero (splice page start chunk) then none else some (splice page start chunk)
written none start chunk =
    if all_zero chunk then none else some (splice (replicate page_size 0) start chunk)

abbrev pub put : Ram → ℕ → List ℕ → Ram
put r at chunk =
    with_page r (at / page_size) (written (r.pages (at / page_size)) (at % page_size) chunk)

-- The loop of `store`, with fuel.
unfoldable pub store_loop : ℕ → Ram → ℕ → List ℕ → Ram
store_loop zero r at payload = r
store_loop (suc fuel) r at payload =
    let n = chunk_len at (length payload) in
    let rest = store_loop fuel (put r at (take n payload)) (at + n) (drop n payload) in
    if length payload == 0 then r else rest

unfoldable pub store : Ram → ℕ → List ℕ → Ram
store r offset payload = store_loop (length payload) r offset payload

pub data Access : Type 0 where
  empty out_of_range : Access
  bytes : (first last : ℕ) → Access

-- What is delivered: a request or a response of `mem.v1`, or anything else.
pub data Incoming : Type 0 where
  request : (txn : ℕ) → MemReq → Incoming
  unasked_response other : Incoming

pub data RamFault : Type 0 where
  unexpected_delivery response_on_target zero_length refused : RamFault

-- The RAM after its handler, the response that it sent, and its fault.
pub record Served : Type 0 where
  pub ram : Ram
  pub sent : Option (ℕ × MemMsg)
  pub fault : Option RamFault

abbrev pub served : Ram → MemReq → Bool → Ram × MemMsg
served r (MemReq.read addr len) in_range = (
  r,
  MemMsg.read_resp
      (if in_range then ReadOutcome.bytes_in (load r addr len) else ReadOutcome.access_fault),
)
served r (MemReq.write addr payload) in_range =
    if in_range
    then (store r addr payload, MemMsg.write_resp WriteOutcome.done)
    else (r, MemMsg.write_resp WriteOutcome.access_fault)

abbrev pub reply : (ℕ × MemMsg → Bool) → ℕ → Ram × MemMsg → Served
reply refuses txn (r, msg) =
    if refuses (txn, msg)
    then record { ram = r; sent = none; fault = some RamFault.refused }
    else record { ram = r; sent = some (txn, msg); fault = none }

abbrev pub serve : (ℕ × MemMsg → Bool) → Ram → ℕ → MemReq → Access → Served
serve refuses r txn req Access.empty = record {
  ram = r;
  sent = none;
  fault = some RamFault.zero_length;
}
serve refuses r txn req Access.out_of_range = reply refuses txn (served r req false)
serve refuses r txn req (Access.bytes first last) =
    reply refuses txn (served r req (ltb last r.size))

-- `MemMsg::access`, and the sends that the runtime refuses.
module _ (access : MemReq → Access) (refuses : ℕ × MemMsg → Bool) where
  unfoldable pub ram_event : Ram → Incoming → Served
  unfolding load store
  ram_event r (Incoming.request txn req) = serve refuses r txn req (access req)
  ram_event r Incoming.unasked_response = record {
    ram = r;
    sent = none;
    fault = some RamFault.response_on_target;
  }
  ram_event r Incoming.other = record {
    ram = r;
    sent = none;
    fault = some RamFault.unexpected_delivery;
  }
