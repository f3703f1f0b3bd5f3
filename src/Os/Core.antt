-- ===== src/Os/Core.antt =====
-- components/os/src/core.rs: the accesses of an operation and how completions advance it. A
-- configuration has the two addresses that this file reads.
mod Examples
pub mod Tiles
pub mod Advance
use systemscope.Base.{
  ℕ, zero, suc, ◌+◌, ◌-◌, ◌*◌, ◌/◌, ◌%◌, ◌^◌, Bool, Option, none, some, Result, ok, err, List, [],
  ◌∷◌, ◌++◌, length, take, drop, get_elem?, get_or, ltb, leb, ◌==◌, ◌!=◌, ◌&&◌, if◌then◌else◌,
}
use systemscope.Base.Word.{◌+%◌}

abbrev pub max_access : ℕ
max_access = 16

abbrev pub page : ℕ
page = 4096

abbrev pub script_byte : ℕ
script_byte = b'k'

abbrev pub shutdown_reason : ℕ
shutdown_reason = 1

abbrev pub frame_bytes : ℕ
frame_bytes = 0x98

abbrev pub frame_sepc : ℕ
frame_sepc = 0x7C

abbrev pub frame_action : ℕ
frame_action = 0x90

pub record KernelConfig : Type 0 where
  pub trap_frame : ℕ
  pub uart_tx : ℕ

pub data Op : Type 0 where
  script shutdown : Op

pub data Access : Type 0 where
  read : (addr len : ℕ) → Access
  write : (addr : ℕ) → (bytes : List ℕ) → Access

pub data Completion : Type 0 where
  bytes_read : List ℕ → Completion
  written : Completion

pub data CoreError : Type 0 where
  finished wrong_kind data_length : CoreError

pub record Operation : Type 0 where
  pub op : Op
  pub step : ℕ
  pub working : List ℕ

abbrev pub min_of : ℕ → ℕ → ℕ
min_of a b = if ltb b a then b else a

-- Where the chunk at `addr` ends: at the end, at its page's end, or after 16 bytes.
abbrev pub chunk_end : ℕ → ℕ → ℕ
chunk_end addr end_of = min_of (min_of end_of ((addr / page + 1) * page)) (addr + max_access)

-- The loop of `chunks`, with fuel: a round takes a byte at least, so the length is enough.
unfoldable pub chunk_loop : ℕ → ℕ → ℕ → List (ℕ × ℕ)
chunk_loop zero addr end_of = []
chunk_loop (suc fuel) addr end_of =
    let stop = chunk_end addr end_of in
    let rest = chunk_loop fuel stop end_of in
    if ltb addr end_of then (addr, stop - addr) ∷ rest else []

unfoldable pub chunks : ℕ → ℕ → List (ℕ × ℕ)
unfolding chunk_loop
chunks base len = chunk_loop len base (base + len)

-- `Operation::start`.
unfoldable pub start : KernelConfig → ℕ → Operation
start c value = record {
  op = if value == c.trap_frame then Op.script else Op.shutdown;
  step = 0;
  working = [];
}

abbrev pub frame_chunks : KernelConfig → List (ℕ × ℕ)
frame_chunks c = chunks c.trap_frame frame_bytes

abbrev pub shutdown_chunks : KernelConfig → List (ℕ × ℕ)
shutdown_chunks c = chunks (c.trap_frame + frame_action) 8

abbrev pub steps_of : Op → KernelConfig → ℕ
steps_of Op.script c = 2 * length (frame_chunks c) + 1
steps_of Op.shutdown c = length (shutdown_chunks c)

-- `Operation::steps`.
unfoldable pub steps : Operation → KernelConfig → ℕ
steps o c = steps_of o.op c

abbrev pub sum_lens : List (ℕ × ℕ) → ℕ
sum_lens [] = 0
sum_lens (c ∷ cs) = c.1 + sum_lens cs

abbrev pub data_len_of : Op → KernelConfig → ℕ → ℕ
data_len_of Op.script c step =
    if ltb step (length (frame_chunks c))
    then sum_lens (take step (frame_chunks c))
    else if ltb step (2 * length (frame_chunks c))
    then frame_bytes
    else 0
data_len_of Op.shutdown c step = 0

-- `Operation::data_len`.
unfoldable pub data_len : Operation → KernelConfig → ℕ
data_len o c = data_len_of o.op c o.step

unfoldable pub from_parts : KernelConfig → Op → ℕ → List ℕ → Option Operation
unfolding steps data_len
from_parts c op step working =
    let o : Operation = record { op = op; step = step; working = working } in
    if ltb step (steps o c) && (length working == data_len o c) then some o else none

abbrev pub le_bytes : ℕ → List ℕ
le_bytes v = v % 256 ∷ v / 2 ^ 8 % 256 ∷ v / 2 ^ 16 % 256 ∷ v / 2 ^ 24 % 256 ∷ []

-- The word in the four bytes from `at` on.
abbrev pub word_at : List ℕ → ℕ → ℕ
word_at l at =
    get_or l at 0
    + get_or l (at + 1) 0 * 2 ^ 8
    + get_or l (at + 2) 0 * 2 ^ 16
    + get_or l (at + 3) 0 * 2 ^ 24

-- The frame as it is written back. In a run the working data is a whole frame there, so no index is
-- out of range.
abbrev pub patched : List ℕ → List ℕ
patched frame =
    take frame_sepc frame
    ++ (le_bytes (word_at frame frame_sepc +% 4) ++ drop (frame_sepc + 4) frame)

abbrev pub read_of : Option (ℕ × ℕ) → Option Access
read_of none = none
read_of (some (addr, len)) = some (Access.read addr len)

-- The bytes of `whole`, which starts at `base`, in a chunk.
abbrev pub write_of : Option (ℕ × ℕ) → ℕ → List ℕ → Option Access
write_of none base whole = none
write_of (some (addr, len)) base whole =
    some (Access.write addr (take len (drop (addr - base) whole)))

abbrev pub access_of : Op → KernelConfig → ℕ → List ℕ → Option Access
access_of Op.script c step working =
    let cs = frame_chunks c in
    let n = length cs in
    if ltb step n
    then read_of (get_elem? cs step)
    else if ltb step (2 * n)
    then write_of (get_elem? cs (step - n)) c.trap_frame (patched working)
    else if step == 2 * n
    then some (Access.write c.uart_tx (script_byte ∷ []))
    else none
access_of Op.shutdown c step working =
    write_of (get_elem? (shutdown_chunks c) step) (c.trap_frame + frame_action)
      (le_bytes 1 ++ le_bytes shutdown_reason)

-- `Operation::access`.
unfoldable pub access : Operation → KernelConfig → Option Access
access o c = access_of o.op c o.step o.working

-- The match of an access and a completion: the working data after it.
abbrev pub answered : Access → Completion → List ℕ → Result (List ℕ) CoreError
answered (Access.read addr len) (Completion.bytes_read bytes) working =
    if length bytes != len then err CoreError.data_length else ok (working ++ bytes)
answered (Access.write addr bytes) Completion.written working = ok working
answered (Access.read addr len) Completion.written working = err CoreError.wrong_kind
answered (Access.write addr bytes) (Completion.bytes_read l) working = err CoreError.wrong_kind

abbrev pub next_step : Operation → KernelConfig → List ℕ → Operation
next_step o c working =
    let stepped = record o { step = suc o.step; working = working } in
    if length working != data_len stepped c then record stepped { working = [] } else stepped

abbrev pub complete_access :
    Operation → KernelConfig → Completion → Option Access → Result Operation CoreError
complete_access o c completion none = err CoreError.finished
complete_access o c completion (some a) = elim (answered a completion o.working) [
  | err e ↦ err e
  | ok working ↦ ok (next_step o c working)
]

-- `Operation::complete`; an error leaves the operation as it was.
unfoldable pub complete : Operation → KernelConfig → Completion → Result Operation CoreError
unfolding access data_len
complete o c completion = complete_access o c completion (access o c)

unfoldable pub is_finished : Operation → KernelConfig → Bool
unfolding steps
is_finished o c = leb (steps o c) o.step
