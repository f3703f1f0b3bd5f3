-- ===== src/Rv32i/Memory.antt =====
-- components/rv32i/src/memory.rs: the two halves of a load or store. `ReadOutcome`,
-- `WriteOutcome` and `MemMsg` of the contracts have the cases that the code's exhaustive matches
-- name; of a message only what the code reads is kept.
pub mod Laws
pub mod Prepared
use systemscope.Base.{
  ℕ, ◌+◌, ◌-◌, ◌*◌, ◌/◌, ◌%◌, ◌^◌, Option, none, some, Result, ok, err, List, [], ◌∷◌, length,
  bit_and, ◌!=◌, ltb, if◌then◌else◌,
}
use systemscope.Base.Word.{◌+%◌}
use systemscope.Rv32i.Instr.{Reg, LoadOp, StoreOp, Instr}
use systemscope.Rv32i.Execute.{RegWrite, PendingEffect, TrapCause, PendingTrap, ExecOutcome, writes}

pub data MemWidth : Type 0 where
  byte half word : MemWidth

-- `MemWidth::bytes`.
abbrev pub bytes : MemWidth → ℕ
bytes MemWidth.byte = 1
bytes MemWidth.half = 2
bytes MemWidth.word = 4

pub data LoadExtension : Type 0 where
  signed unsigned : LoadExtension

pub record LoadPlan : Type 0 where
  pub rd : Reg
  pub addr : ℕ
  pub width : MemWidth
  pub extension : LoadExtension
  pub next_pc : ℕ

pub record StorePlan : Type 0 where
  pub addr : ℕ
  pub bytes_out : List ℕ
  pub next_pc : ℕ

pub data MemoryPlan : Type 0 where
  load_plan : LoadPlan → MemoryPlan
  store_plan : StorePlan → MemoryPlan

pub data MemoryPrep : Type 0 where
  request : MemoryPlan → MemoryPrep
  misaligned : PendingTrap → MemoryPrep

pub data NotMemory : Type 0 where
  not_memory : NotMemory

abbrev pub load_width : LoadOp → MemWidth
load_width LoadOp.b = MemWidth.byte
load_width LoadOp.bu = MemWidth.byte
load_width LoadOp.h = MemWidth.half
load_width LoadOp.hu = MemWidth.half
load_width LoadOp.w = MemWidth.word

abbrev pub load_extension : LoadOp → LoadExtension
load_extension LoadOp.b = LoadExtension.signed
load_extension LoadOp.bu = LoadExtension.unsigned
load_extension LoadOp.h = LoadExtension.signed
load_extension LoadOp.hu = LoadExtension.unsigned
load_extension LoadOp.w = LoadExtension.signed

abbrev pub store_width : StoreOp → MemWidth
store_width StoreOp.b = MemWidth.byte
store_width StoreOp.h = MemWidth.half
store_width StoreOp.w = MemWidth.word

-- `&value.to_le_bytes()[..width.bytes()]`.
abbrev pub low_bytes : MemWidth → ℕ → List ℕ
low_bytes MemWidth.byte v = v % 256 ∷ []
low_bytes MemWidth.half v = v % 256 ∷ v / 2 ^ 8 % 256 ∷ []
low_bytes MemWidth.word v = v % 256 ∷ v / 2 ^ 8 % 256 ∷ v / 2 ^ 16 % 256 ∷ v / 2 ^ 24 % 256 ∷ []

-- The end of `prepare_memory`: a misaligned access traps, and no request is made.
unfoldable pub check_aligned : ℕ → MemWidth → TrapCause → MemoryPlan → MemoryPrep
check_aligned addr width cause plan =
    if bit_and addr (bytes width - 1) != 0
    then MemoryPrep.misaligned (record { cause = cause; tval = addr })
    else MemoryPrep.request plan

unfoldable pub prepare_memory : Instr → ℕ → ℕ → ℕ → Result MemoryPrep NotMemory
unfolding check_aligned
prepare_memory (Instr.load op rd _ offset) pc rs1 rs2 = ok (
    check_aligned (rs1 +% offset) (load_width op) TrapCause.load_address_misaligned (
      MemoryPlan.load_plan (record {
        rd = rd;
        addr = rs1 +% offset;
        width = load_width op;
        extension = load_extension op;
        next_pc = pc +% 4;
      })))
prepare_memory (Instr.store op _ _ offset) pc rs1 rs2 = ok (
    check_aligned (rs1 +% offset) (store_width op) TrapCause.store_address_misaligned (
      MemoryPlan.store_plan (record {
        addr = rs1 +% offset;
        bytes_out = low_bytes (store_width op) rs2;
        next_pc = pc +% 4;
      })))
prepare_memory _ pc rs1 rs2 = err not_memory

pub data MemoryCompletionError : Type 0 where
  data_length : (expected actual : ℕ) → MemoryCompletionError
  response_kind : MemoryCompletionError

pub data ReadOutcome : Type 0 where
  bytes_in : List ℕ → ReadOutcome
  access_fault : ReadOutcome

pub data WriteOutcome : Type 0 where
  done : WriteOutcome
  access_fault : WriteOutcome

pub data MemMsg : Type 0 where
  read_req write_req : MemMsg
  read_resp : ReadOutcome → MemMsg
  write_resp : WriteOutcome → MemMsg

-- `i32::from(b as i8) as u32` and `i32::from(h as i16) as u32`.
abbrev pub sign_extend_8 : ℕ → ℕ
sign_extend_8 b = if ltb b (2 ^ 7) then b else b + (2 ^ 32 - 2 ^ 8)

abbrev pub sign_extend_16 : ℕ → ℕ
sign_extend_16 h = if ltb h (2 ^ 15) then h else h + (2 ^ 32 - 2 ^ 16)

-- The match on width, extension and bytes; `none` is the last arm.
unfoldable pub assemble : MemWidth → LoadExtension → List ℕ → Option ℕ
assemble MemWidth.byte LoadExtension.signed (b ∷ []) = some (sign_extend_8 b)
assemble MemWidth.byte LoadExtension.unsigned (b ∷ []) = some b
assemble MemWidth.half LoadExtension.signed (b0 ∷ b1 ∷ []) = some (sign_extend_16 (b0 + b1 * 2 ^ 8))
assemble MemWidth.half LoadExtension.unsigned (b0 ∷ b1 ∷ []) = some (b0 + b1 * 2 ^ 8)
assemble MemWidth.word _ (b0 ∷ b1 ∷ b2 ∷ b3 ∷ []) =
    some (b0 + b1 * 2 ^ 8 + b2 * 2 ^ 16 + b3 * 2 ^ 24)
assemble _ _ _ = none

unfoldable pub complete_load : LoadPlan → ReadOutcome → Result ExecOutcome MemoryCompletionError
unfolding assemble
complete_load plan (ReadOutcome.bytes_in l) = elim (assemble plan.width plan.extension l) [
  | some value ↦ ok (ExecOutcome.effect (writes plan.rd value plan.next_pc))
  | none ↦ err (MemoryCompletionError.data_length (bytes plan.width) (length l))
]
complete_load plan ReadOutcome.access_fault =
    ok (ExecOutcome.trap (record { cause = TrapCause.load_access_fault; tval = plan.addr }))

unfoldable pub complete_store : StorePlan → WriteOutcome → ExecOutcome
complete_store plan WriteOutcome.done =
    ExecOutcome.effect (record { reg_write = none; next_pc = plan.next_pc })
complete_store plan WriteOutcome.access_fault =
    ExecOutcome.trap (record { cause = TrapCause.store_access_fault; tval = plan.addr })

unfoldable pub complete_memory : MemoryPlan → MemMsg → Result ExecOutcome MemoryCompletionError
unfolding complete_load complete_store
complete_memory (MemoryPlan.load_plan plan) (MemMsg.read_resp outcome) = complete_load plan outcome
complete_memory (MemoryPlan.store_plan plan) (MemMsg.write_resp outcome) =
    ok (complete_store plan outcome)
complete_memory _ _ = err MemoryCompletionError.response_kind
