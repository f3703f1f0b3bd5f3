-- ===== src/Rv32i/Cpu/State.antt =====
-- components/rv32i/src/cpu.rs: the CPU's state, and the calls that it makes of the runtime.
use systemscope.Base.{
  ℕ, ◌%◌, Bool, true, false, ◌&&◌, Option, none, some, Result, ok, err, List, ◌!=◌, if◌then◌else◌,
}
use systemscope.Rv32i.Execute.{TrapCause}
use systemscope.Rv32i.Memory.{MemoryPlan, MemoryCompletionError}
use systemscope.Rv32i.Regfile.{RegisterFile, regfile_new}
use systemscope.Rv32i.Csr.{CsrFile, csr_new, csr_read, csr_write}
use systemscope.Rv32i.Privilege.{M3State, m3_new, m3_read, m3_write, translates}
use systemscope.Rv32i.Sv32.{Access}
use systemscope.Rv32i.Cpu.Isa.{Isa, Outcome}

-- The wake tokens.
abbrev pub fetch_token : ℕ
fetch_token = 0

abbrev pub memory_token : ℕ
memory_token = 1

abbrev pub commit_token : ℕ
commit_token = 2

abbrev pub walk_token : ℕ
walk_token = 3

pub data Rv32iProfile : Type 0 where
  m1 m2 m3 : Rv32iProfile

-- `max_instructions` is a `NonZeroU64`. The clock only names when the wakes happen.
pub record Rv32iConfig : Type 0 where
  pub entry : ℕ
  pub max_instructions : ℕ
  pub profile : Rv32iProfile

pub data CpuConfigError : Type 0 where
  misaligned_entry : ℕ → CpuConfigError

pub record RvTrap : Type 0 where
  pub cause : TrapCause
  pub pc : ℕ
  pub tval : ℕ

pub data Halt : Type 0 where
  trap : RvTrap → Halt
  instruction_limit : Halt

pub data Purpose : Type 0 where
  fetch : Purpose
  access : (insn : ℕ) (plan : MemoryPlan) → Purpose

pub record Walk : Type 0 where
  pub purpose : Purpose
  pub level : ℕ
  pub table : ℕ

pub data State : Type 0 where
  fetch_issue : (pa : Option ℕ) → State
  fetch_wait : (txn : ℕ) (pa : Option ℕ) → State
  mem_issue : (insn : ℕ) (plan : MemoryPlan) (pa : Option ℕ) → State
  mem_wait : (txn insn : ℕ) (plan : MemoryPlan) (pa : Option ℕ) → State
  walk_issue : Walk → State
  walk_wait : (txn : ℕ) → Walk → State
  commit_pending : (insn : Option ℕ) (outcome : Outcome) (pa : Option ℕ) → State
  halted : Halt → State

-- `Purpose::access`.
abbrev pub purpose_access : Purpose → Access
purpose_access Purpose.fetch = Access.fetch
purpose_access (Purpose.access insn (MemoryPlan.load_plan _)) = Access.load
purpose_access (Purpose.access insn (MemoryPlan.store_plan _)) = Access.store

abbrev pub plan_addr : MemoryPlan → ℕ
plan_addr (MemoryPlan.load_plan load) = load.addr
plan_addr (MemoryPlan.store_plan store) = store.addr

pub record Rv32iCpu : Type 0 where
  pub config : Rv32iConfig
  pub pc : ℕ
  pub regs : RegisterFile
  pub instret : ℕ
  pub next_txn : ℕ
  pub state : State
  pub csrs : CsrFile
  pub m3 : M3State

unfoldable pub cpu_new : Rv32iConfig → Result Rv32iCpu CpuConfigError
unfolding regfile_new csr_new m3_new
cpu_new config =
    if config.entry % 4 != 0
    then err (CpuConfigError.misaligned_entry config.entry)
    else ok (record {
      config = config;
      pc = config.entry;
      regs = regfile_new;
      instret = 0;
      next_txn = 0;
      state = State.fetch_issue none;
      csrs = csr_new;
      m3 = m3_new;
    })

abbrev pub isa_of : Rv32iProfile → M3State → Isa
isa_of Rv32iProfile.m1 hart = Isa.m1
isa_of Rv32iProfile.m2 hart = Isa.m2
isa_of Rv32iProfile.m3 hart = Isa.m3 hart.privilege

unfoldable pub cpu_isa : Rv32iCpu → Isa
cpu_isa c = isa_of c.config.profile c.m3

abbrev pub is_m3 : Rv32iProfile → Bool
is_m3 Rv32iProfile.m3 = true
is_m3 _ = false

unfoldable pub translating : Rv32iCpu → Bool
translating c = is_m3 c.config.profile && translates c.m3

abbrev pub purpose_va : Purpose → ℕ → ℕ
purpose_va Purpose.fetch pc = pc
purpose_va (Purpose.access insn plan) pc = plan_addr plan

unfoldable pub walk_va : Rv32iCpu → Walk → ℕ
walk_va c walk = purpose_va walk.purpose c.pc

abbrev pub read_under : Rv32iProfile → Rv32iCpu → ℕ → Option ℕ
read_under Rv32iProfile.m3 c number = m3_read c.m3 c.csrs number
read_under _ c number = csr_read c.csrs number

unfoldable pub read_csr : Rv32iCpu → ℕ → Option ℕ
read_csr c number = read_under c.config.profile c number

abbrev pub with_csrs : Rv32iCpu → Option CsrFile → Option Rv32iCpu
with_csrs c (some csrs) = some (record c { csrs = csrs })
with_csrs c none = none

abbrev pub with_hart : Rv32iCpu → Option (M3State × CsrFile) → Option Rv32iCpu
with_hart c (some (hart, csrs)) = some (record c { m3 = hart; csrs = csrs })
with_hart c none = none

abbrev pub write_under : Rv32iProfile → Rv32iCpu → ℕ → ℕ → Option Rv32iCpu
write_under Rv32iProfile.m3 c number value = with_hart c (m3_write c.m3 c.csrs number value)
write_under _ c number value = with_csrs c (csr_write c.csrs number value)

unfoldable pub write_csr : Rv32iCpu → ℕ → ℕ → Option Rv32iCpu
write_csr c number value = write_under c.config.profile c number value

-- The session faults that the CPU raises. `refused` stands for the error of a call that the
-- runtime refused; `unreachable` for a panic.
pub data CpuFault : Type 0 where
  wake_mismatch request_on_initiator no_transaction txn_not_outstanding : CpuFault
  outside_complete fetch_length fetch_write_response : CpuFault
  pte_length pte_write_response no_instruction unsupported_csr txn_exhausted : CpuFault
  irq_outside_complete not_mem not_irq unknown_port refused unreachable : CpuFault
  completion : MemoryCompletionError → CpuFault

-- The requests of `mem.v1` that the CPU sends.
pub data MemReq : Type 0 where
  read : (addr len : ℕ) → MemReq
  write : (addr : ℕ) (bytes_out : List ℕ) → MemReq

-- The calls that the CPU makes of the runtime, but for traces: a wake at the next cycle's
-- `Request`, the wake at this tick's `Commit`, and a request sent on the `mem` port.
pub data Call : Type 0 where
  wake_next_cycle : (token : ℕ) → Call
  wake_commit : Call
  request : (txn : ℕ) → MemReq → Call

-- What the runtime gives a handler: whether the phase is `Complete`, and which calls it refuses.
pub record SimContext : Type 0 where
  pub in_complete : Bool
  pub refuses : Call → Bool

-- The CPU after a handler, the call that it made, and its fault.
pub record Handled : Type 0 where
  pub cpu : Rv32iCpu
  pub call : Option Call
  pub fault : Option CpuFault
