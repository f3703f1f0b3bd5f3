-- ===== src/Rv32i/Cpu/Wf.antt =====
-- components/rv32i/src/cpu.rs: when a CPU is well formed.
pub mod Effects
pub mod Decoding
pub mod Csrs
pub mod Traps
pub mod Outcomes
pub mod Commits
pub mod Events
pub mod Keeps
pub mod Invariant
use systemscope.Base.{
  ℕ, suc, ◌+◌, ◌%◌, ◌^◌, ◌<◌, ◌≤◌, ◌≡◌, Bool, true, false, Option, none, some, List, All,
}
use systemscope.Rv32i.Execute.{RegWrite, ExecOutcome}
use systemscope.Rv32i.Memory.{MemoryPlan, MemMsg, ReadOutcome}
use systemscope.Rv32i.Regfile.{RegisterFile}
use systemscope.Rv32i.Csr.{CsrFile, is_supported}
use systemscope.Rv32i.Csr.Laws.{IsCsrFile}
use systemscope.Rv32i.Privilege.{M3State, m3_is_supported}
use systemscope.Rv32i.Privilege.Laws.{IsM3State}
use systemscope.Rv32i.Cpu.Isa.{Outcome, Step}
use systemscope.Rv32i.Cpu.State.{
  Rv32iProfile, Rv32iConfig, Rv32iCpu, State, Purpose, Walk, Call, SimContext, Handled,
}

abbrev pub IsWord : ℕ → Type 0
IsWord v = v < 2 ^ 32

-- An address of an instruction.
abbrev pub IsTarget : ℕ → Type 0
IsTarget pc = (pc % 4 ≡ 0) × (pc < 2 ^ 32)

abbrev pub IsWrite : Option RegWrite → Type 0
IsWrite none = Unit
IsWrite (some w) = IsWord w.value

abbrev pub IsExec : ExecOutcome → Type 0
IsExec (ExecOutcome.effect e) = IsWrite e.reg_write × IsTarget e.next_pc
IsExec (ExecOutcome.trap t) = IsWord t.tval

abbrev pub supports : Rv32iProfile → ℕ → Bool
supports Rv32iProfile.m3 number = m3_is_supported number
supports _ number = is_supported number

abbrev pub IsOutcome : Rv32iProfile → Outcome → Type 0
IsOutcome p (Outcome.exec o) = IsExec o
IsOutcome p (Outcome.csr op) = IsWord op.operand × IsTarget op.next_pc × (supports p op.csr ≡ true)
IsOutcome p Outcome.mret = Unit
IsOutcome p Outcome.sret = Unit

abbrev pub IsPlan : MemoryPlan → Type 0
IsPlan (MemoryPlan.load_plan l) = IsWord l.addr × IsTarget l.next_pc
IsPlan (MemoryPlan.store_plan s) = IsWord s.addr × IsTarget s.next_pc

abbrev pub IsStep : Rv32iProfile → Step → Type 0
IsStep p (Step.done o) = IsOutcome p o
IsStep p (Step.memory plan) = IsPlan plan

abbrev pub IsPurpose : Purpose → Type 0
IsPurpose Purpose.fetch = Unit
IsPurpose (Purpose.access insn plan) = IsPlan plan

abbrev pub IsWalk : Walk → Type 0
IsWalk w = IsPurpose w.purpose × (w.level ≤ 1)

-- `next` is the counter after the outstanding transaction `txn`.
abbrev pub IsLatest : ℕ → ℕ → Type 0
IsLatest txn next = next ≡ (txn + 1) % 2 ^ 64

-- What a state holds; a retiring outcome has its instruction word.
abbrev pub HasWord : Option ℕ → Outcome → Type 0
HasWord (some insn) o = Unit
HasWord none (Outcome.exec (ExecOutcome.trap t)) = Unit
HasWord none _ = ⊥

abbrev pub IsState : Rv32iProfile → ℕ → State → Type 0
IsState p next (State.fetch_issue pa) = Unit
IsState p next (State.fetch_wait txn pa) = IsLatest txn next
IsState p next (State.mem_issue insn plan pa) = IsPlan plan
IsState p next (State.mem_wait txn insn plan pa) = IsLatest txn next × IsPlan plan
IsState p next (State.walk_issue w) = IsWalk w
IsState p next (State.walk_wait txn w) = IsLatest txn next × IsWalk w
IsState p next (State.commit_pending insn o pa) = IsOutcome p o × HasWord insn o
IsState p next (State.halted h) = Unit

-- The count of retired instructions is below the limit until the CPU halts.
abbrev pub IsCount : State → ℕ → ℕ → Type 0
IsCount (State.halted h) n limit = n ≤ limit
IsCount _ n limit = n < limit

-- The CSRs of the supervisor that no other invariant bounds.
pub record AreWords (s : M3State) : Type 0 where
  pub sscratch_word : IsWord s.sscratch
  pub scause_word : IsWord s.scause
  pub stval_word : IsWord s.stval
  pub satp_word : IsWord s.satp

-- The architectural state, without the count.
pub record IsArch (c : Rv32iCpu) : Type 0 where
  pub pc_target : IsTarget c.pc
  pub regs_words : All IsWord c.regs.x
  pub csrs_legal : IsCsrFile c.csrs
  pub hart_legal : IsM3State c.m3
  pub hart_words : AreWords c.m3

-- `pc` is an aligned word, registers and CSRs are words in their legal values, the count is below
-- the limit, and the state holds what its next event needs: an outstanding transaction is the last
-- one sent, a walk is at level 0 or 1, and a pending outcome retires to an aligned word.
pub record IsCpu (c : Rv32iCpu) : Type 0 where
  pub arch : IsArch c
  pub limit_fits : c.config.max_instructions < 2 ^ 64
  pub txn_fits : c.next_txn < 2 ^ 64
  pub counts : IsCount c.state c.instret c.config.max_instructions
  pub holds : IsState c.config.profile c.next_txn c.state

-- A CPU between two states, that has not halted.
pub record IsLive (c : Rv32iCpu) : Type 0 where
  pub arch : IsArch c
  pub limit_fits : c.config.max_instructions < 2 ^ 64
  pub txn_fits : c.next_txn < 2 ^ 64
  pub below : c.instret < c.config.max_instructions

-- A runtime that refuses no call.
abbrev pub Grants : SimContext → Type 0
Grants ctx = (call : Call) → ctx.refuses call ≡ false

-- A handler left a well-formed CPU, and it succeeds where the runtime refuses no call.
pub record Holds (ctx : SimContext) (h : Handled) : Type 0 where
  pub keeps : IsCpu h.cpu
  pub proceeds : Grants ctx → h.fault ≡ none

-- The bytes of a response are bytes.
abbrev pub AreBytes : MemMsg → Type 0
AreBytes (MemMsg.read_resp (ReadOutcome.bytes_in l)) = All (λ b. b < 256) l
AreBytes _ = Unit
