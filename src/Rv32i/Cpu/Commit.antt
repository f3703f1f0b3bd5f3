-- ===== src/Rv32i/Cpu/Commit.antt =====
-- components/rv32i/src/cpu.rs: the commit of a pending outcome, the only change of architectural state.
use systemscope.Base.{ℕ, ◌+◌, ◌%◌, ◌^◌, Option, none, some, Result, ok, err, leb, if◌then◌else◌}
use systemscope.Rv32i.Execute.{RegWrite, PendingTrap, ExecOutcome}
use systemscope.Rv32i.Regfile.{regfile_write}
use systemscope.Rv32i.Csr.{csr_apply, csr_mret, csr_mei_eligible, csr_take_mei}
use systemscope.Rv32i.Privilege.{
  m3_mret, m3_sret, m3_mei_eligible, m3_take_mei, take_exception, M3State,
}
use systemscope.Rv32i.Cpu.Isa.{Outcome, PendingCsr}
use systemscope.Rv32i.Cpu.State.{
  Rv32iProfile, Rv32iCpu, State, Halt, read_csr, write_csr, CpuFault, SimContext, Handled,
}
use systemscope.Rv32i.Cpu.Calls.{faulted, fetch_next}

abbrev pub stop : Rv32iCpu → Halt → Handled
stop c halt = record { cpu = record c { state = State.halted halt }; call = none; fault = none }

abbrev pub stop_on : Rv32iCpu → PendingTrap → Handled
stop_on c t = stop c (Halt.trap (record { cause = t.cause; pc = c.pc; tval = t.tval }))

abbrev pub delegated : SimContext → Rv32iCpu → PendingTrap → Option (M3State × ℕ) → Handled
delegated ctx c t none = stop_on c t
delegated ctx c t (some (hart, handler)) = fetch_next ctx (record c { m3 = hart; pc = handler })

abbrev pub trap_under : Rv32iProfile → SimContext → Rv32iCpu → PendingTrap → Handled
trap_under Rv32iProfile.m3 ctx c t = delegated ctx c t (take_exception c.m3 t.cause c.pc t.tval)
trap_under _ ctx c t = stop_on c t

-- `commit` of a trap.
unfoldable pub commit_trap : SimContext → Rv32iCpu → PendingTrap → Handled
commit_trap ctx c t = trap_under c.config.profile ctx c t

abbrev pub write_back : Option RegWrite → Rv32iCpu → Rv32iCpu
write_back none c = c
write_back (some w) c = record c { regs = regfile_write c.regs w.rd w.value }

-- What a CSR instruction leaves: the CPU, or the CPU as the error left it.
abbrev pub csr_done : Rv32iCpu → PendingCsr → ℕ → Option ℕ → Result Rv32iCpu (Rv32iCpu × CpuFault)
csr_done c op old none = err (c, CpuFault.unsupported_csr)
csr_done c op old (some stored) =
    ok (record c { regs = regfile_write c.regs op.rd old; pc = op.next_pc })

abbrev pub csr_stored :
    Rv32iCpu → PendingCsr → ℕ → Option Rv32iCpu → Result Rv32iCpu (Rv32iCpu × CpuFault)
csr_stored c op old none = err (c, CpuFault.unsupported_csr)
csr_stored c op old (some d) = csr_done d op old (read_csr d op.csr)

abbrev pub csr_loaded : Rv32iCpu → PendingCsr → Option ℕ → Result Rv32iCpu (Rv32iCpu × CpuFault)
csr_loaded c op none = err (c, CpuFault.unsupported_csr)
csr_loaded c op (some old) =
    if op.write
    then csr_stored c op old (write_csr c op.csr (csr_apply op.op old op.operand))
    else csr_done c op old (some old)

-- `commit_csr`.
unfoldable pub commit_csr : Rv32iCpu → PendingCsr → Result Rv32iCpu (Rv32iCpu × CpuFault)
commit_csr c op = csr_loaded c op (read_csr c op.csr)

abbrev pub mret_under : Rv32iProfile → Rv32iCpu → Rv32iCpu
mret_under Rv32iProfile.m3 c =
    let (hart, csrs, pc) = m3_mret c.m3 c.csrs in record c { m3 = hart; csrs = csrs; pc = pc }
mret_under _ c = let (csrs, pc) = csr_mret c.csrs in record c { csrs = csrs; pc = pc }

abbrev pub sret_of : Rv32iCpu → Rv32iCpu
sret_of c = let (hart, pc) = m3_sret c.m3 in record c { m3 = hart; pc = pc }

-- The effects of an outcome that retires; a trap is handled before.
unfoldable pub apply_outcome : Rv32iCpu → Outcome → Result Rv32iCpu (Rv32iCpu × CpuFault)
apply_outcome c (Outcome.exec (ExecOutcome.effect e)) =
    ok (record (write_back e.reg_write c) { pc = e.next_pc })
apply_outcome c (Outcome.exec (ExecOutcome.trap _)) = err (c, CpuFault.unreachable)
apply_outcome c (Outcome.csr op) = commit_csr c op
apply_outcome c Outcome.mret = ok (mret_under c.config.profile c)
apply_outcome c Outcome.sret = ok (sret_of c)

-- The interrupt sampling point.
abbrev pub sample_under : Rv32iProfile → Rv32iCpu → Rv32iCpu
sample_under Rv32iProfile.m1 c = c
sample_under Rv32iProfile.m2 c =
    if csr_mei_eligible c.csrs
    then (let (csrs, pc) = csr_take_mei c.csrs c.pc in record c { csrs = csrs; pc = pc })
    else c
sample_under Rv32iProfile.m3 c =
    if m3_mei_eligible c.m3 c.csrs
    then (let (hart, csrs, pc) = m3_take_mei c.m3 c.csrs c.pc in
        record c { m3 = hart; csrs = csrs; pc = pc })
    else c

-- `commit` after the effects: the count, the limit, the interrupt and the next fetch.
unfoldable pub retire : SimContext → Rv32iCpu → Handled
retire ctx c =
    let counted : Rv32iCpu = record c { instret = (c.instret + 1) % 2 ^ 64 } in
    if leb c.config.max_instructions counted.instret
    then stop counted Halt.instruction_limit
    else fetch_next ctx (sample_under c.config.profile counted)

abbrev pub applied : SimContext → Result Rv32iCpu (Rv32iCpu × CpuFault) → Handled
applied ctx (err (d, f)) = faulted d f
applied ctx (ok d) = retire ctx d

abbrev pub commit_retiring : SimContext → Rv32iCpu → Option ℕ → Outcome → Handled
commit_retiring ctx c none outcome = faulted c CpuFault.no_instruction
commit_retiring ctx c (some insn) outcome = applied ctx (apply_outcome c outcome)

-- `commit`. The word and the physical address are else used for traces only.
unfoldable pub commit : SimContext → Rv32iCpu → Option ℕ → Outcome → Handled
commit ctx c insn (Outcome.exec (ExecOutcome.trap t)) = commit_trap ctx c t
commit ctx c insn outcome = commit_retiring ctx c insn outcome
