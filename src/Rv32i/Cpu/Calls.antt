-- ===== src/Rv32i/Cpu/Calls.antt =====
-- components/rv32i/src/cpu.rs: the calls that a handler of the CPU makes of the runtime. What a handler
-- does is its new state and at most one call.
use systemscope.Base.{ℕ, ◌+◌, ◌%◌, ◌^◌, Option, none, some, leb, if◌then◌else◌}
use systemscope.Rv32i.Privilege.{root}
use systemscope.Rv32i.Cpu.State.{
  Rv32iProfile, Rv32iCpu, State, Purpose, translating, CpuFault, MemReq, Call, SimContext, Handled,
  fetch_token, walk_token,
}

abbrev pub faulted : Rv32iCpu → CpuFault → Handled
faulted c f = record { cpu = c; call = none; fault = some f }

-- A last call of the runtime, whose error is the handler's.
abbrev pub ask : SimContext → Rv32iCpu → Call → Handled
ask ctx c call =
    if ctx.refuses call
    then faulted c CpuFault.refused
    else record { cpu = c; call = some call; fault = none }

-- `fetch_next`.
unfoldable pub fetch_next : SimContext → Rv32iCpu → Handled
fetch_next ctx c =
    if translating c
    then ask ctx
        (record c {
          state =
              State.walk_issue (record { purpose = Purpose.fetch; level = 1; table = root c.m3 });
        })
        (Call.wake_next_cycle walk_token)
    else ask ctx (record c { state = State.fetch_issue none }) (Call.wake_next_cycle fetch_token)

-- The next `TxnId`. In `M1` the addition wraps; the other profiles refuse it.
abbrev pub advance : Rv32iProfile → ℕ → Option ℕ
advance Rv32iProfile.m1 txn = some ((txn + 1) % 2 ^ 64)
advance _ txn = if leb (2 ^ 64) (txn + 1) then none else some (txn + 1)

abbrev pub send_as : Option ℕ → SimContext → Rv32iCpu → MemReq → (ℕ → State) → Handled
send_as none ctx c req waiting = faulted c CpuFault.txn_exhausted
send_as (some next) ctx c req waiting =
    if ctx.refuses (Call.request c.next_txn req) then faulted c CpuFault.refused else record {
      cpu = record c { next_txn = next; state = waiting c.next_txn };
      call = some (Call.request c.next_txn req);
      fault = none;
    }

-- `send`, and the state that waits for the response.
unfoldable pub send : SimContext → Rv32iCpu → MemReq → (ℕ → State) → Handled
send ctx c req waiting = send_as (advance c.config.profile c.next_txn) ctx c req waiting
