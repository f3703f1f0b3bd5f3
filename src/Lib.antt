-- ===== src/Lib.antt =====
-- SystemScope: a deterministic full-system simulator. Events are dispatched by a scheduler to
-- components; one component is an RV32I processor with machine and supervisor privilege and Sv32
-- paging, another a sparse RAM that answers the requests which a bus routes to it from the processor,
-- another a kernel model that owns the page frames and the processes and writes the page tables which
-- the processor's walk reads.
--
-- The files, with the code that each models:
-- - Base: numbers, lists, results, bit operations as arithmetic, and 32-bit words.
-- - Rv32i/Instr, Immediate, Decode: components/rv32i/src/instr.rs, immediate.rs and decode.rs.
--   Decode/Encode is an encoder that is independent of the decoder, Decode/Operands the ranges.
-- - Rv32i/Execute, Memory, Regfile: execute.rs, memory.rs and regfile.rs of the same crate.
-- - Rv32i/Csr, Privilege, Sv32: csr.rs, privilege.rs and sv32.rs of the same crate. Sv32/Pages states
--   what the privileged specification says of an entry, on its binary digits.
-- - Rv32i/Cpu: cpu.rs, the processor as a component. Cpu/Isa is the execution of one fetched word,
--   through the modules above; Cpu/State the execution states; Cpu/Calls, Commit and Handlers the
--   handlers of wakes, responses and interrupt levels. A handler takes what the runtime gives it and
--   the CPU, and returns the CPU, its call of the runtime and its fault.
-- - Os/Frames, Os/Pte: components/os/src/frames.rs and pte.rs, with perm_bits of image.rs. Os/Pte
--   stands on Rv32i/Sv32, since the one writes what the other reads.
-- - Os/Process: components/os/src/process.rs, with Region of space.rs, over the pool of Os/Frames.
--   Process/Check is `Processes::check`, Process/Table the invariant that it tests, and Process/Contexts
--   the contexts in the trap frame. Transitions, Endings and Admission are about the four operations.
-- - Os/Core: components/os/src/core.rs, with the offsets of config.rs. Os/Syscall: syscall.rs, whose
--   walk is set against Rv32i/Sv32 and whose chunks against Os/Core.
-- - Platform/Ram: components/platform/src/ram.rs, the memory that answers the processor's requests.
-- - Platform/Bus: components/platform/src/bus.rs, which routes requests to regions and relays the
--   responses. Bus/Relay sets it before memories of Platform/Ram.
-- - Runtime/Scheduler: runtime/src/scheduler.rs.
-- Each has its laws in the modules below it, and runs at concrete values in a module Examples.
--
-- A u32 or an i32 is its bit pattern, a natural number, and wrap-around is written out. A method on
-- `&mut self` returns the new value of the object beside its result, or nothing where it returns
-- early without a change. An outer `none` is a panic: a failed assertion of Frames::reserve, a
-- failed expect of Frames::release, a trap frame that is too short for a context, or an underflow of
-- the level of the Sv32 walk. The walk recurses on its level, which starts at 1, so no fuel is used.
-- The loops of the RAM run on as much fuel as there are bytes, since a round takes at least one; the
-- results are proved with that fuel. The loops that split a range or a buffer into chunks do
-- likewise. A method that may fail after it has changed the process table gives the table that it
-- leaves beside its result.
--
-- The processor has no loop: a handler runs once for each event. Its rank counts the events that a
-- state has before its commit, at most 13.
--
-- Parameters: `SimContext`, the runtime as a handler of the processor sees it: which calls it refuses
-- and whether the phase is `Complete`; of the RAM and the bus, which sends it refuses. A `TxnId`
-- stands beside its memory message. `read_pte` of the walk, which reads memory over the bus, is a
-- parameter, and so are the phases and the order of event keys of the scheduler, which the contracts
-- crate defines outside the repository. The record PhaseOrder has the documented order as its laws
-- (docs/m0-design.md, section 4.1). `MemMsg::access`, of that crate too, has its documented laws in
-- AccessLaws (docs/m1-design.md, section 4.2). The memory messages of that crate are modelled by the
-- cases that memory.rs matches. The scheduler's binary heap is the list of its entries in the order
-- in which they are popped.
--
-- Not modelled: the snapshots, inspection and traces of the processor (cpu.rs), of the RAM (ram.rs)
-- and of the bus (bus.rs), which only read or restore the state;
-- the kernel component, its address spaces and the operations of procop.rs, the other devices, the
-- ELF reader, topology and export, which are parts of their own; names and messages for traces; the
-- test harnesses.
pub mod Base
pub mod Rv32i
pub mod Os
pub mod Runtime
pub mod Platform
