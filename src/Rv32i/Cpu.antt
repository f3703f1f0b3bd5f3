-- ===== src/Rv32i/Cpu.antt =====
-- components/rv32i/src/cpu.rs: the CPU component.
pub mod Isa
pub mod State
pub mod Calls
pub mod Commit
pub mod Handlers
pub mod Protocol
pub mod Rank
pub mod Wf
pub mod Reply
pub mod Progress
mod Examples
