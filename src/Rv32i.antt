-- ===== src/Rv32i.antt =====
-- The RV32I hart of components/rv32i/src: its pure core.
mod Examples
pub mod Instr
pub mod Immediate
pub mod Decode
pub mod Execute
pub mod Memory
pub mod Regfile
pub mod Csr
pub mod Privilege
pub mod Sv32
pub mod Cpu
