-- ===== src/Os.antt =====
-- components/os: the kernel model.
mod Examples
pub mod Core
pub mod Frames
pub mod Process
pub mod Pte
pub mod Syscall
