-- ===== src/Cpu.antt =====
-- uhyve-x86_64.c: the state of a CPU.
pub mod Segments
pub mod Features
pub mod State
pub mod Booted
mod Tests
