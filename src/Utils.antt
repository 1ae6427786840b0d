-- ===== src/Utils.antt =====
-- utils.c: `pread_in_full` and the processor's frequency.
pub mod Pread
pub mod Frequency
