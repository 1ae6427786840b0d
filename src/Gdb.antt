-- ===== src/Gdb.antt =====
-- uhyve-gdb.c: the stub of the GDB remote protocol. Hexadecimal text, the packet layer, the
-- breakpoint lists and the registers.
pub mod Hex
pub mod Packet
pub mod Breakpoints
pub mod Registers
pub mod Scan
pub mod Commands
