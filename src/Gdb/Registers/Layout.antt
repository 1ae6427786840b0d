-- ===== src/Gdb/Registers/Layout.antt =====
-- uhyve-gdb-x86_64.h: `struct uhyve_gdb_regs` in memory: 17 registers of 8 bytes and 7 of 4. The
-- floating-point registers behind them are bytes that are neither read nor written.
use hermit_caves.Base.{ℕ, ◌+◌, ◌*◌, List, ◌++◌, take, drop}
use hermit_caves.Syscalls.Wire.{bytes_of, word_of}
use hermit_caves.Gdb.Registers.{GdbRegs}

-- Where the fields that are copied end.
abbrev pub fields_size : ℕ
fields_size = 17 * 8 + 7 * 4

abbrev word64 : List ℕ → ℕ → ℕ
word64 bytes i = word_of (take 8 (drop (8 * i) bytes))

abbrev word32 : List ℕ → ℕ → ℕ
word32 bytes i = word_of (take 4 (drop (17 * 8 + 4 * i) bytes))

unfoldable pub regs_of_bytes : List ℕ → GdbRegs
regs_of_bytes bytes = record {
  rax = word64 bytes 0;
  rbx = word64 bytes 1;
  rcx = word64 bytes 2;
  rdx = word64 bytes 3;
  rsi = word64 bytes 4;
  rdi = word64 bytes 5;
  rbp = word64 bytes 6;
  rsp = word64 bytes 7;
  r8 = word64 bytes 8;
  r9 = word64 bytes 9;
  r10 = word64 bytes 10;
  r11 = word64 bytes 11;
  r12 = word64 bytes 12;
  r13 = word64 bytes 13;
  r14 = word64 bytes 14;
  r15 = word64 bytes 15;
  rip = word64 bytes 16;
  eflags = word32 bytes 0;
  cs = word32 bytes 1;
  ss = word32 bytes 2;
  ds = word32 bytes 3;
  es = word32 bytes 4;
  fs = word32 bytes 5;
  gs = word32 bytes 6;
}

-- The assignments through the pointer, over the bytes of the buffer.
unfoldable pub bytes_of_regs : GdbRegs → List ℕ → List ℕ
bytes_of_regs r bytes =
    bytes_of 8 r.rax
    ++ bytes_of 8 r.rbx
    ++ bytes_of 8 r.rcx
    ++ bytes_of 8 r.rdx
    ++ bytes_of 8 r.rsi
    ++ bytes_of 8 r.rdi
    ++ bytes_of 8 r.rbp
    ++ bytes_of 8 r.rsp
    ++ bytes_of 8 r.r8
    ++ bytes_of 8 r.r9
    ++ bytes_of 8 r.r10
    ++ bytes_of 8 r.r11
    ++ bytes_of 8 r.r12
    ++ bytes_of 8 r.r13
    ++ bytes_of 8 r.r14
    ++ bytes_of 8 r.r15
    ++ bytes_of 8 r.rip
    ++ bytes_of 4 r.eflags
    ++ bytes_of 4 r.cs
    ++ bytes_of 4 r.ss
    ++ bytes_of 4 r.ds
    ++ bytes_of 4 r.es
    ++ bytes_of 4 r.fs
    ++ bytes_of 4 r.gs
    ++ drop fields_size bytes
