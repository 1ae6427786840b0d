-- ===== src/Gdb/Registers/Tests.antt =====
-- Instances of the theorems on the registers.
use hermit_caves.Base.{some, ◌≡◌, arith}
use hermit_caves.Gdb.Registers.{KvmRegs, Selectors, GdbRegs, read_registers, write_registers}
use hermit_caves.Gdb.Registers.Copied.{write_registers-read_registers}

abbrev cpu : KvmRegs
cpu = record {
  rax = 1;
  rbx = 2;
  rcx = 3;
  rdx = 4;
  rsi = 5;
  rdi = 6;
  rbp = 7;
  rsp = 8;
  r8 = 9;
  r9 = 10;
  r10 = 11;
  r11 = 12;
  r12 = 13;
  r13 = 14;
  r14 = 15;
  r15 = 16;
  rip = 17;
  rflags = 18;
}

abbrev flat : Selectors
flat = record { cs = 8; ss = 16; ds = 16; es = 16; fs = 16; gs = 16 }

abbrev buffer : GdbRegs
buffer = record {
  rax = 0;
  rbx = 0;
  rcx = 0;
  rdx = 0;
  rsi = 0;
  rdi = 0;
  rbp = 0;
  rsp = 0;
  r8 = 0;
  r9 = 0;
  r10 = 0;
  r11 = 0;
  r12 = 0;
  r13 = 0;
  r14 = 0;
  r15 = 0;
  rip = 0;
  eflags = 0;
  cs = 0;
  ss = 0;
  ds = 0;
  es = 0;
  fs = 0;
  gs = 0;
}

write_registers-read_registers_example :
    (seen : GdbRegs) × (read_registers 4096 cpu flat buffer ≡ some seen)
    × (write_registers 4096 seen cpu flat ≡ some (cpu, flat))
write_registers-read_registers_example =
    write_registers-read_registers 4096 cpu flat buffer (omega arith) (omega arith)
      ((omega arith, (omega arith, omega arith)), (omega arith, (omega arith, omega arith)))
