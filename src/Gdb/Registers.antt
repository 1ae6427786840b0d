-- ===== src/Gdb/Registers.antt =====
-- uhyve-gdb.c, x86-64: `uhyve_gdb_read_registers` and `uhyve_gdb_write_registers`, with the structures
-- that they copy between; the buffer of the stub is long enough.
pub mod Layout
pub mod Copied
mod Tests
use hermit_caves.Base.{ℕ, ◌+◌, ◌*◌, ◌%◌, ◌^◌, ltb, if◌then◌else◌, Option, none, some}

-- `struct kvm_regs`, and the selectors of `struct kvm_sregs`.
pub record KvmRegs : Type 0 where
  pub rax : ℕ
  pub rbx : ℕ
  pub rcx : ℕ
  pub rdx : ℕ
  pub rsi : ℕ
  pub rdi : ℕ
  pub rbp : ℕ
  pub rsp : ℕ
  pub r8 : ℕ
  pub r9 : ℕ
  pub r10 : ℕ
  pub r11 : ℕ
  pub r12 : ℕ
  pub r13 : ℕ
  pub r14 : ℕ
  pub r15 : ℕ
  pub rip : ℕ
  pub rflags : ℕ

pub record Selectors : Type 0 where
  pub cs : ℕ
  pub ss : ℕ
  pub ds : ℕ
  pub es : ℕ
  pub fs : ℕ
  pub gs : ℕ

-- `struct uhyve_gdb_regs`; the floating-point registers behind these fields are not copied.
pub record GdbRegs : Type 0 where
  pub rax : ℕ
  pub rbx : ℕ
  pub rcx : ℕ
  pub rdx : ℕ
  pub rsi : ℕ
  pub rdi : ℕ
  pub rbp : ℕ
  pub rsp : ℕ
  pub r8 : ℕ
  pub r9 : ℕ
  pub r10 : ℕ
  pub r11 : ℕ
  pub r12 : ℕ
  pub r13 : ℕ
  pub r14 : ℕ
  pub r15 : ℕ
  pub rip : ℕ
  pub eflags : ℕ
  pub cs : ℕ
  pub ss : ℕ
  pub ds : ℕ
  pub es : ℕ
  pub fs : ℕ
  pub gs : ℕ

abbrev pub regs_size : ℕ
regs_size = 17 * 8 + 7 * 4 + 8 * 10 + 4

-- The fields that are assigned; the others of `*registers` stay.
unfoldable pub read_fields : KvmRegs → Selectors → GdbRegs → GdbRegs
read_fields kregs sregs gregs = record gregs {
  rax = kregs.rax;
  rbx = kregs.rbx;
  rcx = kregs.rcx;
  rdx = kregs.rdx;
  rsi = kregs.rsi;
  rdi = kregs.rdi;
  rbp = kregs.rbp;
  rsp = kregs.rsp;
  r8 = kregs.r8;
  r9 = kregs.r9;
  r10 = kregs.r10;
  r11 = kregs.r11;
  rip = kregs.rip;
  eflags = kregs.rflags % 2 ^ 32;
  cs = sregs.cs;
  ss = sregs.ss;
  ds = sregs.ds;
  es = sregs.es;
  fs = sregs.fs;
  gs = sregs.gs;
}

unfoldable pub write_fields : GdbRegs → KvmRegs → Selectors → KvmRegs × Selectors
write_fields gregs kregs sregs = (
  record kregs {
    rax = gregs.rax;
    rbx = gregs.rbx;
    rcx = gregs.rcx;
    rdx = gregs.rdx;
    rsi = gregs.rsi;
    rdi = gregs.rdi;
    rbp = gregs.rbp;
    rsp = gregs.rsp;
    r8 = gregs.r8;
    r9 = gregs.r9;
    r10 = gregs.r10;
    r11 = gregs.r11;
    rip = gregs.rip;
    rflags = gregs.eflags;
  },
  record sregs {
    cs = gregs.cs % 2 ^ 16;
    ss = gregs.ss % 2 ^ 16;
    ds = gregs.ds % 2 ^ 16;
    es = gregs.es % 2 ^ 16;
    fs = gregs.fs % 2 ^ 16;
    gs = gregs.gs % 2 ^ 16;
  },
)

-- `none` is -1; `len` is the size of the buffer.
unfoldable pub read_registers : ℕ → KvmRegs → Selectors → GdbRegs → Option GdbRegs
read_registers len kregs sregs gregs =
    if ltb len regs_size then none else some (read_fields kregs sregs gregs)

unfoldable pub write_registers : ℕ → GdbRegs → KvmRegs → Selectors → Option (KvmRegs × Selectors)
write_registers len gregs kregs sregs =
    if ltb len regs_size then none else some (write_fields gregs kregs sregs)
