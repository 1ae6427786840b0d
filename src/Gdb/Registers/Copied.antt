-- ===== src/Gdb/Registers/Copied.antt =====
-- What a debugger sees of the registers, and what it can do to them.
use hermit_caves.Base.{ℕ, ◌%◌, ◌^◌, ◌≤◌, ◌<◌, ltb, false, some, ◌≡◌, refl, arith}
use hermit_caves.Gdb.Registers.{
  KvmRegs, Selectors, GdbRegs, regs_size, read_fields, write_fields, read_registers,
  write_registers,
}

abbrev pub AreSelectors : Selectors → Type 0
AreSelectors s =
    ((s.cs < 2 ^ 16) × ((s.ss < 2 ^ 16) × (s.ds < 2 ^ 16)))
    × ((s.es < 2 ^ 16) × ((s.fs < 2 ^ 16) × (s.gs < 2 ^ 16)))

enough : (len : ℕ) → regs_size ≤ len → ltb len regs_size ≡ false
enough len h = ground arith

-- A debugger that reads the registers and writes them back changes nothing, if the flags have 32 bits
-- and the selectors 16, and the buffer is not too short.
pub write_registers-read_registers :
    (len : ℕ) (kregs : KvmRegs) (sregs : Selectors) (gregs : GdbRegs)
    → regs_size ≤ len
    → kregs.rflags < 2 ^ 32
    → AreSelectors sregs
    → (seen : GdbRegs) × (read_registers len kregs sregs gregs ≡ some seen)
      × (write_registers len seen kregs sregs ≡ some (kregs, sregs))
unfolding read_registers write_registers read_fields write_fields
write_registers-read_registers len kregs sregs gregs h flags ((c, (s, d)), (e, (f, g))) =
    let flags_fit : kregs.rflags % 2 ^ 32 ≡ kregs.rflags = omega arith in
    let cs_fits : sregs.cs % 2 ^ 16 ≡ sregs.cs = omega arith in
    let ss_fits : sregs.ss % 2 ^ 16 ≡ sregs.ss = omega arith in
    let ds_fits : sregs.ds % 2 ^ 16 ≡ sregs.ds = omega arith in
    let es_fits : sregs.es % 2 ^ 16 ≡ sregs.es = omega arith in
    let fs_fits : sregs.fs % 2 ^ 16 ≡ sregs.fs = omega arith in
    let gs_fits : sregs.gs % 2 ^ 16 ≡ sregs.gs = omega arith in
    (
      read_fields kregs sregs gregs,
      rw (enough len h) refl,
      rw (enough len h) (
          rw flags_fit
            (rw cs_fits (rw ss_fits (rw ds_fits (rw es_fits (rw fs_fits (rw gs_fits refl))))))),
    )

-- The registers with other values of r12 to r15.
abbrev pub with_high : ℕ → ℕ → ℕ → ℕ → KvmRegs → KvmRegs
with_high a b c d kregs = record kregs { r12 = a; r13 = b; r14 = c; r15 = d }

-- A debugger never sees r12 to r15 of the guest: what it reads is the same for all values of them, and
-- shows for them what the buffer of the stub held before. The buffer is not too short.
pub read_registers_high :
    (len a b c d : ℕ) (kregs : KvmRegs) (sregs : Selectors) (gregs : GdbRegs)
    → regs_size ≤ len
    → (read_registers len (with_high a b c d kregs) sregs gregs
        ≡ read_registers len kregs sregs gregs)
      × ((seen : GdbRegs) × (read_registers len kregs sregs gregs ≡ some seen)
          × (((seen.r12 ≡ gregs.r12) × (seen.r13 ≡ gregs.r13))
              × ((seen.r14 ≡ gregs.r14) × (seen.r15 ≡ gregs.r15))))
unfolding read_registers read_fields
read_registers_high len a b c d kregs sregs gregs h = (
  rw (enough len h) refl,
  (read_fields kregs sregs gregs, rw (enough len h) refl, ((refl, refl), (refl, refl))),
)
