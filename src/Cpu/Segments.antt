-- ===== src/Cpu/Segments.antt =====
-- uhyve-x86_64.c: `setup_system_gdt`, with the macros of uhyve-x86_64.h for descriptors.
pub mod Fields
pub mod Read
use hermit_caves.Base.{ℕ, ◌+◌, ◌-◌, ◌*◌, ◌/◌, ◌%◌, ◌^◌, bit_and, bit_or}
use hermit_caves.Base.Memory.{Memory, load64, store64}

-- GDT_ENTRY: a left shift keeps 64 bits.
unfoldable pub gdt_entry : ℕ → ℕ → ℕ → ℕ
gdt_entry flags base limit =
    bit_or
      (bit_or
        (bit_or
          (bit_or (bit_and base 0xff000000 * 2 ^ 32 % 2 ^ 64)
            (bit_and flags 0xf0ff * 2 ^ 40 % 2 ^ 64))
          (bit_and limit 0xf0000 * 2 ^ 32 % 2 ^ 64))
        (bit_and base 0xffffff * 2 ^ 16 % 2 ^ 64))
      (bit_and limit 0xffff)

-- GDT_GET_BASE and GDT_GET_LIMIT.
unfoldable pub gdt_get_base : ℕ → ℕ
gdt_get_base x =
    bit_or (bit_or (bit_and x 0xff00000000000000 / 2 ^ 32) (bit_and x 0xff00000000 / 2 ^ 16))
      (bit_and x 0xffff0000 / 2 ^ 16)

unfoldable pub gdt_get_limit : ℕ → ℕ
gdt_get_limit x = bit_or (bit_and x 0xf000000000000 / 2 ^ 32) (bit_and x 0xffff) % 2 ^ 32

-- `struct kvm_segment`, without `unusable` and the padding, which the macro does not write.
pub record Segment : Type 0 where
  pub base : ℕ
  pub limit : ℕ
  pub selector : ℕ
  pub type : ℕ
  pub present : ℕ
  pub dpl : ℕ
  pub db : ℕ
  pub s : ℕ
  pub l : ℕ
  pub g : ℕ
  pub avl : ℕ

-- GDT_TO_KVM_SEGMENT for the entry at index `sel`; GDT_GET_TYPE to GDT_GET_AVL have 8 bits.
unfoldable pub kvm_segment : ℕ → ℕ → Segment
kvm_segment sel x = record {
  base = gdt_get_base x;
  limit = gdt_get_limit x;
  selector = sel * 8;
  type = bit_and x 0xf0000000000 / 2 ^ 40 % 2 ^ 8;
  present = bit_and x 0x800000000000 / 2 ^ 47 % 2 ^ 8;
  dpl = bit_and x 0x600000000000 / 2 ^ 45 % 2 ^ 8;
  db = bit_and x 0x40000000000000 / 2 ^ 54 % 2 ^ 8;
  s = bit_and x 0x100000000000 / 2 ^ 44 % 2 ^ 8;
  l = bit_and x 0x20000000000000 / 2 ^ 53 % 2 ^ 8;
  g = bit_and x 0x80000000000000 / 2 ^ 55 % 2 ^ 8;
  avl = bit_and x 0x10000000000000 / 2 ^ 52 % 2 ^ 8;
}

-- The segment part of `struct kvm_sregs`.
pub record Segments : Type 0 where
  pub gdt_base : ℕ
  pub gdt_limit : ℕ
  pub cs : Segment
  pub ds : Segment
  pub es : Segment
  pub fs : Segment
  pub gs : Segment
  pub ss : Segment

abbrev pub code_flags : ℕ
code_flags = 0xa09b

abbrev pub data_flags : ℕ
data_flags = 0xc093

abbrev pub flat_limit : ℕ
flat_limit = 0xfffff

-- The three entries are written at `mem + off`.
unfoldable pub write_gdt : Memory → ℕ → Memory
write_gdt mem off =
    store64
      (store64 (store64 mem off (gdt_entry 0 0 0)) (off + 8) (gdt_entry code_flags 0 flat_limit))
      (off + 2 * 8) (gdt_entry data_flags 0 flat_limit)

unfoldable pub setup_system_gdt : Memory → ℕ → Segments × Memory
setup_system_gdt mem off =
    let mem' = write_gdt mem off in
    let code_seg = kvm_segment 1 (load64 mem' (off + 8)) in
    let data_seg = kvm_segment 2 (load64 mem' (off + 2 * 8)) in
    (
      record {
        gdt_base = off;
        gdt_limit = 8 * 3 - 1;
        cs = code_seg;
        ds = data_seg;
        es = data_seg;
        fs = data_seg;
        gs = data_seg;
        ss = data_seg;
      },
      mem',
    )
