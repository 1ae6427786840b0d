-- ===== src/Cpu/Segments/Read.antt =====
-- The fields of a descriptor are read back.
use hermit_caves.Base.{ℕ, ◌+◌, ◌*◌, ◌/◌, ◌%◌, ◌^◌, ◌<◌, ◌≡◌, refl, ap, ◌∙◌, arith, bit_and}
use hermit_caves.Base.Bits.{bit_and_low, bit_and_field}
use hermit_caves.Cpu.Segments.{gdt_entry, gdt_get_base, gdt_get_limit, Segment, kvm_segment}
use hermit_caves.Cpu.Segments.Fields.{or_sum, entry_sum, gdt_entry_sum}

-- What the macros read from a number.
get_base_sum :
    (x : ℕ)
    → gdt_get_base x
      ≡ x / 2 ^ 56 % 2 ^ 8 * 2 ^ 24 + x / 2 ^ 32 % 2 ^ 8 * 2 ^ 16 + x / 2 ^ 16 % 2 ^ 16
unfolding gdt_get_base
get_base_sum x = rw (bit_and_field 8 56 x) (
    rw (bit_and_field 8 32 x) (
      rw (bit_and_field 16 16 x) (
        rw (high (x / 2 ^ 56 % 2 ^ 8)) (
          rw (middle (x / 2 ^ 32 % 2 ^ 8)) (
            rw (low (x / 2 ^ 16 % 2 ^ 16)) (
              rw
                (or_sum 24 (x / 2 ^ 56 % 2 ^ 8) (x / 2 ^ 56 % 2 ^ 8 * 2 ^ 24)
                  (x / 2 ^ 32 % 2 ^ 8 * 2 ^ 16) (omega arith) refl)
                (or_sum 16 (x / 2 ^ 56 % 2 ^ 8 * 2 ^ 8 + x / 2 ^ 32 % 2 ^ 8)
                  (x / 2 ^ 56 % 2 ^ 8 * 2 ^ 24 + x / 2 ^ 32 % 2 ^ 8 * 2 ^ 16) (x / 2 ^ 16 % 2 ^ 16)
                  (omega arith) (omega arith))))))))
  where
    high : (n : ℕ) → n * 2 ^ 56 / 2 ^ 32 ≡ n * 2 ^ 24
    high n = omega arith

    middle : (n : ℕ) → n * 2 ^ 32 / 2 ^ 16 ≡ n * 2 ^ 16
    middle n = omega arith

    low : (n : ℕ) → n * 2 ^ 16 / 2 ^ 16 ≡ n
    low n = omega arith

get_limit_sum : (x : ℕ) → gdt_get_limit x ≡ x / 2 ^ 48 % 2 ^ 4 * 2 ^ 16 + x % 2 ^ 16
unfolding gdt_get_limit
get_limit_sum x = rw (bit_and_field 4 48 x) (
    rw (bit_and_low 16 x) (
      rw (high (x / 2 ^ 48 % 2 ^ 4)) (
        rw
          (or_sum 16 (x / 2 ^ 48 % 2 ^ 4) (x / 2 ^ 48 % 2 ^ 4 * 2 ^ 16) (x % 2 ^ 16) (omega arith)
            refl)
          (omega arith))))
  where
    high : (n : ℕ) → n * 2 ^ 48 / 2 ^ 32 ≡ n * 2 ^ 16
    high n = omega arith

-- The segment that a descriptor is read as, by its fields as numbers.
segment_sum : ℕ → ℕ → Segment
segment_sum sel x = record {
  base = x / 2 ^ 56 % 2 ^ 8 * 2 ^ 24 + x / 2 ^ 32 % 2 ^ 8 * 2 ^ 16 + x / 2 ^ 16 % 2 ^ 16;
  limit = x / 2 ^ 48 % 2 ^ 4 * 2 ^ 16 + x % 2 ^ 16;
  selector = sel * 8;
  type = x / 2 ^ 40 % 2 ^ 4;
  present = x / 2 ^ 47 % 2;
  dpl = x / 2 ^ 45 % 2 ^ 2;
  db = x / 2 ^ 54 % 2;
  s = x / 2 ^ 44 % 2;
  l = x / 2 ^ 53 % 2;
  g = x / 2 ^ 55 % 2;
  avl = x / 2 ^ 52 % 2;
}

kvm_segment_sum : (sel x : ℕ) → kvm_segment sel x ≡ segment_sum sel x
unfolding kvm_segment segment_sum
kvm_segment_sum sel x = λ i. record {
  base = get_base_sum x i;
  limit = get_limit_sum x i;
  selector = sel * 8;
  type = type_bits i;
  present = present_bit i;
  dpl = dpl_bits i;
  db = db_bit i;
  s = s_bit i;
  l = l_bit i;
  g = g_bit i;
  avl = avl_bit i;
}
  where
    type_bits : bit_and x 0xf0000000000 / 2 ^ 40 % 2 ^ 8 ≡ x / 2 ^ 40 % 2 ^ 4
    type_bits = rw (bit_and_field 4 40 x) (omega arith)

    present_bit : bit_and x 0x800000000000 / 2 ^ 47 % 2 ^ 8 ≡ x / 2 ^ 47 % 2
    present_bit = rw (bit_and_field 1 47 x) (omega arith)

    dpl_bits : bit_and x 0x600000000000 / 2 ^ 45 % 2 ^ 8 ≡ x / 2 ^ 45 % 2 ^ 2
    dpl_bits = rw (bit_and_field 2 45 x) (omega arith)

    db_bit : bit_and x 0x40000000000000 / 2 ^ 54 % 2 ^ 8 ≡ x / 2 ^ 54 % 2
    db_bit = rw (bit_and_field 1 54 x) (omega arith)

    s_bit : bit_and x 0x100000000000 / 2 ^ 44 % 2 ^ 8 ≡ x / 2 ^ 44 % 2
    s_bit = rw (bit_and_field 1 44 x) (omega arith)

    l_bit : bit_and x 0x20000000000000 / 2 ^ 53 % 2 ^ 8 ≡ x / 2 ^ 53 % 2
    l_bit = rw (bit_and_field 1 53 x) (omega arith)

    g_bit : bit_and x 0x80000000000000 / 2 ^ 55 % 2 ^ 8 ≡ x / 2 ^ 55 % 2
    g_bit = rw (bit_and_field 1 55 x) (omega arith)

    avl_bit : bit_and x 0x10000000000000 / 2 ^ 52 % 2 ^ 8 ≡ x / 2 ^ 52 % 2
    avl_bit = rw (bit_and_field 1 52 x) (omega arith)

-- The segment that is meant by flags, a base and a limit.
abbrev pub segment_of : ℕ → ℕ → ℕ → ℕ → Segment
segment_of sel flags base limit = record {
  base = base;
  limit = limit;
  selector = sel * 8;
  type = flags % 2 ^ 4;
  present = flags / 2 ^ 7 % 2;
  dpl = flags / 2 ^ 5 % 2 ^ 2;
  db = flags / 2 ^ 14 % 2;
  s = flags / 2 ^ 4 % 2;
  l = flags / 2 ^ 13 % 2;
  g = flags / 2 ^ 15 % 2;
  avl = flags / 2 ^ 12 % 2;
}

-- For a base of 32 bits and a limit of 20, the segment that GDT_TO_KVM_SEGMENT reads from a descriptor
-- of GDT_ENTRY has this base and limit, the selector of the entry, and the bits of the flags.
pub kvm_segment-gdt_entry :
    (sel flags base limit : ℕ)
    → base < 2 ^ 32
    → limit < 2 ^ 20
    → kvm_segment sel (gdt_entry flags base limit) ≡ segment_of sel flags base limit
unfolding segment_sum
kvm_segment-gdt_entry sel flags base limit h k =
    ap (kvm_segment sel) (gdt_entry_sum flags base limit)
    ∙ kvm_segment_sum sel (entry_sum flags base limit)
    ∙ λ i. record {
      base = base_same i;
      limit = limit_same i;
      selector = sel * 8;
      type = type_same i;
      present = present_same i;
      dpl = dpl_same i;
      db = db_same i;
      s = s_same i;
      l = l_same i;
      g = g_same i;
      avl = avl_same i;
    }
  where
    x : ℕ
    x = entry_sum flags base limit

    base_same :
        x / 2 ^ 56 % 2 ^ 8 * 2 ^ 24 + x / 2 ^ 32 % 2 ^ 8 * 2 ^ 16 + x / 2 ^ 16 % 2 ^ 16 ≡ base
    base_same = omega arith

    limit_same : x / 2 ^ 48 % 2 ^ 4 * 2 ^ 16 + x % 2 ^ 16 ≡ limit
    limit_same = omega arith

    type_same : x / 2 ^ 40 % 2 ^ 4 ≡ flags % 2 ^ 4
    type_same = omega arith

    present_same : x / 2 ^ 47 % 2 ≡ flags / 2 ^ 7 % 2
    present_same = omega arith

    dpl_same : x / 2 ^ 45 % 2 ^ 2 ≡ flags / 2 ^ 5 % 2 ^ 2
    dpl_same = omega arith

    db_same : x / 2 ^ 54 % 2 ≡ flags / 2 ^ 14 % 2
    db_same = omega arith

    s_same : x / 2 ^ 44 % 2 ≡ flags / 2 ^ 4 % 2
    s_same = omega arith

    l_same : x / 2 ^ 53 % 2 ≡ flags / 2 ^ 13 % 2
    l_same = omega arith

    g_same : x / 2 ^ 55 % 2 ≡ flags / 2 ^ 15 % 2
    g_same = omega arith

    avl_same : x / 2 ^ 52 % 2 ≡ flags / 2 ^ 12 % 2
    avl_same = omega arith
