-- ===== src/Cpu/Segments/Fields.antt =====
-- A descriptor of GDT_ENTRY is the sum of its fields.
use hermit_caves.Base.{ℕ, ◌+◌, ◌*◌, ◌/◌, ◌%◌, ◌^◌, ◌<◌, ◌≡◌, refl, ap, ◌∙◌, arith, bit_and, bit_or}
use hermit_caves.Base.Bits.{
  bit_and_low, bit_and_field, bit_and_split, bit_or_split, bit_or_disjoint, bit_or-zero,
}
use hermit_caves.Cpu.Segments.{gdt_entry}

-- The parts of the flags: the access byte, and the bits of granularity, size, long mode and use.
abbrev pub access : ℕ → ℕ
access flags = flags % 2 ^ 8

abbrev pub upper : ℕ → ℕ
upper flags = flags / 2 ^ 12 % 2 ^ 4

flag_bits : (flags : ℕ) → bit_and flags 0xf0ff ≡ upper flags * 2 ^ 12 + access flags
flag_bits flags =
    ap (λ f. bit_and f 0xf0ff) (omega arith)
    ∙ bit_and_split 12 (flags / 2 ^ 12) 0xf (flags % 2 ^ 12) 0xff (omega arith) (omega arith)
    ∙ ground (arith, bit_and_low 4 (flags / 2 ^ 12), bit_and_low 8 (flags % 2 ^ 12))

-- The descriptor as a sum of its fields.
abbrev pub entry_sum : ℕ → ℕ → ℕ → ℕ
entry_sum flags base limit =
    base / 2 ^ 24 % 2 ^ 8 * 2 ^ 56
    + upper flags * 2 ^ 52
    + limit / 2 ^ 16 % 2 ^ 4 * 2 ^ 48
    + access flags * 2 ^ 40
    + base % 2 ^ 24 * 2 ^ 16
    + limit % 2 ^ 16

-- `s | r` for a multiple `s` of 2 ^ k and a smaller `r`.
pub or_sum : (k q s r : ℕ) → r < 2 ^ k → s ≡ q * 2 ^ k → bit_or s r ≡ s + r
or_sum k q s r h e = rw e (bit_or_disjoint k q r h)

-- The high bits of the limit stand between those of the flags.
or_between :
    (q m r : ℕ)
    → m < 2 ^ 4
    → r < 2 ^ 48
    → bit_or (q * 2 ^ 4 * 2 ^ 48 + r) (m * 2 ^ 48) ≡ (q * 2 ^ 4 + m) * 2 ^ 48 + r
or_between q m r h k =
    ap (λ x. bit_or (q * 2 ^ 4 * 2 ^ 48 + r) x) (add_zero (m * 2 ^ 48))
    ∙ bit_or_split 48 (q * 2 ^ 4) m r 0 k (omega arith)
    ∙ ground (arith, bit_or_disjoint 4 q m h, bit_or-zero r)
  where
    add_zero : (n : ℕ) → n ≡ n + 0
    add_zero n = omega arith

or_fields :
    (high up acc lim low word : ℕ)
    → up < 2 ^ 4
    → acc < 2 ^ 8
    → lim < 2 ^ 4
    → low < 2 ^ 24
    → word < 2 ^ 16
    → bit_or
        (bit_or
          (bit_or (bit_or (high * 2 ^ 56) (up * 2 ^ 52 + acc * 2 ^ 40)) (lim * 2 ^ 48))
          (low * 2 ^ 16))
        word
      ≡ high * 2 ^ 56 + up * 2 ^ 52 + lim * 2 ^ 48 + acc * 2 ^ 40 + low * 2 ^ 16 + word
or_fields high up acc lim low word h1 h2 h3 h4 h5 =
    let first = or_sum 56 high (high * 2 ^ 56) (up * 2 ^ 52 + acc * 2 ^ 40) (omega arith) refl in
    let regroup : high * 2 ^ 56 + (up * 2 ^ 52 + acc * 2 ^ 40)
        ≡ (high * 2 ^ 4 + up) * 2 ^ 4 * 2 ^ 48 + acc * 2 ^ 40 =
      omega arith in
    let second = or_between (high * 2 ^ 4 + up) lim (acc * 2 ^ 40) h3 (omega arith) in
    let sum = ((high * 2 ^ 4 + up) * 2 ^ 4 + lim) * 2 ^ 48 + acc * 2 ^ 40 in
    let third =
      or_sum 40 (((high * 2 ^ 4 + up) * 2 ^ 4 + lim) * 2 ^ 8 + acc) sum (low * 2 ^ 16) (omega arith)
        (omega arith) in
    let fourth =
      or_sum 16 ((((high * 2 ^ 4 + up) * 2 ^ 4 + lim) * 2 ^ 8 + acc) * 2 ^ 24 + low)
        (sum + low * 2 ^ 16) word h5 (omega arith) in
    rw (first ∙ regroup) (rw second (rw third (fourth ∙ omega arith)))

pub gdt_entry_sum : (flags base limit : ℕ) → gdt_entry flags base limit ≡ entry_sum flags base limit
unfolding gdt_entry
gdt_entry_sum flags base limit = rw (bit_and_field 8 24 base) (
    rw (flag_bits flags) (
      rw (bit_and_field 4 16 limit) (
        rw (bit_and_low 24 base) (
          rw (bit_and_low 16 limit) (
            rw (exact (base / 2 ^ 24 % 2 ^ 8) (omega arith)) (
              rw (shifted (upper flags) (access flags) (omega arith) (omega arith)) (
                rw (moved_limit (limit / 2 ^ 16 % 2 ^ 4) (omega arith)) (
                  rw (moved_base (base % 2 ^ 24) (omega arith)) (
                    or_fields (base / 2 ^ 24 % 2 ^ 8) (upper flags) (access flags)
                      (limit / 2 ^ 16 % 2 ^ 4) (base % 2 ^ 24) (limit % 2 ^ 16) (omega arith)
                      (omega arith) (omega arith) (omega arith) (omega arith))))))))))
  where
    exact : (b : ℕ) → b < 2 ^ 8 → b * 2 ^ 24 * 2 ^ 32 % 2 ^ 64 ≡ b * 2 ^ 56
    exact b h = omega arith

    shifted :
        (u a : ℕ)
        → u < 2 ^ 4
        → a < 2 ^ 8
        → (u * 2 ^ 12 + a) * 2 ^ 40 % 2 ^ 64 ≡ u * 2 ^ 52 + a * 2 ^ 40
    shifted u a h k = omega arith

    moved_limit : (l : ℕ) → l < 2 ^ 4 → l * 2 ^ 16 * 2 ^ 32 % 2 ^ 64 ≡ l * 2 ^ 48
    moved_limit l h = omega arith

    moved_base : (b : ℕ) → b < 2 ^ 24 → b * 2 ^ 16 % 2 ^ 64 ≡ b * 2 ^ 16
    moved_base b h = omega arith
