-- ===== src/Utils/Frequency/Brand.antt =====
-- The frequency that the brand of a processor names.
use hermit_caves.Base.{
  ℕ, zero, suc, ◌+◌, ◌-◌, ◌*◌, ◌<◌, ◌≤◌, true, false, ltb, ◌==◌, if◌then◌else◌, Option, some, List,
  [], ◌∷◌, ◌≡◌, refl, ap, lt→ltb, ltb→lt, Bool-cases, inl, inr, ◌∙◌, arith,
}
use hermit_caves.Base.Digits.{scan_digits}
use hermit_caves.Start.Format.{is_decimal, decimal}
use hermit_caves.Utils.Frequency.{
  Cpuid, cpu_brand, multiplier_at, digit_of, before, fraction, four_digits, frequency_at, find_unit,
  get_frequency_from_brand, get_cpufreq,
}

find_unit_first :
    (brand : ℕ → ℕ) (left index i : ℕ)
    → index ≤ i
    → i < index + left
    → ((j : ℕ) → j < i → multiplier_at brand j ≡ 0)
    → 0 < multiplier_at brand i
    → find_unit brand left index ≡ frequency_at brand (multiplier_at brand i) i
unfolding find_unit
find_unit_first brand zero index i g l none_before unit = absurd (omega arith)
find_unit_first brand (suc left) index i g l none_before unit = elim (Bool-cases (ltb index i)) [
  | inl ahead ↦
      rw (none_before index (ltb→lt index i ahead), find_unit)
        (find_unit_first brand left (index + 1) i (omega (arith, ltb→lt index i ahead))
          (omega arith) none_before unit)
  | inr here ↦
      let same : index ≡ i = ground arith in
      rw (same, find_unit) (rw (lt→ltb 0 (multiplier_at brand i) unit) refl)
]

digit_bounds : (x : ℕ) → is_decimal x ≡ true → (48 ≤ x) × (x ≤ 57)
digit_bounds x h = (ground arith, ground arith)

digit_value : (x : ℕ) → is_decimal x ≡ true → digit_of x ≡ x - 48
unfolding digit_of
digit_value x h =
    let (low, high) = digit_bounds x h in rw (lt→ltb x 128 (omega arith)) (omega arith)

scan_three :
    (x4 x2 x1 : ℕ)
    → is_decimal x4 ≡ true
    → is_decimal x2 ≡ true
    → is_decimal x1 ≡ true
    → (scan_digits decimal 0 (x4 ∷ x2 ∷ x1 ∷ [])).0
      ≡ 10 * (10 * (10 * 0 + (x4 - 48)) + (x2 - 48)) + (x1 - 48)
unfolding scan_digits
scan_three x4 x2 x1 h4 h2 h1 =
    rw (h4, scan_digits) (rw (h2, scan_digits) (rw (h1, scan_digits) refl))

fraction_value :
    (x4 x2 x1 : ℕ)
    → is_decimal x4 ≡ true
    → is_decimal x2 ≡ true
    → is_decimal x1 ≡ true
    → fraction 1000 x4 x2 x1 ≡ 10 * (scan_digits decimal 0 (x4 ∷ x2 ∷ x1 ∷ [])).0
fraction_value x4 x2 x1 h4 h2 h1 =
    let (l4, u4) = digit_bounds x4 h4 in
    let (l2, u2) = digit_bounds x2 h2 in
    let (l1, u1) = digit_bounds x1 h1 in
    rw (scan_three x4 x2 x1 h4 h2 h1)
      (rw (digit_value x4 h4) (rw (digit_value x2 h2) (rw (digit_value x1 h1) (omega arith))))

scan_four :
    (x4 x3 x2 x1 : ℕ)
    → is_decimal x4 ≡ true
    → is_decimal x3 ≡ true
    → is_decimal x2 ≡ true
    → is_decimal x1 ≡ true
    → (scan_digits decimal 0 (x4 ∷ x3 ∷ x2 ∷ x1 ∷ [])).0
      ≡ 10 * (10 * (10 * (10 * 0 + (x4 - 48)) + (x3 - 48)) + (x2 - 48)) + (x1 - 48)
unfolding scan_digits
scan_four x4 x3 x2 x1 h4 h3 h2 h1 =
    rw (h4, scan_digits) (rw (h3, scan_digits) (rw (h2, scan_digits) (rw (h1, scan_digits) refl)))

four_digits_value :
    (x4 x3 x2 x1 : ℕ)
    → is_decimal x4 ≡ true
    → is_decimal x3 ≡ true
    → is_decimal x2 ≡ true
    → is_decimal x1 ≡ true
    → four_digits 1 x4 x3 x2 x1 ≡ (scan_digits decimal 0 (x4 ∷ x3 ∷ x2 ∷ x1 ∷ [])).0
four_digits_value x4 x3 x2 x1 h4 h3 h2 h1 =
    let (l4, u4) = digit_bounds x4 h4 in
    let (l3, u3) = digit_bounds x3 h3 in
    let (l2, u2) = digit_bounds x2 h2 in
    let (l1, u1) = digit_bounds x1 h1 in
    rw (scan_four x4 x3 x2 x1 h4 h3 h2 h1) (
      rw (digit_value x4 h4)
        (rw (digit_value x3 h3) (rw (digit_value x2 h2) (rw (digit_value x1 h1) (omega arith)))))

-- A number of MHz in front of a unit at `i`: one digit, a point and two digits of GHz, or four digits of MHz.
pub data Names (brand : ℕ → ℕ) (i : ℕ) : ℕ → Type 0 where
  gigahertz :
      brand (i - 3) ≡ b'.'
      → is_decimal (brand (i - 4)) ≡ true
      → is_decimal (brand (i - 2)) ≡ true
      → is_decimal (brand (i - 1)) ≡ true
      → brand i ≡ b'G'
      → Names brand i
          (10 * (scan_digits decimal 0 (brand (i - 4) ∷ brand (i - 2) ∷ brand (i - 1) ∷ [])).0)
  megahertz :
      is_decimal (brand (i - 4)) ≡ true
      → is_decimal (brand (i - 3)) ≡ true
      → is_decimal (brand (i - 2)) ≡ true
      → is_decimal (brand (i - 1)) ≡ true
      → brand i ≡ b'M'
      → Names brand i
          (scan_digits decimal 0
            (brand (i - 4) ∷ brand (i - 3) ∷ brand (i - 2) ∷ brand (i - 1) ∷ [])).0

before-some : (brand : ℕ → ℕ) (i k : ℕ) → k ≤ i → before brand i k ≡ some (brand (i - k))
before-some brand i k h = ground arith

frequency_at_lem :
    (brand : ℕ → ℕ) (i multiplier : ℕ)
    → 4 ≤ i
    → frequency_at brand multiplier i
      ≡ some (
          if brand (i - 3) == b'.'
          then fraction multiplier (brand (i - 4)) (brand (i - 2)) (brand (i - 1))
          else four_digits multiplier
              (brand (i - 4))
              (brand (i - 3))
              (brand (i - 2))
              (brand (i - 1)))
unfolding frequency_at
frequency_at_lem brand i multiplier h = rw (before-some brand i 3 (omega arith)) (
    rw (before-some brand i 4 h)
      (rw (before-some brand i 2 (omega arith)) (rw (before-some brand i 1 (omega arith)) refl)))

giga :
    (brand : ℕ → ℕ) (i : ℕ)
    → brand (i + 1) ≡ b'H'
    → brand (i + 2) ≡ b'z'
    → brand i ≡ b'G'
    → multiplier_at brand i ≡ 1000
unfolding multiplier_at
giga brand i h z g = rw h (rw z (rw g refl))

mega :
    (brand : ℕ → ℕ) (i : ℕ)
    → brand (i + 1) ≡ b'H'
    → brand (i + 2) ≡ b'z'
    → brand i ≡ b'M'
    → multiplier_at brand i ≡ 1
unfolding multiplier_at
mega brand i h z g = rw h (rw z (rw g refl))

no_point : (x : ℕ) → is_decimal x ≡ true → (x == b'.') ≡ false
no_point x h = ground (arith, digit_bounds x h)

frequency_named :
    (brand : ℕ → ℕ) (i mhz : ℕ)
    → brand (i + 1) ≡ b'H'
    → brand (i + 2) ≡ b'z'
    → 4 ≤ i
    → Names brand i mhz
    → (0 < multiplier_at brand i) × (frequency_at brand (multiplier_at brand i) i ≡ some mhz)
frequency_named brand i mhz h z front (gigahertz p h4 h2 h1 g) = (
  omega (arith, giga brand i h z g),
  rw (giga brand i h z g) (
      frequency_at_lem brand i 1000 front
      ∙ rw p (ap some (fraction_value (brand (i - 4)) (brand (i - 2)) (brand (i - 1)) h4 h2 h1))),
)
frequency_named brand i mhz h z front (megahertz h4 h3 h2 h1 g) = (
  omega (arith, mega brand i h z g),
  rw (mega brand i h z g) (
      frequency_at_lem brand i 1 front
      ∙ rw (no_point (brand (i - 3)) h3) (
          ap some (
            four_digits_value (brand (i - 4)) (brand (i - 3)) (brand (i - 2)) (brand (i - 1)) h4 h3
              h2 h1))),
)

-- If the processor has a brand, and the first unit in it stands behind a number as `Names` describes it,
-- then `get_cpufreq` returns this number, read as a decimal number of MHz, and does not look at the files. The
-- number is not 0.
pub get_cpufreq-scan_digits :
    (cpuid : Cpuid) (max_freq cpuinfo : Option (List (List ℕ))) (i mhz : ℕ)
    → 0x80000004 ≤ (cpuid 0x80000000).0
    → 4 ≤ i
    → i < 47
    → ((j : ℕ) → j < i → multiplier_at (cpu_brand cpuid) j ≡ 0)
    → cpu_brand cpuid (i + 1) ≡ b'H'
    → cpu_brand cpuid (i + 2) ≡ b'z'
    → Names (cpu_brand cpuid) i mhz
    → 0 < mhz
    → get_cpufreq cpuid max_freq cpuinfo ≡ some mhz
unfolding get_cpufreq get_frequency_from_brand
get_cpufreq-scan_digits cpuid max_freq cpuinfo i mhz extended front inside none_before h z named
      some_mhz =
    let (unit, freq) = frequency_named (cpu_brand cpuid) i mhz h z front named in
    rw (not_less extended) (
      rw
        (find_unit_first (cpu_brand cpuid) 47 0 i (omega arith) (omega arith) none_before unit
          ∙ freq)
        (rw (lt→ltb 0 mhz some_mhz) refl))
  where
    not_less : {m n : ℕ} → m ≤ n → ltb n m ≡ false
    not_less {m = m} {n = n} l = ground arith
