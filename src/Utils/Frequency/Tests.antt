-- ===== src/Utils/Frequency/Tests.antt =====
-- Frequencies of some processors.
use hermit_caves.Base.{
  if◌then◌else◌, ◌<◌, ℕ, ◌^◌, ◌-◌, ◌==◌, true, none, some, [], ◌∷◌, ◌≡◌, refl, arith,
}
use hermit_caves.Base.Text.{codes}
use hermit_caves.Base.Ranges.{holds_below, holds_below_at}
use hermit_caves.Base.Digits.{scan_digits}
use hermit_caves.Syscalls.Wire.{bytes_of}
use hermit_caves.Start.Format.{scan_decimal, scan_digits_of}
use hermit_caves.Gdb.Scan.{skip_space, scan_sign}
use hermit_caves.Utils.Frequency.{
  Cpuid, char_at, cpu_brand, multiplier_at, digit_of, frequency_at, find_unit, find_mhz, strstr,
  starts_with, skip_to_digit, get_frequency_from_brand, get_cpufreq,
}
use hermit_caves.Utils.Frequency.Brand.{Names, gigahertz, get_cpufreq-scan_digits}

-- The brand is `CPU 3.40GHz`.
abbrev fast : Cpuid
fast code =
    if code == 0x80000002
    then (0x20555043, 0x30342e33, 0x7a4847, 0)
    else if code == 0x80000000
    then (0x80000008, 0, 0, 0)
    else (0, 0, 0, 0)

-- The brand is `CPU @ 800MHz`: the space in front of three digits is read as a digit.
abbrev slow : Cpuid
slow code =
    if code == 0x80000002
    then (0x20555043, 0x30382040, 0x7a484d30, 0)
    else if code == 0x80000000
    then (0x80000008, 0, 0, 0)
    else (0, 0, 0, 0)

-- The brand starts with its unit.
abbrev short : Cpuid
short code =
    if code == 0x80000002
    then (0x7a4847, 0, 0, 0)
    else if code == 0x80000000
    then (0x80000008, 0, 0, 0)
    else (0, 0, 0, 0)

abbrev old : Cpuid
old code = (0, 0, 0, 0)

slow_lem : get_frequency_from_brand slow ≡ some (2 ^ 32 - 15200)
unfolding get_frequency_from_brand find_unit multiplier_at cpu_brand frequency_at bytes_of digit_of
    char_at
slow_lem = refl

short_lem : get_frequency_from_brand short ≡ none
unfolding get_frequency_from_brand find_unit multiplier_at cpu_brand frequency_at bytes_of digit_of
    char_at
short_lem = refl

old_lem :
    get_cpufreq old none (some (codes "model name : x" ∷ codes "cpu MHz : 2394.5" ∷ [])) ≡ some 2394
unfolding get_cpufreq get_frequency_from_brand scan_decimal scan_digits_of scan_digits skip_space
    scan_sign find_mhz strstr starts_with skip_to_digit
old_lem = refl

brand_start : holds_below 8 (λ j. multiplier_at (cpu_brand fast) j == 0) ≡ true
unfolding holds_below multiplier_at cpu_brand bytes_of char_at
brand_start = refl

no_unit : (j : ℕ) → j < 8 → multiplier_at (cpu_brand fast) j ≡ 0
no_unit j h =
    let test = holds_below_at 8 (λ i. multiplier_at (cpu_brand fast) i == 0) j brand_start h in
    ground arith

brand_end : (cpu_brand fast 9 ≡ b'H') × (cpu_brand fast 10 ≡ b'z')
unfolding cpu_brand bytes_of char_at
brand_end = (refl, refl)

named : Names (cpu_brand fast) 8 3400
unfolding scan_digits cpu_brand bytes_of char_at
named = gigahertz refl refl refl refl refl

get_cpufreq-scan_digits_example : get_cpufreq fast none none ≡ some 3400
get_cpufreq-scan_digits_example =
    get_cpufreq-scan_digits fast none none 8 3400 (omega arith) (omega arith) (omega arith) no_unit
      brand_end.0 brand_end.1 named (omega arith)
