-- ===== src/Utils/Frequency.antt =====
-- utils.c: `get_frequency_from_brand` and `get_cpufreq`.
pub mod Brand
mod Tests
use hermit_caves.Base.{
  ℕ, zero, suc, ◌+◌, ◌-◌, ◌*◌, ◌/◌, ◌%◌, ◌^◌, Bool, true, false, ltb, leb, ◌==◌, ◌&&◌,
  if◌then◌else◌, ◌>>=◌, Option, none, some, List, [], ◌∷◌, ◌++◌,
}
use hermit_caves.Base.Text.{codes}
use hermit_caves.Syscalls.Wire.{bytes_of}
use hermit_caves.Start.Format.{is_decimal, scan_decimal, int_of}

-- What `cpuid` leaves in eax, ebx, ecx and edx for a value of eax.
abbrev pub Cpuid : Type 0
Cpuid = ℕ → ℕ × ℕ × ℕ × ℕ

abbrev pub registers : ℕ × ℕ × ℕ × ℕ → List ℕ
registers (a, b, c, d) = bytes_of 4 a ++ bytes_of 4 b ++ bytes_of 4 c ++ bytes_of 4 d

-- A character of an array that is zero behind the text.
pub char_at : List ℕ → ℕ → ℕ
char_at [] i = 0
char_at (ch ∷ text) zero = ch
char_at (ch ∷ text) (suc i) = char_at text i

unfoldable pub cpu_brand : Cpuid → ℕ → ℕ
cpu_brand cpuid =
    char_at
      (registers (cpuid 0x80000002) ++ registers (cpuid 0x80000003) ++ registers (cpuid 0x80000004))

-- The factor to MHz if a unit starts at `index`, and 0 else.
unfoldable pub multiplier_at : (ℕ → ℕ) → ℕ → ℕ
multiplier_at brand index =
    if (brand (index + 1) == b'H') && (brand (index + 2) == b'z')
    then (if brand index == b'M'
        then 1
        else if brand index == b'G'
        then 1000
        else if brand index == b'T'
        then 1000000
        else 0)
    else 0

-- `(uint32_t)(ch - '0')`, where `char` is signed.
unfoldable pub digit_of : ℕ → ℕ
digit_of ch = if ltb ch 128 then (ch + (2 ^ 32 - 48)) % 2 ^ 32 else ch + (2 ^ 32 - 256 - 48)

-- The character `k` places in front of `index`, and `none` if that is outside the array, since the
-- difference wraps around then.
abbrev pub before : (ℕ → ℕ) → ℕ → ℕ → Option ℕ
before brand index k = if leb k index then some (brand (index - k)) else none

-- For the format x.xx, from the characters around the point.
abbrev pub fraction : ℕ → ℕ → ℕ → ℕ → ℕ
fraction multiplier x4 x2 x1 =
    (digit_of x4 * multiplier + digit_of x2 * (multiplier / 10) + digit_of x1 * (multiplier / 100))
    % 2 ^ 32

abbrev pub four_digits : ℕ → ℕ → ℕ → ℕ → ℕ → ℕ
four_digits multiplier x4 x3 x2 x1 =
    ((digit_of x4 * 1000 + digit_of x3 * 100 + digit_of x2 * 10 + digit_of x1) * multiplier)
    % 2 ^ 32

unfoldable pub frequency_at : (ℕ → ℕ) → ℕ → ℕ → Option ℕ
frequency_at brand multiplier index = before brand index 3 >>= λ x3. before brand index 4 >>= λ x4.
    before brand index 2 >>= λ x2. before brand index 1 >>= λ x1.
    some (if x3 == b'.' then fraction multiplier x4 x2 x1 else four_digits multiplier x4 x3 x2 x1)

-- The loop, with the rounds that are left.
pub find_unit : (ℕ → ℕ) → ℕ → ℕ → Option ℕ
find_unit brand zero index = some 0
find_unit brand (suc left) index =
    let rest = find_unit brand left (index + 1) in
    let multiplier = multiplier_at brand index in
    if ltb 0 multiplier then frequency_at brand multiplier index else rest

-- `none` if a character in front of the array is read.
unfoldable pub get_frequency_from_brand : Cpuid → Option ℕ
get_frequency_from_brand cpuid =
    if ltb (cpuid 0x80000000).0 0x80000004 then some 0 else find_unit (cpu_brand cpuid) 47 0

abbrev pub atoi : List ℕ → ℕ
atoi text = elim (scan_decimal text) [ none ↦ 0 | some (negative, n, rest) ↦ int_of negative n ]

pub starts_with : List ℕ → List ℕ → Bool
starts_with [] text = true
starts_with (ch ∷ word) [] = false
starts_with (ch ∷ word) (c ∷ text) = (ch == c) && starts_with word text

pub strstr : List ℕ → List ℕ → Option (List ℕ)
strstr [] word = if starts_with word [] then some [] else none
strstr (c ∷ text) word =
    let later = strstr text word in if starts_with word (c ∷ text) then some (c ∷ text) else later

pub skip_to_digit : List ℕ → List ℕ
skip_to_digit [] = []
skip_to_digit (ch ∷ text) =
    let rest = skip_to_digit text in if is_decimal ch then ch ∷ text else rest

-- The loop over the lines that `fgets` returns.
pub find_mhz : List (List ℕ) → ℕ
find_mhz [] = 0
find_mhz (line ∷ lines) = elim (strstr line (codes "cpu MHz")) [
  | none ↦ find_mhz lines
  | some match ↦ atoi (skip_to_digit match)
]

abbrev pub first_line : List (List ℕ) → ℕ
first_line [] = 0
first_line (line ∷ lines) = atoi line / 1000

-- The two files, by the lines that `fgets` returns, if they can be opened.
unfoldable pub get_cpufreq : Cpuid → Option (List (List ℕ)) → Option (List (List ℕ)) → Option ℕ
get_cpufreq cpuid max_freq cpuinfo = get_frequency_from_brand cpuid >>= λ freq. some (
    if ltb 0 freq then freq else elim max_freq [
      | some lines ↦ first_line lines
      | none ↦ elim cpuinfo [ some lines ↦ find_mhz lines | none ↦ 0 ]
    ])
