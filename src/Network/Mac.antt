-- ===== src/Network/Mac.antt =====
-- uhyve-net.c: `dehex` and `uhyve_set_mac`. The counters are `int`s as their bit patterns.
pub mod Format
mod Tests
use hermit_caves.Base.{
  ℕ, zero, suc, ◌+◌, ◌-◌, ◌*◌, ◌/◌, ◌%◌, ◌^◌, bit_and, bit_or, Bool, true, false, leb, ◌==◌, ◌&&◌,
  ◌||◌, if◌then◌else◌, Option, none, some, List, [], ◌∷◌, ◌++◌,
}
use hermit_caves.Gdb.Hex.{hexchar}

unfoldable pub dehex : ℕ → ℕ
dehex c =
    if leb b'0' c && leb c b'9'
    then c - b'0'
    else if leb b'a' c && leb c b'f'
    then 10 + (c - b'a')
    else if leb b'A' c && leb c b'F'
    then 10 + (c - b'A')
    else 0

-- C's `isxdigit`, in the C locale.
unfoldable pub isxdigit : ℕ → Bool
isxdigit c = (leb b'0' c && leb c b'9') || (leb b'a' c && leb c b'f') || (leb b'A' c && leb c b'F')

-- The loop that checks the string: `i` counts digits, `s` colons.
unfoldable pub check : ℕ → ℕ → List ℕ → ℕ × ℕ
check i s [] = (i, s)
check i s (c ∷ str) =
    let digit = check (i + 1) s str in
    let colon = check i ((s + 1) % 2 ^ 32) str in
    let other = check i (2 ^ 32 - 1) str in
    if isxdigit c
    then digit
    else if c == b':'
    then if (i / 2 + 2 ^ 32 - 1) % 2 ^ 32 == s then colon else (i, (s + 1) % 2 ^ 32)
    else other

-- The loop that reads the string; the character behind two digits is skipped.
unfoldable pub read_mac : ℕ → List ℕ → List ℕ
read_mac zero str = []
read_mac (suc n) [] = []
read_mac (suc n) (hi ∷ []) = []
read_mac (suc n) (hi ∷ lo ∷ []) = bit_or (dehex hi * 2 ^ 4 % 256) (dehex lo) ∷ []
read_mac (suc n) (hi ∷ lo ∷ sep ∷ str) = bit_or (dehex hi * 2 ^ 4 % 256) (dehex lo) ∷ read_mac n str

-- A random address in the locally administered range, from six random bytes.
unfoldable pub random_mac : List ℕ → List ℕ
random_mac [] = []
random_mac (b ∷ bs) = bit_or (bit_and b 0xfe) 0x02 ∷ bs

abbrev pub is_valid : ℕ × ℕ → Bool
is_valid counted = counted.0 == 12 && counted.1 == 5

-- `uhyve_set_mac` for the value of HERMIT_NETIF_MAC and what /dev/urandom yields.
unfoldable pub uhyve_set_mac : Option (List ℕ) → List ℕ → List ℕ
uhyve_set_mac none random = random_mac random
uhyve_set_mac (some str) random =
    if is_valid (check 0 0 str) then read_mac 6 str else random_mac random

-- The text of `snprintf("%02x:%02x:…")`.
abbrev pub mac_text : ℕ → ℕ → ℕ → ℕ → ℕ → ℕ → List ℕ
mac_text a b c d e f =
    hexchar (a / 16)
    ∷ hexchar (a % 16)
    ∷ b':'
    ∷ hexchar (b / 16)
    ∷ hexchar (b % 16)
    ∷ b':'
    ∷ hexchar (c / 16)
    ∷ hexchar (c % 16)
    ∷ b':'
    ∷ hexchar (d / 16)
    ∷ hexchar (d % 16)
    ∷ b':'
    ∷ hexchar (e / 16)
    ∷ hexchar (e % 16)
    ∷ b':'
    ∷ hexchar (f / 16)
    ∷ hexchar (f % 16)
    ∷ []
