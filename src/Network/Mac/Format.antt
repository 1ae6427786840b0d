-- ===== src/Network/Mac/Format.antt =====
-- The address that `uhyve_set_mac` reads from the text of an address.
use hermit_caves.Base.{
  ℕ, ◌+◌, ◌-◌, ◌*◌, ◌/◌, ◌%◌, ◌^◌, ◌<◌, bit_or, true, ◌==◌, some, List, [], ◌∷◌, ◌≡◌, refl, ◌∙◌,
  arith,
}
use hermit_caves.Base.Bits.{bit_or_disjoint}
use hermit_caves.Base.Ranges.{holds_below, holds_below_at}
use hermit_caves.Gdb.Hex.{hexchar}
use hermit_caves.Network.Mac.{dehex, isxdigit, check, read_mac, uhyve_set_mac, mac_text}

isxdigit-hexchar : (k : ℕ) → k < 16 → isxdigit (hexchar k) ≡ true
unfolding isxdigit hexchar holds_below
isxdigit-hexchar k h = holds_below_at 16 (λ x. isxdigit (hexchar x)) k refl h

dehex-hexchar : (k : ℕ) → k < 16 → dehex (hexchar k) ≡ k
unfolding dehex hexchar holds_below
dehex-hexchar k h =
    let e = holds_below_at 16 (λ x. dehex (hexchar x) == x) k refl h in ground (arith, e)

check-pair :
    (i s j k : ℕ) (str : List ℕ)
    → j < 16
    → k < 16
    → check i s (hexchar j ∷ hexchar k ∷ str) ≡ check (i + 1 + 1) s str
unfolding check
check-pair i s j k str h g =
    rw (isxdigit-hexchar j h, check) (rw (isxdigit-hexchar k g, check) refl)

byte-digits :
    (b : ℕ)
    → b < 256
    → bit_or (dehex (hexchar (b / 16)) * 2 ^ 4 % 256) (dehex (hexchar (b % 16))) ≡ b
byte-digits b h =
    let hi : dehex (hexchar (b / 16)) ≡ b / 16 = dehex-hexchar (b / 16) (omega arith) in
    let lo : dehex (hexchar (b % 16)) ≡ b % 16 = dehex-hexchar (b % 16) (omega arith) in
    let small : b / 16 * 2 ^ 4 % 256 ≡ b / 16 * 2 ^ 4 = omega arith in
    rw hi (rw lo (rw small (omega (arith, bit_or_disjoint 4 (b / 16) (b % 16) (omega arith)))))

colon :
    (i s : ℕ) (str : List ℕ)
    → (i / 2 + 2 ^ 32 - 1) % 2 ^ 32 ≡ s
    → check i s (b':' ∷ str) ≡ check i ((s + 1) % 2 ^ 32) str
unfolding check isxdigit
colon i s str h = rw h (ground arith)

-- Two digits and a colon.
group :
    (i s b : ℕ) (str : List ℕ)
    → b < 256
    → ((i + 1 + 1) / 2 + 2 ^ 32 - 1) % 2 ^ 32 ≡ s
    → check i s (hexchar (b / 16) ∷ hexchar (b % 16) ∷ b':' ∷ str)
      ≡ check (i + 1 + 1) ((s + 1) % 2 ^ 32) str
group i s b str h e =
    check-pair i s (b / 16) (b % 16) (b':' ∷ str) (omega arith) (omega arith)
    ∙ colon (i + 1 + 1) s str e

check-end : (i s : ℕ) → check i s [] ≡ (i, s)
unfolding check
check-end i s = refl

check-mac_text :
    (a b c d e f : ℕ)
    → a < 256
    → b < 256
    → c < 256
    → d < 256
    → e < 256
    → f < 256
    → check 0 0 (mac_text a b c d e f) ≡ (12, 5)
check-mac_text a b c d e f ha hb hc hd he hf =
    let t6 : List ℕ = hexchar (f / 16) ∷ hexchar (f % 16) ∷ [] in
    let t5 : List ℕ = hexchar (e / 16) ∷ hexchar (e % 16) ∷ b':' ∷ t6 in
    let t4 : List ℕ = hexchar (d / 16) ∷ hexchar (d % 16) ∷ b':' ∷ t5 in
    let t3 : List ℕ = hexchar (c / 16) ∷ hexchar (c % 16) ∷ b':' ∷ t4 in
    let t2 : List ℕ = hexchar (b / 16) ∷ hexchar (b % 16) ∷ b':' ∷ t3 in
    group 0 0 a t2 ha (omega arith)
    ∙ group 2 1 b t3 hb (omega arith)
    ∙ group 4 2 c t4 hc (omega arith)
    ∙ group 6 3 d t5 hd (omega arith)
    ∙ group 8 4 e t6 he (omega arith)
    ∙ check-pair 10 5 (f / 16) (f % 16) [] (omega arith) (omega arith)
    ∙ check-end 12 5

-- The text of any address, as the program itself writes it, is accepted and read back as the address;
-- nothing random is used. An address is six bytes.
pub uhyve_set_mac-mac_text :
    (a b c d e f : ℕ) (random : List ℕ)
    → a < 256
    → b < 256
    → c < 256
    → d < 256
    → e < 256
    → f < 256
    → uhyve_set_mac (some (mac_text a b c d e f)) random ≡ a ∷ b ∷ c ∷ d ∷ e ∷ f ∷ []
unfolding uhyve_set_mac read_mac
uhyve_set_mac-mac_text a b c d e f random ha hb hc hd he hf =
    rw (check-mac_text a b c d e f ha hb hc hd he hf, uhyve_set_mac)
      (rw (byte-digits a ha) (
        rw (byte-digits b hb) (
          rw (byte-digits c hc)
            (rw (byte-digits d hd) (rw (byte-digits e he) (rw (byte-digits f hf) refl))))))
