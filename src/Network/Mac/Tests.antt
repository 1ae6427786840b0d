-- ===== src/Network/Mac/Tests.antt =====
-- Runs of `uhyve_set_mac`, and an instance of its theorem.
use hermit_caves.Base.{some, [], ◌∷◌, ◌≡◌, refl, arith}
use hermit_caves.Network.Mac.{uhyve_set_mac, mac_text, check, read_mac, dehex, isxdigit}
use hermit_caves.Network.Mac.Format.{uhyve_set_mac-mac_text}

-- A colon may stand behind an odd number of digits; the digits are read at their fixed places then.
odd_groups :
    uhyve_set_mac
      (some (
        b'1' ∷ b'2' ∷ b'3' ∷ b':' ∷ b'4' ∷ b':' ∷ b'5' ∷ b'6' ∷ b':' ∷ b'7' ∷ b'8' ∷ b':' ∷ b'9'
        ∷ b'a' ∷ b':' ∷ b'b' ∷ b'c' ∷ []))
      []
    ≡ 0x12 ∷ 0x04 ∷ 0x56 ∷ 0x78 ∷ 0x9a ∷ 0xbc ∷ []
unfolding uhyve_set_mac check read_mac dehex isxdigit
odd_groups = refl

uhyve_set_mac-mac_text_example :
    uhyve_set_mac (some (mac_text 0x52 0x54 0 0xab 0xff 1)) []
    ≡ 0x52 ∷ 0x54 ∷ 0 ∷ 0xab ∷ 0xff ∷ 1 ∷ []
uhyve_set_mac-mac_text_example =
    uhyve_set_mac-mac_text 0x52 0x54 0 0xab 0xff 1 [] (omega arith) (omega arith) (omega arith)
      (omega arith) (omega arith) (omega arith)
