-- ===== src/Gdb/Packet/Send.antt =====
-- What `send_packet` puts on the wire.
use hermit_caves.Base.{
  ℕ, zero, suc, ◌+◌, ◌*◌, ◌/◌, ◌%◌, ◌<◌, true, List, [], ◌∷◌, ◌++◌, ◌≡◌, ◌≢◌, ◌∙◌, length,
  length-append, arith, append-nil, append_assoc, lt→ltb, ne→==,
}
use hermit_caves.Gdb.Hex.{hexchar}
use hermit_caves.Gdb.Packet.{
  Recv, byte, Conn, send_char, send_data, send_packet_no_ack, returned, send_packet,
}
use hermit_caves.Gdb.Packet.Framing.{sum_from, encode, arriving}

-- The connection after the characters went out.
abbrev pub told : Conn → List ℕ → Conn
told c chs = record c { sent = c.sent + length chs; output = c.output ++ chs }

-- `n` copies of a text, one behind the other.
abbrev pub copies : ℕ → List ℕ → List ℕ
copies zero chs = []
copies (suc n) chs = chs ++ copies n chs

-- Replies that are not the acknowledgement.
abbrev pub AreRefusals : List ℕ → Type 0
AreRefusals [] = Unit {0}
AreRefusals (ch ∷ chs) = ((ch < 128) × (ch ≢ b'+')) × AreRefusals chs

module _ (c : Conn) (works : (n : ℕ) → c.sends n ≡ true) where
  pub send_char_works :
      (s : ℕ) (out : List ℕ) (ch : ℕ)
      → send_char (record c { sent = s; output = out }) ch
        ≡ (true, record c { sent = s + 1; output = out ++ (ch ∷ []) })
  unfolding send_char
  send_char_works s out ch = rw (works s)

  send_data_works :
      (chs : List ℕ) (s acc : ℕ) (out : List ℕ)
      → send_data (record c { sent = s; output = out }) acc chs
        ≡ (record c { sent = s + length chs; output = out ++ chs }, sum_from acc chs)
  unfolding send_data
  send_data_works [] s acc out = rw append-nil (ground arith)
  send_data_works (ch ∷ chs) s acc out = rw (send_char_works s out ch) (
      send_data_works chs (s + 1) ((acc + ch) % 256) (out ++ (ch ∷ []))
      ∙ rw append_assoc (ground arith))

  -- One transmission.
  pub no_ack_works : (chs : List ℕ) → send_packet_no_ack c chs ≡ told c (encode chs)
  unfolding send_packet_no_ack
  no_ack_works chs =
      rw (first, send_packet_no_ack)
        (rw (send_data_works chs (c.sent + 1) 0 (c.output ++ (b'$' ∷ []))) (
          rw (send_char_works (c.sent + 1 + length chs) _ b'#') (
            rw (send_char_works (c.sent + 1 + length chs + 1) _ (hexchar (sum_from 0 chs / 16))) (
              rw
                (send_char_works (c.sent + 1 + length chs + 1 + 1) _
                  (hexchar (sum_from 0 chs % 16)))
                (simp append_assoc (
                  ground (
                    arith,
                    length-append {0} chs
                        (b'#' ∷ hexchar (sum_from 0 chs / 16) ∷ hexchar (sum_from 0 chs % 16) ∷ []),
                  )))))))
    where
      first :
          send_char c b'$'
          ≡ (true, record c { sent = c.sent + 1; output = c.output ++ (b'$' ∷ []) })
      first = send_char_works c.sent c.output b'$'

-- While every `send` works, `send_packet` returns after the first `+`; it has sent the packet once
-- for each ASCII reply before that and once more, has consumed these replies, and has changed
-- nothing else.
pub send_packet_lem :
    (c : Conn) (chs replies : List ℕ) (rest : List Recv)
    → ((n : ℕ) → c.sends n ≡ true)
    → AreRefusals replies
    → send_packet chs c (arriving replies (byte b'+' ∷ rest))
      ≡ returned
          (record c {
            sent = c.sent + suc (length replies) * length (encode chs);
            output = c.output ++ copies (suc (length replies)) (encode chs);
          })
          rest
unfolding send_packet
send_packet_lem c chs [] rest works h = rw (no_ack_works c works chs) (rw append-nil (ground arith))
send_packet_lem c chs (ch ∷ replies) rest works h =
    rw (lt→ltb ch 128 h.0.0, send_packet)
      (rw (ne→== ch b'+' h.0.1, send_packet)
        (rw (no_ack_works c works chs) (
          send_packet_lem (told c (encode chs)) chs replies rest works h.1
          ∙ simp append_assoc (ground arith))))
