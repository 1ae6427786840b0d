-- ===== src/Gdb/Packet/Faults.antt =====
-- What `recv_packet` does with a packet whose checksum is wrong, and with a packet of one
-- character over a buffer that holds a colon.
use hermit_caves.Base.{
  ℕ, ◌+◌, ◌-◌, ◌/◌, ◌%◌, ◌<◌, true, List, [], ◌∷◌, ◌++◌, ◌≡◌, ◌≢◌, refl, ◌∙◌, append_assoc, sym,
  length, arith,
}
use hermit_caves.Gdb.Hex.{hex, hexchar, hex_byte}
use hermit_caves.Gdb.Packet.{
  Recv, byte, Conn, scanning, second_digit, Frame, fresh_frame, ret, accept, advance, receive,
  packet, recv_packet, bufmax, c_string,
}
use hermit_caves.Gdb.Packet.Framing.{
  sum_from, sum_from-lt, encode, arriving, IsPayload, IsNoise, stored,
}
use hermit_caves.Gdb.Packet.Send.{send_char_works}
use hermit_caves.Gdb.Packet.Receive.{
  receive_go, receive_ret, receive_noise, receive_frame, advance_bad, hexchar-lt, last_frame,
  arrived, sum-digits,
}

-- Between packets the local variables do not matter.
scanning_frame :
    (f g : Frame) (c : Conn) (input : List Recv)
    → receive scanning f c input ≡ receive scanning g c input
unfolding receive advance
scanning_frame f g c [] = refl
scanning_frame f g c (Recv.fault ∷ rest) = refl
scanning_frame f g c (byte ch ∷ rest) = ground (arith, scanning_frame f g c rest)

-- A packet with other digits than those of its checksum is answered by `-` and dropped: the stub
-- goes on to the next packet as if it had been called behind this one, with the data in its buffer.
pub recv_packet_corrupt :
    (c : Conn) (noise chs : List ℕ) (hi lo : ℕ) (rest : List Recv)
    → IsNoise noise
    → IsPayload chs
    → length chs < bufmax - 1
    → hi < 128
    → lo < 128
    → hex_byte hi lo ≢ sum_from 0 chs
    → c.sends c.sent ≡ true
    → recv_packet c
        (arriving noise (byte b'$' ∷ arriving chs (byte b'#' ∷ byte hi ∷ byte lo ∷ rest)))
      ≡ recv_packet
          (record c {
            sent = c.sent + 1;
            output = c.output ++ (b'-' ∷ []);
            in_buffer = stored c.in_buffer chs;
          })
          rest
unfolding recv_packet hex_byte
recv_packet_corrupt c noise chs hi lo rest n p h a b bad works =
    receive_noise noise fresh_frame c _ n
    ∙ receive_frame chs fresh_frame c hi (byte lo ∷ rest) p h a
    ∙ receive_go second_digit (last_frame chs hi) (arrived c chs) lo rest scanning _ _ b
        (advance_bad (last_frame chs hi) (arrived c chs) lo (λ e. bad (sym e)) works)
    ∙ scanning_frame (last_frame chs hi) fresh_frame _ rest

advance_colon :
    (f : Frame) (c : Conn) (lo : ℕ)
    → f.checksum ≡ (f.xmitcsum + hex lo) % 256
    → ((n : ℕ) → c.sends n ≡ true)
    → c.in_buffer 2 ≡ b':'
    → advance second_digit f c lo
      ≡ ret 3 (record c {
        sent = c.sent + 3;
        output = c.output ++ (b'+' ∷ c.in_buffer 0 ∷ c.in_buffer 1 ∷ []);
      })
unfolding advance accept
advance_colon f c lo good works colon = ground (
  arith,
  send_char_works c works c.sent c.output b'+',
  send_char_works c works (c.sent + 1) (c.output ++ (b'+' ∷ [])) (c.in_buffer 0),
  send_char_works c works (c.sent + 1 + 1) ((c.output ++ (b'+' ∷ [])) ++ (c.in_buffer 0 ∷ []))
      (c.in_buffer 1),
  append_assoc c.output (b'+' ∷ []) (c.in_buffer 0 ∷ []),
  append_assoc c.output (b'+' ∷ c.in_buffer 0 ∷ []) (c.in_buffer 1 ∷ []),
)

-- A packet of one character over a buffer with `:` at index 2 is taken for one with a sequence
-- number: the result is the text that an earlier packet left from index 3 on, and the character
-- and a NUL are sent behind the acknowledgement.
pub recv_packet_stale :
    (c : Conn) (x : ℕ) (rest : List Recv)
    → IsPayload (x ∷ [])
    → ((n : ℕ) → c.sends n ≡ true)
    → c.in_buffer 2 ≡ b':'
    → recv_packet c (arriving (encode (x ∷ [])) rest)
      ≡ packet
          (c_string (bufmax - 3) (stored c.in_buffer (x ∷ [])) 3)
          (record c {
            sent = c.sent + 3;
            output = c.output ++ (b'+' ∷ x ∷ 0 ∷ []);
            in_buffer = stored c.in_buffer (x ∷ []);
          })
          rest
unfolding recv_packet
recv_packet_stale c x rest p works colon =
    receive_frame (x ∷ []) fresh_frame c hi (byte lo ∷ rest) p (omega arith)
      (hexchar-lt _ (omega (arith, small)))
    ∙ receive_ret second_digit (last_frame (x ∷ []) hi) (arrived c (x ∷ [])) lo rest 3 _
        (hexchar-lt _ (omega arith))
        (advance_colon (last_frame (x ∷ []) hi) (arrived c (x ∷ [])) lo
          (sym (unfold hex_byte in sum-digits (x ∷ []))) works colon)
  where
    small : sum_from 0 (x ∷ []) < 256
    small = sum_from-lt (x ∷ []) 0 (omega arith)

    hi : ℕ
    hi = hexchar (sum_from 0 (x ∷ []) / 16)

    lo : ℕ
    lo = hexchar (sum_from 0 (x ∷ []) % 16)
