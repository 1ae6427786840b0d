-- ===== src/Gdb/Packet/Tests.antt =====
-- Runs of the packet layer, and instances of its theorems.
use hermit_caves.Base.{ℕ, ◌+◌, ◌-◌, ◌*◌, true, List, [], ◌∷◌, ◌++◌, ◌≡◌, ◌≢◌, refl, arith, length}
use hermit_caves.Gdb.Hex.{hex, hexchar, hex_byte}
use hermit_caves.Gdb.Packet.{
  byte, Conn, send_char, send_data, send_packet_no_ack, send_packet, returned, packet, recv_packet,
  c_string, bufmax,
}
use hermit_caves.Gdb.Packet.Framing.{encode, arriving, stored}
use hermit_caves.Gdb.Packet.Receive.{recv_packet-encode}
use hermit_caves.Gdb.Packet.Faults.{recv_packet_corrupt, recv_packet_stale}
use hermit_caves.Gdb.Packet.Send.{copies, send_packet_lem}

abbrev fresh : Conn
fresh = record { sends = λ n. true; sent = 0; output = []; in_buffer = λ i. 0 }

-- `$m4#a1`.
abbrev text : List ℕ
text = b'$' ∷ b'm' ∷ b'4' ∷ b'#' ∷ b'a' ∷ b'1' ∷ []

encode-text : encode (b'm' ∷ b'4' ∷ []) ≡ text
unfolding hexchar
encode-text = refl

sends_text : (send_packet_no_ack fresh (b'm' ∷ b'4' ∷ [])).output ≡ text
unfolding send_packet_no_ack send_data send_char hexchar
sends_text = refl

recv_packet-encode_example :
    recv_packet fresh (arriving (b'+' ∷ []) (arriving (encode (b'm' ∷ b'4' ∷ [])) []))
    ≡ packet
        (b'm' ∷ b'4' ∷ [])
        (record fresh {
          sent = 0 + 1;
          output = [] ++ (b'+' ∷ []);
          in_buffer = stored (λ i. 0) (b'm' ∷ b'4' ∷ []);
        })
        []
recv_packet-encode_example =
    recv_packet-encode fresh (b'+' ∷ []) (b'm' ∷ b'4' ∷ []) [] (omega arith) (omega arith)
      (omega arith) refl (λ e. cc)

bad_digits : hex_byte b'0' b'0' ≢ 0xa1
unfolding hex_byte hex
bad_digits e = cc

recv_packet_corrupt_example :
    recv_packet fresh (byte b'$' ∷ byte b'm' ∷ byte b'4' ∷ byte b'#' ∷ byte b'0' ∷ byte b'0' ∷ [])
    ≡ recv_packet
        (record fresh {
          sent = 0 + 1;
          output = [] ++ (b'-' ∷ []);
          in_buffer = stored (λ i. 0) (b'm' ∷ b'4' ∷ []);
        })
        []
recv_packet_corrupt_example =
    recv_packet_corrupt fresh [] (b'm' ∷ b'4' ∷ []) b'0' b'0' [] tt (omega arith) (omega arith)
      (omega arith) (omega arith) bad_digits refl

-- The buffer after `$12:m4#…` was received.
abbrev used : Conn
used = record fresh { in_buffer = stored (λ i. 0) (b'1' ∷ b'2' ∷ b':' ∷ b'm' ∷ b'4' ∷ []) }

recv_packet_stale_example :
    recv_packet used (arriving (encode (b'g' ∷ [])) [])
    ≡ packet
        (c_string (bufmax - 3) (stored used.in_buffer (b'g' ∷ [])) 3)
        (record used {
          sent = 0 + 3;
          output = [] ++ (b'+' ∷ b'g' ∷ 0 ∷ []);
          in_buffer = stored used.in_buffer (b'g' ∷ []);
        })
        []
recv_packet_stale_example = recv_packet_stale used b'g' [] (omega arith) (λ n. refl) refl

send_packet_lem_example :
    send_packet (b'O' ∷ b'K' ∷ []) fresh (arriving (b'-' ∷ []) (byte b'+' ∷ []))
    ≡ returned
        (record fresh {
          sent = 0 + 2 * length (encode (b'O' ∷ b'K' ∷ []));
          output = [] ++ copies 2 (encode (b'O' ∷ b'K' ∷ []));
        })
        []
send_packet_lem_example =
    send_packet_lem fresh (b'O' ∷ b'K' ∷ []) (b'-' ∷ []) [] (λ n. refl) (omega arith)
