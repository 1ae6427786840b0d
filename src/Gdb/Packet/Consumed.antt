-- ===== src/Gdb/Packet/Consumed.antt =====
-- `recv_packet` and `send_packet` use up what arrives.
use hermit_caves.Base.{
  ℕ, suc, ◌-◌, ◌≤◌, ◌<◌, ltb, ◌==◌, Bool, true, false, List, [], ◌∷◌, arith, length,
}
use hermit_caves.Gdb.Packet.{
  Recv, byte, fault, Conn, Mode, Frame, Next, go, ret, die, Received, packet, null, exited,
  recv_packet, receive, advance, scanning, fresh_frame, Sent, returned, aborted, send_packet,
  send_response, c_string, send_packet_no_ack, bufmax, response,
}

-- What a packet leaves of the input is less than `n` elements; nothing is said of another result.
abbrev pub Shorter : ℕ → Received → Type 0
Shorter n (packet text c rest) = length rest < n
Shorter n _ = Unit {0}

Shorter-suc : (n : ℕ) (r : Received) → Shorter n r → Shorter (suc n) r
Shorter-suc n (packet text c rest) h = omega arith
Shorter-suc n (null c rest) h = tt
Shorter-suc n (exited c) h = tt

receive-Shorter :
    (input : List Recv) (mode : Mode) (f : Frame) (c : Conn)
    → Shorter (length input) (receive mode f c input)
unfolding receive
receive-Shorter [] mode f c = tt
receive-Shorter (fault ∷ rest) mode f c = tt
receive-Shorter (byte ch ∷ rest) mode f c =
    on_ascii (ltb ch 128) (λ mode' f' c'. receive-Shorter rest mode' f' c')
  where
    Again : Type 0
    Again =
        (mode' : Mode) (f' : Frame) (c' : Conn) → Shorter (length rest) (receive mode' f' c' rest)

    on_step :
        (next : Next)
        → Again
        → Shorter (suc (length rest)) (elim next [
          | go mode' f' c' ↦ receive mode' f' c' rest
          | ret k c' ↦ packet (c_string (bufmax - k) c'.in_buffer k) c' rest
          | die c' ↦ exited c'
        ])
    on_step (go mode' f' c') again =
        Shorter-suc (length rest) (receive mode' f' c' rest) (again mode' f' c')
    on_step (ret k c') again = omega arith
    on_step (die c') again = tt

    on_ascii :
        (b : Bool)
        → Again
        → Shorter (suc (length rest)) (elim b [
          | false ↦ exited c
          | true ↦ elim (advance mode f c ch) [
            | go mode' f' c' ↦ receive mode' f' c' rest
            | ret k c' ↦ packet (c_string (bufmax - k) c'.in_buffer k) c' rest
            | die c' ↦ exited c'
          ]
        ])
    on_ascii false again = tt
    on_ascii true again = on_step (advance mode f c ch) again

pub recv_packet-Shorter :
    (input : List Recv) (c : Conn) → Shorter (length input) (recv_packet c input)
unfolding recv_packet
recv_packet-Shorter input c = receive-Shorter input scanning fresh_frame c

abbrev pub NoLonger : ℕ → Sent → Type 0
NoLonger n (returned c rest) = length rest ≤ n
NoLonger n (aborted c) = Unit {0}

NoLonger-suc : (n : ℕ) (s : Sent) → NoLonger n s → NoLonger (suc n) s
NoLonger-suc n (returned c rest) h = omega arith
NoLonger-suc n (aborted c) h = tt

pub send_packet-NoLonger :
    (input : List Recv) (text : List ℕ) (c : Conn)
    → NoLonger (length input) (send_packet text c input)
unfolding send_packet
send_packet-NoLonger [] text c = omega arith
send_packet-NoLonger (fault ∷ rest) text c = omega arith
send_packet-NoLonger (byte ch ∷ rest) text c =
    on_ascii (ltb ch 128) (send_packet-NoLonger rest text (send_packet_no_ack c text))
  where
    told : Conn
    told = send_packet_no_ack c text

    on_reply :
        (b : Bool)
        → NoLonger (length rest) (send_packet text told rest)
        → NoLonger
            (suc (length rest))
            (elim b [ true ↦ returned told rest | false ↦ send_packet text told rest ])
    on_reply true h = omega arith
    on_reply false h = NoLonger-suc (length rest) (send_packet text told rest) h

    on_ascii :
        (b : Bool)
        → NoLonger (length rest) (send_packet text told rest)
        → NoLonger (suc (length rest)) (elim b [
          | false ↦ aborted told
          | true ↦ elim (ch == b'+') [
            | true ↦ returned told rest
            | false ↦ send_packet text told rest
          ]
        ])
    on_ascii false h = tt
    on_ascii true h = on_reply (ch == b'+') h

pub send_response-NoLonger :
    (code sigval : ℕ) (wait_for_ack : Bool) (c : Conn) (input : List Recv)
    → NoLonger (length input) (send_response code sigval wait_for_ack c input)
unfolding send_response
send_response-NoLonger code sigval true c input =
    send_packet-NoLonger input (response code sigval) c
send_response-NoLonger code sigval false c input = omega arith
