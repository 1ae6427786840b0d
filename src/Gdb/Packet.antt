-- ===== src/Gdb/Packet.antt =====
-- uhyve-gdb.c: `send_char`, `recv_char`, `recv_packet`, `send_packet_no_ack`, `send_packet` and
-- `send_response`, over a socket whose behaviour is given beforehand: what each `recv` returns
-- and which `send` succeeds.
pub mod Framing
pub mod Receive
pub mod Send
pub mod Faults
pub mod Consumed
mod Tests
use hermit_caves.Base.{
  ℕ, zero, suc, ◌+◌, ◌-◌, ◌*◌, ◌/◌, ◌%◌, ◌^◌, Bool, true, false, ltb, ◌==◌, if◌then◌else◌, not,
  List, [], ◌∷◌, ◌++◌,
}
use hermit_caves.Gdb.Hex.{hex, hexchar}

abbrev pub bufmax : ℕ
bufmax = 4096

-- What one `recv` of a byte returns: the byte, or a negative result. The end of the list is the
-- orderly shutdown by the peer, after which the socket is closed and every `recv` fails.
pub data Recv : Type 0 where
  byte : ℕ → Recv
  fault : Recv

-- The sending side of the connection and the stub's static buffer. `sends n` says if the send
-- number `n` succeeds. What `recv` still delivers is a list beside it.
pub record Conn : Type 0 where
  pub sends : ℕ → Bool
  pub sent : ℕ
  pub output : List ℕ
  pub in_buffer : ℕ → ℕ

-- The result is false for -1.
unfoldable pub send_char : Conn → ℕ → Bool × Conn
send_char c ch =
    if c.sends c.sent
    then (true, record c { sent = c.sent + 1; output = c.output ++ (ch ∷ []) })
    else (false, record c { sent = c.sent + 1 })

-- `buffer[i] = ch`.
abbrev pub put : (ℕ → ℕ) → ℕ → ℕ → ℕ → ℕ
put buffer i ch j = if j == i then ch else buffer j

-- The C string from `i` on, in an array with `n` elements left.
unfoldable pub c_string : ℕ → (ℕ → ℕ) → ℕ → List ℕ
c_string zero buffer i = []
c_string (suc n) buffer i =
    let rest = c_string n buffer (i + 1) in if buffer i == 0 then [] else buffer i ∷ rest

-- Where `recv_packet` stands when it calls `recv_char`.
pub data Mode : Type 0 where
  scanning reading first_digit second_digit : Mode

-- The local variables of `recv_packet`.
pub record Frame : Type 0 where
  pub checksum : ℕ
  pub xmitcsum : ℕ
  pub count : ℕ

-- What follows a character: the next call of `recv_char`, the return of `&buffer[k]`, or the end
-- of the process by `err`.
pub data Next : Type 0 where
  go : Mode → Frame → Conn → Next
  ret : ℕ → Conn → Next
  die : Conn → Next

abbrev pub fresh_frame : Frame
fresh_frame = record { checksum = 0; xmitcsum = 255; count = 0 }

-- A character inside the packet.
pub on_data : Frame → Conn → ℕ → Next
on_data f c ch =
    if ch == b'$'
    then go reading fresh_frame c
    else if ch == b'#'
    then go first_digit f (record c { in_buffer = put c.in_buffer f.count 0 })
    else let stored = put c.in_buffer f.count ch in
      let f' : Frame = record f { checksum = (f.checksum + ch) % 256; count = f.count + 1 } in
      if ltb (f.count + 1) (bufmax - 1)
      then go reading f' (record c { in_buffer = stored })
      else go scanning f' (record c { in_buffer = put stored (f.count + 1) 0 })

-- The answer to a packet with a good checksum.
pub accept : Conn → Next
accept c =
    let (done, acked) = send_char c b'+' in
    if not done
    then die acked
    else if acked.in_buffer 2 == b':'
    then ret 3 (send_char (send_char acked (acked.in_buffer 0)).1 (acked.in_buffer 1)).1
    else ret 0 acked

-- The answer to a packet with a bad one.
pub refuse : Frame → Conn → Next
refuse f c =
    let (done, told) = send_char c b'-' in if not done then die told else go scanning f told

unfoldable pub advance : Mode → Frame → Conn → ℕ → Next
advance scanning f c ch = if ch == b'$' then go reading fresh_frame c else go scanning f c
advance reading f c ch = on_data f c ch
advance first_digit f c ch = go second_digit (record f { xmitcsum = hex ch * 2 ^ 4 % 256 }) c
advance second_digit f c ch =
    if f.checksum == (f.xmitcsum + hex ch) % 256 then accept c else refuse f c

-- The result of `recv_packet`, with what the socket still delivers: the packet, NULL, or the end
-- of the process (`err`, or the failed assertion that a character is ASCII).
pub data Received : Type 0 where
  packet : List ℕ → Conn → List Recv → Received
  null : Conn → List Recv → Received
  exited : Conn → Received

pub receive : Mode → Frame → Conn → List Recv → Received
receive mode f c [] = null c []
receive mode f c (fault ∷ rest) = null c rest
receive mode f c (byte ch ∷ rest) = elim (ltb ch 128) [
  | false ↦ exited c
  | true ↦ elim (advance mode f c ch) [
    | go mode' f' c' ↦ receive mode' f' c' rest
    | ret k c' ↦ packet (c_string (bufmax - k) c'.in_buffer k) c' rest
    | die c' ↦ exited c'
  ]
]

unfoldable pub recv_packet : Conn → List Recv → Received
recv_packet c input = receive scanning fresh_frame c input

-- The loop of `send_packet_no_ack` over the C string, and its checksum.
pub send_data : Conn → ℕ → List ℕ → Conn × ℕ
send_data c checksum [] = (c, checksum)
send_data c checksum (ch ∷ buffer) = send_data (send_char c ch).1 ((checksum + ch) % 256) buffer

unfoldable pub send_packet_no_ack : Conn → List ℕ → Conn
send_packet_no_ack c buffer =
    let body = send_data (send_char c b'$').1 0 buffer in
    let closed = (send_char body.0 b'#').1 in
    (send_char (send_char closed (hexchar (body.1 / 2 ^ 4))).1 (hexchar (body.1 % 16))).1

-- The result of `send_packet`: a return, or the failed assertion that the reply is ASCII.
pub data Sent : Type 0 where
  returned : Conn → List Recv → Sent
  aborted : Conn → Sent

unfoldable pub send_packet : List ℕ → Conn → List Recv → Sent
send_packet buffer c [] = returned (send_packet_no_ack c buffer) []
send_packet buffer c (fault ∷ rest) = returned (send_packet_no_ack c buffer) rest
send_packet buffer c (byte ch ∷ rest) =
    let c' = send_packet_no_ack c buffer in
    elim (ltb ch 128) [
      | false ↦ aborted c'
      | true ↦ elim (ch == b'+') [ true ↦ returned c' rest | false ↦ send_packet buffer c' rest ]
    ]

-- The text of `snprintf("%c%02x", code, sigval)` for a signal number below 256.
unfoldable pub response : ℕ → ℕ → List ℕ
response code sigval = code ∷ hexchar (sigval / 16) ∷ hexchar (sigval % 16) ∷ []

-- `send_response`.
unfoldable pub send_response : ℕ → ℕ → Bool → Conn → List Recv → Sent
send_response code sigval wait_for_ack c input =
    if wait_for_ack
    then send_packet (response code sigval) c input
    else returned (send_packet_no_ack c (response code sigval)) input
