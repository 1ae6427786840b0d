-- ===== src/Gdb/Packet/Receive.antt =====
-- What `recv_packet` makes of a packet that arrives.
use hermit_caves.Base.{
  ℕ, ◌+◌, ◌-◌, ◌*◌, ◌/◌, ◌%◌, ◌^◌, ◌<◌, ltb, true, List, [], ◌∷◌, ◌++◌, ◌≡◌, ◌≢◌, refl, ◌∙◌, sym,
  ap, length, arith, lt→ltb, ltb→lt,
}
use hermit_caves.Base.Ranges.{holds_below, holds_below_at}
use hermit_caves.Gdb.Hex.{hex, hexchar, hex_byte}
use hermit_caves.Gdb.Hex.RoundTrip.{hex_byte-hexchar}
use hermit_caves.Gdb.Packet.{
  Recv, byte, Conn, Mode, scanning, reading, first_digit, second_digit, Frame, fresh_frame, go, ret,
  on_data, accept, refuse, send_char, advance, receive, packet, recv_packet, bufmax, put, c_string,
}
use hermit_caves.Gdb.Packet.Framing.{
  sum_from, encode, arriving, arriving-append, IsPayload, IsNoise, store_from, stored,
  c_string-stored, sum_from-lt,
}

-- One character whose step goes on.
pub receive_go :
    (mode : Mode) (f : Frame) (c : Conn) (ch : ℕ) (rest : List Recv) (mode' : Mode) (f' : Frame)
    (c' : Conn)
    → ch < 128
    → advance mode f c ch ≡ go mode' f' c'
    → receive mode f c (byte ch ∷ rest) ≡ receive mode' f' c' rest
unfolding receive
receive_go mode f c ch rest mode' f' c' h e = rw (lt→ltb ch 128 h, receive) (rw (e, receive))

pub receive_noise :
    (noise : List ℕ) (f : Frame) (c : Conn) (rest : List Recv)
    → IsNoise noise
    → receive scanning f c (arriving noise rest) ≡ receive scanning f c rest
receive_noise [] f c rest h = refl
receive_noise (ch ∷ noise) f c rest h =
    receive_go scanning f c ch (arriving noise rest) scanning f c h.0.0
      (unfold advance in ground arith)
    ∙ receive_noise noise f c rest h.1

abbrev step : Frame → ℕ → Frame
step f ch = record f { checksum = (f.checksum + ch) % 256; count = f.count + 1 }

abbrev keep : Frame → Conn → ℕ → Conn
keep f c ch = record c { in_buffer = put c.in_buffer f.count ch }

-- The frame after the data.
abbrev after : Frame → List ℕ → Frame
after f [] = f
after f (ch ∷ chs) = after (step f ch) chs

receive_payload :
    (chs : List ℕ) (f : Frame) (c : Conn) (rest : List Recv)
    → IsPayload chs
    → f.count + length chs < bufmax - 1
    → receive reading f c (arriving chs rest)
      ≡ receive reading
          (after f chs)
          (record c { in_buffer = store_from c.in_buffer f.count chs })
          rest
receive_payload [] f c rest p h = refl
receive_payload (ch ∷ chs) f c rest p h =
    receive_go reading f c ch (arriving chs rest) reading (step f ch) (keep f c ch) p.0.0
      (unfold advance on_data in ground arith)
    ∙ receive_payload chs (step f ch) (keep f c ch) rest p.1 (omega arith)

after_lem :
    (chs : List ℕ) (f : Frame)
    → after f chs ≡ record f { checksum = sum_from f.checksum chs; count = f.count + length chs }
after_lem [] f = ground arith
after_lem (ch ∷ chs) f = after_lem chs (step f ch) ∙ ground arith

-- From the start of a packet to the second digit of its checksum.
abbrev pub arrived : Conn → List ℕ → Conn
arrived c chs = record c { in_buffer = stored c.in_buffer chs }

abbrev pub last_frame : List ℕ → ℕ → Frame
last_frame chs hi = record {
  checksum = sum_from 0 chs;
  xmitcsum = hex hi * 2 ^ 4 % 256;
  count = length chs;
}

pub receive_frame :
    (chs : List ℕ) (f : Frame) (c : Conn) (hi : ℕ) (rest : List Recv)
    → IsPayload chs
    → length chs < bufmax - 1
    → hi < 128
    → receive scanning f c (byte b'$' ∷ arriving chs (byte b'#' ∷ byte hi ∷ rest))
      ≡ receive second_digit (last_frame chs hi) (arrived c chs) rest
receive_frame chs f c hi rest p h k =
    receive_go scanning f c b'$' _ reading fresh_frame c (omega arith) (unfold advance in refl)
    ∙ receive_payload chs fresh_frame c _ p (omega arith)
    ∙ rw (after_lem chs fresh_frame) (
        receive_go reading full kept b'#' _ first_digit full
          (record kept { in_buffer = put kept.in_buffer full.count 0 }) (omega arith)
          (unfold advance on_data in refl)
        ∙ receive_go first_digit full (record kept { in_buffer = put kept.in_buffer full.count 0 })
            hi rest second_digit (record full { xmitcsum = hex hi * 2 ^ 4 % 256 })
            (record kept { in_buffer = put kept.in_buffer full.count 0 }) k (unfold advance in refl)
        ∙ same)
  where
    zero_add : 0 + length chs ≡ length chs
    zero_add = omega arith

    full : Frame
    full = record { checksum = sum_from 0 chs; xmitcsum = 255; count = 0 + length chs }

    kept : Conn
    kept = record c { in_buffer = store_from c.in_buffer 0 chs }

    same :
        receive second_digit
          (record full { xmitcsum = hex hi * 2 ^ 4 % 256 })
          (record kept { in_buffer = put kept.in_buffer full.count 0 })
          rest
        ≡ receive second_digit (last_frame chs hi) (arrived c chs) rest
    same = rw zero_add

-- The digits that the sender computes are the ones that are expected.
pub sum-digits :
    (chs : List ℕ)
    → hex_byte (hexchar (sum_from 0 chs / 16)) (hexchar (sum_from 0 chs % 16)) ≡ sum_from 0 chs
sum-digits chs = hex_byte-hexchar (sum_from 0 chs) (sum_from-lt chs 0 (omega arith))

pub receive_ret :
    (mode : Mode) (f : Frame) (c : Conn) (ch : ℕ) (rest : List Recv) (k : ℕ) (c' : Conn)
    → ch < 128
    → advance mode f c ch ≡ ret k c'
    → receive mode f c (byte ch ∷ rest) ≡ packet (c_string (bufmax - k) c'.in_buffer k) c' rest
unfolding receive
receive_ret mode f c ch rest k c' h e = rw (lt→ltb ch 128 h, receive) (rw (e, receive))

abbrev acknowledged : Conn → Conn
acknowledged c = record c { sent = c.sent + 1; output = c.output ++ (b'+' ∷ []) }

advance_good :
    (f : Frame) (c : Conn) (lo : ℕ)
    → f.checksum ≡ (f.xmitcsum + hex lo) % 256
    → c.sends c.sent ≡ true
    → c.in_buffer 2 ≢ b':'
    → advance second_digit f c lo ≡ ret 0 (acknowledged c)
unfolding advance accept send_char
advance_good f c lo good works free = ground arith

pub advance_bad :
    (f : Frame) (c : Conn) (lo : ℕ)
    → f.checksum ≢ (f.xmitcsum + hex lo) % 256
    → c.sends c.sent ≡ true
    → advance second_digit f c lo
      ≡ go scanning f (record c { sent = c.sent + 1; output = c.output ++ (b'-' ∷ []) })
unfolding advance refuse send_char
advance_bad f c lo bad works = ground arith

pub hexchar-lt : (i : ℕ) → i < 16 → hexchar i < 128
unfolding hexchar holds_below
hexchar-lt i h = ltb→lt _ _ (holds_below_at 16 (λ x. ltb (hexchar x) 128) i refl h)

-- A packet that `send_packet_no_ack` frames, behind any ASCII characters but `$`, is received: the
-- result is its data, what arrives behind it is still to be read, `+` has been sent, and the
-- buffer holds the data and a NUL. Needed are data of at most 4094 ASCII characters without NUL,
-- `$` and `#`, a `send` that works, and no `:` at index 2 of the buffer after the packet is stored
-- (which a packet of one character leaves as it was).
pub recv_packet-encode :
    (c : Conn) (noise chs : List ℕ) (rest : List Recv)
    → IsNoise noise
    → IsPayload chs
    → length chs < bufmax - 1
    → c.sends c.sent ≡ true
    → stored c.in_buffer chs 2 ≢ b':'
    → recv_packet c (arriving noise (arriving (encode chs) rest))
      ≡ packet chs
          (record c {
            sent = c.sent + 1;
            output = c.output ++ (b'+' ∷ []);
            in_buffer = stored c.in_buffer chs;
          })
          rest
unfolding recv_packet
recv_packet-encode c noise chs rest n p h works free =
    ap (λ l. receive scanning fresh_frame c (arriving noise (byte b'$' ∷ l)))
      (arriving-append chs (b'#' ∷ hi ∷ lo ∷ []) rest)
    ∙ receive_noise noise fresh_frame c _ n
    ∙ receive_frame chs fresh_frame c hi (byte lo ∷ rest) p h (hexchar-lt _ (omega (arith, small)))
    ∙ receive_ret second_digit (last_frame chs hi) (arrived c chs) lo rest 0 _
        (hexchar-lt _ (omega arith))
        (advance_good (last_frame chs hi) (arrived c chs) lo
          (sym (unfold hex_byte in sum-digits chs)) works free)
    ∙ rw (c_string-stored chs c.in_buffer (omega arith) p)
  where
    small : sum_from 0 chs < 256
    small = sum_from-lt chs 0 (omega arith)

    hi : ℕ
    hi = hexchar (sum_from 0 chs / 16)

    lo : ℕ
    lo = hexchar (sum_from 0 chs % 16)
