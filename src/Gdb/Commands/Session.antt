-- ===== src/Gdb/Commands/Session.antt =====
-- A session: packets with commands come in, and the answers of those that have one go out, in their
-- order.
use hermit_caves.Base.{
  ℕ, zero, suc, ◌+◌, ◌-◌, ◌≤◌, ◌<◌, true, ◌>>=◌, bind_some, Option, none, some, List, [], ◌∷◌, ◌++◌,
  ◌≡◌, ◌≢◌, refl, sym, ap, ◌∙◌, length, length-append, get_or, arith, append-nil, append_assoc,
}
use hermit_caves.Gdb.Packet.{
  Recv, byte, Conn, bufmax, put, send_packet, returned, response, send_response,
}
use hermit_caves.Gdb.Packet.Framing.{
  encode, arriving, arriving-append, IsPayload, stored, store_from_before,
}
use hermit_caves.Gdb.Packet.Receive.{recv_packet-encode}
use hermit_caves.Gdb.Packet.Send.{told, send_packet_lem}
use hermit_caves.Gdb.Commands.State.{Machine, Target, Step, answer, silent, resume, leave, crash}
use hermit_caves.Gdb.Commands.{handle_command}
use hermit_caves.Gdb.Commands.Loop.{Ended, resumed, perform, command_loop, gdb_handle_exception}

-- The specification: what the debugger sends, what it gets, and the target when the stub returns.
abbrev pub Talk : Type 0
Talk = List ℕ × List ℕ × Target

-- From the end of a command: the debugger acknowledges an answer, and goes on. A query that
-- `gdb_handle_query` does not know on a guest with more than one CPU has no answer, and neither have `s`
-- and `c` when they resume the guest.
abbrev pub respond : Step → (Target → Option Talk) → Option Talk
respond (answer text t) spec =
    spec t >>= λ talk. some (b'+' ∷ talk.0, encode text ++ talk.1, talk.2)
respond (silent t) spec = spec t
respond (resume t) spec = some ([], [], t)
respond (leave text t) spec = some (b'+' ∷ [], encode text, t)
respond crash spec = none

-- The commands are carried out one by one, and each packet is acknowledged; none if the stub crashes,
-- or the commands do not make it return.
abbrev pub converse : Machine → ℕ → Target → List (List ℕ) → Option Talk
converse m sigval t [] = none
converse m sigval t (text ∷ texts) =
    respond (handle_command m sigval text t) (λ t'. converse m sigval t' texts) >>= λ talk.
    some (encode text ++ talk.0, b'+' ∷ talk.1, talk.2)

-- A packet that fits and has no `:` where a sequence number would end.
abbrev pub ArePackets : List (List ℕ) → Type 0
ArePackets [] = Unit {0}
ArePackets (text ∷ texts) =
    (IsPayload text × (length text < bufmax - 1) × (get_or text 2 0 ≢ b':')) × ArePackets texts

-- Every `send` works, and the buffer has no `:` there either.
abbrev pub IsReady : Conn → Type 0
IsReady c = ((n : ℕ) → c.sends n ≡ true) × (c.in_buffer 2 ≢ b':')

-- The connection after the stub sent something, and received something.
abbrev spoken : Conn → List ℕ → (ℕ → ℕ) → Conn
spoken c out buffer = record c {
  sent = c.sent + length out;
  output = c.output ++ out;
  in_buffer = buffer;
}

-- What the stub does has the input and the output of the specification.
abbrev Follows : (Conn → List Recv → Ended) → Conn → Talk → Type 0
Follows run c talk =
    (rest : List Recv)
    → (buffer : ℕ → ℕ) × (run c (arriving talk.0 rest)
        ≡ resumed talk.2 (spoken c talk.1 buffer) rest)

some_eq : {a b : Talk} → some a ≡ some b → a ≡ b
some_eq h = cc

stored_third :
    (text : List ℕ) (buffer : ℕ → ℕ)
    → buffer 2 ≢ b':'
    → get_or text 2 0 ≢ b':'
    → stored buffer text 2 ≢ b':'
stored_third [] buffer h k = h
stored_third (a ∷ []) buffer h k = h
stored_third (a ∷ b ∷ []) buffer h k = λ e. cc
stored_third (a ∷ b ∷ d ∷ text) buffer h k =
    let before = store_from_before text (put (put (put buffer 0 a) 1 b) 2 d) 3 2 (omega arith) in
    ground (arith, before)

send_answer :
    (c : Conn) (text : List ℕ) (rest : List Recv)
    → IsReady c
    → send_packet text c (byte b'+' ∷ rest) ≡ returned (told c (encode text)) rest
send_answer c text rest h = send_packet_lem c text [] rest h.0 tt ∙ rw append-nil (ground arith)

spoken-told :
    (c : Conn) (out out' : List ℕ) (buffer : ℕ → ℕ)
    → spoken (told c out) out' buffer ≡ spoken c (out ++ out') buffer
spoken-told c out out' buffer = rw append_assoc (ground (arith, length-append {0} out out'))

spoken_nil : (c : Conn) → spoken c [] c.in_buffer ≡ c
spoken_nil c = rw append-nil (ground arith)

respond-perform :
    (step : Step) (spec : Target → Option Talk) (next : Target → Conn → List Recv → Ended)
    (c : Conn) (talk : Talk)
    → IsReady c
    → ((t : Target) (c' : Conn) (talk' : Talk)
        → IsReady c'
        → spec t ≡ some talk'
        → Follows (next t) c' talk')
    → respond step spec ≡ some talk
    → Follows (perform step next) c talk
unfolding perform
respond-perform (answer text t) spec next c talk ready follows h rest =
    let (talk', e, f) = bind_some (spec t) _ talk h in
    let (buffer, ends) = follows t (told c (encode text)) talk' ready e rest in
    (
      buffer,
      rw (sym (some_eq f)) (
          rw (send_answer c text (arriving talk'.0 rest) ready, perform)
            (ends ∙ ap (λ d. resumed talk'.2 d rest) (spoken-told c (encode text) talk'.1 buffer))),
    )
respond-perform (silent t) spec next c talk ready follows h rest = follows t c talk ready h rest
respond-perform (resume t) spec next c talk ready follows h rest =
    (c.in_buffer, rw (sym (some_eq h)) (ap (λ d. resumed t d rest) (sym (spoken_nil c))))
respond-perform (leave text t) spec next c talk ready follows h rest =
    (c.in_buffer, rw (sym (some_eq h)) (rw (send_answer c text rest ready, perform) refl))
respond-perform crash spec next c talk ready follows h rest = cc

-- A packet is received.
abbrev heard : Conn → List ℕ → Conn
heard c text = record c {
  sent = c.sent + 1;
  output = c.output ++ (b'+' ∷ []);
  in_buffer = stored c.in_buffer text;
}

command_loop-converse :
    (m : Machine) (sigval : ℕ) (texts : List (List ℕ)) (fuel : ℕ) (t : Target) (c : Conn)
    (talk : Talk)
    → length texts ≤ fuel
    → ArePackets texts
    → IsReady c
    → converse m sigval t texts ≡ some talk
    → Follows (command_loop m sigval fuel t) c talk
unfolding command_loop
command_loop-converse m sigval [] fuel t c talk k p ready h rest = cc
command_loop-converse m sigval (text ∷ texts) zero t c talk k p ready h rest = absurd (omega arith)
command_loop-converse m sigval (text ∷ texts) (suc fuel) t c talk k p ready h rest =
    let (talk', e, f) = bind_some (respond (handle_command m sigval text t) _) _ talk h in
    let (buffer, ends) =
      respond-perform (handle_command m sigval text t) (λ t'. converse m sigval t' texts)
        (command_loop m sigval fuel) (heard c text) talk'
        (ready.0, stored_third text c.in_buffer ready.1 p.0.2)
        (λ t' c' talk'' ready' e'.
          command_loop-converse m sigval texts fuel t' c' talk'' (omega arith) p.1 ready' e')
        e rest in
    (
      buffer,
      rw (sym (some_eq f)) (
          rw (arriving-append (encode text) talk'.0 rest) (
            rw
              (
                recv_packet-encode c [] text (arriving talk'.0 rest) tt p.0.0 p.0.1 (ready.0 c.sent)
                    (stored_third text c.in_buffer ready.1 p.0.2),
                command_loop,
              )
              (ends
                ∙ ap (λ d. resumed talk'.2 d rest) (spoken-told c (b'+' ∷ []) talk'.1 buffer)))),
    )

-- Let the debugger acknowledge each packet that it gets, and send commands for which the specification
-- has an end. Then the handling of an exception returns, in as many rounds as there are commands at
-- most, with the target of the specification; it has taken exactly the commands and the
-- acknowledgements from what arrives, and has sent the signal, and then for each command, in order, an
-- acknowledgement and the framed answer, if the command has one: an unknown query on a guest with more
-- than one CPU is acknowledged and not answered, and an `s` or `c` that resumes the guest has no answer
-- here. Every `send` works; the packets have data of at most 4094 ASCII characters without NUL, `$` and
-- `#`; and neither they nor the buffer have `:` at index 2.
pub gdb_handle_exception-converse :
    (m : Machine) (sigval : ℕ) (texts : List (List ℕ)) (fuel : ℕ) (t : Target) (c : Conn)
    (talk : Talk) (rest : List Recv)
    → length texts ≤ fuel
    → ArePackets texts
    → IsReady c
    → converse m sigval t texts ≡ some talk
    → (buffer : ℕ → ℕ) × (gdb_handle_exception m sigval fuel t c (arriving (b'+' ∷ talk.0) rest)
        ≡ resumed talk.2
            (record c {
              sent = c.sent + length (encode (response b'S' sigval) ++ talk.1);
              output = c.output ++ (encode (response b'S' sigval) ++ talk.1);
              in_buffer = buffer;
            })
            rest)
unfolding gdb_handle_exception send_response
gdb_handle_exception-converse m sigval texts fuel t c talk rest k p ready h =
    let stop = response b'S' sigval in
    let (buffer, ends) =
      command_loop-converse m sigval texts fuel t (told c (encode stop)) talk k p ready h rest in
    (
      buffer,
      rw (send_answer c stop (arriving talk.0 rest) ready)
          (ends ∙ ap (λ d. resumed talk.2 d rest) (spoken-told c (encode stop) talk.1 buffer)),
    )
