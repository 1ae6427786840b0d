-- ===== src/Syscalls/Session.antt =====
-- `handle_syscalls` serves the requests of a guest, however the socket cuts what is sent.
use hermit_caves.Base.{
  ℕ, suc, ◌+◌, ◌^◌, ◌≤◌, ◌<◌, List, [], ◌∷◌, ◌++◌, ◌≡◌, refl, ap, ◌∙◌, length, arith, append_assoc,
  append-nil,
}
use hermit_caves.Syscalls.Wire.{Arrival, Taken, bytes_of, IsSound, stream, IsFlowing}
use hermit_caves.Syscalls.{
  Host, World, again, exited, serve, dispatch, serve_exit, sys_exit, handle_syscalls,
}
use hermit_caves.Syscalls.Requests.{Request, encode, IsRequest, reply, printed, performed, effort}
use hermit_caves.Syscalls.Streams.{at, read_int}
use hermit_caves.Syscalls.Handlers.{served, serve-encode}

module _ {H : Type 0} (h : Host H) where
  -- All requests of a session, in order.
  abbrev pub session : List Request → List ℕ → List ℕ
  session [] ys = ys
  session (r ∷ rs) ys = encode r (session rs ys)

  abbrev pub AreRequests : List Request → Type 0
  AreRequests [] = Unit {0}
  AreRequests (r ∷ rs) = IsRequest h r × AreRequests rs

  abbrev pub performed_all : List Request → H → H
  performed_all [] s = s
  performed_all (r ∷ rs) s = performed_all rs (performed h r s)

  abbrev pub replies : List Request → H → List ℕ
  replies [] s = []
  replies (r ∷ rs) s = reply h r s ++ replies rs (performed h r s)

  abbrev pub all_printed : List Request → List (ℕ × List ℕ)
  all_printed [] = []
  all_printed (r ∷ rs) = printed h r ++ all_printed rs

  abbrev pub total_effort : List Request → H → ℕ
  total_effort [] s = 0
  total_effort (r ∷ rs) s = effort h r s + total_effort rs (performed h r s)

  abbrev pub ended : List Request → World H → List Arrival → List Taken → World H
  ended rs w input room = record {
    input = input;
    room = room;
    sent = w.sent ++ replies rs w.host;
    console = w.console ++ all_printed rs;
    host = performed_all rs w.host;
  }

  handle_again :
      (fuel : ℕ) (w w' : World H)
      → serve h w ≡ again w'
      → handle_syscalls h (suc fuel) w ≡ handle_syscalls h fuel w'
  unfolding handle_syscalls
  handle_again fuel w w' e = rw (e, handle_syscalls)

  handle_exited :
      (fuel code : ℕ) (w w' : World H)
      → serve h w ≡ exited code w'
      → handle_syscalls h (suc fuel) w ≡ exited code w'
  unfolding handle_syscalls
  handle_exited fuel code w w' e = rw (e, handle_syscalls)

  -- Let the bytes that the socket delivers be the requests of a session, an `exit` request and
  -- whatever follows, in any pieces and without an error, and let every `write` to the socket and to
  -- the descriptors up to 2 take at least one byte, for as many calls as there are bytes to write at
  -- most. Then `handle_syscalls` ends in as many rounds as there are requests, with the code of the
  -- `exit` request as its own; it has performed every request with its own arguments in their order,
  -- has sent back all results in that order, and has printed what was written to the descriptors up
  -- to 2. The requests have arguments that fit their types, names without NUL, and buffers that
  -- `malloc` finds room for.
  pub handle_syscalls-session :
      (rs : List Request) (code : ℕ) (ys : List ℕ) (w : World H) (more : ℕ)
      → AreRequests rs
      → code < 2 ^ 32
      → IsSound w.input
      → stream w.input ≡ session rs (bytes_of 4 sys_exit ++ (bytes_of 4 code ++ ys))
      → IsFlowing w.room
      → total_effort rs w.host ≤ length w.room
      → (input : List Arrival) × (room : List Taken) × (handle_syscalls h (suc (length rs + more)) w
          ≡ exited code (ended rs w input room))
        × (stream input ≡ ys)
  unfolding serve dispatch serve_exit
  handle_syscalls-session [] code ys w more ok small sound e flows enough =
      let (r1, e1, left1) = read_int w 0 _ (dispatch h) (omega arith) (sound, e) in
      let (r2, e2, left2) = read_int (at w r1) code ys exited small left1 in
      (
        r2,
        w.room,
        ap (λ n. handle_syscalls h (suc n) w) (omega arith)
            ∙ handle_exited more code w (at w r2) (e1 ∙ e2)
            ∙ simp append-nil refl,
        left2.1,
      )
  handle_syscalls-session (r ∷ rs) code ys w more ok small sound e flows enough =
      let rest = total_effort rs (performed h r w.host) in
      let (r1, room1, e1, left1, wr1) = serve-encode h r w _ rest ok.0 (sound, e) (flows, enough) in
      let (r2, room2, e2, left2) =
        handle_syscalls-session rs code ys (served h r w r1 room1) more ok.1 small left1.0 left1.1
          wr1.0 wr1.1 in
      (
        r2,
        room2,
        ap (λ n. handle_syscalls h (suc n) w) (omega arith)
            ∙ handle_again (suc (length rs + more)) w (served h r w r1 room1) e1
            ∙ e2
            ∙ simp append_assoc refl,
        left2,
      )
