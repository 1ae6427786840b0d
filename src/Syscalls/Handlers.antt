-- ===== src/Syscalls/Handlers.antt =====
-- Each system call of `handle_syscalls`, on a socket that works.
use hermit_caves.Base.{
  ℕ, ◌+◌, ◌-◌, ◌^◌, ◌≤◌, Option, none, some, List, [], ◌∷◌, ◌++◌, ◌≡◌, refl, ap, ◌∙◌, length, arith,
  Bool-cases, inl, inr, append_assoc, append-nil, length-append,
}
use hermit_caves.Syscalls.Wire.{Arrival, Taken, bytes_of, length-bytes_of, IsFlowing}
use hermit_caves.Syscalls.{
  Host, World, Round, again, with_int, serve, dispatch, serve_write, serve_open, serve_close,
  serve_read, serve_lseek, name_in, open_named, open_buffer, write_data, answer_read, above_stderr,
}
use hermit_caves.Syscalls.Requests.{
  Request, req_write, req_open, req_close, req_read, req_lseek, arguments, encode, IsName,
  IsRequest, reply, read_reply, printed, performed, effort,
}
use hermit_caves.Syscalls.Streams.{
  at, Reads, read_bytes, read_int, read_size, Writes, sends, send_bytes, print_bytes,
}

pub name_in-append : (name : List ℕ) → IsName name → name_in (name ++ (0 ∷ [])) ≡ some name
name_in-append [] h = refl
name_in-append (b ∷ bs) h = rw (name_in-append bs h.1) (ground (arith, h.0))

module _ {H : Type 0} (h : Host H) where
  -- The world after a request, but for what the socket still delivers and accepts.
  abbrev pub served : Request → World H → List Arrival → List Taken → World H
  served r w input room = record {
    input = input;
    room = room;
    sent = w.sent ++ reply h r w.host;
    console = w.console ++ printed h r;
    host = performed h r w.host;
  }

  abbrev pub Serves : (World H → Round H) → Request → World H → List ℕ → ℕ → Type 0
  Serves f r w ys n =
      (input : List Arrival) × (room : List Taken) × (f w ≡ again (served r w input room))
      × Reads (served r w input room) ys
      × Writes (served r w input room) n

  close-Serves :
      (w : World H) (fd : ℕ) (ys : List ℕ) (n : ℕ)
      → IsRequest h (req_close fd)
      → Reads w (arguments (req_close fd) ys)
      → Writes w (effort h (req_close fd) w.host + n)
      → Serves (serve_close h) (req_close fd) w ys n
  unfolding serve_close
  close-Serves w fd ys n ok r wr =
      let (r1, e1, left1) = read_int w fd ys _ ok r in
      elim (Bool-cases (above_stderr fd)) [
        | inl above ↦
            let (room, e, wr') =
              send_bytes (record w { input = r1; host = (h.host_close fd w.host).1 })
                (bytes_of 4 (h.host_close fd w.host).0) n again (rw above at wr) in
            (r1, room, e1 ∙ rw above (rw append-nil e), left1, wr')
        | inr low ↦
            let (room, e, wr') = send_bytes (at w r1) (bytes_of 4 0) n again (rw low at wr) in
            (r1, room, e1 ∙ rw low (rw append-nil e), left1, wr')
      ]

  lseek-Serves :
      (w : World H) (fd offset whence : ℕ) (ys : List ℕ) (n : ℕ)
      → IsRequest h (req_lseek fd offset whence)
      → Reads w (arguments (req_lseek fd offset whence) ys)
      → Writes w (effort h (req_lseek fd offset whence) w.host + n)
      → Serves (serve_lseek h) (req_lseek fd offset whence) w ys n
  unfolding serve_lseek
  lseek-Serves w fd offset whence ys n (ok1, (ok2, ok3)) r wr =
      let (r1, e1, left1) = read_int w fd _ _ ok1 r in
      let (r2, e2, left2) = read_size (at w r1) offset _ _ ok2 left1 in
      let (r3, e3, left3) = read_int (at w r2) whence ys _ ok3 left2 in
      let (room, e, wr') =
        send_bytes (record w { input = r3; host = (h.host_lseek fd offset whence w.host).1 })
          (bytes_of 8 (h.host_lseek fd offset whence w.host).0) n again wr in
      (r3, room, e1 ∙ e2 ∙ e3 ∙ e ∙ rw append-nil, left3, wr')

  answer_sends :
      (w : World H) (answer : Option (List ℕ)) (n : ℕ)
      → Writes w (length (read_reply answer) + n)
      → (room : List Taken) × (answer_read h answer w ≡ again (sends w room (read_reply answer)))
        × (IsFlowing room × (n ≤ length room))
  unfolding answer_read
  answer_sends w none n wr = send_bytes w (bytes_of 8 (2 ^ 64 - 1)) n again wr
  answer_sends w (some buff) n wr =
      let (room1, e1, wr1) =
        send_bytes w (bytes_of 8 (length buff)) (length buff + n) _
          (wr.0, omega (arith, wr.1, length-append {0} (bytes_of 8 (length buff)) buff)) in
      let (room2, e2, wr2) =
        send_bytes (sends w room1 (bytes_of 8 (length buff))) buff n again wr1 in
      (room2, e1 ∙ e2 ∙ rw append_assoc, wr2)

  read-Serves :
      (w : World H) (fd len : ℕ) (ys : List ℕ) (n : ℕ)
      → IsRequest h (req_read fd len)
      → Reads w (arguments (req_read fd len) ys)
      → Writes w (effort h (req_read fd len) w.host + n)
      → Serves (serve_read h) (req_read fd len) w ys n
  unfolding serve_read
  read-Serves w fd len ys n (ok1, (ok2, memory)) r wr =
      let (r1, e1, left1) = read_int w fd _ _ ok1 r in
      let (r2, e2, left2) = read_size (at w r1) len ys _ ok2 left1 in
      let (room, e, wr') =
        answer_sends (record w { input = r2; host = (h.host_read fd len w.host).1 })
          (h.host_read fd len w.host).0 n wr in
      (r2, room, e1 ∙ e2 ∙ rw memory (e ∙ rw append-nil), left2, wr')

  open-Serves :
      (w : World H) (name : List ℕ) (flags mode : ℕ) (ys : List ℕ) (n : ℕ)
      → IsRequest h (req_open name flags mode)
      → Reads w (arguments (req_open name flags mode) ys)
      → Writes w (effort h (req_open name flags mode) w.host + n)
      → Serves (serve_open h) (req_open name flags mode) w ys n
  unfolding serve_open open_named
  open-Serves w name flags mode ys n ((ok1, ok2), (ok3, (memory, good))) r wr =
      let (r1, e1, left1) = read_size w (length (name ++ (0 ∷ []))) _ _ ok3 r in
      let (r2, e2, left2) = read_bytes (at w r1) (name ++ (0 ∷ [])) _ (open_buffer h) left1 in
      let opened : ℕ → ℕ → World H → Round H = open_named h (name_in (name ++ (0 ∷ []))) in
      let (r3, e3, left3) =
        read_int (at w r2) flags _ (λ a w1. with_int w1 (λ b w2. opened a b w2)) ok1 left2 in
      let (r4, e4, left4) = read_int (at w r3) mode ys (λ b w2. opened flags b w2) ok2 left3 in
      let (room, e, wr') =
        send_bytes (record w { input = r4; host = (h.host_open name flags mode w.host).1 })
          (bytes_of 4 (h.host_open name flags mode w.host).0) n again wr in
      (
        r4,
        room,
        e1
            ∙ rw memory (
                e2
                ∙ e3
                ∙ e4
                ∙ ap (λ o. open_named h o flags mode (at w r4)) (name_in-append name good)
                ∙ e
                ∙ rw append-nil),
        left4,
        wr',
      )

  write-Serves :
      (w : World H) (fd : ℕ) (buff ys : List ℕ) (n : ℕ)
      → IsRequest h (req_write fd buff)
      → Reads w (arguments (req_write fd buff) ys)
      → Writes w (effort h (req_write fd buff) w.host + n)
      → Serves (serve_write h) (req_write fd buff) w ys n
  unfolding serve_write
  write-Serves w fd buff ys n (ok1, (ok2, memory)) r wr =
      let (r1, e1, left1) = read_int w fd _ _ ok1 r in
      let (r2, e2, left2) = read_size (at w r1) (length buff) _ _ ok2 left1 in
      let (r3, e3, left3) = read_bytes (at w r2) buff ys (write_data h fd) left2 in
      elim (Bool-cases (above_stderr fd)) [
        | inl above ↦
            let ret = (h.host_write fd buff w.host).0 in
            let (room, e, wr') =
              send_bytes (record w { input = r3; host = (h.host_write fd buff w.host).1 })
                (bytes_of 8 ret) n again (wr.0, omega (arith, wr.1, length-bytes_of 8 ret)) in
            (r3, room, e1 ∙ e2 ∙ rw memory (e3 ∙ rw above (rw append-nil e)), left3, wr')
        | inr low ↦
            let (room, e, wr') =
              print_bytes (at w r3) fd buff n again (wr.0, omega (arith, wr.1)) in
            (r3, room, e1 ∙ e2 ∙ rw memory (e3 ∙ rw low (rw append-nil e)), left3, wr')
      ]

  -- A request that arrives in any pieces is read as it was encoded, performed with its arguments and
  -- answered in full.
  pub serve-encode :
      (r : Request) (w : World H) (ys : List ℕ) (n : ℕ)
      → IsRequest h r
      → Reads w (encode r ys)
      → Writes w (effort h r w.host + n)
      → Serves (serve h) r w ys n
  unfolding serve dispatch
  serve-encode (req_write fd buff) w ys n ok r wr =
      let (r1, e1, left1) = read_int w 1 _ (dispatch h) (omega arith) r in
      let (r2, room, e, rest, wr2) = write-Serves (at w r1) fd buff ys n ok left1 wr in
      (r2, room, e1 ∙ e, rest, wr2)
  serve-encode (req_open name flags mode) w ys n ok r wr =
      let (r1, e1, left1) = read_int w 2 _ (dispatch h) (omega arith) r in
      let (r2, room, e, rest, wr2) = open-Serves (at w r1) name flags mode ys n ok left1 wr in
      (r2, room, e1 ∙ e, rest, wr2)
  serve-encode (req_close fd) w ys n ok r wr =
      let (r1, e1, left1) = read_int w 3 _ (dispatch h) (omega arith) r in
      let (r2, room, e, rest, wr2) = close-Serves (at w r1) fd ys n ok left1 wr in
      (r2, room, e1 ∙ e, rest, wr2)
  serve-encode (req_read fd len) w ys n ok r wr =
      let (r1, e1, left1) = read_int w 4 _ (dispatch h) (omega arith) r in
      let (r2, room, e, rest, wr2) = read-Serves (at w r1) fd len ys n ok left1 wr in
      (r2, room, e1 ∙ e, rest, wr2)
  serve-encode (req_lseek fd offset whence) w ys n ok r wr =
      let (r1, e1, left1) = read_int w 5 _ (dispatch h) (omega arith) r in
      let (r2, room, e, rest, wr2) = lseek-Serves (at w r1) fd offset whence ys n ok left1 wr in
      (r2, room, e1 ∙ e, rest, wr2)
