-- ===== src/Syscalls/Streams.antt =====
-- The loops of `handle_syscalls` over `read` and `write`, on a socket that works.
use hermit_caves.Base.{
  ℕ, ◌+◌, ◌^◌, ◌≤◌, ◌<◌, List, [], ◌∷◌, ◌++◌, ◌≡◌, sym, ap, ◌∙◌, length, arith, length-append,
  take-append_exact, drop-append_exact, take, drop,
}
use hermit_caves.Syscalls.Wire.{
  Arrival, Taken, got, word_of, bytes_of, word_of-bytes_of, length-bytes_of, IsSound, stream,
  read_full-stream, IsFlowing, write_full-IsFlowing,
}
use hermit_caves.Syscalls.{World, Round, with_bytes, with_int, with_size, sending, printing}

module _ {H : Type 0} where
  -- The same world with other arrivals.
  abbrev pub at : World H → List Arrival → World H
  at w input = record w { input = input }

  -- A loop over `read` continues with the bytes, and leaves what follows them.
  abbrev pub Reads : World H → List ℕ → Type 0
  Reads w ys = IsSound w.input × (stream w.input ≡ ys)

  pub read_bytes :
      (w : World H) (xs ys : List ℕ) (k : List ℕ → World H → Round H)
      → Reads w (xs ++ ys)
      → (rest : List Arrival) × (with_bytes (length xs) w k ≡ k xs (at w rest))
        × Reads (at w rest) ys
  unfolding with_bytes
  read_bytes w xs ys k (ok, e) =
      let (rest, r, ok', left) =
        read_full-stream (length xs) w.input ok (omega (arith, ap length e, length-append xs ys)) in
      (
        rest,
        rw (
          r ∙ ap (λ l. got l rest) (ap (take (length xs)) e ∙ take-append_exact xs ys),
          with_bytes,
        ),
        (ok', left ∙ ap (drop (length xs)) e ∙ drop-append_exact xs ys),
      )

  pub read_int :
      (w : World H) (v : ℕ) (ys : List ℕ) (k : ℕ → World H → Round H)
      → v < 2 ^ 32
      → Reads w (bytes_of 4 v ++ ys)
      → (rest : List Arrival) × (with_int w k ≡ k v (at w rest)) × Reads (at w rest) ys
  unfolding with_int
  read_int w v ys k h r =
      let next : List ℕ → World H → Round H = λ bs w'. k (word_of bs) w' in
      let (rest, e, left) = read_bytes w (bytes_of 4 v) ys next r in
      (
        rest,
        ap (λ n. with_bytes n w next) (sym (length-bytes_of 4 v))
            ∙ e
            ∙ ap (λ x. k x (at w rest)) (word_of-bytes_of 4 v h),
        left,
      )

  pub read_size :
      (w : World H) (v : ℕ) (ys : List ℕ) (k : ℕ → World H → Round H)
      → v < 2 ^ 64
      → Reads w (bytes_of 8 v ++ ys)
      → (rest : List Arrival) × (with_size w k ≡ k v (at w rest)) × Reads (at w rest) ys
  unfolding with_size
  read_size w v ys k h r =
      let next : List ℕ → World H → Round H = λ bs w'. k (word_of bs) w' in
      let (rest, e, left) = read_bytes w (bytes_of 8 v) ys next r in
      (
        rest,
        ap (λ n. with_bytes n w next) (sym (length-bytes_of 8 v))
            ∙ e
            ∙ ap (λ x. k x (at w rest)) (word_of-bytes_of 8 v h),
        left,
      )

  -- Enough calls of `write`, each of which takes something.
  abbrev pub Writes : World H → ℕ → Type 0
  Writes w n = IsFlowing w.room × (n ≤ length w.room)

  abbrev pub sends : World H → List Taken → List ℕ → World H
  sends w room bs = record w { room = room; sent = w.sent ++ bs }

  pub send_bytes :
      (w : World H) (bs : List ℕ) (n : ℕ) (k : World H → Round H)
      → Writes w (length bs + n)
      → (room : List Taken) × (sending bs w k ≡ k (sends w room bs)) × Writes (sends w room bs) n
  unfolding sending
  send_bytes w bs n k (flows, h) =
      let (room, e, ok, left) =
        write_full-IsFlowing (length w.room) bs w.room (omega arith) flows (omega arith) in
      (room, rw (e, sending), (ok, omega (arith, left)))

  pub print_bytes :
      (w : World H) (fd : ℕ) (bs : List ℕ) (n : ℕ) (k : World H → Round H)
      → Writes w (length bs + n)
      → (room : List Taken) × (printing fd bs w k
          ≡ k (record w { room = room; console = w.console ++ ((fd, bs) ∷ []) }))
        × (IsFlowing room × (n ≤ length room))
  unfolding printing
  print_bytes w fd bs n k (flows, h) =
      let (room, e, ok, left) =
        write_full-IsFlowing (length w.room) bs w.room (omega arith) flows (omega arith) in
      (room, rw (e, printing), (ok, omega (arith, left)))
