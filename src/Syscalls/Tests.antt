-- ===== src/Syscalls/Tests.antt =====
-- A run of the system call loop, and instances of its theorems.
use hermit_caves.Base.{ℕ, suc, true, none, List, [], ◌∷◌, ◌≡◌, refl, length, arith}
use hermit_caves.Syscalls.Wire.{Arrival, bytes, Taken, took, stream, bytes_of}
use hermit_caves.Syscalls.{Host, World, exited, handle_syscalls}
use hermit_caves.Syscalls.Requests.{req_close}
use hermit_caves.Syscalls.Session.{ended, handle_syscalls-session}

-- A host that counts the descriptors that are closed.
abbrev counting : Host ℕ
counting = record {
  host_open = λ name flags mode s. (3, s);
  host_close = λ fd s. (0, suc s);
  host_write = λ fd bs s. (length bs, s);
  host_read = λ fd len s. (none, s);
  host_lseek = λ fd offset whence s. (offset, s);
  malloc_works = λ n. true;
}

-- `close(3)`, `close(1)` and `exit(7)`, in four pieces.
abbrev pieces : List Arrival
pieces =
    bytes (3 ∷ 0 ∷ 0 ∷ [])
    ∷ bytes (0 ∷ 3 ∷ 0 ∷ 0 ∷ 0 ∷ 3 ∷ 0 ∷ 0 ∷ 0 ∷ 1 ∷ [])
    ∷ bytes []
    ∷ bytes (0 ∷ 0 ∷ 0 ∷ 0 ∷ 0 ∷ 0 ∷ 0 ∷ 7 ∷ 0 ∷ 0 ∷ 0 ∷ [])
    ∷ []

abbrev start : World ℕ
start = record {
  input = pieces;
  room = took 1 ∷ took 1 ∷ took 9 ∷ took 4 ∷ took 4 ∷ took 4 ∷ took 4 ∷ took 4 ∷ [];
  sent = [];
  console = [];
  host = 0;
}

handle_syscalls-session_example :
    (input : List Arrival) × (room : List Taken) × (handle_syscalls counting 5 start
      ≡ exited 7 (ended counting (req_close 3 ∷ req_close 1 ∷ []) start input room))
    × (stream input ≡ [])
unfolding stream bytes_of
handle_syscalls-session_example =
    handle_syscalls-session counting (req_close 3 ∷ req_close 1 ∷ []) 7 [] start 2
      (omega arith, (omega arith, tt)) (omega arith) tt refl tt (omega arith)
