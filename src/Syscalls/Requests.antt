-- ===== src/Syscalls/Requests.antt =====
-- What a guest asks for over the socket: the requests of `handle_syscalls`, their bytes, and what they
-- are answered with.
use hermit_caves.Base.{
  ℕ, ◌+◌, ◌-◌, ◌^◌, ◌<◌, true, if◌then◌else◌, Option, none, some, List, [], ◌∷◌, ◌++◌, ◌≡◌, ◌≢◌,
  length,
}
use hermit_caves.Syscalls.Wire.{bytes_of}
use hermit_caves.Syscalls.{Host, sys_write, sys_open, sys_close, sys_read, sys_lseek, above_stderr}

pub data Request : Type 0 where
  req_write : ℕ → List ℕ → Request
  req_open : List ℕ → ℕ → ℕ → Request
  req_close : ℕ → Request
  req_read : ℕ → ℕ → Request
  req_lseek : ℕ → ℕ → ℕ → Request

-- A name goes with its NUL.
abbrev pub number_of : Request → ℕ
number_of (req_write fd buff) = sys_write
number_of (req_open name flags mode) = sys_open
number_of (req_close fd) = sys_close
number_of (req_read fd len) = sys_read
number_of (req_lseek fd offset whence) = sys_lseek

abbrev pub arguments : Request → List ℕ → List ℕ
arguments (req_write fd buff) ys = bytes_of 4 fd ++ (bytes_of 8 (length buff) ++ (buff ++ ys))
arguments (req_open name flags mode) ys =
    bytes_of 8 (length (name ++ (0 ∷ [])))
    ++ ((name ++ (0 ∷ [])) ++ (bytes_of 4 flags ++ (bytes_of 4 mode ++ ys)))
arguments (req_close fd) ys = bytes_of 4 fd ++ ys
arguments (req_read fd len) ys = bytes_of 4 fd ++ (bytes_of 8 len ++ ys)
arguments (req_lseek fd offset whence) ys =
    bytes_of 4 fd ++ (bytes_of 8 offset ++ (bytes_of 4 whence ++ ys))

-- A request, with what follows it.
abbrev pub encode : Request → List ℕ → List ℕ
encode r ys = bytes_of 4 (number_of r) ++ arguments r ys

abbrev pub IsName : List ℕ → Type 0
IsName [] = Unit {0}
IsName (b ∷ bs) = (b ≢ 0) × IsName bs

abbrev pub read_reply : Option (List ℕ) → List ℕ
read_reply none = bytes_of 8 (2 ^ 64 - 1)
read_reply (some buff) = bytes_of 8 (length buff) ++ buff

module _ {H : Type 0} (h : Host H) where
  -- The arguments fit their C types, and `malloc` has room for the buffer.
  abbrev pub IsRequest : Request → Type 0
  IsRequest (req_write fd buff) =
      (fd < 2 ^ 32) × ((length buff < 2 ^ 64) × (h.malloc_works (length buff) ≡ true))
  IsRequest (req_open name flags mode) =
      ((flags < 2 ^ 32) × (mode < 2 ^ 32))
      × ((length (name ++ (0 ∷ [])) < 2 ^ 64)
          × ((h.malloc_works (length (name ++ (0 ∷ []))) ≡ true) × IsName name))
  IsRequest (req_close fd) = fd < 2 ^ 32
  IsRequest (req_read fd len) = (fd < 2 ^ 32) × ((len < 2 ^ 64) × (h.malloc_works len ≡ true))
  IsRequest (req_lseek fd offset whence) = (fd < 2 ^ 32) × ((offset < 2 ^ 64) × (whence < 2 ^ 32))

  -- The bytes that are sent back.
  abbrev pub reply : Request → H → List ℕ
  reply (req_write fd buff) s =
      if above_stderr fd then bytes_of 8 (h.host_write fd buff s).0 else []
  reply (req_open name flags mode) s = bytes_of 4 (h.host_open name flags mode s).0
  reply (req_close fd) s = bytes_of 4 (if above_stderr fd then (h.host_close fd s).0 else 0)
  reply (req_read fd len) s = read_reply (h.host_read fd len s).0
  reply (req_lseek fd offset whence) s = bytes_of 8 (h.host_lseek fd offset whence s).0

  -- What is written to a descriptor that is not above 2.
  abbrev pub printed : Request → List (ℕ × List ℕ)
  printed (req_write fd buff) = if above_stderr fd then [] else (fd, buff) ∷ []
  printed _ = []

  -- The host afterwards.
  abbrev pub performed : Request → H → H
  performed (req_write fd buff) s = if above_stderr fd then (h.host_write fd buff s).1 else s
  performed (req_open name flags mode) s = (h.host_open name flags mode s).1
  performed (req_close fd) s = if above_stderr fd then (h.host_close fd s).1 else s
  performed (req_read fd len) s = (h.host_read fd len s).1
  performed (req_lseek fd offset whence) s = (h.host_lseek fd offset whence s).1

  -- The calls of `write` that suffice for a request.
  abbrev pub effort : Request → H → ℕ
  effort (req_write fd buff) s = 8 + length buff
  effort r s = length (reply r s)
