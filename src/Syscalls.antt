-- ===== src/Syscalls.antt =====
-- main.c: `handle_syscalls`, the loop that runs system calls for a guest at the other end of a
-- socket, with `env_init` and `main`'s configuration in Syscalls/Config. The C integers are their bit
-- patterns. The calls of Linux on files are parameters.
pub mod Wire
pub mod Requests
pub mod Streams
pub mod Handlers
pub mod Session
mod Tests
use hermit_caves.Base.{
  ℕ, zero, suc, ◌+◌, ◌-◌, ◌^◌, Bool, true, false, ltb, leb, ◌==◌, ◌&&◌, not, if◌then◌else◌, List,
  [], ◌∷◌, ◌++◌, Option, none, some, length,
}
use hermit_caves.Syscalls.Wire.{
  Arrival, Taken, Got, got, no_more, broken, read_full, Put, written, blocked, unwritten,
  write_full, word_of, bytes_of,
}

abbrev pub sys_exit : ℕ
sys_exit = 0

abbrev pub sys_write : ℕ
sys_write = 1

abbrev pub sys_open : ℕ
sys_open = 2

abbrev pub sys_close : ℕ
sys_close = 3

abbrev pub sys_read : ℕ
sys_read = 4

abbrev pub sys_lseek : ℕ
sys_lseek = 5

-- `fd > 2` for a signed `int`.
abbrev pub above_stderr : ℕ → Bool
above_stderr fd = ltb 2 fd && ltb fd (2 ^ 31)

-- Linux's calls on files, over the state `H` of the host. `host_read` is `none` for a result of -1.
pub record Host (H : Type 0) : Type 0 where
  pub host_open : List ℕ → ℕ → ℕ → H → ℕ × H
  pub host_close : ℕ → H → ℕ × H
  pub host_write : ℕ → List ℕ → H → ℕ × H
  pub host_read : ℕ → ℕ → H → Option (List ℕ) × H
  pub host_lseek : ℕ → ℕ → ℕ → H → ℕ × H
  pub malloc_works : ℕ → Bool

-- What the socket still delivers, what the looping `write`s will accept, what was sent, what went
-- to the descriptors that are not above 2, and the host.
pub record World (H : Type 0) : Type 0 where
  pub input : List Arrival
  pub room : List Taken
  pub sent : List ℕ
  pub console : List (ℕ × List ℕ)
  pub host : H

-- The end of one round of `while(1)`: the next round, the return of 1 after a communication error
-- or without memory, `exit`, a call that never ends, or the reading of a name without NUL past its
-- buffer.
pub data Round (H : Type 0) : Type 0 where
  again : World H → Round H
  returned : World H → Round H
  exited : ℕ → World H → Round H
  waiting : Round H
  overrun : Round H

-- The name in a buffer, up to its NUL.
abbrev pub name_in : List ℕ → Option (List ℕ)
name_in [] = none
name_in (b ∷ bs) = elim (name_in bs) [
  | none ↦ if b == 0 then some [] else none
  | some name ↦ if b == 0 then some [] else some (b ∷ name)
]

module _ {H : Type 0} where
  -- A loop of `read`s on the socket, and what follows it.
  pub with_bytes : ℕ → World H → (List ℕ → World H → Round H) → Round H
  with_bytes n w k = elim (read_full n w.input) [
    | got bs rest ↦ k bs (record w { input = rest })
    | no_more ↦ waiting
    | broken rest ↦ returned (record w { input = rest })
  ]

  pub with_int : World H → (ℕ → World H → Round H) → Round H
  with_int w k = with_bytes 4 w (λ bs w'. k (word_of bs) w')

  pub with_size : World H → (ℕ → World H → Round H) → Round H
  with_size w k = with_bytes 8 w (λ bs w'. k (word_of bs) w')

  -- A loop of `write`s on the socket, and what follows it.
  pub sending : List ℕ → World H → (World H → Round H) → Round H
  sending bs w k = elim (write_full bs w.room) [
    | written out rest ↦ k (record w { room = rest; sent = w.sent ++ out })
    | blocked ↦ waiting
    | unwritten out rest ↦ returned (record w { room = rest; sent = w.sent ++ out })
  ]

  -- The same on a descriptor that is not above 2.
  pub printing : ℕ → List ℕ → World H → (World H → Round H) → Round H
  printing fd bs w k = elim (write_full bs w.room) [
    | written out rest ↦ k (record w { room = rest; console = w.console ++ ((fd, out) ∷ []) })
    | blocked ↦ waiting
    | unwritten out rest ↦
        returned (record w { room = rest; console = w.console ++ ((fd, out) ∷ []) })
  ]

  pub serve_exit : World H → Round H
  serve_exit w = with_int w (λ arg w1. exited arg w1)

  module _ (h : Host H) where
    -- `write`, with the result sent back, or the loop over it for the other descriptors.
    abbrev pub write_data : ℕ → List ℕ → World H → Round H
    write_data fd buff w =
        if above_stderr fd
        then sending (bytes_of 8 (h.host_write fd buff w.host).0)
            (record w { host = (h.host_write fd buff w.host).1 }) again
        else printing fd buff w again

    pub serve_write : World H → Round H
    serve_write w = with_int w (λ fd w1. with_size w1 (λ len w2.
        if not (h.malloc_works len) then returned w2 else with_bytes len w2 (write_data fd)))

    pub open_named : Option (List ℕ) → ℕ → ℕ → World H → Round H
    open_named none flags mode w = overrun
    open_named (some name) flags mode w =
        sending (bytes_of 4 (h.host_open name flags mode w.host).0)
          (record w { host = (h.host_open name flags mode w.host).1 }) again

    abbrev pub open_buffer : List ℕ → World H → Round H
    open_buffer fname w =
        with_int w (λ flags w1. with_int w1 (λ mode w2. open_named (name_in fname) flags mode w2))

    pub serve_open : World H → Round H
    serve_open w =
        with_size w (λ len w1.
          if not (h.malloc_works len) then returned w1 else with_bytes len w1 open_buffer)

    pub serve_close : World H → Round H
    serve_close w = with_int w (λ fd w1.
        if above_stderr fd
        then sending (bytes_of 4 (h.host_close fd w1.host).0)
            (record w1 { host = (h.host_close fd w1.host).1 }) again
        else sending (bytes_of 4 0) w1 again)

    -- What is sent back for the result of `read`; an empty result is followed by no data.
    pub answer_read : Option (List ℕ) → World H → Round H
    answer_read none w = sending (bytes_of 8 (2 ^ 64 - 1)) w again
    answer_read (some buff) w = sending (bytes_of 8 (length buff)) w (λ w1. sending buff w1 again)

    -- `setsockopt` changes when the socket sends, not what.
    pub serve_read : World H → Round H
    serve_read w = with_int w (λ fd w1. with_size w1 (λ len w2.
        if not (h.malloc_works len)
        then returned w2
        else answer_read (h.host_read fd len w2.host).0
            (record w2 { host = (h.host_read fd len w2.host).1 })))

    pub serve_lseek : World H → Round H
    serve_lseek w = with_int w (λ fd w1. with_size w1 (λ offset w2. with_int w2 (λ whence w3.
        sending (bytes_of 8 (h.host_lseek fd offset whence w3.host).0)
          (record w3 { host = (h.host_lseek fd offset whence w3.host).1 }) again)))

    pub dispatch : ℕ → World H → Round H
    dispatch sysnr w =
        if sysnr == sys_exit
        then serve_exit w
        else if sysnr == sys_write
        then serve_write w
        else if sysnr == sys_open
        then serve_open w
        else if sysnr == sys_close
        then serve_close w
        else if sysnr == sys_read
        then serve_read w
        else if sysnr == sys_lseek
        then serve_lseek w
        else exited 1 w

    -- One round of `while(1)`.
    unfoldable pub serve : World H → Round H
    serve w = with_int w dispatch

    -- `handle_syscalls`, for at most `fuel` rounds.
    unfoldable pub handle_syscalls : ℕ → World H → Round H
    handle_syscalls zero w = again w
    handle_syscalls (suc fuel) w = elim (serve w) [
      | again w' ↦ handle_syscalls fuel w'
      | returned w' ↦ returned w'
      | exited code w' ↦ exited code w'
      | waiting ↦ waiting
      | overrun ↦ overrun
    ]
