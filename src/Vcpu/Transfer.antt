-- ===== src/Vcpu/Transfer.antt =====
-- uhyve.c: the loops of UHYVE_PORT_WRITE and UHYVE_PORT_READ over the pages of the guest's buffer.
use hermit_caves.Base.{
  ℕ, zero, suc, ◌+◌, ◌-◌, ◌%◌, ◌^◌, ltb, leb, ◌==◌, ◌&&◌, if◌then◌else◌, List, [], ◌∷◌, Option,
  none, some, length, min, get_or,
}
use hermit_caves.Base.Memory.{Memory, load64}
use hermit_caves.Syscalls.Wire.{word_of}
use hermit_caves.Paging.{Location, virt_to_phys}

-- Linux's calls, over the state `H` of the host. Results are bit patterns (64 bits of `write` and
-- `lseek`, 32 of the others); `host_read` is `none` for -1, and `realpath` yields what it leaves in
-- its buffer.
pub record Linux (H : Type 0) : Type 0 where
  pub host_write : ℕ → List ℕ → H → ℕ × H
  pub host_read : ℕ → ℕ → H → Option (List ℕ) × H
  pub host_open : List ℕ → ℕ → ℕ → H → ℕ × H
  pub host_close : ℕ → H → ℕ × H
  pub host_lseek : ℕ → ℕ → ℕ → H → ℕ × H
  pub host_unlink : List ℕ → H → ℕ × H
  pub realpath : List ℕ → H → List ℕ

-- `n` bytes of the guest's memory.
unfoldable pub bytes_at : Memory → ℕ → ℕ → List ℕ
bytes_at m a zero = []
bytes_at m a (suc n) = m a ∷ bytes_at m (a + 1) n

abbrev pub load32 : Memory → ℕ → ℕ
load32 m a = word_of (bytes_at m a 4)

-- A write of bytes to it.
unfoldable pub store_bytes : Memory → ℕ → List ℕ → Memory
store_bytes m a bs x = if leb a x && ltb x (a + length bs) then get_or bs (x - a) 0 else m x

-- The memory, the host and the number of bytes that are counted; or the loop still runs.
pub data Moved (H : Type 0) : Type 0 where
  moved : ℕ → Memory → H → Moved H
  moving : Moved H

-- `min(physical_address_end - physical_address, bytes_left)`.
abbrev pub step_size : Location → ℕ → ℕ
step_size l left = min ((l.page_end + 2 ^ 64 - l.physical) % 2 ^ 64) left

module _ {H : Type 0} (linux : Linux H) where
  -- `fuel` rounds at most; `left` is `bytes_to_write`, `done` is `bytes_written`.
  unfoldable pub write_loop : ℕ → ℕ → ℕ → ℕ → ℕ → Memory → H → Moved H
  write_loop zero fd buf left done m host = if left == 0 then moved done m host else moving
  write_loop (suc fuel) fd buf left done m host =
      let l = virt_to_phys m ((buf + done) % 2 ^ 64) in
      let step = step_size l left in
      let answer = linux.host_write fd (bytes_at m l.physical step) host in
      let done' = (done + answer.0) % 2 ^ 64 in
      let rest = write_loop fuel fd buf (left - step) done' m answer.1 in
      if left == 0
      then moved done m host
      else if ltb answer.0 step
      then moved done' m answer.1
      else rest

  -- What `read` counts, and the memory with what it stores.
  abbrev pub count_of : Option (List ℕ) → ℕ
  count_of none = 2 ^ 64 - 1
  count_of (some bs) = length bs

  abbrev pub store_answer : Memory → ℕ → Option (List ℕ) → Memory
  store_answer m a none = m
  store_answer m a (some bs) = store_bytes m a bs

  -- The structure is read in each round, since the data may be stored over it.
  unfoldable pub read_loop : ℕ → ℕ → ℕ → ℕ → Memory → H → Moved H
  read_loop zero raddr left done m host = if left == 0 then moved done m host else moving
  read_loop (suc fuel) raddr left done m host =
      let l = virt_to_phys m ((load64 m (raddr + 4) + done) % 2 ^ 64) in
      let step = step_size l left in
      let answer = linux.host_read (load32 m raddr) step host in
      let done' = (done + count_of answer.0) % 2 ^ 64 in
      let m' = store_answer m l.physical answer.0 in
      let rest = read_loop fuel raddr (left - step) done' m' answer.1 in
      if left == 0
      then moved done m host
      else if ltb (count_of answer.0) step
      then moved done' m' answer.1
      else rest
