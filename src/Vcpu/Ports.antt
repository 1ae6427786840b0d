-- ===== src/Vcpu/Ports.antt =====
-- uhyve.c: what `vcpu_loop` does for each port. The structures are packed, at a guest-physical address.
use hermit_caves.Base.{
  ℕ, zero, suc, ◌+◌, ◌-◌, ◌*◌, ◌%◌, ◌^◌, Bool, true, false, ◌==◌, ◌&&◌, if◌then◌else◌, List, [],
  ◌∷◌, ◌++◌, length,
}
use hermit_caves.Base.Memory.{Memory, load64, store64}
use hermit_caves.Syscalls.{above_stderr}
use hermit_caves.Vcpu.Transfer.{
  Linux, Moved, moved, moving, write_loop, read_loop, store_bytes, load32,
}
use hermit_caves.Syscalls.Wire.{bytes_of}

-- What the ports of one process share: the flags, the MAC address, the command line and the
-- environment, the number of this CPU, and the most rounds that a transfer is followed for.
pub record Settings : Type 0 where
  pub verbose : Bool
  pub gdb_enabled : Bool
  pub mac : List ℕ
  pub argv : List (List ℕ)
  pub envp : List (List ℕ)
  pub cpuid : ℕ
  pub rounds : ℕ

-- What other parts of the program are told.
pub data Event : Type 0 where
  putc : ℕ → Event
  network_up : Event
  packet_written : Event
  free_list : ℕ → Event
  mappings_ready : Event
  exception : ℕ → Event
  terminated : Event

pub record Guest (H : Type 0) : Type 0 where
  pub memory : Memory
  pub host : H
  pub events : List Event

-- The guest goes on, the process or the thread ends, or the request is not served in time.
pub data Served (H : Type 0) : Type 0 where
  served : Guest H → Served H
  finished : ℕ → Guest H → Served H
  spinning : Served H

abbrev pub store32 : Memory → ℕ → ℕ → Memory
store32 m a v = store_bytes m a (bytes_of 4 v)

-- The C string at an address, as far as Linux looks for its end.
abbrev pub path_max : ℕ
path_max = 4096

pub string_at : ℕ → Memory → ℕ → List ℕ
string_at zero m a = []
string_at (suc n) m a = let rest = string_at n m (a + 1) in if m a == 0 then [] else m a ∷ rest

abbrev pub name_at : Memory → ℕ → List ℕ
name_at m a = string_at path_max m a

abbrev pub max_argc_envc : ℕ
max_argc_envc = 128

-- The name "/dev/kvm".
abbrev pub dev_kvm : List ℕ
dev_kvm = b'/' ∷ b'd' ∷ b'e' ∷ b'v' ∷ b'/' ∷ b'k' ∷ b'v' ∷ b'm' ∷ []

unfoldable pub same_name : List ℕ → List ℕ → Bool
same_name [] [] = true
same_name [] (y ∷ ys) = false
same_name (x ∷ xs) [] = false
same_name (x ∷ xs) (y ∷ ys) = let rest = same_name xs ys in x == y && rest

-- `for(i=0; i<n; i++) val->sz[i] = strlen(strings[i]) + 1`, from an address on.
pub store_sizes : Memory → ℕ → List (List ℕ) → Memory
store_sizes m a [] = m
store_sizes m a (arg ∷ args) = store_sizes (store32 m a (length arg + 1)) (a + 4) args

-- `strcpy(guest_mem + (size_t)ptr[i], strings[i])`; the pointers are read as the strings are written.
pub copy_strings : Memory → ℕ → List (List ℕ) → Memory
copy_strings m a [] = m
copy_strings m a (arg ∷ args) =
    copy_strings (store_bytes m (load64 m a) (arg ++ (0 ∷ []))) (a + 8) args

module _ {H : Type 0} where
  abbrev pub record_event : Event → Guest H → Guest H
  record_event e g = record g { events = g.events ++ (e ∷ []) }

  -- The length that is counted goes to the structure.
  unfoldable pub end_write : ℕ → Guest H → Moved H → Served H
  end_write raddr g moving = spinning
  end_write raddr g (moved n m host) =
      served (record g { memory = store64 m (raddr + 12) n; host = host })

  unfoldable pub end_read : ℕ → Guest H → Moved H → Served H
  end_read raddr g moving = spinning
  end_read raddr g (moved n m host) =
      served (record g { memory = store64 m (raddr + 20) n; host = host })

  -- `uhyve_open->ret = ...` and the like, a 32-bit result with the host it leaves.
  abbrev pub answer32 : ℕ → ℕ × H → Guest H → Served H
  answer32 a r g = served (record g { memory = store32 g.memory a r.0; host = r.1 })

module _ {H : Type 0} (s : Settings) (linux : Linux H) where
  unfoldable pub port_write : ℕ → Guest H → Served H
  port_write raddr g = end_write raddr g (
      write_loop linux s.rounds (load32 g.memory raddr) (load64 g.memory (raddr + 4))
        (load64 g.memory (raddr + 12)) 0 g.memory g.host)

  unfoldable pub port_read : ℕ → Guest H → Served H
  port_read raddr g =
      end_read raddr g
        (read_loop linux s.rounds raddr (load64 g.memory (raddr + 12)) 0 g.memory g.host)

  unfoldable pub port_exit : ℕ → Guest H → Served H
  port_exit raddr g = if s.cpuid == 0 then finished (load32 g.memory raddr) g else finished raddr g

  unfoldable pub port_unlink : ℕ → Guest H → Served H
  port_unlink raddr g =
      answer32 (raddr + 8) (linux.host_unlink (name_at g.memory (load64 g.memory raddr)) g.host) g

  -- The test of `realpath` for a result below NULL cannot succeed.
  unfoldable pub port_open : ℕ → Guest H → Served H
  port_open raddr g =
      let name = name_at g.memory (load64 g.memory raddr) in
      if same_name (linux.realpath name g.host) dev_kvm
      then answer32 (raddr + 16) (2 ^ 32 - 1, g.host) g
      else answer32 (raddr + 16)
          (linux.host_open name (load32 g.memory (raddr + 8)) (load32 g.memory (raddr + 12)) g.host)
          g

  unfoldable pub port_close : ℕ → Guest H → Served H
  port_close raddr g =
      if above_stderr (load32 g.memory raddr)
      then answer32 (raddr + 4) (linux.host_close (load32 g.memory raddr) g.host) g
      else answer32 (raddr + 4) (0, g.host) g

  unfoldable pub port_lseek : ℕ → Guest H → Served H
  port_lseek raddr g =
      let r =
        linux.host_lseek (load32 g.memory raddr) (load64 g.memory (raddr + 4))
          (load32 g.memory (raddr + 12)) g.host in
      served (record g { memory = store64 g.memory (raddr + 4) r.0; host = r.1 })

  unfoldable pub port_cmdsize : ℕ → Guest H → Served H
  port_cmdsize raddr g =
      let m1 = store32 g.memory raddr (length s.argv) in
      let m2 = store_sizes m1 (raddr + 4) s.argv in
      let m3 = store32 m2 (raddr + 4 + 4 * max_argc_envc) (length s.envp) in
      served (record g { memory = store_sizes m3 (raddr + 8 + 4 * max_argc_envc) s.envp })

  unfoldable pub port_cmdval : ℕ → Guest H → Served H
  port_cmdval raddr g =
      let m1 = copy_strings g.memory (load64 g.memory raddr) s.argv in
      served (record g { memory = copy_strings m1 (load64 m1 (raddr + 8)) s.envp })

  unfoldable pub port_netinfo : ℕ → Guest H → Served H
  port_netinfo raddr g =
      served (record_event network_up (record g { memory = store_bytes g.memory raddr s.mac }))

  unfoldable pub port_freelist : ℕ → Guest H → Served H
  port_freelist raddr g =
      if raddr == 0
      then served (record_event mappings_ready g)
      else served (record_event mappings_ready (record_event (free_list raddr) g))

  unfoldable pub serve_port : ℕ → ℕ → Guest H → Served H
  serve_port port raddr g =
      if port == 0x800
      then served (if s.verbose then record_event (putc (raddr % 256)) g else g)
      else if port == 0x400
      then port_write raddr g
      else if port == 0x500
      then port_read raddr g
      else if port == 0x540
      then port_exit raddr g
      else if port == 0x840
      then port_unlink raddr g
      else if port == 0x440
      then port_open raddr g
      else if port == 0x480
      then port_close raddr g
      else if port == 0x600
      then port_netinfo raddr g
      else if port == 0x640
      then served (record_event packet_written g)
      else if port == 0x580
      then port_lseek raddr g
      else if port == 0x740
      then port_cmdsize raddr g
      else if port == 0x780
      then port_cmdval raddr g
      else if port == 0x720
      then port_freelist raddr g
      else finished 1 g
