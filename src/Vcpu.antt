-- ===== src/Vcpu.antt =====
-- uhyve.c: `vcpu_loop`, which runs the guest and serves what it asks for by a port. The requests are
-- in Vcpu/Ports, the loops of writing and reading in Vcpu/Transfer.
pub mod Transfer
pub mod Bytes
pub mod Written
pub mod Ports
pub mod Kept
pub mod Guarded
mod Tests
use hermit_caves.Base.{
  ℕ, zero, suc, ◌+◌, ◌-◌, ◌^◌, Bool, true, false, ◌==◌, ◌&&◌, if◌then◌else◌, List, [], ◌∷◌, ◌++◌,
}
use hermit_caves.Vcpu.Transfer.{Linux}
use hermit_caves.Vcpu.Ports.{
  Settings, Guest, Served, served, finished, spinning, serve_port, Event, exception, terminated,
  record_event,
}

-- `run->exit_reason` with the fields that are read for it, or a failed KVM_RUN.
pub data Exit : Type 0 where
  interrupted : Exit
  fault : Exit
  hlt : Exit
  mmio : ℕ → Bool → ℕ → Exit
  io : ℕ → ℕ → Exit
  fail_entry : Exit
  internal_error : Exit
  shutdown : Exit
  debug : Exit
  unknown : Exit

-- How `vcpu_loop` goes on: it returns 0, the process or thread ends, a request never ends, or it still
-- runs when the given exits are used up.
pub data Loop (H : Type 0) : Type 0 where
  running : Guest H → Loop H
  returned : Guest H → Loop H
  ended : ℕ → Guest H → Loop H
  stuck : Loop H

abbrev pub signal_segv : ℕ
signal_segv = 11

abbrev pub signal_trap : ℕ
signal_trap = 5

module _ {H : Type 0} (s : Settings) (linux : Linux H) where
  -- A port access; an MMIO access at address 0 is served as one to the port in `run->io`, which is not
  -- told apart here and taken as port 0.
  pub after_port : Served H → (Guest H → Loop H) → Loop H
  after_port (served g) k = k g
  after_port (finished code g) k = ended code g
  after_port spinning k = stuck

  -- An exit of the guest for the debugger, and the end of the process by `err`.
  pub fatal : ℕ → Guest H → Loop H
  fatal signal g = if s.gdb_enabled then ended 1 (record_event (exception signal) g) else ended 1 g

  -- A trap: the debugger handles it and the guest goes on, or the process ends.
  pub trapped : Guest H → (Guest H → Loop H) → Loop H
  trapped g k = if s.gdb_enabled then k (record_event (exception signal_trap) g) else ended 1 g

  pub vcpu_loop : Guest H → List Exit → Loop H
  vcpu_loop g [] = running g
  vcpu_loop g (interrupted ∷ exits) = vcpu_loop g exits
  vcpu_loop g (fault ∷ exits) = ended 1 g
  vcpu_loop g (hlt ∷ exits) = returned (if s.gdb_enabled then record_event terminated g else g)
  vcpu_loop g (mmio addr is_write raddr ∷ exits) =
      after_port (serve_port s linux addr (if is_write then raddr else 0) g)
        (λ g'. vcpu_loop g' exits)
  vcpu_loop g (io port raddr ∷ exits) =
      after_port (serve_port s linux port raddr g) (λ g'. vcpu_loop g' exits)
  vcpu_loop g (fail_entry ∷ exits) = fatal signal_segv g
  vcpu_loop g (internal_error ∷ exits) = fatal signal_segv g
  vcpu_loop g (shutdown ∷ exits) = trapped g (λ g'. vcpu_loop g' exits)
  vcpu_loop g (debug ∷ exits) = trapped g (λ g'. vcpu_loop g' exits)
  vcpu_loop g (unknown ∷ exits) = ended 1 g
