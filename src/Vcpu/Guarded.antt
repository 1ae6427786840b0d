-- ===== src/Vcpu/Guarded.antt =====
-- What the requests of a guest cannot have the hypervisor do to its host, over a run of the loop.
use hermit_caves.Base.{ℕ, List, [], ◌∷◌, Bool-cases, inl, inr}
use hermit_caves.Vcpu.Transfer.{Linux}
use hermit_caves.Vcpu.Ports.{
  Settings, Guest, Served, served, finished, spinning, record_event, terminated,
}
use hermit_caves.Vcpu.{
  Exit, interrupted, fault, hlt, mmio, io, fail_entry, internal_error, shutdown, debug, unknown,
  Loop, running, returned, ended, stuck, after_port, fatal, trapped, vcpu_loop,
}
use hermit_caves.Vcpu.Kept.{AreKept, if-cases, InServed, in_served, in_finished, serve_port-keeps}

module _ {H : Type 0} (I : H → Type 0) where
  -- The host when the run has an end, or stands where the exits are used up.
  pub data InLoop : Loop H → Type 0 where
    in_running : {g : Guest H} → I g.host → InLoop (running g)
    in_returned : {g : Guest H} → I g.host → InLoop (returned g)
    in_ended : {code : ℕ} {g : Guest H} → I g.host → InLoop (ended code g)
    in_stuck : InLoop stuck

module _ {H : Type 0} (s : Settings) (linux : Linux H) (I : H → Type 0)
    (kept : AreKept linux I) where
  after_port-keeps :
      (r : Served H) (k : Guest H → Loop H)
      → InServed I r
      → ((g : Guest H) → I g.host → InLoop I (k g))
      → InLoop I (after_port s linux r k)
  unfolding after_port
  after_port-keeps (served g) k (in_served i) h = h g i
  after_port-keeps (finished code g) k (in_finished i) h = in_ended i
  after_port-keeps spinning k i h = in_stuck

  fatal-keeps : (signal : ℕ) (g : Guest H) → I g.host → InLoop I (fatal s linux signal g)
  unfolding fatal
  fatal-keeps signal g i = elim (Bool-cases s.gdb_enabled) [
    | inl e ↦ rw e (in_ended i)
    | inr e ↦ rw e (in_ended i)
  ]

  trapped-keeps :
      (g : Guest H) (k : Guest H → Loop H)
      → I g.host
      → ((g' : Guest H) → I g'.host → InLoop I (k g'))
      → InLoop I (trapped s linux g k)
  unfolding trapped
  trapped-keeps g k i h = elim (Bool-cases s.gdb_enabled) [
    | inl e ↦ rw e (h _ i)
    | inr e ↦ rw e (in_ended i)
  ]

  -- Whatever a guest does, in any order of exits: what all calls of `write`, `read`, `lseek` and
  -- `unlink` keep of the host, the `open`s of names that `realpath` does not take to /dev/kvm, and the
  -- `close`s of descriptors above 2, is kept by `vcpu_loop`, when it ends and when the exits are used up;
  -- nothing is stated where a transfer takes more rounds than it is followed for. So no such run opens a
  -- name that `realpath` takes to /dev/kvm, or closes a standard descriptor.
  pub vcpu_loop-keeps :
      (exits : List Exit) (g : Guest H) → I g.host → InLoop I (vcpu_loop s linux g exits)
  unfolding vcpu_loop
  vcpu_loop-keeps [] g i = in_running i
  vcpu_loop-keeps (interrupted ∷ exits) g i = vcpu_loop-keeps exits g i
  vcpu_loop-keeps (fault ∷ exits) g i = in_ended i
  vcpu_loop-keeps (hlt ∷ exits) g i =
      in_returned
        (if-cases (λ g'. I g'.host) s.gdb_enabled (record_event terminated g) g (λ e. i) (λ e. i))
  vcpu_loop-keeps (mmio addr is_write raddr ∷ exits) g i =
      after_port-keeps _ _ (serve_port-keeps s linux I kept addr _ g i)
        (λ g' j. vcpu_loop-keeps exits g' j)
  vcpu_loop-keeps (io port raddr ∷ exits) g i =
      after_port-keeps _ _ (serve_port-keeps s linux I kept port raddr g i)
        (λ g' j. vcpu_loop-keeps exits g' j)
  vcpu_loop-keeps (fail_entry ∷ exits) g i = fatal-keeps _ g i
  vcpu_loop-keeps (internal_error ∷ exits) g i = fatal-keeps _ g i
  vcpu_loop-keeps (shutdown ∷ exits) g i = trapped-keeps g _ i (λ g' j. vcpu_loop-keeps exits g' j)
  vcpu_loop-keeps (debug ∷ exits) g i = trapped-keeps g _ i (λ g' j. vcpu_loop-keeps exits g' j)
  vcpu_loop-keeps (unknown ∷ exits) g i = in_ended i
