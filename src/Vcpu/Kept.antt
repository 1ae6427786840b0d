-- ===== src/Vcpu/Kept.antt =====
-- What the request of a guest keeps of the host, by port.
use hermit_caves.Base.{
  ℕ, zero, suc, ◌+◌, ◌-◌, ◌%◌, ◌^◌, Bool, true, false, ltb, ◌==◌, if◌then◌else◌, List, [], ◌∷◌, ◌≡◌,
  ◌≢◌, refl, ap, ◌∙◌, arith, Bool-cases, inl, inr,
}
use hermit_caves.Base.Memory.{Memory, load64}
use hermit_caves.Paging.{virt_to_phys}
use hermit_caves.Syscalls.{above_stderr}
use hermit_caves.Vcpu.Transfer.{
  Linux, Moved, moved, moving, bytes_at, step_size, load32, count_of, store_answer, write_loop,
  read_loop,
}
use hermit_caves.Vcpu.Ports.{
  Settings, Guest, Served, served, finished, spinning, same_name, dev_kvm, name_at, port_write,
  port_read, port_exit, port_unlink, port_open, port_close, port_lseek, port_cmdsize, port_cmdval,
  port_netinfo, port_freelist, serve_port, end_write, end_read,
}

same_name_refl : (xs : List ℕ) → same_name xs xs ≡ true
unfolding same_name
same_name_refl [] = refl
same_name_refl (x ∷ xs) = rw (same_name_refl xs) (ground arith)

-- A predicate on the host that calls of Linux keep: all calls of `write`, `read`, `lseek` and `unlink`, but
-- `open` only for names that do not lead to the KVM device, and `close` only for descriptors above 2.
pub record AreKept {H : Type 0} (linux : Linux H) (I : H → Type 0) : Type 0 where
  pub by_write : (fd : ℕ) (bs : List ℕ) (h : H) → I h → I (linux.host_write fd bs h).1
  pub by_read : (fd n : ℕ) (h : H) → I h → I (linux.host_read fd n h).1
  pub by_lseek : (fd offset whence : ℕ) (h : H) → I h → I (linux.host_lseek fd offset whence h).1
  pub by_unlink : (name : List ℕ) (h : H) → I h → I (linux.host_unlink name h).1
  pub by_open :
      (name : List ℕ) (flags mode : ℕ) (h : H)
      → linux.realpath name h ≢ dev_kvm
      → I h
      → I (linux.host_open name flags mode h).1
  pub by_close : (fd : ℕ) (h : H) → above_stderr fd ≡ true → I h → I (linux.host_close fd h).1

pub if-cases {ℓ} :
    {A : Type ℓ} (P : A → Type 0) (b : Bool) (x y : A)
    → (b ≡ true → P x)
    → (b ≡ false → P y)
    → P (if b then x else y)
if-cases P true x y h k = h refl
if-cases P false x y h k = k refl

module _ {H : Type 0} (I : H → Type 0) where
  data InMoved : Moved H → Type 0 where
    in_moved : {n : ℕ} {m : Memory} {h : H} → I h → InMoved (moved n m h)
    in_moving : InMoved moving

  pub data InServed : Served H → Type 0 where
    in_served : {g : Guest H} → I g.host → InServed (served g)
    in_finished : {code : ℕ} {g : Guest H} → I g.host → InServed (finished code g)
    in_spinning : InServed spinning

module _ {H : Type 0} (s : Settings) (linux : Linux H) (I : H → Type 0)
    (kept : AreKept linux I) where
  write_loop-keeps :
      (fuel fd buf left done : ℕ) (m : Memory) (h : H)
      → I h
      → InMoved I (write_loop linux fuel fd buf left done m h)
  unfolding write_loop
  write_loop-keeps zero fd buf left done m h i =
      if-cases (InMoved I) (left == 0) (moved done m h) moving (λ e. in_moved i) (λ e. in_moving)
  write_loop-keeps (suc fuel) fd buf left done m h i =
      let l = virt_to_phys m ((buf + done) % 2 ^ 64) in
      let step = step_size l left in
      let answer = linux.host_write fd (bytes_at m l.physical step) h in
      let done' = (done + answer.0) % 2 ^ 64 in
      let kept_host = kept.by_write fd (bytes_at m l.physical step) h i in
      let rest = write_loop linux fuel fd buf (left - step) done' m answer.1 in
      if-cases (InMoved I) (left == 0) (moved done m h)
        (if ltb answer.0 step then moved done' m answer.1 else rest) (λ e. in_moved i)
        (λ e.
          if-cases (InMoved I) (ltb answer.0 step) (moved done' m answer.1) rest
            (λ f. in_moved kept_host)
            (λ f. write_loop-keeps fuel fd buf (left - step) done' m answer.1 kept_host))

  read_loop-keeps :
      (fuel raddr left done : ℕ) (m : Memory) (h : H)
      → I h
      → InMoved I (read_loop linux fuel raddr left done m h)
  unfolding read_loop
  read_loop-keeps zero raddr left done m h i =
      if-cases (InMoved I) (left == 0) (moved done m h) moving (λ e. in_moved i) (λ e. in_moving)
  read_loop-keeps (suc fuel) raddr left done m h i =
      let l = virt_to_phys m ((load64 m (raddr + 4) + done) % 2 ^ 64) in
      let step = step_size l left in
      let answer = linux.host_read (load32 m raddr) step h in
      let done' = (done + count_of linux answer.0) % 2 ^ 64 in
      let m' = store_answer linux m l.physical answer.0 in
      let kept_host = kept.by_read (load32 m raddr) step h i in
      let rest = read_loop linux fuel raddr (left - step) done' m' answer.1 in
      if-cases (InMoved I) (left == 0) (moved done m h)
        (if ltb (count_of linux answer.0) step then moved done' m' answer.1 else rest)
        (λ e. in_moved i)
        (λ e.
          if-cases (InMoved I) (ltb (count_of linux answer.0) step) (moved done' m' answer.1) rest
            (λ f. in_moved kept_host)
            (λ f. read_loop-keeps fuel raddr (left - step) done' m' answer.1 kept_host))

  end_write-keeps :
      (raddr : ℕ) (g : Guest H) (r : Moved H) → InMoved I r → InServed I (end_write raddr g r)
  unfolding end_write
  end_write-keeps raddr g (moved n m h) (in_moved i) = in_served i
  end_write-keeps raddr g moving i = in_spinning

  end_read-keeps :
      (raddr : ℕ) (g : Guest H) (r : Moved H) → InMoved I r → InServed I (end_read raddr g r)
  unfolding end_read
  end_read-keeps raddr g (moved n m h) (in_moved i) = in_served i
  end_read-keeps raddr g moving i = in_spinning

  port_open-keeps : (raddr : ℕ) (g : Guest H) → I g.host → InServed I (port_open s linux raddr g)
  unfolding port_open
  port_open-keeps raddr g i =
      let name = name_at g.memory (load64 g.memory raddr) in
      elim (Bool-cases (same_name (linux.realpath name g.host) dev_kvm)) [
        | inl e ↦ rw e (in_served i)
        | inr e ↦ rw e (
            in_served (
              kept.by_open name _ _ g.host
                (λ same. differs (ap (λ n. same_name n dev_kvm) same ∙ same_name_refl dev_kvm) e)
                i))
      ]
    where
      differs : {b : Bool} → b ≡ true → b ≡ false → ⊥
      differs e f = cc

  port_close-keeps : (raddr : ℕ) (g : Guest H) → I g.host → InServed I (port_close s linux raddr g)
  unfolding port_close
  port_close-keeps raddr g i = elim (Bool-cases (above_stderr (load32 g.memory raddr))) [
    | inl e ↦ rw e (in_served (kept.by_close (load32 g.memory raddr) g.host e i))
    | inr e ↦ rw e (in_served i)
  ]

  pub serve_port-keeps :
      (port raddr : ℕ) (g : Guest H) → I g.host → InServed I (serve_port s linux port raddr g)
  unfolding serve_port port_write port_read port_exit port_unlink port_lseek port_cmdsize
      port_cmdval port_netinfo port_freelist
  serve_port-keeps port raddr g i = elim (Bool-cases (port == 0x800)) [
    | inl e ↦
        rw e
          (elim (Bool-cases s.verbose) [ inl f ↦ rw f (in_served i) | inr f ↦ rw f (in_served i) ])
    | inr e ↦ rw e (elim (Bool-cases (port == 0x400)) [
      | inl e ↦
          rw e (end_write-keeps raddr g _ (write_loop-keeps s.rounds _ _ _ 0 g.memory g.host i))
      | inr e ↦ rw e (elim (Bool-cases (port == 0x500)) [
        | inl e ↦
            rw e (end_read-keeps raddr g _ (read_loop-keeps s.rounds raddr _ 0 g.memory g.host i))
        | inr e ↦ rw e (elim (Bool-cases (port == 0x540)) [
          | inl e ↦ rw e (elim (Bool-cases (s.cpuid == 0)) [
            | inl f ↦ rw f (in_finished i)
            | inr f ↦ rw f (in_finished i)
          ])
          | inr e ↦ rw e (elim (Bool-cases (port == 0x840)) [
            | inl e ↦ rw e (in_served (kept.by_unlink _ g.host i))
            | inr e ↦ rw e (elim (Bool-cases (port == 0x440)) [
              | inl e ↦ rw e (port_open-keeps raddr g i)
              | inr e ↦ rw e (elim (Bool-cases (port == 0x480)) [
                | inl e ↦ rw e (port_close-keeps raddr g i)
                | inr e ↦ rw e (elim (Bool-cases (port == 0x600)) [
                  | inl e ↦ rw e (in_served i)
                  | inr e ↦ rw e (elim (Bool-cases (port == 0x640)) [
                    | inl e ↦ rw e (in_served i)
                    | inr e ↦ rw e (elim (Bool-cases (port == 0x580)) [
                      | inl e ↦ rw e (in_served (kept.by_lseek _ _ _ g.host i))
                      | inr e ↦ rw e (elim (Bool-cases (port == 0x740)) [
                        | inl e ↦ rw e (in_served i)
                        | inr e ↦ rw e (elim (Bool-cases (port == 0x780)) [
                          | inl e ↦ rw e (in_served i)
                          | inr e ↦ rw e (elim (Bool-cases (port == 0x720)) [
                            | inl e ↦ rw e (elim (Bool-cases (raddr == 0)) [
                              | inl f ↦ rw f (in_served i)
                              | inr f ↦ rw f (in_served i)
                            ])
                            | inr e ↦ rw e (in_finished i)
                          ])
                        ])
                      ])
                    ])
                  ])
                ])
              ])
            ])
          ])
        ])
      ])
    ])
  ]
