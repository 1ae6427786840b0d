-- ===== src/Vcpu/Written.antt =====
-- What the loop of UHYVE_PORT_WRITE hands to Linux.
use hermit_caves.Base.{
  ℕ, zero, suc, ◌+◌, ◌-◌, ◌*◌, ◌/◌, ◌%◌, ◌^◌, ◌≤◌, ◌<◌, false, ◌==◌, List, [], ◌∷◌, ◌++◌, length,
  ◌≡◌, refl, ap, ◌∙◌, sym, arith, subst, ne→==,
}
use hermit_caves.Base.Memory.{Memory}
use hermit_caves.Paging.{Sregs, setup_system_page_tables, virt_to_phys, Location}
use hermit_caves.Paging.Identity.{virt_to_phys_identity}
use hermit_caves.Vcpu.Transfer.{Linux, bytes_at, moved, moving, step_size, write_loop}

pub length-bytes_at : (m : Memory) (a n : ℕ) → length (bytes_at m a n) ≡ n
unfolding bytes_at
length-bytes_at m a zero = refl
length-bytes_at m a (suc n) = ap suc (length-bytes_at m (a + 1) n)

bytes_at-split :
    (m : Memory) (k n a : ℕ) → bytes_at m a (k + n) ≡ bytes_at m a k ++ bytes_at m (a + k) n
unfolding bytes_at
bytes_at-split m zero n a =
    let e : 0 + n ≡ n = omega arith in let f : a + 0 ≡ a = omega arith in rw e (rw f refl)
bytes_at-split m (suc k) n a =
    let e : suc k + n ≡ suc (k + n) = omega arith in
    let f : a + suc k ≡ a + 1 + k = omega arith in
    rw e (rw f (ap (λ l. m a ∷ l) (bytes_at-split m k n (a + 1))))

module _ {H : Type 0} (linux : Linux H) where
  -- The host after some `write`s to one descriptor, and all their bytes.
  abbrev pub write_all : ℕ → List (List ℕ) → H → H
  write_all fd [] host = host
  write_all fd (chunk ∷ chunks) host = write_all fd chunks (linux.host_write fd chunk host).1

  abbrev pub joined : List (List ℕ) → List ℕ
  joined [] = []
  joined (chunk ∷ chunks) = chunk ++ joined chunks

  -- From an address on, chunks that are not empty and do not go over the end of a 2 MiB page.
  abbrev pub StayInPages : ℕ → List (List ℕ) → Type 0
  StayInPages a [] = Unit {0}
  StayInPages a (chunk ∷ chunks) =
      (0 < length chunk)
      × ((a + length chunk ≤ (a / 2 ^ 21 + 1) * 2 ^ 21) × StayInPages (a + length chunk) chunks)

  module _ (fd buf : ℕ) (m : Memory) where
    -- A round whose `write` takes all that it is given.
    write_round :
        (fuel left done : ℕ) (host : H) (l : Location)
        → 0 < left
        → virt_to_phys m ((buf + done) % 2 ^ 64) ≡ l
        → (linux.host_write fd (bytes_at m l.physical (step_size l left)) host).0 ≡ step_size l left
        → write_loop linux (suc fuel) fd buf left done m host
          ≡ write_loop linux fuel fd buf
              (left - step_size l left)
              ((done + step_size l left) % 2 ^ 64)
              m
              (linux.host_write fd (bytes_at m l.physical (step_size l left)) host).1
    unfolding write_loop
    write_round fuel left done host l some_left e full =
        let positive : (left == 0) ≡ false = ne→== left 0 (λ z. lt-zero (omega (arith, z))) in
        rw e (rw (positive, write_loop) (rw full (ground arith)))
      where
        lt-zero : 0 < 0 → ⊥
        lt-zero h = omega arith

    write_done :
        (fuel done : ℕ) (host : H) → write_loop linux fuel fd buf 0 done m host ≡ moved done m host
    unfolding write_loop
    write_done zero done host = refl
    write_done (suc fuel) done host = refl

    -- A buffer whose next byte is in a page that is not mapped: where a `write` of no bytes returns 0,
    -- no number of rounds ends the loop.
    pub write_loop_unmapped :
        (fuel left done : ℕ) (host : H)
        → 0 < left
        → done < 2 ^ 64
        → virt_to_phys m ((buf + done) % 2 ^ 64) ≡ record { physical = 0; page_end = 0 }
        → ((h : H) → (linux.host_write fd [] h).0 ≡ 0)
        → write_loop linux fuel fd buf left done m host ≡ moving
    unfolding write_loop bytes_at
    write_loop_unmapped zero left done host some_left small e z = ground arith
    write_loop_unmapped (suc fuel) left done host some_left small e z =
        let none_left : step_size (record { physical = 0; page_end = 0 }) left ≡ 0 = omega arith in
        let same : left - 0 ≡ left = omega arith in
        let still : (done + 0) % 2 ^ 64 ≡ done = omega arith in
        write_round fuel left done host (record { physical = 0; page_end = 0 }) some_left e
          (rw none_left (z host))
        ∙ rw none_left
            (rw same (rw still (write_loop_unmapped fuel left done _ some_left small e z)))

module _ {H : Type 0} (linux : Linux H) (s : Sregs) (boot : Memory) where
  -- The guest's memory with the boot page tables in it.
  abbrev pub mapped : Memory
  mapped = (setup_system_page_tables s boot).1

  abbrev round_end : ℕ → Location
  round_end va = record { physical = va; page_end = (va / 2 ^ 21 + 1) * 2 ^ 21 }

  -- Over the boot page tables, for a buffer in the first gigabyte and a Linux whose `write` takes all
  -- that it is given, the loop ends within as many rounds as there are bytes; it counts the length of
  -- the buffer, leaves the memory as it is, and has written the bytes of the buffer, in order and
  -- each once, by calls of which each has some bytes of one page of 2 MiB.
  pub write_loop-mapped :
      (fuel fd buf left done : ℕ) (host : H)
      → left ≤ fuel
      → buf + done + left ≤ 2 ^ 30
      → ((bs : List ℕ) (h : H) → (linux.host_write fd bs h).0 ≡ length bs)
      → (chunks : List (List ℕ)) × (StayInPages linux (buf + done) chunks)
        × (joined linux chunks ≡ bytes_at mapped (buf + done) left)
        × (write_loop linux fuel fd buf left done mapped host
            ≡ moved (done + left) mapped (write_all linux fd chunks host))
  unfolding bytes_at
  write_loop-mapped fuel fd buf zero done host enough inside takes =
      let e : done + 0 ≡ done = omega arith in
      ([], tt, refl, rw e (write_done linux fd buf mapped fuel done host))
  write_loop-mapped zero fd buf (suc left) done host enough inside takes = elim enough [ ]
  write_loop-mapped (suc fuel) fd buf (suc left) done host enough inside takes =
      let va = buf + done in
      let l = round_end va in
      let step = step_size l (suc left) in
      let chunk = bytes_at mapped va step in
      let here : virt_to_phys mapped ((buf + done) % 2 ^ 64) ≡ l =
        ap (virt_to_phys mapped) (omega arith) ∙ virt_to_phys_identity s boot va (omega arith) in
      let (chunks, inside_pages, all, rest) =
        write_loop-mapped fuel fd buf (suc left - step) (done + step)
          (linux.host_write fd chunk host).1 (omega arith) (omega arith) takes in
      let together : step + (suc left - step) ≡ suc left = omega arith in
      let onward : buf + (done + step) ≡ va + step = omega arith in
      let small : (done + step) % 2 ^ 64 ≡ done + step = omega arith in
      let size : length chunk ≡ step = length-bytes_at mapped va step in
      let next : buf + (done + step) ≡ va + length chunk = omega (arith, size) in
      let counted : done + step + (suc left - step) ≡ done + suc left = omega arith in
      (
        chunk ∷ chunks,
        (
          omega (arith, size),
          (omega (arith, size), subst (λ a. StayInPages linux a chunks) next inside_pages),
        ),
        ap (λ bs. chunk ++ bs) (all ∙ ap (λ a. bytes_at mapped a (suc left - step)) onward)
            ∙ sym (bytes_at-split mapped step (suc left - step) va)
            ∙ ap (bytes_at mapped va) together,
        write_round linux fd buf mapped fuel (suc left) done host l (omega arith) here
              (takes chunk host ∙ length-bytes_at mapped va step)
            ∙ ap
                (λ d.
                  write_loop linux fuel fd buf (suc left - step) d mapped
                    (linux.host_write fd chunk host).1)
                small
            ∙ rest
            ∙ ap
                (λ n. moved n mapped (write_all linux fd chunks (linux.host_write fd chunk host).1))
                counted,
      )
