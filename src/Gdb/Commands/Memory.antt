-- ===== src/Gdb/Commands/Memory.antt =====
-- uhyve-gdb.c: the commands `M` and `m`, which write and read the guest's memory.
use hermit_caves.Base.{
  ℕ, ◌+◌, ◌*◌, ◌/◌, ◌%◌, ◌^◌, ◌≤◌, ◌<◌, Bool, true, false, not, some, List, [], ◌∷◌, ◌++◌, ◌≡◌, ◌⊎◌,
  append-nil, refl, ap, sym, ◌∙◌, arith, length,
}
use hermit_caves.Base.Ranges.{holds_below, holds_below_at}
use hermit_caves.Vcpu.Transfer.{bytes_at, store_bytes}
use hermit_caves.Vcpu.Bytes.{bytes_at-store_bytes}
use hermit_caves.Gdb.Hex.{hex, hexchar, mem2hex, hex2mem}
use hermit_caves.Gdb.Hex.RoundTrip.{IsBytes, hex2mem-mem2hex}
use hermit_caves.Gdb.Scan.{is_space, skip_space, literal, scan_pair, word, scan_word, print_hex}
use hermit_caves.Gdb.Scan.Numbers.{EndsNumber, scan_hex-print_hex}
use hermit_caves.Gdb.Packet.{bufmax}
use hermit_caves.Gdb.Commands.State.{Machine, Target, answer, in_guest, okay_msg}
use hermit_caves.Gdb.Commands.Access.{read_memory, write_memory, scan_write, store_hex}
use hermit_caves.Gdb.Commands.{handle_command, switch}

-- An address and a length, as `m` and `M` have them.
abbrev pub place : ℕ → ℕ → List ℕ → List ℕ
place addr len rest = print_hex addr ++ (b',' ∷ (print_hex len ++ rest))

scan_pair-place :
    (addr len : ℕ) (rest : List ℕ)
    → addr < 2 ^ 64
    → len < 2 ^ 64
    → EndsNumber rest
    → scan_pair (place addr len rest) ≡ some ((addr, len), rest)
unfolding scan_pair literal hex
scan_pair-place addr len rest h k e =
    rw (scan_hex-print_hex addr (b',' ∷ (print_hex len ++ rest)) h (refl, (λ x. cc, λ x. cc)))
      (rw (scan_hex-print_hex len rest k e) refl)

refute : (b : Bool) → not b ≡ true → b ≡ false
refute b h = ground arith

hexchar-NoSpace : (i : ℕ) → i < 16 → is_space (hexchar i) ≡ false
unfolding hexchar holds_below
hexchar-NoSpace i h =
    refute (is_space (hexchar i)) (holds_below_at 16 (λ x. not (is_space (hexchar x))) i refl h)

word-mem2hex : (bytes : List ℕ) → IsBytes bytes → word (mem2hex bytes) ≡ mem2hex bytes
unfolding word mem2hex
word-mem2hex [] h = refl
word-mem2hex (b ∷ bytes) h =
    rw (hexchar-NoSpace (b / 2 ^ 4) (omega (arith, h.0)), word)
      (rw (hexchar-NoSpace (b % 16) (omega arith), word) (rw (word-mem2hex bytes h.1) refl))

scan_word-mem2hex :
    (b : ℕ) (bytes : List ℕ)
    → IsBytes (b ∷ bytes)
    → scan_word (mem2hex (b ∷ bytes)) ≡ some (mem2hex (b ∷ bytes))
unfolding scan_word skip_space mem2hex
scan_word-mem2hex b bytes h =
    rw (hexchar-NoSpace (b / 2 ^ 4) (omega (arith, h.0)), skip_space)
      (rw (word-mem2hex (b ∷ bytes) h) refl)

decoded : (bytes : List ℕ) → IsBytes bytes → hex2mem (mem2hex bytes) (length bytes) ≡ some bytes
decoded bytes h =
    ap (λ text. hex2mem text (length bytes)) (sym (append-nil (mem2hex bytes)))
    ∙ hex2mem-mem2hex bytes [] h

-- The target after the bytes were stored.
abbrev pub stored_at : ℕ → List ℕ → Target → Target
stored_at phys bytes t = record t {
  debugger = record t.debugger { memory = store_bytes t.debugger.memory phys bytes };
}

-- The two commands.
abbrev pub write_command : ℕ → List ℕ → List ℕ
write_command addr bytes = b'M' ∷ place addr (length bytes) (b':' ∷ mem2hex bytes)

abbrev pub read_command : ℕ → ℕ → List ℕ
read_command addr len = b'm' ∷ place addr len []

scan_write_scanned :
    (text chs obuf : List ℕ) (addr len : ℕ)
    → scan_pair text ≡ some ((addr, len), b':' ∷ chs)
    → scan_word chs ≡ some obuf
    → scan_write text ≡ some ((addr, len), obuf)
unfolding literal
scan_write_scanned text chs obuf addr len e f = rw e (rw f refl)

switch_M :
    (m : Machine) (sigval : ℕ) (text : List ℕ) (t : Target)
    → handle_command m sigval (b'M' ∷ text) t ≡ write_memory m text t
unfolding handle_command switch
switch_M m sigval text t = refl

switch_m :
    (m : Machine) (sigval : ℕ) (text : List ℕ) (t : Target)
    → handle_command m sigval (b'm' ∷ text) t ≡ read_memory m text t
unfolding handle_command switch
switch_m m sigval text t = refl

write_scanned :
    (m : Machine) (sigval : ℕ) (t : Target) (text obuf bytes : List ℕ) (addr len : ℕ)
    → scan_write text ≡ some ((addr, len), obuf)
    → hex2mem obuf len ≡ some bytes
    → in_guest m (m.translate addr).0 (length bytes) ≡ true
    → handle_command m sigval (b'M' ∷ text) t
      ≡ answer okay_msg (stored_at (m.translate addr).0 bytes t)
unfolding write_memory store_hex
write_scanned m sigval t text obuf bytes addr len e f h =
    switch_M m sigval text t ∙ rw (e, write_memory) (rw f (rw h refl))

read_scanned :
    (m : Machine) (sigval : ℕ) (t : Target) (text rest : List ℕ) (addr len : ℕ)
    → scan_pair text ≡ some ((addr, len), rest)
    → in_guest m (m.translate addr).0 len ≡ true
    → 2 * len < bufmax
    → handle_command m sigval (b'm' ∷ text) t
      ≡ answer (mem2hex (bytes_at t.debugger.memory (m.translate addr).0 len)) t
unfolding read_memory
read_scanned m sigval t text rest addr len e h k =
    switch_m m sigval text t ∙ rw (e, read_memory) (ground arith)

-- A debugger that writes bytes to the guest's memory is answered by `OK`, and exactly these bytes change;
-- reading them then, it gets the text that it wrote. There is at least one byte, all are translated into
-- the guest's memory, and their text fits into the buffer with its NUL.
pub read_command-write_command :
    (m : Machine) (sigval : ℕ) (t : Target) (addr b : ℕ) (bytes : List ℕ)
    → IsBytes (b ∷ bytes)
    → addr < 2 ^ 64
    → 2 * length (b ∷ bytes) < bufmax
    → (m.translate addr).0 + length (b ∷ bytes) ≤ m.guest_size
    → let t' = stored_at (m.translate addr).0 (b ∷ bytes) t in
      (handle_command m sigval (write_command addr (b ∷ bytes)) t ≡ answer okay_msg t')
      × (handle_command m sigval (read_command addr (length (b ∷ bytes))) t'
          ≡ answer (mem2hex (b ∷ bytes)) t')
      × ((x : ℕ)
          → (x < (m.translate addr).0) ⊎ ((m.translate addr).0 + length (b ∷ bytes) ≤ x)
          → t'.debugger.memory x ≡ t.debugger.memory x)
unfolding store_bytes hex
read_command-write_command m sigval t addr b bytes h address short inside =
    let len : ℕ = length (b ∷ bytes) in
    let t' : Target = stored_at (m.translate addr).0 (b ∷ bytes) t in
    let reachable : in_guest m (m.translate addr).0 len ≡ true = ground arith in
    (
      write_scanned m sigval t (place addr len (b':' ∷ mem2hex (b ∷ bytes))) (mem2hex (b ∷ bytes))
          (b ∷ bytes) addr len
          (scan_write_scanned (place addr len (b':' ∷ mem2hex (b ∷ bytes))) (mem2hex (b ∷ bytes))
            (mem2hex (b ∷ bytes)) addr len
            (scan_pair-place addr len (b':' ∷ mem2hex (b ∷ bytes)) address (omega arith)
              (refl, (λ x. cc, λ x. cc)))
            (scan_word-mem2hex b bytes h))
          (decoded (b ∷ bytes) h) reachable,
      read_scanned m sigval t' (place addr len []) [] addr len
            (scan_pair-place addr len [] address (omega arith) (tt, tt)) reachable short
          ∙ rw (bytes_at-store_bytes (b ∷ bytes) t.debugger.memory (m.translate addr).0) refl,
      λ x k. ground arith,
    )
