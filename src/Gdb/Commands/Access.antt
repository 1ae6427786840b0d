-- ===== src/Gdb/Commands/Access.antt =====
-- uhyve-gdb.c: the commands for memory and registers in `gdb_handle_exception`.
use hermit_caves.Base.{
  ℕ, ◌+◌, ◌*◌, ◌&&◌, leb, if◌then◌else◌, ◌>>=◌, Option, none, some, List, ◌++◌, take, drop, length,
}
use hermit_caves.Vcpu.Transfer.{bytes_at, store_bytes}
use hermit_caves.Gdb.Hex.{mem2hex, hex2mem}
use hermit_caves.Gdb.Scan.{scan_pair, literal, scan_word}
use hermit_caves.Gdb.Packet.{bufmax}
use hermit_caves.Gdb.Registers.{regs_size, read_registers, write_registers}
use hermit_caves.Gdb.Registers.Layout.{regs_of_bytes, bytes_of_regs}
use hermit_caves.Gdb.Commands.State.{
  Machine, Target, Step, error_msg, okay_msg, guest_virt_to_phys, in_guest, answer, crash,
}

-- `m`: the text and a NUL must fit into `obuf`.
unfoldable pub read_memory : Machine → List ℕ → Target → Step
read_memory m text t = elim (scan_pair text) [
  | none ↦ answer error_msg t
  | some ((addr, len), _) ↦ elim (guest_virt_to_phys m addr) [
    | none ↦ answer error_msg t
    | some phys ↦
        if in_guest m phys len && leb (2 * len + 1) bufmax
        then answer (mem2hex (bytes_at t.debugger.memory phys len)) t
        else crash
  ]
]

-- `M`: the address, the length and the data.
abbrev pub scan_write : List ℕ → Option ((ℕ × ℕ) × List ℕ)
scan_write text = scan_pair text >>= λ place.
    literal b':' place.1 >>= λ behind. scan_word behind >>= λ obuf. some (place.0, obuf)

unfoldable pub store_hex : Machine → ℕ → Option (List ℕ) → Target → Step
store_hex m phys none t = crash
store_hex m phys (some bytes) t =
    if in_guest m phys (length bytes)
    then answer okay_msg (record t {
      debugger = record t.debugger { memory = store_bytes t.debugger.memory phys bytes };
    })
    else crash

unfoldable pub write_memory : Machine → List ℕ → Target → Step
unfolding store_hex
write_memory m text t = elim (scan_write text) [
  | none ↦ answer error_msg t
  | some ((addr, len), obuf) ↦ elim (guest_virt_to_phys m addr) [
    | none ↦ answer error_msg t
    | some phys ↦ store_hex m phys (hex2mem obuf len) t
  ]
]

-- `uhyve_gdb_read_registers` into the static buffer, for a length of BUFMAX.
unfoldable pub fill_registers : Target → Option Target
fill_registers t = read_registers bufmax t.kregs t.sregs (regs_of_bytes t.registers) >>= λ gregs.
    some (record t { registers = bytes_of_regs gregs t.registers })

-- `g`.
unfoldable pub read_general : Target → Step
read_general t = elim (fill_registers t) [
  | none ↦ answer error_msg t
  | some t' ↦ answer (mem2hex (take regs_size t'.registers)) t'
]

-- `G`, after the registers were read for the length.
store_general : Option (List ℕ) → Target → Step
store_general none t = crash
store_general (some bytes) t =
    let t' : Target = record t { registers = bytes ++ drop regs_size t.registers } in
    elim (write_registers regs_size (regs_of_bytes t'.registers) t'.kregs t'.sregs) [
      | none ↦ answer error_msg t'
      | some (kregs, sregs) ↦ answer okay_msg (record t' { kregs = kregs; sregs = sregs })
    ]

unfoldable pub write_general : List ℕ → Target → Step
unfolding store_general
write_general text t = elim (fill_registers t) [
  | none ↦ answer error_msg t
  | some t' ↦ store_general (hex2mem text regs_size) t'
]
