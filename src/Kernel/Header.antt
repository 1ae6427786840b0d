-- ===== src/Kernel/Header.antt =====
-- uhyve-x86_64.h: `kernel_header_t` in the guest's memory, as `load_kernel` fills it.
pub mod Frame
use hermit_caves.Base.{
  ℕ, ◌+◌, ◌-◌, ◌*◌, ◌%◌, ◌^◌, Bool, if◌then◌else◌, Option, none, some, List, [], ◌∷◌,
}
use hermit_caves.Base.Memory.{Memory, memset}
use hermit_caves.Syscalls.Wire.{bytes_of}
use hermit_caves.Vcpu.Transfer.{store_bytes}

-- What `load_kernel` reads elsewhere: globals, the frequency of the processor, the time in seconds, and
-- the four numbers that `sscanf` finds in HERMIT_IP, HERMIT_GATEWAY and HERMIT_MASK if they are set.
pub record Platform : Type 0 where
  pub guest_size : ℕ
  pub guest_mem : ℕ
  pub cpu_freq : ℕ
  pub verbose : Bool
  pub boot_time : ℕ
  pub ip : Option (ℕ × ℕ × ℕ × ℕ)
  pub gateway : Option (ℕ × ℕ × ℕ × ℕ)
  pub mask : Option (ℕ × ℕ × ℕ × ℕ)

abbrev pub header_size : ℕ
header_size = 152

-- A store of `n` bytes to the field at an offset.
abbrev pub set_field : ℕ → ℕ → ℕ → ℕ → Memory → Memory
set_field kheader off n v m = store_bytes m (kheader + off) (bytes_of n v)

unfoldable pub init_header : ℕ → Memory → Memory
init_header kheader m =
    set_field kheader 134 1 1
      (set_field kheader 4 4 1 (set_field kheader 0 4 0xc0decafe (memset m kheader 0 header_size)))

unfoldable pub set_tls : ℕ → ℕ → ℕ → ℕ → Memory → Memory
set_tls kheader paddr filesz memsz m =
    set_field kheader 48 8 memsz (set_field kheader 40 8 filesz (set_field kheader 32 8 paddr m))

-- An address of four bytes.
abbrev pub set_address : ℕ → ℕ → ℕ × ℕ × ℕ × ℕ → Memory → Memory
set_address kheader off (a, b, c, d) m = set_field kheader (off + 3) 1 d (
    set_field kheader (off + 2) 1 c (set_field kheader (off + 1) 1 b (set_field kheader off 1 a m)))

abbrev pub set_if : ℕ → ℕ → Option (ℕ × ℕ × ℕ × ℕ) → Memory → Memory
set_if kheader off none m = m
set_if kheader off (some address) m = set_address kheader off address m

abbrev pub or_broadcast : Option (ℕ × ℕ × ℕ × ℕ) → ℕ × ℕ × ℕ × ℕ
or_broadcast none = (0xff, 0xff, 0xff, 0xff)
or_broadcast (some address) = address

abbrev pub kernel_stack_size : ℕ
kernel_stack_size = 32768

abbrev pub uhyve_uart_port : ℕ
uhyve_uart_port = 0x800

-- The fields that are written for the first segment.
set_numbers : Platform → ℕ → ℕ → Memory → Memory
set_numbers p kheader paddr m = set_field kheader 132 2 (if p.verbose then uhyve_uart_port else 0) (
    set_field kheader 135 1 1 (
      set_field kheader 128 4 0 (
        set_field kheader 124 4 1 (
          set_field kheader 112 4 p.cpu_freq (
            set_field kheader 16 8 p.guest_size (
              set_field kheader 8 8 paddr
                (set_field kheader 56 8 ((paddr + 2 ^ 64 - kernel_stack_size) % 2 ^ 64) m)))))))

unfoldable pub describe_kernel : Platform → ℕ → ℕ → Memory → Memory
unfolding set_numbers
describe_kernel p kheader paddr m =
    let addressed = set_if kheader 144 p.mask (
      set_if kheader 140 p.gateway
        (set_address kheader 136 (or_broadcast p.ip) (set_numbers p kheader paddr m))) in
    set_field kheader 80 8 (p.boot_time * 1000000) (set_field kheader 72 8 p.guest_mem addressed)

unfoldable pub set_image_size : ℕ → ℕ → Memory → Memory
set_image_size kheader size m = set_field kheader 24 8 size m
