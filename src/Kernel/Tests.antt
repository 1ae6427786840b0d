-- ===== src/Kernel/Tests.antt =====
-- A small kernel file, and an instance of the theorem about it.
use hermit_caves.Base.{
  ℕ, zero, suc, ◌+◌, ◌*◌, ◌<◌, true, ◌==◌, if◌then◌else◌, none, some, List, [], ◌∷◌, ◌++◌, ◌≡◌,
  refl, arith, take, drop, get_or,
}
use hermit_caves.Syscalls.Wire.{word_of}
use hermit_caves.Kernel.Elf.{Phdr, ehdr_size, ehdr_of, phdr_of, phdrs_of, is_hermit}
use hermit_caves.Kernel.Header.{Platform}
use hermit_caves.Kernel.Header.Frame.{Outside}
use hermit_caves.Kernel.{Kernel, Reader, done, load_kernel, boot_info_addr}
use hermit_caves.Kernel.Image.{expected}
use hermit_caves.Kernel.Loaded.{load_kernel_image}

abbrev elf_header : List ℕ
elf_header =
    0x7f ∷ b'E' ∷ b'L' ∷ b'F' ∷ 2 ∷ 1 ∷ 1 ∷ 0xff ∷ 0 ∷ 0 ∷ 0 ∷ 0 ∷ 0 ∷ 0 ∷ 0 ∷ 0 ∷ 2 ∷ 0 ∷ 62 ∷ 0
    ∷ 1 ∷ 0 ∷ 0 ∷ 0 ∷ 0 ∷ 0 ∷ 0x80 ∷ 0 ∷ 0 ∷ 0 ∷ 0 ∷ 0 ∷ 64 ∷ 0 ∷ 0 ∷ 0 ∷ 0 ∷ 0 ∷ 0 ∷ 0 ∷ 0 ∷ 0 ∷ 0
    ∷ 0 ∷ 0 ∷ 0 ∷ 0 ∷ 0 ∷ 0 ∷ 0 ∷ 0 ∷ 0 ∷ 64 ∷ 0 ∷ 56 ∷ 0 ∷ 1 ∷ 0 ∷ 0 ∷ 0 ∷ 0 ∷ 0 ∷ 0 ∷ 0 ∷ []

-- Two bytes of code at 8 MiB.
abbrev program_header : List ℕ
program_header =
    1 ∷ 0 ∷ 0 ∷ 0 ∷ 5 ∷ 0 ∷ 0 ∷ 0 ∷ 120 ∷ 0 ∷ 0 ∷ 0 ∷ 0 ∷ 0 ∷ 0 ∷ 0 ∷ 0 ∷ 0 ∷ 0x80 ∷ 0 ∷ 0 ∷ 0 ∷ 0
    ∷ 0 ∷ 0 ∷ 0 ∷ 0x80 ∷ 0 ∷ 0 ∷ 0 ∷ 0 ∷ 0 ∷ 2 ∷ 0 ∷ 0 ∷ 0 ∷ 0 ∷ 0 ∷ 0 ∷ 0 ∷ 4 ∷ 0 ∷ 0 ∷ 0 ∷ 0 ∷ 0
    ∷ 0 ∷ 0 ∷ 0 ∷ 0 ∷ 0x20 ∷ 0 ∷ 0 ∷ 0 ∷ 0 ∷ 0 ∷ []

abbrev file : List ℕ
file = elf_header ++ (program_header ++ (0x90 ∷ 0xf4 ∷ []))

abbrev reader : Reader
reader count offset = some (take count (drop offset file))

abbrev code_image : ℕ → ℕ
code_image a = if a == 0x800000 then 0x90 else 0xf4

abbrev segments : List Phdr
segments = record { type = 1; offset = 120; paddr = 0x800000; filesz = 2; memsz = 4 } ∷ []

abbrev platform : Platform
platform = record {
  guest_size = 0x1000000;
  guest_mem = 0x7f0000000000;
  cpu_freq = 2400;
  verbose = true;
  boot_time = 1500000000;
  ip = none;
  gateway = none;
  mask = some (255, 255, 255, 0);
}

abbrev empty : Kernel
empty = record { memory = λ a. 0; elf_entry = 0; kheader = none; klog = none }

code_bytes : (i : ℕ) → i < 2 → get_or file (120 + i) 0 ≡ code_image (0x800000 + i)
code_bytes zero h = refl
code_bytes (suc zero) h = refl
code_bytes (suc (suc i)) h = absurd (omega arith)

hermit : is_hermit (ehdr_of (take ehdr_size file)) ≡ true
unfolding is_hermit ehdr_of word_of
hermit = refl

parsed : phdrs_of 1 (take (56 * 1) (drop 64 file)) ≡ some segments
unfolding phdrs_of phdr_of word_of
parsed = refl

load_kernel_image_example :
    (k' : Kernel) × (load_kernel platform true true reader empty ≡ done k')
    × (k'.elf_entry ≡ 0x800000)
    × ((x : ℕ)
        → Outside boot_info_addr x
        → k'.memory x ≡ expected code_image segments empty.memory x)
unfolding ehdr_of word_of
load_kernel_image_example =
    load_kernel_image platform reader file code_image empty segments (λ count offset h. refl) refl
      (omega arith) hermit (omega arith) parsed ((λ h. (omega arith, omega arith, code_bytes)), tt)
