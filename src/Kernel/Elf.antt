-- ===== src/Kernel/Elf.antt =====
-- uhyve-x86_64.c: the parts of an ELF file that `load_kernel` reads, as <elf.h> lays them out.
use hermit_caves.Base.{
  ℕ, zero, suc, Bool, false, ltb, ◌==◌, ◌&&◌, if◌then◌else◌, Option, none, some, List, [], ◌∷◌,
  length, take, drop, get_or,
}
use hermit_caves.Syscalls.Wire.{word_of}

-- `Elf64_Ehdr`: bytes of `e_ident`, and the fields that are used.
pub record Ehdr : Type 0 where
  pub magic : List ℕ
  pub class : ℕ
  pub osabi : ℕ
  pub type : ℕ
  pub machine : ℕ
  pub entry : ℕ
  pub phoff : ℕ
  pub phentsize : ℕ
  pub phnum : ℕ

-- `Elf64_Phdr`.
pub record Phdr : Type 0 where
  pub type : ℕ
  pub offset : ℕ
  pub paddr : ℕ
  pub filesz : ℕ
  pub memsz : ℕ

abbrev pub ehdr_size : ℕ
ehdr_size = 64

abbrev pub phdr_size : ℕ
phdr_size = 56

-- The integer of `n` bytes at an offset.
abbrev pub field : List ℕ → ℕ → ℕ → ℕ
field bytes off n = word_of (take n (drop off bytes))

unfoldable pub ehdr_of : List ℕ → Ehdr
ehdr_of bytes = record {
  magic = take 4 bytes;
  class = get_or bytes 4 0;
  osabi = get_or bytes 7 0;
  type = field bytes 16 2;
  machine = field bytes 18 2;
  entry = field bytes 24 8;
  phoff = field bytes 32 8;
  phentsize = field bytes 54 2;
  phnum = field bytes 56 2;
}

unfoldable pub phdr_of : List ℕ → Phdr
phdr_of bytes = record {
  type = field bytes 0 4;
  offset = field bytes 8 8;
  paddr = field bytes 24 8;
  filesz = field bytes 32 8;
  memsz = field bytes 40 8;
}

-- `phdr[0]` to `phdr[n - 1]`, whatever `e_phentsize` says; `none` if they are not all read.
unfoldable pub phdrs_of : ℕ → List ℕ → Option (List Phdr)
phdrs_of zero bytes = some []
phdrs_of (suc n) bytes = elim (phdrs_of n (drop phdr_size bytes)) [
  | none ↦ none
  | some phs ↦
      if ltb (length bytes) phdr_size then none else some (phdr_of (take phdr_size bytes) ∷ phs)
]

abbrev same_bytes : List ℕ → List ℕ → Bool
same_bytes (a ∷ b ∷ c ∷ d ∷ []) (a' ∷ b' ∷ c' ∷ d' ∷ []) = a == a' && b == b' && c == c' && d == d'
same_bytes _ _ = false

abbrev pub elf_magic : List ℕ
elf_magic = 0x7f ∷ b'E' ∷ b'L' ∷ b'F' ∷ []

-- The test for a HermitCore file: ELFCLASS64, HERMIT_ELFOSABI, ET_EXEC and EM_X86_64.
unfoldable pub is_hermit : Ehdr → Bool
is_hermit ehdr =
    same_bytes ehdr.magic elf_magic
    && ehdr.class == 2
    && ehdr.osabi == 0xff
    && ehdr.type == 2
    && ehdr.machine == 62

abbrev pub pt_load : ℕ
pt_load = 1

abbrev pub pt_tls : ℕ
pt_tls = 7
