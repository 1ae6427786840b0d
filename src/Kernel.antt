-- ===== src/Kernel.antt =====
-- uhyve-x86_64.c: `load_kernel`, which loads an ELF file into the guest's memory and fills the header
-- that the kernel reads (`kernel_header_t` of uhyve-x86_64.h).
pub mod Elf
pub mod Header
pub mod Image
pub mod Loaded
mod Tests
use hermit_caves.Base.{
  ℕ, ◌+◌, ◌-◌, ◌*◌, ◌%◌, ◌^◌, Bool, true, false, not, ltb, leb, ◌==◌, if◌then◌else◌, Option, none,
  some, List, [], ◌∷◌, length,
}
use hermit_caves.Base.Memory.{Memory}
use hermit_caves.Vcpu.Transfer.{store_bytes}
use hermit_caves.Kernel.Elf.{Ehdr, Phdr, ehdr_size, ehdr_of, phdrs_of, is_hermit, pt_load, pt_tls}
use hermit_caves.Kernel.Header.{Platform, init_header, set_tls, describe_kernel, set_image_size}

abbrev pub boot_info_addr : ℕ
boot_info_addr = 0x9000

-- The guest's memory and the globals; the pointers are offsets from `guest_mem`.
pub record Kernel : Type 0 where
  pub memory : Memory
  pub elf_entry : ℕ
  pub kheader : Option ℕ
  pub klog : Option ℕ

-- The loop: the memory, `klog` and `pstart`.
pub record Loading : Type 0 where
  pub memory : Memory
  pub klog : Option ℕ
  pub pstart : ℕ

-- A segment, or all, are loaded; or `pread_in_full` has a negative result.
pub data Progress : Type 0 where
  loaded : Loading → Progress
  stopped : Loading → Progress

-- The result of `pread_in_full` for a size and an offset: the bytes, or -1. It is stored in an `int`.
abbrev pub Reader : Type 0
Reader = ℕ → ℕ → Option (List ℕ)

abbrev pub is_negative : List ℕ → Bool
is_negative bytes = leb (2 ^ 31) (length bytes % 2 ^ 32)

abbrev pub klog_or : Option ℕ → ℕ → Option ℕ
klog_or (some klog) paddr = some klog
klog_or none paddr = some (paddr + 0x5000)

-- The rest of a round, for the bytes that were read.
pub place_segment : Platform → ℕ → Phdr → List ℕ → Loading → Loading
place_segment p kheader ph bytes l =
    let m = store_bytes l.memory ph.paddr bytes in
    let pstart = if l.pstart == 0 then ph.paddr else l.pstart in
    let described = if l.pstart == 0 then describe_kernel p kheader ph.paddr m else m in
    record {
      memory = set_image_size kheader ((ph.paddr + ph.memsz + 2 ^ 64 - pstart) % 2 ^ 64) described;
      klog = klog_or l.klog ph.paddr;
      pstart = pstart;
    }

pub read_segment : Platform → Reader → ℕ → Phdr → Loading → Progress
read_segment p read kheader ph l = elim (read ph.filesz ph.offset) [
  | none ↦ stopped l
  | some bytes ↦
      if is_negative bytes
      then stopped (record l { memory = store_bytes l.memory ph.paddr bytes })
      else loaded (place_segment p kheader ph bytes l)
]

-- One round of the loop over the segments.
pub load_segment : Platform → Reader → ℕ → Phdr → Loading → Progress
load_segment p read kheader ph l =
    if ph.type == pt_tls
    then read_segment p read kheader ph
        (record l { memory = set_tls kheader ph.paddr ph.filesz ph.memsz l.memory })
    else if ph.type == pt_load
    then read_segment p read kheader ph l
    else loaded l

unfoldable pub load_segments : Platform → Reader → ℕ → List Phdr → Loading → Progress
load_segments p read kheader [] l = loaded l
load_segments p read kheader (ph ∷ phs) l = elim (load_segment p read kheader ph l) [
  | stopped l' ↦ stopped l'
  | loaded l' ↦ load_segments p read kheader phs l'
]

-- The results 0 and -1 (or another negative one); or memory is used that was never written.
pub data Outcome : Type 0 where
  done : Kernel → Outcome
  failed : Kernel → Outcome
  undefined : Outcome

abbrev pub after_loading : Kernel → ℕ → Progress → Outcome
after_loading k kheader (loaded l) =
    done (record k { memory = l.memory; kheader = some kheader; klog = l.klog })
after_loading k kheader (stopped l) =
    failed (record k { memory = l.memory; kheader = some kheader; klog = l.klog })

-- `if (!kheader)`.
abbrev pub header_of : Kernel → ℕ × Memory
header_of k = elim k.kheader [
  | some kheader ↦ (kheader, k.memory)
  | none ↦ (boot_info_addr, init_header boot_info_addr k.memory)
]

-- From the program headers on. The size of their table is an `int` in C; it is taken not to overflow,
-- which holds for tables below 2 GiB.
unfoldable pub load_from : Platform → Reader → Ehdr → Kernel → Outcome
load_from p read ehdr k = elim (read (ehdr.phentsize * ehdr.phnum) ehdr.phoff) [
  | none ↦ failed k
  | some bytes ↦ elim (phdrs_of ehdr.phnum bytes) [
    | none ↦ undefined
    | some phs ↦
        let (kheader, m) = header_of k in
        after_loading k kheader
          (load_segments p read kheader phs (record { memory = m; klog = k.klog; pstart = 0 }))
  ]
]

-- `is_open` says if `open` works, and `malloc_works` if `malloc` does.
unfoldable pub load_kernel : Platform → Bool → Bool → Reader → Kernel → Outcome
load_kernel p is_open malloc_works read k =
    if not is_open then failed k else elim (read ehdr_size 0) [
      | none ↦ failed k
      | some bytes ↦ elim (ltb (length bytes) ehdr_size) [
        | true ↦ undefined
        | false ↦
            let ehdr = ehdr_of bytes in
            let k' : Kernel = record k { elf_entry = ehdr.entry } in
            elim (is_hermit ehdr) [
              | false ↦ failed k
              | true ↦ if malloc_works then load_from p read ehdr k' else failed k'
            ]
      ]
    ]
