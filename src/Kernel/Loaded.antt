-- ===== src/Kernel/Loaded.antt =====
-- A kernel file that is well-formed is loaded.
use hermit_caves.Base.{
  ℕ, ◌+◌, ◌*◌, ◌≤◌, true, false, ltb, if◌then◌else◌, none, some, List, ◌≡◌, refl, ap, ◌∙◌, arith,
  length, take, drop, length-take,
}
use hermit_caves.Kernel.Elf.{Ehdr, Phdr, ehdr_size, ehdr_of, phdrs_of, is_hermit}
use hermit_caves.Kernel.Header.{Platform, init_header}
use hermit_caves.Kernel.Header.Frame.{Outside, init_header_outside}
use hermit_caves.Kernel.{Kernel, Reader, Loading, done, load_from, load_kernel, boot_info_addr}
use hermit_caves.Kernel.Image.{AllFit, ReadsFile, covered, expected, load_segments_image}

module _ (p : Platform) (read : Reader) (file : List ℕ) (image : ℕ → ℕ) (k : Kernel)
    (reads : ReadsFile read file) (fresh : k.kheader ≡ none) where
  load_from_image :
      (ehdr : Ehdr) (phs : List Phdr)
      → ehdr.phoff + ehdr.phentsize * ehdr.phnum ≤ length file
      → phdrs_of ehdr.phnum (take (ehdr.phentsize * ehdr.phnum) (drop ehdr.phoff file)) ≡ some phs
      → AllFit file image phs
      → (k' : Kernel) × (load_from p read ehdr k ≡ done k')
        × (k'.elf_entry ≡ k.elf_entry)
        × ((x : ℕ) → Outside boot_info_addr x → k'.memory x ≡ expected image phs k.memory x)
  unfolding load_from
  load_from_image ehdr phs inside parsed fits =
      let begun : Loading = record {
        memory = init_header boot_info_addr k.memory;
        klog = k.klog;
        pstart = 0;
      } in
      let (l, e, same) =
        load_segments_image p read file image boot_info_addr reads phs begun fits in
      (
        record k { memory = l.memory; kheader = some boot_info_addr; klog = l.klog },
        rw (reads (ehdr.phentsize * ehdr.phnum) ehdr.phoff inside, load_from)
            (rw (parsed, load_from) (rw (fresh, load_from) (rw e refl))),
        refl,
        λ x out.
            same x out
            ∙ ap (λ v. if covered phs x then image x else v)
                (init_header_outside boot_info_addr x out k.memory),
      )

-- Let `open` and `malloc` work, let `pread_in_full` read what is in the file, and let the file have the
-- header of a HermitCore kernel and a whole table of program headers. Let each segment to load be in the
-- file, with less than 2 GiB, and let all of them have the bytes of one image, where they overlap too.
-- Then `load_kernel` returns 0; the entry point is that of the file; and at every address outside of the
-- kernel's header, the memory has the byte of the image if a segment covers it, and is as before else.
pub load_kernel_image :
    (p : Platform) (read : Reader) (file : List ℕ) (image : ℕ → ℕ) (k : Kernel) (phs : List Phdr)
    → ReadsFile read file
    → k.kheader ≡ none
    → ehdr_size ≤ length file
    → is_hermit (ehdr_of (take ehdr_size file)) ≡ true
    → (let ehdr = ehdr_of (take ehdr_size file) in
        ehdr.phoff + ehdr.phentsize * ehdr.phnum ≤ length file)
    → (let ehdr = ehdr_of (take ehdr_size file) in
        phdrs_of ehdr.phnum (take (ehdr.phentsize * ehdr.phnum) (drop ehdr.phoff file)) ≡ some phs)
    → AllFit file image phs
    → (k' : Kernel) × (load_kernel p true true read k ≡ done k')
      × (k'.elf_entry ≡ (ehdr_of (take ehdr_size file)).entry)
      × ((x : ℕ) → Outside boot_info_addr x → k'.memory x ≡ expected image phs k.memory x)
unfolding load_kernel
load_kernel_image p read file image k phs reads fresh long hermit inside parsed fits =
    let ehdr : Ehdr = ehdr_of (take ehdr_size file) in
    let (k', e, entry, same) =
      load_from_image p read file image (record k { elf_entry = ehdr.entry }) reads fresh ehdr phs
        inside parsed fits in
    let full : ltb (length (take ehdr_size file)) ehdr_size ≡ false =
      rw (length-take ehdr_size file) (ground arith) in
    (
      k',
      rw (reads ehdr_size 0 long, load_kernel)
          (rw (full, load_kernel) (rw (hermit, load_kernel) e)),
      entry,
      same,
    )
