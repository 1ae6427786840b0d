-- ===== src/Start.antt =====
-- uhyve.c: the start of the hypervisor in `uhyve_init`, with what a checkpoint (`timer_handler`) and a
-- migration (`migration_handler`, uhyve-x86_64.c) hand over to it.
pub mod Format
pub mod Restart
pub mod Handover
mod Tests
use hermit_caves.Base.{
  ℕ, ◌%◌, ◌^◌, Bool, true, not, leb, ◌==◌, if◌then◌else◌, Option, none, some, List, [], ◌++◌,
}
use hermit_caves.Base.Text.{codes}
use hermit_caves.Regions.{gap_size, gap_start, sub64, mapped_size}
use hermit_caves.Gdb.Scan.{scan_hex, print_hex}
use hermit_caves.Start.Format.{print_decimal, scan_unsigned, scan_int, read_field}

-- The globals that a start sets.
pub record Options : Type 0 where
  pub ncores : ℕ
  pub guest_size : ℕ
  pub no_checkpoint : ℕ
  pub elf_entry : ℕ
  pub full_checkpoint : Bool

-- `checkpoint/chk_config.txt`, as `timer_handler` writes it.
unfoldable pub write_config : Options → List ℕ
write_config o =
    codes "number of cores: "
    ++ (print_decimal o.ncores
        ++ (codes "\nmemory size: 0x"
            ++ (print_hex o.guest_size
                ++ (codes "\ncheckpoint number: "
                    ++ (print_decimal o.no_checkpoint
                        ++ (codes "\nentry point: 0x"
                            ++ (print_hex o.elf_entry
                                ++ (if o.full_checkpoint
                                    then codes "\nfull checkpoint: 1"
                                    else codes "\nfull checkpoint: 0"))))))))

-- The five calls of `fscanf`, the last one into `tmp`, which is 0 before.
unfoldable pub read_config : Options → List ℕ → Options
read_config o text =
    let cores = read_field (codes "number of cores: ") scan_unsigned (codes "\n") o.ncores text in
    let size = read_field (codes "memory size: 0x") scan_hex (codes "\n") o.guest_size cores.1 in
    let number =
      read_field (codes "checkpoint number: ") scan_unsigned (codes "\n") o.no_checkpoint size.1 in
    let entry = read_field (codes "entry point: 0x") scan_hex [] o.elf_entry number.1 in
    let tmp = read_field (codes "full checkpoint: ") scan_int [] 0 entry.1 in
    record {
      ncores = cores.0;
      guest_size = size.0;
      no_checkpoint = number.0;
      elf_entry = entry.0;
      full_checkpoint = not (tmp.0 == 0);
    }

-- `migration_metadata_t`, as `migration_handler` fills it.
unfoldable pub metadata_of : Options → Options
metadata_of o = record o {
  guest_size =
      if leb gap_start (sub64 o.guest_size gap_size)
      then sub64 o.guest_size gap_size
      else o.guest_size;
  no_checkpoint = 0;
}

-- The environment: the metadata of an incoming migration, if HERMIT_MIGRATION_SERVER is set; the text of
-- the configuration, if the file can be opened; HERMIT_MEM as `memparse` reads it, HERMIT_CPUS as
-- `atoi` does, and if HERMIT_FULLCHECKPOINT is set to another text than `0`.
pub record Environment : Type 0 where
  pub migration_server : Option Options
  pub chk_config : Option (List ℕ)
  pub hermit_memory : Option ℕ
  pub hermit_cpus : Option ℕ
  pub full_chk : Bool

-- What is loaded then.
pub data Source : Type 0 where
  from_migration from_checkpoint from_kernel : Source

abbrev pub set_or : Option ℕ → ℕ → ℕ
set_or none old = old
set_or (some value) old = value

-- The three starts of `uhyve_init`; the number of the checkpoint is not taken from the metadata.
unfoldable pub choose_start : Environment → Options → Source × Options
choose_start e o = elim e.migration_server [
  | some metadata ↦ (from_migration, record metadata { no_checkpoint = o.no_checkpoint })
  | none ↦ elim e.chk_config [
    | some text ↦ (from_checkpoint, read_config o text)
    | none ↦ (
      from_kernel,
      record o {
        ncores = set_or e.hermit_cpus o.ncores % 2 ^ 32;
        guest_size = set_or e.hermit_memory o.guest_size;
        full_checkpoint = if e.full_chk then true else o.full_checkpoint;
      },
    )
  ]
]

-- Behind the choice, `init_kvm_arch` gives the guest its address space.
unfoldable pub uhyve_init : Environment → Options → Source × Options
uhyve_init e o =
    let (source, chosen) = choose_start e o in
    (source, record chosen { guest_size = mapped_size chosen.guest_size })
