-- ===== src/Start/Tests.antt =====
-- Runs of the start, and instances of its theorems.
use hermit_caves.Base.{◌+◌, ◌^◌, ◌≤◌, true, false, none, some, ◌≡◌, refl, arith}
use hermit_caves.Regions.{gap_size, gap_start, mapped_size}
use hermit_caves.Start.{
  Options, write_config, metadata_of, Environment, from_migration, from_checkpoint, uhyve_init,
}
use hermit_caves.Start.Restart.{uhyve_init-write_config}
use hermit_caves.Start.Handover.{uhyve_init-metadata_of}

abbrev initial : Options
initial = record {
  ncores = 1;
  guest_size = 0x20000000;
  no_checkpoint = 0;
  elf_entry = 0;
  full_checkpoint = false;
}

-- A guest that asked for 4 GiB, after its third full checkpoint.
abbrev asked : Options
asked = record {
  ncores = 2;
  guest_size = 2 ^ 32;
  no_checkpoint = 2;
  elf_entry = 0x800000;
  full_checkpoint = true;
}

abbrev running : Options
running = record asked { guest_size = mapped_size (2 ^ 32) }

abbrev restarted : Environment
restarted = record {
  migration_server = none;
  chk_config = some (write_config running);
  hermit_memory = none;
  hermit_cpus = none;
  full_chk = false;
}

abbrev receiving : Environment
receiving = record restarted { migration_server = some (metadata_of running) }

uhyve_init-write_config_example :
    (uhyve_init restarted initial ≡ (
      from_checkpoint,
      record running { full_checkpoint = false; guest_size = mapped_size running.guest_size },
    ))
    × (gap_start ≤ running.guest_size
        → (uhyve_init restarted initial).1.guest_size ≡ running.guest_size + gap_size)
uhyve_init-write_config_example =
    uhyve_init-write_config restarted running initial refl refl (omega arith) (omega arith)
      (omega arith) (omega arith)

uhyve_init-metadata_of_example :
    uhyve_init receiving initial ≡ (from_migration, record running { no_checkpoint = 0 })
uhyve_init-metadata_of_example =
    uhyve_init-metadata_of receiving asked running initial (omega arith) refl refl
