-- ===== src/Start/Handover.antt =====
-- The size of the guest at the destination of a migration.
use hermit_caves.Base.{ℕ, ◌+◌, ◌^◌, ◌<◌, leb, if◌then◌else◌, some, ◌≡◌, ap, arith}
use hermit_caves.Regions.{gap_size, gap_start, sub64, mapped_size}
use hermit_caves.Start.{Options, metadata_of, Environment, from_migration, choose_start, uhyve_init}

mapped_again :
    (n : ℕ)
    → n + gap_size < 2 ^ 64
    → mapped_size (
        if leb gap_start (sub64 (mapped_size n) gap_size)
        then sub64 (mapped_size n) gap_size
        else mapped_size n)
      ≡ mapped_size n
mapped_again n h = ground arith

-- Let a guest run with a size that was asked for and does not wrap with the gap. Then the start at the
-- destination, from the metadata that the source sends, has the same number of CPUs, size of the address
-- space, entry point and kind of checkpoint as the source, and goes on with its own number of a
-- checkpoint. This holds for guests smaller than the gap too, for which the subtraction wraps.
pub uhyve_init-metadata_of :
    (e : Environment) (asked here there : Options)
    → asked.guest_size + gap_size < 2 ^ 64
    → here ≡ record asked { guest_size = mapped_size asked.guest_size }
    → e.migration_server ≡ some (metadata_of here)
    → uhyve_init e there ≡ (from_migration, record here { no_checkpoint = there.no_checkpoint })
unfolding uhyve_init choose_start metadata_of
uhyve_init-metadata_of e asked here there h running sent = rw sent (
    rw running (
      ap
        (λ n.
          (from_migration, record asked { guest_size = n; no_checkpoint = there.no_checkpoint }))
        (mapped_again asked.guest_size h)))
