-- ===== src/Paging/Tests.antt =====
-- Runs of the page walk, and instances of its theorems.
use hermit_caves.Base.{◌+◌, ◌-◌, ◌*◌, ◌/◌, ◌^◌, ◌≡◌, refl, arith}
use hermit_caves.Base.Memory.{Memory, store64, load64}
use hermit_caves.Paging.{
  Sregs, virt_to_phys, virt_to_phys_for_table, leaf, setup_system_page_tables, setup_system_64bit,
}
use hermit_caves.Paging.Identity.{virt_to_phys_identity, virt_to_phys_unmapped}
use hermit_caves.Paging.HighHalf.{virt_to_phys_self_map}

abbrev reset : Sregs
reset = record { cr0 = 0x6000_0010; cr3 = 0; cr4 = 0; efer = 0 }

abbrev blank : Memory
blank a = 0

long_mode :
    setup_system_64bit (setup_system_page_tables reset blank).0
    ≡ record { cr0 = 0xe000_0011; cr3 = 0x10000; cr4 = 0x20; efer = 0xd00 }
unfolding setup_system_64bit setup_system_page_tables
long_mode = refl

-- A 4 KiB page behind four levels.
abbrev small_page : Memory
small_page =
    store64 (store64 (store64 (store64 blank 0x10000 0x2_0001) 0x2_0000 0x2_1001) 0x2_1008 0x2_2001)
      0x2_2010 0x8000_0000_0034_5063

walk_small_page :
    virt_to_phys small_page 0x20_2abc ≡ record { physical = 0x34_5abc; page_end = 0x34_6000 }
unfolding virt_to_phys virt_to_phys_for_table leaf store64 load64
walk_small_page = refl

virt_to_phys_identity_example :
    virt_to_phys (setup_system_page_tables reset blank).1 0x1234_5678
    ≡ record { physical = 0x1234_5678; page_end = (0x1234_5678 / 2 ^ 21 + 1) * 2 ^ 21 }
virt_to_phys_identity_example = virt_to_phys_identity reset blank 0x1234_5678 (omega arith)

virt_to_phys_unmapped_example :
    virt_to_phys (setup_system_page_tables reset blank).1 0x1_0000_0000
    ≡ record { physical = 0; page_end = 0 }
virt_to_phys_unmapped_example =
    virt_to_phys_unmapped reset blank 0x1_0000_0000 (omega arith) (omega arith)

virt_to_phys_self_map_example :
    virt_to_phys (setup_system_page_tables reset blank).1 (2 ^ 64 - 2 ^ 12 + 8)
    ≡ record { physical = 2 ^ 63 + 0x10000 + 8; page_end = 0x11000 }
virt_to_phys_self_map_example = virt_to_phys_self_map reset blank 8 (omega arith)
