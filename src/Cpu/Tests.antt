-- ===== src/Cpu/Tests.antt =====
-- Runs of the set-up of a CPU, and instances of its theorems.
use hermit_caves.Base.{ℕ, ◌+◌, ◌*◌, ◌/◌, ◌^◌, ◌<◌, true, [], ◌∷◌, ◌≡◌, refl, length}
use hermit_caves.Base.Memory.{Memory}
use hermit_caves.Paging.{virt_to_phys}
use hermit_caves.Cpu.Segments.{gdt_entry}
use hermit_caves.Cpu.Features.{Entry, filter_cpuid}
use hermit_caves.Cpu.State.{SystemRegs, setup_boot_processor, boot_gdt, saved_msrs}
use hermit_caves.Cpu.Booted.{flat_segments, setup_boot_processor_lem}

-- The descriptors of the boot code.
code_descriptor : gdt_entry 0xa09b 0 0xfffff ≡ 0xaf9b000000ffff
unfolding gdt_entry
code_descriptor = refl

data_descriptor : gdt_entry 0xc093 0 0xfffff ≡ 0xcf93000000ffff
unfolding gdt_entry
data_descriptor = refl

-- A leaf that is not 1 or 10 is kept, leaf 10 is disabled.
leaf : ℕ → Entry
leaf n = record { function = n; index = 0; eax = 7; ebx = 7; ecx = 7; edx = 7 }

filters :
    filter_cpuid true (leaf 1 ∷ leaf 10 ∷ leaf 7 ∷ [])
    ≡ record (leaf 1) { ecx = 7 + 2 ^ 31 + 2 ^ 24; edx = 7 + 2 ^ 5 }
      ∷ record (leaf 10) { eax = 0 }
      ∷ leaf 7
      ∷ []
unfolding filter_cpuid leaf
filters = refl

-- The MSRs fit into the array.
msrs_fit : length saved_msrs ≡ 14
msrs_fit = refl

blank : SystemRegs
blank = record {
  control = record { cr0 = 0; cr3 = 0; cr4 = 0; efer = 0 };
  segments = flat_segments 0;
}

zeros : Memory
zeros a = 0

setup_boot_processor_lem_example :
    ((setup_boot_processor blank zeros).0.segments ≡ flat_segments boot_gdt)
    × ((va : ℕ)
        → va < 2 ^ 30
        → virt_to_phys (setup_boot_processor blank zeros).1 va
          ≡ record { physical = va; page_end = (va / 2 ^ 21 + 1) * 2 ^ 21 })
setup_boot_processor_lem_example = setup_boot_processor_lem blank zeros
