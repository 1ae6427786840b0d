-- ===== src/Regions/Tests.antt =====
-- Instances of the theorems on the guest's memory.
use hermit_caves.Base.{ℕ, suc, ◌-◌, ◌^◌, ◌≤◌, ◌<◌, [], ◌∷◌, map, length, ◌≡◌, ◌⊎◌, arith}
use hermit_caves.Regions.{
  MemChunk, FreeRegion, gap_start, gap_end, mapped_size, init_kvm_arch, first_chunk,
  determine_guest_physical_memory_regions, determine_mem_mappings,
}
use hermit_caves.Regions.Slots.{chunk_of, AreIdentity, total, Covers, init_kvm_arch-regions}
use hermit_caves.Regions.Gaps.{between, chunks_from, last_region, determine_mem_mappings_below}

init_kvm_arch-regions_example :
    (total (map chunk_of (init_kvm_arch (2 ^ 33))) ≡ 2 ^ 33)
    × (((a : ℕ)
          → Covers (map chunk_of (init_kvm_arch (2 ^ 33))) a
          → (a < gap_start) ⊎ (gap_end ≤ a))
        × (AreIdentity (init_kvm_arch (2 ^ 33))
            × (determine_guest_physical_memory_regions (mapped_size (2 ^ 33))
                ≡ map chunk_of (init_kvm_arch (2 ^ 33)))))
init_kvm_arch-regions_example = init_kvm_arch-regions (2 ^ 33) (omega arith)

abbrev heap : ℕ → MemChunk
heap = λ i. record { size = 0; ptr = 0 }

abbrev first : FreeRegion
first = record { start = 0xa00000; end = 0xc00000 }

abbrev second : FreeRegion
second = record { start = 0xd00000; end = 0x1000000 }

abbrev half_gigabyte : ℕ
half_gigabyte = 0x2000_0000

determine_mem_mappings_below_example :
    let mm = determine_mem_mappings heap half_gigabyte first (second ∷ []) in
    (mm.count ≡ suc (length (second ∷ [])))
    × ((chunks_from 0 mm.count mm ≡ between first_chunk (first ∷ second ∷ []))
        × (mm.mem_chunks mm.count ≡ record {
          size = half_gigabyte - (last_region first (second ∷ [])).end;
          ptr = (last_region first (second ∷ [])).end;
        }))
determine_mem_mappings_below_example =
    determine_mem_mappings_below heap half_gigabyte first (second ∷ []) (omega arith)
      ((omega arith, omega arith), ((omega arith, omega arith), (omega arith, omega arith)))
      (λ e. omega (arith, e))
