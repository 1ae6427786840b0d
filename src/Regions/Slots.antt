-- ===== src/Regions/Slots.antt =====
-- The memory slots that KVM is given, and the regions that a migration takes for the guest's memory.
use hermit_caves.Base.{
  ℕ, ◌+◌, ◌-◌, ◌%◌, ◌^◌, ◌≤◌, ◌<◌, ltb, leb, true, false, List, [], ◌∷◌, map, ◌≡◌, ◌⊎◌, refl, ap,
  arith, Bool-cases, inl, inr,
}
use hermit_caves.Regions.{
  gap_size, gap_start, gap_end, MemChunk, MemorySlot, mapped_size, memory_slots, init_kvm_arch,
  determine_guest_physical_memory_regions, sub64,
}

abbrev pub chunk_of : MemorySlot → MemChunk
chunk_of s = record { size = s.memory_size; ptr = s.guest_phys_addr }

abbrev pub total : List MemChunk → ℕ
total [] = 0
total (c ∷ cs) = c.size + total cs

-- The host's memory of each slot is at the offset that is its address in the guest.
abbrev pub AreIdentity : List MemorySlot → Type 0
AreIdentity [] = Unit {0}
AreIdentity (s ∷ ss) = (s.userspace_offset ≡ s.guest_phys_addr) × AreIdentity ss

-- An address inside of some chunk.
abbrev pub Covers : List MemChunk → ℕ → Type 0
Covers [] a = ⊥
Covers (c ∷ cs) a = ((c.ptr ≤ a) × (a < c.ptr + c.size)) ⊎ Covers cs a

abbrev one_slot : ℕ → List MemorySlot
one_slot n = record { slot = 0; guest_phys_addr = 0; memory_size = n; userspace_offset = 0 } ∷ []

abbrev two_slots : ℕ → List MemorySlot
two_slots n =
    record { slot = 0; guest_phys_addr = 0; memory_size = gap_start; userspace_offset = 0 }
    ∷ record { slot = 1; guest_phys_addr = gap_end; memory_size = n; userspace_offset = gap_end }
    ∷ []

small_slots : (n : ℕ) → n < gap_start → init_kvm_arch n ≡ one_slot n
unfolding init_kvm_arch memory_slots
small_slots n h =
    let e : ltb n gap_start ≡ true = ground arith in
    let f : leb n gap_start ≡ true = ground arith in rw e (rw f refl)

small_regions :
    (n : ℕ)
    → n < gap_start
    → determine_guest_physical_memory_regions (mapped_size n) ≡ record { size = n; ptr = 0 } ∷ []
unfolding determine_guest_physical_memory_regions
small_regions n h = let e : ltb n gap_start ≡ true = ground arith in rw e (rw e refl)

big_slots :
    (n : ℕ) → gap_start ≤ n → n + gap_size < 2 ^ 64 → init_kvm_arch n ≡ two_slots (n - gap_start)
unfolding init_kvm_arch memory_slots
big_slots n h k =
    let e : ltb n gap_start ≡ false = ground arith in
    let small : (n + gap_size) % 2 ^ 64 ≡ n + gap_size = omega arith in
    let f : leb (n + gap_size) gap_start ≡ false = ground arith in
    let size : sub64 (sub64 (n + gap_size) gap_size) gap_start ≡ n - gap_start = omega arith in
    rw e (rw small (rw f (ap two_slots size)))

big_regions :
    (n : ℕ)
    → gap_start ≤ n
    → n + gap_size < 2 ^ 64
    → determine_guest_physical_memory_regions (mapped_size n)
      ≡ map chunk_of (two_slots (n - gap_start))
unfolding determine_guest_physical_memory_regions
big_regions n h k =
    let e : ltb n gap_start ≡ false = ground arith in
    let small : (n + gap_size) % 2 ^ 64 ≡ n + gap_size = omega arith in
    let f : ltb (n + gap_size) gap_start ≡ false = ground arith in
    let size : sub64 (n + gap_size) gap_end ≡ n - gap_start = omega arith in
    rw e (rw small (rw f (ap (λ x. map chunk_of (two_slots x)) size)))

-- For every size that does not wrap: the slots that KVM is given have the size of the guest together
-- and no address of the gap, they are mapped at the same offset of the host's memory, and they are
-- the regions that a migration takes for the guest's memory.
pub init_kvm_arch-regions :
    (guest_size : ℕ)
    → guest_size + gap_size < 2 ^ 64
    → (total (map chunk_of (init_kvm_arch guest_size)) ≡ guest_size)
      × (((a : ℕ)
            → Covers (map chunk_of (init_kvm_arch guest_size)) a
            → (a < gap_start) ⊎ (gap_end ≤ a))
          × (AreIdentity (init_kvm_arch guest_size)
              × (determine_guest_physical_memory_regions (mapped_size guest_size)
                  ≡ map chunk_of (init_kvm_arch guest_size))))
init_kvm_arch-regions guest_size h = elim (Bool-cases (ltb guest_size gap_start)) [
  | inl small ↦
      let less : guest_size < gap_start = ground arith in
      rw (small_slots guest_size less)
        (omega arith, (one_covers guest_size less, ((refl, tt), small_regions guest_size less)))
  | inr big ↦
      let more : gap_start ≤ guest_size = ground arith in
      rw (big_slots guest_size more h) (
        omega arith,
        (two_cover (guest_size - gap_start), ((refl, (refl, tt)), big_regions guest_size more h)),
      )
]
  where
    one_covers :
        (n : ℕ)
        → n < gap_start
        → (a : ℕ) → Covers (map chunk_of (one_slot n)) a
        → (a < gap_start) ⊎ (gap_end ≤ a)
    one_covers n h a (inl c) = inl (omega (arith, c.1))
    one_covers n h a (inr c) = absurd c

    two_cover : (n a : ℕ) → Covers (map chunk_of (two_slots n)) a → (a < gap_start) ⊎ (gap_end ≤ a)
    two_cover n a (inl c) = inl (omega (arith, c.1))
    two_cover n a (inr (inl c)) = inr c.0
    two_cover n a (inr (inr c)) = absurd c
