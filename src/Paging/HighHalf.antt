-- ===== src/Paging/HighHalf.antt =====
-- `virt_to_phys` on the topmost page, where the boot tables map the top-level table to itself.
use hermit_caves.Base.{ℕ, ◌+◌, ◌-◌, ◌*◌, ◌/◌, ◌^◌, ◌<◌, bit_and, ◌≡◌, refl, ◌∙◌, arith}
use hermit_caves.Base.Bits.{bit_or_split, bit_and_low, bit_and_split, zero-bit_or}
use hermit_caves.Base.Memory.{Memory}
use hermit_caves.Paging.{
  Sregs, Location, setup_system_page_tables, virt_to_phys, index_at, leaf, boot_pml4,
}
use hermit_caves.Paging.Walk.{walk_down, walk_last}
use hermit_caves.Paging.Tables.{pml4_last}

-- The topmost page, by its offset.
abbrev top : ℕ → ℕ
top off = 2 ^ 64 - 2 ^ 12 + off

module _ (off : ℕ) (h : off < 2 ^ 12) where
  index_at-top :
      (index_at (top off) 3 ≡ 511)
      × (index_at (top off) 2 ≡ 511)
      × (index_at (top off) 1 ≡ 511)
      × (index_at (top off) 0 ≡ 511)
  index_at-top = omega (
    arith,
    bit_and_low 9 (top off / 2 ^ 12 / 2 ^ 27),
    bit_and_low 9 (top off / 2 ^ 12 / 2 ^ 18),
    bit_and_low 9 (top off / 2 ^ 12 / 2 ^ 9),
    bit_and_low 9 (top off / 2 ^ 12 / 2 ^ 0),
  )

  -- The complement of the page mask keeps bit 63 beside the offset.
  offset-top : bit_and (top off) (2 ^ 63 + (2 ^ 12 - 1)) ≡ 2 ^ 63 + off
  offset-top =
      let e : 1 * 2 ^ 63 + (2 ^ 63 - 2 ^ 12 + off) ≡ top off = omega arith in
      omega (
        arith,
        rw e at
            (bit_and_split 63 1 1 (2 ^ 63 - 2 ^ 12 + off) (2 ^ 12 - 1) (omega arith) (omega arith)),
        bit_and_low 12 (2 ^ 63 - 2 ^ 12 + off),
      )

  leaf-top :
      leaf (top off) 0 0x10003 ≡ record { physical = 2 ^ 63 + 0x10000 + off; page_end = 0x11000 }
  unfolding leaf
  leaf-top =
      let e : 2 ^ 51 * 2 ^ 12 + off ≡ 2 ^ 63 + off = omega arith in
      rw offset-top (
        ground
          (arith, rw e at (bit_or_split 12 16 (2 ^ 51) 0 off (omega arith) h), zero-bit_or off))

-- The processor finds the top-level table itself, at 0x10000, behind the topmost page: all four
-- levels of the walk go through its last entry. `virt_to_phys` returns that address with bit 63
-- set, since the complement of its page mask contains that bit.
pub virt_to_phys_self_map :
    (s : Sregs) (m : Memory) (off : ℕ)
    → off < 2 ^ 12
    → virt_to_phys (setup_system_page_tables s m).1 (2 ^ 64 - 2 ^ 12 + off)
      ≡ record { physical = 2 ^ 63 + 0x10000 + off; page_end = 0x11000 }
unfolding virt_to_phys
virt_to_phys_self_map s m off h =
    let (i3, i2, i1, i0) = index_at-top off h in
    walk_down t (top off) boot_pml4 2 nowhere i3 (pml4_last s m) refl refl
    ∙ walk_down t (top off) boot_pml4 1 nowhere i2 (pml4_last s m) refl refl
    ∙ walk_down t (top off) boot_pml4 0 nowhere i1 (pml4_last s m) refl refl
    ∙ walk_last t (top off) boot_pml4 nowhere i0 (pml4_last s m) refl
    ∙ leaf-top off h
  where
    t : Memory
    t = (setup_system_page_tables s m).1

    nowhere : Location
    nowhere = record { physical = 0; page_end = 0 }
