-- ===== src/Kernel/Header/Frame.antt =====
-- The fields of the kernel's header are written, and nothing else.
use hermit_caves.Base.{
  ℕ, ◌+◌, ◌≤◌, ◌<◌, Option, none, some, List, ◌≡◌, ◌⊎◌, refl, ◌∙◌, arith, length,
}
use hermit_caves.Base.Memory.{Memory, memset}
use hermit_caves.Syscalls.Wire.{bytes_of, length-bytes_of}
use hermit_caves.Vcpu.Transfer.{store_bytes}
use hermit_caves.Kernel.Header.{
  Platform, header_size, set_field, set_tls, set_address, set_if, or_broadcast, set_numbers,
  init_header, describe_kernel, set_image_size,
}

-- An address that is not in the header.
abbrev pub Outside : ℕ → ℕ → Type 0
Outside kheader x = (x < kheader) ⊎ (kheader + header_size ≤ x)

pub store_bytes_outside :
    (m : Memory) (a : ℕ) (bs : List ℕ) (x : ℕ)
    → (x < a) ⊎ (a + length bs ≤ x)
    → store_bytes m a bs x ≡ m x
unfolding store_bytes
store_bytes_outside m a bs x h = ground arith

module _ (kheader x : ℕ) (h : Outside kheader x) where
  set_field_outside :
      (off n v : ℕ) (m : Memory) → off + n ≤ header_size → set_field kheader off n v m x ≡ m x
  set_field_outside off n v m k =
      store_bytes_outside m (kheader + off) (bytes_of n v) x (ground (arith, length-bytes_of n v))

  pub set_tls_outside :
      (paddr filesz memsz : ℕ) (m : Memory) → set_tls kheader paddr filesz memsz m x ≡ m x
  unfolding set_tls
  set_tls_outside paddr filesz memsz m =
      set_field_outside 48 8 memsz _ (omega arith)
      ∙ set_field_outside 40 8 filesz _ (omega arith)
      ∙ set_field_outside 32 8 paddr m (omega arith)

  set_address_outside :
      (off : ℕ) (address : ℕ × ℕ × ℕ × ℕ) (m : Memory)
      → off + 4 ≤ header_size
      → set_address kheader off address m x ≡ m x
  set_address_outside off (a, b, c, d) m k =
      set_field_outside (off + 3) 1 d _ (omega arith)
      ∙ set_field_outside (off + 2) 1 c _ (omega arith)
      ∙ set_field_outside (off + 1) 1 b _ (omega arith)
      ∙ set_field_outside off 1 a m (omega arith)

  set_if_outside :
      (off : ℕ) (address : Option (ℕ × ℕ × ℕ × ℕ)) (m : Memory)
      → off + 4 ≤ header_size
      → set_if kheader off address m x ≡ m x
  set_if_outside off none m k = refl
  set_if_outside off (some address) m k = set_address_outside off address m k

  set_numbers_outside :
      (p : Platform) (paddr : ℕ) (m : Memory) → set_numbers p kheader paddr m x ≡ m x
  unfolding set_numbers
  set_numbers_outside p paddr m =
      set_field_outside 132 2 _ _ (omega arith)
      ∙ set_field_outside 135 1 _ _ (omega arith)
      ∙ set_field_outside 128 4 _ _ (omega arith)
      ∙ set_field_outside 124 4 _ _ (omega arith)
      ∙ set_field_outside 112 4 _ _ (omega arith)
      ∙ set_field_outside 16 8 _ _ (omega arith)
      ∙ set_field_outside 8 8 _ _ (omega arith)
      ∙ set_field_outside 56 8 _ m (omega arith)

  pub describe_kernel_outside :
      (p : Platform) (paddr : ℕ) (m : Memory) → describe_kernel p kheader paddr m x ≡ m x
  unfolding describe_kernel
  describe_kernel_outside p paddr m =
      set_field_outside 80 8 _ _ (omega arith)
      ∙ set_field_outside 72 8 _ _ (omega arith)
      ∙ set_if_outside 144 p.mask _ (omega arith)
      ∙ set_if_outside 140 p.gateway _ (omega arith)
      ∙ set_address_outside 136 (or_broadcast p.ip) _ (omega arith)
      ∙ set_numbers_outside p paddr m

  pub set_image_size_outside : (size : ℕ) (m : Memory) → set_image_size kheader size m x ≡ m x
  unfolding set_image_size
  set_image_size_outside size m = set_field_outside 24 8 size m (omega arith)

  pub init_header_outside : (m : Memory) → init_header kheader m x ≡ m x
  unfolding init_header memset
  init_header_outside m =
      set_field_outside 134 1 1 _ (omega arith)
      ∙ set_field_outside 4 4 1 _ (omega arith)
      ∙ set_field_outside 0 4 0xc0decafe _ (omega arith)
      ∙ ground arith
