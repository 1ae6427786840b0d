-- ===== src/Cpu/Booted.antt =====
-- The boot processor's segments and page tables.
use hermit_caves.Base.{ℕ, ◌+◌, ◌*◌, ◌/◌, ◌^◌, ◌<◌, ◌≡◌, ap, ◌∙◌, arith}
use hermit_caves.Base.Memory.{Memory, load64, load64-store64_self, load64-store64_ne}
use hermit_caves.Paging.{virt_to_phys}
use hermit_caves.Paging.Identity.{virt_to_phys_identity}
use hermit_caves.Cpu.Segments.{
  gdt_entry, Segments, kvm_segment, write_gdt, setup_system_gdt, code_flags, data_flags, flat_limit,
}
use hermit_caves.Cpu.Segments.Read.{segment_of, kvm_segment-gdt_entry}
use hermit_caves.Cpu.State.{SystemRegs, boot_gdt, setup_boot_processor}

-- The descriptors that are read back from the memory.
code_entry :
    (mem : Memory) (off : ℕ)
    → load64 (write_gdt mem off) (off + 8) ≡ gdt_entry code_flags 0 flat_limit
unfolding write_gdt gdt_entry
code_entry mem off =
    load64-store64_ne _ (off + 2 * 8) (off + 8) _ (omega arith)
    ∙ load64-store64_self _ (off + 8) _ (omega arith)

data_entry :
    (mem : Memory) (off : ℕ)
    → load64 (write_gdt mem off) (off + 2 * 8) ≡ gdt_entry data_flags 0 flat_limit
unfolding write_gdt gdt_entry
data_entry mem off = load64-store64_self _ (off + 2 * 8) _ (omega arith)

-- All segments are flat: one for code, and one for data that five registers have.
abbrev pub flat_segments : ℕ → Segments
flat_segments off =
    let code = segment_of 1 code_flags 0 flat_limit in
    let data_seg = segment_of 2 data_flags 0 flat_limit in
    record {
      gdt_base = off;
      gdt_limit = 23;
      cs = code;
      ds = data_seg;
      es = data_seg;
      fs = data_seg;
      gs = data_seg;
      ss = data_seg;
    }

setup_system_gdt_flat : (mem : Memory) (off : ℕ) → (setup_system_gdt mem off).0 ≡ flat_segments off
unfolding setup_system_gdt
setup_system_gdt_flat mem off = λ i. record {
  gdt_base = off;
  gdt_limit = 23;
  cs = code i;
  ds = data_seg i;
  es = data_seg i;
  fs = data_seg i;
  gs = data_seg i;
  ss = data_seg i;
}
  where
    code :
        kvm_segment 1 (load64 (write_gdt mem off) (off + 8)) ≡ segment_of 1 code_flags 0 flat_limit
    code =
        ap (kvm_segment 1) (code_entry mem off)
        ∙ kvm_segment-gdt_entry 1 code_flags 0 flat_limit (omega arith) (omega arith)

    data_seg :
        kvm_segment 2 (load64 (write_gdt mem off) (off + 2 * 8))
        ≡ segment_of 2 data_flags 0 flat_limit
    data_seg =
        ap (kvm_segment 2) (data_entry mem off)
        ∙ kvm_segment-gdt_entry 2 data_flags 0 flat_limit (omega arith) (omega arith)

-- The boot processor starts, whatever its registers and the memory were, with flat segments that it
-- reads from the descriptors in the memory, and with page tables by which `virt_to_phys` maps the first
-- gigabyte to itself.
pub setup_boot_processor_lem :
    (got : SystemRegs) (mem : Memory)
    → ((setup_boot_processor got mem).0.segments ≡ flat_segments boot_gdt)
      × ((va : ℕ)
          → va < 2 ^ 30
          → virt_to_phys (setup_boot_processor got mem).1 va
            ≡ record { physical = va; page_end = (va / 2 ^ 21 + 1) * 2 ^ 21 })
unfolding setup_boot_processor
setup_boot_processor_lem got mem = (
  setup_system_gdt_flat mem boot_gdt,
  λ va h. virt_to_phys_identity got.control (setup_system_gdt mem boot_gdt).1 va h,
)
