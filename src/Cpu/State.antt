-- ===== src/Cpu/State.antt =====
-- uhyve-x86_64.c: how the state of a CPU is set up, saved and restored by calls of KVM. The structures
-- that are only passed on are types of their own.
use hermit_caves.Base.{ℕ, Bool, ◌==◌, if◌then◌else◌, List, [], ◌∷◌, map}
use hermit_caves.Base.Memory.{Memory}
use hermit_caves.Paging.{Sregs, setup_system_64bit, setup_system_page_tables}
use hermit_caves.Cpu.Segments.{Segments, setup_system_gdt}
use hermit_caves.Cpu.Features.{Entry, filter_cpuid}

-- `struct kvm_regs`, as the boot code fills it; the other registers are 0.
pub record BootRegs : Type 0 where
  pub rip : ℕ
  pub rdi : ℕ
  pub rflags : ℕ

-- `struct kvm_sregs`: the control registers, and the segments.
pub record SystemRegs : Type 0 where
  pub control : Sregs
  pub segments : Segments

abbrev pub boot_info_addr : ℕ
boot_info_addr = 0x9000

abbrev pub boot_gdt : ℕ
boot_gdt = 0x1000

abbrev pub apic_default_base : ℕ
apic_default_base = 0xfee00000

abbrev pub mp_state_runnable : ℕ
mp_state_runnable = 0

abbrev pub msr_ia32_misc_enable : ℕ
msr_ia32_misc_enable = 0x1a0

-- The calls of KVM that set up a CPU, with what is passed.
pub data Request : Type 0 where
  set_cpuid : List Entry → Request
  set_mp_state : ℕ → Request
  set_msrs : List (ℕ × ℕ) → Request
  set_sregs : SystemRegs → Request
  set_regs : BootRegs → Request

-- The static `sregs`, the guest's memory, `run->apic_base` and `kheader->current_boot_id`.
pub record Boot : Type 0 where
  pub sregs : SystemRegs
  pub memory : Memory
  pub apic_base : ℕ
  pub current_boot_id : ℕ

-- What the boot processor makes of the registers that KVM_GET_SREGS gives, and of the memory.
unfoldable pub setup_boot_processor : SystemRegs → Memory → SystemRegs × Memory
setup_boot_processor got mem =
    let (segments, mem1) = setup_system_gdt mem boot_gdt in
    let (control, mem2) = setup_system_page_tables got.control mem1 in
    (record { control = setup_system_64bit control; segments = segments }, mem2)

unfoldable pub setup_system : SystemRegs → ℕ → Boot → Boot
setup_system got id b =
    if id == 0
    then record b {
      sregs = (setup_boot_processor got b.memory).0;
      memory = (setup_boot_processor got b.memory).1;
    }
    else b

abbrev pub boot_regs : ℕ → BootRegs
boot_regs elf_entry = record { rip = elf_entry; rdi = boot_info_addr; rflags = 2 }

-- `init_cpu_state` for the CPU `id`, when `cpu_online` has reached it: `supported` is what
-- KVM_GET_SUPPORTED_CPUID gives. The result has the requests in their order.
unfoldable pub init_cpu_state : Bool → List Entry → SystemRegs → ℕ → ℕ → Boot → List Request × Boot
init_cpu_state cap_tsc_deadline supported got elf_entry id b =
    let b' : Boot =
      setup_system got id (record b { apic_base = apic_default_base; current_boot_id = id }) in
    (
      set_cpuid (filter_cpuid cap_tsc_deadline supported)
          ∷ set_mp_state mp_state_runnable
          ∷ set_msrs ((msr_ia32_misc_enable, 1) ∷ [])
          ∷ set_sregs b'.sregs
          ∷ set_regs (boot_regs elf_entry)
          ∷ [],
      b',
    )

-- The structures of a saved state that are only passed on, as their bytes.
pub data Part : Type 0 where
  sregs regs xcrs lapic fpu xsave events : Part

-- `vcpu_state_t`.
pub record CpuState : Type 0 where
  pub msr_data : List (ℕ × ℕ)
  pub part : Part → List ℕ
  pub mp_state : ℕ

-- The MSRs of KVM_GET_MSRS.
abbrev pub saved_msrs : List ℕ
saved_msrs =
    0x1b ∷ 0x174 ∷ 0x175 ∷ 0x176 ∷ 0x277 ∷ 0x1a0 ∷ 0x10 ∷ 0xc0000083 ∷ 0xc0000081 ∷ 0xc0000080
    ∷ 0xc0000082 ∷ 0xc0000101 ∷ 0xc0000100 ∷ 0xc0000102 ∷ []

-- KVM's view of a CPU, in a state `H`.
pub record KvmCpu (H : Type 0) : Type 0 where
  pub get_part : Part → H → List ℕ
  pub set_part : Part → List ℕ → H → H
  pub get_msr : ℕ → H → ℕ
  pub set_msr_list : List (ℕ × ℕ) → H → H
  pub get_mp : H → ℕ
  pub set_mp : ℕ → H → H
  pub set_features : List Entry → H → H

module _ {H : Type 0} (kvm : KvmCpu H) where
  unfoldable pub save_cpu_state : H → CpuState
  save_cpu_state h = record {
    msr_data = map (λ index. (index, kvm.get_msr index h)) saved_msrs;
    part = λ p. kvm.get_part p h;
    mp_state = kvm.get_mp h;
  }

  -- The parts that are set one after the other.
  pub set_parts : List Part → CpuState → H → H
  set_parts [] s h = h
  set_parts (p ∷ ps) s h = set_parts ps s (kvm.set_part p (s.part p) h)

  unfoldable pub restore_cpu_state : Bool → List Entry → CpuState → H → H
  restore_cpu_state cap_tsc_deadline supported s h =
      let featured = kvm.set_features (filter_cpuid cap_tsc_deadline supported) h in
      let registers = kvm.set_msr_list s.msr_data (set_parts (sregs ∷ regs ∷ []) s featured) in
      let runnable = kvm.set_mp mp_state_runnable (set_parts (xcrs ∷ []) s registers) in
      set_parts (lapic ∷ fpu ∷ xsave ∷ events ∷ []) s runnable
