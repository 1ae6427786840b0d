-- ===== src/Cpu/Features.antt =====
-- uhyve-x86_64.c: `filter_cpuid`.
use hermit_caves.Base.{ℕ, ◌^◌, Bool, bit_or, ◌==◌, if◌then◌else◌, List, map}

-- `struct kvm_cpuid_entry2`, with the fields that are read or written, and `index`.
pub record Entry : Type 0 where
  pub function : ℕ
  pub index : ℕ
  pub eax : ℕ
  pub ebx : ℕ
  pub ecx : ℕ
  pub edx : ℕ

abbrev pub func_perfmon : ℕ
func_perfmon = 0x0a

-- The switch for one entry.
abbrev pub filter_entry : Bool → Entry → Entry
filter_entry cap_tsc_deadline entry =
    if entry.function == 1
    then record entry {
      ecx =
          if cap_tsc_deadline
          then bit_or (bit_or entry.ecx (2 ^ 31)) (2 ^ 24)
          else bit_or entry.ecx (2 ^ 31);
      edx = bit_or entry.edx (2 ^ 5);
    }
    else if entry.function == func_perfmon
    then record entry { eax = 0 }
    else entry

-- The loop over the `nent` entries, which are the list.
unfoldable pub filter_cpuid : Bool → List Entry → List Entry
filter_cpuid cap_tsc_deadline entries = map (filter_entry cap_tsc_deadline) entries
