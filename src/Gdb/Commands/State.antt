-- ===== src/Gdb/Commands/State.antt =====
-- uhyve-gdb.c: what the commands of the debugger work on, and what they come to.
use hermit_caves.Base.{ℕ, ◌+◌, Bool, ◌||◌, leb, ◌==◌, Option, some, List, [], ◌∷◌}
use hermit_caves.Gdb.Breakpoints.{Debugger}
use hermit_caves.Gdb.Registers.{KvmRegs, Selectors}

-- What stays: the number of CPUs, the size of the guest's memory, what KVM_TRANSLATE puts into
-- `physical_address` and `valid`, and if the call of `malloc` for the breakpoint with this number works.
pub record Machine : Type 0 where
  pub ncores : ℕ
  pub guest_size : ℕ
  pub translate : ℕ → ℕ × Bool
  pub malloc_works : ℕ → Bool

-- The breakpoints and the guest's memory, the static buffer for registers, the registers of the CPU,
-- the static `thread_counter`, and how many breakpoints were asked for.
pub record Target : Type 0 where
  pub debugger : Debugger
  pub registers : List ℕ
  pub kregs : KvmRegs
  pub sregs : Selectors
  pub thread_counter : ℕ
  pub requests : ℕ

-- What a command comes to: an answer and the next command, the next command without an answer, a return
-- with or without an answer, or a failed assertion or an access outside of an array or the guest.
pub data Step : Type 0 where
  answer : List ℕ → Target → Step
  silent : Target → Step
  resume : Target → Step
  leave : List ℕ → Target → Step
  crash : Step

abbrev pub error_msg : List ℕ
error_msg = b'E' ∷ b'0' ∷ b'1' ∷ []

abbrev pub okay_msg : List ℕ
okay_msg = b'O' ∷ b'K' ∷ []

abbrev pub not_supported_msg : List ℕ
not_supported_msg = []

-- The result 0 with `*phys`, whether or not the translation is valid; `none` would be another result.
abbrev pub guest_virt_to_phys : Machine → ℕ → Option ℕ
guest_virt_to_phys m virt = some (m.translate virt).0

-- The bytes are in the guest's memory.
abbrev pub in_guest : Machine → ℕ → ℕ → Bool
in_guest m phys len = len == 0 || leb (phys + len) m.guest_size
