-- ===== src/Gdb/Breakpoints.antt =====
-- uhyve-gdb.c, x86-64: the breakpoint lists, software breakpoints in the guest's memory, and what
-- `KVM_SET_GUEST_DEBUG` is called with. A node is a value in its list; the stub keeps no other
-- pointer to it across calls.
pub mod Lists
pub mod Branches
pub mod Inv
pub mod History
pub mod Undo
pub mod Limits
mod Tests
use hermit_caves.Base.{
  ℕ, ◌+◌, ◌-◌, ◌*◌, ◌%◌, ◌^◌, bit_or, Bool, true, false, ltb, ◌==◌, ◌&&◌, if◌then◌else◌, List, [],
  ◌∷◌, ◌++◌, Option, none, some,
}
use hermit_caves.Base.Memory.{Memory, store8}

-- `gdb_breakpoint_type`; the assertions `type < GDB_BREAKPOINT_MAX` and the `default: assert(0)`
-- branches cannot fail for a value of this type.
pub data BreakpointType : Type 0 where
  sw hw watch_write watch_read watch_access : BreakpointType

-- `struct breakpoint_t`. `saved_insn` is read for software breakpoints only.
pub record Breakpoint : Type 0 where
  pub type : BreakpointType
  pub addr : ℕ
  pub len : ℕ
  pub refcount : ℕ
  pub saved_insn : ℕ

abbrev pub max_hw_breakpoints : ℕ
max_hw_breakpoints = 4

abbrev pub int3 : ℕ
int3 = 0xcc

-- `struct kvm_guest_debug`: `addresses` are the debug registers 0 to 3, `dr7` is register 7.
pub record GuestDebug : Type 0 where
  pub control : ℕ
  pub addresses : List ℕ
  pub dr7 : ℕ

-- The static variables, the guest's memory and the last `KVM_SET_GUEST_DEBUG`.
pub record Debugger : Type 0 where
  pub sw_breakpoints : List Breakpoint
  pub hw_breakpoints : List Breakpoint
  pub nr_hw_breakpoints : ℕ
  pub stepping : Bool
  pub memory : Memory
  pub guest_debug : GuestDebug

-- The results 0 and -1; a failed assertion, or a read past the end of `len_code`.
pub data Outcome : Type 0 where
  done : Debugger → Outcome
  failed : Debugger → Outcome
  crashed : Outcome

abbrev pub matches : ℕ → ℕ → Breakpoint → Bool
matches addr len bp = bp.addr == addr && bp.len == len

-- `SLIST_FOREACH` with the early return.
pub find : ℕ → ℕ → List Breakpoint → Option Breakpoint
find addr len [] = none
find addr len (bp ∷ bps) = if matches addr len bp then some bp else find addr len bps

-- A write through the pointer that `find` returns.
pub update_found : ℕ → ℕ → (Breakpoint → Breakpoint) → List Breakpoint → List Breakpoint
update_found addr len f [] = []
update_found addr len f (bp ∷ bps) =
    if matches addr len bp then f bp ∷ bps else bp ∷ update_found addr len f bps

-- `SLIST_REMOVE` of the node that `find` returns.
pub remove_found : ℕ → ℕ → List Breakpoint → List Breakpoint
remove_found addr len [] = []
remove_found addr len (bp ∷ bps) =
    if matches addr len bp then bps else bp ∷ remove_found addr len bps

-- The list that holds breakpoints of a type, and a write to it.
abbrev pub list_of : BreakpointType → Debugger → List Breakpoint
list_of sw d = d.sw_breakpoints
list_of _ d = d.hw_breakpoints

abbrev pub with_list : BreakpointType → Debugger → List Breakpoint → Debugger
with_list sw d bps = record d { sw_breakpoints = bps }
with_list _ d bps = record d { hw_breakpoints = bps }

unfoldable pub bp_list_find : BreakpointType → ℕ → ℕ → Debugger → Option Breakpoint
bp_list_find type addr len d = find addr len (list_of type d)

abbrev pub new_breakpoint : BreakpointType → ℕ → ℕ → Breakpoint
new_breakpoint type addr len = record {
  type = type;
  addr = addr;
  len = len;
  refcount = 1;
  saved_insn = 0;
}

-- The switch of `bp_list_insert`; `none` is NULL.
pub insert_new : BreakpointType → Breakpoint → Debugger → Option Breakpoint × Debugger
insert_new sw bp d = (some bp, record d { sw_breakpoints = bp ∷ d.sw_breakpoints })
insert_new _ bp d = if d.nr_hw_breakpoints == max_hw_breakpoints then (none, d) else (
  some bp,
  record d {
    hw_breakpoints = bp ∷ d.hw_breakpoints;
    nr_hw_breakpoints = (d.nr_hw_breakpoints + 1) % 2 ^ 32;
  },
)

-- `malloc_works` says if `malloc` returns a node.
pub bp_list_insert : Bool → BreakpointType → ℕ → ℕ → Debugger → Option Breakpoint × Debugger
bp_list_insert malloc_works type addr len d = elim (bp_list_find type addr len d) [
  | some bp ↦
      let bump : Breakpoint → Breakpoint = λ b. record b { refcount = (b.refcount + 1) % 2 ^ 32 } in
      (some (bump bp), with_list type d (update_found addr len bump (list_of type d)))
  | none ↦ if malloc_works then insert_new type (new_breakpoint type addr len) d else (none, d)
]

-- The switch of `bp_list_remove`.
pub unlink : BreakpointType → ℕ → ℕ → Debugger → Debugger
unlink sw addr len d = record d { sw_breakpoints = remove_found addr len d.sw_breakpoints }
unlink _ addr len d = record d {
  hw_breakpoints = remove_found addr len d.hw_breakpoints;
  nr_hw_breakpoints = (d.nr_hw_breakpoints + 2 ^ 32 - 1) % 2 ^ 32;
}

-- The result is false for -1.
pub bp_list_remove : BreakpointType → ℕ → ℕ → Debugger → Bool × Debugger
bp_list_remove type addr len d = elim (bp_list_find type addr len d) [
  | none ↦ (false, d)
  | some bp ↦
      let drop : Breakpoint → Breakpoint =
        λ b. record b { refcount = (b.refcount + 2 ^ 32 - 1) % 2 ^ 32 } in
      if ltb 0 (drop bp).refcount
      then (true, with_list type d (update_found addr len drop (list_of type d)))
      else (true, unlink type addr len d)
]

-- The new node stands at the head of the list.
pub insert_sw_breakpoint : ℕ → ℕ → Debugger → Debugger
insert_sw_breakpoint addr len d = record d {
  sw_breakpoints =
      update_found addr len (λ b. record b { saved_insn = d.memory addr }) d.sw_breakpoints;
  memory = store8 d.memory addr int3;
}

-- `none` is the failed assertion that the byte is still the trap.
pub remove_sw_breakpoint : Breakpoint → Debugger → Option Debugger
remove_sw_breakpoint bp d =
    if d.memory bp.addr == int3
    then some (record d { memory = store8 d.memory bp.addr bp.saved_insn })
    else none

abbrev pub guestdbg_enable : ℕ
guestdbg_enable = 1

abbrev pub guestdbg_singlestep : ℕ
guestdbg_singlestep = 2

abbrev pub guestdbg_use_sw_bp : ℕ
guestdbg_use_sw_bp = 0x10000

abbrev pub guestdbg_use_hw_bp : ℕ
guestdbg_use_hw_bp = 0x20000

-- The array has no initialiser for GDB_BREAKPOINT_SW, and the loop asserts that it is not asked for.
abbrev pub type_code : BreakpointType → Option ℕ
type_code sw = none
type_code hw = some 0
type_code watch_write = some 1
type_code watch_read = some 2
type_code watch_access = some 3

-- An array of nine elements; `none` is a read past its end.
abbrev pub len_code : ℕ → Option ℕ
len_code len =
    if ltb 8 len
    then none
    else some (if len == 2 then 1 else if len == 4 then 3 else if len == 8 then 2 else 0)

-- The loop over the hardware breakpoints, for register `n`.
pub debug_registers : ℕ → GuestDebug → List Breakpoint → Option GuestDebug
debug_registers n dbg [] = some dbg
debug_registers n dbg (bp ∷ bps) = elim (type_code bp.type) [
  | none ↦ none
  | some type ↦ elim (len_code bp.len) [
    | none ↦ none
    | some len ↦
        debug_registers (n + 1)
          (record dbg {
            addresses = dbg.addresses ++ (bp.addr ∷ []);
            dr7 =
                bit_or (bit_or (bit_or dbg.dr7 (2 * 2 ^ (n * 2))) (type * 2 ^ (16 + n * 4)))
                  (len * 2 ^ (18 + n * 4));
          })
          bps
  ]
]

abbrev pub is_empty : List Breakpoint → Bool
is_empty [] = true
is_empty (_ ∷ _) = false

-- `dbg.control` after the first two conditionals.
pub soft_control : Debugger → ℕ
soft_control d =
    let step = if d.stepping then bit_or guestdbg_enable guestdbg_singlestep else 0 in
    if is_empty d.sw_breakpoints
    then step
    else bit_or step (bit_or guestdbg_enable guestdbg_use_sw_bp)

-- `dbg` before the loop over the hardware breakpoints.
abbrev pub hw_request : Debugger → GuestDebug
hw_request d = record {
  control = bit_or (soft_control d) (bit_or guestdbg_enable guestdbg_use_hw_bp);
  addresses = [];
  dr7 = bit_or (2 ^ 9) (2 ^ 10);
}

-- `dbg` after all conditionals.
pub debug_request : Debugger → Option GuestDebug
debug_request d =
    if is_empty d.hw_breakpoints
    then some (record { control = soft_control d; addresses = []; dr7 = 0 })
    else debug_registers 0 (hw_request d) d.hw_breakpoints

-- The `ioctl` is called with the request; one that fails ends the process, and is not modelled.
pub update_guest_debug : Debugger → Outcome
update_guest_debug d = elim (debug_request d) [
  | none ↦ crashed
  | some dbg ↦ done (record d { guest_debug = dbg })
]

abbrev pub is_sw : BreakpointType → Bool
is_sw sw = true
is_sw _ = false

unfoldable pub add_breakpoint : Bool → BreakpointType → ℕ → ℕ → Debugger → Outcome
add_breakpoint malloc_works type addr len d = elim (bp_list_find type addr len d) [
  | some bp ↦ done d
  | none ↦
      let inserted = bp_list_insert malloc_works type addr len d in
      elim inserted.0 [
        | none ↦ failed inserted.1
        | some bp ↦
            update_guest_debug
              (if is_sw type then insert_sw_breakpoint addr len inserted.1 else inserted.1)
      ]
]

-- The first part of `uhyve_gdb_remove_breakpoint`; `none` is the failed assertion.
pub restore_insn : BreakpointType → ℕ → ℕ → Debugger → Option Debugger
restore_insn sw addr len d = elim (bp_list_find sw addr len d) [
  | none ↦ some d
  | some bp ↦ remove_sw_breakpoint bp d
]
restore_insn _ addr len d = some d

unfoldable pub remove_breakpoint : BreakpointType → ℕ → ℕ → Debugger → Outcome
remove_breakpoint type addr len d = elim (restore_insn type addr len d) [
  | none ↦ crashed
  | some d' ↦
      let removed = bp_list_remove type addr len d' in
      if removed.0 then update_guest_debug removed.1 else failed removed.1
]

unfoldable pub enable_ss : Debugger → Outcome
enable_ss d = update_guest_debug (record d { stepping = true })

unfoldable pub disable_ss : Debugger → Outcome
disable_ss d = update_guest_debug (record d { stepping = false })
