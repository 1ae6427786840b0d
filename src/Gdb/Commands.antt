-- ===== src/Gdb/Commands.antt =====
-- uhyve-gdb.c, x86-64: `gdb_handle_exception`, the loop over the commands of the debugger, with
-- `gdb_handle_query` and `uhyve_gdb_handle_term`, over the packets, the breakpoints, the registers and
-- the guest's memory.
pub mod State
pub mod Access
pub mod Loop
pub mod Ends
pub mod Session
pub mod Memory
pub mod Threads
mod Tests
use hermit_caves.Base.{
  ℕ, ◌+◌, ◌%◌, ◌^◌, Bool, true, false, ◌&&◌, not, ltb, ◌==◌, if◌then◌else◌, ◌>>=◌, Option, none,
  some, List, [], ◌∷◌, ◌++◌,
}
use hermit_caves.Gdb.Scan.{scan_hex, scan_pair, literal, print_hex}
use hermit_caves.Gdb.Packet.{response}
use hermit_caves.Gdb.Breakpoints.{
  BreakpointType, sw, hw, watch_write, watch_read, watch_access, Debugger, Outcome, done, failed,
  crashed, is_sw, bp_list_find, add_breakpoint, remove_breakpoint, enable_ss, disable_ss,
}
use hermit_caves.Gdb.Commands.State.{
  Machine, Target, Step, error_msg, okay_msg, not_supported_msg, guest_virt_to_phys, in_guest,
  answer, silent, resume, leave, crash,
}
use hermit_caves.Gdb.Commands.Access.{read_memory, write_memory, read_general, write_general}

-- `strcmp(s, t) == 0`.
unfoldable pub same_text : List ℕ → List ℕ → Bool
same_text [] [] = true
same_text [] (d ∷ t) = false
same_text (c ∷ s) [] = false
same_text (c ∷ s) (d ∷ t) = c == d && same_text s t

abbrev pub qf_thread_info : List ℕ
qf_thread_info =
    b'q' ∷ b'f' ∷ b'T' ∷ b'h' ∷ b'r' ∷ b'e' ∷ b'a' ∷ b'd' ∷ b'I' ∷ b'n' ∷ b'f' ∷ b'o' ∷ []

abbrev pub qs_thread_info : List ℕ
qs_thread_info =
    b'q' ∷ b's' ∷ b'T' ∷ b'h' ∷ b'r' ∷ b'e' ∷ b'a' ∷ b'd' ∷ b'I' ∷ b'n' ∷ b'f' ∷ b'o' ∷ []

-- `thread_counter++`, and the answer with its value.
next_thread : Target → Step
next_thread t =
    let counter = (t.thread_counter + 1) % 2 ^ 64 in
    answer (b'm' ∷ print_hex counter) (record t { thread_counter = counter })

unfoldable pub gdb_handle_query : Machine → List ℕ → Target → Step
unfolding next_thread
gdb_handle_query m text t =
    if ltb 1 m.ncores
    then (if same_text text qf_thread_info
        then next_thread t
        else if same_text text qs_thread_info
        then (if ltb t.thread_counter m.ncores
            then next_thread t
            else answer (b'l' ∷ []) (record t { thread_counter = 0 }))
        else silent t)
    else answer not_supported_msg t

-- `s` and `c`: an address is refused; the outcome is that of enabling or disabling single steps.
on_step : Option (ℕ × List ℕ) → Outcome → Target → Step
on_step (some addr) outcome t = answer not_supported_msg t
on_step none (done d) t = resume (record t { debugger = d })
on_step none (failed d) t = answer error_msg (record t { debugger = d })
on_step none crashed t = crash

-- The value of `%x` at an enumeration; `none` fails the assertion of both functions.
abbrev pub type_of : ℕ → Option BreakpointType
type_of n =
    let type = n % 2 ^ 32 in
    if type == 0
    then some sw
    else if type == 1
    then some hw
    else if type == 2
    then some watch_write
    else if type == 3
    then some watch_read
    else if type == 4
    then some watch_access
    else none

abbrev pub scan_breakpoint : List ℕ → Option (ℕ × ℕ × ℕ)
scan_breakpoint text = scan_hex text >>= λ type. literal b',' type.1 >>= λ behind.
    scan_pair behind >>= λ place. some (type.0, place.0.0, place.0.1)

on_breakpoint : Outcome → Target → Step
on_breakpoint (done d) t = answer okay_msg (record t { debugger = d })
on_breakpoint (failed d) t = answer error_msg (record t { debugger = d })
on_breakpoint crashed t = crash

abbrev is_missing {ℓ} : {A : Type ℓ} → Option A → Bool
is_missing none = true
is_missing (some _) = false

-- The trap of a new software breakpoint is written to the guest's memory.
unfoldable pub insert_breakpoint : Machine → ℕ → BreakpointType → ℕ → ℕ → Debugger → Outcome
insert_breakpoint m request type addr len d =
    let works = m.malloc_works request in
    if is_sw type && works && is_missing (bp_list_find type addr len d) && not (in_guest m addr 1)
    then crashed
    else add_breakpoint works type addr len d

-- `Z` and `z`, the result of the function that `change` is.
change_breakpoint : Machine → (BreakpointType → ℕ → ℕ → Debugger → Outcome) → List ℕ → Target → Step
unfolding on_breakpoint
change_breakpoint m change text t = elim (scan_breakpoint text) [
  | none ↦ answer error_msg t
  | some (n, addr, len) ↦ elim (guest_virt_to_phys m addr) [
    | none ↦ answer error_msg t
    | some phys ↦ elim (type_of n) [
      | none ↦ crash
      | some type ↦
          on_breakpoint (change type phys len t.debugger) (record t { requests = t.requests + 1 })
    ]
  ]
]

-- The switch over the first character, with the text behind it.
switch : Machine → ℕ → ℕ → List ℕ → Target → Step
unfolding on_step read_general write_general change_breakpoint
switch m sigval command text t =
    if command == b's'
    then on_step (scan_hex text) (enable_ss t.debugger) t
    else if command == b'c'
    then on_step (scan_hex text) (disable_ss t.debugger) t
    else if command == b'm'
    then read_memory m text t
    else if command == b'M'
    then write_memory m text t
    else if command == b'g'
    then read_general t
    else if command == b'G'
    then write_general text t
    else if command == b'?'
    then answer (response b'S' sigval) t
    else if command == b'Z'
    then change_breakpoint m (insert_breakpoint m t.requests) text t
    else if command == b'z'
    then change_breakpoint m remove_breakpoint text t
    else if command == b'k'
    then answer okay_msg t
    else if command == b'q'
    then gdb_handle_query m (command ∷ text) t
    else if command == b'D'
    then leave okay_msg t
    else answer not_supported_msg t

unfoldable pub handle_command : Machine → ℕ → List ℕ → Target → Step
unfolding switch
handle_command m sigval [] t = answer not_supported_msg t
handle_command m sigval (command ∷ text) t = switch m sigval command text t
