-- ===== src/Gdb/Breakpoints/History.antt =====
-- Sequences of breakpoint requests, with the guest running in between.
use hermit_caves.Base.{ℕ, ◌≤◌, Bool, false, Option, none, some, ◌≡◌, subst}
use hermit_caves.Base.Memory.{Memory}
use hermit_caves.Gdb.Breakpoints.{
  BreakpointType, sw, Breakpoint, Debugger, Outcome, done, failed, crashed, int3, is_sw,
  bp_list_find, add_breakpoint, remove_breakpoint,
}
use hermit_caves.Gdb.Breakpoints.Inv.{IsValid, Keeps, add_breakpoint-Keeps, remove_breakpoint-Keeps}

-- Z and z, with the result of `malloc`.
pub data BreakpointRequest : Type 0 where
  insertion : Bool → BreakpointType → ℕ → ℕ → BreakpointRequest
  removal : BreakpointType → ℕ → ℕ → BreakpointRequest

abbrev pub carry_out : BreakpointRequest → Debugger → Outcome
carry_out (insertion malloc_works type addr len) d = add_breakpoint malloc_works type addr len d
carry_out (removal type addr len) d = remove_breakpoint type addr len d

-- The request names what the processor can do, and the guest did not overwrite the trap.
abbrev pub IsAllowed : BreakpointRequest → Debugger → Type 0
IsAllowed (insertion malloc_works type addr len) d = is_sw type ≡ false → len ≤ 8
IsAllowed (removal type addr len) d =
    (bp : Breakpoint) → bp_list_find sw addr len d ≡ some bp → d.memory bp.addr ≡ int3

abbrev pub left : Outcome → Option Debugger
left (done d) = some d
left (failed d) = some d
left crashed = none

pub data History (d : Debugger) : Debugger → Type 0 where
  attached : History d d
  then :
      {e e' : Debugger}
      → History d e
      → (r : BreakpointRequest) → IsAllowed r e
      → left (carry_out r e) ≡ some e'
      → History d e'
  guest_ran : {e : Debugger} → History d e → (m : Memory) → History d (record e { memory = m })

left-IsValid : (o : Outcome) (d : Debugger) → Keeps o → left o ≡ some d → IsValid d
left-IsValid (done d') d k e = let same : d' ≡ d = cc in subst IsValid same k
left-IsValid (failed d') d k e = let same : d' ≡ d = cc in subst IsValid same k
left-IsValid crashed d k e = absurd k

carry_out-Keeps :
    (r : BreakpointRequest) (d : Debugger) → IsValid d → IsAllowed r d → Keeps (carry_out r d)
carry_out-Keeps (insertion m type addr len) d v h = add_breakpoint-Keeps m type addr len d v h
carry_out-Keeps (removal type addr len) d v h = remove_breakpoint-Keeps type addr len d v h

History-IsValid : {d e : Debugger} → History d e → IsValid d → IsValid e
History-IsValid attached v = v
History-IsValid (then {e = e} {e' = e'} h r ok l) v =
    left-IsValid (carry_out r e) e' (carry_out-Keeps r e (History-IsValid h v) ok) l
History-IsValid (guest_ran {e = e} h m) v =
    let w : IsValid e = History-IsValid h v in
    record {
      counted = w.counted;
      limited = w.limited;
      sw_once = w.sw_once;
      hw_once = w.hw_once;
      hw_short = w.hw_short;
    }

-- After any history of additions, removals and runs of the guest, the next request of
-- `uhyve_gdb_add_breakpoint` or `uhyve_gdb_remove_breakpoint` returns, with 0 or -1, and does not fail
-- an assertion. It leaves lists where the count of hardware breakpoints is the length of their list
-- and at most 4, every node has reference count 1 and is alone with its address and length, software
-- and hardware breakpoints stand in the list of their kind, and the hardware ones have lengths up to
-- 8. The debugger starts with such lists, new hardware breakpoints have lengths up to 8, and at a
-- removal the byte at a software breakpoint that is removed is still the trap.
pub carry_out-History :
    {d e : Debugger}
    → IsValid d
    → History d e
    → (r : BreakpointRequest) → IsAllowed r e
    → Keeps (carry_out r e)
carry_out-History {e = e} v h r ok = carry_out-Keeps r e (History-IsValid h v) ok
