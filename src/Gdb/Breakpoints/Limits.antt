-- ===== src/Gdb/Breakpoints/Limits.antt =====
-- What the lists of hardware breakpoints do not take: a second type at an address.
use hermit_caves.Base.{ℕ, Bool, false, none, ◌≡◌, ◌∙◌, arith}
use hermit_caves.Gdb.Breakpoints.{
  BreakpointType, Debugger, GuestDebug, done, is_sw, bp_list_find, add_breakpoint,
}
use hermit_caves.Gdb.Breakpoints.Branches.{add_found}
use hermit_caves.Gdb.Breakpoints.Undo.{HasRoom, set_up, set_up-node}

-- The search among the hardware breakpoints does not look at the type.
find_any_type :
    (t t' : BreakpointType) (addr len : ℕ) (d : Debugger)
    → is_sw t ≡ false
    → is_sw t' ≡ false
    → bp_list_find t' addr len d ≡ bp_list_find t addr len d
unfolding bp_list_find
find_any_type t t' addr len d h k = ground arith

-- After a hardware breakpoint or watchpoint was added, adding one of any other hardware type at the
-- same address and length returns 0, and nothing is set.
pub add_breakpoint_other_type :
    (malloc_works : Bool) (t t' : BreakpointType) (addr len : ℕ) (d : Debugger) (g : GuestDebug)
    → is_sw t ≡ false
    → is_sw t' ≡ false
    → bp_list_find t addr len d ≡ none
    → HasRoom t d
    → add_breakpoint malloc_works t' addr len (set_up t addr len d g) ≡ done (set_up t addr len d g)
add_breakpoint_other_type m t t' addr len d g h k new room =
    add_found t' addr len (set_up t addr len d g) m (
      find_any_type t t' addr len (set_up t addr len d g) h k ∙ set_up-node t addr len d g new room)
