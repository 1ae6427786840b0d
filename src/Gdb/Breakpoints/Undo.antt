-- ===== src/Gdb/Breakpoints/Undo.antt =====
-- Removing a breakpoint that was just added.
use hermit_caves.Base.{
  ℕ, ◌≤◌, ◌<◌, true, false, none, some, ◌≡◌, refl, arith, if◌then◌else◌, ap, ◌∙◌,
}
use hermit_caves.Base.Memory.{Memory, store8}
use hermit_caves.Gdb.Breakpoints.{
  BreakpointType, sw, hw, watch_write, watch_read, watch_access, Breakpoint, Debugger, done, int3,
  max_hw_breakpoints, is_sw, find, update_found, remove_found, bp_list_find, bp_list_insert,
  insert_new, insert_sw_breakpoint, unlink, update_guest_debug, restore_insn, remove_sw_breakpoint,
  debug_request, add_breakpoint, remove_breakpoint, GuestDebug, soft_control, new_breakpoint,
}
use hermit_caves.Gdb.Breakpoints.Branches.{add_new, placed, remove_last, remove_breakpoint-some}
use hermit_caves.Gdb.Breakpoints.Inv.{IsValid, debug_request_total, place-IsValid, insert-IsValid}
use mathlib.Core.Path.{fun_ext}

store8_back : (m : Memory) (a v : ℕ) → store8 (store8 m a v) a (m a) ≡ m
unfolding store8
store8_back m a v = fun_ext λ x. ground arith

-- A list has room for one more node.
abbrev pub HasRoom : BreakpointType → Debugger → Type 0
HasRoom sw d = Unit {0}
HasRoom _ d = d.nr_hw_breakpoints < max_hw_breakpoints

-- The node that was placed, as it is found again.
abbrev pub node : BreakpointType → ℕ → ℕ → Debugger → Breakpoint
node type addr len d = record {
  type = type;
  addr = addr;
  len = len;
  refcount = 1;
  saved_insn = if is_sw type then d.memory addr else 0;
}

pub placed-node :
    (type : BreakpointType) (addr len : ℕ) (d : Debugger)
    → bp_list_find type addr len d ≡ none
    → HasRoom type d
    → bp_list_find type addr len (placed type addr len d) ≡ some (node type addr len d)
unfolding bp_list_find bp_list_insert insert_new insert_sw_breakpoint find update_found
placed-node sw addr len d e r = ground arith
placed-node hw addr len d e r = ground arith
placed-node watch_write addr len d e r = ground arith
placed-node watch_read addr len d e r = ground arith
placed-node watch_access addr len d e r = ground arith

module _ (type : BreakpointType) (addr len : ℕ) (d : Debugger) (g : GuestDebug) where
  -- The debugger after the node was placed, and then after its byte was restored.
  abbrev pub set_up : Debugger
  set_up = record (placed type addr len d) { guest_debug = g }

  abbrev wiped : Debugger
  wiped = record (placed type addr len d) { guest_debug = g; memory = d.memory }

store8_here : (m : Memory) (a v : ℕ) → store8 m a v a ≡ v
unfolding store8
store8_here m a v = ground arith

-- The trap is still there, and the saved byte goes back.
remove_node :
    (addr len : ℕ) (d : Debugger) (g : GuestDebug)
    → bp_list_find sw addr len d ≡ none
    → remove_sw_breakpoint (node sw addr len d) (set_up sw addr len d g)
      ≡ some (wiped sw addr len d g)
unfolding remove_sw_breakpoint bp_list_insert insert_new insert_sw_breakpoint
remove_node addr len d g e =
    ground (arith, store8_here d.memory addr int3, store8_back d.memory addr int3)

wiped-node :
    (type : BreakpointType) (addr len : ℕ) (d : Debugger) (g : GuestDebug)
    → bp_list_find type addr len d ≡ none
    → HasRoom type d
    → bp_list_find type addr len (wiped type addr len d g) ≡ some (node type addr len d)
unfolding bp_list_find
wiped-node sw addr len d g e r = placed-node sw addr len d e r
wiped-node hw addr len d g e r = placed-node hw addr len d e r
wiped-node watch_write addr len d g e r = placed-node watch_write addr len d e r
wiped-node watch_read addr len d g e r = placed-node watch_read addr len d e r
wiped-node watch_access addr len d g e r = placed-node watch_access addr len d e r

pub set_up-node :
    (type : BreakpointType) (addr len : ℕ) (d : Debugger) (g : GuestDebug)
    → bp_list_find type addr len d ≡ none
    → HasRoom type d
    → bp_list_find type addr len (set_up type addr len d g) ≡ some (node type addr len d)
unfolding bp_list_find
set_up-node sw addr len d g e r = placed-node sw addr len d e r
set_up-node hw addr len d g e r = placed-node hw addr len d e r
set_up-node watch_write addr len d g e r = placed-node watch_write addr len d e r
set_up-node watch_read addr len d g e r = placed-node watch_read addr len d e r
set_up-node watch_access addr len d g e r = placed-node watch_access addr len d e r

restore_set_up :
    (type : BreakpointType) (addr len : ℕ) (d : Debugger) (g : GuestDebug)
    → bp_list_find type addr len d ≡ none
    → HasRoom type d
    → restore_insn type addr len (set_up type addr len d g) ≡ some (wiped type addr len d g)
unfolding restore_insn
restore_set_up sw addr len d g e r =
    let f : bp_list_find sw addr len (set_up sw addr len d g) ≡ some (node sw addr len d) =
      unfold bp_list_find in placed-node sw addr len d e r in
    rw (f, restore_insn) (remove_node addr len d g e)
restore_set_up hw addr len d g e r = unfold bp_list_insert insert_new in ground arith
restore_set_up _ addr len d g e r = unfold bp_list_insert insert_new in ground arith

unlink-wiped :
    (type : BreakpointType) (addr len : ℕ) (d : Debugger) (g : GuestDebug)
    → bp_list_find type addr len d ≡ none
    → HasRoom type d
    → unlink type addr len (wiped type addr len d g) ≡ record d { guest_debug = g }
unfolding unlink bp_list_insert insert_new insert_sw_breakpoint update_found remove_found
unlink-wiped sw addr len d g e r = ground arith
unlink-wiped hw addr len d g e r = ground arith
unlink-wiped watch_write addr len d g e r = ground arith
unlink-wiped watch_read addr len d g e r = ground arith
unlink-wiped watch_access addr len d g e r = ground arith

-- The node is there after the insertion.
insert_node :
    (type : BreakpointType) (addr len : ℕ) (d : Debugger)
    → bp_list_find type addr len d ≡ none
    → HasRoom type d
    → (bp : Breakpoint) × ((bp_list_insert true type addr len d).0 ≡ some bp)
unfolding bp_list_insert insert_new
insert_node sw addr len d e r = (new_breakpoint sw addr len, ground arith)
insert_node hw addr len d e r = (new_breakpoint hw addr len, ground arith)
insert_node watch_write addr len d e r = (new_breakpoint watch_write addr len, ground arith)
insert_node watch_read addr len d e r = (new_breakpoint watch_read addr len, ground arith)
insert_node watch_access addr len d e r = (new_breakpoint watch_access addr len, ground arith)

update_done :
    (d : Debugger) {g : GuestDebug}
    → debug_request d ≡ some g
    → update_guest_debug d ≡ done (record d { guest_debug = g })
unfolding update_guest_debug
update_done d e = rw (e, update_guest_debug)

remove_set_up :
    (type : BreakpointType) (addr len : ℕ) (d : Debugger) (g : GuestDebug)
    → bp_list_find type addr len d ≡ none
    → HasRoom type d
    → remove_breakpoint type addr len (set_up type addr len d g)
      ≡ update_guest_debug (record d { guest_debug = g })
remove_set_up type addr len d g new room =
    let found : bp_list_find type addr len (wiped type addr len d g) ≡ some (node type addr len d) =
      wiped-node type addr len d g new room in
    remove_breakpoint-some type addr len (set_up type addr len d g)
      (restore_set_up type addr len d g new room)
      (remove_last type addr len (wiped type addr len d g) found refl)
    ∙ ap update_guest_debug (unlink-wiped type addr len d g new room)

-- The lists and the stepping flag alone determine the request.
request_wiped :
    (d : Debugger) (g : GuestDebug) → debug_request (record d { guest_debug = g }) ≡ debug_request d
unfolding debug_request soft_control
request_wiped d g = refl

-- Adding a breakpoint that is not there yet, with room for it in its list, returns 0; removing it
-- then returns 0 too, and leaves the debugger as it was before both, every byte of the guest's
-- memory included, but for the request that KVM saw last: that is the one for the lists as they
-- were. The debugger must be valid when the breakpoint is in place.
pub remove_breakpoint-add_breakpoint :
    (type : BreakpointType) (addr len : ℕ) (d : Debugger)
    → IsValid d
    → bp_list_find type addr len d ≡ none
    → HasRoom type d
    → (is_sw type ≡ false → len ≤ 8)
    → (g g' : GuestDebug) × (add_breakpoint true type addr len d ≡ done (set_up type addr len d g))
      × (debug_request d ≡ some g')
      × (remove_breakpoint type addr len (set_up type addr len d g)
          ≡ done (record d { guest_debug = g' }))
remove_breakpoint-add_breakpoint type addr len d v new room short =
    let (bp, got) = insert_node type addr len d new room in
    let valid = place-IsValid type addr len d (insert-IsValid type addr len d v new short) new in
    let (g, e) = debug_request_total (placed type addr len d) valid in
    let (g', e') = debug_request_total d v in
    (
      g,
      g',
      add_new type addr len d new got ∙ update_done (placed type addr len d) e,
      e',
      remove_set_up type addr len d g new room
          ∙ update_done (record d { guest_debug = g }) (request_wiped d g ∙ e'),
    )
