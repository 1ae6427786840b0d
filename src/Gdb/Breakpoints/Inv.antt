-- ===== src/Gdb/Breakpoints/Inv.antt =====
-- The invariant of the breakpoint lists: adding and removing keep it.
use hermit_caves.Base.{
  ℕ, ◌≤◌, Bool, true, false, [], none, some, ◌≡◌, length, arith, Option-cases, Bool-cases, inl, inr,
}
use hermit_caves.Gdb.Breakpoints.{
  BreakpointType, sw, hw, watch_write, watch_read, watch_access, Breakpoint, Debugger, Outcome,
  done, failed, crashed, int3, max_hw_breakpoints, is_sw, is_empty, update_found, bp_list_find,
  bp_list_insert, insert_new, unlink, insert_sw_breakpoint, debug_request, soft_control, hw_request,
  GuestDebug, update_guest_debug, add_breakpoint, remove_breakpoint,
}
use hermit_caves.Gdb.Breakpoints.Branches.{
  add_found, add_lost, placed, add_refused, add_new, remove_missing, remove_last,
  remove_breakpoint-some, remove_breakpoint-none, restored,
}
use hermit_caves.Gdb.Breakpoints.Lists.{
  AllOnce, AllShort, find-refcount, remove_found-AllOnce, remove_found-AllShort,
  length-remove_found, debug_registers_total,
}

pub record IsValid (d : Debugger) : Type 0 where
  pub counted : d.nr_hw_breakpoints ≡ length d.hw_breakpoints
  pub limited : d.nr_hw_breakpoints ≤ max_hw_breakpoints
  pub sw_once : AllOnce true d.sw_breakpoints
  pub hw_once : AllOnce false d.hw_breakpoints
  pub hw_short : AllShort d.hw_breakpoints

-- The operation returns, whether by 0 or by -1, and the debugger is valid then.
abbrev pub Keeps : Outcome → Type 0
Keeps (done d) = IsValid d
Keeps (failed d) = IsValid d
Keeps crashed = ⊥

pub debug_request_total :
    (d : Debugger) → IsValid d → (dbg : GuestDebug) × (debug_request d ≡ some dbg)
unfolding debug_request
debug_request_total d v = elim (Bool-cases (is_empty d.hw_breakpoints)) [
  | inl none_set ↦ (record { control = soft_control d; addresses = []; dr7 = 0 }, rw none_set)
  | inr any_set ↦
      let total = debug_registers_total d.hw_breakpoints 0 (hw_request d) v.hw_once v.hw_short in
      (total.0, rw any_set total.1)
]

update-Keeps : (d : Debugger) → IsValid d → Keeps (update_guest_debug d)
unfolding update_guest_debug
update-Keeps d v = ground (arith, (debug_request_total d v).1)

pub insert-IsValid :
    (type : BreakpointType) (addr len : ℕ) (d : Debugger)
    → IsValid d
    → bp_list_find type addr len d ≡ none
    → (is_sw type ≡ false → len ≤ 8)
    → IsValid (bp_list_insert true type addr len d).1
unfolding bp_list_insert insert_new bp_list_find
insert-IsValid sw addr len d v e h = ground arith
insert-IsValid hw addr len d v e h = ground arith
insert-IsValid watch_write addr len d v e h = ground arith
insert-IsValid watch_read addr len d v e h = ground arith
insert-IsValid watch_access addr len d v e h = ground arith

-- The write of the saved byte touches the new node only, at the head of the list.
insert_sw-IsValid :
    (addr len : ℕ) (d : Debugger)
    → IsValid (bp_list_insert true sw addr len d).1
    → bp_list_find sw addr len d ≡ none
    → IsValid (placed sw addr len d)
unfolding bp_list_insert insert_new bp_list_find insert_sw_breakpoint update_found
insert_sw-IsValid addr len d v e = ground arith

pub place-IsValid :
    (type : BreakpointType) (addr len : ℕ) (d : Debugger)
    → IsValid (bp_list_insert true type addr len d).1
    → bp_list_find type addr len d ≡ none
    → IsValid (placed type addr len d)
place-IsValid sw addr len d v e = insert_sw-IsValid addr len d v e
place-IsValid hw addr len d v e = v
place-IsValid _ addr len d v e = v

-- The part behind the search.
add_new-Keeps :
    (m : Bool) (type : BreakpointType) (addr len : ℕ) (d : Debugger)
    → IsValid d
    → (is_sw type ≡ false → len ≤ 8)
    → bp_list_find type addr len d ≡ none
    → Keeps (add_breakpoint m type addr len d)
add_new-Keeps false type addr len d v h new = rw (add_lost type addr len d new) v
add_new-Keeps true type addr len d v h new =
    let w = insert-IsValid type addr len d v new h in
    elim (Option-cases (bp_list_insert true type addr len d).0) [
      | inl full ↦ rw (add_refused type addr len d new full) w
      | inr (bp, got) ↦
          rw (add_new type addr len d new got)
            (update-Keeps _ (place-IsValid type addr len d w new))
    ]

-- `uhyve_gdb_add_breakpoint` returns, with 0 or -1, and keeps the invariant: the count of hardware
-- breakpoints is the length of their list and at most 4, every node has reference count 1 and is
-- alone with its address and length in its list, software and hardware breakpoints stand in the
-- list of their kind, and the hardware ones have lengths up to 8. The new breakpoint must have such
-- a length, if it is a hardware one.
pub add_breakpoint-Keeps :
    (malloc_works : Bool) (type : BreakpointType) (addr len : ℕ) (d : Debugger)
    → IsValid d
    → (is_sw type ≡ false → len ≤ 8)
    → Keeps (add_breakpoint malloc_works type addr len d)
unfolding add_breakpoint
add_breakpoint-Keeps m type addr len d v h = elim (Option-cases (bp_list_find type addr len d)) [
  | inr (bp, found) ↦ rw (add_found type addr len d m found) v
  | inl new ↦ add_new-Keeps m type addr len d v h new
]

-- The type and the list of a node agree, and a node that is found is referenced once.
pub found-refcount :
    (type : BreakpointType) (addr len : ℕ) (d : Debugger) (bp : Breakpoint)
    → IsValid d
    → bp_list_find type addr len d ≡ some bp
    → bp.refcount ≡ 1
unfolding bp_list_find
found-refcount sw addr len d bp v e = find-refcount addr len true d.sw_breakpoints bp v.sw_once e
found-refcount hw addr len d bp v e = find-refcount addr len false d.hw_breakpoints bp v.hw_once e
found-refcount _ addr len d bp v e = find-refcount addr len false d.hw_breakpoints bp v.hw_once e

unlink-IsValid :
    (type : BreakpointType) (addr len : ℕ) (d : Debugger) (bp : Breakpoint)
    → IsValid d
    → bp_list_find type addr len d ≡ some bp
    → IsValid (unlink type addr len d)
unfolding unlink bp_list_find
unlink-IsValid sw addr len d bp v e =
    ground (arith, remove_found-AllOnce addr len true d.sw_breakpoints v.sw_once)
unlink-IsValid hw addr len d bp v e = ground (
  arith,
  remove_found-AllOnce addr len false d.hw_breakpoints v.hw_once,
  remove_found-AllShort addr len d.hw_breakpoints v.hw_short,
  length-remove_found addr len d.hw_breakpoints bp,
)
unlink-IsValid _ addr len d bp v e = ground (
  arith,
  remove_found-AllOnce addr len false d.hw_breakpoints v.hw_once,
  remove_found-AllShort addr len d.hw_breakpoints v.hw_short,
  length-remove_found addr len d.hw_breakpoints bp,
)

-- `uhyve_gdb_remove_breakpoint` does so too, if the byte at a software breakpoint is still the trap.
pub remove_breakpoint-Keeps :
    (type : BreakpointType) (addr len : ℕ) (d : Debugger)
    → IsValid d
    → ((bp : Breakpoint) → bp_list_find sw addr len d ≡ some bp → d.memory bp.addr ≡ int3)
    → Keeps (remove_breakpoint type addr len d)
unfolding remove_breakpoint
remove_breakpoint-Keeps type addr len d v h =
    let (m, r) = restored type addr len d h in
    let d' : Debugger = record d { memory = m } in
    let v' : IsValid d' = record {
      counted = v.counted;
      limited = v.limited;
      sw_once = v.sw_once;
      hw_once = v.hw_once;
      hw_short = v.hw_short;
    } in
    elim (Option-cases (bp_list_find type addr len d')) [
      | inl missing ↦
          rw (remove_breakpoint-none type addr len d r (remove_missing type addr len d' missing)) v'
      | inr (bp, found) ↦
          rw
            (remove_breakpoint-some type addr len d r
              (remove_last type addr len d' found (found-refcount type addr len d' bp v' found)))
            (update-Keeps _ (unlink-IsValid type addr len d' bp v' found))
    ]
