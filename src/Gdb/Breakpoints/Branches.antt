-- ===== src/Gdb/Breakpoints/Branches.antt =====
-- The branches of adding and removing, as equations.
use hermit_caves.Base.{
  ℕ, Bool, true, false, none, some, ap, ◌≡◌, refl, arith, if◌then◌else◌, Option-cases, inl, inr,
}
use hermit_caves.Base.Memory.{Memory, store8}
use hermit_caves.Gdb.Breakpoints.{
  BreakpointType, sw, hw, Breakpoint, Debugger, done, failed, int3, is_sw, bp_list_find,
  bp_list_insert, bp_list_remove, insert_sw_breakpoint, remove_sw_breakpoint, unlink,
  update_guest_debug, restore_insn, add_breakpoint, remove_breakpoint,
}

module _ (type : BreakpointType) (addr len : ℕ) (d : Debugger) where
  pub add_found :
      (m : Bool) {bp : Breakpoint}
      → bp_list_find type addr len d ≡ some bp
      → add_breakpoint m type addr len d ≡ done d
  unfolding add_breakpoint
  add_found m e = rw (e, add_breakpoint)

  pub add_lost :
      bp_list_find type addr len d ≡ none → add_breakpoint false type addr len d ≡ failed d
  unfolding add_breakpoint bp_list_insert
  add_lost e =
      let p : bp_list_insert false type addr len d ≡ (none, d) = rw (e, bp_list_insert) in
      rw (e, add_breakpoint) (rw p (ap (λ r. failed r.1) p))

  -- The debugger once a new node is in place.
  abbrev pub placed : Debugger
  placed =
      let inserted = (bp_list_insert true type addr len d).1 in
      if is_sw type then insert_sw_breakpoint addr len inserted else inserted

  pub add_refused :
      bp_list_find type addr len d ≡ none
      → (bp_list_insert true type addr len d).0 ≡ none
      → add_breakpoint true type addr len d ≡ failed (bp_list_insert true type addr len d).1
  unfolding add_breakpoint
  add_refused e r = rw (e, add_breakpoint) (rw (r, add_breakpoint))

  pub add_new :
      {bp : Breakpoint}
      → bp_list_find type addr len d ≡ none
      → (bp_list_insert true type addr len d).0 ≡ some bp
      → add_breakpoint true type addr len d ≡ update_guest_debug placed
  unfolding add_breakpoint
  add_new e r = rw (e, add_breakpoint) (rw (r, add_breakpoint))

  pub remove_missing :
      bp_list_find type addr len d ≡ none → bp_list_remove type addr len d ≡ (false, d)
  unfolding bp_list_remove
  remove_missing e = rw (e, bp_list_remove)

  -- A node that is referenced once is taken out of its list.
  pub remove_last :
      {bp : Breakpoint}
      → bp_list_find type addr len d ≡ some bp
      → bp.refcount ≡ 1
      → bp_list_remove type addr len d ≡ (true, unlink type addr len d)
  unfolding bp_list_remove
  remove_last e once = rw (e, bp_list_remove) (rw once)

  pub remove_breakpoint-some :
      {d' : Debugger} {e : Debugger}
      → restore_insn type addr len d ≡ some d'
      → bp_list_remove type addr len d' ≡ (true, e)
      → remove_breakpoint type addr len d ≡ update_guest_debug e
  unfolding remove_breakpoint
  remove_breakpoint-some r b = rw (r, remove_breakpoint) (rw b)

  pub remove_breakpoint-none :
      {d' : Debugger} {e : Debugger}
      → restore_insn type addr len d ≡ some d'
      → bp_list_remove type addr len d' ≡ (false, e)
      → remove_breakpoint type addr len d ≡ failed e
  unfolding remove_breakpoint
  remove_breakpoint-none r b = rw (r, remove_breakpoint) (rw b)

-- A software breakpoint whose byte is still the trap gets the saved byte back; nothing else changes.
pub restored :
    (type : BreakpointType) (addr len : ℕ) (d : Debugger)
    → ((bp : Breakpoint) → bp_list_find sw addr len d ≡ some bp → d.memory bp.addr ≡ int3)
    → (m : Memory) × (restore_insn type addr len d ≡ some (record d { memory = m }))
unfolding restore_insn remove_sw_breakpoint
restored sw addr len d h = elim (Option-cases (bp_list_find sw addr len d)) [
  | inl missing ↦ (d.memory, rw (missing, restore_insn))
  | inr (bp, found) ↦
      (store8 d.memory bp.addr bp.saved_insn, rw (found, restore_insn) (ground (arith, h bp found)))
]
restored hw addr len d h = (d.memory, refl)
restored _ addr len d h = (d.memory, refl)
