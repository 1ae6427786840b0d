-- ===== src/Gdb/Breakpoints/Tests.antt =====
-- Runs of the breakpoint functions, and instances of their theorems.
use hermit_caves.Base.{ap, ℕ, true, false, [], ◌∷◌, none, some, ◌≡◌, refl, arith}
use hermit_caves.Gdb.Breakpoints.{
  BreakpointType, sw, hw, watch_write, watch_read, Breakpoint, Debugger, GuestDebug, done, crashed,
  find, bp_list_find, bp_list_insert, insert_new, update_guest_debug, debug_registers,
  debug_request, soft_control, restore_insn, remove_sw_breakpoint, add_breakpoint,
  remove_breakpoint,
}
use hermit_caves.Gdb.Breakpoints.Inv.{IsValid, Keeps}
use hermit_caves.Gdb.Breakpoints.History.{
  insertion, removal, left, attached, then, carry_out-History,
}
use hermit_caves.Gdb.Breakpoints.Undo.{set_up, remove_breakpoint-add_breakpoint}
use hermit_caves.Gdb.Breakpoints.Limits.{add_breakpoint_other_type}

-- Every byte is a `nop`.
abbrev idle : Debugger
idle = record {
  sw_breakpoints = [];
  hw_breakpoints = [];
  nr_hw_breakpoints = 0;
  stepping = false;
  memory = λ a. 0x90;
  guest_debug = record { control = 0; addresses = []; dr7 = 0 };
}

abbrev watch : BreakpointType → ℕ → ℕ → Breakpoint
watch type addr len = record { type = type; addr = addr; len = len; refcount = 1; saved_insn = 0 }

-- Four hardware breakpoints.
abbrev full : Debugger
full = record idle {
  hw_breakpoints =
      watch hw 0x100 1
      ∷ watch watch_write 0x200 8
      ∷ watch watch_read 0x300 4
      ∷ watch hw 0x400 2
      ∷ [];
  nr_hw_breakpoints = 4;
}

request_full :
    debug_request full
    ≡ some (record {
      control = 0x20001;
      addresses = 0x100 ∷ 0x200 ∷ 0x300 ∷ 0x400 ∷ [];
      dr7 = 0x4e9006aa;
    })
unfolding debug_request soft_control debug_registers
request_full = refl

-- Two software breakpoints at one address with different lengths: removing the first gives back the
-- instruction, and then the second is no trap any more.
removed_twice :
    remove_breakpoint sw 0x40 2
      (record idle { sw_breakpoints = record (watch sw 0x40 2) { saved_insn = 0xcc } ∷ [] })
    ≡ crashed
unfolding remove_breakpoint restore_insn remove_sw_breakpoint bp_list_find find
removed_twice = refl

idle-IsValid : IsValid idle
idle-IsValid = record {
  counted = refl;
  limited = omega arith;
  sw_once = tt;
  hw_once = tt;
  hw_short = tt;
}

-- A watchpoint is set and then removed.
abbrev one_watch : Debugger
one_watch = record idle {
  hw_breakpoints = watch watch_write 0x2000 8 ∷ [];
  nr_hw_breakpoints = 1;
  guest_debug = record { control = 0x20001; addresses = 0x2000 ∷ []; dr7 = 0x90602 };
}

set_watch : add_breakpoint true watch_write 0x2000 8 idle ≡ done one_watch
unfolding add_breakpoint bp_list_find find bp_list_insert insert_new debug_request soft_control
    debug_registers update_guest_debug
set_watch = refl

no_trap : (bp : Breakpoint) → bp_list_find sw 0x2000 8 one_watch ≡ some bp → ⊥
unfolding bp_list_find find
no_trap bp e = cc

carry_out-History_example : Keeps (remove_breakpoint watch_write 0x2000 8 one_watch)
carry_out-History_example =
    carry_out-History idle-IsValid
      (then attached (insertion true watch_write 0x2000 8) (λ e. omega arith) (ap left set_watch))
      (removal watch_write 0x2000 8) (λ bp e. absurd (no_trap bp e))

idle-find : (type : BreakpointType) → bp_list_find type 0x40 1 idle ≡ none
unfolding bp_list_find find
idle-find sw = refl
idle-find hw = refl
idle-find _ = refl

remove_breakpoint-add_breakpoint_example :
    (g g' : GuestDebug) × (add_breakpoint true sw 0x40 1 idle ≡ done (set_up sw 0x40 1 idle g))
    × (debug_request idle ≡ some g')
    × (remove_breakpoint sw 0x40 1 (set_up sw 0x40 1 idle g)
        ≡ done (record idle { guest_debug = g' }))
remove_breakpoint-add_breakpoint_example =
    remove_breakpoint-add_breakpoint sw 0x40 1 idle idle-IsValid (idle-find sw) tt
      (λ e. omega arith)

add_breakpoint_other_type_example :
    add_breakpoint true watch_write 0x40 1 (set_up hw 0x40 1 idle idle.guest_debug)
    ≡ done (set_up hw 0x40 1 idle idle.guest_debug)
add_breakpoint_other_type_example =
    add_breakpoint_other_type true hw watch_write 0x40 1 idle idle.guest_debug refl refl
      (idle-find hw) (omega arith)
