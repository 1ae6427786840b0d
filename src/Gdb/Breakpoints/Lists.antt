-- ===== src/Gdb/Breakpoints/Lists.antt =====
-- The searches, writes and removals in one breakpoint list.
use hermit_caves.Base.{
  ℕ, ◌+◌, ◌≤◌, ◌*◌, ◌^◌, ◌++◌, bit_or, Bool, false, ◌==◌, if◌then◌else◌, List, [], ◌∷◌, none, some,
  ◌≡◌, refl, length, arith,
}
use hermit_caves.Gdb.Breakpoints.{
  BreakpointType, sw, hw, watch_write, watch_read, watch_access, Breakpoint, GuestDebug, is_sw,
  find, remove_found, type_code, len_code, debug_registers,
}

-- Every node is alone with its address and length, is referenced once, and has a type that
-- belongs into the list.
abbrev pub AllOnce : Bool → List Breakpoint → Type 0
AllOnce soft [] = Unit {0}
AllOnce soft (bp ∷ bps) =
    (find bp.addr bp.len bps ≡ none) × (bp.refcount ≡ 1) × (is_sw bp.type ≡ soft) × AllOnce soft bps

-- Every length has an entry in `len_code`.
abbrev pub AllShort : List Breakpoint → Type 0
AllShort [] = Unit {0}
AllShort (bp ∷ bps) = (bp.len ≤ 8) × AllShort bps

module _ (addr len : ℕ) where
  pub find-refcount :
      (soft : Bool) (bps : List Breakpoint) (bp : Breakpoint)
      → AllOnce soft bps
      → find addr len bps ≡ some bp
      → bp.refcount ≡ 1
  unfolding find
  find-refcount soft [] bp h e = cc
  find-refcount soft (b ∷ bps) bp h e = ground (arith, find-refcount soft bps bp h.3)

  pub find-remove_found :
      (x y : ℕ) (bps : List Breakpoint)
      → find x y bps ≡ none
      → find x y (remove_found addr len bps) ≡ none
  unfolding find remove_found
  find-remove_found x y [] e = e
  find-remove_found x y (b ∷ bps) e = ground (arith, find-remove_found x y bps)

  pub remove_found-AllOnce :
      (soft : Bool) (bps : List Breakpoint)
      → AllOnce soft bps
      → AllOnce soft (remove_found addr len bps)
  unfolding remove_found
  remove_found-AllOnce soft [] h = h
  remove_found-AllOnce soft (b ∷ bps) h =
      ground (arith, remove_found-AllOnce soft bps h.3, find-remove_found b.addr b.len bps h.0)

  pub remove_found-AllShort :
      (bps : List Breakpoint) → AllShort bps → AllShort (remove_found addr len bps)
  unfolding remove_found
  remove_found-AllShort [] h = h
  remove_found-AllShort (b ∷ bps) h = ground (arith, remove_found-AllShort bps h.1)

  pub length-remove_found :
      (bps : List Breakpoint) (bp : Breakpoint)
      → find addr len bps ≡ some bp
      → length bps ≡ length (remove_found addr len bps) + 1
  unfolding find remove_found
  length-remove_found [] bp e = cc
  length-remove_found (b ∷ bps) bp e = ground (arith, length-remove_found bps bp)

type_code-some : (t : BreakpointType) → is_sw t ≡ false → (c : ℕ) × (type_code t ≡ some c)
type_code-some sw h = cc
type_code-some hw h = (0, refl)
type_code-some watch_write h = (1, refl)
type_code-some watch_read h = (2, refl)
type_code-some watch_access h = (3, refl)

len_code-some : (len : ℕ) → len ≤ 8 → (c : ℕ) × (len_code len ≡ some c)
len_code-some len h =
    (if len == 2 then 1 else if len == 4 then 3 else if len == 8 then 2 else 0, ground arith)

-- The request to KVM exists for every list of hardware breakpoints of known types and lengths.
pub debug_registers_total :
    (bps : List Breakpoint) (n : ℕ) (dbg : GuestDebug)
    → AllOnce false bps
    → AllShort bps
    → (dbg' : GuestDebug) × (debug_registers n dbg bps ≡ some dbg')
unfolding debug_registers
debug_registers_total [] n dbg h k = (dbg, refl)
debug_registers_total (bp ∷ bps) n dbg h k =
    let (t, et) = type_code-some bp.type h.2 in
    let (l, el) = len_code-some bp.len k.0 in
    let more =
      debug_registers_total bps (n + 1)
        (record dbg {
          addresses = dbg.addresses ++ (bp.addr ∷ []);
          dr7 =
              bit_or (bit_or (bit_or dbg.dr7 (2 * 2 ^ (n * 2))) (t * 2 ^ (16 + n * 4)))
                (l * 2 ^ (18 + n * 4));
        })
        h.3 k.1 in
    (more.0, rw (et, debug_registers) (rw (el, debug_registers) more.1))
