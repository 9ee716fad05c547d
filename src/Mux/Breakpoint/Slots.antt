-- ===== src/Mux/Breakpoint/Slots.antt =====
-- The slots that breakpoint ids name (crates/protocol-mux/src/breakpoint_state.rs): `breakpoint_ids`
-- maps an id to a file and an index into that file's entries.
use dappy_core.Common.{
  arith, ℕ, String, ◌≡◌, refl, true, Option, none, some, List, [], ◌∷◌, if◌then◌else◌, ◌==◌, nat_eq,
  string_eq, and_then, is_some, get_elem?, remove_at,
}
use dappy_core.Common.HashMap.{HashMap}
use dappy_core.Common.HashMap
use dappy_core.Mux.Tracker.{without_slot, empty, BreakpointTracker, SourceBreakpointSpec}
use dappy_core.Mux.Breakpoint.{◌∷◌, none, get_elem?, and_then, Option, String, List, ℕ}

-- The entry that a slot finds in the files.
abbrev pub at_slot :
    HashMap String (List SourceBreakpointSpec) → String × ℕ → Option SourceBreakpointSpec
at_slot files slot = and_then (HashMap.get files slot.0) (λ entries. get_elem? entries slot.1)

-- The entry that an id names.
abbrev pub spec_of_id : BreakpointTracker → ℕ → Option SourceBreakpointSpec
spec_of_id t id = and_then (HashMap.get t.breakpoint_ids id) (at_slot t.source_breakpoints)

-- Every id names an entry that is there, and no two ids name the same one.
pub record IsIndexed (t : BreakpointTracker) : Type 0 where
  pub named :
      (id : ℕ) (slot : String × ℕ)
      → HashMap.get t.breakpoint_ids id ≡ some slot
      → is_some (spec_of_id t id) ≡ true
  pub distinct :
      (i j : ℕ) (slot : String × ℕ)
      → HashMap.get t.breakpoint_ids i ≡ some slot
      → HashMap.get t.breakpoint_ids j ≡ some slot
      → i ≡ j

pub empty-IsIndexed : IsIndexed empty
unfolding empty HashMap.get
empty-IsIndexed = record { named = λ id slot h. cc; distinct = λ i j slot h. cc }

-- An empty list of entries is no entry in the map of files.
abbrev pub kept : List SourceBreakpointSpec → Option (List SourceBreakpointSpec)
kept [] = none
kept (spec ∷ rest) = some (spec ∷ rest)

pub get_elem?-kept :
    (l : List SourceBreakpointSpec) (i : ℕ)
    → and_then (kept l) (λ es. get_elem? es i) ≡ get_elem? l i
get_elem?-kept [] i = refl
get_elem?-kept (spec ∷ rest) i = refl

without_slot-cases :
    (files : HashMap String (List SourceBreakpointSpec)) (p q : String) (x : ℕ)
    (es l : List SourceBreakpointSpec)
    → HashMap.get files p ≡ some es
    → remove_at es x ≡ l
    → HashMap.get (without_slot files p x) q ≡ (if p == q then kept l else HashMap.get files q)
unfolding without_slot
without_slot-cases files p q x es [] h r =
    rw (h, without_slot) (rw (r, without_slot) (HashMap.get-remove files p q))
without_slot-cases files p q x es (spec ∷ rest) h r =
    rw (h, without_slot) (rw (r, without_slot) (HashMap.get-insert files p q (spec ∷ rest)))

-- A removal changes the one file, and drops the file with its last entry.
pub get-without_slot :
    (files : HashMap String (List SourceBreakpointSpec)) (p q : String) (x : ℕ)
    (es : List SourceBreakpointSpec)
    → HashMap.get files p ≡ some es
    → HashMap.get (without_slot files p x) q
      ≡ (if p == q then kept (remove_at es x) else HashMap.get files q)
get-without_slot files p q x es h = without_slot-cases files p q x es (remove_at es x) h refl

pub at_slot-insert :
    (files : HashMap String (List SourceBreakpointSpec)) (path : String)
    (l : List SourceBreakpointSpec) (slot : String × ℕ)
    → at_slot (HashMap.insert files path l) slot
      ≡ (if path == slot.0 then get_elem? l slot.1 else at_slot files slot)
at_slot-insert files path l (q, y) = ground (arith, HashMap.get-insert files path q l)
