-- ===== src/Mux/Tracker.antt =====
-- crates/protocol-mux/src/breakpoint_state.rs: the tracker's tables and the changes that need no JSON. A
-- line is an i64, here its bit pattern.
use dappy_core.Common.{
  ℕ, ◌-◌, ◌^◌, String, Bool, not, ◌&&◌, Option, none, some, List, [], ◌∷◌, ◌++◌, ltb, leb,
  if◌then◌else◌, ◌==◌, nat_eq, string_eq, and_then, unwrap_or, length, get_elem?, set, remove_at,
}
use dappy_core.Common.HashMap.{HashMap}
use dappy_core.Common.HashMap

pub record SourceBreakpointSpec : Type 0 where
  pub line : ℕ
  pub condition : Option String
  pub hit_condition : Option String
  pub log_message : Option String

pub record ExceptionBreakpointSpec : Type 0 where
  pub filter : String
  pub condition : Option String

pub record PendingSetBreakpoints : Type 0 where
  pub source_path : String
  pub specs : List SourceBreakpointSpec

pub record BreakpointTracker : Type 0 where
  pub source_breakpoints : HashMap String (List SourceBreakpointSpec)
  pub exception_breakpoints : List ExceptionBreakpointSpec
  pub pending_set_breakpoints : HashMap ℕ PendingSetBreakpoints
  pub breakpoint_ids : HashMap ℕ (String × ℕ)

-- `BreakpointTracker::default()`
unfoldable pub empty : BreakpointTracker
empty = record {
  source_breakpoints = [];
  exception_breakpoints = [];
  pending_set_breakpoints = [];
  breakpoint_ids = [];
}

-- `line < 0` on an i64.
abbrev pub is_negative : ℕ → Bool
is_negative n = leb (2 ^ 63) n

unfoldable pub rebuild_source_breakpoints :
    BreakpointTracker → String → List SourceBreakpointSpec → BreakpointTracker
rebuild_source_breakpoints t path specs = record t {
  breakpoint_ids = HashMap.retain (λ id slot. not (slot.0 == path)) t.breakpoint_ids;
  source_breakpoints = elim specs [
    | [] ↦ HashMap.remove t.source_breakpoints path
    | spec ∷ rest ↦ HashMap.insert t.source_breakpoints path (spec ∷ rest)
  ];
}

-- `entries.remove(index)`, and no entry at all when the last one is gone.
unfoldable pub without_slot :
    HashMap String (List SourceBreakpointSpec)
    → String
    → ℕ
    → HashMap String (List SourceBreakpointSpec)
without_slot files path index = elim (HashMap.get files path) [
  | none ↦ files
  | some entries ↦ elim (remove_at entries index) [
    | [] ↦ HashMap.remove files path
    | spec ∷ rest ↦ HashMap.insert files path (spec ∷ rest)
  ]
]

-- `if stored_path == &path && *stored_index > index { *stored_index -= 1 }`
abbrev pub shift_slot : String → ℕ → String × ℕ → String × ℕ
shift_slot path index (stored_path, stored_index) =
    if stored_path == path && ltb index stored_index
    then (stored_path, stored_index - 1)
    else (stored_path, stored_index)

unfoldable pub remove_id : BreakpointTracker → ℕ → BreakpointTracker
remove_id t bp_id = elim (HashMap.get t.breakpoint_ids bp_id) [
  | none ↦ t
  | some (path, index) ↦ record t {
    source_breakpoints = without_slot t.source_breakpoints path index;
    breakpoint_ids =
        HashMap.map_values (shift_slot path index) (HashMap.remove t.breakpoint_ids bp_id);
  }
]

-- `entries.push(spec)`, and the id of the new entry if it has one.
unfoldable pub push_spec :
    BreakpointTracker
    → Option ℕ
    → String
    → List SourceBreakpointSpec
    → SourceBreakpointSpec
    → BreakpointTracker
push_spec t id path entries spec = record t {
  source_breakpoints = HashMap.insert t.source_breakpoints path (entries ++ spec ∷ []);
  breakpoint_ids = elim id [
    | none ↦ t.breakpoint_ids
    | some bp_id ↦ HashMap.insert t.breakpoint_ids bp_id (path, length entries)
  ];
}

-- `entries[index] = spec`
unfoldable pub write_spec :
    BreakpointTracker
    → String
    → List SourceBreakpointSpec
    → ℕ
    → SourceBreakpointSpec
    → BreakpointTracker
write_spec t path entries index spec = record t {
  source_breakpoints = HashMap.insert t.source_breakpoints path (set entries index spec);
}

-- The tail of `apply_new_breakpoint`, once the specification is read. The slot that the id names is
-- looked up without its path.
unfoldable pub add_to :
    BreakpointTracker
    → Option ℕ
    → String
    → List SourceBreakpointSpec
    → SourceBreakpointSpec
    → BreakpointTracker
add_to t id path entries spec = elim (and_then id (λ bp_id. HashMap.get t.breakpoint_ids bp_id)) [
  | none ↦ push_spec t id path entries spec
  | some (_, index) ↦
      if ltb index (length entries)
      then write_spec t path entries index spec
      else push_spec t id path entries spec
]

unfoldable pub add_spec :
    BreakpointTracker → Option ℕ → String → SourceBreakpointSpec → BreakpointTracker
unfolding add_to
add_spec t id path spec =
    add_to t id path (unwrap_or (HashMap.get t.source_breakpoints path) []) spec

-- The nested `if let`s: the file and the entry that the id names, if both are there.
unfoldable pub slot_of :
    BreakpointTracker
    → Option ℕ
    → Option (String × ℕ × List SourceBreakpointSpec × SourceBreakpointSpec)
slot_of t id = and_then id λ bp_id. and_then (HashMap.get t.breakpoint_ids bp_id) λ slot.
    and_then (HashMap.get t.source_breakpoints slot.0)
      λ entries. and_then (get_elem? entries slot.1) λ spec. some (slot.0, slot.1, entries, spec)
