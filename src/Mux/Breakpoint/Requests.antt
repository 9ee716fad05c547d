-- ===== src/Mux/Breakpoint/Requests.antt =====
-- How new entries and rebuilt files leave the slots of crates/protocol-mux/src/breakpoint_state.rs.
use dappy_core.Common.{
  get_elem?-length, length-set, ==-refl, some, set, length, get_elem?-append_lt, is_some-get_elem?,
  ℕ, String, ◌≡◌, true, none, List, [], ◌∷◌, ◌++◌, arith, nat_eq, string_eq, ==-eq, unwrap_or,
  is_some, get_elem?,
}
use dappy_core.Common.HashMap
use dappy_core.Mux.Tracker.{write_spec, BreakpointTracker, SourceBreakpointSpec, push_spec}
use dappy_core.Mux.Breakpoint.Slots.{IsIndexed, at_slot, at_slot-insert}

-- The entries of a file that may be missing.
abbrev pub entries_at : BreakpointTracker → String → List SourceBreakpointSpec
entries_at t path = unwrap_or (HashMap.get t.source_breakpoints path) []

at_slot-entries_at :
    (t : BreakpointTracker) (path : String) (y : ℕ)
    → at_slot t.source_breakpoints (path, y) ≡ get_elem? (entries_at t path) y
at_slot-entries_at t path y = ground arith

module _ (t : BreakpointTracker) (path : String) (spec : SourceBreakpointSpec) where
  -- A pushed entry leaves every slot in use as it was, and stands in the next one.
  at_slot-push :
      (slot : String × ℕ)
      → is_some (at_slot t.source_breakpoints slot) ≡ true
      → at_slot (push_spec t none path (entries_at t path) spec).source_breakpoints slot
        ≡ at_slot t.source_breakpoints slot
  unfolding push_spec
  at_slot-push (q, y) h = ground (
    arith,
    at_slot-insert t.source_breakpoints path (entries_at t path ++ spec ∷ []) (q, y),
    ==-eq path q,
    at_slot-entries_at t path y,
    is_some-get_elem? (entries_at t path) y,
    get_elem?-append_lt (entries_at t path) (spec ∷ []) y,
  )

  at_slot-push_self :
      at_slot
        (push_spec t none path (entries_at t path) spec).source_breakpoints
        (path, length (entries_at t path))
      ≡ some spec
  unfolding push_spec
  at_slot-push_self = ground (
    arith,
    at_slot-insert t.source_breakpoints path (entries_at t path ++ spec ∷ [])
        (path, length (entries_at t path)),
    ==-refl path,
    get_elem?-length (entries_at t path) spec,
  )

  at_slot-full : at_slot t.source_breakpoints (path, length (entries_at t path)) ≡ none
  at_slot-full = ground (
    arith,
    at_slot-entries_at t path (length (entries_at t path)),
    is_some-get_elem? (entries_at t path) (length (entries_at t path)),
  )

  -- A written entry changes one slot, and takes none away.
  at_slot-write :
      (x : ℕ) (slot : String × ℕ)
      → is_some (at_slot (write_spec t path (entries_at t path) x spec).source_breakpoints slot)
        ≡ is_some (at_slot t.source_breakpoints slot)
  unfolding write_spec
  at_slot-write x (q, y) = ground (
    arith,
    at_slot-insert t.source_breakpoints path (set (entries_at t path) x spec) (q, y),
    ==-eq path q,
    at_slot-entries_at t path y,
    is_some-get_elem? (entries_at t path) y,
    is_some-get_elem? (set (entries_at t path) x spec) y,
    length-set (entries_at t path) x spec,
  )

  pub write_spec-IsIndexed :
      (x : ℕ) → IsIndexed t → IsIndexed (write_spec t path (entries_at t path) x spec)
  unfolding write_spec
  write_spec-IsIndexed x v = record {
    named = λ j slot h. ground (arith, at_slot-write x slot, v.named j slot h);
    distinct = v.distinct;
  }

  pub push_none-IsIndexed : IsIndexed t → IsIndexed (push_spec t none path (entries_at t path) spec)
  unfolding push_spec
  push_none-IsIndexed v = record {
    named = λ j slot h. ground (arith, at_slot-push slot, v.named j slot h);
    distinct = v.distinct;
  }

  pub push_some-IsIndexed :
      (id : ℕ) → IsIndexed t → IsIndexed (push_spec t (some id) path (entries_at t path) spec)
  unfolding push_spec
  push_some-IsIndexed id v = record {
    named = λ j slot h. ground (
      arith,
      HashMap.get-insert t.breakpoint_ids id j (path, length (entries_at t path)),
      at_slot-push slot,
      at_slot-push_self,
      v.named j slot,
    );
    distinct = λ i j slot h g. ground (
      arith,
      HashMap.get-insert t.breakpoint_ids id i (path, length (entries_at t path)),
      HashMap.get-insert t.breakpoint_ids id j (path, length (entries_at t path)),
      at_slot-full,
      v.named i slot,
      v.named j slot,
      v.distinct i j slot,
    );
  }
