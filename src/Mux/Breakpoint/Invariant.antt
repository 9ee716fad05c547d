-- ===== src/Mux/Breakpoint/Invariant.antt =====
-- Every operation of crates/protocol-mux/src/breakpoint_state.rs keeps ids and entries in step.
use dappy_core.Common.{
  if_keeps, match_keeps, ℕ, String, ◌≡◌, refl, inl, inr, false, not, Option, none, some, List, [],
  ◌∷◌, arith, eq_iff, ltb, Bool-cases, ◌==◌, nat_eq, string_eq, and_then, Option-cases, length,
  get_elem?,
}
use dappy_core.Common.HashMap
use dappy_core.Mux.Tracker.{
  is_negative, slot_of, BreakpointTracker, SourceBreakpointSpec, add_to, add_spec,
  rebuild_source_breakpoints,
}
use dappy_core.Mux.Breakpoint.{
  object_at, bp_source_path, change_spec, i64_at, observe_breakpoint_event,
  apply_removed_breakpoint, apply_new_breakpoint, apply_changed_breakpoint,
  observe_set_breakpoints_response,
}
use dappy_core.Mux.Breakpoint.Slots.{IsIndexed, at_slot, at_slot-insert}
use dappy_core.Mux.Breakpoint.Requests.{
  entries_at, write_spec-IsIndexed, push_none-IsIndexed, push_some-IsIndexed,
}
use dappy_core.Mux.Breakpoint.Removal.{remove_id-IsIndexed}
use dappy_core.Json.{Json}

pub add_spec-IsIndexed :
    (t : BreakpointTracker) (id : Option ℕ) (path : String) (spec : SourceBreakpointSpec)
    → IsIndexed t
    → IsIndexed (add_spec t id path spec)
unfolding add_spec
add_spec-IsIndexed t none path spec v = push_none-IsIndexed t path spec v
add_spec-IsIndexed t (some id) path spec v = elim (Option-cases (HashMap.get t.breakpoint_ids id)) [
  | inl fresh ↦ rw (fresh, add_to) (push_some-IsIndexed t path spec id v)
  | inr ((q, x), known) ↦ elim (Bool-cases (ltb x (length (entries_at t path)))) [
    | inl inside ↦ rw (known, add_to) (rw inside (write_spec-IsIndexed t path spec x v))
    | inr outside ↦ rw (known, add_to) (rw outside (push_some-IsIndexed t path spec id v))
  ]
]

at_slot-rebuild :
    (t : BreakpointTracker) (path : String) (specs : List SourceBreakpointSpec) (slot : String × ℕ)
    → (slot.0 == path) ≡ false
    → at_slot (rebuild_source_breakpoints t path specs).source_breakpoints slot
      ≡ at_slot t.source_breakpoints slot
unfolding rebuild_source_breakpoints
at_slot-rebuild t path [] (q, y) h =
    ground (arith, HashMap.get-remove t.source_breakpoints path q, eq_iff q path, eq_iff path q)
at_slot-rebuild t path (spec ∷ rest) (q, y) h = ground (
  arith,
  at_slot-insert t.source_breakpoints path (spec ∷ rest) (q, y),
  eq_iff q path,
  eq_iff path q,
)

ids-rebuild :
    (t : BreakpointTracker) (path : String) (specs : List SourceBreakpointSpec) (j : ℕ)
    (slot : String × ℕ)
    → HashMap.get (rebuild_source_breakpoints t path specs).breakpoint_ids j ≡ some slot
    → (HashMap.get t.breakpoint_ids j ≡ some slot) × ((slot.0 == path) ≡ false)
unfolding rebuild_source_breakpoints
ids-rebuild t path specs j slot h =
    ground (arith, HashMap.get-retain (λ id s. not (s.0 == path)) t.breakpoint_ids j)

pub rebuild-IsIndexed :
    (t : BreakpointTracker) (path : String) (specs : List SourceBreakpointSpec)
    → IsIndexed t
    → IsIndexed (rebuild_source_breakpoints t path specs)
rebuild-IsIndexed t path specs v = record {
  named = λ j slot h.
      let (there, apart) = ids-rebuild t path specs j slot h in
      rw (h, at_slot-rebuild t path specs slot apart) (ground (arith, v.named j slot there));
  distinct = λ i j slot h g.
      v.distinct i j slot (ids-rebuild t path specs i slot h).0
        (ids-rebuild t path specs j slot g).0;
}

slot_of-eq_some :
    (t : BreakpointTracker) (id : Option ℕ) (path : String) (x : ℕ)
    (entries : List SourceBreakpointSpec) (spec : SourceBreakpointSpec)
    → slot_of t id ≡ some (path, x, entries, spec)
    → (entries ≡ entries_at t path)
      × (get_elem? entries x ≡ some spec)
      × ((bp_id : ℕ) × (id ≡ some bp_id) × (HashMap.get t.breakpoint_ids bp_id ≡ some (path, x)))
unfolding slot_of
slot_of-eq_some t none path x entries spec h = cc
slot_of-eq_some t (some bp_id) path x entries spec h =
    (ground arith, ground arith, (bp_id, refl, ground arith))

module _ {V : Type 0} ⦃J : Json V⦄ where
  pub apply_new_breakpoint-IsIndexed :
      (t : BreakpointTracker) (bp : V) → IsIndexed t → IsIndexed (apply_new_breakpoint t bp)
  unfolding apply_new_breakpoint
  apply_new_breakpoint-IsIndexed t bp v = if_keeps IsIndexed (bp_source_path bp == "") _ _ v (
      match_keeps IsIndexed (i64_at bp "line") _ _ v
        λ line. if_keeps IsIndexed (is_negative line) _ _ v (add_spec-IsIndexed t _ _ _ v))

  pub apply_changed_breakpoint-IsIndexed :
      (t : BreakpointTracker) (bp : V) → IsIndexed t → IsIndexed (apply_changed_breakpoint t bp)
  apply_changed_breakpoint-IsIndexed t bp v = elim (Option-cases (slot_of t (i64_at bp "id"))) [
    | inl unknown ↦
        unfold apply_changed_breakpoint in
        rw (unknown, apply_changed_breakpoint) (apply_new_breakpoint-IsIndexed t bp v)
    | inr ((path, x, entries, spec), known) ↦
        let (e, _, _) = slot_of-eq_some t (i64_at bp "id") path x entries spec known in
        unfold apply_changed_breakpoint in
        rw (known, apply_changed_breakpoint)
          (rw e (write_spec-IsIndexed t path (change_spec bp spec) x v))
  ]

  pub apply_removed_breakpoint-IsIndexed :
      (t : BreakpointTracker) (bp : V) → IsIndexed t → IsIndexed (apply_removed_breakpoint t bp)
  unfolding apply_removed_breakpoint
  apply_removed_breakpoint-IsIndexed t bp v =
      match_keeps IsIndexed (i64_at bp "id") _ _ v (λ id. remove_id-IsIndexed t id v)

  -- A breakpoint event, of any reason and content, keeps every id naming an entry that is there and no two
  -- ids naming the same one.
  pub observe_breakpoint_event-IsIndexed :
      (t : BreakpointTracker) (message : V)
      → IsIndexed t
      → IsIndexed (observe_breakpoint_event t message)
  unfolding observe_breakpoint_event
  observe_breakpoint_event-IsIndexed t message v =
      match_keeps IsIndexed (and_then (object_at message "body") (λ b. J.get b "breakpoint")) _ _ v
        λ bp. if_keeps IsIndexed _ _ _ (apply_new_breakpoint-IsIndexed t bp v) (
          if_keeps IsIndexed _ _ _ (apply_changed_breakpoint-IsIndexed t bp v)
            (if_keeps IsIndexed _ _ _ (apply_removed_breakpoint-IsIndexed t bp v) v))

  pub observe_set_breakpoints_response-IsIndexed :
      (t : BreakpointTracker) (message : V)
      → IsIndexed t
      → IsIndexed (observe_set_breakpoints_response t message)
  unfolding observe_set_breakpoints_response
  observe_set_breakpoints_response-IsIndexed t message v = if_keeps IsIndexed _ _ _ v (
      match_keeps IsIndexed _ _ _ v
        λ pending. rebuild-IsIndexed _ _ _ (record { named = v.named; distinct = v.distinct }))
