-- ===== src/Mux/Breakpoint/Removal.antt =====
-- `apply_removed_breakpoint` of crates/protocol-mux/src/breakpoint_state.rs: the indices behind the
-- removed entry are shifted, so every other id goes on naming its own entry.
use dappy_core.Common.HashMap.{HashMap}
use dappy_core.Common.{
  eq_of_some-eq, get_elem?-remove_at_gt, get_elem?-remove_at_lt, ℕ, ◌-◌, String, ◌≡◌, refl, sym, ap,
  ◌∙◌, subst, ◌≢◌, inl, inr, true, false, none, some, List, arith, eq_iff, ltb, if◌then◌else◌,
  Bool-cases, ◌==◌, nat_eq, string_eq, ==-refl, ==-eq, and_then, is_some, Option-cases, get_elem?,
  remove_at,
}
use dappy_core.Common.HashMap
use dappy_core.Mux.Tracker.{
  without_slot, BreakpointTracker, SourceBreakpointSpec, remove_id, shift_slot,
}
use dappy_core.Mux.Breakpoint.{ℕ, List}
use dappy_core.Mux.Breakpoint.Slots.{
  at_slot, IsIndexed, spec_of_id, get_elem?-kept, get-without_slot,
}

-- An index other than the removed one finds the same entry after the shift.
pub get_elem?-remove_at_shift :
    (es : List SourceBreakpointSpec) (x y : ℕ)
    → x ≢ y
    → get_elem? (remove_at es x) (if ltb x y then y - 1 else y) ≡ get_elem? es y
get_elem?-remove_at_shift es x y ne = elim (Bool-cases (ltb x y)) [
  | inl behind ↦
      rw behind
        (get_elem?-remove_at_gt es x (y - 1) (ground arith) ∙ ap (get_elem? es) (ground arith))
  | inr before ↦ rw before (get_elem?-remove_at_lt es x y (ground arith))
]

-- The file and the entries that an id names, under the invariant.
named_entries :
    (t : BreakpointTracker) (id : ℕ) (p : String) (x : ℕ)
    → IsIndexed t
    → HashMap.get t.breakpoint_ids id ≡ some (p, x)
    → (es : List SourceBreakpointSpec) × (HashMap.get t.source_breakpoints p ≡ some es)
      × (is_some (get_elem? es x) ≡ true)
named_entries t id p x v h = elim (Option-cases (HashMap.get t.source_breakpoints p)) [
  | inl missing ↦ absurd (ground (arith, v.named id (p, x)))
  | inr (es, there) ↦ (es, there, ground (arith, v.named id (p, x)))
]

shift_slot-same :
    (p : String) (x y : ℕ)
    → ◌≡◌ {A = String × ℕ} (shift_slot p x (p, y)) (p, (if ltb x y then y - 1 else y))
shift_slot-same p x y = ground (arith, ==-refl p)

shift_slot-apart :
    (p q : String) (x y : ℕ)
    → (p == q) ≡ false
    → ◌≡◌ {A = String × ℕ} (shift_slot p x (q, y)) (q, y)
shift_slot-apart p q x y h = ground (arith, eq_iff p q, eq_iff q p)

module _ (files : HashMap String (List SourceBreakpointSpec)) (p : String) (x : ℕ)
    (es : List SourceBreakpointSpec) (there : HashMap.get files p ≡ some es) where
  at_slot-without_slot_same :
      (y : ℕ)
      → x ≢ y
      → at_slot (without_slot files p x) (shift_slot p x (p, y)) ≡ at_slot files (p, y)
  at_slot-without_slot_same y ne =
      rw
        (
          shift_slot-same p x y,
          get-without_slot files p p x es there,
          ==-refl p,
          get_elem?-kept (remove_at es x) (if ltb x y then y - 1 else y),
          there,
        )
        (get_elem?-remove_at_shift es x y ne)

  at_slot-without_slot_apart :
      (q : String) (y : ℕ)
      → (p == q) ≡ false
      → at_slot (without_slot files p x) (shift_slot p x (q, y)) ≡ at_slot files (q, y)
  at_slot-without_slot_apart q y h =
      rw (shift_slot-apart p q x y h, get-without_slot files p q x es there, h) refl

  -- What any other slot finds after the removal of the slot (p, x).
  at_slot-without_slot :
      (slot : String × ℕ)
      → ¬ (slot ≡ (p, x))
      → at_slot (without_slot files p x) (shift_slot p x slot) ≡ at_slot files slot
  at_slot-without_slot (q, y) ne = elim (Bool-cases (p == q)) [
    | inl same ↦
        let e = ==-eq p q same in
        subst (λ f. at_slot (without_slot files p x) (shift_slot p x (f, y)) ≡ at_slot files (f, y))
          e (at_slot-without_slot_same y (λ d. ne (cc (e, d))))
    | inr apart ↦ at_slot-without_slot_apart q y apart
  ]

get-ids-remove_id :
    (t : BreakpointTracker) (id j : ℕ) (p : String) (x : ℕ)
    → HashMap.get t.breakpoint_ids id ≡ some (p, x)
    → id ≢ j
    → HashMap.get (remove_id t id).breakpoint_ids j
      ≡ and_then (HashMap.get t.breakpoint_ids j) (λ slot. some (shift_slot p x slot))
unfolding remove_id
get-ids-remove_id t id j p x h ne =
    rw (h, remove_id)
      (rw (HashMap.get-map_values, HashMap.get-remove t.breakpoint_ids id j) (ground arith))

source_breakpoints-remove_id :
    (t : BreakpointTracker) (id : ℕ) (p : String) (x : ℕ)
    → HashMap.get t.breakpoint_ids id ≡ some (p, x)
    → (remove_id t id).source_breakpoints ≡ without_slot t.source_breakpoints p x
unfolding remove_id
source_breakpoints-remove_id t id p x h = rw (h, remove_id) refl

remove_id-unknown :
    (t : BreakpointTracker) (id : ℕ) → HashMap.get t.breakpoint_ids id ≡ none → remove_id t id ≡ t
unfolding remove_id
remove_id-unknown t id h = rw (h, remove_id) refl

-- Where ids and entries are in step, the removal of one id leaves every other id naming the same entry,
-- wherever it now stands.
pub spec_of_id-remove_id :
    (t : BreakpointTracker) (id j : ℕ)
    → IsIndexed t
    → id ≢ j
    → spec_of_id (remove_id t id) j ≡ spec_of_id t j
spec_of_id-remove_id t id j v ne = elim (Option-cases (HashMap.get t.breakpoint_ids id)) [
  | inl unknown ↦ rw (remove_id-unknown t id unknown) refl
  | inr ((p, x), h) ↦ elim (Option-cases (HashMap.get t.breakpoint_ids j)) [
    | inl absent ↦ rw (get-ids-remove_id t id j p x h ne, absent) refl
    | inr (slot, found) ↦
        let (es, there, _) = named_entries t id p x v h in
        rw (get-ids-remove_id t id j p x h ne, found, source_breakpoints-remove_id t id p x h)
          (at_slot-without_slot t.source_breakpoints p x es there slot
            (λ e. ne (v.distinct id j slot (h ∙ ap some (sym e)) found)))
  ]
]

-- The removed id names nothing any more.
pub get-ids-remove_id_self :
    (t : BreakpointTracker) (id : ℕ) → HashMap.get (remove_id t id).breakpoint_ids id ≡ none
unfolding remove_id
get-ids-remove_id_self t id = elim (Option-cases (HashMap.get t.breakpoint_ids id)) [
  | inl h ↦ rw (h, remove_id) h
  | inr (slot, h) ↦
      rw (h, remove_id)
        (rw (HashMap.get-map_values, HashMap.get-remove t.breakpoint_ids id id, ==-refl id) refl)
]

-- Distinct slots other than (p, x) stay distinct under the shift.
shift_slot-injective :
    (p : String) (x : ℕ) (s t : String × ℕ)
    → ¬ (s ≡ (p, x))
    → ¬ (t ≡ (p, x))
    → shift_slot p x s ≡ shift_slot p x t
    → s ≡ t
shift_slot-injective p x (q, y) (r, z) hs ht e = ground (arith, eq_iff q p, eq_iff r p)

-- A slot that the shift gives comes from an id that was there.
from_ids-remove_id :
    (t : BreakpointTracker) (id j : ℕ) (p : String) (x : ℕ) (slot : String × ℕ)
    → IsIndexed t
    → HashMap.get t.breakpoint_ids id ≡ some (p, x)
    → HashMap.get (remove_id t id).breakpoint_ids j ≡ some slot
    → (id ≢ j)
      × ((old : String × ℕ) × (HashMap.get t.breakpoint_ids j ≡ some old)
          × (¬ (old ≡ (p, x)))
          × (shift_slot p x old ≡ slot))
from_ids-remove_id t id j p x slot v h g =
    let ne : id ≢ j = λ e. cc (get-ids-remove_id_self t id, e) in
    let moved = get-ids-remove_id t id j p x h ne in
    elim (Option-cases (HashMap.get t.breakpoint_ids j)) [
      | inl absent ↦ absurd (cc moved)
      | inr (old, found) ↦ (
        ne,
        (
          old,
          found,
          (λ e. ne (v.distinct id j old (h ∙ ap some (sym e)) found)),
          eq_of_some-eq _ _ (sym (rw found at moved) ∙ g),
        ),
      )
    ]

-- The invariant outlives a removal.
pub remove_id-IsIndexed :
    (t : BreakpointTracker) (id : ℕ) → IsIndexed t → IsIndexed (remove_id t id)
remove_id-IsIndexed t id v = elim (Option-cases (HashMap.get t.breakpoint_ids id)) [
  | inl unknown ↦ rw (remove_id-unknown t id unknown) v
  | inr ((p, x), h) ↦ record {
    named = λ j slot g.
        let (ne, (old, found, _, _)) = from_ids-remove_id t id j p x slot v h g in
        rw (spec_of_id-remove_id t id j v ne) (v.named j old found);
    distinct = λ i j slot g k.
        let (_, (a, fa, na, ea)) = from_ids-remove_id t id i p x slot v h g in
        let (_, (b, fb, nb, eb)) = from_ids-remove_id t id j p x slot v h k in
        v.distinct i j a fa (fb ∙ ap some (sym (shift_slot-injective p x a b na nb (ea ∙ sym eb))));
  }
]
