-- ===== src/Mux/Breakpoint/Snapshot.antt =====
-- `snapshot` of crates/protocol-mux/src/breakpoint_state.rs, the body that a late control client gets.
-- The map of files is visited in the order of the association list.
use dappy_core.Common.HashMap.{HashMap}
use dappy_core.Common.{
  String, ◌≡◌, true, Option, none, some, List, [], ◌∷◌, map, arith, nat_eq, string_eq, and_then,
}
use dappy_core.Common.HashMap
use dappy_core.Json.{Json}
use dappy_core.Mux.Tracker.{BreakpointTracker, SourceBreakpointSpec, ExceptionBreakpointSpec}

module _ {V : Type 0} ⦃J : Json V⦄ where
  -- `json!` of an optional text.
  abbrev pub opt_text : Option String → V
  opt_text none = J.null
  opt_text (some t) = J.text t

  unfoldable pub spec_json : SourceBreakpointSpec → V
  spec_json spec =
      J.insert
        (J.insert
          (J.insert (J.insert J.empty "line" (J.number spec.line)) "condition"
            (opt_text spec.condition))
          "hit_condition" (opt_text spec.hit_condition))
        "log_message" (opt_text spec.log_message)

  unfoldable pub exception_json : ExceptionBreakpointSpec → V
  exception_json entry =
      J.insert (J.insert J.empty "filter" (J.text entry.filter)) "condition"
        (opt_text entry.condition)

  unfoldable pub files_json : HashMap String (List SourceBreakpointSpec) → V
  files_json [] = J.empty
  files_json ((path, specs) ∷ rest) =
      J.insert (files_json rest) path (J.array (map spec_json specs))

  unfoldable pub snapshot : BreakpointTracker → V
  snapshot t =
      J.insert (J.insert J.empty "breakpoints" (files_json t.source_breakpoints))
        "exception_breakpoints" (J.array (map exception_json t.exception_breakpoints))

module _ (V : Type 0) ⦃J : Json V⦄ where
  is_object-files_json :
      (files : HashMap String (List SourceBreakpointSpec)) → J.is_object (files_json files) ≡ true
  unfolding files_json
  is_object-files_json [] = J.is_object-empty
  is_object-files_json ((path, specs) ∷ rest) =
      J.is_object-insert _ path _ (is_object-files_json rest)

module _ {V : Type 0} ⦃J : Json V⦄ where
  get-files_json :
      (files : HashMap String (List SourceBreakpointSpec)) (path : String)
      → J.get (files_json files) path
        ≡ and_then (HashMap.get files path) (λ specs. some (J.array (map spec_json specs)))
  unfolding files_json HashMap.get
  get-files_json [] path = J.get-empty path
  get-files_json ((q, specs) ∷ rest) path = ground (
    arith,
    J.get-insert (files_json rest) q path (J.array (map spec_json specs))
        (is_object-files_json V rest),
    get-files_json rest path,
  )

  -- The snapshot holds, under each path, the entries that are stored for it and nothing for any other
  -- path, and the exception breakpoints.
  pub get-snapshot :
      (t : BreakpointTracker) (path : String)
      → (and_then (J.get (snapshot t) "breakpoints") (λ files. J.get files path)
          ≡ and_then
              (HashMap.get t.source_breakpoints path)
              (λ specs. some (J.array (map spec_json specs))))
        × (J.get (snapshot t) "exception_breakpoints"
            ≡ some (J.array (map exception_json t.exception_breakpoints)))
  unfolding snapshot
  get-snapshot t path =
      let files = files_json t.source_breakpoints in
      let exceptions = J.array (map exception_json t.exception_breakpoints) in
      let inner = J.insert J.empty "breakpoints" files in
      let o = J.is_object-insert J.empty "breakpoints" files J.is_object-empty in
      (
        rw
            (
              J.get-insert inner "exception_breakpoints" "breakpoints" exceptions o,
              J.get-insert J.empty "breakpoints" "breakpoints" files J.is_object-empty,
            )
            (get-files_json t.source_breakpoints path),
        J.get-insert inner "exception_breakpoints" "exception_breakpoints" exceptions o,
      )
