-- ===== src/Mux/Breakpoint/Agreement.antt =====
-- What a `setBreakpoints` request and its answer leave in the tracker
-- (crates/protocol-mux/src/breakpoint_state.rs).
use dappy_core.Common.{
  length-append, get_elem?-middle, ℕ, String, ◌≡◌, refl, ◌∙◌, true, false, none, some, List, [],
  ◌∷◌, ◌++◌, arith, if◌then◌else◌, ◌==◌, nat_eq, string_eq, ==-refl, and_then, unwrap_or, or_else,
  is_true, is_false, length,
}
use dappy_core.Common.HashMap
use mathlib.Core.List.{append_assoc}
use dappy_core.Json.{Json}
use dappy_core.Mux.Breakpoint.Requests.{entries_at}
use dappy_core.Mux.Tracker.{
  BreakpointTracker, SourceBreakpointSpec, PendingSetBreakpoints, rebuild_source_breakpoints,
}
use dappy_core.Mux.Breakpoint.{
  text_at, i64_at, observe_set_breakpoints_response, track_set_breakpoints_request, settle,
  agreed_specs, answered_seq, response_breakpoints, resolved_path, pending_of, merge_from,
  merge_breakpoint, merge_breakpoints,
}

get-rebuild :
    (t : BreakpointTracker) (path q : String) (specs : List SourceBreakpointSpec)
    → unwrap_or (HashMap.get (rebuild_source_breakpoints t path specs).source_breakpoints q) []
      ≡ (if path == q then specs else entries_at t q)
unfolding rebuild_source_breakpoints
get-rebuild t path q [] = ground (arith, HashMap.get-remove t.source_breakpoints path q)
get-rebuild t path q (spec ∷ rest) =
    ground (arith, HashMap.get-insert t.source_breakpoints path q (spec ∷ rest))

module _ {V : Type 0} ⦃J : Json V⦄ where
  entries_at-settle :
      (t : BreakpointTracker) (message : V) (pending : PendingSetBreakpoints) (q : String)
      → entries_at (settle t message pending) q ≡ (
          if resolved_path (response_breakpoints message) pending.source_path == q
          then agreed_specs (response_breakpoints message) pending.specs
          else entries_at t q)
  unfolding settle
  entries_at-settle t message pending q =
      get-rebuild
        (record t {
          pending_set_breakpoints = HashMap.remove t.pending_set_breakpoints (answered_seq message);
        })
        _ q (agreed_specs (response_breakpoints message) pending.specs)

  settle-uses :
      (t : BreakpointTracker) (message : V) (pending : PendingSetBreakpoints)
      → (HashMap.get (settle t message pending).pending_set_breakpoints (answered_seq message)
          ≡ none)
        × ((settle t message pending).exception_breakpoints ≡ t.exception_breakpoints)
  unfolding settle rebuild_source_breakpoints
  settle-uses t message pending =
      let s = answered_seq message in
      (HashMap.get-remove t.pending_set_breakpoints s s ∙ rw (==-refl s) refl, refl)

  observe-tracked :
      (t : BreakpointTracker) (backend_seq : ℕ) (request response : V)
      → is_true (and_then (J.get response "success") J.as_bool) ≡ true
      → answered_seq response ≡ backend_seq
      → observe_set_breakpoints_response
          (track_set_breakpoints_request t backend_seq request)
          response
        ≡ settle (track_set_breakpoints_request t backend_seq request) response (pending_of request)
  unfolding observe_set_breakpoints_response track_set_breakpoints_request
  observe-tracked t backend_seq request response ok seq_ok = rw ok (
      ground (
        arith,
        HashMap.get-insert t.pending_set_breakpoints backend_seq (answered_seq response)
            (pending_of request),
      ))

  -- A successful answer to a tracked request gives the file that the adapter names the agreed
  -- entries, leaves every other file as it was, and uses the request up.
  pub set_breakpoints_agree :
      (t : BreakpointTracker) (backend_seq : ℕ) (request response : V)
      → is_true (and_then (J.get response "success") J.as_bool) ≡ true
      → answered_seq response ≡ backend_seq
      → let asked = pending_of request in
        let path = resolved_path (response_breakpoints response) asked.source_path in
        let after =
          observe_set_breakpoints_response
            (track_set_breakpoints_request t backend_seq request)
            response in
        ((q : String)
          → entries_at after q ≡ (
              if path == q
              then agreed_specs (response_breakpoints response) asked.specs
              else entries_at t q))
        × (HashMap.get after.pending_set_breakpoints backend_seq ≡ none)
        × (after.exception_breakpoints ≡ t.exception_breakpoints)
  set_breakpoints_agree t backend_seq request response ok seq_ok =
      let tracked = track_set_breakpoints_request t backend_seq request in
      let asked = pending_of request in
      rw (observe-tracked t backend_seq request response ok seq_ok) (
        (λ q.
            entries_at-settle tracked response asked q
            ∙ unfold track_set_breakpoints_request in refl),
        rw seq_ok at (settle-uses tracked response asked).0,
        (settle-uses tracked response asked).1 ∙ unfold track_set_breakpoints_request in refl,
      )

  -- An answer that echoes a specification: it does not refuse it, and holds no other value.
  pub record Echoes (bp : V) (spec : SourceBreakpointSpec) : Type 0 where
    pub accepted : is_false (and_then (J.get bp "verified") J.as_bool) ≡ false
    pub same_line : or_else (i64_at bp "line") (some spec.line) ≡ some spec.line
    pub same_condition : or_else (text_at bp "condition") spec.condition ≡ spec.condition
    pub same_hit : or_else (text_at bp "hitCondition") spec.hit_condition ≡ spec.hit_condition
    pub same_log : or_else (text_at bp "logMessage") spec.log_message ≡ spec.log_message

  abbrev pub AllEcho : List V → List SourceBreakpointSpec → Type 0
  AllEcho [] [] = Unit
  AllEcho [] (spec ∷ specs) = ⊥
  AllEcho (bp ∷ bps) [] = ⊥
  AllEcho (bp ∷ bps) (spec ∷ specs) = Echoes bp spec × AllEcho bps specs

  merge_breakpoint-Echoes :
      (bp : V) (spec : SourceBreakpointSpec)
      → Echoes bp spec
      → merge_breakpoint bp (some spec) ≡ some spec
  unfolding merge_breakpoint
  merge_breakpoint-Echoes bp spec e =
      rw (e.accepted, e.same_line, e.same_condition, e.same_hit, e.same_log) refl

  merge_from-AllEcho :
      (done specs : List SourceBreakpointSpec) (bps : List V)
      → AllEcho bps specs
      → merge_from (length done) bps (done ++ specs) ≡ specs
  unfolding merge_from
  merge_from-AllEcho done [] [] h = refl
  merge_from-AllEcho done (spec ∷ specs) [] h = absurd h
  merge_from-AllEcho done [] (bp ∷ bps) h = absurd h
  merge_from-AllEcho done (spec ∷ specs) (bp ∷ bps) h = ground (
    arith,
    get_elem?-middle done specs spec,
    merge_breakpoint-Echoes bp spec h.0,
    merge_from-AllEcho (done ++ spec ∷ []) specs bps h.1,
    append_assoc done (spec ∷ []) specs,
    length-append done (spec ∷ []),
  )

  -- An answer that echoes every specification of the request leaves them all, in order.
  pub merge_breakpoints-AllEcho :
      (bps : List V) (specs : List SourceBreakpointSpec)
      → AllEcho bps specs
      → merge_breakpoints bps specs ≡ specs
  unfolding merge_breakpoints
  merge_breakpoints-AllEcho [] specs h = refl
  merge_breakpoints-AllEcho (bp ∷ bps) specs h = merge_from-AllEcho [] specs (bp ∷ bps) h
