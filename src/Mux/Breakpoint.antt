-- ===== src/Mux/Breakpoint.antt =====
-- crates/protocol-mux/src/breakpoint_state.rs: the breakpoints that the editor and the adapter have
-- agreed on, kept for clients that attach late: what requests, responses and events do to the tracker.
use dappy_core.Mux.Message.{object_at}
use dappy_core.Common.HashMap.{HashMap}
use dappy_core.Common.HashMap
use dappy_core.Common.{
  map, find_map, filter_map, ◌&&◌, ltb, ◌==◌, length, is_text, is_some, string_eq, is_false,
  is_true, remove_at, if◌then◌else◌, get_elem?, not, leb, set, unwrap_or, nat_eq, ℕ, zero, suc, ◌+◌,
  ◌-◌, ◌^◌, String, Bool, Option, none, some, List, [], ◌∷◌, ◌++◌, and_then, or_else,
}
use dappy_core.Json.{Json}
use dappy_core.Mux.Tracker.{
  SourceBreakpointSpec, ExceptionBreakpointSpec, PendingSetBreakpoints, BreakpointTracker, empty,
  is_negative, rebuild_source_breakpoints, without_slot, shift_slot, remove_id, push_spec,
  write_spec, add_to, add_spec, slot_of,
}
pub mod Snapshot
pub mod Slots
pub mod Removal
pub mod Requests
pub mod Invariant
pub mod Agreement
pub mod Answers

module _ {V : Type 0} ⦃J : Json V⦄ where
  -- `value.get(key).and_then(Value::as_str).map(str::to_string)`
  abbrev pub text_at : V → String → Option String
  text_at v key = and_then (J.get v key) J.as_str

  abbrev pub i64_at : V → String → Option ℕ
  i64_at v key = and_then (J.get v key) J.as_i64

  abbrev pub array_at : V → String → Option (List V)
  array_at v key = and_then (J.get v key) J.as_array

  unfoldable pub bp_source_path : V → String
  bp_source_path bp = unwrap_or (and_then (J.get bp "source") (λ source. text_at source "path")) ""

  abbrev pub spec_of : V → ℕ → SourceBreakpointSpec
  spec_of bp line = record {
    line = line;
    condition = text_at bp "condition";
    hit_condition = text_at bp "hitCondition";
    log_message = text_at bp "logMessage";
  }

  unfoldable pub parse_source_breakpoint : V → Option SourceBreakpointSpec
  parse_source_breakpoint value = and_then (i64_at value "line") (λ line. some (spec_of value line))

  -- One step of the `filter_map` of `merge_breakpoints`: a breakpoint of the response, and the
  -- specification at the same place of the request.
  unfoldable pub merge_breakpoint : V → Option SourceBreakpointSpec → Option SourceBreakpointSpec
  merge_breakpoint bp request =
      if is_false (and_then (J.get bp "verified") J.as_bool)
      then none
      else and_then (or_else (i64_at bp "line") (and_then request (λ spec. some spec.line))) λ line.
        some (record {
          line = line;
          condition = or_else (text_at bp "condition") (and_then request (λ spec. spec.condition));
          hit_condition =
              or_else (text_at bp "hitCondition") (and_then request (λ spec. spec.hit_condition));
          log_message =
              or_else (text_at bp "logMessage") (and_then request (λ spec. spec.log_message));
        })

  unfoldable pub merge_from : ℕ → List V → List SourceBreakpointSpec → List SourceBreakpointSpec
  merge_from index [] request_specs = []
  merge_from index (bp ∷ rest) request_specs =
      let merged = merge_from (suc index) rest request_specs in
      elim (merge_breakpoint bp (get_elem? request_specs index)) [
        | none ↦ merged
        | some spec ↦ spec ∷ merged
      ]

  unfoldable pub merge_breakpoints : List V → List SourceBreakpointSpec → List SourceBreakpointSpec
  unfolding merge_from merge_breakpoint
  merge_breakpoints [] request_specs = request_specs
  merge_breakpoints (bp ∷ rest) request_specs = merge_from 0 (bp ∷ rest) request_specs

  -- The path and the specifications that a request holds.
  unfoldable pub pending_of : V → PendingSetBreakpoints
  pending_of message = record {
    source_path =
        unwrap_or
          (and_then (object_at message "arguments")
            λ args. and_then (J.get args "source") λ source. text_at source "path")
          "";
    specs =
        unwrap_or
          (and_then (object_at message "arguments") λ args.
            and_then (array_at args "breakpoints")
              λ items. some (filter_map parse_source_breakpoint items))
          [];
  }

  unfoldable pub track_set_breakpoints_request : BreakpointTracker → ℕ → V → BreakpointTracker
  track_set_breakpoints_request t backend_seq message = record t {
    pending_set_breakpoints =
        HashMap.insert t.pending_set_breakpoints backend_seq (pending_of message);
  }

  -- The path that the adapter's first breakpoint names, where it names one.
  unfoldable pub first_path : List V → Option String
  first_path [] = none
  first_path (bp ∷ rest) =
      and_then (J.get bp "source")
        λ source. and_then (text_at source "path") λ path. if path == "" then none else some path

  unfoldable pub resolved_path : Option (List V) → String → String
  resolved_path items source_path = unwrap_or (and_then items first_path) source_path

  -- The request that a response answers; 0 where it names none.
  unfoldable pub answered_seq : V → ℕ
  answered_seq message =
      unwrap_or
        (and_then (or_else (J.get message "request_seq") (J.get message "requestSeq")) J.as_i64) 0

  unfoldable pub response_breakpoints : V → Option (List V)
  response_breakpoints message = and_then (J.get message "body") λ body. array_at body "breakpoints"

  unfoldable pub agreed_specs :
      Option (List V) → List SourceBreakpointSpec → List SourceBreakpointSpec
  agreed_specs none specs = specs
  agreed_specs (some items) specs = merge_breakpoints items specs

  unfoldable pub settle : BreakpointTracker → V → PendingSetBreakpoints → BreakpointTracker
  settle t message pending =
      rebuild_source_breakpoints
        (record t {
          pending_set_breakpoints = HashMap.remove t.pending_set_breakpoints (answered_seq message);
        })
        (resolved_path (response_breakpoints message) pending.source_path)
        (agreed_specs (response_breakpoints message) pending.specs)

  unfoldable pub observe_set_breakpoints_response : BreakpointTracker → V → BreakpointTracker
  unfolding settle
  observe_set_breakpoints_response t message =
      if not (is_true (and_then (J.get message "success") J.as_bool))
      then t
      else elim (HashMap.get t.pending_set_breakpoints (answered_seq message)) [
        | none ↦ t
        | some pending ↦ settle t message pending
      ]

  unfoldable pub apply_new_breakpoint : BreakpointTracker → V → BreakpointTracker
  apply_new_breakpoint t bp = if bp_source_path bp == "" then t else elim (i64_at bp "line") [
    | none ↦ t
    | some line ↦
        if is_negative line
        then t
        else add_spec t (i64_at bp "id") (bp_source_path bp) (spec_of bp line)
  ]

  -- A field that the event holds replaces the one that is stored; a text that is no text clears it.
  abbrev pub update_text : V → String → Option String → Option String
  update_text bp key old = if is_some (J.get bp key) then text_at bp key else old

  abbrev pub change_spec : V → SourceBreakpointSpec → SourceBreakpointSpec
  change_spec bp spec = record {
    line = unwrap_or (i64_at bp "line") spec.line;
    condition = update_text bp "condition" spec.condition;
    hit_condition = update_text bp "hitCondition" spec.hit_condition;
    log_message = update_text bp "logMessage" spec.log_message;
  }

  unfoldable pub apply_changed_breakpoint : BreakpointTracker → V → BreakpointTracker
  apply_changed_breakpoint t bp = elim (slot_of t (i64_at bp "id")) [
    | none ↦ apply_new_breakpoint t bp
    | some (path, index, entries, spec) ↦ write_spec t path entries index (change_spec bp spec)
  ]

  unfoldable pub apply_removed_breakpoint : BreakpointTracker → V → BreakpointTracker
  apply_removed_breakpoint t bp = elim (i64_at bp "id") [
    | none ↦ t
    | some bp_id ↦ remove_id t bp_id
  ]

  unfoldable pub observe_breakpoint_event : BreakpointTracker → V → BreakpointTracker
  observe_breakpoint_event t message = elim (and_then body λ b. J.get b "breakpoint") [
    | none ↦ t
    | some bp ↦
        if is_text reason "new"
        then apply_new_breakpoint t bp
        else if is_text reason "changed"
        then apply_changed_breakpoint t bp
        else if is_text reason "removed"
        then apply_removed_breakpoint t bp
        else t
  ]
    where
      body : Option V
      body = object_at message "body"

      reason : Option String
      reason = and_then body λ b. text_at b "reason"

  -- `find_map` over the filter options.
  unfoldable pub option_condition : String → V → Option String
  option_condition filter option =
      if is_text (text_at option "filterId") filter then text_at option "condition" else none

  unfoldable pub track_set_exception_breakpoints_request : BreakpointTracker → V → BreakpointTracker
  unfolding option_condition
  track_set_exception_breakpoints_request t message = record t {
    exception_breakpoints = map spec_of_filter filters;
  }
    where
      arguments : Option V
      arguments = object_at message "arguments"

      filters : List String
      filters =
          unwrap_or
            (and_then arguments
              λ args. and_then (array_at args "filters") λ items. some (filter_map J.as_str items))
            []

      spec_of_filter : String → ExceptionBreakpointSpec
      spec_of_filter filter = record {
        filter = filter;
        condition =
            and_then (and_then arguments λ args. array_at args "filterOptions")
              λ options. find_map (option_condition filter) options;
      }
