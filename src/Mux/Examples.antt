-- ===== src/Mux/Examples.antt =====
-- Small sessions of crates/protocol-mux on which the theorems of its modules are applied.
use dappy_core.Mux.Remapper.Refinement.{
  opens, closes, remapper_run, table_run, Implements, remapper_run-refines,
}
use dappy_core.Mux.Client.{editor, control}
use dappy_core.Mux.Breakpoint.Requests.{entries_at}
use dappy_core.Mux.Message.{command, seq}
use dappy_core.Mux.Breakpoint.Removal.{spec_of_id-remove_id}
use dappy_core.Mux.Session.Preservation.Runs.{run-IsWellFormed}
use dappy_core.Mux.Cancel.Laws.{translate_cancel_lem, is_known, upstream_id}
use dappy_core.Mux.Tracker
use dappy_core.Mux.Cancel.{translate_cancel}
use dappy_core.Mux.Breakpoint.Invariant.{observe_breakpoint_event-IsIndexed, add_spec-IsIndexed}
use dappy_core.Mux.Breakpoint.Answers.{Settled, observe_set_breakpoints_response-Settled}
use dappy_core.Mux.Breakpoint.Agreement.{set_breakpoints_agree, merge_breakpoints-AllEcho}
use dappy_core.Mux.Session.Loop.{from_upstream, client_send, attach, from_ops, Input, run}
use dappy_core.Mux.Remapper
use dappy_core.Mux.Message.Laws.{cancel_id}
use dappy_core.Mux.Session.Invariant.{start-IsWellFormed, IsWellFormed}
use dappy_core.Mux.Remapper.{MessageRemapper}
use dappy_core.Mux.Tracker.{remove_id, add_spec, BreakpointTracker, SourceBreakpointSpec}
use dappy_core.Mux.Breakpoint.{
  agreed_specs, track_set_breakpoints_request, observe_set_breakpoints_response, resolved_path,
  response_breakpoints, pending_of, observe_breakpoint_event, merge_breakpoints, answered_seq,
}
use dappy_core.Mux.Breakpoint.Slots.{empty-IsIndexed, spec_of_id, IsIndexed}
use dappy_core.Mux.Breakpoint.Snapshot.{get-snapshot, exception_json, spec_json, snapshot}
use dappy_core.Common.{
  ℕ, String, ◌≡◌, refl, true, none, some, List, [], ◌∷◌, map, arith, if◌then◌else◌, ◌==◌, nat_eq,
  string_eq, and_then,
}
use dappy_core.Common.HashMap
use dappy_core.Json.Plain.{nil, cons, array, number, end, bool, text, field, object, Value, plain}
use dappy_core.Mux.Session.{World, Channels, start}
mod Traffic

abbrev pub all_open : Channels
all_open = record { client_open = λ id. true; upstream_open = true; receiver_count = 1 }

-- `{ "source": { "path": … }, "breakpoints": [{ "line": 5 }, { "line": 8 }] }`
abbrev two_lines : Value
two_lines = object (
    field "source" (object (field "path" (text "main.py") end)) (
      field "breakpoints"
        (array (
          cons (object (field "line" (number 5) end))
            (cons (object (field "line" (number 8) end)) nil)))
        end))

abbrev pub set_breakpoints_request : Value
set_breakpoints_request = object (
    field "type" (text "request") (
      field "seq" (number 41)
        (field "command" (text "setBreakpoints") (field "arguments" two_lines end))))

abbrev pub set_breakpoints_answer : Value
set_breakpoints_answer = object (
    field "type" (text "response") (
      field "request_seq" (number 1) (
        field "command" (text "setBreakpoints") (
          field "success" (bool true) (
            field "body"
              (object (
                field "breakpoints"
                  (array (
                    cons (object (field "verified" (bool true) end))
                      (cons (object (field "line" (number 8) end)) nil)))
                  end))
              end)))))

abbrev pub cancel_41 : Value
cancel_41 = object (
    field "type" (text "request") (
      field "seq" (number 42) (
        field "command" (text "cancel")
          (field "arguments" (object (field "requestId" (number 41) end)) end))))

-- An editor and a control client attach, the editor sets breakpoints, and the adapter answers.
abbrev pub inputs : List (Channels × Input Value)
inputs =
    (all_open, from_ops (some (attach editor)))
    ∷ (all_open, from_ops (some (attach control)))
    ∷ (all_open, from_ops (some (client_send 1 set_breakpoints_request)))
    ∷ (all_open, from_upstream (some set_breakpoints_answer))
    ∷ []

abbrev fresh_world : World Value
fresh_world = record { session = start; sent = [] }

run-IsWellFormed_example : IsWellFormed (run inputs fresh_world).1.session
unfolding start
run-IsWellFormed_example =
    run-IsWellFormed inputs fresh_world (omega arith) (omega arith) (start-IsWellFormed Value)

abbrev one_request : MessageRemapper
one_request = Remapper.map Remapper.new 41 7

abbrev at_line : ℕ → SourceBreakpointSpec
at_line n = record { line = n; condition = none; hit_condition = none; log_message = none }

-- Two entries of one file, with the ids 1 and 2.
abbrev two_entries : BreakpointTracker
two_entries =
    add_spec (add_spec Tracker.empty (some 1) "main.py" (at_line 5)) (some 2) "main.py" (at_line 8)

two_entries-IsIndexed : IsIndexed two_entries
two_entries-IsIndexed =
    add_spec-IsIndexed _ (some 2) "main.py" (at_line 8)
      (add_spec-IsIndexed _ (some 1) "main.py" (at_line 5) empty-IsIndexed)

abbrev removed_event : Value
removed_event = object (
    field "type" (text "event") (
      field "event" (text "breakpoint") (
        field "body"
          (object (
            field "reason" (text "removed")
              (field "breakpoint" (object (field "id" (number 1) end)) end)))
          end)))

observe_breakpoint_event-IsIndexed_example :
    IsIndexed (observe_breakpoint_event two_entries removed_event)
observe_breakpoint_event-IsIndexed_example =
    observe_breakpoint_event-IsIndexed two_entries removed_event two_entries-IsIndexed

abbrev answered_breakpoints : List Value
answered_breakpoints =
    object (field "verified" (bool true) end) ∷ object (field "line" (number 8) end) ∷ []

observe_set_breakpoints_response-Settled_example :
    Settled (some answered_breakpoints) (pending_of set_breakpoints_request) 1 two_entries (
      observe_set_breakpoints_response
        (track_set_breakpoints_request two_entries 1 set_breakpoints_request)
        set_breakpoints_answer)
observe_set_breakpoints_response-Settled_example =
    observe_set_breakpoints_response-Settled two_entries 1 set_breakpoints_request
      set_breakpoints_answer (some answered_breakpoints) refl refl refl

abbrev echoes : List Value
echoes = object (field "verified" (bool true) end) ∷ object (field "line" (number 8) end) ∷ []

remapper_run-refines_example :
    ((remapper_run Remapper.new (opens 5 1 ∷ opens 6 2 ∷ closes 1 ∷ [])).0
      ≡ (table_run [] (opens 5 1 ∷ opens 6 2 ∷ closes 1 ∷ [])).0)
    × Implements
        (remapper_run Remapper.new (opens 5 1 ∷ opens 6 2 ∷ closes 1 ∷ [])).1
        (table_run [] (opens 5 1 ∷ opens 6 2 ∷ closes 1 ∷ [])).1
remapper_run-refines_example =
    remapper_run-refines (opens 5 1 ∷ opens 6 2 ∷ closes 1 ∷ [])
      ((refl, refl), ((refl, refl), (tt, tt)))
