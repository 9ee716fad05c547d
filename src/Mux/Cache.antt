-- ===== src/Mux/Cache.antt =====
-- crates/protocol-mux/src/cache.rs: what a client that attaches late is told.
use dappy_core.Common.{
  ℕ, zero, suc, ◌+◌, ◌-◌, ◌*◌, ◌/◌, ◌%◌, ◌^◌, ◌≤◌, ◌<◌, String, ◌≡◌, refl, sym, ap, ◌∙◌, subst, ◌≢◌,
  ◌↔◌, ◌⊎◌, inl, inr, Bool, true, false, not, ◌&&◌, ◌||◌, Option, none, some, List, [], ◌∷◌, ◌++◌,
  map, arith, eq_iff, ltb, leb, if◌then◌else◌, Bool-cases, Eq, ◌==◌, nat_eq, string_eq, ==-refl,
  ==-eq, and_then, unwrap_or, or_else, is_some, Option-cases, is_text, is_true, is_false, length,
  get_elem?, set, remove_at, filter_map, find_map,
}
use dappy_core.Json.{Json}
use dappy_core.Mux.Message.{
  request_kind, MessageKind, message_kind, event_name, command, event_kind, response_kind,
}
use dappy_core.Mux.Tracker.{BreakpointTracker}
use dappy_core.Mux.Breakpoint.{
  observe_breakpoint_event, observe_set_breakpoints_response, track_set_breakpoints_request,
  track_set_exception_breakpoints_request,
}
use dappy_core.Mux.Breakpoint.Snapshot.{snapshot}
use dappy_core.Mux.Tracker
pub mod Laws

pub record LateJoinCache (V : Type 0) : Type 0 where
  pub initialized : Option V
  pub last_stopped : Option V
  pub initialize_body : Option V
  pub breakpoints : BreakpointTracker

-- `message_kind(message) != MessageKind::Event`, and the same for `Response`.
abbrev pub is_event : MessageKind → Bool
is_event event_kind = true
is_event _ = false

abbrev pub is_response : MessageKind → Bool
is_response response_kind = true
is_response _ = false

abbrev pub is_request : MessageKind → Bool
is_request request_kind = true
is_request _ = false

-- `LateJoinCache::default()`
unfoldable pub default : {V : Type 0} → LateJoinCache V
default = record {
  initialized = none;
  last_stopped = none;
  initialize_body = none;
  breakpoints = Tracker.empty;
}

module _ {V : Type 0} ⦃J : Json V⦄ where
  unfoldable pub observe : LateJoinCache V → V → LateJoinCache V
  observe c message =
      if not (is_event (message_kind message))
      then c
      else if is_text (event_name message) "initialized"
      then record c { initialized = some message }
      else if is_text (event_name message) "stopped"
      then record c { last_stopped = some message }
      else if is_text (event_name message) "breakpoint"
      then record c { breakpoints = observe_breakpoint_event c.breakpoints message }
      else c

  -- The guarded arm of the `match` on the command.
  unfoldable pub observe_initialize : LateJoinCache V → V → LateJoinCache V
  observe_initialize c message =
      if is_text (command message) "initialize"
        && is_true (and_then (J.get message "success") J.as_bool)
      then record c { initialize_body = J.get message "body" }
      else c

  unfoldable pub observe_response : LateJoinCache V → V → LateJoinCache V
  unfolding observe_initialize
  observe_response c message =
      if not (is_response (message_kind message))
      then c
      else let seen = observe_initialize c message in
        record seen { breakpoints = observe_set_breakpoints_response seen.breakpoints message }

  unfoldable pub observe_client_request : LateJoinCache V → ℕ → V → LateJoinCache V
  observe_client_request c backend_seq message =
      if is_text (command message) "setBreakpoints"
      then record c {
        breakpoints = track_set_breakpoints_request c.breakpoints backend_seq message;
      }
      else if is_text (command message) "setExceptionBreakpoints"
      then record c { breakpoints = track_set_exception_breakpoints_request c.breakpoints message }
      else c

  unfoldable pub breakpoint_snapshot : LateJoinCache V → V
  breakpoint_snapshot c = snapshot c.breakpoints

  -- The `initialize` response that is made up for a late client.
  unfoldable pub initialize_response : V → V
  initialize_response body =
      J.insert
        (J.insert
          (J.insert
            (J.insert (J.insert (J.insert J.empty "type" (J.text "response")) "seq" (J.number 0))
              "request_seq" (J.number 0))
            "success" (J.bool true))
          "command" (J.text "initialize"))
        "body" body

  abbrev to_list : Option V → List V
  to_list none = []
  to_list (some v) = v ∷ []

  unfoldable pub replay : LateJoinCache V → List V
  replay c =
      elim c.initialize_body [ none ↦ [] | some body ↦ initialize_response body ∷ [] ]
      ++ (to_list c.initialized ++ to_list c.last_stopped)
