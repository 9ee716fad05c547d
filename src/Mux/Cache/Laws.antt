-- ===== src/Mux/Cache/Laws.antt =====
-- How crates/protocol-mux/src/cache.rs keeps its breakpoint tracker, and what it replays.
use dappy_core.Common.{is_text, not, ℕ, ◌≡◌, arith, nat_eq, string_eq, if_keeps}
use dappy_core.Json.{Json}
use dappy_core.Mux.Cache.{
  event_name, message_kind, command, is_event, is_response, LateJoinCache, observe,
  observe_response, observe_initialize, observe_client_request, default,
}
use dappy_core.Mux.Breakpoint.{
  track_set_breakpoints_request, track_set_exception_breakpoints_request,
}
use dappy_core.Mux.Breakpoint.Slots.{IsIndexed, empty-IsIndexed}
use dappy_core.Mux.Breakpoint.Invariant.{
  observe_breakpoint_event-IsIndexed, observe_set_breakpoints_response-IsIndexed,
}

-- The tracker inside a cache is in step.
pub record IsTracked {V : Type 0} (c : LateJoinCache V) : Type 0 where
  pub slots : IsIndexed c.breakpoints

pub default-IsTracked : (V : Type 0) → IsTracked (default {V = V})
unfolding default
default-IsTracked V = record { slots = empty-IsIndexed }

module _ {V : Type 0} ⦃J : Json V⦄ where
  pub observe-IsTracked : (c : LateJoinCache V) (m : V) → IsTracked c → IsTracked (observe c m)
  unfolding observe
  observe-IsTracked c m v = if_keeps IsTracked (not (is_event (message_kind m))) _ _ v (
      if_keeps IsTracked (is_text (event_name m) "initialized") _ _ (record { slots = v.slots })
        (if_keeps IsTracked (is_text (event_name m) "stopped") _ _ (record { slots = v.slots })
          (if_keeps IsTracked (is_text (event_name m) "breakpoint") _ _
            (record { slots = observe_breakpoint_event-IsIndexed c.breakpoints m v.slots }) v)))

  observe_initialize-breakpoints :
      (c : LateJoinCache V) (m : V) → (observe_initialize c m).breakpoints ≡ c.breakpoints
  unfolding observe_initialize
  observe_initialize-breakpoints c m = ground arith

  pub observe_response-IsTracked :
      (c : LateJoinCache V) (m : V) → IsTracked c → IsTracked (observe_response c m)
  unfolding observe_response
  observe_response-IsTracked c m v =
      if_keeps IsTracked (not (is_response (message_kind m))) _ _ v (record {
        slots =
            observe_set_breakpoints_response-IsIndexed (observe_initialize c m).breakpoints m
              (rw (observe_initialize-breakpoints c m) v.slots);
      })

  pub observe_client_request-IsTracked :
      (c : LateJoinCache V) (b : ℕ) (m : V) → IsTracked c → IsTracked (observe_client_request c b m)
  unfolding observe_client_request track_set_breakpoints_request
      track_set_exception_breakpoints_request
  observe_client_request-IsTracked c b m v =
      if_keeps IsTracked (is_text (command m) "setBreakpoints") _ _
        (record { slots = record { named = v.slots.named; distinct = v.slots.distinct } })
        (if_keeps IsTracked (is_text (command m) "setExceptionBreakpoints") _ _
          (record { slots = record { named = v.slots.named; distinct = v.slots.distinct } }) v)
