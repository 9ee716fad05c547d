-- ===== src/Dap/Execution.antt =====
-- crates/dap-core/src/execution_state.rs. The version is a u64 and wraps.
use dappy_core.Common.{
  ℕ, ◌+◌, ◌%◌, ◌^◌, ◌<◌, String, ◌≡◌, refl, ◌∙◌, ◌||◌, Option, none, some, List, [], ◌∷◌, arith,
  if◌then◌else◌, nat_eq, string_eq, and_then, unwrap_or, or_else, length,
}
use dappy_core.Common.Text.{Text, codes, same_text}
use dappy_core.Wire.Message.{Message, request_message, response_message, event_message}
use dappy_core.Json.{Json}

pub data ExecutionStatus : Type 0 where
  unknown running stopped exited : ExecutionStatus

pub record ExecutionStateSummary : Type 0 where
  pub status : ExecutionStatus
  pub thread_id : Option ℕ
  pub stop_reason : Option String
  pub description : Option String

-- `VersionedExecutionState` holds the same two fields, so `summary` is the tracker itself.
pub record ExecutionStateTracker : Type 0 where
  pub version : ℕ
  pub state : ExecutionStateSummary

unfoldable pub new : ExecutionStateTracker
new = record {
  version = 0;
  state = record { status = unknown; thread_id = none; stop_reason = none; description = none };
}

module _ {V : Type 0} ⦃J : Json V⦄ where
  abbrev text_in : Option V → String → Option String
  text_in body key = and_then body λ b. and_then (J.get b key) J.as_str

  -- The `match` on the name of the event.
  unfoldable pub apply_name : ExecutionStateSummary → Text → Option V → ExecutionStateSummary
  apply_name s name body =
      if same_text name (codes "stopped")
      then record {
        status = stopped;
        thread_id = and_then body (λ b. and_then (J.get b "threadId") J.as_i64);
        stop_reason = text_in body "reason";
        description = text_in body "text";
      }
      else if same_text name (codes "continued")
      then record s { status = running; stop_reason = none; description = none }
      else if same_text name (codes "exited") || same_text name (codes "terminated")
      then record s { status = exited; stop_reason = text_in body "reason" }
      else if same_text name (codes "initialized")
      then record s { status = running }
      else s

  unfoldable pub apply_event : ExecutionStateTracker → Text → Option V → ExecutionStateTracker
  apply_event t name body = record {
    version = (t.version + 1) % 2 ^ 64;
    state = apply_name t.state name body;
  }

  unfoldable pub apply_message : ExecutionStateTracker → Message V → ExecutionStateTracker
  unfolding apply_event
  apply_message t (event_message e) = apply_event t e.event e.body
  apply_message t (request_message r) = t
  apply_message t (response_message r) = t

  -- The messages of a session, in order.
  abbrev pub apply_messages : ExecutionStateTracker → List (Message V) → ExecutionStateTracker
  apply_messages t [] = t
  apply_messages t (m ∷ ms) = apply_messages (apply_message t m) ms

  -- The events of a session, in order.
  abbrev pub apply_events : List (Text × Option V) → ExecutionStateTracker → ExecutionStateTracker
  apply_events [] t = t
  apply_events ((name, body) ∷ rest) t = apply_events rest (apply_event t name body)

-- The status that an event's name stands for, if it stands for one.
abbrev pub status_of_name : Text → Option ExecutionStatus
status_of_name name =
    if same_text name (codes "stopped")
    then some stopped
    else if same_text name (codes "continued")
    then some running
    else if same_text name (codes "exited")
    then some exited
    else if same_text name (codes "terminated")
    then some exited
    else if same_text name (codes "initialized")
    then some running
    else none

module _ {V : Type 0} where
  -- The status that the last telling event stands for.
  abbrev pub last_status : List (Text × Option V) → Option ExecutionStatus
  last_status [] = none
  last_status ((name, body) ∷ rest) = or_else (last_status rest) (status_of_name name)

module _ {V : Type 0} ⦃J : Json V⦄ where
  status-apply_name :
      (s : ExecutionStateSummary) (name : Text) (body : Option V)
      → (apply_name s name body).status ≡ unwrap_or (status_of_name name) s.status
  unfolding apply_name
  status-apply_name s name body = ground arith

  -- After any events the status is the one that the last telling event stands for, or the one before;
  -- and where the version has room, it has gone up by one for each event.
  pub apply_events-status :
      (es : List (Text × Option V)) (t : ExecutionStateTracker)
      → t.version + length es < 2 ^ 64
      → ((apply_events es t).state.status ≡ unwrap_or (last_status es) t.state.status)
        × ((apply_events es t).version ≡ t.version + length es)
  unfolding apply_event
  apply_events-status [] t room = (refl, omega arith)
  apply_events-status ((name, body) ∷ rest) t room =
      let small : (t.version + 1) % 2 ^ 64 ≡ t.version + 1 = omega arith in
      let (status, version) = apply_events-status rest (apply_event t name body) (omega arith) in
      (status ∙ ground (arith, status-apply_name t.state name body), version ∙ omega arith)
