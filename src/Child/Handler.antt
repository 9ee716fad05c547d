-- ===== src/Child/Handler.antt =====
-- crates/dap-core/src/child_session/mod.rs: the answer to a `startDebugging` request. The count of children
-- is what the answer leaves in `active_children`.
use dappy_core.Common.{
  ℕ, ◌+◌, ◌%◌, ◌^◌, true, false, Option, none, some, ◌++◌, nat_eq, string_eq, and_then,
}
use dappy_core.Common.Text.{Text, codes}
use dappy_core.Child.Outcome.{Outcome, ok, err}
use dappy_core.Child.Value.{Value, Library}
use dappy_core.Child.Profile.{ChildSessionConfig}
use dappy_core.Child.Resolve.{
  StartDebuggingArgs, ParentSessionContext, ChildSpawnPlan, ChildSpawnResult, resolve_child_spawn,
}
use dappy_core.Wire.Message.{Request, Message, response_message}

-- The answer, the count behind it, and the plan that the spawner was given.
pub record Handled (N : Type 0) : Type 0 where
  pub reply : Message (Value N)
  pub active_children : ℕ
  pub spawned : Option (ChildSpawnPlan N)

module _ {N : Type 0} where
  unfoldable pub success_reverse_response : Request (Value N) → Message (Value N)
  success_reverse_response request = response_message (record {
    seq = 0;
    request_seq = request.seq;
    success = true;
    command = some (codes "startDebugging");
    message = none;
    body = none;
  })

  unfoldable pub fail_reverse_response : Request (Value N) → Text → Message (Value N)
  fail_reverse_response request message = response_message (record {
    seq = 0;
    request_seq = request.seq;
    success = false;
    command = some request.command;
    message = some message;
    body = none;
  })

  -- `format!("{:?}")` of a text is an argument.
  unfoldable pub decline_reverse_request : (Text → Text) → Request (Value N) → Message (Value N)
  unfolding fail_reverse_response
  decline_reverse_request debug request =
      fail_reverse_response request
        (codes "reverse request " ++ (debug request.command ++ codes " is not supported"))

-- serde and the spawner are arguments: the arguments of a value, their value, and how a spawn ends.
pub record Environment (N : Type 0) : Type 0 where
  pub library : Library N
  pub from_value : Value N → Option (StartDebuggingArgs N)
  pub to_value : StartDebuggingArgs N → Outcome (Value N)
  pub spawn : ChildSpawnPlan N → Outcome ChildSpawnResult

module _ {N : Type 0} (environment : Environment N) where
  unfoldable pub spawn_child : Request (Value N) → ℕ → ChildSpawnPlan N → Handled N
  unfolding success_reverse_response fail_reverse_response
  spawn_child request active_children plan = elim (environment.spawn plan) [
    | ok result ↦ record {
      reply = success_reverse_response request;
      active_children = (active_children + 1) % 2 ^ 32;
      spawned = some plan;
    }
    | err e ↦ record {
      reply = fail_reverse_response request (codes "failed to spawn child session: " ++ e);
      active_children = active_children;
      spawned = some plan;
    }
  ]

  unfoldable pub answer_with : Request (Value N) → ℕ → Outcome (ChildSpawnPlan N) → Handled N
  unfolding spawn_child
  answer_with request active_children (err message) = record {
    reply = fail_reverse_response request message;
    active_children = active_children;
    spawned = none;
  }
  answer_with request active_children (ok plan) = spawn_child request active_children plan

  unfoldable pub handle_start_debugging :
      Request (Value N) → ChildSessionConfig N → ℕ → ParentSessionContext → ℕ → Handled N
  unfolding answer_with resolve_child_spawn
  handle_start_debugging request config remaining_depth parent active_children =
      elim (and_then request.arguments environment.from_value) [
        | none ↦
            answer_with request active_children (err (codes "invalid startDebugging arguments"))
        | some args ↦ answer_with request active_children (
            resolve_child_spawn environment.library environment.to_value config remaining_depth
              active_children parent args)
      ]
