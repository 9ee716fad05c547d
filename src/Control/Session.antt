-- ===== src/Control/Session.antt =====
-- crates/dap-core/src/control_client.rs: navigation, the end of a session and the question how it stands.
use dappy_core.Common.{
  ℕ, String, Bool, true, false, Option, none, some, List, nat_eq, string_eq, and_then, unwrap_or,
  or_else,
}
use dappy_core.Common.Text.{codes}
use dappy_core.Json.{Json}
use dappy_core.Wire.Message.{Message, request_message, response_message, event_message}
use dappy_core.Control.Channel.{not_a_response, Result, ok, err, Op, ◌>>=◌, pure}
use dappy_core.Control.Waits.{wait_for_event}
use dappy_core.Control.Calls.{dap_request, dap_request_preserve_events}
use dappy_core.Control.Drain.{drain}
use dappy_core.Dap.Execution.{ExecutionStateTracker, new, apply_messages, apply_message}
use dappy_core.Dap.Execution
use dappy_core.Dap.Navigation.{NavigationType, dap_command, waits_for_stop}

pub record NavigateResult : Type 0 where
  pub navigation_type : NavigationType
  pub success : Bool
  pub stop_reason : Option String
  pub thread_id : Option ℕ

unfoldable pub navigate_result : NavigationType → ℕ → Option String × Option ℕ → NavigateResult
navigate_result navigation thread_id (reason, stopped) = record {
  navigation_type = navigation;
  success = true;
  stop_reason = reason;
  thread_id = or_else stopped (some thread_id);
}

module _ {V : Type 0} ⦃J : Json V⦄ where
  -- `response.body.unwrap_or(Value::Null)`, whether the response reports a success or not.
  unfoldable pub response_body : Message V → Result V
  response_body (response_message r) = ok (unwrap_or r.body J.null)
  response_body (request_message r) = err not_a_response
  response_body (event_message e) = err not_a_response

  -- `self.dap_request(command, arguments).await?`, then `response_body`.
  unfoldable pub request_body : String → Option V → Op V V
  unfolding dap_request response_body
  request_body command arguments = do
    message ← dap_request (codes command) arguments
    λ c. (response_body message, c)

  unfoldable pub threads : Op V V
  unfolding request_body
  threads = request_body "threads" (some J.empty)

  -- The arguments of every navigation.
  unfoldable pub navigation_arguments : NavigationType → ℕ → V
  navigation_arguments navigation thread_id = J.insert J.empty "threadId" (J.number thread_id)

  -- The reason and the thread of a stop.
  unfoldable pub stop_of : Message V → Option String × Option ℕ
  stop_of (event_message e) = (
    and_then e.body (λ b. and_then (J.get b "reason") J.as_str),
    and_then e.body (λ b. and_then (J.get b "threadId") J.as_i64),
  )
  stop_of (request_message r) = (none, none)
  stop_of (response_message r) = (none, none)

  -- What the messages of a step say, in place of a stop.
  unfoldable pub summary_of : List (Message V) → Option String × Option ℕ
  unfolding Execution.new Execution.apply_message
  summary_of messages =
      let t = apply_messages new messages in (t.state.stop_reason, t.state.thread_id)

  unfoldable pub navigate_stop : Bool → Op V (Option String × Option ℕ)
  unfolding wait_for_event stop_of drain summary_of
  navigate_stop true = do stopped ← wait_for_event (codes "stopped") 30000; pure (stop_of stopped)
  navigate_stop false = do messages ← drain 200; pure (summary_of messages)

  unfoldable pub navigate : NavigationType → ℕ → Op V NavigateResult
  unfolding dap_request_preserve_events dap_command navigation_arguments navigate_stop
      navigate_result
  navigate navigation thread_id = do
    response ←
        dap_request_preserve_events (codes (dap_command navigation))
          (some (navigation_arguments navigation thread_id))
    stop ← navigate_stop (waits_for_stop navigation)
    pure (navigate_result navigation thread_id stop)

  -- Whatever comes of the request, the client has disconnected.
  unfoldable pub disconnect_with_options : Bool → Op V (Unit {0})
  unfolding dap_request
  disconnect_with_options terminate_debuggee c =
      let (r, c') =
        dap_request (codes "disconnect")
          (some (J.insert J.empty "terminateDebuggee" (J.bool terminate_debuggee))) c in
      (ok tt, c')

  unfoldable pub disconnect : Op V (Unit {0})
  unfolding disconnect_with_options
  disconnect = disconnect_with_options false

  unfoldable pub terminate : Op V (Unit {0})
  unfolding disconnect_with_options
  terminate = disconnect_with_options true

  abbrev pub probe_again :
      Execution.ExecutionStatus → ExecutionStateTracker → Op V ExecutionStateTracker
  probe_again Execution.unknown t = do
    body ← threads
    messages ← drain 100
    pure (apply_messages t messages)
  probe_again Execution.running t = pure t
  probe_again Execution.stopped t = pure t
  probe_again Execution.exited t = pure t

  unfoldable pub probe_status : Op V ExecutionStateTracker
  unfolding drain Execution.new Execution.apply_message threads
  probe_status = do
    messages ← drain 200
    probe_again (apply_messages new messages).state.status (apply_messages new messages)
