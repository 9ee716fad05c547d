-- ===== src/Control/Numbers/Reach.antt =====
-- The calls on a client of crates/dap-core/src/control_client.rs as a step relation, and the numbers of its
-- requests along any run.
use dappy_core.Common.{
  ℕ, String, inl, inr, Bool, false, Option, some, List, [], ◌∷◌, arith, Bool-cases, ◌==◌, nat_eq,
  string_eq,
}
use dappy_core.Common.Text.{Text, codes}
use dappy_core.Json.{Json}
use dappy_core.Wire.Message.{Message}
use dappy_core.Control.Channel.{
  Arrival, Result, ok, err, AdapterCapabilities, ControlClient, Op, continue_with, ◌>>=◌, pure,
  from_duplex, set_capabilities, buffer_message, recv_from_wire, next_pending, recv_next,
  read_message, recv_timeout,
}
use dappy_core.Control.Waits.{
  response_matches_seq, response_matches_command, take_first, await_wire, wait_for_response_seq,
  wait_for_response_named, wait_for_event,
}
use dappy_core.Control.Calls.{
  send_dap_request, send_dap_request_and_wait_for_event, dap_request, dap_request_preserve_events,
}
use dappy_core.Control.Drain.{drain, absorb_late_join_replay, absorb_messages}
use dappy_core.Control.Session.{
  request_body, navigate, disconnect_with_options, probe_status, probe_again, threads,
}
use dappy_core.Dap.Execution.{ExecutionStatus, ExecutionStateTracker, apply_messages, new}
use dappy_core.Dap.Execution
use dappy_core.Dap.Navigation.{NavigationType}
use dappy_core.Control.Numbers.{
  IsNumbered, HasRoom, Ascends, continue_with-IsNumbered, found_or-IsNumbered,
  send_dap_request-IsNumbered, wait_for_event-IsNumbered, drain-IsNumbered, await_wire-IsNumbered,
  dap_request-IsNumbered, preserve-IsNumbered, send_and_wait-IsNumbered, absorb_messages-IsNumbered,
  navigate-IsNumbered, request_body-IsNumbered,
}

-- Every method that changes a client. The methods of Control.Requests are all `calls`.
pub data Step {V : Type 0} ⦃J : Json V⦄ (from_value : V → Option (AdapterCapabilities V))
    : ControlClient V → ControlClient V → Type 0 where
  sends :
      (command : Text) (arguments : Option V) (c : ControlClient V)
      → Step from_value c (send_dap_request command arguments c).1
  sends_and_waits :
      (command : Text) (arguments : Option V) (name : Text) (c : ControlClient V)
      → Step from_value c (send_dap_request_and_wait_for_event command arguments name c).1
  requests :
      (command : Text) (arguments : Option V) (c : ControlClient V)
      → Step from_value c (dap_request command arguments c).1
  requests_keeping :
      (command : Text) (arguments : Option V) (c : ControlClient V)
      → Step from_value c (dap_request_preserve_events command arguments c).1
  calls :
      (command : String) (arguments : Option V) (c : ControlClient V)
      → Step from_value c (request_body command arguments c).1
  navigates :
      (navigation : NavigationType) (thread_id : ℕ) (c : ControlClient V)
      → Step from_value c (navigate navigation thread_id c).1
  disconnects :
      (terminate_debuggee : Bool) (c : ControlClient V)
      → Step from_value c (disconnect_with_options terminate_debuggee c).1
  probes : (c : ControlClient V) → Step from_value c (probe_status c).1
  waits_seq : (seq : ℕ) (c : ControlClient V) → Step from_value c (wait_for_response_seq seq c).1
  waits_named :
      (command : Text) (c : ControlClient V)
      → Step from_value c (wait_for_response_named command c).1
  waits_event :
      (name : Text) (timeout : ℕ) (c : ControlClient V)
      → Step from_value c (wait_for_event name timeout c).1
  reads : (c : ControlClient V) → Step from_value c (read_message c).1
  receives : (c : ControlClient V) → Step from_value c (recv_timeout c).1
  drains : (timeout : ℕ) (c : ControlClient V) → Step from_value c (drain timeout c).1
  absorbs : (c : ControlClient V) → Step from_value c (absorb_late_join_replay from_value c).1
  buffers : (m : Message V) (c : ControlClient V) → Step from_value c (buffer_message m c)
  sets :
      (caps : AdapterCapabilities V) (c : ControlClient V)
      → Step from_value c (set_capabilities caps c)

pub data Reach {V : Type 0} ⦃J : Json V⦄ (from_value : V → Option (AdapterCapabilities V))
    (c : ControlClient V) : ControlClient V → Type 0 where
  here : Reach from_value c c
  next : {d e : ControlClient V} → Reach from_value c d → Step from_value d e → Reach from_value c e

-- Each call of a run finds a number that the next request can take and still count on.
abbrev pub HasRoomThroughout :
    {V : Type 0} ⦃J : Json V⦄ {from_value : V → Option (AdapterCapabilities V)}
    {c d : ControlClient V}
    → Reach from_value c d
    → Type 0
HasRoomThroughout here = Unit
HasRoomThroughout (next {d} r st) = HasRoomThroughout r × HasRoom d

module _ {V : Type 0} ⦃J : Json V⦄ where
  next_pending-IsNumbered :
      (pending : List (Message V)) (wire : Op V (Option (Message V))) (c : ControlClient V)
      → IsNumbered c
      → IsNumbered (wire c).1
      → IsNumbered (next_pending pending wire c).1
  next_pending-IsNumbered [] wire c h k = k
  next_pending-IsNumbered (m ∷ ms) wire c h k = h

  drain-HasRoom : (timeout : ℕ) (c : ControlClient V) → HasRoom c → HasRoom (drain timeout c).1
  unfolding drain
  drain-HasRoom timeout c h = elim (Bool-cases (timeout == 0)) [ inl e ↦ rw e h | inr e ↦ rw e h ]

  probe_again-IsNumbered :
      (status : ExecutionStatus) (t : ExecutionStateTracker) (c : ControlClient V)
      → IsNumbered c
      → HasRoom c
      → IsNumbered (probe_again status t c).1
  unfolding threads
  probe_again-IsNumbered Execution.unknown t c h room =
      continue_with-IsNumbered (request_body "threads" (some J.empty) c)
        (λ body. drain 100 >>= (λ messages. pure (apply_messages t messages)))
        (request_body-IsNumbered "threads" (some J.empty) c h room)
        (λ body d k.
          continue_with-IsNumbered (drain 100 d) (λ messages. pure (apply_messages t messages))
            (drain-IsNumbered 100 d k) (λ ms e l. l))
  probe_again-IsNumbered Execution.running t c h room = h
  probe_again-IsNumbered Execution.stopped t c h room = h
  probe_again-IsNumbered Execution.exited t c h room = h

  probe_then :
      (x : Result (List (Message V)) × ControlClient V)
      → IsNumbered x.1
      → HasRoom x.1
      → IsNumbered
          (continue_with x (λ messages.
            probe_again (apply_messages new messages).state.status (apply_messages new messages))).1
  probe_then (ok messages, c) h room =
      probe_again-IsNumbered (apply_messages new messages).state.status
        (apply_messages new messages) c h room
  probe_then (err e, c) h room = h

  probe_status-IsNumbered :
      (c : ControlClient V) → IsNumbered c → HasRoom c → IsNumbered (probe_status c).1
  unfolding probe_status
  probe_status-IsNumbered c h room =
      probe_then (drain 200 c) (drain-IsNumbered 200 c h) (drain-HasRoom 200 c room)

  Step-IsNumbered :
      {from_value : V → Option (AdapterCapabilities V)} {c d : ControlClient V}
      → Step from_value c d
      → HasRoom c
      → IsNumbered c
      → IsNumbered d
  unfolding read_message recv_next wait_for_response_seq wait_for_response_named recv_timeout
      disconnect_with_options absorb_late_join_replay buffer_message set_capabilities recv_from_wire
  Step-IsNumbered (sends command arguments c) room h =
      send_dap_request-IsNumbered command arguments c h room
  Step-IsNumbered (sends_and_waits command arguments name c) room h =
      send_and_wait-IsNumbered command arguments name c h room
  Step-IsNumbered (requests command arguments c) room h =
      dap_request-IsNumbered command arguments c h room
  Step-IsNumbered (requests_keeping command arguments c) room h =
      preserve-IsNumbered command arguments c h room
  Step-IsNumbered (calls command arguments c) room h =
      request_body-IsNumbered command arguments c h room
  Step-IsNumbered (navigates navigation thread_id c) room h =
      navigate-IsNumbered navigation thread_id c h room
  Step-IsNumbered (disconnects terminate_debuggee c) room h =
      dap_request-IsNumbered (codes "disconnect")
        (some (J.insert J.empty "terminateDebuggee" (J.bool terminate_debuggee))) c h room
  Step-IsNumbered (probes c) room h = probe_status-IsNumbered c h room
  Step-IsNumbered (waits_seq seq c) room h =
      found_or-IsNumbered (take_first (response_matches_seq seq) c.pending)
        (await_wire false (response_matches_seq seq)) c h
        (await_wire-IsNumbered false (response_matches_seq seq) c h)
  Step-IsNumbered (waits_named command c) room h =
      found_or-IsNumbered (take_first (response_matches_command command) c.pending)
        (await_wire false (response_matches_command command)) c h
        (await_wire-IsNumbered false (response_matches_command command) c h)
  Step-IsNumbered (waits_event name timeout c) room h = wait_for_event-IsNumbered name timeout c h
  Step-IsNumbered (reads c) room h = next_pending-IsNumbered c.pending recv_from_wire c h h
  Step-IsNumbered (receives c) room h = next_pending-IsNumbered c.pending _ c h h
  Step-IsNumbered (drains timeout c) room h = drain-IsNumbered timeout c h
  Step-IsNumbered {from_value} (absorbs c) room h =
      continue_with-IsNumbered (drain 200 c)
        (λ messages d. (ok tt, absorb_messages from_value d messages)) (drain-IsNumbered 200 c h)
        (λ ms d k. absorb_messages-IsNumbered from_value ms d k)
  Step-IsNumbered (buffers m c) room h = h
  Step-IsNumbered (sets caps c) room h = h

  from_duplex-IsNumbered :
      (incoming : List (Arrival V)) (accepts : ℕ) → IsNumbered (from_duplex incoming accepts)
  unfolding from_duplex
  from_duplex-IsNumbered incoming accepts = omega arith

  Reach-keeps :
      {from_value : V → Option (AdapterCapabilities V)} {c d : ControlClient V}
      → IsNumbered c
      → (r : Reach from_value c d) → HasRoomThroughout r
      → IsNumbered d
  Reach-keeps h here room = h
  Reach-keeps h (next r st) room = Step-IsNumbered st room.1 (Reach-keeps h r room.0)

  -- After any calls on a new client, each made while its next number is at most 2 ^ 63 - 2, the requests that
  -- it has sent are numbered from 1 upwards, each number above the one before it and below the next one,
  -- whatever came on the channel and whatever failed.
  pub Reach-IsNumbered :
      (from_value : V → Option (AdapterCapabilities V)) (incoming : List (Arrival V)) (accepts : ℕ)
      (c : ControlClient V)
      → (r : Reach from_value (from_duplex incoming accepts) c) → HasRoomThroughout r
      → Ascends 1 c.written c.seq
  Reach-IsNumbered from_value incoming accepts c r room =
      Reach-keeps (from_duplex-IsNumbered incoming accepts) r room
