-- ===== src/Control/Numbers.antt =====
-- The numbers of the requests that crates/dap-core/src/control_client.rs sends, over any calls.
pub mod Reach
use dappy_core.Dap.Navigation.{dap_command, waits_for_stop, NavigationType}
use dappy_core.Control.Session.{
  navigate_result, navigation_arguments, summary_of, stop_of, response_body, navigate_stop,
  request_body, navigate,
}
use dappy_core.Json.{Json}
use dappy_core.Common.{
  String, Bool, true, ℕ, zero, suc, ◌+◌, ◌^◌, ◌≤◌, ◌<◌, subst, inl, inr, Option, none, some, List,
  [], ◌∷◌, ◌++◌, arith, Bool-cases, ◌==◌, nat_eq, string_eq, false,
}
use dappy_core.Common.Text.{codes, Text}
use dappy_core.Wire.Message.{Message, request_message, response_message, event_message}
use dappy_core.Control.Channel.{
  buffer_message, set_capabilities, AdapterCapabilities, Result, ok, err, ControlClient, Op,
  continue_with, pure, ◌>>=◌,
}
use dappy_core.Control.Waits.{
  response_matches_command, response_matches_seq, await_wire, event_named, take_first, found_or,
  wait_for_event,
}
use dappy_core.Control.Calls.{
  await_roundtrip, dap_request_preserve_events, dap_request, send_dap_request_and_wait_for_event,
  send_within, request_of, send_dap_request,
}
use dappy_core.Control.Drain.{
  from_initialize_message, absorb_messages, learn, absorb_message, drain,
}
use dappy_core.Mux.Session.{next_i64}

module _ {V : Type 0} where
  abbrev pub number_of : Message V → ℕ
  number_of (request_message r) = r.seq
  number_of (response_message r) = r.seq
  number_of (event_message e) = e.seq

  -- The numbers rise from the first on, and stay below the next.
  abbrev pub Ascends : ℕ → List (Message V) → ℕ → Type 0
  Ascends low [] next = low ≤ next
  Ascends low (m ∷ ms) next = (low ≤ number_of m) × Ascends (suc (number_of m)) ms next

  abbrev pub IsNumbered : ControlClient V → Type 0
  IsNumbered c = Ascends 1 c.written c.seq

  -- There is an i64 behind the next number, so `+= 1` does not overflow.
  abbrev pub HasRoom : ControlClient V → Type 0
  HasRoom c = c.seq + 1 < 2 ^ 63

  Ascends-suc :
      (low : ℕ) (ms : List (Message V)) (next : ℕ) → Ascends low ms next → Ascends low ms (suc next)
  Ascends-suc low [] next h = omega arith
  Ascends-suc low (m ∷ ms) next (h, rest) = (h, Ascends-suc (suc (number_of m)) ms next rest)

  Ascends-append :
      (low : ℕ) (ms : List (Message V)) (m : Message V)
      → Ascends low ms (number_of m)
      → Ascends low (ms ++ m ∷ []) (suc (number_of m))
  Ascends-append low [] m h = (h, omega arith)
  Ascends-append low (n ∷ ms) m (h, rest) = (h, Ascends-append (suc (number_of n)) ms m rest)

  send_within-IsNumbered :
      (k : ℕ) (command : Text) (arguments : Option V) (c : ControlClient V)
      → IsNumbered c
      → HasRoom c
      → IsNumbered
          (send_within k (request_of c.seq command arguments) (record c { seq = next_i64 c.seq })).1
  send_within-IsNumbered zero command arguments c h room =
      subst (Ascends 1 c.written) (omega arith) (Ascends-suc 1 c.written c.seq h)
  send_within-IsNumbered (suc k) command arguments c h room =
      subst (Ascends 1 (c.written ++ request_of c.seq command arguments ∷ [])) (omega arith)
        (Ascends-append 1 c.written (request_of c.seq command arguments) h)

module _ {V A B : Type 0} where
  continue_with-IsNumbered :
      (x : Result A × ControlClient V) (k : A → Op V B)
      → IsNumbered x.1
      → ((a : A) (c : ControlClient V) → IsNumbered c → IsNumbered (k a c).1)
      → IsNumbered (continue_with x k).1
  continue_with-IsNumbered (ok a, c) k h keep = keep a c h
  continue_with-IsNumbered (err e, c) k h keep = h

module _ {V : Type 0} where
  found_or-IsNumbered :
      (found : Option (Message V × List (Message V))) (wire : Op V (Message V))
      (c : ControlClient V)
      → IsNumbered c
      → IsNumbered (wire c).1
      → IsNumbered (found_or found wire c).1
  found_or-IsNumbered none wire c h k = k
  found_or-IsNumbered (some (m, rest)) wire c h k = h

  send_dap_request-IsNumbered :
      (command : Text) (arguments : Option V) (c : ControlClient V)
      → IsNumbered c
      → HasRoom c
      → IsNumbered (send_dap_request command arguments c).1
  unfolding send_dap_request
  send_dap_request-IsNumbered command arguments c h room =
      continue_with-IsNumbered _ (λ sent. pure c.seq)
        (send_within-IsNumbered c.accepts command arguments c h room) (λ a d k. k)

  wait_for_event-IsNumbered :
      (name : Text) (timeout : ℕ) (c : ControlClient V)
      → IsNumbered c
      → IsNumbered (wait_for_event name timeout c).1
  unfolding wait_for_event
  wait_for_event-IsNumbered name timeout c h = elim (Bool-cases (timeout == 0)) [
    | inl e ↦ rw e (found_or-IsNumbered (take_first (event_named name) c.pending) _ c h h)
    | inr e ↦ rw e h
  ]

  drain-IsNumbered :
      (timeout : ℕ) (c : ControlClient V) → IsNumbered c → IsNumbered (drain timeout c).1
  unfolding drain
  drain-IsNumbered timeout c h = elim (Bool-cases (timeout == 0)) [
    | inl e ↦ rw e h
    | inr e ↦ rw e h
  ]

  await_wire-IsNumbered :
      (timed : Bool) (test : Message V → Bool) (c : ControlClient V)
      → IsNumbered c
      → IsNumbered (await_wire timed test c).1
  unfolding await_wire
  await_wire-IsNumbered timed test c h = h

  dap_request-IsNumbered :
      (command : Text) (arguments : Option V) (c : ControlClient V)
      → IsNumbered c
      → HasRoom c
      → IsNumbered (dap_request command arguments c).1
  unfolding dap_request await_roundtrip
  dap_request-IsNumbered command arguments c h room =
      continue_with-IsNumbered (send_dap_request command arguments c) (λ seq. await_roundtrip seq)
        (send_dap_request-IsNumbered command arguments c h room) (λ seq d k. k)

  preserve-IsNumbered :
      (command : Text) (arguments : Option V) (c : ControlClient V)
      → IsNumbered c
      → HasRoom c
      → IsNumbered (dap_request_preserve_events command arguments c).1
  unfolding dap_request_preserve_events
  preserve-IsNumbered command arguments c h room =
      continue_with-IsNumbered (send_dap_request command arguments c)
        (λ seq. await_wire true (response_matches_seq seq))
        (send_dap_request-IsNumbered command arguments c h room)
        (λ seq. await_wire-IsNumbered true (response_matches_seq seq))

  send_and_wait-IsNumbered :
      (command : Text) (arguments : Option V) (name : Text) (c : ControlClient V)
      → IsNumbered c
      → HasRoom c
      → IsNumbered (send_dap_request_and_wait_for_event command arguments name c).1
  unfolding send_dap_request_and_wait_for_event
  send_and_wait-IsNumbered command arguments name c h room =
      continue_with-IsNumbered (send_dap_request command arguments c)
        (λ seq. await_wire true (event_named name) >>= (λ event. pure seq))
        (send_dap_request-IsNumbered command arguments c h room)
        (λ seq d k.
          continue_with-IsNumbered (await_wire true (event_named name) d) (λ event. pure seq)
            (await_wire-IsNumbered true (event_named name) d k) (λ event e l. l))

  module _ (from_value : V → Option (AdapterCapabilities V)) where
    learn-IsNumbered :
        (r : Result (AdapterCapabilities V)) (c : ControlClient V)
        → IsNumbered c
        → IsNumbered (learn from_value r c)
    unfolding set_capabilities
    learn-IsNumbered (ok caps) c h = h
    learn-IsNumbered (err e) c h = h

    absorb_messages-IsNumbered :
        (ms : List (Message V)) (c : ControlClient V)
        → IsNumbered c
        → IsNumbered (absorb_messages from_value c ms)
    unfolding absorb_message buffer_message
    absorb_messages-IsNumbered [] c h = h
    absorb_messages-IsNumbered (m ∷ ms) c h =
        absorb_messages-IsNumbered ms (absorb_message from_value c m)
          (elim (Bool-cases (response_matches_command (codes "initialize") m)) [
            | inl e ↦ rw e (learn-IsNumbered (from_initialize_message from_value m) c h)
            | inr e ↦ rw e h
          ])

module _ {V : Type 0} ⦃J : Json V⦄ where
  navigate_stop-IsNumbered :
      (waits : Bool) (c : ControlClient V) → IsNumbered c → IsNumbered (navigate_stop waits c).1
  unfolding navigate_stop
  navigate_stop-IsNumbered true c h =
      continue_with-IsNumbered (wait_for_event (codes "stopped") 30000 c) (λ m. pure (stop_of m))
        (wait_for_event-IsNumbered (codes "stopped") 30000 c h) (λ m d k. k)
  navigate_stop-IsNumbered false c h =
      continue_with-IsNumbered (drain 200 c) (λ ms. pure (summary_of ms)) (drain-IsNumbered 200 c h)
        (λ ms d k. k)

  navigate-IsNumbered :
      (navigation : NavigationType) (thread_id : ℕ) (c : ControlClient V)
      → IsNumbered c
      → HasRoom c
      → IsNumbered (navigate navigation thread_id c).1
  unfolding navigate
  navigate-IsNumbered navigation thread_id c h room =
      continue_with-IsNumbered
        (dap_request_preserve_events (codes (dap_command navigation))
          (some (navigation_arguments navigation thread_id)) c)
        (λ response.
          navigate_stop (waits_for_stop navigation)
          >>= (λ stop. pure (navigate_result navigation thread_id stop)))
        (preserve-IsNumbered (codes (dap_command navigation))
          (some (navigation_arguments navigation thread_id)) c h room)
        (λ response d k.
          continue_with-IsNumbered (navigate_stop (waits_for_stop navigation) d)
            (λ stop. pure (navigate_result navigation thread_id stop))
            (navigate_stop-IsNumbered (waits_for_stop navigation) d k) (λ stop e l. l))

  request_body-IsNumbered :
      (command : String) (arguments : Option V) (c : ControlClient V)
      → IsNumbered c
      → HasRoom c
      → IsNumbered (request_body command arguments c).1
  unfolding request_body
  request_body-IsNumbered command arguments c h room =
      continue_with-IsNumbered (dap_request (codes command) arguments c)
        (λ message d. (response_body message, d))
        (dap_request-IsNumbered (codes command) arguments c h room) (λ message d k. k)
