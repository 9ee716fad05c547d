-- ===== src/Control/Drain.antt =====
-- crates/dap-core/src/control_client.rs: the messages that are taken as they come, and the replay that a
-- client reads when it joins; from crates/dap-core/src/capabilities.rs what the replay says of the adapter.
-- What serde makes of a body of capabilities is a parameter.
use dappy_core.Common.{
  ℕ, Option, none, some, List, [], ◌∷◌, ◌++◌, if◌then◌else◌, ◌==◌, nat_eq, string_eq,
}
use dappy_core.Common.Text.{codes}
use dappy_core.Wire.Message.{Message, request_message, response_message, event_message}
use dappy_core.Control.Channel.{
  Arrival, arrives, late, torn, yields, fails, not_a_response, missing_body, bad_capabilities,
  transport, Result, ok, err, AdapterCapabilities, ControlClient, Op, ◌>>=◌, from_duplex,
  set_capabilities, buffer_message,
}
use dappy_core.Control.Waits.{response_matches_command}

module _ {V : Type 0} where
  -- Messages up to the first silence or the end of the channel. An error loses those that are read.
  unfoldable pub drain_while :
      List (Arrival V) → List (Message V) → Result (List (Message V)) × List (Arrival V)
  drain_while [] messages = (ok messages, [])
  drain_while (arrives m ∷ more) messages = drain_while more (messages ++ m ∷ [])
  drain_while (late ∷ more) messages = (ok messages, more)
  drain_while (torn count reads ∷ more) messages = (ok messages, yields count reads)
  drain_while (fails e ∷ more) messages = (err (transport e), more)

  -- The longer wait for one more message, and those that follow it, end at the same things as the first
  -- loop.
  unfoldable pub drain_late :
      Result (List (Message V)) × List (Arrival V) → Result (List (Message V)) × List (Arrival V)
  unfolding drain_while
  drain_late (ok messages, incoming) = drain_while incoming messages
  drain_late (err e, incoming) = (err e, incoming)

  -- The timeout is in milliseconds.
  unfoldable pub drain : ℕ → Op V (List (Message V))
  unfolding drain_while drain_late
  drain timeout c =
      let (r, incoming) = drain_late (drain_while c.incoming c.pending) in
      if timeout == 0
      then (ok c.pending, record c { pending = [] })
      else (r, record c { pending = []; incoming = incoming })

  module _ (from_value : V → Option (AdapterCapabilities V)) where
    unfoldable pub from_json : V → Result (AdapterCapabilities V)
    from_json value = elim (from_value value) [
      | none ↦ err bad_capabilities
      | some caps ↦ ok (record caps { raw = some value })
    ]

    abbrev pub from_body : Option V → Result (AdapterCapabilities V)
    from_body none = err missing_body
    from_body (some body) = from_json body

    unfoldable pub from_initialize_message : Message V → Result (AdapterCapabilities V)
    unfolding from_json
    from_initialize_message (response_message r) = from_body r.body
    from_initialize_message (request_message r) = err not_a_response
    from_initialize_message (event_message e) = err not_a_response

    abbrev pub learn : Result (AdapterCapabilities V) → ControlClient V → ControlClient V
    learn (ok caps) c = set_capabilities caps c
    learn (err e) c = c

    -- The body of the loop over what was replayed.
    unfoldable pub absorb_message : ControlClient V → Message V → ControlClient V
    unfolding from_initialize_message set_capabilities buffer_message
    absorb_message c m =
        let learned = learn (from_initialize_message m) c in
        buffer_message m (if response_matches_command (codes "initialize") m then learned else c)

    abbrev pub absorb_messages : ControlClient V → List (Message V) → ControlClient V
    absorb_messages c [] = c
    absorb_messages c (m ∷ ms) = absorb_messages (absorb_message c m) ms

    unfoldable pub absorb_late_join_replay : Op V (Unit {0})
    unfolding drain absorb_message
    absorb_late_join_replay = do messages ← drain 200; λ c. (ok tt, absorb_messages c messages)

    -- Behind the connection, whose errors are not modelled.
    unfoldable pub connect : List (Arrival V) → ℕ → Result (Unit {0}) × ControlClient V
    unfolding absorb_late_join_replay from_duplex
    connect incoming accepts = absorb_late_join_replay (from_duplex incoming accepts)
