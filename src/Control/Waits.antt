-- ===== src/Control/Waits.antt =====
-- crates/dap-core/src/control_client.rs: the waits for a response or an event. What is not awaited stays in
-- the buffer.
use dappy_core.Common.{
  ℕ, Bool, false, Option, none, some, List, [], ◌∷◌, ◌++◌, if◌then◌else◌, ◌==◌, nat_eq, string_eq,
  and_then,
}
use dappy_core.Common.Text.{Text, same_text}
use dappy_core.Wire.Message.{Message, request_message, response_message, event_message}
use dappy_core.Control.Channel.{
  Arrival, arrives, late, torn, yields, fails, channel_closed, timed_out, transport, Result, ok,
  err, Op,
}

abbrev pub names : Text → Option Text → Bool
names command none = false
names command (some c) = same_text c command

module _ {V : Type 0} where
  abbrev pub response_matches_seq : ℕ → Message V → Bool
  response_matches_seq seq (response_message r) = r.request_seq == seq
  response_matches_seq seq (request_message r) = false
  response_matches_seq seq (event_message e) = false

  abbrev pub response_matches_command : Text → Message V → Bool
  response_matches_command command (response_message r) = names command r.command
  response_matches_command command (request_message r) = false
  response_matches_command command (event_message e) = false

  abbrev pub event_named : Text → Message V → Bool
  event_named name (event_message e) = same_text e.event name
  event_named name (request_message r) = false
  event_named name (response_message r) = false

  -- `position` and `remove`.
  abbrev pub take_first :
      (Message V → Bool) → List (Message V) → Option (Message V × List (Message V))
  take_first test [] = none
  take_first test (m ∷ ms) =
      let rest = and_then (take_first test ms) (λ found. some (found.0, m ∷ found.1)) in
      if test m then some (m, ms) else rest

  -- The loop of the waits: messages that are not awaited are buffered. `timed` is whether a timer runs over
  -- it.
  unfoldable pub read_until :
      Bool
      → (Message V → Bool)
      → List (Arrival V)
      → List (Message V)
      → Result (Message V) × List (Message V) × List (Arrival V)
  read_until timed test [] pending = (err channel_closed, pending, [])
  read_until timed test (arrives m ∷ more) pending =
      let later = read_until timed test more (pending ++ m ∷ []) in
      if test m then (ok m, pending, more) else later
  read_until timed test (late ∷ more) pending =
      let waited = read_until timed test more pending in
      if timed then (err timed_out, pending, more) else waited
  read_until timed test (torn count reads ∷ more) pending =
      let waited = read_until timed test more pending in
      if timed then (err timed_out, pending, yields count reads) else waited
  read_until timed test (fails e ∷ more) pending = (err (transport e), pending, more)

  unfoldable pub await_wire : Bool → (Message V → Bool) → Op V (Message V)
  unfolding read_until
  await_wire timed test c =
      let (r, pending, incoming) = read_until timed test c.incoming c.pending in
      (r, record c { pending = pending; incoming = incoming })

  abbrev pub found_or : Option (Message V × List (Message V)) → Op V (Message V) → Op V (Message V)
  found_or none wire c = wire c
  found_or (some (m, rest)) wire c = (ok m, record c { pending = rest })

  unfoldable pub wait_for_response_seq : ℕ → Op V (Message V)
  unfolding await_wire
  wait_for_response_seq seq c =
      found_or (take_first (response_matches_seq seq) c.pending)
        (await_wire false (response_matches_seq seq)) c

  unfoldable pub wait_for_response_named : Text → Op V (Message V)
  unfolding await_wire
  wait_for_response_named command c =
      found_or (take_first (response_matches_command command) c.pending)
        (await_wire false (response_matches_command command)) c

  -- What each turn of `wait_for_event` does before it reads: a search of the buffer.
  abbrev pub searched :
      Option (Message V × List (Message V))
      → List (Arrival V)
      → Result (Message V) × List (Message V) × List (Arrival V)
      → Result (Message V) × List (Message V) × List (Arrival V)
  searched none incoming wire = wire
  searched (some (m, rest)) incoming wire = (ok m, rest, incoming)

  unfoldable pub event_loop :
      (Message V → Bool)
      → List (Arrival V)
      → List (Message V)
      → Result (Message V) × List (Message V) × List (Arrival V)
  event_loop test [] pending = searched (take_first test pending) [] (err timed_out, pending, [])
  event_loop test (arrives m ∷ more) pending =
      let later = event_loop test more (pending ++ m ∷ []) in
      searched (take_first test pending) (arrives m ∷ more)
        (if test m then (ok m, pending, more) else later)
  event_loop test (late ∷ more) pending =
      searched (take_first test pending) (late ∷ more) (err timed_out, pending, more)
  event_loop test (torn count reads ∷ more) pending =
      searched (take_first test pending) (torn count reads ∷ more)
        (err timed_out, pending, yields count reads)
  event_loop test (fails e ∷ more) pending =
      searched (take_first test pending) (fails e ∷ more) (err (transport e), pending, more)

  -- With a timeout of nothing only the buffer is searched.
  unfoldable pub wait_for_event : Text → ℕ → Op V (Message V)
  unfolding event_loop
  wait_for_event name timeout c =
      let (r, pending, incoming) = event_loop (event_named name) c.incoming c.pending in
      if timeout == 0
      then found_or (take_first (event_named name) c.pending) (λ d. (err timed_out, d)) c
      else (r, record c { pending = pending; incoming = incoming })
