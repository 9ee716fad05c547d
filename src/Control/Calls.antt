-- ===== src/Control/Calls.antt =====
-- crates/dap-core/src/control_client.rs: a request that is sent, and what is awaited for it.
use dappy_core.Common.{
  ℕ, zero, suc, Bool, true, Option, List, [], ◌∷◌, ◌++◌, if◌then◌else◌, nat_eq, string_eq,
}
use dappy_core.Common.Text.{Text}
use dappy_core.Wire.Message.{Message, request_message, io}
use dappy_core.Control.Channel.{
  Arrival, arrives, late, torn, yields, fails, channel_closed, timed_out, transport, Result, ok,
  err, Op, ◌>>=◌, pure,
}
use dappy_core.Control.Waits.{response_matches_seq, event_named, await_wire}
use dappy_core.Mux.Session.{next_i64}

module _ {V : Type 0} where
  abbrev pub send_within : ℕ → Message V → Op V (Unit {0})
  send_within zero m c = (err (transport io), c)
  send_within (suc n) m c = (ok tt, record c { accepts = n; written = c.written ++ m ∷ [] })

  unfoldable pub send : Message V → Op V (Unit {0})
  send m c = send_within c.accepts m c

  abbrev pub request_of : ℕ → Text → Option V → Message V
  request_of seq command arguments =
      request_message (record { seq = seq; command = command; arguments = arguments })

  -- `self.seq += 1` on an i64, as its bit pattern: behind 2 ^ 63 - 1 it wraps in a build for release, as here,
  -- and panics in one for debugging.
  unfoldable pub send_dap_request : Text → Option V → Op V ℕ
  unfolding send
  send_dap_request command arguments c =
      (send (request_of c.seq command arguments) >>= (λ sent. pure c.seq))
        (record c { seq = next_i64 c.seq })

  -- Also the wait for the event that `send_dap_request_and_wait_for_event` times.
  unfoldable pub send_dap_request_and_wait_for_event : Text → Option V → Text → Op V ℕ
  unfolding send_dap_request await_wire
  send_dap_request_and_wait_for_event command arguments event_name = do
    seq ← send_dap_request command arguments
    event ← await_wire true (event_named event_name)
    pure seq

  -- The loop of `roundtrip_request` under the timer of `dap_request`: what is not the response is dropped.
  unfoldable pub roundtrip :
      (Message V → Bool) → List (Arrival V) → Result (Message V) × List (Arrival V)
  roundtrip test [] = (err channel_closed, [])
  roundtrip test (arrives m ∷ more) =
      let later = roundtrip test more in if test m then (ok m, more) else later
  roundtrip test (late ∷ more) = (err timed_out, more)
  roundtrip test (torn count reads ∷ more) = (err timed_out, yields count reads)
  roundtrip test (fails e ∷ more) = (err (transport e), more)

  unfoldable pub await_roundtrip : ℕ → Op V (Message V)
  unfolding roundtrip
  await_roundtrip seq c =
      let (r, incoming) = roundtrip (response_matches_seq seq) c.incoming in
      (r, record c { incoming = incoming })

  unfoldable pub dap_request : Text → Option V → Op V (Message V)
  unfolding send_dap_request await_roundtrip
  dap_request command arguments = do seq ← send_dap_request command arguments; await_roundtrip seq

  unfoldable pub dap_request_preserve_events : Text → Option V → Op V (Message V)
  unfolding send_dap_request await_wire
  dap_request_preserve_events command arguments = do
    seq ← send_dap_request command arguments
    await_wire true (response_matches_seq seq)
