-- ===== src/Wire/Client.antt =====
-- crates/dap-core/src/mux_bridge.rs (`roundtrip_request`): a request over the framing of Wire.Transport, and
-- the wait for its response. The other side of the stream is the bytes that it will send.
use dappy_core.Common.{
  ℕ, zero, suc, ◌+◌, ◌-◌, ◌*◌, ◌/◌, ◌%◌, ◌^◌, ◌≤◌, ◌<◌, String, ◌≡◌, refl, sym, ap, ◌∙◌, subst, ◌≢◌,
  ◌↔◌, ◌⊎◌, inl, inr, Bool, true, false, not, ◌&&◌, ◌||◌, Option, none, some, List, [], ◌∷◌, ◌++◌,
  map, arith, eq_iff, ltb, leb, if◌then◌else◌, Bool-cases, Eq, ◌==◌, nat_eq, string_eq, ==-refl,
  ==-eq, and_then, unwrap_or, or_else, is_some, Option-cases, is_text, is_true, is_false, length,
  get_elem?, set, remove_at, filter_map, find_map,
}
use dappy_core.Common.Text.{Text}
use dappy_core.Common.Text.Utf8.{Bytes}
use dappy_core.Wire.Message.{
  Request, Response, Event, Message, request_message, response_message, event_message,
  ProtocolError,
}
use dappy_core.Wire.Transport.{
  Codec, ReadResult, read, end_of_stream, failed, panicked, read_message, write_message,
}
pub mod Waiting

-- How the wait ends: with the response and what is left of the stream, or without one.
pub data Answer (V : Type 0) : Type 0 where
  answer : Message V → Bytes → Answer V
  closed : Answer V
  broken : ProtocolError → Answer V
  panics : Answer V
  out_of_fuel : Answer V

module _ {V : Type 0} where
  -- `response.request_seq == seq`
  abbrev pub is_response_to : ℕ → Message V → Bool
  is_response_to seq (response_message r) = r.request_seq == seq
  is_response_to seq (request_message r) = false
  is_response_to seq (event_message e) = false

  module _ (codec : Codec (Message V)) where
    -- The loop over the messages that come. The fuel is a number of messages.
    unfoldable pub await_response : ℕ → ℕ → Bytes → Answer V
    await_response zero seq stream = out_of_fuel
    await_response (suc fuel) seq stream = elim (read_message codec stream) [
      | read m rest ↦
          let later = await_response fuel seq rest in
          if is_response_to seq m then answer m rest else later
      | end_of_stream ↦ closed
      | failed e ↦ broken e
      | panicked ↦ panics
    ]

    -- What is written, and the answer. A message takes a byte at least, so the fuel is one more than the
    -- bytes that come.
    unfoldable pub roundtrip_request : ℕ → Text → Option V → Bytes → Bytes × Answer V
    unfolding await_response
    roundtrip_request seq command arguments stream = (
      write_message codec
          (request_message (record { seq = seq; command = command; arguments = arguments })),
      await_response (suc (length stream)) seq stream,
    )
