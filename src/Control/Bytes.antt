-- ===== src/Control/Bytes.antt =====
-- The wait of `roundtrip_request` in crates/dap-core/src/mux_bridge.rs over a stream of bytes, and over the
-- messages that the other side has written on it.
use dappy_core.Common.{
  ℕ, zero, suc, ◌≤◌, ◌<◌, ◌≡◌, refl, ◌∙◌, inl, inr, Option, List, [], ◌∷◌, arith, if◌then◌else◌,
  Bool-cases, nat_eq, string_eq, length,
}
use dappy_core.Common.Text.{Text}
use dappy_core.Wire.Message.{Message}
use dappy_core.Wire.Transport.{Codec, end_of_stream, read_message}
use dappy_core.Wire.Transport.Framing.{read_message-write_message}
use dappy_core.Wire.Transport.Streams.{read_message-end, write_messages, Writable}
use dappy_core.Wire.Client.{
  Answer, answer, closed, is_response_to, await_response, roundtrip_request,
}
use dappy_core.Wire.Client.Waiting.{await_response-read, length-write_message}
use dappy_core.Control.Channel.{Result, ok, err}
use dappy_core.Control.Waits.{response_matches_seq}
use dappy_core.Control.Calls.{roundtrip}
use dappy_core.Control.Inbox.{ahead_of}

module _ {V : Type 0} where
  -- The answer on a stream, where the messages that it leaves are given.
  abbrev pub answer_on : Codec (Message V) → Result (Message V) → List (Message V) → Answer V
  answer_on codec (ok m) left = answer m (write_messages codec left)
  answer_on codec (err e) left = closed

  -- What is left behind the first message that answers the request.
  abbrev pub left_by : ℕ → List (Message V) → List (Message V)
  left_by seq [] = []
  left_by seq (m ∷ ms) = if is_response_to seq m then ms else left_by seq ms

  module _ (codec : Codec (Message V)) (seq : ℕ) where
    await_response-end :
        (fuel : ℕ)
        → read_message codec [] ≡ end_of_stream
        → await_response codec (suc fuel) seq [] ≡ closed
    unfolding await_response
    await_response-end fuel e = rw (e, await_response) refl

    await_response-roundtrip :
        (fuel : ℕ) (ms : List (Message V))
        → length ms < fuel
        → Writable codec ms
        → await_response codec fuel seq (write_messages codec ms)
          ≡ answer_on codec
              (roundtrip (response_matches_seq seq) (ahead_of ms [])).0
              (left_by seq ms)
    unfolding roundtrip
    await_response-roundtrip zero ms enough w = absurd (omega arith)
    await_response-roundtrip (suc fuel) [] enough w =
        await_response-end fuel ((read_message-end codec []).1 refl)
    await_response-roundtrip (suc fuel) (m ∷ ms) enough w =
        await_response-read codec seq fuel _ (write_messages codec ms) m
          (read_message-write_message codec m (write_messages codec ms) w.0 w.1)
        ∙ elim (Bool-cases (is_response_to seq m)) [
          | inl e ↦ rw e refl
          | inr e ↦ rw e (await_response-roundtrip fuel ms (omega arith) w.2)
        ]

    length-written : (ms : List (Message V)) → length ms ≤ length (write_messages codec ms)
    length-written [] = omega arith
    length-written (m ∷ ms) =
        omega (arith, length-written ms, length-write_message codec seq m (write_messages codec ms))

    -- On a stream on which the other side has written messages and then closed it, roundtrip_request is answered
    -- as the loop over those messages is: by the first that is the response, with the bytes of all that come
    -- behind it left on the stream, or by the end of the stream where none is; serde reads what it writes and
    -- a vector can hold the bytes of each message.
    pub roundtrip_request-roundtrip :
        (command : Text) (arguments : Option V) (ms : List (Message V))
        → Writable codec ms
        → (roundtrip_request codec seq command arguments (write_messages codec ms)).1
          ≡ answer_on codec
              (roundtrip (response_matches_seq seq) (ahead_of ms [])).0
              (left_by seq ms)
    unfolding roundtrip_request
    roundtrip_request-roundtrip command arguments ms w =
        await_response-roundtrip (suc (length (write_messages codec ms))) ms
          (omega (arith, length-written ms)) w
