-- ===== src/Wire/Client/Waiting.antt =====
-- The wait for a response in crates/dap-core/src/mux_bridge.rs, on streams of messages that were written.
use dappy_core.Common.{
  ℕ, zero, suc, ◌≤◌, ◌<◌, ◌≡◌, refl, ◌∙◌, true, false, Option, List, [], ◌∷◌, ◌++◌, arith,
  if◌then◌else◌, nat_eq, string_eq, length,
}
use dappy_core.Common.Text.{Text, codes}
use dappy_core.Common.Text.Decimal.{print_u64}
use dappy_core.Common.Text.Utf8.{Bytes}
use dappy_core.Wire.Message.{Message}
use dappy_core.Wire.Transport.{Codec, read, read_message, write_message}
use dappy_core.Wire.Transport.Framing.{read_message-write_message}
use dappy_core.Wire.Transport.Streams.{write_messages, Writable}
use dappy_core.Wire.Client.{answer, is_response_to, await_response, roundtrip_request}

module _ {V : Type 0} (codec : Codec (Message V)) (seq : ℕ) where
  -- None of the messages is the response.
  abbrev pub NoneAnswers : List (Message V) → Type 0
  NoneAnswers [] = Unit
  NoneAnswers (m ∷ ms) = (is_response_to seq m ≡ false) × NoneAnswers ms

  pub await_response-read :
      (fuel : ℕ) (stream rest : Bytes) (m : Message V)
      → read_message codec stream ≡ read m rest
      → await_response codec (suc fuel) seq stream
        ≡ (if is_response_to seq m then answer m rest else await_response codec fuel seq rest)
  unfolding await_response
  await_response-read fuel stream rest m e = rw (e, await_response) refl

  await_response-write_messages :
      (fuel : ℕ) (before : List (Message V)) (m : Message V) (behind : List (Message V))
      → length before < fuel
      → Writable codec (before ++ m ∷ behind)
      → NoneAnswers before
      → is_response_to seq m ≡ true
      → await_response codec fuel seq (write_messages codec (before ++ m ∷ behind))
        ≡ answer m (write_messages codec behind)
  await_response-write_messages zero before m behind enough w none_before here =
      absurd (omega arith)
  await_response-write_messages (suc fuel) [] m behind enough w none_before here =
      await_response-read fuel _ (write_messages codec behind) m
        (read_message-write_message codec m (write_messages codec behind) w.0 w.1)
      ∙ rw here refl
  await_response-write_messages (suc fuel) (n ∷ before) m behind enough w none_before here =
      await_response-read fuel _ (write_messages codec (before ++ m ∷ behind)) n
        (read_message-write_message codec n (write_messages codec (before ++ m ∷ behind)) w.0 w.1)
      ∙ rw none_before.0
          (await_response-write_messages fuel before m behind (omega arith) w.2 none_before.1 here)

  length-append : (s t : Bytes) → length t ≤ length (s ++ t)
  length-append [] t = omega arith
  length-append (c ∷ s) t = omega (arith, length-append s t)

  pub length-write_message :
      (m : Message V) (rest : Bytes) → length rest < length (write_message codec m ++ rest)
  unfolding write_message
  length-write_message m rest = omega (
    arith,
    length-append (print_u64 (length (codec.to_vec m)) ++ (codes "\r\n\r\n" ++ codec.to_vec m))
        rest,
  )

  length-write_messages :
      (before : List (Message V)) (m : Message V) (behind : List (Message V))
      → length before ≤ length (write_messages codec (before ++ m ∷ behind))
  length-write_messages [] m behind = omega arith
  length-write_messages (n ∷ before) m behind = omega (
    arith,
    length-write_messages before m behind,
    length-write_message n (write_messages codec (before ++ m ∷ behind)),
  )

  -- A request whose response comes, behind any messages that are not it, is answered by the first message
  -- that is, and what comes behind that is left on the stream, where serde reads what it writes and a vector
  -- can hold the bytes of each message.
  pub roundtrip_request-write_messages :
      (command : Text) (arguments : Option V) (before : List (Message V)) (m : Message V)
      (behind : List (Message V))
      → Writable codec (before ++ m ∷ behind)
      → NoneAnswers before
      → is_response_to seq m ≡ true
      → (roundtrip_request codec seq command arguments
          (write_messages codec (before ++ m ∷ behind))).1
        ≡ answer m (write_messages codec behind)
  unfolding roundtrip_request
  roundtrip_request-write_messages command arguments before m behind w none_before here =
      await_response-write_messages (suc (length (write_messages codec (before ++ m ∷ behind))))
        before m behind (omega (arith, length-write_messages before m behind)) w none_before here
