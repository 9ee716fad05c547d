-- ===== src/Mux/Message.antt =====
-- crates/protocol-mux/src/message.rs: accessors and builders of DAP envelopes.
use dappy_core.Common.{
  ℕ, String, Bool, true, false, Option, none, some, is_text, and_then, or_else, unwrap_or,
  if◌then◌else◌,
}
use dappy_core.Json.{Json}
pub mod Laws

pub data MessageKind : Type 0 where
  request_kind response_kind event_kind unknown_kind : MessageKind

-- The `match` on the text of `type`.
abbrev kind_of_text : Option String → MessageKind
kind_of_text t =
    if is_text t "request"
    then request_kind
    else if is_text t "response"
    then response_kind
    else if is_text t "event"
    then event_kind
    else unknown_kind

module _ {V : Type 0} ⦃J : Json V⦄ where
  unfoldable pub message_kind : V → MessageKind
  message_kind v = kind_of_text (and_then (J.get v "type") J.as_str)

  unfoldable pub seq : V → Option ℕ
  seq v = and_then (J.get v "seq") J.as_i64

  unfoldable pub set_seq : V → ℕ → V
  set_seq v n = if J.is_object v then J.insert v "seq" (J.number n) else v

  unfoldable pub request_seq : V → Option ℕ
  request_seq v = and_then (or_else (J.get v "requestSeq") (J.get v "request_seq")) J.as_i64

  unfoldable pub set_request_seq : V → ℕ → V
  set_request_seq v n =
      if J.is_object v then J.insert (J.remove v "requestSeq") "request_seq" (J.number n) else v

  unfoldable pub command : V → Option String
  command v = and_then (J.get v "command") J.as_str

  unfoldable pub event_name : V → Option String
  event_name v = and_then (J.get v "event") J.as_str

  -- `get_mut("arguments").and_then(Value::as_object_mut)`, read only.
  abbrev pub object_at : V → String → Option V
  object_at v key = and_then (J.get v key) (λ x. if J.is_object x then some x else none)

  -- `args["requestId"] = json!(id)`, seen from the request that holds `args`.
  unfoldable pub put_request_id : V → V → ℕ → V
  put_request_id v args id = J.insert v "arguments" (J.insert args "requestId" (J.number id))

  -- The id is written back as it was read, so the changed value is a result too.
  unfoldable pub cancel_request_id : V → V × Option ℕ
  cancel_request_id v =
      if is_text (command v) "cancel"
      then elim (object_at v "arguments") [
        | none ↦ (v, none)
        | some args ↦ elim (and_then (J.get args "requestId") J.as_i64) [
          | none ↦ (v, none)
          | some current ↦ (put_request_id v args current, J.as_i64 (J.number current))
        ]
      ]
      else (v, none)

  unfoldable pub set_cancel_request_id : V → ℕ → V × Bool
  set_cancel_request_id v request_id =
      if is_text (command v) "cancel"
      then elim (object_at v "arguments") [
        | none ↦ (v, false)
        | some args ↦ (put_request_id v args request_id, true)
      ]
      else (v, false)

  unfoldable pub request : ℕ → String → Option V → V
  request seq_no name arguments =
      J.insert
        (J.insert (J.insert (J.insert J.empty "type" (J.text "request")) "seq" (J.number seq_no))
          "command" (J.text name))
        "arguments" (unwrap_or arguments J.empty)

  unfoldable pub response : ℕ → ℕ → Bool → Option V → V
  response seq_no request_seq_no success body =
      J.insert
        (J.insert
          (J.insert (J.insert (J.insert J.empty "type" (J.text "response")) "seq" (J.number seq_no))
            "request_seq" (J.number request_seq_no))
          "success" (J.bool success))
        "body" (unwrap_or body J.null)

  unfoldable pub event : ℕ → String → Option V → V
  event seq_no name body =
      J.insert
        (J.insert (J.insert (J.insert J.empty "type" (J.text "event")) "seq" (J.number seq_no))
          "event" (J.text name))
        "body" (unwrap_or body J.empty)
