-- ===== src/Wire/Message.antt =====
-- crates/dap-protocol/src/message.rs and error.rs. `V` is the type of JSON values. What serde makes of a
-- message is a parameter of the framing, not of this file.
use dappy_core.Common.{ℕ, Bool, Option, nat_eq, string_eq}
use dappy_core.Common.Text.{Text}

pub record Request (V : Type 0) : Type 0 where
  pub seq : ℕ
  pub command : Text
  pub arguments : Option V

pub record Response (V : Type 0) : Type 0 where
  pub seq : ℕ
  pub request_seq : ℕ
  pub success : Bool
  pub command : Option Text
  pub message : Option Text
  pub body : Option V

pub record Event (V : Type 0) : Type 0 where
  pub seq : ℕ
  pub event : Text
  pub body : Option V

pub data Message (V : Type 0) : Type 0 where
  request_message : Request V → Message V
  response_message : Response V → Message V
  event_message : Event V → Message V

-- The errors without the texts of the libraries: a header that is not one, bytes that are no message, and
-- a stream that ends early or is no text.
pub data ProtocolError : Type 0 where
  invalid_header : Text → ProtocolError
  json io : ProtocolError
