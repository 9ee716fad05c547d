-- ===== src/Wire/Examples.antt =====
-- The framing of crates/dap-protocol/src/transport.rs at a codec that stands in for serde_json.
use dappy_core.Wire.Message.{response_message, event_message, Message, request_message, io}
use dappy_core.Common.{
  true, ◌++◌, ltb, ℕ, ◌≡◌, refl, ◌≢◌, false, Option, none, some, [], ◌∷◌, arith, if◌then◌else◌,
  ◌==◌, nat_eq, string_eq,
}
use dappy_core.Wire.Client.{roundtrip_request}
use dappy_core.Wire.Transport.{
  isize_max, panicked, parse_body, read_exact, Codec, failed, read_message, write_message,
  read_headers, out_of_fuel,
}
use dappy_core.Common.Text.{codes}
use dappy_core.Common.Text.Decimal.{print_u64}
use dappy_core.Common.Text.Utf8.{Bytes}
use dappy_core.Wire.Transport.Framing.{read_message-announced}
use dappy_core.Wire.Transport.Streams.{
  read_headers_enough, Reads, write_messages, write_messages-Reads,
}
use dappy_core.Control.Bytes.{answer_on, left_by, roundtrip_request-roundtrip}
use dappy_core.Control.Calls.{roundtrip}
use dappy_core.Control.Waits.{response_matches_seq}
use dappy_core.Control.Inbox.{ahead_of}

abbrev pause : Message ℕ
pause = request_message (record { seq = 3; command = codes "pause"; arguments = none })

abbrev go : Message ℕ
go = request_message (record { seq = 4; command = codes "next"; arguments = none })

-- The response to the request 4.
abbrev done : Message ℕ
done = response_message (record {
  seq = 5;
  request_seq = 4;
  success = true;
  command = none;
  message = none;
  body = none;
})

abbrev from_bytes : Bytes → Option (Message ℕ)
from_bytes [] = none
from_bytes (b ∷ bs) =
    if b == 3 then some pause else if b == 4 then some go else if b == 5 then some done else none

-- A byte for the number of a request, then two more.
abbrev two_requests : Codec (Message ℕ)
two_requests = record {
  to_vec = λ m. elim m [
    | request_message r ↦ r.seq ∷ 123 ∷ 125 ∷ []
    | response_message r ↦ r.seq ∷ 123 ∷ 125 ∷ []
    | event_message e ↦ e.seq ∷ []
  ];
  from_slice = from_bytes;
}

write_pause :
    write_message two_requests pause ≡ codes "Content-Length: 3\r\n\r\n" ++ 3 ∷ 123 ∷ 125 ∷ []
unfolding write_message print_u64
write_pause = refl

read_message-announced_example :
    read_message two_requests
      (codes "Content-Length: " ++ (print_u64 3 ++ (codes "\r\n\r\n" ++ 3 ∷ 123 ∷ [])))
    ≡ (if ltb isize_max 3
        then panicked
        else if ltb 2 3
        then failed io
        else parse_body two_requests (read_exact 3 (3 ∷ 123 ∷ [])))
read_message-announced_example = read_message-announced two_requests 3 (3 ∷ 123 ∷ []) (omega arith)

read_headers_enough_example : read_headers 4 none false (66 ∷ 10 ∷ 13 ∷ []) ≢ out_of_fuel
read_headers_enough_example = read_headers_enough 4 none false (66 ∷ 10 ∷ 13 ∷ []) (omega arith)

write_messages-Reads_example :
    Reads two_requests (write_messages two_requests (pause ∷ go ∷ [])) (pause ∷ go ∷ [])
write_messages-Reads_example =
    write_messages-Reads two_requests (pause ∷ go ∷ []) (refl, omega arith, (refl, omega arith, tt))

roundtrip_request-roundtrip_example :
    (roundtrip_request two_requests 4
      (codes "next")
      none
      (write_messages two_requests (pause ∷ done ∷ go ∷ []))).1
    ≡ answer_on two_requests
        (roundtrip (response_matches_seq 4) (ahead_of (pause ∷ done ∷ go ∷ []) [])).0
        (left_by 4 (pause ∷ done ∷ go ∷ []))
roundtrip_request-roundtrip_example =
    roundtrip_request-roundtrip two_requests 4 (codes "next") none (pause ∷ done ∷ go ∷ [])
      (refl, omega arith, (refl, omega arith, (refl, omega arith, tt)))
