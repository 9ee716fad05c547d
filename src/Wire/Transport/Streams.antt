-- ===== src/Wire/Transport/Streams.antt =====
-- Whole streams of crates/dap-protocol/src/transport.rs: messages one after the other, and the end.
use dappy_core.Common.{
  ℕ, zero, suc, ◌≤◌, ◌<◌, ◌≡◌, refl, ◌≢◌, ◌↔◌, Bool, true, false, Option, none, some, List, [], ◌∷◌,
  ◌++◌, arith, nat_eq, string_eq, length,
}
use dappy_core.Common.Text.Utf8.{Bytes}
use dappy_core.Wire.Message.{ProtocolError}
use dappy_core.Wire.Transport.{
  Codec, read, end_of_stream, Headers, blank, content_length, bad, line_header, read_line, finished,
  at_end, refused, out_of_fuel, read_headers, read_body, after_headers, read_message, write_message,
  isize_max,
}
use dappy_core.Wire.Transport.Framing.{read_message-write_message}

-- A line takes what it gives from the stream.
length-read_line : (b : ℕ) (bs : Bytes) → length (read_line (b ∷ bs)).1 < length (b ∷ bs)
length-read_line b [] = ground arith
length-read_line b (c ∷ bs) = ground (arith, length-read_line c bs)

-- What holds of each way to go on from a line holds of the loop.
read_headers-cases :
    (P : Headers → Type 0) (fuel : ℕ) (seen : Option ℕ) (saw_header : Bool) (b : ℕ) (bs : Bytes)
    → P (finished seen (read_line (b ∷ bs)).1)
    → ((n : ℕ) → P (read_headers fuel (some n) true (read_line (b ∷ bs)).1))
    → ((e : ProtocolError) → P (refused e))
    → P (read_headers (suc fuel) seen saw_header (b ∷ bs))
unfolding read_headers
read_headers-cases P fuel seen saw_header b bs end more wrong =
    elim (line_header (read_line (b ∷ bs)).0)
      as (λ h. P (elim h [
        | blank ↦ finished seen (read_line (b ∷ bs)).1
        | content_length n ↦ read_headers fuel (some n) true (read_line (b ∷ bs)).1
        | bad e ↦ refused e
      ])) [ blank ↦ end | content_length n ↦ more n | bad e ↦ wrong e ]

-- The loop over the lines ends: fuel above the bytes there are does not run out.
pub read_headers_enough :
    (fuel : ℕ) (seen : Option ℕ) (saw_header : Bool) (stream : Bytes)
    → length stream < fuel
    → read_headers fuel seen saw_header stream ≢ out_of_fuel
unfolding read_headers
read_headers_enough zero seen saw_header stream h = absurd (omega arith)
read_headers_enough (suc fuel) seen true [] h = λ e. cc
read_headers_enough (suc fuel) seen false [] h = λ e. cc
read_headers_enough (suc fuel) seen saw_header (b ∷ bs) h =
    let less : length (read_line (b ∷ bs)).1 < fuel = omega (arith, length-read_line b bs) in
    read_headers-cases (λ r. r ≢ out_of_fuel) fuel seen saw_header b bs (λ e. cc)
      (λ n. read_headers_enough fuel (some n) true (read_line (b ∷ bs)).1 less) (λ x e. cc)

-- The end of the stream is no clean end once a header was seen.
read_headers-seen :
    (fuel : ℕ) (seen : Option ℕ) (stream : Bytes) → read_headers fuel seen true stream ≢ at_end
unfolding read_headers
read_headers-seen zero seen stream = λ e. cc
read_headers-seen (suc fuel) seen [] = λ e. cc
read_headers-seen (suc fuel) seen (b ∷ bs) =
    read_headers-cases (λ r. r ≢ at_end) fuel seen true b bs (λ e. cc)
      (λ n. read_headers-seen fuel (some n) (read_line (b ∷ bs)).1) (λ x e. cc)

read_headers-at_end :
    (fuel : ℕ) (b : ℕ) (bs : Bytes) → read_headers (suc fuel) none false (b ∷ bs) ≢ at_end
read_headers-at_end fuel b bs =
    read_headers-cases (λ r. r ≢ at_end) fuel none false b bs (λ e. cc)
      (λ n. read_headers-seen fuel (some n) (read_line (b ∷ bs)).1) (λ x e. cc)

module _ {M : Type 0} (codec : Codec M) where
  read_body-not_end : (n : ℕ) (stream : Bytes) → read_body codec n stream ≢ end_of_stream
  unfolding read_body
  read_body-not_end n stream = ground arith

  after_headers-end : (h : Headers) → after_headers codec h ≡ end_of_stream → h ≡ at_end
  unfolding after_headers
  after_headers-end (finished none rest) e = cc
  after_headers-end (finished (some n) rest) e = absurd (read_body-not_end n rest e)
  after_headers-end at_end e = refl
  after_headers-end (refused x) e = cc
  after_headers-end out_of_fuel e = cc

  -- A stream ends cleanly exactly when there is not one byte left.
  pub read_message-end :
      (stream : Bytes) → (read_message codec stream ≡ end_of_stream) ↔ (stream ≡ [])
  unfolding read_message
  read_message-end [] = (λ e. refl, λ e. refl)
  read_message-end (b ∷ bs) =
      (λ e. absurd (read_headers-at_end (length (b ∷ bs)) b bs (after_headers-end _ e)), λ e. cc)

  -- The messages of a stream, in their order, and the clean end behind them.
  abbrev pub Reads : Bytes → List M → Type 0
  Reads stream [] = read_message codec stream ≡ end_of_stream
  Reads stream (m ∷ ms) = (rest : Bytes) × (read_message codec stream ≡ read m rest) × Reads rest ms

  -- What a writer puts on the stream.
  abbrev pub write_messages : List M → Bytes
  write_messages [] = []
  write_messages (m ∷ ms) = write_message codec m ++ write_messages ms

  -- serde reads what it writes, and a vector can hold the bytes of each message.
  abbrev pub Writable : List M → Type 0
  Writable [] = Unit
  Writable (m ∷ ms) =
      (codec.from_slice (codec.to_vec m) ≡ some m)
      × (length (codec.to_vec m) ≤ isize_max)
      × Writable ms

  -- Messages written one after the other are read back one by one, in the order of the writes, and
  -- then the stream ends cleanly, where serde reads what it writes and a vector can hold the bytes
  -- of each message.
  pub write_messages-Reads : (ms : List M) → Writable ms → Reads (write_messages ms) ms
  write_messages-Reads [] w = (read_message-end []).1 refl
  write_messages-Reads (m ∷ ms) w = (
    write_messages ms,
    read_message-write_message codec m (write_messages ms) w.0 w.1,
    write_messages-Reads ms w.2,
  )
