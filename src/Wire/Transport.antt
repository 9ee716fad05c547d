-- ===== src/Wire/Transport.antt =====
-- crates/dap-protocol/src/transport.rs. A stream is the bytes that are still to come, and a read returns
-- those that it leaves. serde_json is a parameter: the bytes of a message, and the message of bytes.
use dappy_core.Common.{
  ℕ, zero, suc, ◌+◌, ◌-◌, ◌*◌, ◌/◌, ◌%◌, ◌^◌, ◌≤◌, ◌<◌, String, ◌≡◌, refl, sym, ap, ◌∙◌, subst, ◌≢◌,
  ◌↔◌, ◌⊎◌, inl, inr, Bool, true, false, not, ◌&&◌, ◌||◌, Option, none, some, List, [], ◌∷◌, ◌++◌,
  map, arith, eq_iff, ltb, leb, if◌then◌else◌, Bool-cases, Eq, ◌==◌, nat_eq, string_eq, ==-refl,
  ==-eq, and_then, unwrap_or, or_else, is_some, Option-cases, is_text, is_true, is_false, length,
  get_elem?, set, remove_at, filter_map, find_map,
}
use dappy_core.Common.Text.{Text, codes, trim, trim_end_by, strip_prefix}
use dappy_core.Common.Text.Decimal.{parse_uint, print_u64}
use dappy_core.Common.Text.Utf8.{Bytes, from_utf8}
use dappy_core.Wire.Message.{ProtocolError, invalid_header, json, io}
pub mod Framing
pub mod Streams

-- `serde_json::to_vec` and `serde_json::from_slice`.
pub record Codec (M : Type 0) : Type 0 where
  pub to_vec : M → Bytes
  pub from_slice : Bytes → Option M

-- The answer of `read_message`: a message, a clean end, an error, or the panic of a vector that is asked to
-- hold more than it can.
pub data ReadResult (M : Type 0) : Type 0 where
  read : M → Bytes → ReadResult M
  end_of_stream : ReadResult M
  failed : ProtocolError → ReadResult M
  panicked : ReadResult M

-- `read_line`: the bytes up to the next line feed with it, or all that are left.
abbrev pub read_line : Bytes → Bytes × Bytes
read_line [] = ([], [])
read_line (b ∷ bs) =
    let (line, rest) = read_line bs in if b == 10 then (b ∷ [], bs) else (b ∷ line, rest)

-- `['\r', '\n']`
abbrev pub is_line_end : ℕ → Bool
is_line_end c = c == 13 || c == 10

-- `usize::MAX`
abbrev pub usize_max : ℕ
usize_max = 2 ^ 64 - 1

-- `isize::MAX`, the most bytes that a vector holds.
abbrev pub isize_max : ℕ
isize_max = 2 ^ 63 - 1

abbrev pub content_length_key : Text
content_length_key = codes "Content-Length:"

-- What a line says: the end of the header, a length, or nothing that is known.
pub data Header : Type 0 where
  blank : Header
  content_length : ℕ → Header
  bad : ProtocolError → Header

unfoldable pub length_header : Text → Text → Header
length_header trimmed rest = elim (parse_uint usize_max (trim rest)) [
  | none ↦ bad (invalid_header (codes "bad Content-Length: " ++ trimmed))
  | some n ↦ content_length n
]

unfoldable pub header_of : Text → Header
unfolding length_header
header_of [] = blank
header_of (c ∷ s) = elim (strip_prefix (c ∷ s) content_length_key) [
  | none ↦ bad (invalid_header (c ∷ s))
  | some rest ↦ length_header (c ∷ s) rest
]

-- The header of a line as it is read; a line that is no text is an error of `read_line`.
unfoldable pub line_header : Bytes → Header
unfolding header_of
line_header line = elim (from_utf8 line) [
  | none ↦ bad io
  | some text ↦ header_of (trim_end_by is_line_end text)
]

-- How the loop over the lines ends.
pub data Headers : Type 0 where
  finished : Option ℕ → Bytes → Headers
  at_end : Headers
  refused : ProtocolError → Headers
  out_of_fuel : Headers

abbrev pub eof : Bool → Headers
eof saw_header = if saw_header then refused (invalid_header (codes "unexpected eof")) else at_end

-- The loop, with `content_length` and `saw_header`. The fuel is a number of lines.
unfoldable pub read_headers : ℕ → Option ℕ → Bool → Bytes → Headers
read_headers zero length saw_header stream = out_of_fuel
read_headers (suc fuel) length saw_header [] = eof saw_header
read_headers (suc fuel) length saw_header (b ∷ bs) = elim (line_header (read_line (b ∷ bs)).0) [
  | blank ↦ finished length (read_line (b ∷ bs)).1
  | content_length n ↦ read_headers fuel (some n) true (read_line (b ∷ bs)).1
  | bad e ↦ refused e
]

-- `read_exact` into a buffer of the length.
abbrev pub read_exact : ℕ → Bytes → Option (Bytes × Bytes)
read_exact zero bs = some ([], bs)
read_exact (suc n) [] = none
read_exact (suc n) (b ∷ bs) = elim (read_exact n bs) [
  | none ↦ none
  | some (body, rest) ↦ some (b ∷ body, rest)
]

module _ {M : Type 0} (codec : Codec M) where
  unfoldable pub parse_body : Option (Bytes × Bytes) → ReadResult M
  parse_body none = failed io
  parse_body (some (body, rest)) = elim (codec.from_slice body) [
    | none ↦ failed json
    | some m ↦ read m rest
  ]

  -- A buffer of the length is made before a byte of the body is read.
  unfoldable pub read_body : ℕ → Bytes → ReadResult M
  unfolding parse_body
  read_body n stream = if ltb isize_max n then panicked else parse_body (read_exact n stream)

  unfoldable pub after_headers : Headers → ReadResult M
  unfolding read_body
  after_headers (finished none rest) = failed (invalid_header (codes "missing Content-Length"))
  after_headers (finished (some n) rest) = read_body n rest
  after_headers at_end = end_of_stream
  after_headers (refused e) = failed e
  after_headers out_of_fuel = failed io

  -- A line takes a byte at least, so the fuel is one more than the bytes there are.
  unfoldable pub read_message : Bytes → ReadResult M
  unfolding after_headers read_headers line_header
  read_message stream = after_headers (read_headers (suc (length stream)) none false stream)

  -- The bytes that are written. The writes themselves cannot fail on a stream of bytes.
  unfoldable pub write_message : M → Bytes
  write_message m =
      let body = codec.to_vec m in
      codes "Content-Length: " ++ (print_u64 (length body) ++ (codes "\r\n\r\n" ++ body))
