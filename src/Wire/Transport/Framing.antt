-- ===== src/Wire/Transport/Framing.antt =====
-- What crates/dap-protocol/src/transport.rs reads of the bytes that it writes.
use dappy_core.Common.{
  Bool-cases, inl, inr, if◌then◌else◌, ltb, zero, sym, ◌<◌, length, none, suc, Option, some, ap,
  ◌∙◌, ℕ, ◌≤◌, ◌≡◌, refl, Bool, true, false, [], ◌∷◌, ◌++◌, arith, ◌==◌, nat_eq, string_eq,
}
use dappy_core.Wire.Message.{io}
use mathlib.Core.List.{append_assoc}
use dappy_core.Wire.Transport.{
  panicked, isize_max, parse_body, failed, io, after_headers, read_body, read, write_message,
  read_message, Codec, read_exact, finished, blank, read_headers, read_line, is_line_end, usize_max,
  content_length, length_header, header_of, line_header,
}
use dappy_core.Common.Text.{trim_end_by, trim, Text, codes}
use dappy_core.Common.Text.Decimal.{
  parse_uint, print_u64, is_digit, print_u64-AllDigits, print_u64-DigitFirst, parse_uint-print_u64,
}
use dappy_core.Common.Text.Utf8.{from_utf8, Bytes, AllAscii, from_utf8-ascii}
use dappy_core.Common.Text.Trimming.{
  Fails, Fails-append, AllAscii-append, AllDigits-Fails, AllDigits-AllAscii, trim_end_by-two,
  trim-digits,
}

-- `b == 10`
abbrev is_feed : ℕ → Bool
is_feed b = b == 10

read_line-append :
    (line rest : Bytes)
    → Fails is_feed line
    → read_line (line ++ 10 ∷ rest) ≡ (line ++ 10 ∷ [], rest)
read_line-append [] rest h = refl
read_line-append (b ∷ line) rest h = ground (arith, read_line-append line rest h.1)

-- The header line of a length, without its end.
abbrev header_text : ℕ → Text
header_text n = codes "Content-Length: " ++ print_u64 n

header_text-Fails :
    (p : ℕ → Bool) (n : ℕ)
    → Fails p (codes "Content-Length: ")
    → ((c : ℕ) → is_digit c ≡ true → p c ≡ false)
    → Fails p (header_text n)
header_text-Fails p n key h =
    Fails-append p (codes "Content-Length: ") (print_u64 n) key
      (AllDigits-Fails p (print_u64 n) h (print_u64-AllDigits n))

header_text-AllAscii : (n : ℕ) → AllAscii (header_text n)
header_text-AllAscii n =
    AllAscii-append (codes "Content-Length: ") (print_u64 n) (omega arith)
      (AllDigits-AllAscii (print_u64 n) (print_u64-AllDigits n))

length_header-eq :
    (line rest : Text) (n : ℕ)
    → parse_uint usize_max (trim rest) ≡ some n
    → length_header line rest ≡ content_length n
unfolding length_header
length_header-eq line rest n e = rw (e, length_header) refl

length_header-digits :
    (line : Text) (n : ℕ) → n ≤ usize_max → length_header line (32 ∷ print_u64 n) ≡ content_length n
length_header-digits line n fits = length_header-eq line (32 ∷ print_u64 n) n (
    ap (parse_uint usize_max)
      (trim-digits (print_u64 n) (print_u64-DigitFirst n) (print_u64-AllDigits n))
    ∙ parse_uint-print_u64 usize_max n fits (omega arith))

header_of-header_text : (n : ℕ) → n ≤ usize_max → header_of (header_text n) ≡ content_length n
unfolding header_of
header_of-header_text n fits = length_header-digits (header_text n) n fits

line_header-eq :
    (line : Bytes) (text trimmed : Text)
    → from_utf8 line ≡ some text
    → trim_end_by is_line_end text ≡ trimmed
    → line_header line ≡ header_of trimmed
unfolding line_header
line_header-eq line text trimmed e h = rw (e, line_header) (ap header_of h)

line_header-header_text :
    (n : ℕ) → n ≤ usize_max → line_header (header_text n ++ 13 ∷ 10 ∷ []) ≡ content_length n
line_header-header_text n fits =
    line_header-eq (header_text n ++ 13 ∷ 10 ∷ []) (header_text n ++ 13 ∷ 10 ∷ []) (header_text n)
      (from_utf8-ascii (header_text n ++ 13 ∷ 10 ∷ [])
        (AllAscii-append (header_text n) (13 ∷ 10 ∷ []) (header_text-AllAscii n) (omega arith)))
      (trim_end_by-two is_line_end (header_text n) 13 10
        (header_text-Fails is_line_end n (ground arith) (λ c h. ground arith)) refl refl)
    ∙ header_of-header_text n fits

module _ (fuel : ℕ) (seen : Option ℕ) (saw_header : Bool) (b : ℕ) (bs line rest : Bytes)
    (split : read_line (b ∷ bs) ≡ (line, rest)) where
  read_headers-length :
      (n : ℕ)
      → line_header line ≡ content_length n
      → read_headers (suc fuel) seen saw_header (b ∷ bs) ≡ read_headers fuel (some n) true rest
  unfolding read_headers
  read_headers-length n h =
      rw (ap line_header (ap (λ (p : Bytes × Bytes). p.0) split) ∙ h, read_headers)
        (ap (λ (p : Bytes × Bytes). read_headers fuel (some n) true p.1) split)

  read_headers-blank :
      line_header line ≡ blank
      → read_headers (suc fuel) seen saw_header (b ∷ bs) ≡ finished seen rest
  unfolding read_headers
  read_headers-blank h =
      rw (ap line_header (ap (λ (p : Bytes × Bytes). p.0) split) ∙ h, read_headers)
        (ap (λ (p : Bytes × Bytes). finished seen p.1) split)

-- The two lines of a header give its length.
read_headers-header_text :
    (fuel n : ℕ) (stream : Bytes)
    → n ≤ usize_max
    → read_headers (suc (suc fuel)) none false (header_text n ++ 13 ∷ 10 ∷ 13 ∷ 10 ∷ stream)
      ≡ finished (some n) stream
unfolding header_of
read_headers-header_text fuel n stream fits =
    let split : read_line (header_text n ++ 13 ∷ 10 ∷ 13 ∷ 10 ∷ stream)
        ≡ (header_text n ++ 13 ∷ 10 ∷ [], 13 ∷ 10 ∷ stream) =
      ap read_line (sym (append_assoc (header_text n) (13 ∷ []) (10 ∷ 13 ∷ 10 ∷ stream)))
      ∙ read_line-append (header_text n ++ 13 ∷ []) (13 ∷ 10 ∷ stream) (
          Fails-append is_feed (header_text n) (13 ∷ [])
            (header_text-Fails is_feed n (ground arith) (λ c h. ground arith)) (refl, tt))
      ∙ ap (λ (l : Bytes). (l, 13 ∷ 10 ∷ stream))
          (append_assoc (header_text n) (13 ∷ []) (10 ∷ [])) in
    read_headers-length (suc fuel) none false 67 _ (header_text n ++ 13 ∷ 10 ∷ [])
      (13 ∷ 10 ∷ stream) split n (line_header-header_text n fits)
    ∙ read_headers-blank fuel (some n) true 13 (10 ∷ stream) (13 ∷ 10 ∷ []) stream refl (
        line_header-eq (13 ∷ 10 ∷ []) (13 ∷ 10 ∷ []) []
          (from_utf8-ascii (13 ∷ 10 ∷ []) (omega arith)) refl)

read_exact-append :
    (body rest : Bytes) → read_exact (length body) (body ++ rest) ≡ some (body, rest)
read_exact-append [] rest = refl
read_exact-append (b ∷ body) rest = rw (read_exact-append body rest) refl

read_exact-short : (n : ℕ) (bs : Bytes) → length bs < n → read_exact n bs ≡ none
read_exact-short zero bs h = absurd (omega arith)
read_exact-short (suc n) [] h = refl
read_exact-short (suc n) (b ∷ bs) h = rw (read_exact-short n bs (omega arith)) refl

module _ {M : Type 0} (codec : Codec M) where
  -- Behind the header of a length comes a body of that length.
  read_message-header_text :
      (n : ℕ) (stream : Bytes)
      → n ≤ usize_max
      → read_message codec (header_text n ++ 13 ∷ 10 ∷ 13 ∷ 10 ∷ stream) ≡ read_body codec n stream
  unfolding read_message after_headers
  read_message-header_text n stream fits = ap (after_headers codec) (
      read_headers-header_text
        (length (codes "ontent-Length: " ++ (print_u64 n ++ 13 ∷ 10 ∷ 13 ∷ 10 ∷ stream))) n stream
        fits)

  announced :
      (n : ℕ) (stream : Bytes)
      → read_body codec n stream ≡ (
          if ltb isize_max n
          then panicked
          else if ltb (length stream) n
          then failed io
          else parse_body codec (read_exact n stream))
  unfolding read_body parse_body
  announced n stream = elim (Bool-cases (ltb (length stream) n)) [
    | inl short ↦ rw (short, read_exact-short n stream (ground arith)) refl
    | inr enough ↦ rw enough refl
  ]

  parse_body-eq :
      (body rest : Bytes) (m : M)
      → codec.from_slice body ≡ some m
      → parse_body codec (some (body, rest)) ≡ read m rest
  unfolding parse_body
  parse_body-eq body rest m serde = rw (serde, parse_body) refl

  read_body-fits :
      (n : ℕ) (stream : Bytes)
      → n ≤ isize_max
      → read_body codec n stream ≡ parse_body codec (read_exact n stream)
  unfolding read_body
  read_body-fits n stream fits = ground arith

  -- Where serde reads what it writes, and a vector can hold the bytes of the message, a message that is
  -- written is read back, and what comes behind it is left.
  pub read_message-write_message :
      (m : M) (rest : Bytes)
      → codec.from_slice (codec.to_vec m) ≡ some m
      → length (codec.to_vec m) ≤ isize_max
      → read_message codec (write_message codec m ++ rest) ≡ read m rest
  unfolding write_message
  read_message-write_message m rest serde fits =
      ap (λ (s : Bytes). read_message codec (codes "Content-Length: " ++ s))
        (append_assoc (print_u64 (length (codec.to_vec m))) (codes "\r\n\r\n" ++ codec.to_vec m)
          rest)
      ∙ read_message-header_text (length (codec.to_vec m)) (codec.to_vec m ++ rest) (omega arith)
      ∙ read_body-fits (length (codec.to_vec m)) (codec.to_vec m ++ rest) fits
      ∙ ap (parse_body codec) (read_exact-append (codec.to_vec m) rest)
      ∙ parse_body-eq (codec.to_vec m) rest m serde

  -- What read_message makes of a header that announces a length of a `usize`: a panic where no vector holds
  -- that many bytes, an error where the stream ends before them, and else what serde makes of them.
  pub read_message-announced :
      (n : ℕ) (stream : Bytes)
      → n ≤ usize_max
      → read_message codec
          (codes "Content-Length: " ++ (print_u64 n ++ (codes "\r\n\r\n" ++ stream)))
        ≡ (if ltb isize_max n
            then panicked
            else if ltb (length stream) n
            then failed io
            else parse_body codec (read_exact n stream))
  unfolding read_body
  read_message-announced n stream fits = read_message-header_text n stream fits ∙ announced n stream
