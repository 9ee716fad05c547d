-- ===== src/Common/Text/Decimal.antt =====
-- `parse` of an unsigned integer, and its `Display`.
use dappy_core.Common.{
  ◌∙◌, inr, arith, inl, ap, ◌^◌, true, ◌<◌, ◌≡◌, ◌≤◌, Bool-cases, ℕ, zero, suc, ◌+◌, ◌-◌, ◌*◌, ◌/◌,
  ◌%◌, Bool, not, ◌&&◌, Option, none, some, [], ◌∷◌, ltb, leb, if◌then◌else◌, ◌==◌, nat_eq,
  string_eq,
}
use dappy_core.Common.Text.{Text}
use mathlib.Core.Path.{refl}

abbrev pub is_digit : ℕ → Bool
is_digit c = leb 48 c && leb c 57

-- The digits behind the number so far; none where a character is no digit or the number grows past `max`.
abbrev pub scan : ℕ → Text → ℕ → Option ℕ
scan max [] n = some n
scan max (c ∷ s) n =
    let m = n * 10 + (c - 48) in
    let rest = scan max s m in if not (is_digit c) then none else if ltb max m then none else rest

-- A sign that is followed by more.
abbrev pub skip_plus : Text → Text
skip_plus [] = []
skip_plus (c ∷ []) = c ∷ []
skip_plus (c ∷ d ∷ s) = if c == 43 then d ∷ s else c ∷ d ∷ s

abbrev scan_all : ℕ → Text → Option ℕ
scan_all max [] = none
scan_all max (c ∷ s) = scan max (c ∷ s) 0

-- `parse::<uN>()`, with the greatest value of the type.
unfoldable pub parse_uint : ℕ → Text → Option ℕ
parse_uint max s = scan_all max (skip_plus s)

-- The digits of a number in front of a text. The fuel is a number of digits.
abbrev pub digits : ℕ → ℕ → Text → Text
digits zero n out = out
digits (suc f) n out =
    let more = digits f (n / 10) ((48 + n % 10) ∷ out) in if ltb n 10 then (48 + n) ∷ out else more

-- `Display` of a 64-bit number, which has twenty digits at most.
unfoldable pub print_u64 : ℕ → Text
print_u64 n = digits 20 n []

abbrev pub pow10 : ℕ → ℕ
pow10 zero = 1
pow10 (suc f) = 10 * pow10 f

-- Reading the last digit of `n` behind the digits before it gives `n`.
scan_last :
    (max n : ℕ) (out : Text) → n ≤ max → scan max ((48 + n % 10) ∷ out) (n / 10) ≡ scan max out n
scan_last max n out h = ground arith

scan-digits :
    (max f n : ℕ) (out : Text)
    → n < pow10 f
    → n ≤ max
    → scan max (digits f n out) 0 ≡ scan max out n
scan-digits max zero n out small fits = ap (scan max out) (omega arith)
scan-digits max (suc f) n out small fits =
    ground (arith, scan-digits max f (n / 10) ((48 + n % 10) ∷ out), scan_last max n out)

abbrev pub DigitFirst : Text → Type 0
DigitFirst [] = ⊥
DigitFirst (c ∷ s) = is_digit c ≡ true

digits-DigitFirst : (f n : ℕ) (out : Text) → DigitFirst out → DigitFirst (digits f n out)
digits-DigitFirst zero n out h = h
digits-DigitFirst (suc f) n out h = elim (Bool-cases (ltb n 10)) [
  | inl small ↦ rw small (ground arith)
  | inr large ↦ rw large (digits-DigitFirst f (n / 10) ((48 + n % 10) ∷ out) (ground arith))
]

pub print_u64-DigitFirst : (n : ℕ) → DigitFirst (print_u64 n)
unfolding print_u64
print_u64-DigitFirst n = elim (Bool-cases (ltb n 10)) [
  | inl small ↦ rw small (ground arith)
  | inr large ↦ rw large (digits-DigitFirst 19 (n / 10) ((48 + n % 10) ∷ []) (ground arith))
]

parse_uint-scan : (max : ℕ) (s : Text) → DigitFirst s → parse_uint max s ≡ scan max s 0
unfolding parse_uint
parse_uint-scan max [] h = absurd h
parse_uint-scan max (c ∷ []) h = refl
parse_uint-scan max (c ∷ d ∷ s) h = ground arith

-- A number that fits is read back from its print.
pub parse_uint-print_u64 :
    (max n : ℕ) → n ≤ max → n < 2 ^ 64 → parse_uint max (print_u64 n) ≡ some n
unfolding print_u64
parse_uint-print_u64 max n fits small =
    parse_uint-scan max (print_u64 n) (print_u64-DigitFirst n)
    ∙ scan-digits max 20 n [] (omega arith) fits

-- Every character of the print is a digit.
abbrev pub AllDigits : Text → Type 0
AllDigits [] = Unit
AllDigits (c ∷ s) = (is_digit c ≡ true) × AllDigits s

digits-AllDigits : (f n : ℕ) (out : Text) → AllDigits out → AllDigits (digits f n out)
digits-AllDigits zero n out h = h
digits-AllDigits (suc f) n out h = elim (Bool-cases (ltb n 10)) [
  | inl small ↦ rw small (ground arith, h)
  | inr large ↦ rw large (digits-AllDigits f (n / 10) ((48 + n % 10) ∷ out) (ground arith, h))
]

pub print_u64-AllDigits : (n : ℕ) → AllDigits (print_u64 n)
unfolding print_u64
print_u64-AllDigits n = digits-AllDigits 20 n [] tt
