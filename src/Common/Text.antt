-- ===== src/Common/Text.antt =====
-- Text as the list of its code points, and what the program uses of Rust's `str` and of number parsing.
use Prim.Native.Char.{code}
use dappy_core.Common.{
  ℕ, zero, suc, ◌+◌, ◌-◌, ◌*◌, ◌/◌, ◌%◌, ◌^◌, ◌≤◌, ◌<◌, String, ◌≡◌, refl, sym, ap, ◌∙◌, subst, ◌≢◌,
  ◌↔◌, ◌⊎◌, inl, inr, Bool, true, false, not, ◌&&◌, ◌||◌, Option, none, some, List, [], ◌∷◌, ◌++◌,
  map, arith, eq_iff, ltb, leb, if◌then◌else◌, Bool-cases, Eq, ◌==◌, nat_eq, string_eq, ==-refl,
  ==-eq, and_then, unwrap_or, or_else, is_some, Option-cases, is_text, is_true, is_false, length,
  get_elem?, set, remove_at, filter_map, find_map,
}
pub mod Decimal
pub mod Utf8
pub mod Trimming
pub mod Search

-- A `str`: its code points.
abbrev pub Text : Type 0
Text = List ℕ

-- A literal. `String` has its own `[]` and `∷`.
abbrev pub codes : String → Text
codes String.[] = []
codes (String.◌∷◌ c s) = code c ∷ codes s

-- `==`
abbrev pub same_text : Text → Text → Bool
same_text [] [] = true
same_text [] (d ∷ t) = false
same_text (c ∷ s) [] = false
same_text (c ∷ s) (d ∷ t) = c == d && same_text s t

pub same_text_iff : (s t : Text) → (same_text s t ≡ true) ↔ (s ≡ t)
same_text_iff [] [] = ground arith
same_text_iff [] (d ∷ t) = ground arith
same_text_iff (c ∷ s) [] = ground arith
same_text_iff (c ∷ s) (d ∷ t) = ground (arith, same_text_iff s t)

-- `char::is_whitespace`: the property White_Space.
abbrev pub is_whitespace : ℕ → Bool
is_whitespace c =
    (leb 9 c && leb c 13)
    || c == 32
    || c == 133
    || c == 160
    || c == 5760
    || (leb 8192 c && leb c 8202)
    || c == 8232
    || c == 8233
    || c == 8239
    || c == 8287
    || c == 12288

abbrev pub trim_start_by : (ℕ → Bool) → Text → Text
trim_start_by p [] = []
trim_start_by p (c ∷ s) = let rest = trim_start_by p s in if p c then rest else c ∷ s

abbrev pub trim_end_by : (ℕ → Bool) → Text → Text
trim_end_by p [] = []
trim_end_by p (c ∷ s) = elim (trim_end_by p s) [
  | [] ↦ if p c then [] else c ∷ []
  | d ∷ t ↦ c ∷ d ∷ t
]

-- `trim`
abbrev pub trim : Text → Text
trim s = trim_end_by is_whitespace (trim_start_by is_whitespace s)

-- `strip_prefix`
abbrev pub strip_prefix : Text → Text → Option Text
strip_prefix s [] = some s
strip_prefix [] (d ∷ p) = none
strip_prefix (c ∷ s) (d ∷ p) = let rest = strip_prefix s p in if c == d then rest else none

pub strip_prefix-append : (p s : Text) → strip_prefix (p ++ s) p ≡ some s
strip_prefix-append [] s = refl
strip_prefix-append (c ∷ p) s = ground (arith, strip_prefix-append p s)

pub strip_prefix-eq_some : (s p t : Text) → strip_prefix s p ≡ some t → s ≡ p ++ t
strip_prefix-eq_some s [] t h = ground arith
strip_prefix-eq_some [] (d ∷ p) t h = cc
strip_prefix-eq_some (c ∷ s) (d ∷ p) t h = ground (arith, strip_prefix-eq_some s p t)
