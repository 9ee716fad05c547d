-- ===== src/Dap/Skip.antt =====
-- The skip patterns of crates/dap-core/src/stop_policy.rs (`path_matches_skip`), and stack_filter.rs.
use dappy_core.Common.{
  ℕ, zero, suc, ◌+◌, ◌-◌, ◌*◌, ◌/◌, ◌%◌, ◌^◌, ◌≤◌, ◌<◌, String, ◌≡◌, refl, sym, ap, ◌∙◌, subst, ◌≢◌,
  ◌↔◌, ◌⊎◌, inl, inr, Bool, true, false, not, ◌&&◌, ◌||◌, Option, none, some, List, [], ◌∷◌, ◌++◌,
  map, arith, eq_iff, ltb, leb, if◌then◌else◌, Bool-cases, Eq, ◌==◌, nat_eq, string_eq, ==-refl,
  ==-eq, and_then, unwrap_or, or_else, is_some, Option-cases, is_text, is_true, is_false, length,
  get_elem?, set, remove_at, filter_map, find_map,
}
use dappy_core.Common.Text.{Text, codes, strip_prefix}
use dappy_core.Common.Text.Search.{after_first, contains, ends_with, has, split}
pub mod Walk
pub mod Glob
pub mod Hidden

abbrev pub is_empty : Text → Bool
is_empty [] = true
is_empty (c ∷ s) = false

-- The parts of a pattern from the second on. The last one ends the path.
abbrev pub later_parts : Text → List Text → Bool
later_parts cursor [] = true
later_parts cursor (part ∷ []) = is_empty part || ends_with cursor part
later_parts cursor (part ∷ next ∷ parts) = elim part [
  | [] ↦ later_parts cursor (next ∷ parts)
  | c ∷ p ↦ elim (after_first cursor (c ∷ p)) [
    | none ↦ false
    | some rest ↦ later_parts rest (next ∷ parts)
  ]
]

-- The first part begins the path.
abbrev pub all_parts : Text → List Text → Bool
all_parts path [] = true
all_parts path (part ∷ parts) = elim (strip_prefix path part) [
  | none ↦ false
  | some rest ↦ later_parts rest parts
]

-- `*`
abbrev pub star : ℕ
star = 42

unfoldable pub path_matches_skip : Text → Text → Bool
unfolding split
path_matches_skip path pattern =
    if is_empty pattern
    then false
    else if has star pattern
    then all_parts path (split star pattern)
    else contains path pattern

abbrev pub default_hidden_stack_patterns : List Text
default_hidden_stack_patterns =
    codes "site-packages"
    ∷ codes "runpy.py"
    ∷ codes "/runpy"
    ∷ codes "_run_code"
    ∷ codes "/rustc/"
    ∷ codes "/target/deps/"
    ∷ codes "debugpy/"
    ∷ []

-- `iter().any(..)`
abbrev pub any_matches : Text → List Text → Bool
any_matches path [] = false
any_matches path (p ∷ ps) = path_matches_skip path p || any_matches path ps

unfoldable pub is_hidden_stack_frame : Text → Bool → Bool
unfolding path_matches_skip
is_hidden_stack_frame path full =
    if full then false else any_matches path default_hidden_stack_patterns

unfoldable pub smart_step_should_skip : Text → Bool → Bool
unfolding is_hidden_stack_frame
smart_step_should_skip path enabled = enabled && is_hidden_stack_frame path false
