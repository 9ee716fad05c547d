-- ===== src/Dap/HitCount.antt =====
-- The hit conditions of crates/dap-core/src/stop_policy.rs (`hit_count_matches`).
use dappy_core.Common.{
  ℕ, zero, suc, ◌+◌, ◌-◌, ◌*◌, ◌/◌, ◌%◌, ◌^◌, ◌≤◌, ◌<◌, String, ◌≡◌, refl, sym, ap, ◌∙◌, subst, ◌≢◌,
  ◌↔◌, ◌⊎◌, inl, inr, Bool, true, false, not, ◌&&◌, ◌||◌, Option, none, some, List, [], ◌∷◌, ◌++◌,
  map, arith, eq_iff, ltb, leb, if◌then◌else◌, Bool-cases, Eq, ◌==◌, nat_eq, string_eq, ==-refl,
  ==-eq, and_then, unwrap_or, or_else, is_some, Option-cases, is_text, is_true, is_false, length,
  get_elem?, set, remove_at, filter_map, find_map,
}
use dappy_core.Common.Text.{Text, codes, trim, strip_prefix}
use dappy_core.Common.Text.Decimal.{parse_uint}
pub mod Numbers

-- `u32::MAX`
abbrev pub u32_max : ℕ
u32_max = 2 ^ 32 - 1

-- `rest.trim().parse().unwrap_or(default)`
abbrev pub number_or : ℕ → Text → ℕ
number_or default rest = unwrap_or (parse_uint u32_max (trim rest)) default

-- The operator of a condition, with what follows it.
pub data HitCondition : Type 0 where
  at_least at_most above below every plain : Text → HitCondition

abbrev or_condition : Option HitCondition → HitCondition → HitCondition
or_condition none c = c
or_condition (some c) d = c

abbrev prefixed : Text → String → (Text → HitCondition) → Option HitCondition
prefixed trimmed operator condition = elim (strip_prefix trimmed (codes operator)) [
  | none ↦ none
  | some rest ↦ some (condition rest)
]

-- The tests for a prefix, in their order.
unfoldable pub read_condition : Text → HitCondition
read_condition trimmed = or_condition (prefixed trimmed ">=" at_least) (
    or_condition (prefixed trimmed "<=" at_most) (
      or_condition (prefixed trimmed ">" above) (
        or_condition (prefixed trimmed "<" below)
          (or_condition (prefixed trimmed "%" every) (plain trimmed)))))

unfoldable pub condition_holds : HitCondition → ℕ → Bool
condition_holds (at_least rest) count = leb (number_or 0 rest) count
condition_holds (at_most rest) count = leb count (number_or 0 rest)
condition_holds (above rest) count = ltb (number_or 0 rest) count
condition_holds (below rest) count = ltb count (number_or 0 rest)
condition_holds (every rest) count =
    let modulus = number_or 1 rest in count % (if modulus == 0 then 1 else modulus) == 0
condition_holds (plain trimmed) count = leb (unwrap_or (parse_uint u32_max trimmed) 1) count

abbrev pub trimmed_matches : Text → ℕ → Bool
trimmed_matches [] count = true
trimmed_matches (c ∷ s) count = condition_holds (read_condition (c ∷ s)) count

unfoldable pub hit_count_matches : Text → ℕ → Bool
unfolding condition_holds read_condition
hit_count_matches condition count = trimmed_matches (trim condition) count
