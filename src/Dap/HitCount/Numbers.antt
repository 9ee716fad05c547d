-- ===== src/Dap/HitCount/Numbers.antt =====
-- What the hit conditions of crates/dap-core/src/stop_policy.rs test, for every operator and number.
use dappy_core.Common.{
  ℕ, zero, suc, ◌%◌, ◌≤◌, ◌≡◌, refl, ap, ◌∙◌, ◌||◌, Option, [], ◌∷◌, ◌++◌, arith, ltb, leb,
  if◌then◌else◌, ◌==◌, nat_eq, string_eq, unwrap_or,
}
use dappy_core.Common.Text.{Text, codes, trim, is_whitespace}
use dappy_core.Common.Text.Decimal.{
  parse_uint, print_u64, DigitFirst, print_u64-AllDigits, print_u64-DigitFirst,
  parse_uint-print_u64,
}
use dappy_core.Common.Text.Trimming.{Fails, AllDigits-Fails, trim_end_by-Fails}
use dappy_core.Dap.HitCount.{
  u32_max, number_or, HitCondition, at_least, at_most, above, below, every, plain, read_condition,
  condition_holds, hit_count_matches, trimmed_matches,
}

-- A text without white space is left by `trim`.
trim-Fails : (s : Text) → Fails is_whitespace s → trim s ≡ s
trim-Fails [] h = refl
trim-Fails (c ∷ s) h = rw h.0 (trim_end_by-Fails is_whitespace (c ∷ s) h)

digits-Fails : (n : ℕ) → Fails is_whitespace (print_u64 n)
digits-Fails n =
    AllDigits-Fails is_whitespace (print_u64 n) (λ c h. ground arith) (print_u64-AllDigits n)

number_or-print_u64 : (n default : ℕ) → n ≤ u32_max → number_or default (print_u64 n) ≡ n
number_or-print_u64 n default fits =
    ap (λ (t : Text). unwrap_or (parse_uint u32_max t) default)
      (trim-Fails (print_u64 n) (digits-Fails n))
    ∙ ap (λ (o : Option ℕ). unwrap_or o default) (parse_uint-print_u64 u32_max n fits (omega arith))

hit_count_matches-trimmed :
    (c : ℕ) (s : Text) (count : ℕ)
    → Fails is_whitespace (c ∷ s)
    → hit_count_matches (c ∷ s) count ≡ condition_holds (read_condition (c ∷ s)) count
unfolding hit_count_matches
hit_count_matches-trimmed c s count h =
    ap (λ (t : Text). trimmed_matches t count) (trim-Fails (c ∷ s) h)

-- The operators, before a text that begins with a digit.
digits_plain : (s : Text) → DigitFirst s → read_condition s ≡ plain s
unfolding read_condition
digits_plain [] h = absurd h
digits_plain (c ∷ s) h = ground arith

digits_at_least : (s : Text) → read_condition (62 ∷ 61 ∷ s) ≡ at_least s
unfolding read_condition
digits_at_least s = refl

digits_at_most : (s : Text) → read_condition (60 ∷ 61 ∷ s) ≡ at_most s
unfolding read_condition
digits_at_most s = refl

digits_every : (s : Text) → read_condition (37 ∷ s) ≡ every s
unfolding read_condition
digits_every s = refl

digits_above : (s : Text) → DigitFirst s → read_condition (62 ∷ s) ≡ above s
unfolding read_condition
digits_above [] h = absurd h
digits_above (c ∷ s) h = ground arith

digits_below : (s : Text) → DigitFirst s → read_condition (60 ∷ s) ≡ below s
unfolding read_condition
digits_below [] h = absurd h
digits_below (c ∷ s) h = ground arith

every_test : (n count : ℕ) → (count % (if n == 0 then 1 else n) == 0) ≡ (n == 0 || count % n == 0)
every_test zero count = ground arith
every_test (suc n) count = ground arith

module _ (n count : ℕ) (fits : n ≤ u32_max) where
  -- The condition that is made of an operator and a number, on one line.
  matches :
      (c : ℕ) (s : Text) (condition : HitCondition)
      → Fails is_whitespace (c ∷ s)
      → read_condition (c ∷ s) ≡ condition
      → hit_count_matches (c ∷ s) count ≡ condition_holds condition count
  matches c s condition h e =
      hit_count_matches-trimmed c s count h ∙ ap (λ (x : HitCondition). condition_holds x count) e

  plain_matches :
      (s : Text)
      → DigitFirst s
      → Fails is_whitespace s
      → hit_count_matches s count ≡ condition_holds (plain s) count
  plain_matches [] first h = absurd first
  plain_matches (c ∷ s) first h = matches c s (plain (c ∷ s)) h (digits_plain (c ∷ s) first)

  -- A condition of an operator and a number of 32 bits is the test that it says, `%` by a number
  -- that is not zero the test for a multiple, `%0` holds always, and a number alone is a lower
  -- bound.
  pub hit_count_matches-print_u64 :
      (hit_count_matches (codes ">=" ++ print_u64 n) count ≡ leb n count)
      × (hit_count_matches (codes "<=" ++ print_u64 n) count ≡ leb count n)
      × (hit_count_matches (codes ">" ++ print_u64 n) count ≡ ltb n count)
      × (hit_count_matches (codes "<" ++ print_u64 n) count ≡ ltb count n)
      × (hit_count_matches (codes "%" ++ print_u64 n) count ≡ (n == 0 || count % n == 0))
      × (hit_count_matches (print_u64 n) count ≡ leb n count)
  unfolding condition_holds
  hit_count_matches-print_u64 =
      let number = λ (d : ℕ). number_or-print_u64 n d fits in
      let first = print_u64-DigitFirst n in
      let clean = digits-Fails n in
      (
        matches 62 (61 ∷ print_u64 n) (at_least (print_u64 n)) (refl, (refl, clean))
              (digits_at_least (print_u64 n))
            ∙ ap (λ (m : ℕ). leb m count) (number 0),
        matches 60 (61 ∷ print_u64 n) (at_most (print_u64 n)) (refl, (refl, clean))
              (digits_at_most (print_u64 n))
            ∙ ap (λ (m : ℕ). leb count m) (number 0),
        matches 62 (print_u64 n) (above (print_u64 n)) (refl, clean)
              (digits_above (print_u64 n) first)
            ∙ ap (λ (m : ℕ). ltb m count) (number 0),
        matches 60 (print_u64 n) (below (print_u64 n)) (refl, clean)
              (digits_below (print_u64 n) first)
            ∙ ap (λ (m : ℕ). ltb count m) (number 0),
        matches 37 (print_u64 n) (every (print_u64 n)) (refl, clean) (digits_every (print_u64 n))
            ∙ ap (λ (m : ℕ). count % (if m == 0 then 1 else m) == 0) (number 1)
            ∙ every_test n count,
        plain_matches (print_u64 n) first clean
            ∙ ap (λ (o : Option ℕ). leb (unwrap_or o 1) count)
                (parse_uint-print_u64 u32_max n fits (omega arith)),
      )
