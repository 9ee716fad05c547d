-- ===== src/Dap/SourcePath.antt =====
-- The comparison of source paths in crates/dap-core/src/stop_policy.rs (`source_paths_match`).
use dappy_core.Common.{
  ℕ, ◌≡◌, refl, sym, ◌∙◌, inl, inr, Bool, true, false, ◌||◌, Option, none, some, [], ◌∷◌, ◌++◌,
  arith, if◌then◌else◌, Bool-cases, ◌==◌, nat_eq, string_eq,
}
use mathlib.Core.List.{append_assoc}
use dappy_core.Common.Text.{Text, same_text, same_text_iff, trim_end_by}
use dappy_core.Common.Text.Search.{ends_with, ends_with_iff}
pub mod Endings

-- `path.replace('\\', "/")`
abbrev pub forward_slashes : Text → Text
forward_slashes [] = []
forward_slashes (c ∷ s) = (if c == 92 then 47 else c) ∷ forward_slashes s

abbrev pub is_slash : ℕ → Bool
is_slash c = c == 47

unfoldable pub normalize : Text → Text
normalize path = trim_end_by is_slash (forward_slashes path)

abbrev pub same_base : Option Text → Option Text → Bool
same_base none current = false
same_base (some base) none = false
same_base (some base) (some current) = same_text base current

ends_with_self : (s : Text) → ends_with s s ≡ true
ends_with_self s = (ends_with_iff s s).1 ([], refl)

-- What ends with a slash and a text ends with the text.
ends_with-slash : (s t : Text) → ends_with s (47 ∷ t) ≡ true → ends_with s t ≡ true
ends_with-slash s t h =
    let (skip, e) = (ends_with_iff s (47 ∷ t)).0 h in
    (ends_with_iff s t).1 (skip ++ 47 ∷ [], e ∙ sym (append_assoc skip (47 ∷ []) t))

same_text_comm : (s t : Text) → same_text s t ≡ same_text t s
same_text_comm s t = ground (arith, same_text_iff s t, same_text_iff t s)

same_base_comm : (a b : Option Text) → same_base a b ≡ same_base b a
same_base_comm none none = refl
same_base_comm none (some t) = refl
same_base_comm (some s) none = refl
same_base_comm (some s) (some t) = same_text_comm s t

-- `Path::file_name` of the standard library is an argument.
module _ (file_name : Text → Option Text) where
  -- The tests behind the normal forms.
  unfoldable pub normal_paths_match : Text → Text → Bool
  normal_paths_match stored current =
      if same_text stored current
      then true
      else if ends_with current stored
          || ends_with stored current
          || ends_with current (47 ∷ stored)
          || ends_with stored (47 ∷ current)
      then true
      else same_base (file_name stored) (file_name current)

  unfoldable pub source_paths_match : Text → Text → Bool
  unfolding normal_paths_match normalize
  source_paths_match stored current =
      if same_text stored current
      then true
      else normal_paths_match (normalize stored) (normalize current)

  normal_paths_match_lem :
      (stored current : Text)
      → normal_paths_match stored current ≡ (
          ends_with current stored
          || ends_with stored current
          || same_base (file_name stored) (file_name current))
  unfolding normal_paths_match
  normal_paths_match_lem stored current = ground (
    arith,
    same_text_iff stored current,
    ends_with_self stored,
    ends_with-slash current stored,
    ends_with-slash stored current,
  )

  -- The tests at a slash decide nothing.
  pub source_paths_match_lem :
      (stored current : Text)
      → source_paths_match stored current ≡ (
          ends_with (normalize current) (normalize stored)
          || ends_with (normalize stored) (normalize current)
          || same_base (file_name (normalize stored)) (file_name (normalize current)))
  unfolding source_paths_match
  source_paths_match_lem stored current = elim (Bool-cases (same_text stored current)) [
    | inl e ↦
        let same : stored ≡ current = (same_text_iff stored current).0 e in
        rw e (rw same (rw (ends_with_self (normalize current)) refl))
    | inr e ↦ rw e (normal_paths_match_lem (normalize stored) (normalize current))
  ]

  -- It does not matter which of two paths is the stored one.
  pub source_paths_match_comm :
      (stored current : Text)
      → source_paths_match stored current ≡ source_paths_match current stored
  source_paths_match_comm stored current = ground (
    arith,
    source_paths_match_lem stored current,
    source_paths_match_lem current stored,
    same_base_comm (file_name (normalize stored)) (file_name (normalize current)),
  )
