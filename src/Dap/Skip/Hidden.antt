-- ===== src/Dap/Skip/Hidden.antt =====
-- The frames that crates/dap-core/src/stack_filter.rs hides.
use dappy_core.Common.{
  ◌≡◌, refl, ap, ◌≢◌, ◌↔◌, ◌⊎◌, inl, inr, Bool, true, false, List, [], ◌∷◌, ◌++◌, arith, Bool-cases,
  nat_eq, string_eq,
}
use dappy_core.Common.Text.{Text}
use dappy_core.Common.Text.Search.{has}
use dappy_core.Dap.Skip.{
  star, path_matches_skip, default_hidden_stack_patterns, any_matches, smart_step_should_skip,
  is_empty,
}
use dappy_core.Dap.Skip.Glob.{path_matches_skip-plain_iff}

-- One of the texts stands somewhere in the path.
abbrev pub Within : Text → List Text → Type 0
Within path [] = ⊥
Within path (p ∷ ps) =
    ((skip : Text) × (rest : Text) × (path ≡ skip ++ (p ++ rest))) ⊎ Within path ps

-- Patterns that are not empty and have no star.
abbrev ArePlain : List Text → Type 0
ArePlain [] = Unit
ArePlain (p ∷ ps) = (is_empty p ≡ false) × (has star p ≡ false) × ArePlain ps

any_matches-Within :
    (path : Text) (ps : List Text) → ArePlain ps → any_matches path ps ≡ true → Within path ps
any_matches-Within path [] h m = cc
any_matches-Within path (p ∷ ps) h m = elim (Bool-cases (path_matches_skip path p)) [
  | inl e ↦
      let (ne, skip, rest, there) = (path_matches_skip-plain_iff path p h.1).0 e in
      inl (skip, rest, there)
  | inr e ↦ inr (any_matches-Within path ps h.2 (ground arith))
]

Within-any_matches :
    (path : Text) (ps : List Text) → ArePlain ps → Within path ps → any_matches path ps ≡ true
Within-any_matches path [] h w = absurd w
Within-any_matches path (p ∷ ps) h (inl (skip, rest, there)) =
    let ne : p ≢ [] = λ none_left. cc (ap is_empty none_left) in
    rw ((path_matches_skip-plain_iff path p h.1).1 (ne, skip, rest, there)) refl
Within-any_matches path (p ∷ ps) h (inr w) = ground (arith, Within-any_matches path ps h.2 w)

defaults-ArePlain : ArePlain default_hidden_stack_patterns
defaults-ArePlain = (
  refl,
  refl,
  (refl, refl, (refl, refl, (refl, refl, (refl, refl, (refl, refl, (refl, refl, tt)))))),
)

-- A step is continued without a stop exactly when smart steps are on and one of the hidden texts stands
-- somewhere in the path of the frame.
pub smart_step_should_skip_iff :
    (path : Text) (enabled : Bool)
    → (smart_step_should_skip path enabled ≡ true)
      ↔ ((enabled ≡ true) × Within path default_hidden_stack_patterns)
unfolding smart_step_should_skip
smart_step_should_skip_iff path false = (λ e. cc, λ w. w.0)
smart_step_should_skip_iff path true = (
  λ e. (refl, any_matches-Within path default_hidden_stack_patterns defaults-ArePlain e),
  λ w. Within-any_matches path default_hidden_stack_patterns defaults-ArePlain w.1,
)
