-- ===== src/Dap/SourcePath/Endings.antt =====
-- What `source_paths_match` of crates/dap-core/src/stop_policy.rs decides, said without its helpers.
use dappy_core.Common.{
  ℕ, zero, suc, ◌≡◌, refl, sym, ap, ◌∙◌, ◌≢◌, ◌↔◌, ◌⊎◌, inl, inr, Bool, true, false, ◌||◌, Option,
  none, some, [], ◌∷◌, ◌++◌, Bool-cases, ◌==◌, nat_eq, string_eq, ==-eq,
}
use dappy_core.Common.Text.{Text, same_text_iff, trim_end_by}
use dappy_core.Common.Text.Search.{ends_with, ends_with_iff}
use dappy_core.Dap.SourcePath.{
  forward_slashes, is_slash, normalize, same_base, source_paths_match, source_paths_match_lem,
}

-- A text, and the same with slashes for its backslashes.
pub data Slashed : Text → Text → Type 0 where
  nothing_left : Slashed [] []
  backslash : {s t : Text} → Slashed s t → Slashed (92 ∷ s) (47 ∷ t)
  other : {c : ℕ} {s t : Text} → c ≢ 92 → Slashed s t → Slashed (c ∷ s) (c ∷ t)

abbrev pub trailing_slashes : ℕ → Text
trailing_slashes zero = []
trailing_slashes (suc k) = 47 ∷ trailing_slashes k

-- The normal form of a path: slashes for backslashes, and none of them at its end.
pub record IsNormalOf (path n : Text) : Type 0 where
  pub slashed : Text
  pub replaced : Slashed path slashed
  pub cut : ℕ
  pub whole : slashed ≡ n ++ trailing_slashes cut
  pub no_slash : (s : Text) → n ≢ s ++ 47 ∷ []

abbrev head_or : Text → ℕ
head_or [] = 0
head_or (c ∷ s) = c

abbrev tail_of : Text → Text
tail_of [] = []
tail_of (c ∷ s) = s

-- A text with another character at its end does not end with a slash.
pub ends_otherwise : (t : Text) (c : ℕ) → c ≢ 47 → (s : Text) → t ++ c ∷ [] ≢ s ++ 47 ∷ []
ends_otherwise [] c apart [] e = apart (ap (λ (x : Text). head_or x) e)
ends_otherwise [] c apart (d ∷ []) e = cc
ends_otherwise [] c apart (d ∷ f ∷ s) e = cc
ends_otherwise (d ∷ []) c apart [] e = cc
ends_otherwise (d ∷ f ∷ t) c apart [] e = cc
ends_otherwise (d ∷ t) c apart (f ∷ s) e = ends_otherwise t c apart s (ap tail_of e)

forward_slashes-Slashed : {s t : Text} → Slashed s t → forward_slashes s ≡ t
forward_slashes-Slashed nothing_left = refl
forward_slashes-Slashed (backslash r) = ap (◌∷◌ 47) (forward_slashes-Slashed r)
forward_slashes-Slashed (other {c} apart r) = elim (Bool-cases (c == 92)) [
  | inl e ↦ absurd (apart (==-eq c 92 e))
  | inr e ↦ rw e (ap (◌∷◌ c) (forward_slashes-Slashed r))
]

trim-trailing_slashes : (k : ℕ) → trim_end_by is_slash (trailing_slashes k) ≡ []
trim-trailing_slashes zero = refl
trim-trailing_slashes (suc k) = rw (trim-trailing_slashes k) refl

is_slash_no : (c : ℕ) → c ≢ 47 → is_slash c ≡ false
is_slash_no c apart = elim (Bool-cases (c == 47)) [
  | inl e ↦ absurd (apart (==-eq c 47 e))
  | inr e ↦ e
]

-- The slashes at the end go, and nothing else.
trim-cut :
    (n : Text) (k : ℕ)
    → ((s : Text) → n ≢ s ++ 47 ∷ [])
    → trim_end_by is_slash (n ++ trailing_slashes k) ≡ n
trim-cut [] k h = trim-trailing_slashes k
trim-cut (c ∷ []) k h =
    rw (trim-trailing_slashes k, trim_end_by)
      (rw (is_slash_no c (λ e. h [] (ap (λ x. x ∷ []) e))) refl)
trim-cut (c ∷ d ∷ n) k h =
    rw (trim-cut (d ∷ n) k (λ s e. h (c ∷ s) (ap (◌∷◌ c) e)), trim_end_by) refl

normalize-IsNormalOf : (path n : Text) → IsNormalOf path n → normalize path ≡ n
unfolding normalize
normalize-IsNormalOf path n f =
    ap (trim_end_by is_slash) (forward_slashes-Slashed f.replaced ∙ f.whole)
    ∙ trim-cut n f.cut f.no_slash

-- The second text stands at the end of the first.
abbrev pub Ends : Text → Text → Type 0
Ends t s = (skip : Text) × (t ≡ skip ++ s)

any_of_three : (a b c : Bool) → ((a || b || c) ≡ true) ↔ ((a ≡ true) ⊎ (b ≡ true) ⊎ (c ≡ true))
any_of_three true b c = (λ h. inl refl, λ h. refl)
any_of_three false true c = (λ h. inr (inl refl), λ h. refl)
any_of_three false false c = (
  λ h. inr (inr h),
  λ h. elim h [ inl e ↦ absurd cc | inr (inl e) ↦ absurd cc | inr (inr e) ↦ e ],
)

same_base_iff :
    (a b : Option Text)
    → (same_base a b ≡ true) ↔ ((name : Text) × (a ≡ some name) × (b ≡ some name))
same_base_iff none b = (λ h. cc, λ (name, e, f). cc)
same_base_iff (some s) none = (λ h. cc, λ (name, e, f). cc)
same_base_iff (some s) (some t) = (
  λ h. (s, refl, ap some (sym ((same_text_iff s t).0 h))),
  λ (name, e, f). (same_text_iff s t).1 cc,
)

module _ (file_name : Text → Option Text) where
  -- Both have a file name, and it is the same.
  abbrev pub SameFile : Text → Text → Type 0
  SameFile s t = (name : Text) × (file_name s ≡ some name) × (file_name t ≡ some name)

  -- Two paths match exactly when, with slashes for backslashes and without the slashes at its end, one stands
  -- at the end of the other, at a slash or not, or they have one file name.
  pub source_paths_match_iff :
      (stored current s t : Text)
      → IsNormalOf stored s
      → IsNormalOf current t
      → (source_paths_match file_name stored current ≡ true) ↔ (Ends t s ⊎ Ends s t ⊎ SameFile s t)
  source_paths_match_iff stored current s t hs ht =
      let split =
        any_of_three (ends_with t s) (ends_with s t) (same_base (file_name s) (file_name t)) in
      let base = same_base_iff (file_name s) (file_name t) in
      rw
        (
          source_paths_match_lem file_name stored current,
          normalize-IsNormalOf stored s hs,
          normalize-IsNormalOf current t ht,
        )
        (
          λ h. elim (split.0 h) [
            | inl e ↦ inl ((ends_with_iff t s).0 e)
            | inr (inl e) ↦ inr (inl ((ends_with_iff s t).0 e))
            | inr (inr e) ↦ inr (inr (base.0 e))
          ],
          λ h. split.1 (elim h [
            | inl e ↦ inl ((ends_with_iff t s).1 e)
            | inr (inl e) ↦ inr (inl ((ends_with_iff s t).1 e))
            | inr (inr e) ↦ inr (inr (base.1 e))
          ]),
        )
