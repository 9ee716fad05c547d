-- ===== src/Common/Options.antt =====
-- `Option`'s methods `and_then`, `unwrap_or`, `or_else`, `is_some` and the comparison with `Some(text)`.
use Prim.Native.String.{String}
use mathlib.Core.Path.{◌≡◌, refl}
use mathlib.Core.Logic.{◌⊎◌, inl, inr}
use mathlib.Core.Bool.{Bool, true, false}
use mathlib.Core.Option.{Option, none, some}
use dappy_core.Common.Tests.{if◌then◌else◌}
use text.Mathlib.Text.{◌==◌ as str_eq}

module _ {ℓ} {A : Type ℓ} where
  abbrev pub and_then {κ} : {B : Type κ} → Option A → (A → Option B) → Option B
  and_then none f = none
  and_then (some a) f = f a

  abbrev pub unwrap_or : Option A → A → A
  unwrap_or none d = d
  unwrap_or (some a) d = a

  abbrev pub or_else : Option A → Option A → Option A
  or_else none p = p
  or_else (some a) p = some a

  abbrev pub is_some : Option A → Bool
  is_some none = false
  is_some (some a) = true

  pub Option-cases : (o : Option A) → (o ≡ none) ⊎ ((a : A) × (o ≡ some a))
  Option-cases none = inl refl
  Option-cases (some a) = inr (a, refl)

  pub eq_of_some-eq : (a b : A) → some a ≡ some b → a ≡ b
  eq_of_some-eq a b h = cc

-- `text == Some("literal")`
abbrev pub is_text : Option String → String → Bool
is_text none t = false
is_text (some s) t = str_eq s t

-- `flag == Some(true)`, `flag == Some(false)`
abbrev pub is_true : Option Bool → Bool
is_true none = false
is_true (some b) = b

abbrev pub is_false : Option Bool → Bool
is_false (some false) = true
is_false _ = false

-- A property of both branches is one of the test, and of the match.
pub if_keeps {ℓ κ} :
    {A : Type ℓ} (P : A → Type κ) (b : Bool) (x y : A) → P x → P y → P (if b then x else y)
if_keeps P true x y px py = px
if_keeps P false x y px py = py

pub match_keeps {ℓ κ μ} :
    {A : Type ℓ} {B : Type μ} (P : A → Type κ) (o : Option B) (x : A) (f : B → A)
    → P x
    → ((b : B) → P (f b))
    → P (elim o [ none ↦ x | some b ↦ f b ])
match_keeps P none x f px pf = px
match_keeps P (some b) x f px pf = pf b

-- The same, where the property of the match may use what was matched.
pub match_keeps_eq {ℓ κ μ} :
    {A : Type ℓ} {B : Type μ} (P : A → Type κ) (o : Option B) (x : A) (f : B → A)
    → P x
    → ((b : B) → o ≡ some b → P (f b))
    → P (elim o [ none ↦ x | some b ↦ f b ])
match_keeps_eq P none x f px pf = px
match_keeps_eq P (some b) x f px pf = pf b refl

pub if_keeps_eq {ℓ κ} :
    {A : Type ℓ} (P : A → Type κ) (b : Bool) (x y : A)
    → (b ≡ true → P x)
    → (b ≡ false → P y)
    → P (if b then x else y)
if_keeps_eq P true x y px py = px refl
if_keeps_eq P false x y px py = py refl
