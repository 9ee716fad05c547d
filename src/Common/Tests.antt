-- ===== src/Common/Tests.antt =====
-- Boolean tests, the conditional, and equality tests as an interface (Rust's `Eq`).
use Prim.Native.Nat.{ℕ, ◌<◌, compare, Ordering}
use Prim.Native.String.{String}
use mathlib.Core.Path.{◌≡◌, refl}
use mathlib.Core.Logic.{◌↔◌, ◌⊎◌, inl, inr}
use mathlib.Core.Bool.{Bool, true, false}
use native.Mathlib.Omega.{arith}
use text.Mathlib.Text.{◌==◌ as str_eq}
use text.Mathlib.TextEquality.{eq_iff}

abbrev pub ltb : ℕ → ℕ → Bool
ltb a b = elim (compare a b) [ Ordering.lt ↦ true | _ ↦ false ]

abbrev pub leb : ℕ → ℕ → Bool
leb a b = elim (compare a b) [ Ordering.gt ↦ false | _ ↦ true ]

infix 50 ◌==ℕ◌
abbrev pub ◌==ℕ◌ : ℕ → ℕ → Bool
a ==ℕ b = elim (compare a b) [ Ordering.eq ↦ true | _ ↦ false ]

infix 1 if◌then◌else◌
abbrev pub if◌then◌else◌ {ℓ} : {A : Type ℓ} → Bool → A → A → A
if true then x else y = x
if false then x else y = y

pub ltb_iff : (a b : ℕ) → (ltb a b ≡ true) ↔ (a < b)
ltb_iff a b = ground arith

pub ==ℕ_iff : (a b : ℕ) → ((a ==ℕ b) ≡ true) ↔ (a ≡ b)
==ℕ_iff a b = ground arith

-- To split on a computed value and keep the equation.
pub Bool-cases : (b : Bool) → (b ≡ true) ⊎ (b ≡ false)
Bool-cases true = inl refl
Bool-cases false = inr refl

-- Rust's `Eq`: a type whose values the program compares, with what the comparison decides.
pub record Eq {ℓ} (K : Type ℓ) : Type ℓ where
  pub decides : K → K → Bool
  pub decides_iff : (x y : K) → (decides x y ≡ true) ↔ (x ≡ y)

instance abbrev pub string_eq : Eq String
string_eq = record { decides_iff = eq_iff; decides = str_eq }

instance abbrev pub nat_eq : Eq ℕ
nat_eq = record { decides_iff = λ x y. ==ℕ_iff x y; decides = λ x y. x ==ℕ y }

-- `==` at such a type.
infix 50 ◌==◌
abbrev pub ◌==◌ {ℓ} : {K : Type ℓ} → ⦃cmp : Eq K⦄ → K → K → Bool
◌==◌ ⦃cmp⦄ x y = cmp.decides x y

module _ {ℓ} {A : Type ℓ} ⦃e : Eq A⦄ where
  pub ==-refl : (a : A) → (a == a) ≡ true
  ==-refl a = (e.decides_iff a a).1 refl

  pub ==-eq : (a b : A) → (a == b) ≡ true → a ≡ b
  ==-eq a b = (e.decides_iff a b).0
