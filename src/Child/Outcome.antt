-- ===== src/Child/Outcome.antt =====
-- `Result<A, String>`, and the collection of results.
use dappy_core.Common.{
  ◌⊎◌, inl, inr, ◌≡◌, refl, Option, none, some, List, [], ◌∷◌, nat_eq, string_eq,
}
use dappy_core.Common.Text.{Text}

pub data Outcome {ℓ} (A : Type ℓ) : Type ℓ where
  ok : A → Outcome A
  err : Text → Outcome A

infixl 5 ◌>>=◌
abbrev pub ◌>>=◌ {ℓ κ} : {A : Type ℓ} {B : Type κ} → Outcome A → (A → Outcome B) → Outcome B
ok a >>= f = f a
err e >>= f = err e

-- `ok_or_else`
abbrev pub ok_or {ℓ} : {A : Type ℓ} → Option A → Text → Outcome A
ok_or none e = err e
ok_or (some a) e = ok a

-- `map(f).collect::<Result<Vec<_>, _>>()`: the first error ends it.
abbrev pub collect {ℓ κ} : {A : Type ℓ} {B : Type κ} → (A → Outcome B) → List A → Outcome (List B)
collect f [] = ok []
collect f (x ∷ xs) = do y ← f x; ys ← collect f xs; ok (y ∷ ys)

pub >>=-eq_ok {ℓ κ} :
    {A : Type ℓ} {B : Type κ} (m : Outcome A) (f : A → Outcome B) (b : B)
    → (m >>= f) ≡ ok b
    → (a : A) × (m ≡ ok a) × (f a ≡ ok b)
>>=-eq_ok (ok a) f b h = (a, refl, h)
>>=-eq_ok (err e) f b h = cc

pub ok_or-eq_ok {ℓ} : {A : Type ℓ} (o : Option A) (e : Text) (a : A) → ok_or o e ≡ ok a → o ≡ some a
ok_or-eq_ok none e a h = cc
ok_or-eq_ok (some x) e a h = cc

pub Outcome-cases {ℓ} :
    {A : Type ℓ} (o : Outcome A) → ((a : A) × (o ≡ ok a)) ⊎ ((e : Text) × (o ≡ err e))
Outcome-cases (ok a) = inl (a, refl)
Outcome-cases (err e) = inr (e, refl)
