-- ===== src/Common/Lists.antt =====
-- Vectors measured and indexed by native numbers, under the library's names.
use Prim.Native.Nat.{ℕ, zero, suc, ◌+◌, ◌<◌}
use mathlib.Core.Path.{◌≡◌, refl, ap, ◌∙◌}
use mathlib.Core.List.{List, [], ◌∷◌, ◌++◌}
use mathlib.Core.Option.{Option, none, some}
use mathlib.Core.Logic.{◌≢◌}
use dappy_core.Common.Tests.{ltb}
use dappy_core.Common.Options.{is_some}
use native.Mathlib.Omega.{arith}

module _ {ℓ} {A : Type ℓ} where
  abbrev pub length : List A → ℕ
  length [] = 0
  length (x ∷ xs) = suc (length xs)

  abbrev pub get_elem? : List A → ℕ → Option A
  get_elem? [] i = none
  get_elem? (x ∷ xs) zero = some x
  get_elem? (x ∷ xs) (suc i) = get_elem? xs i

  -- A write out of bounds changes nothing.
  abbrev pub set : List A → ℕ → A → List A
  set [] i v = []
  set (x ∷ xs) zero v = v ∷ xs
  set (x ∷ xs) (suc i) v = x ∷ set xs i v

  -- `Vec::remove`, with no effect out of bounds.
  abbrev pub remove_at : List A → ℕ → List A
  remove_at [] i = []
  remove_at (x ∷ xs) zero = xs
  remove_at (x ∷ xs) (suc i) = x ∷ remove_at xs i

  abbrev pub filter_map {κ} : {B : Type κ} → (A → Option B) → List A → List B
  filter_map f [] = []
  filter_map f (x ∷ xs) =
      let rest = filter_map f xs in elim (f x) [ none ↦ rest | some b ↦ b ∷ rest ]

  -- `iter().find_map(f)`
  abbrev pub find_map {κ} : {B : Type κ} → (A → Option B) → List A → Option B
  find_map f [] = none
  find_map f (x ∷ xs) = let rest = find_map f xs in elim (f x) [ none ↦ rest | some b ↦ some b ]

module _ {ℓ} {A : Type ℓ} where
  pub length-append : (xs ys : List A) → length (xs ++ ys) ≡ length xs + length ys
  length-append [] ys = omega arith
  length-append (x ∷ xs) ys = omega (arith, length-append xs ys)

  pub length-set : (xs : List A) (i : ℕ) (v : A) → length (set xs i v) ≡ length xs
  length-set [] i v = refl
  length-set (x ∷ xs) zero v = refl
  length-set (x ∷ xs) (suc i) v = ap suc (length-set xs i v)

  pub length-remove_at :
      (xs : List A) (i : ℕ) → i < length xs → length (remove_at xs i) + 1 ≡ length xs
  length-remove_at [] i h = elim h [ ]
  length-remove_at (x ∷ xs) zero h = omega arith
  length-remove_at (x ∷ xs) (suc i) h = omega (arith, length-remove_at xs i)

  -- What stands before the removed place stays where it was.
  pub get_elem?-remove_at_lt :
      (xs : List A) (i j : ℕ) → j < i → get_elem? (remove_at xs i) j ≡ get_elem? xs j
  get_elem?-remove_at_lt [] i j h = refl
  get_elem?-remove_at_lt (x ∷ xs) zero j h = elim h [ ]
  get_elem?-remove_at_lt (x ∷ xs) (suc i) zero h = refl
  get_elem?-remove_at_lt (x ∷ xs) (suc i) (suc j) h = get_elem?-remove_at_lt xs i j (omega arith)

  -- What stands behind it moves down by one.
  pub get_elem?-remove_at_gt :
      (xs : List A) (i j : ℕ) → i < suc j → get_elem? (remove_at xs i) j ≡ get_elem? xs (suc j)
  get_elem?-remove_at_gt [] i j h = refl
  get_elem?-remove_at_gt (x ∷ xs) zero j h = refl
  get_elem?-remove_at_gt (x ∷ xs) (suc i) zero h = absurd (omega arith)
  get_elem?-remove_at_gt (x ∷ xs) (suc i) (suc j) h = get_elem?-remove_at_gt xs i j (omega arith)

  pub get_elem?-append_lt :
      (xs ys : List A) (i : ℕ) → i < length xs → get_elem? (xs ++ ys) i ≡ get_elem? xs i
  get_elem?-append_lt [] ys i h = elim h [ ]
  get_elem?-append_lt (x ∷ xs) ys zero h = refl
  get_elem?-append_lt (x ∷ xs) ys (suc i) h = get_elem?-append_lt xs ys i (omega arith)

  pub get_elem?-middle : (xs ys : List A) (a : A) → get_elem? (xs ++ (a ∷ ys)) (length xs) ≡ some a
  get_elem?-middle [] ys a = refl
  get_elem?-middle (x ∷ xs) ys a = get_elem?-middle xs ys a

  pub get_elem?-length : (xs : List A) (a : A) → get_elem? (xs ++ a ∷ []) (length xs) ≡ some a
  get_elem?-length [] a = refl
  get_elem?-length (x ∷ xs) a = get_elem?-length xs a

  pub get_elem?-set_self :
      (xs : List A) (i : ℕ) (v : A) → i < length xs → get_elem? (set xs i v) i ≡ some v
  get_elem?-set_self [] i v h = elim h [ ]
  get_elem?-set_self (x ∷ xs) zero v h = refl
  get_elem?-set_self (x ∷ xs) (suc i) v h = get_elem?-set_self xs i v (omega arith)

  pub is_some-get_elem? : (xs : List A) (i : ℕ) → is_some (get_elem? xs i) ≡ ltb i (length xs)
  is_some-get_elem? [] i = ground arith
  is_some-get_elem? (x ∷ xs) zero = ground arith
  is_some-get_elem? (x ∷ xs) (suc i) = is_some-get_elem? xs i ∙ ground arith

  pub get_elem?-set_ne :
      (xs : List A) (i j : ℕ) (v : A) → i ≢ j → get_elem? (set xs i v) j ≡ get_elem? xs j
  get_elem?-set_ne [] i j v h = refl
  get_elem?-set_ne (x ∷ xs) zero zero v h = absurd (h refl)
  get_elem?-set_ne (x ∷ xs) zero (suc j) v h = refl
  get_elem?-set_ne (x ∷ xs) (suc i) zero v h = refl
  get_elem?-set_ne (x ∷ xs) (suc i) (suc j) v h = get_elem?-set_ne xs i j v (λ e. h (ap suc e))
