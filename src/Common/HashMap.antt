-- ===== src/Common/HashMap.antt =====
-- `std::collections::HashMap` as an association list without a repeated key. A loop over the map
-- visits the entries in the order of the list; an insertion puts the entry in front, so no order is
-- promised to the program, as in the source.
use dappy_core.Common.{and_then, if_keeps, ==-refl, ◌∙◌}
use dappy_core.Common.Tests.{Eq, ◌==◌, if◌then◌else◌}
use mathlib.Core.Path.{◌≡◌, refl}
use mathlib.Core.Bool.{Bool}
use mathlib.Core.Option.{Option, none, some}
use mathlib.Core.List.{List, [], ◌∷◌}
use native.Mathlib.Omega.{arith}

abbrev pub HashMap : Type 0 → Type 0 → Type 0
HashMap K V = List (K × V)

module _ {K V : Type 0} where
  -- `values_mut`
  unfoldable pub map_values : (V → V) → HashMap K V → HashMap K V
  map_values f [] = []
  map_values f ((k, v) ∷ m) = (k, f v) ∷ map_values f m

module _ {K V : Type 0} ⦃e : Eq K⦄ where
  unfoldable pub get : HashMap K V → K → Option V
  get [] k = none
  get ((j, v) ∷ m) k = if j == k then some v else get m k

  unfoldable pub remove : HashMap K V → K → HashMap K V
  remove [] k = []
  remove ((j, v) ∷ m) k = let rest = remove m k in if j == k then rest else (j, v) ∷ rest

  unfoldable pub insert : HashMap K V → K → V → HashMap K V
  unfolding remove
  insert m k v = (k, v) ∷ remove m k

  pub get-remove :
      (m : HashMap K V) (k j : K) → get (remove m k) j ≡ (if k == j then none else get m j)
  unfolding get remove
  get-remove [] k j = ground arith
  get-remove ((i, v) ∷ m) k j =
      ground (arith, get-remove m k j, e.decides_iff i k, e.decides_iff i j, e.decides_iff k j)

  pub get-insert :
      (m : HashMap K V) (k j : K) (v : V)
      → get (insert m k v) j ≡ (if k == j then some v else get m j)
  unfolding get insert
  get-insert m k j v = ground (arith, get-remove m k j)

  pub get-map_values :
      (f : V → V) (m : HashMap K V) (k : K)
      → get (map_values f m) k ≡ and_then (get m k) (λ v. some (f v))
  unfolding get map_values
  get-map_values f [] k = refl
  get-map_values f ((j, w) ∷ m) k = ground (arith, get-map_values f m k)

  -- `retain`: an entry that fails the test leaves no value of its key.
  unfoldable pub retain : (K → V → Bool) → HashMap K V → HashMap K V
  unfolding remove
  retain keep [] = []
  retain keep ((k, v) ∷ m) =
      let rest = retain keep m in if keep k v then (k, v) ∷ rest else remove rest k

  pub get-retain :
      (keep : K → V → Bool) (m : HashMap K V) (k : K)
      → get (retain keep m) k ≡ and_then (get m k) (λ v. if keep k v then some v else none)
  unfolding get retain
  get-retain keep [] k = refl
  get-retain keep ((j, w) ∷ m) k =
      ground (arith, e.decides_iff j k, get-retain keep m k, get-remove (retain keep m) j k)

  -- No key twice.
  abbrev pub IsMap : HashMap K V → Type 0
  IsMap [] = Unit
  IsMap ((k, v) ∷ m) = (get m k ≡ none) × IsMap m

  pub remove-IsMap : (m : HashMap K V) (k : K) → IsMap m → IsMap (remove m k)
  unfolding remove
  remove-IsMap [] k h = h
  remove-IsMap ((j, v) ∷ m) k h =
      if_keeps IsMap (j == k) _ _ (remove-IsMap m k h.1)
        (get-remove m k j ∙ ground (arith, h.0), remove-IsMap m k h.1)

  pub insert-IsMap : (m : HashMap K V) (k : K) (v : V) → IsMap m → IsMap (insert m k v)
  unfolding insert
  insert-IsMap m k v h = (get-remove m k k ∙ rw (==-refl k) refl, remove-IsMap m k h)
