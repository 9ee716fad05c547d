-- ===== src/Json.antt =====
-- The interface of `serde_json::Value`, as far as the program uses it. The library is not part of the
-- repository: the type `V` of values and these operations are parameters, with laws for what its
-- documentation says of them. A 64-bit integer is its bit pattern, a number below 2 ^ 64.
use dappy_core.Common.{
  ℕ, String, Bool, true, Option, none, some, List, ◌≡◌, ◌==◌, string_eq, if◌then◌else◌,
}
pub mod Plain

pub record Json (V : Type 0) : Type 0 where
  -- `value.get(key)`: `None` where the key is missing or the value is no object.
  pub get : V → String → Option V
  pub as_str : V → Option String
  pub as_i64 : V → Option ℕ
  pub as_bool : V → Option Bool
  pub as_array : V → Option (List V)
  pub is_object : V → Bool
  -- `value.as_object_mut()?.insert(key, x)` and `.remove(key)`, used on objects only.
  pub insert : V → String → V → V
  pub remove : V → String → V
  -- `json!` of a number, a text, a flag, `null`, an array and `{}`.
  pub number : ℕ → V
  pub text : String → V
  pub bool : Bool → V
  pub null : V
  pub array : List V → V
  pub empty : V
  pub get-insert :
      (v : V) (k j : String) (x : V)
      → is_object v ≡ true
      → get (insert v k x) j ≡ (if k == j then some x else get v j)
  pub get-remove :
      (v : V) (k j : String)
      → is_object v ≡ true
      → get (remove v k) j ≡ (if k == j then none else get v j)
  pub is_object-insert :
      (v : V) (k : String) (x : V) → is_object v ≡ true → is_object (insert v k x) ≡ true
  pub is_object-remove : (v : V) (k : String) → is_object v ≡ true → is_object (remove v k) ≡ true
  pub is_object-empty : is_object empty ≡ true
  pub is_object-get : (v : V) (k : String) (x : V) → get v k ≡ some x → is_object v ≡ true
  pub get-empty : (k : String) → get empty k ≡ none
  pub as_i64-number : (n : ℕ) → as_i64 (number n) ≡ some n
  pub as_str-text : (t : String) → as_str (text t) ≡ some t
  pub as_bool-bool : (b : Bool) → as_bool (bool b) ≡ some b
  pub as_array-array : (l : List V) → as_array (array l) ≡ some l
