-- ===== src/Json/Plain.antt =====
-- The enum of values that serde_json documents, with the numbers that an i64 holds: it fills the interface
-- `Json`, which shows that its laws can be met. The keys of a map stand once, and the order of the entries is
-- that of the list.
use dappy_core.Common.{
  ℕ, String, ◌≡◌, refl, ap, Bool, true, false, Option, none, some, List, [], ◌∷◌, arith, eq_iff,
  if◌then◌else◌, ◌==◌, nat_eq, string_eq,
}
use dappy_core.Json.{Json}

mutual
  pub data Value : Type 0 where
    null : Value
    bool : Bool → Value
    number : ℕ → Value
    text : String → Value
    array : Items → Value
    object : Fields → Value

  pub data Items : Type 0 where
    nil : Items
    cons : Value → Items → Items

  pub data Fields : Type 0 where
    end : Fields
    field : String → Value → Fields → Fields

abbrev pub items_of : List Value → Items
items_of [] = nil
items_of (v ∷ vs) = cons v (items_of vs)

abbrev pub list_of : Items → List Value
list_of nil = []
list_of (cons v vs) = v ∷ list_of vs

abbrev pub get_field : Fields → String → Option Value
get_field end k = none
get_field (field j v fs) k = if j == k then some v else get_field fs k

abbrev pub remove_field : Fields → String → Fields
remove_field end k = end
remove_field (field j v fs) k =
    let rest = remove_field fs k in if j == k then rest else field j v rest

abbrev pub get_value : Value → String → Option Value
get_value (object fs) k = get_field fs k
get_value _ k = none

abbrev pub as_text : Value → Option String
as_text (text t) = some t
as_text _ = none

abbrev pub as_number : Value → Option ℕ
as_number (number n) = some n
as_number _ = none

abbrev pub as_flag : Value → Option Bool
as_flag (bool b) = some b
as_flag _ = none

abbrev pub as_list : Value → Option (List Value)
as_list (array l) = some (list_of l)
as_list _ = none

abbrev pub is_object_value : Value → Bool
is_object_value (object fs) = true
is_object_value _ = false

abbrev pub insert_value : Value → String → Value → Value
insert_value (object fs) k x = object (field k x (remove_field fs k))
insert_value v k x = v

abbrev pub remove_value : Value → String → Value
remove_value (object fs) k = object (remove_field fs k)
remove_value v k = v

get_field-remove_field :
    (fs : Fields) (k j : String)
    → get_field (remove_field fs k) j ≡ (if k == j then none else get_field fs j)
get_field-remove_field end k j = ground arith
get_field-remove_field (field i v fs) k j =
    ground (arith, get_field-remove_field fs k j, eq_iff i k, eq_iff i j, eq_iff k j)

pub get_value-insert :
    (v : Value) (k j : String) (x : Value)
    → is_object_value v ≡ true
    → get_value (insert_value v k x) j ≡ (if k == j then some x else get_value v j)
get_value-insert (object fs) k j x h = ground (arith, get_field-remove_field fs k j)
get_value-insert null k j x h = cc
get_value-insert _ k j x h = cc

pub get_value-remove :
    (v : Value) (k j : String)
    → is_object_value v ≡ true
    → get_value (remove_value v k) j ≡ (if k == j then none else get_value v j)
get_value-remove (object fs) k j h = get_field-remove_field fs k j
get_value-remove null k j h = cc
get_value-remove _ k j h = cc

pub is_object-insert_value :
    (v : Value) (k : String) (x : Value)
    → is_object_value v ≡ true
    → is_object_value (insert_value v k x) ≡ true
is_object-insert_value (object fs) k x h = refl
is_object-insert_value null k x h = cc
is_object-insert_value _ k x h = cc

pub is_object-remove_value :
    (v : Value) (k : String) → is_object_value v ≡ true → is_object_value (remove_value v k) ≡ true
is_object-remove_value (object fs) k h = refl
is_object-remove_value null k h = cc
is_object-remove_value _ k h = cc

pub is_object_of_get :
    (v : Value) (k : String) (x : Value) → get_value v k ≡ some x → is_object_value v ≡ true
is_object_of_get (object fs) k x h = refl
is_object_of_get null k x h = cc
is_object_of_get _ k x h = cc

pub list_of-items_of : (l : List Value) → list_of (items_of l) ≡ l
list_of-items_of [] = refl
list_of-items_of (v ∷ vs) = ap (◌∷◌ v) (list_of-items_of vs)

instance abbrev pub plain : Json Value
plain = record {
  get = get_value;
  as_str = as_text;
  as_i64 = as_number;
  as_bool = as_flag;
  as_array = as_list;
  is_object = is_object_value;
  insert = insert_value;
  remove = remove_value;
  number = number;
  text = text;
  bool = bool;
  null = null;
  array = λ l. array (items_of l);
  empty = object end;
  get-insert = get_value-insert;
  get-remove = get_value-remove;
  is_object-insert = is_object-insert_value;
  is_object-remove = is_object-remove_value;
  is_object-empty = refl;
  is_object-get = is_object_of_get;
  get-empty = λ k. refl;
  as_i64-number = λ n. refl;
  as_str-text = λ t. refl;
  as_bool-bool = λ b. refl;
  as_array-array = λ l. ap some (list_of-items_of l);
}
