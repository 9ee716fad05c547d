-- ===== src/Child/Value.antt =====
-- `serde_json::Value` as the enum that its documentation shows. `N` is the type of its numbers. The keys
-- of a map stand once; only what the code does with the entries in their order is modelled.
use dappy_core.Common.{ℕ, Bool, Option, nat_eq, string_eq}
use dappy_core.Common.Text.{Text}

mutual
  pub data Value (N : Type 0) : Type 0 where
    null : Value N
    bool : Bool → Value N
    number : N → Value N
    text : Text → Value N
    array : Items N → Value N
    object : Fields N → Value N

  pub data Items (N : Type 0) : Type 0 where
    nil : Items N
    cons : Value N → Items N → Items N

  pub data Fields (N : Type 0) : Type 0 where
    end : Fields N
    field : Text → Value N → Fields N → Fields N

-- What the program uses of the library: `get`, `pointer`, `as_u64` and `to_string`.
pub record Library (N : Type 0) : Type 0 where
  pub get : Value N → Text → Option (Value N)
  pub pointer : Value N → Text → Option (Value N)
  pub as_u64 : Value N → Option ℕ
  pub to_string : Value N → Text
