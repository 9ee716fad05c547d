-- ===== src/Child/Template.antt =====
-- The templates of crates/dap-core/src/child_session/resolve.rs.
use dappy_core.Common.{
  Bool, ◌&&◌, Option, none, some, [], ◌∷◌, ◌++◌, if◌then◌else◌, ◌==◌, nat_eq, string_eq, unwrap_or,
  is_some,
}
use dappy_core.Common.Text.{Text, codes, strip_prefix, same_text}
use dappy_core.Common.Text.Search.{ends_with}
use dappy_core.Child.Outcome.{Outcome, ok, ◌>>=◌, ok_or}
use dappy_core.Child.Value.{
  Value, null, bool, number, text, array, object, Items, nil, cons, Fields, end, field, Library,
}

-- `/` in place of `.`
abbrev pub slashes : Text → Text
slashes [] = []
slashes (c ∷ s) = (if c == 46 then 47 else c) ∷ slashes s

unfoldable pub dotted_to_pointer : Text → Text
dotted_to_pointer [] = []
dotted_to_pointer (c ∷ s) = 47 ∷ slashes (c ∷ s)

-- `strip_suffix('}')`
abbrev pub strip_brace : Text → Option Text
strip_brace [] = none
strip_brace (c ∷ []) = if c == 125 then some [] else none
strip_brace (c ∷ d ∷ s) = elim (strip_brace (d ∷ s)) [ none ↦ none | some t ↦ some (c ∷ t) ]

-- `starts_with("${") && ends_with('}')`
abbrev pub is_template : Text → Bool
is_template template =
    is_some (strip_prefix template (codes "${")) && ends_with template (codes "}")

-- `strip_prefix("${").and_then(|rest| rest.strip_suffix('}'))`
abbrev pub template_path : Text → Option Text
template_path expr = elim (strip_prefix expr (codes "${")) [
  | none ↦ none
  | some rest ↦ strip_brace rest
]

module _ {N : Type 0} (lib : Library N) (context : Value N) where
  unfoldable pub value_at : Text → Outcome (Value N)
  unfolding dotted_to_pointer
  value_at path =
      if same_text path (codes "configuration")
      then ok (unwrap_or (lib.get context (codes "configuration")) null)
      else if same_text path (codes "request")
      then ok (unwrap_or (lib.get context (codes "request")) null)
      else ok_or (lib.pointer context (dotted_to_pointer path))
          (codes "template path not found: " ++ path)

  unfoldable pub resolve_template_value : Text → Outcome (Value N)
  unfolding value_at
  resolve_template_value expr =
      ok_or (template_path expr) (codes "invalid template expression: " ++ expr) >>= value_at

  -- The text of a value, and the print of any other.
  abbrev pub text_of : Value N → Text
  text_of (text t) = t
  text_of null = lib.to_string null
  text_of other = lib.to_string other

  unfoldable pub resolve_string_template : Text → Outcome Text
  unfolding resolve_template_value
  resolve_string_template template =
      if is_template template
      then resolve_template_value template >>= (λ value. ok (text_of value))
      else ok template

  unfoldable mutual
    pub resolve_value_template : Value N → Outcome (Value N)
    resolve_value_template null = ok null
    resolve_value_template (bool b) = ok (bool b)
    resolve_value_template (number n) = ok (number n)
    resolve_value_template (text expr) =
        if is_template expr then resolve_template_value expr else ok (text expr)
    resolve_value_template (array items) = resolve_items items >>= (λ xs. ok (array xs))
    resolve_value_template (object fields) = resolve_fields fields >>= (λ fs. ok (object fs))

    pub resolve_items : Items N → Outcome (Items N)
    resolve_items nil = ok nil
    resolve_items (cons x xs) = do
      y ← resolve_value_template x
      ys ← resolve_items xs
      ok (cons y ys)

    pub resolve_fields : Fields N → Outcome (Fields N)
    resolve_fields end = ok end
    resolve_fields (field k x fs) = do
      y ← resolve_value_template x
      gs ← resolve_fields fs
      ok (field k y gs)
