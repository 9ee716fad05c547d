-- ===== src/Plugin/Template.antt =====
-- crates/dap-plugin-api/src/template.rs: the `${…}` placeholders of a manifest. The value is serde_json's enum,
-- as Json.Plain has it; the environment and the paths that the file system knows are arguments.
use dappy_core.Common.{
  String, ◌||◌, Option, none, some, if◌then◌else◌, nat_eq, string_eq, unwrap_or,
}
use dappy_core.Common.Text.{Text, codes, same_text, strip_prefix, trim}
use dappy_core.Child.Template.{template_path}
use dappy_core.Json.Plain.{
  Value, null, bool, number, text, array, object, Items, nil, cons, Fields, end, field,
}

pub record TemplateContext : Type 0 where
  pub program : String
  pub program_abs : Option String
  pub program_parent : Option String
  pub plugin_id : String

module _ (env : Text → Option String) (ctx : TemplateContext) where
  -- The `match` on the token.
  unfoldable pub resolve_token : String → Text → Option String
  resolve_token whole token =
      if same_text token (codes "program")
      then some ctx.program
      else if same_text token (codes "program.abs")
      then some (unwrap_or ctx.program_abs ctx.program)
      else if same_text token (codes "program.parent") || same_text token (codes "cwd")
      then ctx.program_parent
      else if same_text token (codes "plugin.id")
      then some ctx.plugin_id
      else elim (strip_prefix token (codes "env:")) [ none ↦ some whole | some name ↦ env name ]

  unfoldable pub resolve_string : String → Option String
  unfolding resolve_token
  resolve_string whole = elim (template_path (codes whole)) [
    | none ↦ some whole
    | some token ↦ resolve_token whole (trim token)
  ]

  abbrev pub of_string : Option String → Option Value
  of_string none = none
  of_string (some s) = some (text s)

  -- `Omit` is `none`.
  unfoldable mutual
    unfolding resolve_string

    pub resolve_value : Value → Option Value
    resolve_value (text s) = of_string (resolve_string s)
    resolve_value (object fs) = some (object (resolve_fields fs))
    resolve_value (array items) = some (array (resolve_items items))
    resolve_value null = some null
    resolve_value (bool b) = some (bool b)
    resolve_value (number n) = some (number n)

    pub resolve_fields : Fields → Fields
    resolve_fields end = end
    resolve_fields (field k v fs) =
        let rest = resolve_fields fs in
        elim (resolve_value v) [ none ↦ rest | some resolved ↦ field k resolved rest ]

    pub resolve_items : Items → Items
    resolve_items nil = nil
    resolve_items (cons v vs) =
        let rest = resolve_items vs in
        elim (resolve_value v) [ none ↦ rest | some resolved ↦ cons resolved rest ]
