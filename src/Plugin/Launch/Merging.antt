-- ===== src/Plugin/Launch/Merging.antt =====
-- Which value a key of the launch arguments of crates/dap-plugin-api/src/launch.rs has.
use dappy_core.Common.{
  String, ◌≡◌, refl, sym, ap, ◌∙◌, subst, inl, inr, true, Option, none, some, arith, Bool-cases,
  ◌==◌, nat_eq, string_eq, ==-eq, and_then, or_else, Option-cases,
}
use dappy_core.Common.Text.{Text}
use dappy_core.Json.Plain.{
  Value, null, bool, number, text, array, object, Fields, end, field, get_field, get_value,
  insert_value, get_value-insert, is_object_value, is_object-insert_value,
}
use dappy_core.Plugin.Template.{TemplateContext, resolve_value, resolve_fields}
use dappy_core.Plugin.Launch.{
  LaunchManifest, LaunchSpec, Host, template_context, insert_all, merge_object, merge_some,
  or_program, launch_object, build_launch_arguments,
}

-- No key stands twice, as in a map of serde_json.
abbrev pub HasDistinctKeys : Fields → Type 0
HasDistinctKeys end = Unit {0}
HasDistinctKeys (field k v fs) = (get_field fs k ≡ none) × HasDistinctKeys fs

module _ (env : Text → Option String) (ctx : TemplateContext) where
  get_field-resolve_fields-none :
      (fs : Fields) (k : String)
      → get_field fs k ≡ none
      → get_field (resolve_fields env ctx fs) k ≡ none
  unfolding resolve_value
  get_field-resolve_fields-none end k h = refl
  get_field-resolve_fields-none (field j v fs) k h = elim (Bool-cases (j == k)) [
    | inl e ↦ absurd (ground (arith, h, e))
    | inr e ↦
        let ih = get_field-resolve_fields-none fs k (ground (arith, h, e)) in
        elim (Option-cases (resolve_value env ctx v)) [
          | inl g ↦ rw (g, resolve_fields) ih
          | inr (w, g) ↦ rw (g, resolve_fields) (rw e ih)
        ]
  ]

  -- An entry of an object is resolved in its place, or left out where its template has no value.
  pub get_field-resolve_fields :
      (fs : Fields) (k : String)
      → HasDistinctKeys fs
      → get_field (resolve_fields env ctx fs) k ≡ and_then (get_field fs k) (resolve_value env ctx)
  unfolding resolve_value
  get_field-resolve_fields end k h = refl
  get_field-resolve_fields (field j v fs) k (fresh, rest) = elim (Bool-cases (j == k)) [
    | inl e ↦ elim (Option-cases (resolve_value env ctx v)) [
      | inl g ↦
          let absent = subst (λ x. get_field fs x ≡ none) (==-eq j k e) fresh in
          rw (g, resolve_fields) (rw e (get_field-resolve_fields-none fs k absent ∙ sym g))
      | inr (w, g) ↦ rw (g, resolve_fields) (rw e (sym g))
    ]
    | inr e ↦
        let ih = get_field-resolve_fields fs k rest in
        elim (Option-cases (resolve_value env ctx v)) [
          | inl g ↦ rw (g, resolve_fields) (rw e ih)
          | inr (w, g) ↦ rw (g, resolve_fields) (rw e ih)
        ]
  ]

get_value-insert_all :
    (fs : Fields) (target : Value) (k : String)
    → is_object_value target ≡ true
    → HasDistinctKeys fs
    → get_value (insert_all target fs) k ≡ or_else (get_field fs k) (get_value target k)
get_value-insert_all end target k o h = refl
get_value-insert_all (field j v fs) target k o (fresh, rest) =
    get_value-insert_all fs (insert_value target j v) k (is_object-insert_value target j v o) rest
    ∙ ap (or_else (get_field fs k)) (get_value-insert target j k v o)
    ∙ elim (Bool-cases (j == k)) [
      | inl e ↦
          let absent = subst (λ x. get_field fs x ≡ none) (==-eq j k e) fresh in rw (e, absent) refl
      | inr e ↦ rw e refl
    ]

resolve_fields-HasDistinctKeys :
    (env : Text → Option String) (ctx : TemplateContext) (fs : Fields)
    → HasDistinctKeys fs
    → HasDistinctKeys (resolve_fields env ctx fs)
unfolding resolve_value
resolve_fields-HasDistinctKeys env ctx end h = tt
resolve_fields-HasDistinctKeys env ctx (field j v fs) (fresh, rest) =
    let ih = resolve_fields-HasDistinctKeys env ctx fs rest in
    elim (Option-cases (resolve_value env ctx v)) [
      | inl g ↦ rw (g, resolve_fields) ih
      | inr (w, g) ↦ rw (g, resolve_fields) (get_field-resolve_fields-none env ctx fs j fresh, ih)
    ]

is_object-insert_all :
    (fs : Fields) (target : Value)
    → is_object_value target ≡ true
    → is_object_value (insert_all target fs) ≡ true
is_object-insert_all end target o = o
is_object-insert_all (field j v fs) target o =
    is_object-insert_all fs (insert_value target j v) (is_object-insert_value target j v o)

module _ (host : Host) (ctx : TemplateContext) where
  -- A patch that is an object, resolved, wins over what the target has.
  get_value-merge_object :
      (target : Value) (fs : Fields) (k : String)
      → is_object_value target ≡ true
      → HasDistinctKeys fs
      → get_value (merge_object host target (object fs) ctx) k
        ≡ or_else (and_then (get_field fs k) (resolve_value host.env ctx)) (get_value target k)
  unfolding merge_object resolve_value
  get_value-merge_object target fs k o h =
      get_value-insert_all (resolve_fields host.env ctx fs) target k o
        (resolve_fields-HasDistinctKeys host.env ctx fs h)
      ∙ ap (λ found. or_else found (get_value target k))
          (get_field-resolve_fields host.env ctx fs k h)

  is_object-merge_object :
      (target : Value) (fs : Fields)
      → is_object_value target ≡ true
      → is_object_value (merge_object host target (object fs) ctx) ≡ true
  unfolding merge_object resolve_value
  is_object-merge_object target fs o =
      is_object-insert_all (resolve_fields host.env ctx fs) target o

get_value-or_program :
    (ctx : TemplateContext) (args : Value) (k : String) (v : Value)
    → get_value args k ≡ some v
    → get_value (or_program ctx args) k ≡ some v
get_value-or_program ctx (object end) k v h = cc
get_value-or_program ctx (object (field j w fs)) k v h = h
get_value-or_program ctx null k v h = cc
get_value-or_program ctx (bool b) k v h = cc
get_value-or_program ctx (number n) k v h = cc
get_value-or_program ctx (text s) k v h = cc
get_value-or_program ctx (array items) k v h = cc

or_else-none : (o : Option Value) → or_else o none ≡ o
or_else-none none = refl
or_else-none (some v) = refl

-- The launch arguments of a manifest whose defaults and fields are objects hold, under each key, the resolved
-- field; where the fields have none, or its template has no value, the resolved default.
pub get_value-build_launch_arguments :
    (host : Host) (manifest : LaunchManifest) (spec : LaunchSpec) (program k : String)
    (defaults fields : Fields) (v : Value)
    → manifest.launch ≡ some spec
    → spec.defaults ≡ some (object defaults)
    → spec.fields ≡ some (object fields)
    → HasDistinctKeys defaults
    → HasDistinctKeys fields
    → let resolve = resolve_value host.env (template_context host manifest program) in
      or_else (and_then (get_field fields k) resolve) (and_then (get_field defaults k) resolve)
        ≡ some v
      → get_value (build_launch_arguments host manifest program) k ≡ some v
unfolding build_launch_arguments
get_value-build_launch_arguments host manifest spec program k defaults fields v l d f hd hf h =
    let ctx = template_context host manifest program in
    let args0 = merge_object host (object end) (object defaults) ctx in
    let args = merge_object host args0 (object fields) ctx in
    let step : launch_object host ctx manifest.launch ≡ or_program ctx args =
      ap (launch_object host ctx) l
      ∙ ap
          (λ (o : Option Value).
            or_program ctx (merge_some host (merge_some host (object end) o ctx) spec.fields ctx))
          d
      ∙ ap (λ (o : Option Value). or_program ctx (merge_some host args0 o ctx)) f in
    let default = and_then (get_field defaults k) (resolve_value host.env ctx) in
    ap (λ (a : Value). get_value a k) step
    ∙ get_value-or_program ctx args k v (
        get_value-merge_object host ctx args0 fields k
          (is_object-merge_object host ctx (object end) defaults refl) hf
        ∙ ap (or_else (and_then (get_field fields k) (resolve_value host.env ctx)))
            (get_value-merge_object host ctx (object end) defaults k refl hd ∙ or_else-none default)
        ∙ h)
