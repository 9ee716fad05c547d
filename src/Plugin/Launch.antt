-- ===== src/Plugin/Launch.antt =====
-- crates/dap-plugin-api/src/launch.rs: the arguments that a manifest gives a launch.
pub mod Merging
use dappy_core.Common.{
  ℕ, String, Bool, true, Option, none, some, List, [], nat_eq, string_eq, and_then, unwrap_or,
  or_else,
}
use dappy_core.Common.Text.{Text}
use dappy_core.Json.Plain.{
  Value, null, bool, number, text, array, object, Fields, end, field, insert_value,
}
use dappy_core.Plugin.Template.{TemplateContext, resolve_value}

pub record InitializeSpec : Type 0 where
  pub adapter_id : Option String
  pub defaults : Option Value

pub record LaunchSpec : Type 0 where
  pub request : String
  pub defaults : Option Value
  pub fields : Option Value

pub record RecordEntry : Type 0 where
  pub path : String
  pub line : ℕ

pub record InitStep : Type 0 where
  pub request : Option String
  pub use_launch_arguments : Bool
  pub arguments : Option Value
  pub wait_for_event : Option String
  pub wait_for_response : Option String
  pub record_entry : Option RecordEntry

-- The fields of `PluginManifest` that a launch reads; `InitSpec` is its list of steps.
pub record LaunchManifest : Type 0 where
  pub id : String
  pub initialize : Option InitializeSpec
  pub launch : Option LaunchSpec
  pub init : Option (List InitStep)

-- `resolve_program_paths`: the absolute path of a program and its directory, as the file system has them.
pub record Host : Type 0 where
  pub env : Text → Option String
  pub resolve_program_paths : String → Option String × Option String

-- The fields of a patch go into an object one by one.
abbrev pub insert_all : Value → Fields → Value
insert_all target end = target
insert_all target (field k v fs) = insert_all (insert_value target k v) fs

abbrev pub merge_resolved : Value → Option Value → Value
merge_resolved target (some (object fs)) = insert_all target fs
merge_resolved target (some null) = target
merge_resolved target (some (bool b)) = target
merge_resolved target (some (number n)) = target
merge_resolved target (some (text s)) = target
merge_resolved target (some (array items)) = target
merge_resolved target none = target

-- The object of a client that starts lines and columns at 1.
abbrev pub initialize_object : String → String → Value
initialize_object client_id adapter_id = object (
    field "clientID" (text client_id) (
      field "adapterID" (text adapter_id) (
        field "linesStartAt1" (bool true) (
          field "columnsStartAt1" (bool true) (
            field "pathFormat" (text "path")
              (field "supportsRunInTerminalRequest" (bool true) end))))))

-- `{ "program": … }`
abbrev pub program_object : TemplateContext → Value
program_object ctx = object (field "program" (text (unwrap_or ctx.program_abs ctx.program)) end)

abbrev pub or_program : TemplateContext → Value → Value
or_program ctx (object end) = program_object ctx
or_program ctx (object (field k v fs)) = object (field k v fs)
or_program ctx null = null
or_program ctx (bool b) = bool b
or_program ctx (number n) = number n
or_program ctx (text s) = text s
or_program ctx (array items) = array items

module _ (host : Host) where
  unfoldable pub template_context : LaunchManifest → String → TemplateContext
  template_context manifest program = record {
    program = program;
    program_abs = (host.resolve_program_paths program).0;
    program_parent = (host.resolve_program_paths program).1;
    plugin_id = manifest.id;
  }

  -- Only an object takes the fields: `insert_value` leaves any other value alone.
  unfoldable pub merge_object : Value → Value → TemplateContext → Value
  merge_object target patch ctx = merge_resolved target (resolve_value host.env ctx patch)

  abbrev pub merge_some : Value → Option Value → TemplateContext → Value
  merge_some target none ctx = target
  merge_some target (some patch) ctx = merge_object target patch ctx

  unfoldable pub build_initialize_arguments : LaunchManifest → String → Option String → Value
  unfolding template_context merge_object
  build_initialize_arguments manifest client_id fallback_adapter_id =
      let adapter_id =
        unwrap_or
          (or_else (and_then manifest.initialize (λ spec. spec.adapter_id)) fallback_adapter_id)
          manifest.id in
      merge_some (initialize_object client_id adapter_id)
        (and_then manifest.initialize (λ spec. spec.defaults)) (template_context manifest "")

  abbrev pub launch_object : TemplateContext → Option LaunchSpec → Value
  launch_object ctx none = program_object ctx
  launch_object ctx (some spec) =
      or_program ctx (merge_some (merge_some (object end) spec.defaults ctx) spec.fields ctx)

  unfoldable pub build_launch_arguments : LaunchManifest → String → Value
  unfolding template_context merge_object
  build_launch_arguments manifest program =
      launch_object (template_context manifest program) manifest.launch

unfoldable pub launch_request_name : LaunchManifest → String
launch_request_name manifest =
    unwrap_or (and_then manifest.launch (λ spec. some spec.request)) "launch"

unfoldable pub init_steps : LaunchManifest → List InitStep
init_steps manifest = unwrap_or manifest.init []
