-- ===== src/Control/Config.antt =====
-- crates/dap-core/src/session_init.rs: the configuration of a session's start, and the arguments that follow
-- from it. The value is serde_json's enum, as Json.Plain has it.
use dappy_core.Common.{String, Option, none, some, nat_eq, string_eq, unwrap_or}
use dappy_core.Json.Plain.{Value, plain, text, object, end, field}
use dappy_core.Plugin.Launch.{
  LaunchManifest, Host, merge_resolved, initialize_object, build_initialize_arguments,
  build_launch_arguments,
}

pub record SessionInitConfig : Type 0 where
  pub program : String
  pub adapter_id : Option String
  pub client_id : String
  pub manifest : Option LaunchManifest
  pub launch_overrides : Option Value

unfoldable pub new_config : String → SessionInitConfig
new_config program = record {
  program = program;
  adapter_id = none;
  client_id = "dap-core";
  manifest = none;
  launch_overrides = none;
}

unfoldable pub with_adapter_id : String → SessionInitConfig → SessionInitConfig
with_adapter_id adapter_id config = record config { adapter_id = some adapter_id }

unfoldable pub with_manifest : LaunchManifest → SessionInitConfig → SessionInitConfig
with_manifest manifest config = record config { manifest = some manifest }

unfoldable pub with_launch_overrides : Value → SessionInitConfig → SessionInitConfig
with_launch_overrides overrides config = record config { launch_overrides = some overrides }

-- The pieces of `merge_launch_arguments` are those of the merge of a patch that is resolved.
abbrev pub merge_launch_arguments : Value → Option Value → Value
merge_launch_arguments base overrides = merge_resolved base overrides

module _ (host : Host) where
  unfoldable pub config_initialize_arguments : SessionInitConfig → Value
  config_initialize_arguments config = elim config.manifest [
    | none ↦ initialize_object config.client_id (unwrap_or config.adapter_id "dap-proxy")
    | some manifest ↦ build_initialize_arguments host manifest config.client_id config.adapter_id
  ]

  abbrev pub base_arguments : Option LaunchManifest → String → Value
  base_arguments none program = object (field "program" (text program) end)
  base_arguments (some manifest) program = build_launch_arguments host manifest program

  unfoldable pub config_launch_arguments : SessionInitConfig → Value
  config_launch_arguments config =
      merge_launch_arguments (base_arguments config.manifest config.program) config.launch_overrides
