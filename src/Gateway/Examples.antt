-- ===== src/Gateway/Examples.antt =====
-- A registry of crates/protocol-gateway on which its theorems are applied.
use dappy_core.Common.{
  arith, String, ◌≡◌, refl, none, some, nat_eq, string_eq, is_text, [], ◌∷◌, List,
}
use dappy_core.Common.Text.{codes}
use dappy_core.Json.Plain.{Value, plain, object, end}
use dappy_core.Gateway.Static.{stdio, tcp_spec}
use dappy_core.Gateway.Launch.{
  PluginManifest, LaunchOptions, resolve_route, get_manifest, launch_to_route_context,
  adapter_to_spawn_spec, spawn_spec_to_adapter,
}
use dappy_core.Gateway.Launch.Routing.{route_of, resolve_route_lem}
use dappy_core.Gateway.Launch.Spawning.{adapter_to_spawn_spec-spawn_spec_to_adapter}
use dappy_core.Gateway.Registry.{PluginRegistry, GatewayPlugin, RouteContext, register, new}

abbrev plugin_for : String → String → GatewayPlugin
plugin_for name kind = record {
  id = name;
  display_name = name;
  matches = λ ctx. is_text ctx.launch_type kind;
}

abbrev two_plugins : PluginRegistry
two_plugins =
    (register (register new (plugin_for "python" "debugpy")).1 (plugin_for "rust" "lldb")).1

abbrev launch_rust : RouteContext
launch_rust = record {
  explicit_plugin = none;
  launch_type = some "lldb";
  program_path = none;
  scope = none;
}

abbrev go : GatewayPlugin
go = plugin_for "go" "dlv"

abbrev manifest_for : String → String → PluginManifest
manifest_for name extension = record {
  id = name;
  name = name;
  version = "0.1.0";
  languages = [];
  launch_types = name ∷ [];
  file_extensions = extension ∷ [];
  adapter = record { transport = stdio; command = codes name; args = [] };
}

abbrev manifests : List PluginManifest
manifests = manifest_for "fake" "txt" ∷ manifest_for "python" "py" ∷ []

abbrev run_script : LaunchOptions Value
run_script = record {
  request = "launch";
  program = some "src/a.py";
  adapter = none;
  extra = object end;
}

resolve_route_lem_example :
    resolve_route plain manifests run_script
    ≡ route_of manifests none (launch_to_route_context plain run_script)
unfolding get_manifest
resolve_route_lem_example = resolve_route_lem plain manifests run_script (refl, (refl, tt))

adapter_to_spawn_spec-spawn_spec_to_adapter_example :
    adapter_to_spawn_spec (spawn_spec_to_adapter (tcp_spec (codes "localhost") 5678))
    ≡ tcp_spec (codes "localhost") 5678
adapter_to_spawn_spec-spawn_spec_to_adapter_example =
    adapter_to_spawn_spec-spawn_spec_to_adapter (tcp_spec (codes "localhost") 5678)
      ((refl, (refl, (refl, (refl, (refl, (refl, (refl, (refl, (refl, tt))))))))), omega arith)
