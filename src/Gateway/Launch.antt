-- ===== src/Gateway/Launch.antt =====
-- crates/dap-core/src/gateway.rs, rust_routing.rs and the manifests in registry.rs: the adapter of a launch.
use dappy_core.Common.Text.{trim_start_by, Text, codes, strip_prefix}
use dappy_core.Gateway.Static.{
  any_type, any_extension, SpawnSpec, stdio_spec, tcp_spec, builtin_spec, SpawnTransport, stdio,
  tcp, builtin, StaticPlugin, empty_context, with_explicit_plugin, with_launch_type,
  with_program_path, as_plugin,
}
use dappy_core.Common.{
  ℕ, zero, suc, ◌+◌, ◌-◌, ◌*◌, ◌/◌, ◌%◌, ◌^◌, ◌≤◌, ◌<◌, String, ◌≡◌, refl, sym, ap, ◌∙◌, subst, ◌≢◌,
  ◌↔◌, ◌⊎◌, inl, inr, Bool, true, false, not, ◌&&◌, ◌||◌, Option, none, some, List, [], ◌∷◌, ◌++◌,
  map, arith, eq_iff, ltb, leb, if◌then◌else◌, Bool-cases, Eq, ◌==◌, nat_eq, string_eq, ==-refl,
  ==-eq, and_then, unwrap_or, or_else, is_some, Option-cases, is_text, is_true, is_false, length,
  get_elem?, set, remove_at, filter_map, find_map,
}
use dappy_core.Json.{Json}
use dappy_core.Common.Text.Decimal.{parse_uint, print_u64}
use dappy_core.Common.Text.Search.{contains}
use dappy_core.Gateway.Registry.{
  RouteContext, RouteMatch, GatewayPlugin, GatewayError, plugin_not_found, PluginRegistry, Result,
  ok, err, register, set_default, resolve,
}
use dappy_core.Gateway.Registry
pub mod Spawning
pub mod Manifests
pub mod Routing

-- How a manifest says that its adapter is reached. Its transport is an enum of its own in the source, with
-- the same three cases.
pub record AdapterSpawn : Type 0 where
  pub transport : SpawnTransport
  pub command : Text
  pub args : List Text

-- A manifest without what it says of the start of a session.
pub record PluginManifest : Type 0 where
  pub id : String
  pub name : String
  pub version : String
  pub languages : List String
  pub launch_types : List String
  pub file_extensions : List String
  pub adapter : AdapterSpawn

-- `retain(|p| p.id != manifest.id)`
abbrev pub without_id : List PluginManifest → String → List PluginManifest
without_id [] id = []
without_id (p ∷ ps) id = let rest = without_id ps id in if p.id == id then rest else p ∷ rest

unfoldable pub register_manifest : List PluginManifest → PluginManifest → List PluginManifest
register_manifest plugins manifest = without_id plugins manifest.id ++ manifest ∷ []

unfoldable pub get_manifest : List PluginManifest → String → Option PluginManifest
get_manifest [] id = none
get_manifest (p ∷ ps) id = if p.id == id then some p else get_manifest ps id

unfoldable pub find_by_launch_type : List PluginManifest → String → Option PluginManifest
find_by_launch_type [] t = none
find_by_launch_type (p ∷ ps) t =
    if any_type p.launch_types (some t) then some p else find_by_launch_type ps t

abbrev pub first_with_extension : List PluginManifest → Text → Option PluginManifest
first_with_extension [] ext = none
first_with_extension (p ∷ ps) ext =
    if any_extension p.file_extensions ext then some p else first_with_extension ps ext

-- `trim_start_matches('.')`
unfoldable pub find_by_extension : List PluginManifest → Text → Option PluginManifest
find_by_extension plugins ext = first_with_extension plugins (trim_start_by (λ c. c == 46) ext)

-- `split_once(':')`
abbrev pub split_colon : Text → Option (Text × Text)
split_colon [] = none
split_colon (c ∷ s) =
    if c == 58
    then some ([], s)
    else elim (split_colon s) [ none ↦ none | some (host, port) ↦ some (c ∷ host, port) ]

-- The host and the port of a command, or the whole command and no port.
abbrev pub endpoint_of : Text → Option (Text × Text) → SpawnSpec
endpoint_of command none = tcp_spec command 0
endpoint_of command (some (host, port)) = elim (parse_uint (2 ^ 16 - 1) port) [
  | none ↦ tcp_spec command 0
  | some n ↦ tcp_spec host n
]

abbrev pub spawn_spec_of : SpawnTransport → Text → List Text → SpawnSpec
spawn_spec_of stdio command args = stdio_spec command args
spawn_spec_of tcp command args = endpoint_of command (split_colon command)
spawn_spec_of builtin command args = builtin_spec command

unfoldable pub adapter_to_spawn_spec : AdapterSpawn → SpawnSpec
adapter_to_spawn_spec adapter = spawn_spec_of adapter.transport adapter.command adapter.args

unfoldable pub spawn_spec_to_adapter : SpawnSpec → AdapterSpawn
spawn_spec_to_adapter (stdio_spec command args) = record {
  transport = stdio;
  command = command;
  args = args;
}
spawn_spec_to_adapter (tcp_spec host port) = record {
  transport = tcp;
  command = host ++ 58 ∷ print_u64 port;
  args = [];
}
spawn_spec_to_adapter (builtin_spec id) = record { transport = builtin; command = id; args = [] }

unfoldable pub manifest_to_static_plugin : PluginManifest → StaticPlugin
unfolding adapter_to_spawn_spec
manifest_to_static_plugin manifest = record {
  id = manifest.id;
  name = manifest.name;
  launch_types = manifest.launch_types;
  file_extensions = manifest.file_extensions;
  spawn = adapter_to_spawn_spec manifest.adapter;
}

abbrev pub plugin_of : PluginManifest → GatewayPlugin
unfolding manifest_to_static_plugin
plugin_of manifest = as_plugin (manifest_to_static_plugin manifest)

-- The loop of `build_gateway_registry`, which drops what `register` answers.
abbrev pub register_all : PluginRegistry → List PluginManifest → PluginRegistry
register_all gw [] = gw
register_all gw (manifest ∷ manifests) =
    register_all (register gw (as_plugin (manifest_to_static_plugin manifest))).1 manifests

abbrev pub default_to_fake : PluginRegistry → PluginRegistry
default_to_fake gw = if is_some (Registry.get gw "fake") then set_default gw "fake" else gw

unfoldable pub build_gateway_registry : List PluginManifest → PluginRegistry
unfolding Registry.new register set_default Registry.get manifest_to_static_plugin
build_gateway_registry manifests = default_to_fake (register_all Registry.new manifests)

-- `path.replace('\\', "/")`
abbrev pub normalized : Text → Text
normalized [] = []
normalized (c ∷ s) = (if c == 92 then 47 else c) ∷ normalized s

unfoldable pub looks_like_cargo_binary : Text → Bool
looks_like_cargo_binary path =
    contains (normalized path) (codes "/target/debug/")
    || contains (normalized path) (codes "/target/release/")
    || is_some (strip_prefix (normalized path) (codes "target/debug/"))
    || is_some (strip_prefix (normalized path) (codes "target/release/"))

pub record LaunchOptions (V : Type 0) : Type 0 where
  pub request : String
  pub program : Option String
  pub adapter : Option String
  pub extra : V

pub record LaunchMatch : Type 0 where
  pub adapter_id : String
  pub manifest : PluginManifest

abbrev pub match_manifest : List PluginManifest → Result RouteMatch → Result LaunchMatch
match_manifest manifests (err e) = err e
match_manifest manifests (ok matched) = elim (get_manifest manifests matched.plugin_id) [
  | none ↦ err (plugin_not_found matched.plugin_id)
  | some manifest ↦ ok (record { adapter_id = matched.plugin_id; manifest = manifest })
]

module _ {V : Type 0} (json : Json V) where
  abbrev pub type_of : LaunchOptions V → Option String
  type_of launch = and_then (json.get launch.extra "type") json.as_str

  abbrev pub with_adapter : Option String → RouteContext → RouteContext
  with_adapter none ctx = ctx
  with_adapter (some id) ctx = with_explicit_plugin ctx id

  -- The program, and the type that the path of a Cargo build stands for.
  abbrev pub with_program : LaunchOptions V → Option String → RouteContext → RouteContext
  with_program launch none ctx = ctx
  with_program launch (some program) ctx =
      let located = with_program_path ctx program in
      if not (is_some launch.adapter)
        && not (is_some (type_of launch))
        && looks_like_cargo_binary (codes program)
      then with_launch_type located "rust"
      else located

  abbrev pub with_type : Option String → RouteContext → RouteContext
  with_type none ctx = ctx
  with_type (some t) ctx = with_launch_type ctx t

  unfoldable pub launch_to_route_context : LaunchOptions V → RouteContext
  unfolding looks_like_cargo_binary
  launch_to_route_context launch =
      with_type (type_of launch)
        (with_program launch launch.program (with_adapter launch.adapter empty_context))

  unfoldable pub resolve_route : List PluginManifest → LaunchOptions V → Result LaunchMatch
  unfolding build_gateway_registry resolve launch_to_route_context get_manifest
  resolve_route manifests launch =
      match_manifest manifests
        (resolve (build_gateway_registry manifests) (launch_to_route_context launch))
