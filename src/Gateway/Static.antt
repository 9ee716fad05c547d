-- ===== src/Gateway/Static.antt =====
-- crates/protocol-gateway/src/plugin.rs (`StaticPlugin`), spawn.rs and the builders of route.rs.
use dappy_core.Common.{
  ℕ, String, Bool, false, ◌||◌, Option, none, some, List, [], ◌∷◌, ◌==◌, nat_eq, string_eq,
}
use dappy_core.Common.Text.{Text, codes, same_text}
use dappy_core.Common.Text.Search.{split}
use dappy_core.Gateway.Registry.{RouteContext, GatewayPlugin}

pub data SpawnSpec : Type 0 where
  stdio_spec : Text → List Text → SpawnSpec
  tcp_spec : Text → ℕ → SpawnSpec
  builtin_spec : Text → SpawnSpec

pub data SpawnTransport : Type 0 where
  stdio tcp builtin : SpawnTransport

unfoldable pub transport_of : SpawnSpec → SpawnTransport
transport_of (stdio_spec command args) = stdio
transport_of (tcp_spec host port) = tcp
transport_of (builtin_spec id) = builtin

pub record StaticPlugin : Type 0 where
  pub id : String
  pub name : String
  pub launch_types : List String
  pub file_extensions : List String
  pub spawn : SpawnSpec

abbrev pub empty_context : RouteContext
empty_context = record {
  explicit_plugin = none;
  launch_type = none;
  program_path = none;
  scope = none;
}

abbrev pub with_explicit_plugin : RouteContext → String → RouteContext
with_explicit_plugin ctx id = record ctx { explicit_plugin = some id }

abbrev pub with_launch_type : RouteContext → String → RouteContext
with_launch_type ctx t = record ctx { launch_type = some t }

abbrev pub with_program_path : RouteContext → String → RouteContext
with_program_path ctx path = record ctx { program_path = some path }

-- `iter().any(|t| t == lt)`
abbrev pub any_type : List String → Option String → Bool
any_type types none = false
any_type [] (some t) = false
any_type (u ∷ types) (some t) = u == t || any_type types (some t)

abbrev last_of : List Text → Text
last_of [] = []
last_of (part ∷ []) = part
last_of (part ∷ next ∷ parts) = last_of (next ∷ parts)

-- `path.rsplit('.').next()`: what is behind the last dot, or the whole path.
unfoldable pub extension : String → Text
unfolding split
extension path = last_of (split 46 (codes path))

abbrev pub any_extension : List String → Text → Bool
any_extension [] ext = false
any_extension (e ∷ es) ext = same_text (codes e) ext || any_extension es ext

abbrev pub matches_path : List String → Option String → Bool
matches_path extensions none = false
matches_path extensions (some path) = any_extension extensions (extension path)

abbrev pub matches_target : StaticPlugin → RouteContext → Bool
matches_target p ctx =
    any_type p.launch_types ctx.launch_type || matches_path p.file_extensions ctx.program_path

unfoldable pub static_matches : StaticPlugin → RouteContext → Bool
unfolding extension
static_matches p ctx = elim ctx.explicit_plugin [
  | none ↦ matches_target p ctx
  | some id ↦ id == p.id
]

-- What the registry and the router see of it.
abbrev pub as_plugin : StaticPlugin → GatewayPlugin
as_plugin p = record { id = p.id; display_name = p.name; matches = static_matches p }
