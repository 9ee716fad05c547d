-- ===== src/Gateway/Registry.antt =====
-- crates/protocol-gateway/src/registry.rs, route.rs, error.rs and the interface of plugin.rs. A plugin is
-- what the registry and the router ask of it: its id and whether it matches.
use dappy_core.Common.{
  ℕ, zero, suc, ◌+◌, ◌-◌, ◌*◌, ◌/◌, ◌%◌, ◌^◌, ◌≤◌, ◌<◌, String, ◌≡◌, refl, sym, ap, ◌∙◌, subst, ◌≢◌,
  ◌↔◌, ◌⊎◌, inl, inr, Bool, true, false, not, ◌&&◌, ◌||◌, Option, none, some, List, [], ◌∷◌, ◌++◌,
  map, arith, eq_iff, ltb, leb, if◌then◌else◌, Bool-cases, Eq, ◌==◌, nat_eq, string_eq, ==-refl,
  ==-eq, and_then, unwrap_or, or_else, is_some, Option-cases, is_text, is_true, is_false, length,
  get_elem?, set, remove_at, filter_map, find_map,
}
pub mod Routes

pub record RouteContext : Type 0 where
  pub explicit_plugin : Option String
  pub launch_type : Option String
  pub program_path : Option String
  pub scope : Option String

pub record RouteMatch : Type 0 where
  pub plugin_id : String

pub record GatewayPlugin : Type 0 where
  pub id : String
  pub display_name : String
  pub matches : RouteContext → Bool

pub data GatewayError : Type 0 where
  plugin_not_found duplicate_plugin other_error : String → GatewayError
  no_route : GatewayError

-- `Result<A, GatewayError>`
pub data Result (A : Type 0) : Type 0 where
  ok : A → Result A
  err : GatewayError → Result A

pub record PluginRegistry : Type 0 where
  pub plugins : List GatewayPlugin
  pub default_plugin : Option String

unfoldable pub new : PluginRegistry
new = record { plugins = []; default_plugin = none }

-- `plugins.iter().find(|p| p.id() == id)`
unfoldable pub find_plugin : List GatewayPlugin → String → Option GatewayPlugin
find_plugin [] id = none
find_plugin (p ∷ ps) id = if p.id == id then some p else find_plugin ps id

-- `plugins.iter().any(|p| p.id() == id)`
unfoldable pub any_plugin : List GatewayPlugin → String → Bool
any_plugin [] id = false
any_plugin (p ∷ ps) id = p.id == id || any_plugin ps id

unfoldable pub register : PluginRegistry → GatewayPlugin → Result (Unit {0}) × PluginRegistry
register r p =
    if any_plugin r.plugins p.id
    then (err (duplicate_plugin p.id), r)
    else (ok tt, record r { plugins = r.plugins ++ p ∷ [] })

unfoldable pub set_default : PluginRegistry → String → PluginRegistry
set_default r id = record r { default_plugin = some id }

unfoldable pub get : PluginRegistry → String → Option GatewayPlugin
get r id = find_plugin r.plugins id

unfoldable pub list_ids : PluginRegistry → List String
list_ids r = map (λ p. p.id) r.plugins

-- The loop of `resolve` over the plugins.
unfoldable pub first_match : List GatewayPlugin → RouteContext → Option RouteMatch
first_match [] ctx = none
first_match (p ∷ ps) ctx =
    if p.matches ctx then some (record { plugin_id = p.id }) else first_match ps ctx

-- The default plugin, if there is one and it is registered.
unfoldable pub default_route : PluginRegistry → Result RouteMatch
default_route r = elim r.default_plugin [
  | none ↦ err no_route
  | some id ↦ if is_some (get r id) then ok (record { plugin_id = id }) else err no_route
]

unfoldable pub implicit_route : PluginRegistry → RouteContext → Result RouteMatch
unfolding default_route
implicit_route r ctx = elim (first_match r.plugins ctx) [
  | none ↦ default_route r
  | some found ↦ ok found
]

unfoldable pub resolve : PluginRegistry → RouteContext → Result RouteMatch
unfolding implicit_route
resolve r ctx = elim ctx.explicit_plugin [
  | none ↦ implicit_route r ctx
  | some id ↦
      if is_some (get r id) then ok (record { plugin_id = id }) else err (plugin_not_found id)
]
