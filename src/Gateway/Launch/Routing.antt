-- ===== src/Gateway/Launch/Routing.antt =====
-- What crates/dap-core/src/gateway.rs routes a launch to.
use dappy_core.Common.{
  String, ◌≡◌, refl, sym, ap, ◌∙◌, inl, inr, Bool, true, false, Option, none, some, List, [], ◌∷◌,
  arith, eq_iff, if◌then◌else◌, nat_eq, string_eq, Option-cases,
}
use dappy_core.Json.{Json}
use dappy_core.Gateway.Registry.{
  RouteContext, RouteMatch, GatewayPlugin, GatewayError, plugin_not_found, no_route, PluginRegistry,
  Result, ok, err, register, set_default, resolve, find_plugin, any_plugin, first_match,
  default_route, implicit_route,
}
use dappy_core.Gateway.Registry
use dappy_core.Gateway.Static.{static_matches, empty_context, with_launch_type, with_program_path}
use dappy_core.Gateway.Launch.{
  PluginManifest, get_manifest, manifest_to_static_plugin, LaunchOptions, LaunchMatch,
  launch_to_route_context, match_manifest, resolve_route, with_program, with_type, with_adapter,
  type_of,
}
use dappy_core.Gateway.Launch.Manifests.{
  AreDistinct, plugins_of, gateway, find_plugin-plugins_of, build_gateway_registry-eq,
}

-- The first manifest whose plugin matches.
abbrev pub first_serving : List PluginManifest → RouteContext → Option PluginManifest
first_serving [] ctx = none
first_serving (m ∷ ms) ctx =
    if static_matches (manifest_to_static_plugin m) ctx then some m else first_serving ms ctx

abbrev id_of : Option PluginManifest → Option RouteMatch
id_of none = none
id_of (some m) = some (record { plugin_id = m.id })

first_match-plugins_of :
    (ms : List PluginManifest) (ctx : RouteContext)
    → first_match (plugins_of ms) ctx ≡ id_of (first_serving ms ctx)
unfolding first_match manifest_to_static_plugin
first_match-plugins_of [] ctx = refl
first_match-plugins_of (m ∷ ms) ctx = ground (arith, first_match-plugins_of ms ctx)

-- A manifest that serves is the one of its id.
get_manifest-first_serving :
    (ms : List PluginManifest) (ctx : RouteContext) (m : PluginManifest)
    → AreDistinct ms
    → first_serving ms ctx ≡ some m
    → get_manifest ms m.id ≡ some m
unfolding get_manifest
get_manifest-first_serving [] ctx m d h = cc
get_manifest-first_serving (n ∷ ms) ctx m d h =
    ground (arith, get_manifest-first_serving ms ctx m d.1, eq_iff n.id m.id)

-- Found, or an error.
abbrev pub found_as : String → Option PluginManifest → GatewayError → Result LaunchMatch
found_as id none e = err e
found_as id (some m) e = ok (record { adapter_id = id; manifest = m })

-- The manifest that serves, or the one called fake.
abbrev pub served_or_fake : List PluginManifest → Option PluginManifest → Result LaunchMatch
served_or_fake ms (some m) = ok (record { adapter_id = m.id; manifest = m })
served_or_fake ms none = found_as "fake" (get_manifest ms "fake") no_route

named_route :
    (ms : List PluginManifest) (ctx : RouteContext) (id : String)
    → ctx.explicit_plugin ≡ some id
    → match_manifest ms (resolve (gateway ms) ctx)
      ≡ found_as id (get_manifest ms id) (plugin_not_found id)
unfolding resolve Registry.get
named_route ms ctx id e = ground (arith, find_plugin-plugins_of ms id)

implicit_route_lem :
    (ms : List PluginManifest) (ctx : RouteContext)
    → AreDistinct ms
    → ctx.explicit_plugin ≡ none
    → match_manifest ms (resolve (gateway ms) ctx) ≡ served_or_fake ms (first_serving ms ctx)
unfolding resolve Registry.get
implicit_route_lem ms ctx d e = elim (Option-cases (first_serving ms ctx)) [
  | inl nobody ↦
      ground (arith, first_match-plugins_of ms ctx, find_plugin-plugins_of ms "fake", nobody)
  | inr (m, serves) ↦
      ground (arith, first_match-plugins_of ms ctx, get_manifest-first_serving ms ctx m d serves)
]

-- What a launch is routed to: the manifest that it names, or else the first that serves its context, or
-- else the one called fake.
abbrev pub route_of : List PluginManifest → Option String → RouteContext → Result LaunchMatch
route_of ms (some id) ctx = found_as id (get_manifest ms id) (plugin_not_found id)
route_of ms none ctx = served_or_fake ms (first_serving ms ctx)

either_explicit :
    (b : Bool) (x y : RouteContext)
    → x.explicit_plugin ≡ y.explicit_plugin
    → (if b then x else y).explicit_plugin ≡ y.explicit_plugin
either_explicit true x y h = h
either_explicit false x y h = refl

module _ {V : Type 0} (json : Json V) where
  with_program-explicit :
      (launch : LaunchOptions V) (o : Option String) (ctx : RouteContext)
      → (with_program json launch o ctx).explicit_plugin ≡ ctx.explicit_plugin
  with_program-explicit launch none ctx = refl
  with_program-explicit launch (some program) ctx =
      either_explicit _ (with_launch_type (with_program_path ctx program) "rust")
        (with_program_path ctx program) refl

  with_type-explicit :
      (o : Option String) (ctx : RouteContext)
      → (with_type json o ctx).explicit_plugin ≡ ctx.explicit_plugin
  with_type-explicit none ctx = refl
  with_type-explicit (some t) ctx = refl

  with_adapter-explicit :
      (o : Option String) → (with_adapter json o empty_context).explicit_plugin ≡ o
  with_adapter-explicit none = refl
  with_adapter-explicit (some id) = refl

  explicit_plugin-context :
      (launch : LaunchOptions V)
      → (launch_to_route_context json launch).explicit_plugin ≡ launch.adapter
  unfolding launch_to_route_context
  explicit_plugin-context launch =
      with_type-explicit (type_of json launch) _
      ∙ with_program-explicit launch launch.program _
      ∙ with_adapter-explicit launch.adapter

  -- Over manifests of which no two share an id, a launch is routed to the manifest that it names, with an
  -- error where there is none; a launch that names none to the first manifest in order whose plugin matches
  -- the context, or else to the one called fake, with an error where that is missing too.
  pub resolve_route_lem :
      (ms : List PluginManifest) (launch : LaunchOptions V)
      → AreDistinct ms
      → resolve_route json ms launch
        ≡ route_of ms launch.adapter (launch_to_route_context json launch)
  unfolding resolve_route
  resolve_route_lem ms launch d =
      ap
        (λ (gw : PluginRegistry).
          match_manifest ms (resolve gw (launch_to_route_context json launch)))
        (build_gateway_registry-eq ms d)
      ∙ elim (Option-cases launch.adapter) [
        | inl unnamed ↦
            implicit_route_lem ms (launch_to_route_context json launch) d
              (explicit_plugin-context launch ∙ unnamed)
            ∙ sym (
                ap (λ (o : Option String). route_of ms o (launch_to_route_context json launch))
                  unnamed)
        | inr (id, named) ↦
            named_route ms (launch_to_route_context json launch) id
              (explicit_plugin-context launch ∙ named)
            ∙ sym (
                ap (λ (o : Option String). route_of ms o (launch_to_route_context json launch))
                  named)
      ]
