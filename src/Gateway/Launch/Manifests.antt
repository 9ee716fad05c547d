-- ===== src/Gateway/Launch/Manifests.antt =====
-- The manifests of crates/dap-core/src/registry.rs, and the gateway registry that is built of them.
use dappy_core.Common.{
  String, ◌≡◌, refl, sym, ap, ◌∙◌, inl, inr, false, ◌||◌, none, some, List, [], ◌∷◌, ◌++◌, arith,
  eq_iff, if◌then◌else◌, Bool-cases, ◌==◌, nat_eq, string_eq, or_else, is_some,
}
use mathlib.Core.List.{append_assoc, append-nil}
use dappy_core.Gateway.Registry.{
  RouteContext, RouteMatch, GatewayPlugin, GatewayError, plugin_not_found, no_route, PluginRegistry,
  Result, ok, err, register, set_default, resolve, find_plugin, any_plugin, first_match,
  default_route, implicit_route,
}
use dappy_core.Gateway.Registry
use dappy_core.Gateway.Static.{as_plugin}
use dappy_core.Gateway.Launch.{
  PluginManifest, get_manifest, register_manifest, without_id, manifest_to_static_plugin,
  register_all, default_to_fake, build_gateway_registry,
}

-- No two manifests share an id.
abbrev pub AreDistinct : List PluginManifest → Type 0
AreDistinct [] = Unit
AreDistinct (m ∷ ms) = (get_manifest ms m.id ≡ none) × AreDistinct ms

abbrev pub plugins_of : List PluginManifest → List GatewayPlugin
plugins_of [] = []
plugins_of (m ∷ ms) = as_plugin (manifest_to_static_plugin m) ∷ plugins_of ms

-- The gateway has none of the ids.
abbrev AreNew : List GatewayPlugin → List PluginManifest → Type 0
AreNew ps [] = Unit
AreNew ps (m ∷ ms) = (any_plugin ps m.id ≡ false) × AreNew ps ms

AreNew-nil : (ms : List PluginManifest) → AreNew [] ms
unfolding any_plugin
AreNew-nil [] = tt
AreNew-nil (m ∷ ms) = (refl, AreNew-nil ms)

any_plugin-append :
    (ps : List GatewayPlugin) (p : GatewayPlugin) (id : String)
    → any_plugin (ps ++ p ∷ []) id ≡ (any_plugin ps id || p.id == id)
unfolding any_plugin
any_plugin-append [] p id = ground arith
any_plugin-append (q ∷ ps) p id = ground (arith, any_plugin-append ps p id)

AreNew-append :
    (ps : List GatewayPlugin) (m : PluginManifest) (ms : List PluginManifest)
    → AreNew ps ms
    → get_manifest ms m.id ≡ none
    → AreNew (ps ++ as_plugin (manifest_to_static_plugin m) ∷ []) ms
unfolding get_manifest manifest_to_static_plugin
AreNew-append ps m [] new gone = tt
AreNew-append ps m (n ∷ ms) new gone = (
  ground (
    arith,
    any_plugin-append ps (as_plugin (manifest_to_static_plugin m)) n.id,
    eq_iff m.id n.id,
    eq_iff n.id m.id,
  ),
  AreNew-append ps m ms new.1 (ground arith),
)

register-new :
    (gw : PluginRegistry) (p : GatewayPlugin)
    → any_plugin gw.plugins p.id ≡ false
    → (register gw p).1 ≡ record gw { plugins = gw.plugins ++ p ∷ [] }
unfolding register
register-new gw p h = rw h refl

register_all-eq :
    (gw : PluginRegistry) (ms : List PluginManifest)
    → AreDistinct ms
    → AreNew gw.plugins ms
    → register_all gw ms ≡ record gw { plugins = gw.plugins ++ plugins_of ms }
unfolding manifest_to_static_plugin
register_all-eq gw [] d new =
    ap (λ (l : List GatewayPlugin). record gw { plugins = l }) (sym (append-nil gw.plugins))
register_all-eq gw (m ∷ ms) d new =
    let p = as_plugin (manifest_to_static_plugin m) in
    let longer : PluginRegistry = record gw { plugins = gw.plugins ++ p ∷ [] } in
    ap (λ (g : PluginRegistry). register_all g ms) (register-new gw p new.0)
    ∙ register_all-eq longer ms d.1 (AreNew-append gw.plugins m ms new.1 d.0)
    ∙ ap (λ (l : List GatewayPlugin). record gw { plugins = l })
        (append_assoc gw.plugins (p ∷ []) (plugins_of ms))

pub find_plugin-plugins_of :
    (ms : List PluginManifest) (id : String)
    → is_some (find_plugin (plugins_of ms) id) ≡ is_some (get_manifest ms id)
unfolding find_plugin get_manifest manifest_to_static_plugin
find_plugin-plugins_of [] id = refl
find_plugin-plugins_of (m ∷ ms) id = ground (arith, find_plugin-plugins_of ms id)

-- The gateway registry of manifests: their plugins in order, and the one called fake by default.
abbrev pub gateway : List PluginManifest → PluginRegistry
gateway ms = record {
  plugins = plugins_of ms;
  default_plugin = if is_some (get_manifest ms "fake") then some "fake" else none;
}

default_to_fake-eq :
    (ms : List PluginManifest)
    → default_to_fake (record { plugins = plugins_of ms; default_plugin = none }) ≡ gateway ms
unfolding Registry.get set_default
default_to_fake-eq ms = ground (arith, find_plugin-plugins_of ms "fake")

pub build_gateway_registry-eq :
    (ms : List PluginManifest) → AreDistinct ms → build_gateway_registry ms ≡ gateway ms
unfolding build_gateway_registry Registry.new
build_gateway_registry-eq ms d =
    ap default_to_fake (register_all-eq Registry.new ms d (AreNew-nil ms)) ∙ default_to_fake-eq ms

get_manifest-without_id :
    (ps : List PluginManifest) (id j : String)
    → get_manifest (without_id ps id) j ≡ (if id == j then none else get_manifest ps j)
unfolding get_manifest
get_manifest-without_id [] id j = ground arith
get_manifest-without_id (p ∷ ps) id j =
    ground (arith, get_manifest-without_id ps id j, eq_iff p.id id, eq_iff p.id j, eq_iff id j)

get_manifest-append :
    (ps : List PluginManifest) (m : PluginManifest) (j : String)
    → get_manifest (ps ++ m ∷ []) j
      ≡ or_else (get_manifest ps j) (if m.id == j then some m else none)
unfolding get_manifest
get_manifest-append [] m j = refl
get_manifest-append (p ∷ ps) m j = ground (arith, get_manifest-append ps m j)

without_id-AreDistinct :
    (ps : List PluginManifest) (id : String) → AreDistinct ps → AreDistinct (without_id ps id)
without_id-AreDistinct [] id d = tt
without_id-AreDistinct (p ∷ ps) id d = elim (Bool-cases (p.id == id)) [
  | inl e ↦ rw e (without_id-AreDistinct ps id d.1)
  | inr e ↦
      rw e (ground (arith, get_manifest-without_id ps id p.id), without_id-AreDistinct ps id d.1)
]

append-AreDistinct :
    (ps : List PluginManifest) (m : PluginManifest)
    → AreDistinct ps
    → get_manifest ps m.id ≡ none
    → AreDistinct (ps ++ m ∷ [])
unfolding get_manifest
append-AreDistinct [] m d new = (refl, tt)
append-AreDistinct (p ∷ ps) m d new = (
  ground (arith, get_manifest-append ps m p.id, eq_iff p.id m.id, eq_iff m.id p.id),
  append-AreDistinct ps m d.1 (ground arith),
)

-- A manifest that is registered takes the place of the one with its id.
pub register_manifest-AreDistinct :
    (ps : List PluginManifest) (m : PluginManifest)
    → AreDistinct ps
    → AreDistinct (register_manifest ps m)
unfolding register_manifest
register_manifest-AreDistinct ps m d =
    append-AreDistinct (without_id ps m.id) m (without_id-AreDistinct ps m.id d)
      (get_manifest-without_id ps m.id m.id ∙ ground (arith, eq_iff m.id m.id))
