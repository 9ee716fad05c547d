-- ===== src/Gateway/Registry/Routes.antt =====
-- Where crates/protocol-gateway/src/registry.rs routes to.
use dappy_core.Common.{
  sym, ◌∙◌, if_keeps, subst, String, ◌≡◌, refl, inl, inr, true, none, some, List, [], ◌∷◌, ◌++◌,
  arith, eq_iff, if◌then◌else◌, Bool-cases, ◌==◌, nat_eq, string_eq, ==-eq, or_else, is_some,
  if_keeps_eq, match_keeps_eq,
}
use dappy_core.Gateway.Registry.{
  RouteContext, RouteMatch, GatewayPlugin, PluginRegistry, Result, ok, err, find_plugin, any_plugin,
  register, get, first_match, default_route, resolve,
}

-- A route, if there is one, leads to a plugin of the registry.
abbrev pub LeadsInto : PluginRegistry → Result RouteMatch → Type 0
LeadsInto r (ok found) = is_some (get r found.plugin_id) ≡ true
LeadsInto r (err e) = Unit

first_match-found :
    (ps : List GatewayPlugin) (ctx : RouteContext) (found : RouteMatch)
    → first_match ps ctx ≡ some found
    → is_some (find_plugin ps found.plugin_id) ≡ true
unfolding first_match find_plugin
first_match-found [] ctx found h = absurd (cc h)
first_match-found (p ∷ ps) ctx found h =
    ground (arith, first_match-found ps ctx found, eq_iff p.id p.id)

-- Whatever the context asks for, `resolve` routes to plugins of the registry only.
pub resolve-LeadsInto : (r : PluginRegistry) (ctx : RouteContext) → LeadsInto r (resolve r ctx)
unfolding resolve default_route get
resolve-LeadsInto r ctx =
    match_keeps_eq (LeadsInto r) ctx.explicit_plugin _ _
      (match_keeps_eq (LeadsInto r) (first_match r.plugins ctx) _ _
        (match_keeps_eq (LeadsInto r) r.default_plugin _ _ tt (λ id e.
          if_keeps_eq (LeadsInto r) (is_some (get r id)) _ _ (λ there. there) (λ gone. tt)))
        (λ found e. first_match-found r.plugins ctx found e))
      (λ id e. if_keeps_eq (LeadsInto r) (is_some (get r id)) _ _ (λ there. there) (λ gone. tt))

find_plugin-append :
    (ps : List GatewayPlugin) (p : GatewayPlugin) (id : String)
    → find_plugin (ps ++ p ∷ []) id
      ≡ or_else (find_plugin ps id) (if p.id == id then some p else none)
unfolding find_plugin
find_plugin-append [] p id = refl
find_plugin-append (q ∷ ps) p id = ground (arith, find_plugin-append ps p id)

any_plugin-find :
    (ps : List GatewayPlugin) (id : String) → any_plugin ps id ≡ is_some (find_plugin ps id)
unfolding any_plugin find_plugin
any_plugin-find [] id = refl
any_plugin-find (q ∷ ps) id = ground (arith, any_plugin-find ps id)

-- After `register`, a plugin whose id was free is found under it, one whose id was taken is refused and
-- the old one found, and every other id finds what it found before.
pub get-register :
    (r : PluginRegistry) (p : GatewayPlugin) (id : String)
    → get (register r p).1 id ≡ or_else (get r id) (if p.id == id then some p else none)
unfolding register get
get-register r p id = elim (Bool-cases (any_plugin r.plugins p.id)) [
  | inl taken ↦ elim (Bool-cases (p.id == id)) [
    | inl same ↦
        let there =
          subst (λ i. is_some (find_plugin r.plugins i) ≡ true) (==-eq p.id id same)
            (sym (any_plugin-find r.plugins p.id) ∙ taken) in
        rw (taken, register) (ground (arith, there))
    | inr apart ↦ rw (taken, register) (ground (arith, apart))
  ]
  | inr free ↦ rw (free, register) (find_plugin-append r.plugins p id)
]

first_match-append :
    (ps qs : List GatewayPlugin) (ctx : RouteContext)
    → first_match (ps ++ qs) ctx ≡ or_else (first_match ps ctx) (first_match qs ctx)
unfolding first_match
first_match-append [] qs ctx = refl
first_match-append (p ∷ ps) qs ctx = ground (arith, first_match-append ps qs ctx)

resolve-matched :
    (r : PluginRegistry) (ctx : RouteContext) (found : RouteMatch)
    → ctx.explicit_plugin ≡ none
    → first_match r.plugins ctx ≡ some found
    → resolve r ctx ≡ ok found
unfolding resolve
resolve-matched r ctx found quiet h = ground (arith, quiet, h)

first_match-register :
    (r : PluginRegistry) (p : GatewayPlugin) (ctx : RouteContext) (found : RouteMatch)
    → first_match r.plugins ctx ≡ some found
    → first_match (register r p).1.plugins ctx ≡ some found
unfolding register
first_match-register r p ctx found h =
    if_keeps {A = Result (Unit {0}) × PluginRegistry}
      (λ o. first_match o.1.plugins ctx ≡ some found) (any_plugin r.plugins p.id) _ _ h
      (first_match-append r.plugins (p ∷ []) ctx ∙ rw h refl)

-- A context that names no plugin and that a registered one matches is routed to the first that does, and
-- goes on being routed there whatever is registered next.
pub resolve-register :
    (r : PluginRegistry) (p : GatewayPlugin) (ctx : RouteContext) (found : RouteMatch)
    → ctx.explicit_plugin ≡ none
    → first_match r.plugins ctx ≡ some found
    → (resolve r ctx ≡ ok found) × (resolve (register r p).1 ctx ≡ ok found)
resolve-register r p ctx found quiet h = (
  resolve-matched r ctx found quiet h,
  resolve-matched (register r p).1 ctx found quiet (first_match-register r p ctx found h),
)
