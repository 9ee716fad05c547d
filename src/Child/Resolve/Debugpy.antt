-- ===== src/Child/Resolve/Debugpy.antt =====
-- The plan that the preset for debugpy makes (crates/dap-core/src/child_session/profile.rs, resolve.rs).
use dappy_core.Child.Template.{dotted_to_pointer}
use dappy_core.Common.{
  ◌∙◌, suc, ◌<◌, ap, [], true, ℕ, ◌≤◌, ◌≡◌, refl, some, arith, nat_eq, string_eq,
}
use dappy_core.Child.Profile.{
  debugpy_rule, ChildSessionProfile, ChildSessionConfig, debugpy_preset, same_request,
  port_template, tcp_template,
}
use dappy_core.Common.Text.{Text, codes}
use dappy_core.Child.Value.{Value, text, Library}
use dappy_core.Child.Outcome.{Outcome, ok}
use dappy_core.Child.Resolve.{
  ParentSessionContext, StartDebuggingArgs, tcp_plan, u16_max, resolve_child_spawn, applies,
  build_child_backend, resolve_debug_request,
}
use dappy_core.Child.Resolve.Plans.{resolve_child_spawn_iff}

module _ {N : Type 0} (lib : Library N) (context configuration port : Value N) (host request : Text)
    (n : ℕ) (host_at : lib.pointer context (codes "/configuration/connect/host") ≡ some (text host))
    (port_at : lib.pointer context (codes "/configuration/connect/port") ≡ some port)
    (port_is : lib.as_u64 port ≡ some n) (fits : n ≤ u16_max)
    (request_at : lib.get context (codes "request") ≡ some (text request))
    (configuration_at : lib.get context (codes "configuration") ≡ some configuration) where
  -- The request of every preset is the parent's own.
  same_request_lem : resolve_debug_request lib context same_request ≡ ok (request, configuration)
  unfolding resolve_debug_request
  same_request_lem = rw request_at (rw configuration_at refl)

  connect_lem :
      (parent : ParentSessionContext)
      → build_child_backend lib context
          (tcp_template
            (codes "${configuration.connect.host}")
            (port_template (codes "${configuration.connect.port}")))
          parent
        ≡ ok (tcp_plan host n)
  unfolding build_child_backend
  connect_lem parent = ground arith

  debugpy_rule-applies :
      (parent : ParentSessionContext)
      → applies lib context (codes "attach") parent debugpy_rule ≡ true
  unfolding applies dotted_to_pointer
  debugpy_rule-applies parent = rw (host_at, port_at) refl

  module _ (to_value : StartDebuggingArgs N → Outcome (Value N)) (config : ChildSessionConfig N)
      (depth active : ℕ) (parent : ParentSessionContext) (args : StartDebuggingArgs N)
      (valued : to_value args ≡ ok context) (asks : args.request ≡ codes "attach")
      (profiled : config.profile ≡ debugpy_preset) (on : config.auto_spawn ≡ true)
      (below : active < config.max_children) where
    -- Where spawning is on and the limits allow a child, an `attach` whose configuration names a host and a
    -- port of 16 bits is planned as a session on that endpoint, with the parent's request and configuration
    -- and one level of depth less.
    pub resolve_child_spawn-debugpy :
        resolve_child_spawn lib to_value config (suc depth) active parent args
        ≡ ok (record {
          backend = tcp_plan host n;
          debug_request = request;
          debug_arguments = configuration;
          child_depth = depth;
        })
    resolve_child_spawn-debugpy =
        (resolve_child_spawn_iff lib to_value config (suc depth) active parent args _).1 (
          on,
          below,
          refl,
          context,
          debugpy_rule,
          valued,
          (
            [],
            [],
            ap (λ (p : ChildSessionProfile N). p.rules) profiled,
            tt,
            ap (λ (r : Text). applies lib context r parent debugpy_rule) asks
                ∙ debugpy_rule-applies parent,
          ),
          connect_lem parent,
          same_request_lem,
        )
