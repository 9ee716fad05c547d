-- ===== src/Child/Resolve.antt =====
-- crates/dap-core/src/child_session/resolve.rs: the plan for a child session.
use dappy_core.Common.{
  ℕ, ◌-◌, ◌^◌, Bool, true, false, not, ◌&&◌, ◌||◌, Option, none, some, List, [], ◌∷◌, ◌++◌, leb,
  if◌then◌else◌, ◌==◌, nat_eq, string_eq, unwrap_or, is_some,
}
use dappy_core.Common.Text.{Text, codes, same_text}
use dappy_core.Common.Text.Decimal.{parse_uint}
use dappy_core.Child.Outcome.{Outcome, ok, err, ◌>>=◌, ok_or, collect}
use dappy_core.Child.Value.{Value, Library}
use dappy_core.Child.Profile.{
  ParentBackendKind, stdio, tcp, same_kind, PortTemplate, port_number, port_template,
  ChildBackendTemplate, stdio_template, tcp_template, parent_backend_template, inherit_parent_stdio,
  DebugRequestTemplate, ChildSessionRule, ChildSessionConfig,
}
use dappy_core.Child.Template.{
  dotted_to_pointer, resolve_template_value, resolve_string_template, resolve_value_template,
}
pub mod Plans
pub mod Endpoint
pub mod Depth
pub mod Debugpy

pub record StartDebuggingArgs (N : Type 0) : Type 0 where
  pub request : Text
  pub configuration : Value N

pub record ParentSessionContext : Type 0 where
  pub backend : ParentBackendKind
  pub adapter_cmd : List Text
  pub tcp_endpoint : Option Text

pub data ChildBackendPlan : Type 0 where
  stdio_plan : Text → List Text → ChildBackendPlan
  tcp_plan : Text → ℕ → ChildBackendPlan

pub record ChildSpawnPlan (N : Type 0) : Type 0 where
  pub backend : ChildBackendPlan
  pub debug_request : Text
  pub debug_arguments : Value N
  pub child_depth : ℕ

pub record ChildSpawnResult : Type 0 where
  pub control_port : ℕ
  pub instance_id : Text

unfoldable pub strip_emit_start_debugging : List Text → List Text
strip_emit_start_debugging [] = []
strip_emit_start_debugging (arg ∷ cmd) =
    let rest = strip_emit_start_debugging cmd in
    if same_text arg (codes "--emit-start-debugging") then rest else arg ∷ rest

-- `rsplit_once(':')`: before and behind the last colon.
abbrev pub rsplit_colon : Text → Option (Text × Text)
rsplit_colon [] = none
rsplit_colon (c ∷ s) = elim (rsplit_colon s) [
  | none ↦ if c == 58 then some ([], s) else none
  | some (host, port) ↦ some (c ∷ host, port)
]

-- `u16::MAX`
abbrev pub u16_max : ℕ
u16_max = 2 ^ 16 - 1

unfoldable pub parse_host_port : Text → Outcome (Text × ℕ)
parse_host_port endpoint = do
  parts ← ok_or (rsplit_colon endpoint) (codes "invalid tcp endpoint: " ++ endpoint)
  port ← ok_or (parse_uint u16_max parts.1) (codes "invalid tcp port in endpoint: " ++ endpoint)
  ok (parts.0, port)

-- `contains`
abbrev pub contains_kind : ParentBackendKind → List ParentBackendKind → Bool
contains_kind k [] = false
contains_kind k (j ∷ js) = same_kind j k || contains_kind k js

-- The parent backends of a condition, none of which means any.
abbrev pub allows_backend : List ParentBackendKind → ParentBackendKind → Bool
allows_backend [] k = true
allows_backend (j ∷ js) k = contains_kind k (j ∷ js)

abbrev pub allows_request : Option Text → Text → Bool
allows_request none request = true
allows_request (some expected) request = same_text request expected

unfoldable pub backend_compatible : ChildBackendTemplate → ParentSessionContext → Bool
backend_compatible parent_backend_template parent = same_kind parent.backend tcp
backend_compatible inherit_parent_stdio parent = same_kind parent.backend stdio
backend_compatible (stdio_template cmd args) parent = true
backend_compatible (tcp_template host port) parent = true

-- The command of the parent without the flag, split in two.
abbrev pub inherited_command : List Text → Outcome ChildBackendPlan
inherited_command [] = err (codes "parent adapter command is empty")
inherited_command (command ∷ args) = ok (stdio_plan command args)

module _ {N : Type 0} (lib : Library N) (context : Value N) where
  -- `u16::try_from`
  abbrev as_u16 : Option ℕ → Option ℕ
  as_u16 none = none
  as_u16 (some n) = if leb n u16_max then some n else none

  unfoldable pub resolve_port : PortTemplate → Outcome ℕ
  unfolding resolve_template_value
  resolve_port (port_number port) = ok port
  resolve_port (port_template expr) = do
    value ← resolve_template_value lib context expr
    ok_or (as_u16 (lib.as_u64 value))
        (codes "port template " ++ (expr ++ codes " did not resolve to u16"))

  unfoldable pub build_child_backend :
      ChildBackendTemplate → ParentSessionContext → Outcome ChildBackendPlan
  unfolding resolve_port resolve_string_template parse_host_port strip_emit_start_debugging
  build_child_backend (stdio_template cmd args) parent = do
    command ← resolve_string_template lib context cmd
    args ← collect (resolve_string_template lib context) args
    ok (stdio_plan command args)
  build_child_backend (tcp_template host port) parent = do
    host ← resolve_string_template lib context host
    port ← resolve_port port
    ok (tcp_plan host port)
  build_child_backend parent_backend_template parent = do
    endpoint ← ok_or parent.tcp_endpoint (codes "parent has no tcp endpoint")
    parts ← parse_host_port endpoint
    ok (tcp_plan parts.0 parts.1)
  build_child_backend inherit_parent_stdio parent =
      inherited_command (strip_emit_start_debugging parent.adapter_cmd)

  unfoldable pub resolve_debug_request : DebugRequestTemplate N → Outcome (Text × Value N)
  unfolding resolve_string_template resolve_value_template
  resolve_debug_request template = do
    request ← resolve_string_template lib context template.request
    arguments ← resolve_value_template lib context template.arguments
    ok (request, arguments)

  -- Every path is there.
  abbrev pub all_exist : List Text → Bool
  all_exist [] = true
  all_exist (path ∷ paths) =
      is_some (lib.pointer context (dotted_to_pointer path)) && all_exist paths

  unfoldable pub rule_matches : ChildSessionRule N → Text → ParentSessionContext → Bool
  rule_matches rule request parent =
      allows_request rule.when.request request
      && all_exist rule.when.exists
      && allows_backend rule.when.parent_backend parent.backend

  unfoldable pub applies : Text → ParentSessionContext → ChildSessionRule N → Bool
  unfolding rule_matches backend_compatible
  applies request parent rule =
      rule_matches rule request parent && backend_compatible rule.child_backend parent

  -- `iter().find(..)`
  unfoldable pub find_rule :
      Text → ParentSessionContext → List (ChildSessionRule N) → Option (ChildSessionRule N)
  unfolding applies
  find_rule request parent [] = none
  find_rule request parent (rule ∷ rules) =
      if applies request parent rule then some rule else find_rule request parent rules

-- `serde_json::to_value` of the arguments is an argument.
module _ {N : Type 0} (lib : Library N) (to_value : StartDebuggingArgs N → Outcome (Value N)) where
  unfoldable pub resolve_rule :
      ChildSessionConfig N → ℕ → ParentSessionContext → Text → Value N → Outcome (ChildSpawnPlan N)
  resolve_rule config remaining_depth parent request context = do
    rule ←
        ok_or (find_rule lib context request parent config.profile.rules)
          (unwrap_or config.profile.unsupported_message (codes "no matching child-session rule"))
    backend ← build_child_backend lib context rule.child_backend parent
    debug_request ← resolve_debug_request lib context rule.debug_request
    ok (record {
      backend = backend;
      debug_request = debug_request.0;
      debug_arguments = debug_request.1;
      child_depth = remaining_depth - 1;
    })

  unfoldable pub resolve_child_spawn :
      ChildSessionConfig N
      → ℕ
      → ℕ
      → ParentSessionContext
      → StartDebuggingArgs N
      → Outcome (ChildSpawnPlan N)
  unfolding resolve_rule find_rule build_child_backend resolve_debug_request
  resolve_child_spawn config remaining_depth active_children parent args =
      if not config.auto_spawn
      then err (codes "child sessions are disabled")
      else if remaining_depth == 0
      then err (codes "max child depth reached")
      else if leb config.max_children active_children
      then err (codes "max concurrent children reached")
      else to_value args >>= resolve_rule config remaining_depth parent args.request
