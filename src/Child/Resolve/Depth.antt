-- ===== src/Child/Resolve/Depth.antt =====
-- How deep child sessions nest (crates/dap-core/src/child_session/resolve.rs): a child is started with the
-- depth of its plan, and resolves the plans of its own children with it.
use dappy_core.Common.{ℕ, ◌≤◌, ◌≡◌, List, [], ◌∷◌, arith, nat_eq, string_eq, length}
use dappy_core.Child.Value.{Value, Library}
use dappy_core.Child.Outcome.{Outcome, ok}
use dappy_core.Child.Profile.{ChildSessionConfig}
use dappy_core.Child.Resolve.{
  ParentSessionContext, StartDebuggingArgs, ChildSpawnPlan, resolve_child_spawn,
}
use dappy_core.Child.Resolve.Plans.{resolve_child_spawn_iff}

module _ {N : Type 0} (lib : Library N) (to_value : StartDebuggingArgs N → Outcome (Value N)) where
  -- Plans, each made in the session of the one before it, under any configuration and count there.
  pub data Nested : ℕ → List (ChildSpawnPlan N) → Type 0 where
    outermost : (depth : ℕ) → Nested depth []
    inside :
        (depth active : ℕ) (config : ChildSessionConfig N) (parent : ParentSessionContext)
        (args : StartDebuggingArgs N) (plan : ChildSpawnPlan N) (plans : List (ChildSpawnPlan N))
        → resolve_child_spawn lib to_value config depth active parent args ≡ ok plan
        → Nested plan.child_depth plans
        → Nested depth (plan ∷ plans)

  -- Sessions nest no deeper than the depth that the outermost one has left.
  pub length-Nested :
      (depth : ℕ) (plans : List (ChildSpawnPlan N)) → Nested depth plans → length plans ≤ depth
  length-Nested depth [] (outermost _) = omega arith
  length-Nested depth (plan ∷ plans) (inside _ active config parent args _ _ made nested) =
      let planned =
        (resolve_child_spawn_iff lib to_value config depth active parent args plan).0 made in
      omega (arith, length-Nested plan.child_depth plans nested, planned.2)
