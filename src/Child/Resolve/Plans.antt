-- ===== src/Child/Resolve/Plans.antt =====
-- When crates/dap-core/src/child_session/resolve.rs makes a plan, and which.
use dappy_core.Common.{
  ℕ, suc, ◌-◌, ◌<◌, ◌≡◌, refl, ap, ◌∙◌, ◌↔◌, inl, inr, Bool, true, false, not, some, List, [], ◌∷◌,
  ◌++◌, arith, leb, if◌then◌else◌, Bool-cases, ◌==◌, nat_eq, string_eq, Option-cases, eq_of_some-eq,
}
use dappy_core.Child.Outcome.{err, Outcome, ok, ◌>>=◌, >>=-eq_ok}
use dappy_core.Common.Text.{Text}
use dappy_core.Child.Value.{Value, Library}
use dappy_core.Child.Profile.{ChildSessionRule, ChildSessionConfig}
use dappy_core.Child.Resolve.{
  ParentSessionContext, StartDebuggingArgs, ChildSpawnPlan, applies, find_rule, build_child_backend,
  resolve_debug_request, resolve_rule, resolve_child_spawn,
}

-- Three guards in front of an outcome.
guarded :
    {A : Type 0} (on over full : Bool) (rest : Outcome A) (off_text over_text full_text : Text)
    (a : A)
    → (if not on
        then err off_text
        else if over
        then err over_text
        else if full
        then err full_text
        else rest)
      ≡ ok a
    → (on ≡ true) × (over ≡ false) × (full ≡ false) × (rest ≡ ok a)
guarded true false false rest x y z a h = (refl, refl, refl, h)
guarded true false true rest x y z a h = cc
guarded true true full rest x y z a h = cc
guarded false over full rest x y z a h = cc

open_guards :
    {A : Type 0} (on over full : Bool) (rest : Outcome A) (off_text over_text full_text : Text)
    → on ≡ true
    → over ≡ false
    → full ≡ false
    → (if not on
        then err off_text
        else if over
        then err over_text
        else if full
        then err full_text
        else rest)
      ≡ rest
open_guards on over full rest x y z a b c = ground arith

module _ {N : Type 0} (lib : Library N) (context : Value N) (request : Text)
    (parent : ParentSessionContext) where
  -- No rule of the list applies.
  abbrev pub NoneApply : List (ChildSessionRule N) → Type 0
  NoneApply [] = Unit
  NoneApply (rule ∷ rules) = (applies lib context request parent rule ≡ false) × NoneApply rules

  -- The rule is the first of the list that applies.
  abbrev pub IsFirst : List (ChildSessionRule N) → ChildSessionRule N → Type 0
  IsFirst rules rule =
      (before : List (ChildSessionRule N)) × (behind : List (ChildSessionRule N)) × (rules
        ≡ before ++ rule ∷ behind)
      × NoneApply before
      × (applies lib context request parent rule ≡ true)

  find_rule-IsFirst :
      (rules : List (ChildSessionRule N)) (rule : ChildSessionRule N)
      → find_rule lib context request parent rules ≡ some rule
      → IsFirst rules rule
  unfolding find_rule
  find_rule-IsFirst [] rule h = cc
  find_rule-IsFirst (r ∷ rules) rule h = elim (Bool-cases (applies lib context request parent r)) [
    | inl e ↦
        let here : r ≡ rule = eq_of_some-eq r rule (rw e at h) in
        ([], rules, ap (λ (x : ChildSessionRule N). x ∷ rules) here, tt, rw (← here) e)
    | inr e ↦
        let (before, behind, there, none_apply, yes_it) =
          find_rule-IsFirst rules rule (rw e at h) in
        (
          r ∷ before,
          behind,
          ap (λ (l : List (ChildSessionRule N)). r ∷ l) there,
          (e, none_apply),
          yes_it,
        )
  ]

  IsFirst-find_rule :
      (rule : ChildSessionRule N) (before behind : List (ChildSessionRule N))
      → NoneApply before
      → applies lib context request parent rule ≡ true
      → find_rule lib context request parent (before ++ rule ∷ behind) ≡ some rule
  unfolding find_rule
  IsFirst-find_rule rule [] behind h e = rw e refl
  IsFirst-find_rule rule (r ∷ before) behind h e =
      rw h.0 (IsFirst-find_rule rule before behind h.1 e)

module _ {N : Type 0} (lib : Library N) (to_value : StartDebuggingArgs N → Outcome (Value N))
    (config : ChildSessionConfig N) (remaining_depth active_children : ℕ)
    (parent : ParentSessionContext) (args : StartDebuggingArgs N) where
  -- What a plan rests on: the limits are kept, a rule is the first that applies, and its templates resolve
  -- to the parts of the plan.
  abbrev pub IsPlanned : ChildSpawnPlan N → Type 0
  IsPlanned plan =
      (config.auto_spawn ≡ true)
      × (active_children < config.max_children)
      × (remaining_depth ≡ suc plan.child_depth)
      × (context : Value N) × (rule : ChildSessionRule N) × (to_value args ≡ ok context)
      × IsFirst lib context args.request parent config.profile.rules rule
      × (build_child_backend lib context rule.child_backend parent ≡ ok plan.backend)
      × (resolve_debug_request lib context rule.debug_request
          ≡ ok (plan.debug_request, plan.debug_arguments))

  module _ (context : Value N) (plan : ChildSpawnPlan N) where
    resolve_rule-eq_ok :
        resolve_rule lib to_value config remaining_depth parent args.request context ≡ ok plan
        → (rule : ChildSessionRule N) × (find_rule lib context args.request parent
              config.profile.rules
            ≡ some rule)
          × (build_child_backend lib context rule.child_backend parent ≡ ok plan.backend)
          × (resolve_debug_request lib context rule.debug_request
              ≡ ok (plan.debug_request, plan.debug_arguments))
          × (plan.child_depth ≡ remaining_depth - 1)
    unfolding resolve_rule
    resolve_rule-eq_ok h =
        elim (Option-cases (find_rule lib context args.request parent config.profile.rules)) [
          | inl missing ↦ absurd (ground arith)
          | inr (rule, found) ↦ (rule, found, ground arith, ground arith, ground arith)
        ]

    resolve_rule-makes :
        (rule : ChildSessionRule N)
        → find_rule lib context args.request parent config.profile.rules ≡ some rule
        → build_child_backend lib context rule.child_backend parent ≡ ok plan.backend
        → resolve_debug_request lib context rule.debug_request
          ≡ ok (plan.debug_request, plan.debug_arguments)
        → remaining_depth ≡ suc plan.child_depth
        → resolve_rule lib to_value config remaining_depth parent args.request context ≡ ok plan
    unfolding resolve_rule
    resolve_rule-makes rule found built debug depth = ground arith

  resolve_child_spawn-IsPlanned :
      (plan : ChildSpawnPlan N)
      → resolve_child_spawn lib to_value config remaining_depth active_children parent args
        ≡ ok plan
      → IsPlanned plan
  unfolding resolve_child_spawn
  resolve_child_spawn-IsPlanned plan h =
      let (on, over, full, rest) =
        guarded config.auto_spawn (remaining_depth == 0) (leb config.max_children active_children)
          (to_value args >>= resolve_rule lib to_value config remaining_depth parent args.request) _
          _ _ plan h in
      let (context, valued, planned) =
        >>=-eq_ok (to_value args)
          (resolve_rule lib to_value config remaining_depth parent args.request) plan rest in
      let (rule, found, built, debug, depth) = resolve_rule-eq_ok context plan planned in
      (
        on,
        ground arith,
        ground arith,
        context,
        rule,
        valued,
        find_rule-IsFirst lib context args.request parent config.profile.rules rule found,
        built,
        debug,
      )

  IsPlanned-resolve_child_spawn :
      (plan : ChildSpawnPlan N)
      → IsPlanned plan
      → resolve_child_spawn lib to_value config remaining_depth active_children parent args
        ≡ ok plan
  unfolding resolve_child_spawn
  IsPlanned-resolve_child_spawn plan
        (
          on,
          below,
          depth,
          context,
          rule,
          valued,
          (before, behind, there, none_apply, applies_it),
          built,
          debug,
        ) =
      let found : find_rule lib context args.request parent config.profile.rules ≡ some rule =
        ap (find_rule lib context args.request parent) there
        ∙ IsFirst-find_rule lib context args.request parent rule before behind none_apply
            applies_it in
      open_guards config.auto_spawn (remaining_depth == 0) (leb config.max_children active_children)
        _ _ _ _ on (ground arith) (ground arith)
      ∙ ap
          (λ (m : Outcome (Value N)).
            m >>= resolve_rule lib to_value config remaining_depth parent args.request)
          valued
      ∙ resolve_rule-makes context plan rule found built debug depth

  -- A plan is made exactly where spawning is on, fewer children are counted than allowed and a level of
  -- depth is left, of which the plan takes one; its backend and its request are the resolved templates of
  -- the first rule that applies.
  pub resolve_child_spawn_iff :
      (plan : ChildSpawnPlan N)
      → (resolve_child_spawn lib to_value config remaining_depth active_children parent args
          ≡ ok plan)
        ↔ IsPlanned plan
  resolve_child_spawn_iff plan =
      (resolve_child_spawn-IsPlanned plan, IsPlanned-resolve_child_spawn plan)
