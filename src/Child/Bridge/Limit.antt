-- ===== src/Child/Bridge/Limit.antt =====
-- The limit on the children that a session starts (crates/dap-core/src/child_session/mod.rs, mux_bridge.rs).
use dappy_core.Child.Bridge.Replies.{other_turn}
use dappy_core.Common.{
  ◌∙◌, ℕ, ◌+◌, ◌^◌, ◌≤◌, ◌<◌, ◌≡◌, refl, ap, ◌⊎◌, inl, inr, Option, none, some, List, [], ◌∷◌,
  arith, Bool-cases, nat_eq, string_eq, and_then, Option-cases,
}
use dappy_core.Common.Text.{codes, same_text}
use dappy_core.Child.Value.{Value}
use dappy_core.Child.Outcome.{Outcome, ok, err, Outcome-cases}
use dappy_core.Child.Profile.{ChildSessionConfig}
use dappy_core.Child.Resolve.{ChildSpawnPlan, ParentSessionContext, resolve_child_spawn}
use dappy_core.Child.Resolve.Plans.{resolve_child_spawn_iff}
use dappy_core.Child.Handler.{
  Handled, Environment, handle_start_debugging, answer_with, spawn_child,
}
use dappy_core.Child.Bridge.{
  ChildSessionBridge, Turn, Host, reverse_turn, bridge_turn, bridge_run, reverse_or_forward,
}
use dappy_core.Child.Reverse.{handle_reverse_request}
use dappy_core.Wire.Message.{Request, Message, request_message, response_message, event_message}

-- The count stays, or there is room and it goes up by one.
abbrev pub Counts : ℕ → ℕ → ℕ → Type 0
Counts limit before after = (after ≡ before) ⊎ ((before < limit) × (after ≡ before + 1))

-- From one turn to the next the count never falls, goes up by one at most, and stays within the limit.
abbrev pub Climbs : {N : Type 0} → ℕ → ℕ → List (Turn N) → Type 0
Climbs limit before [] = Unit
Climbs limit before (turn ∷ turns) =
    (before ≤ turn.active_children)
    × (turn.active_children ≤ before + 1)
    × (turn.active_children ≤ limit)
    × Climbs limit turn.active_children turns

module _ {N : Type 0} (environment : Environment N) (request : Request (Value N)) (limit active : ℕ)
    (small : limit < 2 ^ 32) where
  spawn_child-Counts :
      (plan : ChildSpawnPlan N)
      → active < limit
      → Counts limit active (spawn_child environment request active plan).active_children
  unfolding spawn_child
  spawn_child-Counts plan below = elim (Outcome-cases (environment.spawn plan)) [
    | inl (result, e) ↦ inr (below, rw (e, spawn_child) (omega arith))
    | inr (message, e) ↦ inl (rw (e, spawn_child) refl)
  ]

  answer_with-Counts :
      (o : Outcome (ChildSpawnPlan N))
      → ((plan : ChildSpawnPlan N) → o ≡ ok plan → active < limit)
      → Counts limit active (answer_with environment request active o).active_children
  unfolding answer_with
  answer_with-Counts (ok plan) below = spawn_child-Counts plan (below plan refl)
  answer_with-Counts (err e) below = inl refl

module _ {N : Type 0} (environment : Environment N) (config : ChildSessionConfig N)
    (small : config.max_children < 2 ^ 32) where
  pub handle_start_debugging-Counts :
      (request : Request (Value N)) (depth : ℕ) (parent : ParentSessionContext) (active : ℕ)
      → Counts config.max_children active
          (handle_start_debugging environment request config depth parent active).active_children
  unfolding handle_start_debugging
  handle_start_debugging-Counts request depth parent active =
      elim (and_then request.arguments environment.from_value)
        as (λ o.
          Counts config.max_children active
            (elim o as (λ _. Handled N) [
              | none ↦
                  answer_with environment request active
                    (err (codes "invalid startDebugging arguments"))
              | some args ↦ answer_with environment request active (
                  resolve_child_spawn environment.library environment.to_value config depth active
                    parent args)
            ]).active_children) [
              | none ↦ inl refl
              | some args ↦
                  answer_with-Counts environment request config.max_children active small
                    (resolve_child_spawn environment.library environment.to_value config depth
                      active parent args)
                    (λ plan e.
                      ((resolve_child_spawn_iff environment.library environment.to_value config
                          depth active parent args plan).0
                        e).1)
            ]

module _ {N : Type 0} (host : Host N) (child : ChildSessionBridge N)
    (small : child.config.max_children < 2 ^ 32) where
  reverse_turn-count :
      (active : ℕ) (message : Message (Value N))
      → (reverse_turn host active message).active_children ≡ active
  unfolding reverse_turn
  reverse_turn-count active message =
      elim (Option-cases (handle_reverse_request host.library host.launch host.debug message)) [
        | inl e ↦
            ap
              (λ (o : Option (Message (Value N))).
                (reverse_or_forward host active message o).active_children)
              e
        | inr (reply, e) ↦
            ap
              (λ (o : Option (Message (Value N))).
                (reverse_or_forward host active message o).active_children)
              e
      ]

  bridge_turn-Counts :
      (active : ℕ) (message : Message (Value N))
      → Counts child.config.max_children active
          (bridge_turn host (some child) active message).active_children
  unfolding bridge_turn
  bridge_turn-Counts active (response_message r) =
      inl (reverse_turn-count active (response_message r))
  bridge_turn-Counts active (event_message e) = inl (reverse_turn-count active (event_message e))
  bridge_turn-Counts active (request_message request) =
      elim (Bool-cases (same_text request.command (codes "startDebugging"))) [
        | inl e ↦ rw e (
            handle_start_debugging-Counts child.environment child.config small request
              child.remaining_depth child.parent active)
        | inr e ↦ inl (
            ap (λ (t : Turn N). t.active_children) (other_turn host child active request e)
            ∙ reverse_turn-count active (request_message request))
      ]

  -- Where the count of children starts within the limit of the configuration, which 32 bits hold,
  -- then whatever the adapter sends, the count never falls, goes up by one for a message at most,
  -- and stays within the limit; so a child that has ended still counts.
  pub bridge_run-Climbs :
      (active : ℕ) (messages : List (Message (Value N)))
      → active ≤ child.config.max_children
      → Climbs child.config.max_children active (bridge_run host (some child) active messages)
  unfolding bridge_run
  bridge_run-Climbs active [] within = tt
  bridge_run-Climbs active (message ∷ messages) within =
      let counts = bridge_turn-Counts active message in
      (
        ground arith,
        ground arith,
        ground arith,
        bridge_run-Climbs (bridge_turn host (some child) active message).active_children messages
            (ground arith),
      )
