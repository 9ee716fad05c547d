-- ===== src/Child/Bridge/Replies.antt =====
-- What the loop of crates/dap-core/src/mux_bridge.rs answers itself, and what it forwards.
use dappy_core.Common.{
  ℕ, ◌≡◌, refl, sym, ap, subst, ◌⊎◌, inl, inr, Bool, true, false, ◌||◌, Option, none, some, [], ◌∷◌,
  arith, Bool-cases, nat_eq, string_eq, and_then,
}
use dappy_core.Common.Text.{Text, codes, same_text}
use dappy_core.Child.Value.{Value, Items, nil, cons, null, bool, number, text, array, object}
use dappy_core.Child.Outcome.{Outcome, ok, err, Outcome-cases}
use dappy_core.Child.Profile.{ChildSessionConfig}
use dappy_core.Child.Resolve.{ChildSpawnPlan, ParentSessionContext, resolve_child_spawn}
use dappy_core.Child.Handler.{
  Handled, Environment, handle_start_debugging, answer_with, spawn_child, decline_reverse_request,
}
use dappy_core.Child.Reverse.{
  Launch, no_directory, no_file, no_copy, not_spawned, launched, launch_reply, fail_reverse_request,
  handle_reverse_request, handle_run_in_terminal, run_args, run_program,
}
use dappy_core.Child.Bridge.{
  ChildSessionBridge, Turn, Host, reverse_turn, bridge_turn, reverse_or_forward, child_turn,
}
use dappy_core.Wire.Message.{Request, Message, request_message, response_message, event_message}

module _ {N : Type 0} where
  -- The message is a response to the request.
  abbrev pub Answers : Request (Value N) → Message (Value N) → Type 0
  Answers request (response_message r) = r.request_seq ≡ request.seq
  Answers request (request_message r) = ⊥
  Answers request (event_message e) = ⊥

  launch_reply-Answers :
      (request : Request (Value N)) (l : Launch N) → Answers request (launch_reply request l)
  unfolding launch_reply
  launch_reply-Answers request (no_directory e) = refl
  launch_reply-Answers request (no_file e) = refl
  launch_reply-Answers request (no_copy e) = refl
  launch_reply-Answers request (not_spawned e) = refl
  launch_reply-Answers request (launched path id) = refl

  module _ (host : Host N) (request : Request (Value N)) where
    run_program-Answers :
        (arguments : Value N) (program : Text) (rest : Items N)
        → Answers request
            (run_program host.library host.launch host.debug request arguments program rest)
    unfolding fail_reverse_request
    run_program-Answers arguments [] rest = refl
    run_program-Answers arguments (c ∷ s) rest = launch_reply-Answers request _

    run_args-Answers :
        (arguments : Value N) (o : Option (Value N))
        → Answers request (run_args host.library host.launch host.debug request arguments o)
    unfolding fail_reverse_request
    run_args-Answers arguments (some (array (cons x xs))) = run_program-Answers arguments _ xs
    run_args-Answers arguments none = refl
    run_args-Answers arguments (some null) = refl
    run_args-Answers arguments (some (bool b)) = refl
    run_args-Answers arguments (some (number n)) = refl
    run_args-Answers arguments (some (text t)) = refl
    run_args-Answers arguments (some (array nil)) = refl
    run_args-Answers arguments (some (object fs)) = refl

    handle_run_in_terminal-Answers :
        Answers request (handle_run_in_terminal host.library host.launch host.debug request)
    unfolding handle_run_in_terminal
    handle_run_in_terminal-Answers = run_args-Answers _ _

    module _ (environment : Environment N) where
      spawn_child-Answers :
          (active : ℕ) (plan : ChildSpawnPlan N)
          → Answers request (spawn_child environment request active plan).reply
      unfolding spawn_child
      spawn_child-Answers active plan = elim (Outcome-cases (environment.spawn plan)) [
        | inl (result, e) ↦ rw (e, spawn_child) refl
        | inr (message, e) ↦ rw (e, spawn_child) refl
      ]

      answer_with-Answers :
          (active : ℕ) (o : Outcome (ChildSpawnPlan N))
          → Answers request (answer_with environment request active o).reply
      unfolding answer_with
      answer_with-Answers active (ok plan) = spawn_child-Answers active plan
      answer_with-Answers active (err e) = refl

      handle_start_debugging-Answers :
          (config : ChildSessionConfig N) (depth : ℕ) (parent : ParentSessionContext) (active : ℕ)
          → Answers request
              (handle_start_debugging environment request config depth parent active).reply
      unfolding handle_start_debugging
      handle_start_debugging-Answers config depth parent active =
          elim (and_then request.arguments environment.from_value)
            as (λ o.
              Answers request
                (elim o as (λ _. Handled N) [
                  | none ↦
                      answer_with environment request active
                        (err (codes "invalid startDebugging arguments"))
                  | some args ↦ answer_with environment request active (
                      resolve_child_spawn environment.library environment.to_value config depth
                        active parent args)
                ]).reply) [ none ↦ refl | some args ↦ answer_with-Answers active _ ]

  -- The requests that the proxy answers itself.
  abbrev pub is_reverse : Message (Value N) → Bool
  is_reverse (request_message r) =
      same_text r.command (codes "startDebugging") || same_text r.command (codes "runInTerminal")
  is_reverse (response_message r) = false
  is_reverse (event_message e) = false

  -- The proxy answers this turn, with a response to the request and with nothing for the multiplexer.
  abbrev pub IsAnswered : Message (Value N) → Turn N → Type 0
  IsAnswered (request_message request) turn =
      (reply : Message (Value N)) × (turn.reply ≡ some reply)
      × Answers request reply
      × (turn.forwarded ≡ none)
  IsAnswered (response_message r) turn = ⊥
  IsAnswered (event_message e) turn = ⊥

  module _ (host : Host N) where
    second :
        (request : Request (Value N))
        → is_reverse (request_message request) ≡ true
        → same_text request.command (codes "startDebugging") ≡ false
        → same_text request.command (codes "runInTerminal") ≡ true
    second request h e = rw e at h

    reverse_reply :
        (request : Request (Value N))
        → is_reverse (request_message request) ≡ true
        → (reply : Message (Value N)) × (handle_reverse_request host.library host.launch host.debug
              (request_message request)
            ≡ some reply)
          × Answers request reply
    unfolding handle_reverse_request
    reverse_reply request h =
        elim (Bool-cases (same_text request.command (codes "startDebugging"))) [
          | inl e ↦ (decline_reverse_request host.debug request, rw e refl, refl)
          | inr e ↦ (
            handle_run_in_terminal host.library host.launch host.debug request,
            rw e (rw (second request h e) refl),
            handle_run_in_terminal-Answers host request,
          )
        ]

    reverse_turn-IsAnswered :
        (active : ℕ) (request : Request (Value N))
        → is_reverse (request_message request) ≡ true
        → IsAnswered (request_message request) (reverse_turn host active (request_message request))
    unfolding reverse_turn
    reverse_turn-IsAnswered active request h =
        let (reply, e, answers) = reverse_reply request h in
        let turn = ap (reverse_or_forward host active (request_message request)) e in
        (reply, ap (λ (t : Turn N). t.reply) turn, answers, ap (λ (t : Turn N). t.forwarded) turn)

    unreversed :
        (message : Message (Value N))
        → is_reverse message ≡ false
        → handle_reverse_request host.library host.launch host.debug message ≡ none
    unfolding handle_reverse_request
    unreversed (request_message request) h = ground arith
    unreversed (response_message r) h = refl
    unreversed (event_message e) h = refl

    -- What is forwarded by a turn that answers nothing.
    abbrev pub forwards : ℕ → Message (Value N) → Turn N
    forwards active message = record {
      reply = none;
      forwarded = some (host.augment message);
      active_children = active;
    }

    reverse_turn-forwards :
        (active : ℕ) (message : Message (Value N))
        → is_reverse message ≡ false
        → reverse_turn host active message ≡ forwards active message
    unfolding reverse_turn
    reverse_turn-forwards active message h =
        ap (reverse_or_forward host active message) (unreversed message h)

    by_reverse :
        (active : ℕ) (message : Message (Value N))
        → ((is_reverse message ≡ true) × IsAnswered message (reverse_turn host active message))
          ⊎ ((is_reverse message ≡ false)
              × (reverse_turn host active message ≡ forwards active message))
    by_reverse active (response_message r) =
        inr (refl, reverse_turn-forwards active (response_message r) refl)
    by_reverse active (event_message e) =
        inr (refl, reverse_turn-forwards active (event_message e) refl)
    by_reverse active (request_message request) =
        elim (Bool-cases (is_reverse (request_message request))) [
          | inl h ↦ inl (h, reverse_turn-IsAnswered active request h)
          | inr h ↦ inr (h, reverse_turn-forwards active (request_message request) h)
        ]

    child_turn-IsAnswered :
        (child : ChildSessionBridge N) (active : ℕ) (request : Request (Value N))
        → IsAnswered (request_message request) (child_turn host child active request)
    child_turn-IsAnswered child active request = (
      (handle_start_debugging child.environment request child.config child.remaining_depth
          child.parent active).reply,
      refl,
      handle_start_debugging-Answers host request child.environment child.config
          child.remaining_depth child.parent active,
      refl,
    )

    -- A message is replied, or it is forwarded.
    abbrev pub Fate : ℕ → Message (Value N) → Turn N → Type 0
    Fate active message turn =
        ((is_reverse message ≡ true) × IsAnswered message turn)
        ⊎ ((is_reverse message ≡ false) × (turn ≡ forwards active message))

    pub other_turn :
        (child : ChildSessionBridge N) (active : ℕ) (request : Request (Value N))
        → same_text request.command (codes "startDebugging") ≡ false
        → bridge_turn host (some child) active (request_message request)
          ≡ reverse_turn host active (request_message request)
    unfolding bridge_turn
    other_turn child active request e = rw e refl

    -- Each message is dealt with once: a `startDebugging` or `runInTerminal` request is replied, by a
    -- response with its number, and not forwarded; any other message goes to the multiplexer, as the plugin
    -- leaves it, is not replied, and leaves the count of children.
    pub bridge_turn_lem :
        (child : Option (ChildSessionBridge N)) (active : ℕ) (message : Message (Value N))
        → Fate active message (bridge_turn host child active message)
    unfolding bridge_turn
    bridge_turn_lem none active message = by_reverse active message
    bridge_turn_lem (some child) active (response_message r) =
        inr (refl, reverse_turn-forwards active (response_message r) refl)
    bridge_turn_lem (some child) active (event_message e) =
        inr (refl, reverse_turn-forwards active (event_message e) refl)
    bridge_turn_lem (some child) active (request_message request) =
        elim (Bool-cases (same_text request.command (codes "startDebugging"))) [
          | inl e ↦ rw e (inl (refl, child_turn-IsAnswered child active request))
          | inr e ↦
              subst (Fate active (request_message request))
                (sym (other_turn child active request e))
                (by_reverse active (request_message request))
        ]
