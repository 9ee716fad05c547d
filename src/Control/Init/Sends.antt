-- ===== src/Control/Init/Sends.antt =====
-- The requests that crates/dap-core/src/session_init.rs sends, in their order.
pub mod Script
use dappy_core.Mux.Session.{next_i64}
use dappy_core.Common.{
  ℕ, zero, suc, String, ◌≡◌, refl, sym, ap, ◌∙◌, inl, inr, Bool, true, false, Option, none, some,
  List, [], ◌∷◌, ◌++◌, Bool-cases, ◌==◌, nat_eq, string_eq, Option-cases,
}
use dappy_core.Control.Channel.{◌>>=◌, Result, ok, err, ControlClient, Op, continue_with, pure}
use mathlib.Core.List.{append_assoc, append-nil}
use dappy_core.Common.Text.{Text, codes}
use dappy_core.Json.Plain.{Value, plain}
use dappy_core.Wire.Message.{Message, request_message, response_message, event_message}
use dappy_core.Control.Waits.{
  response_matches_seq, response_matches_command, event_named, take_first, await_wire, found_or,
  wait_for_response_seq, wait_for_response_named, wait_for_event,
}
use dappy_core.Control.Calls.{
  send_within, request_of, send_dap_request, dap_request_preserve_events,
  send_dap_request_and_wait_for_event,
}
use dappy_core.Control.Init.{wait_named, wait_seq}

-- The commands of the requests among the messages.
abbrev pub commands : List (Message Value) → List Text
commands [] = []
commands (request_message r ∷ ms) = r.command ∷ commands ms
commands (response_message r ∷ ms) = commands ms
commands (event_message e ∷ ms) = commands ms

-- The commands come behind those that were sent before: all of a script where the call succeeds, and the
-- beginning of it where it fails.
abbrev pub Progress : {A : Type 0} → List Text → List Text → Result A × ControlClient Value → Type 0
Progress script before (ok a, c) = commands c.written ≡ before ++ script
Progress script before (err e, c) =
    (done : List Text) × (rest : List Text) × (done ++ rest ≡ script)
    × (commands c.written ≡ before ++ done)

commands-append :
    (ms : List (Message Value)) (seq : ℕ) (command : Text) (arguments : Option Value)
    → commands (ms ++ request_of seq command arguments ∷ []) ≡ commands ms ++ command ∷ []
commands-append [] seq command arguments = refl
commands-append (request_message r ∷ ms) seq command arguments =
    ap (◌∷◌ r.command) (commands-append ms seq command arguments)
commands-append (response_message r ∷ ms) seq command arguments =
    commands-append ms seq command arguments
commands-append (event_message e ∷ ms) seq command arguments =
    commands-append ms seq command arguments

module _ {A : Type 0} where
  Progress-behind :
      (s t before sent : List Text) (x : Result A × ControlClient Value)
      → sent ≡ before ++ s
      → Progress t sent x
      → Progress (s ++ t) before x
  Progress-behind s t before sent (ok a, c) e h = h ∙ ap (λ u. u ++ t) e ∙ append_assoc before s t
  Progress-behind s t before sent (err f, c) e (done, rest, whole, h) = (
    s ++ done,
    rest,
    append_assoc s done rest ∙ ap (◌++◌ s) whole,
    h ∙ ap (λ u. u ++ done) e ∙ append_assoc before s done,
  )

module _ {A B : Type 0} where
  >>=-Progress :
      (s t before : List Text) (x : Result A × ControlClient Value) (k : A → Op Value B)
      → Progress s before x
      → ((a : A) (c : ControlClient Value) → Progress t (commands c.written) (k a c))
      → Progress (s ++ t) before (continue_with x k)
  >>=-Progress s t before (ok a, c) k h step =
      Progress-behind s t before (commands c.written) (k a c) h (step a c)
  >>=-Progress s t before (err e, c) k (done, rest, whole, sent) step =
      (done, rest ++ t, sym (append_assoc done rest t) ∙ ap (λ u. u ++ t) whole, sent)

module _ {A : Type 0} where
  Progress-same :
      (x : Result A × ControlClient Value) (c : ControlClient Value)
      → x.1.written ≡ c.written
      → Progress [] (commands c.written) x
  Progress-same (ok a, d) c h = ap commands h ∙ sym (append-nil (commands c.written))
  Progress-same (err e, d) c h =
      ([], [], refl, ap commands h ∙ sym (append-nil (commands c.written)))

send_within-Progress :
    (k seq : ℕ) (command : Text) (arguments : Option Value) (c : ControlClient Value)
    → Progress
        (command ∷ [])
        (commands c.written)
        (continue_with (send_within k (request_of seq command arguments) c) (λ sent. pure seq))
send_within-Progress zero seq command arguments c =
    ([], command ∷ [], refl, sym (append-nil (commands c.written)))
send_within-Progress (suc k) seq command arguments c =
    commands-append c.written seq command arguments

send_dap_request-Progress :
    (command : Text) (arguments : Option Value) (c : ControlClient Value)
    → Progress (command ∷ []) (commands c.written) (send_dap_request command arguments c)
unfolding send_dap_request
send_dap_request-Progress command arguments c =
    send_within-Progress c.accepts c.seq command arguments (record c { seq = next_i64 c.seq })

await_wire-Progress :
    (timed : Bool) (test : Message Value → Bool) (c : ControlClient Value)
    → Progress [] (commands c.written) (await_wire timed test c)
unfolding await_wire
await_wire-Progress timed test c = Progress-same (await_wire timed test c) c refl

preserve-Progress :
    (command : Text) (arguments : Option Value) (c : ControlClient Value)
    → Progress (command ∷ []) (commands c.written) (dap_request_preserve_events command arguments c)
unfolding dap_request_preserve_events
preserve-Progress command arguments c =
    >>=-Progress (command ∷ []) [] (commands c.written) (send_dap_request command arguments c)
      (λ seq. await_wire true (response_matches_seq seq))
      (send_dap_request-Progress command arguments c)
      (λ seq. await_wire-Progress true (response_matches_seq seq))

pure-Progress :
    {A : Type 0} (a : A) (c : ControlClient Value)
    → Progress [] (commands c.written) (pure {V = Value} a c)
pure-Progress a c = Progress-same (ok a, c) c refl

send_and_wait-Progress :
    (command : Text) (arguments : Option Value) (name : Text) (c : ControlClient Value)
    → Progress
        (command ∷ [])
        (commands c.written)
        (send_dap_request_and_wait_for_event command arguments name c)
unfolding send_dap_request_and_wait_for_event
send_and_wait-Progress command arguments name c =
    >>=-Progress (command ∷ []) [] (commands c.written) (send_dap_request command arguments c)
      (λ seq. await_wire true (event_named name) >>= (λ event. pure seq))
      (send_dap_request-Progress command arguments c)
      (λ seq d.
        >>=-Progress [] [] (commands d.written) (await_wire true (event_named name) d)
          (λ event. pure seq) (await_wire-Progress true (event_named name) d)
          (λ event e. pure-Progress seq e))

found_or-written :
    (found : Option (Message Value × List (Message Value))) (test : Message Value → Bool)
    (c : ControlClient Value)
    → (found_or found (await_wire false test) c).1.written ≡ c.written
unfolding await_wire
found_or-written none test c = refl
found_or-written (some (m, rest)) test c = refl

wait_for_event-written :
    (name : Text) (timeout : ℕ) (c : ControlClient Value)
    → (wait_for_event name timeout c).1.written ≡ c.written
unfolding wait_for_event
wait_for_event-written name timeout c = elim (Bool-cases (timeout == 0)) [
  | inl e ↦ rw e (elim (Option-cases (take_first (event_named name) c.pending)) [
    | inl f ↦ rw f refl
    | inr ((m, rest), f) ↦ rw f refl
  ])
  | inr e ↦ rw e refl
]

wait_for_event-Progress :
    (name : Text) (timeout : ℕ) (c : ControlClient Value)
    → Progress [] (commands c.written) (wait_for_event name timeout c)
wait_for_event-Progress name timeout c =
    Progress-same (wait_for_event name timeout c) c (wait_for_event-written name timeout c)

module _ {A : Type 0} where
  wait_named-Progress :
      (name : Option String) (a : A) (c : ControlClient Value)
      → Progress [] (commands c.written) (wait_named name a c)
  unfolding wait_for_response_named
  wait_named-Progress none a c = pure-Progress a c
  wait_named-Progress (some name) a c =
      >>=-Progress [] [] (commands c.written) (wait_for_response_named (codes name) c) (λ r. pure a)
        (Progress-same (wait_for_response_named (codes name) c) c (
          found_or-written (take_first (response_matches_command (codes name)) c.pending)
            (response_matches_command (codes name)) c))
        (λ r d. pure-Progress a d)

  wait_seq-Progress :
      (waits : Bool) (seq : ℕ) (a : A) (c : ControlClient Value)
      → Progress [] (commands c.written) (wait_seq waits seq a c)
  unfolding wait_for_response_seq
  wait_seq-Progress false seq a c = pure-Progress a c
  wait_seq-Progress true seq a c =
      >>=-Progress [] [] (commands c.written) (wait_for_response_seq seq c) (λ r. pure a)
        (Progress-same (wait_for_response_seq seq c) c (
          found_or-written (take_first (response_matches_seq seq) c.pending)
            (response_matches_seq seq) c))
        (λ r d. pure-Progress a d)
