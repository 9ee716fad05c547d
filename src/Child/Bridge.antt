-- ===== src/Child/Bridge.antt =====
-- crates/dap-core/src/mux_bridge.rs: the loop that reads the adapter's messages (`backend_to_mux`). A write
-- that fails ends the loop; a run is the turns before that.
use dappy_core.Common.{
  ℕ, zero, suc, ◌+◌, ◌-◌, ◌*◌, ◌/◌, ◌%◌, ◌^◌, ◌≤◌, ◌<◌, String, ◌≡◌, refl, sym, ap, ◌∙◌, subst, ◌≢◌,
  ◌↔◌, ◌⊎◌, inl, inr, Bool, true, false, not, ◌&&◌, ◌||◌, Option, none, some, List, [], ◌∷◌, ◌++◌,
  map, arith, eq_iff, ltb, leb, if◌then◌else◌, Bool-cases, Eq, ◌==◌, nat_eq, string_eq, ==-refl,
  ==-eq, and_then, unwrap_or, or_else, is_some, Option-cases, is_text, is_true, is_false, length,
  get_elem?, set, remove_at, filter_map, find_map,
}
use dappy_core.Common.Text.{Text, codes, same_text}
use dappy_core.Child.Value.{Value, Library}
use dappy_core.Child.Profile.{ChildSessionConfig}
use dappy_core.Child.Resolve.{ParentSessionContext}
use dappy_core.Child.Handler.{Handled, Environment, handle_start_debugging}
use dappy_core.Child.Reverse.{TerminalCommand, Launch, handle_reverse_request}
use dappy_core.Wire.Message.{Request, Message, request_message, response_message, event_message}
pub mod Replies
pub mod Limit

pub record ChildSessionBridge (N : Type 0) : Type 0 where
  pub config : ChildSessionConfig N
  pub remaining_depth : ℕ
  pub parent : ParentSessionContext
  pub environment : Environment N

-- What a turn does: a message back to the adapter, one on to the multiplexer, and the count behind it.
pub record Turn (N : Type 0) : Type 0 where
  pub reply : Option (Message (Value N))
  pub forwarded : Option (Message (Value N))
  pub active_children : ℕ

-- What the loop calls: the terminal that runs a command, the debug print of a text, and what a plugin adds
-- to an `initialize` response.
pub record Host (N : Type 0) : Type 0 where
  pub library : Library N
  pub launch : ℕ → TerminalCommand → Launch N
  pub debug : Text → Text
  pub augment : Message (Value N) → Message (Value N)

module _ {N : Type 0} (host : Host N) where
  abbrev pub replied : ℕ → Message (Value N) → Turn N
  replied active_children reply = record {
    reply = some reply;
    forwarded = none;
    active_children = active_children;
  }

  abbrev pub reverse_or_forward : ℕ → Message (Value N) → Option (Message (Value N)) → Turn N
  reverse_or_forward active_children message (some reply) = replied active_children reply
  reverse_or_forward active_children message none = record {
    reply = none;
    forwarded = some (host.augment message);
    active_children = active_children;
  }

  unfoldable pub reverse_turn : ℕ → Message (Value N) → Turn N
  unfolding handle_reverse_request
  reverse_turn active_children message =
      reverse_or_forward active_children message
        (handle_reverse_request host.library host.launch host.debug message)

  abbrev pub of_handled : Handled N → Turn N
  of_handled h = replied h.active_children h.reply

  abbrev pub child_turn : ChildSessionBridge N → ℕ → Request (Value N) → Turn N
  child_turn child active_children request = of_handled (
      handle_start_debugging child.environment request child.config child.remaining_depth
        child.parent active_children)

  unfoldable pub bridge_turn : Option (ChildSessionBridge N) → ℕ → Message (Value N) → Turn N
  unfolding reverse_turn handle_start_debugging
  bridge_turn (some child) active_children (request_message request) =
      if same_text request.command (codes "startDebugging")
      then child_turn child active_children request
      else reverse_turn active_children (request_message request)
  bridge_turn none active_children message = reverse_turn active_children message
  bridge_turn (some child) active_children message = reverse_turn active_children message

  -- The turns of a run.
  unfoldable pub bridge_run :
      Option (ChildSessionBridge N) → ℕ → List (Message (Value N)) → List (Turn N)
  bridge_run child active_children [] = []
  bridge_run child active_children (message ∷ messages) =
      let turn = bridge_turn child active_children message in
      turn ∷ bridge_run child turn.active_children messages
