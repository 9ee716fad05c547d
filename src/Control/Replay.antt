-- ===== src/Control/Replay.antt =====
-- What crates/dap-core/src/control_client.rs keeps of the messages: a drain, the replay for a late joiner, and
-- the two ways to wait for a response.
use dappy_core.Common.{
  ◌≡◌, refl, ap, Option, none, some, List, [], ◌∷◌, ◌++◌, if◌then◌else◌, nat_eq, string_eq, or_else,
}
use dappy_core.Common.Text.{codes}
use dappy_core.Wire.Message.{Message}
use dappy_core.Control.Channel.{
  Arrival, arrives, late, torn, fails, Result, ok, err, AdapterCapabilities,
}
use dappy_core.Control.Waits.{response_matches_command}
use dappy_core.Control.Inbox.{ahead_of}
use dappy_core.Control.Drain.{from_initialize_message}

module _ {V : Type 0} where
  -- The messages of a queue.
  abbrev pub messages_of : List (Arrival V) → List (Message V)
  messages_of [] = []
  messages_of (arrives m ∷ more) = m ∷ messages_of more
  messages_of (late ∷ more) = messages_of more
  messages_of (torn count reads ∷ more) = messages_of more
  messages_of (fails e ∷ more) = messages_of more

  -- Every silence stands between two messages.
  abbrev pub IsWhole : List (Arrival V) → Type 0
  IsWhole [] = Unit
  IsWhole (arrives m ∷ more) = IsWhole more
  IsWhole (late ∷ more) = IsWhole more
  IsWhole (torn count reads ∷ more) = ⊥
  IsWhole (fails e ∷ more) = IsWhole more

  pub messages_of-ahead_of :
      (ms : List (Message V)) (incoming : List (Arrival V))
      → messages_of (ahead_of ms incoming) ≡ ms ++ messages_of incoming
  messages_of-ahead_of [] incoming = refl
  messages_of-ahead_of (m ∷ ms) incoming = ap (◌∷◌ m) (messages_of-ahead_of ms incoming)

  abbrev kept : Result (List (Message V)) → List (Message V)
  kept (ok ms) = ms
  kept (err e) = []

  module _ (from_value : V → Option (AdapterCapabilities V)) where
    abbrev pub success : Result (AdapterCapabilities V) → Option (AdapterCapabilities V)
    success (ok caps) = some caps
    success (err e) = none

    -- What a message says of the adapter.
    abbrev pub told : Message V → Option (AdapterCapabilities V)
    told m =
        if response_matches_command (codes "initialize") m
        then success (from_initialize_message from_value m)
        else none

    -- The last that the messages say.
    abbrev pub last_told : List (Message V) → Option (AdapterCapabilities V)
    last_told [] = none
    last_told (m ∷ ms) = or_else (last_told ms) (told m)
