-- ===== src/Mux/Session/Joining.antt =====
-- What a client is told when it attaches to crates/protocol-mux/src/session.rs, and the request that the
-- multiplexer answers itself.
use dappy_core.Common.{
  ◌≡◌, refl, true, some, List, [], ◌∷◌, arith, ◌==◌, nat_eq, string_eq, unwrap_or, is_text,
}
use dappy_core.Common.HashMap.{HashMap, IsMap}
use dappy_core.Common.HashMap
use dappy_core.Json.{Json}
use dappy_core.Mux.Client.{ClientId, control}
use dappy_core.Mux.Cache.{breakpoint_snapshot}
use dappy_core.Mux.Message.{message_kind, request_kind, seq, command, response}
use dappy_core.Mux.Session.{
  world_of, World, Channels, next_i64, next_display_seq, breakpoint_snapshot_command,
}
use dappy_core.Mux.Session.Delivery.{published, forwarded, deliver_to_client-open, ReachesExactly}
use dappy_core.Mux.Session.Client.{handle_client_message, handle_request, serve_snapshot}

-- The messages in the order in which they were sent, put in front of those before.
abbrev pub then_these : {V : Type 0} → List V → List V → List V
then_these [] before = before
then_these (m ∷ ms) before = then_these ms (m ∷ before)

module _ {V : Type 0} ⦃J : Json V⦄ where
  -- The answer to a request for the snapshot.
  abbrev pub snapshot_answer : World V → V → V
  snapshot_answer w message =
      response (next_i64 w.session.display_seq) (unwrap_or (seq message) 0) true
        (some (breakpoint_snapshot w.session.cache))

module _ {V : Type 0} ⦃J : Json V⦄ (ch : Channels) where
  -- An attached control client's request for the snapshot is answered at once to that client alone, where
  -- its channel is open, and nothing goes upstream or on the broadcast.
  pub snapshot_request-reaches :
      (id : ClientId) (message : V) (w : World V)
      → HashMap.get w.session.clients id ≡ some control
      → message_kind message ≡ request_kind
      → is_text (command message) breakpoint_snapshot_command ≡ true
      → ch.client_open id ≡ true
      → let o = handle_client_message id message ch w in
        ReachesExactly (λ j. id == j) (snapshot_answer w message) (published w.sent) w o
        × (forwarded (world_of o).sent ≡ forwarded w.sent)
  unfolding handle_client_message serve_snapshot next_display_seq
  snapshot_request-reaches id message w attached k wanted live =
      rw (attached, handle_client_message)
        (rw (k, handle_request)
          (rw (wanted, handle_request)
            (rw
              (deliver_to_client-open ch id control (snapshot_answer w message)
                (record w {
                  session = record w.session { display_seq = next_i64 w.session.display_seq };
                })
                attached live)
              ((refl, (λ j. ground arith), refl), refl))))
