-- ===== src/Mux/Session/Upstream.antt =====
-- `handle_upstream_message` of crates/protocol-mux/src/session.rs.
use dappy_core.Common.{ℕ, none, some, nat_eq, string_eq}
use dappy_core.Common.HashMap
use dappy_core.Json.{Json}
use dappy_core.Mux.Client.{editor, other_error, is_editor_or_control}
use dappy_core.Mux.Message.{
  MessageKind, request_kind, response_kind, event_kind, unknown_kind, message_kind, request_seq,
  set_request_seq, set_seq,
}
use dappy_core.Mux.Remapper
use dappy_core.Mux.Cache.{observe, observe_response}
use dappy_core.Mux.Session.{
  deliver_to_each, gets, raise, deliver_to_role, deliver_to_client, next_display_seq, modify, ok,
  pure, publish, Action, ◌>>=◌, ◌>>◌,
}

module _ {V : Type 0} ⦃J : Json V⦄ where
  unfoldable pub deliver_to_editor : V → Action V (Unit {0})
  deliver_to_editor message = do
    display ← next_display_seq
    deliver_to_role editor (set_seq message display)

  unfoldable pub broadcast_to_all : V → Action V (Unit {0})
  broadcast_to_all message = do
    display ← next_display_seq
    let outbound = set_seq message display
    publish outbound
    clients ← gets (λ s. s.clients)
    deliver_to_each is_editor_or_control clients outbound

  -- The response to a request of a client that is no editor, if one waits for it.
  unfoldable pub route_secondary : ℕ → V → Action V (Unit {0})
  route_secondary backend message ch w = elim (HashMap.get w.session.secondary_pending backend) [
    | none ↦ ok tt w
    | some (client_id, client_seq) ↦
        deliver_to_client client_id (set_request_seq message client_seq) ch (record w {
          session = record w.session {
            secondary_pending = HashMap.remove w.session.secondary_pending backend;
          };
        })
  ]

  -- `self.remapper.unmap(backend)`, then the editor or whoever else waits.
  unfoldable pub route_response : ℕ → V → Action V (Unit {0})
  unfolding deliver_to_editor route_secondary
  route_response backend message ch w =
      let (found, remapper) = Remapper.unmap w.session.remapper backend in
      let w' = record w { session = record w.session { remapper = remapper } } in
      elim found [
        | none ↦ route_secondary backend message ch w'
        | some client_seq ↦ deliver_to_editor (set_request_seq message client_seq) ch w'
      ]

  unfoldable pub handle_response : V → Action V (Unit {0})
  unfolding route_response
  handle_response message = do
    modify (λ s. record s { cache = observe_response s.cache message })
    elim (request_seq message) [
      | none ↦ raise (other_error "response missing requestSeq")
      | some backend ↦ route_response backend message
    ]

  unfoldable pub handle_event : V → Action V (Unit {0})
  unfolding broadcast_to_all
  handle_event message = do
    modify (λ s. record s { cache = observe s.cache message })
    broadcast_to_all message

  unfoldable pub handle_kind : MessageKind → V → Action V (Unit {0})
  unfolding handle_response handle_event
  handle_kind response_kind message = handle_response message
  handle_kind event_kind message = handle_event message
  handle_kind request_kind message = pure tt
  handle_kind unknown_kind message = pure tt

  unfoldable pub handle_upstream_message : V → Action V (Unit {0})
  unfolding handle_kind
  handle_upstream_message message = do publish message; handle_kind (message_kind message) message
