-- ===== src/Mux/Session/Client.antt =====
-- `handle_client_message` of crates/protocol-mux/src/session.rs.
use dappy_core.Common.{
  ℕ, true, not, ◌&&◌, none, some, if◌then◌else◌, nat_eq, string_eq, unwrap_or, is_text,
}
use dappy_core.Common.HashMap
use dappy_core.Json.{Json}
use dappy_core.Mux.Client.{
  is_control, ClientRole, ClientId, client_not_found, upstream_not_connected,
}
use dappy_core.Mux.Message.{message_kind, seq, set_seq, command, response}
use dappy_core.Mux.Remapper
use dappy_core.Mux.Cancel.{translate_cancel}
use dappy_core.Mux.Cache.{observe_client_request, breakpoint_snapshot, is_request}
use dappy_core.Mux.Session.{
  breakpoint_snapshot_command, deliver_to_client, modify, next_display_seq, forward, err,
  uses_seq_remapping, gets, next_backend_seq, emit, pure, Action, ◌>>=◌, ◌>>◌,
}

module _ {V : Type 0} ⦃J : Json V⦄ where
  -- `self.to_upstream.send(message)`
  unfoldable pub send_upstream : V → Action V (Unit {0})
  send_upstream message ch w =
      if ch.upstream_open then emit (forward message) ch w else err upstream_not_connected w

  -- The snapshot request, answered by the multiplexer itself.
  unfoldable pub serve_snapshot : ClientId → V → Action V (Unit {0})
  serve_snapshot id message = do
    body ← gets (λ s. breakpoint_snapshot s.cache)
    display ← next_display_seq
    deliver_to_client id (response display (unwrap_or (seq message) 0) true (some body))

  -- An editor's request whose number is known: translated, renumbered, recorded and seen by the cache.
  unfoldable pub remap_editor : ℕ → V → Action V V
  remap_editor client_seq message = do
    translated ← gets (λ s. (translate_cancel message s.remapper).0)
    backend ← next_backend_seq
    let renumbered = set_seq translated backend
    modify (λ s. record s {
      remapper = Remapper.map s.remapper client_seq backend;
      cache = observe_client_request s.cache backend renumbered;
    })
    pure renumbered

  -- A request of any other role: always renumbered, and kept with the client that waits for it.
  unfoldable pub remap_secondary : ClientId → V → Action V V
  remap_secondary id message = do
    backend ← next_backend_seq
    let renumbered = set_seq message backend
    modify (λ s. record s {
      secondary_pending =
          HashMap.insert s.secondary_pending backend (id, unwrap_or (seq message) backend);
      cache = observe_client_request s.cache backend renumbered;
    })
    pure renumbered

  unfoldable pub remap_request : ClientId → ClientRole → V → Action V V
  unfolding remap_editor remap_secondary
  remap_request id role message =
      if uses_seq_remapping role
      then elim (seq message) [
        | none ↦ pure message
        | some client_seq ↦ remap_editor client_seq message
      ]
      else remap_secondary id message

  unfoldable pub handle_request : ClientId → ClientRole → V → Action V (Unit {0})
  unfolding serve_snapshot remap_request send_upstream
  handle_request id role message =
      if not (is_request (message_kind message))
      then pure tt
      else if is_control role && is_text (command message) breakpoint_snapshot_command
      then serve_snapshot id message
      else remap_request id role message >>= send_upstream

  unfoldable pub handle_client_message : ClientId → V → Action V (Unit {0})
  unfolding handle_request
  handle_client_message id message ch w = elim (HashMap.get w.session.clients id) [
    | none ↦ err client_not_found w
    | some role ↦ handle_request id role message ch w
  ]
