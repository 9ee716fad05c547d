-- ===== src/Mux/Session/Preservation/Clients.antt =====
-- `handle_client_message` of crates/protocol-mux/src/session.rs keeps the tables in step.
use dappy_core.Mux.Remapper.Laws.{lookup_client-map}
use dappy_core.Mux.Cache.{is_request}
use dappy_core.Common.HashMap
use dappy_core.Mux.Message.{command, message_kind, seq}
use dappy_core.Common.{
  none, ℕ, ◌+◌, ◌^◌, ◌<◌, not, ◌&&◌, arith, nat_eq, string_eq, is_text, if_keeps, match_keeps,
}
use dappy_core.Json.{Json}
use dappy_core.Mux.Client.{is_control, ClientRole, ClientId}
use dappy_core.Mux.Cache.Laws.{observe_client_request-IsTracked}
use dappy_core.Mux.Session.{
  next_i64, breakpoint_snapshot_command, uses_seq_remapping, World, Channels, ◌>>=◌,
  next_backend_seq, next_display_seq, deliver_to_client,
}
use dappy_core.Mux.Session.Client.{
  remap_request, handle_client_message, send_upstream, serve_snapshot, remap_editor,
  remap_secondary,
}
use dappy_core.Mux.Session.Silence.{deliver_to_client-IsSilent}
use dappy_core.Mux.Session.Invariant.{
  IsWellFormed, editor_request-IsWellFormed, secondary_request-IsWellFormed, display-IsWellFormed,
}
use dappy_core.Mux.Session.Preservation.{
  Leads, Ends, silent-Follows, same-Follows, send_upstream-IsSilent, next_lt,
}

module _ {V : Type 0} ⦃J : Json V⦄ (ch : Channels) (w : World V) (v : IsWellFormed w.session) where
  serve_snapshot-Follows :
      (id : ClientId) (message : V) → Leads none w.session ch w (serve_snapshot id message)
  unfolding serve_snapshot next_display_seq
  serve_snapshot-Follows id message =
      silent-Follows w.session (deliver_to_client id _) ch _ (deliver_to_client-IsSilent id _)
        (record {
          valid = display-IsWellFormed w.session v _;
          numbers = omega arith;
          ids = omega arith;
          editor_waits = λ b c ne g. g;
        })

  remap_editor-Follows :
      (client_seq : ℕ) (message : V)
      → w.session.backend_seq + 1 < 2 ^ 64
      → Leads none w.session ch w (remap_editor client_seq message >>= send_upstream)
  unfolding remap_editor next_backend_seq
  remap_editor-Follows client_seq message room =
      let (h, k) = next_lt w.session.backend_seq room in
      silent-Follows w.session (send_upstream _) ch _ (send_upstream-IsSilent _) (record {
        valid =
            editor_request-IsWellFormed w.session v client_seq _ _ h
              (observe_client_request-IsTracked w.session.cache _ _ v.tracked);
        numbers = k;
        ids = omega arith;
        editor_waits = λ b c ne g. ground (
          arith,
          lookup_client-map w.session.remapper client_seq (next_i64 w.session.backend_seq) b,
          v.fresh_editor b,
        );
      })

  remap_secondary-Follows :
      (id : ClientId) (message : V)
      → w.session.backend_seq + 1 < 2 ^ 64
      → Leads none w.session ch w (remap_secondary id message >>= send_upstream)
  unfolding remap_secondary next_backend_seq
  remap_secondary-Follows id message room =
      let (h, k) = next_lt w.session.backend_seq room in
      silent-Follows w.session (send_upstream _) ch _ (send_upstream-IsSilent _) (record {
        valid =
            secondary_request-IsWellFormed w.session v _ _ _ h
              (observe_client_request-IsTracked w.session.cache _ _ v.tracked);
        numbers = k;
        ids = omega arith;
        editor_waits = λ b c ne g. g;
      })

  remap_request-Follows :
      (id : ClientId) (role : ClientRole) (message : V)
      → w.session.backend_seq + 1 < 2 ^ 64
      → Leads none w.session ch w (remap_request id role message >>= send_upstream)
  unfolding remap_request
  remap_request-Follows id role message room =
      if_keeps (λ m. Leads none w.session ch w (m >>= send_upstream)) (uses_seq_remapping role) _ _
        (match_keeps (λ m. Leads none w.session ch w (m >>= send_upstream)) (seq message) _ _
          (silent-Follows w.session (send_upstream _) ch _ (send_upstream-IsSilent _)
            (same-Follows _ v))
          (λ c. remap_editor-Follows c message room))
        (remap_secondary-Follows id message room)

  pub handle_client_message-Follows :
      (id : ClientId) (message : V)
      → w.session.backend_seq + 1 < 2 ^ 64
      → Leads none w.session ch w (handle_client_message id message)
  unfolding handle_client_message
  handle_client_message-Follows id message room =
      match_keeps (Ends none w.session) (HashMap.get w.session.clients id) _ _ (same-Follows _ v)
        λ role.
          if_keeps (Leads none w.session ch w) (not (is_request (message_kind message))) _ _
            (same-Follows _ v)
            (if_keeps (Leads none w.session ch w)
              (is_control role && is_text (command message) breakpoint_snapshot_command) _ _
              (serve_snapshot-Follows id message) (remap_request-Follows id role message room))
