-- ===== src/Mux/Session/Preservation/Upstream.antt =====
-- `handle_upstream_message` of crates/protocol-mux/src/session.rs keeps the tables in step.
use dappy_core.Mux.Remapper.Laws.{lookup_client-unmap}
use dappy_core.Mux.Cache.{observe_response}
use dappy_core.Mux.Remapper
use dappy_core.Common.HashMap
use dappy_core.Mux.Session.Upstream.{
  handle_response, broadcast_to_all, handle_upstream_message, handle_event, handle_kind,
  deliver_to_editor, route_secondary, route_response,
}
use dappy_core.Common.{
  ◌∙◌, arith, sym, some, match_keeps_eq, ◌≡◌, Option, ℕ, nat_eq, string_eq, match_keeps,
}
use dappy_core.Json.{Json}
use dappy_core.Mux.Client.{is_editor_or_control, editor}
use dappy_core.Mux.Cache.Laws.{observe-IsTracked, observe_response-IsTracked}
use dappy_core.Mux.Session.{
  deliver_to_each, gets, err, ok, Outcome, deliver_to_role, publish, SessionLoop, Action, World,
  Channels, ◌>>=◌, next_display_seq, deliver_to_client, ◌>>◌,
}
use dappy_core.Mux.Session.Silence.{
  deliver_to_each-IsSilent, bind-IsSilent, deliver_to_role-IsSilent, publish-IsSilent, IsSilent,
  deliver_to_client-IsSilent,
}
use dappy_core.Mux.Session.Invariant.{
  cache-IsWellFormed, answered-IsWellFormed, unmapped-IsWellFormed, display-IsWellFormed,
}
use dappy_core.Mux.Message.{
  request_seq, MessageKind, request_kind, response_kind, event_kind, unknown_kind, message_kind,
}
use dappy_core.Mux.Session.Preservation.{Follows, Leads, Ends, silent-Follows}

module _ {V : Type 0} ⦃J : Json V⦄ (a : Option ℕ) (s : SessionLoop V) (ch : Channels) where
  publish-Follows :
      (message : V) (w : World V) → Follows a s w.session → Leads a s ch w (publish message)
  publish-Follows message w f = silent-Follows s (publish message) ch w (publish-IsSilent message) f

  deliver_to_editor-Follows :
      (message : V) (w : World V)
      → Follows a s w.session
      → Leads a s ch w (deliver_to_editor message)
  unfolding deliver_to_editor next_display_seq
  deliver_to_editor-Follows message w f =
      silent-Follows s (deliver_to_role editor _) ch _ (deliver_to_role-IsSilent editor _) (record {
        valid = display-IsWellFormed w.session f.valid _;
        numbers = f.numbers;
        ids = f.ids;
        editor_waits = f.editor_waits;
      })

  route_secondary-Follows :
      (backend : ℕ) (message : V) (w : World V)
      → Follows a s w.session
      → Leads a s ch w (route_secondary backend message)
  unfolding route_secondary
  route_secondary-Follows backend message w f =
      match_keeps (Ends a s) (HashMap.get w.session.secondary_pending backend) _ _ f λ waiter.
        silent-Follows s (deliver_to_client _ _) ch _ (deliver_to_client-IsSilent _ _) (record {
          valid = answered-IsWellFormed w.session f.valid backend;
          numbers = f.numbers;
          ids = f.ids;
          editor_waits = f.editor_waits;
        })

  route_response-Follows :
      (backend : ℕ) (message : V) (w : World V)
      → a ≡ some backend
      → Follows a s w.session
      → Leads a s ch w (route_response backend message)
  unfolding route_response
  route_response-Follows backend message w named f =
      let g : Follows a s
          (record w.session { remapper = (Remapper.unmap w.session.remapper backend).1 }) =
        record {
          valid = unmapped-IsWellFormed w.session f.valid backend;
          numbers = f.numbers;
          ids = f.ids;
          editor_waits = λ b c ne h.
              let kept = f.editor_waits b c ne h in
              ground (arith, lookup_client-unmap w.session.remapper backend b);
        } in
      match_keeps (Ends a s) (Remapper.unmap w.session.remapper backend).0 _ _
        (route_secondary-Follows backend message _ g) (λ c. deliver_to_editor-Follows _ _ g)

  handle_response-Follows :
      (message : V) (w : World V)
      → request_seq message ≡ a
      → Follows a s w.session
      → Leads a s ch w (handle_response message)
  unfolding handle_response
  handle_response-Follows message w named f =
      let seen : Follows a s
          (record w.session { cache = observe_response w.session.cache message }) =
        record {
          valid =
              cache-IsWellFormed w.session f.valid _
                (observe_response-IsTracked w.session.cache message f.valid.tracked);
          numbers = f.numbers;
          ids = f.ids;
          editor_waits = f.editor_waits;
        } in
      match_keeps_eq
        (λ m.
          Leads a s ch
            (record w {
              session = record w.session { cache = observe_response w.session.cache message };
            })
            m)
        (request_seq message) _ _ seen
        (λ backend e. route_response-Follows backend message _ (sym named ∙ e) seen)

  broadcast_to_all-Follows :
      (message : V) (w : World V)
      → Follows a s w.session
      → Leads a s ch w (broadcast_to_all message)
  unfolding broadcast_to_all next_display_seq
  broadcast_to_all-Follows message w f =
      silent-Follows s (announce _) ch _ (announce-IsSilent _) (record {
        valid = display-IsWellFormed w.session f.valid _;
        numbers = f.numbers;
        ids = f.ids;
        editor_waits = f.editor_waits;
      })
    where
      announce : V → Action V (Unit {0})
      announce outbound = do
        publish outbound
        clients ← gets (λ t. t.clients)
        deliver_to_each is_editor_or_control clients outbound

      announce-IsSilent : (outbound : V) → IsSilent (announce outbound)
      announce-IsSilent outbound =
          bind-IsSilent (publish outbound) _ (publish-IsSilent outbound) (λ _. record {
            same = λ c x.
                (deliver_to_each-IsSilent is_editor_or_control x.session.clients outbound).same c x;
          })

  handle_event-Follows :
      (message : V) (w : World V) → Follows a s w.session → Leads a s ch w (handle_event message)
  unfolding handle_event
  handle_event-Follows message w f = broadcast_to_all-Follows message _ (record {
    valid =
        cache-IsWellFormed w.session f.valid _
          (observe-IsTracked w.session.cache message f.valid.tracked);
    numbers = f.numbers;
    ids = f.ids;
    editor_waits = f.editor_waits;
  })

  handle_kind-Follows :
      (kind : MessageKind) (message : V) (w : World V)
      → request_seq message ≡ a
      → Follows a s w.session
      → Leads a s ch w (handle_kind kind message)
  unfolding handle_kind
  handle_kind-Follows response_kind message w named f = handle_response-Follows message w named f
  handle_kind-Follows event_kind message w named f = handle_event-Follows message w f
  handle_kind-Follows request_kind message w named f = f
  handle_kind-Follows unknown_kind message w named f = f

  after_publish :
      (r : Outcome V (Unit {0})) (message : V)
      → request_seq message ≡ a
      → Ends a s r
      → Ends a s (elim r [
        | ok u w' ↦ handle_kind (message_kind message) message ch w'
        | err e w' ↦ err e w'
      ])
  after_publish (ok u w') message named f =
      handle_kind-Follows (message_kind message) message w' named f
  after_publish (err e w') message named f = f

  pub handle_upstream_message-Follows :
      (message : V) (w : World V)
      → request_seq message ≡ a
      → Follows a s w.session
      → Leads a s ch w (handle_upstream_message message)
  unfolding handle_upstream_message
  handle_upstream_message-Follows message w named f =
      after_publish (publish message ch w) message named (publish-Follows message w f)
