-- ===== src/Mux/Session/Events.antt =====
-- Where the events of crates/protocol-mux/src/session.rs go.
use dappy_core.Common.{ap, ◌≡◌, ◌∙◌, true, List, arith, nat_eq, string_eq}
use dappy_core.Common.HashMap.{HashMap, IsMap}
use dappy_core.Common.HashMap
use dappy_core.Json.{Json}
use dappy_core.Mux.Client.{ClientId, is_editor_or_control}
use dappy_core.Mux.Cache.{observe}
use dappy_core.Mux.Message.{message_kind, event_kind, set_seq}
use dappy_core.Mux.Session.{
  Effect, ok, world_of, World, Channels, deliver_to_each, publish, next_i64, next_display_seq, gets,
  ◌>>=◌,
}
use dappy_core.Mux.Session.Silence.{deliver_to_each-IsSilent}
use dappy_core.Mux.Session.Delivery.{
  heard, published, ReachesExactly, deliver_to_each-reaches, is_addressed, bind-ok,
}
use dappy_core.Mux.Session.Routing.{publish-sent}
use dappy_core.Mux.Session.Invariant.{IsWellFormed}
use dappy_core.Mux.Session.Upstream.{
  handle_upstream_message, handle_event, broadcast_to_all, handle_kind,
}

module _ {V : Type 0} ⦃J : Json V⦄ (ch : Channels) where
  -- The world in which an event is sent to the clients.
  abbrev announced : V → List (Effect V) → World V → World V
  announced message sent w = record {
    sent = sent;
    session = record w.session {
      cache = observe w.session.cache message;
      display_seq = next_i64 w.session.display_seq;
    };
  }

  event-broadcast :
      (message : V) (w : World V) (sent again : List (Effect V))
      → message_kind message ≡ event_kind
      → publish message ch w ≡ ok tt (record w { sent = sent })
      → publish (set_seq message (next_i64 w.session.display_seq)) ch (announced message sent w)
        ≡ ok tt (announced message again w)
      → handle_upstream_message message ch w
        ≡ deliver_to_each is_editor_or_control w.session.clients
            (set_seq message (next_i64 w.session.display_seq))
            ch
            (announced message again w)
  unfolding handle_upstream_message handle_event broadcast_to_all next_display_seq
  event-broadcast message w sent again k p q =
      bind-ok ch (publish message) (λ _. handle_kind (message_kind message) message) w _ tt p
      ∙ rw (k, handle_kind)
          (bind-ok ch (publish _)
            (λ _. gets (λ s. s.clients) >>= λ clients.
              deliver_to_each is_editor_or_control clients
                (set_seq message (next_i64 w.session.display_seq)))
            (announced message sent w) _ tt q)

  -- In a well-formed session, an event goes on the own channel of every editor and every control client and
  -- of no other, under a number of the multiplexer's own, where their channels are open. On the broadcast,
  -- where any endpoint reads it, it goes twice: as it came, and then under that number. Of the session, only
  -- the cache and that counter see it.
  pub event-reaches :
      (message : V) (w : World V)
      → IsWellFormed w.session
      → message_kind message ≡ event_kind
      → ((id : ClientId)
          → is_addressed is_editor_or_control (HashMap.get w.session.clients id) ≡ true
          → ch.client_open id ≡ true)
      → let o = handle_upstream_message message ch w in
        ReachesExactly
          (λ id. is_addressed is_editor_or_control (HashMap.get w.session.clients id))
          (set_seq message (next_i64 w.session.display_seq))
          (heard ch
            (set_seq message (next_i64 w.session.display_seq))
            (heard ch message (published w.sent)))
          w
          o
        × ((world_of o).session ≡ record w.session {
          cache = observe w.session.cache message;
          display_seq = next_i64 w.session.display_seq;
        })
  event-reaches message w v k live =
      let (sent, p, same, told) = publish-sent ch message w in
      let out = set_seq message (next_i64 w.session.display_seq) in
      let (again, q, same_again, told_again) = publish-sent ch out (announced message sent w) in
      let x = announced message again w in
      let (fine, reached, quiet) =
        deliver_to_each-reaches ch is_editor_or_control w.session.clients out x
          (record { map = v.one_entry; attached = λ id h. h; live = live }) in
      rw (event-broadcast message w sent again k p q) (
        (
          fine,
          (λ id. ground (arith, reached id, same_again id, same id)),
          quiet ∙ told_again ∙ ap (heard ch out) told,
        ),
        (deliver_to_each-IsSilent is_editor_or_control w.session.clients out).same ch x,
      )
