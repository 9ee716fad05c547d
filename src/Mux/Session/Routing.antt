-- ===== src/Mux/Session/Routing.antt =====
-- Where the responses of crates/protocol-mux/src/session.rs go.
use dappy_core.Mux.Session.Loop.{broken, from_upstream, turn}
use dappy_core.Common.{
  ◌==◌, ℕ, ◌≡◌, refl, ◌∙◌, inl, inr, Bool, true, none, some, List, ◌∷◌, arith, ltb, Bool-cases,
  nat_eq, string_eq, ==-refl,
}
use dappy_core.Common.HashMap.{HashMap, IsMap}
use dappy_core.Common.HashMap
use dappy_core.Json.{Json}
use dappy_core.Mux.Client.{client_not_found, ClientRole, ClientId, editor, same_role}
use dappy_core.Mux.Remapper
use dappy_core.Mux.Remapper.{lookup_client}
use dappy_core.Mux.Remapper.Laws.{unmap-none, unmap-result, lookup_client-unmap}
use dappy_core.Mux.Cache.{observe_response}
use dappy_core.Mux.Message.{message_kind, response_kind, request_seq, set_seq, set_request_seq}
use dappy_core.Mux.Session.{
  err, deliver_to_client, ok, world_of, Effect, broadcast, World, Channels, deliver_to_each,
  publish, next_i64, next_display_seq, deliver_to_role,
}
use dappy_core.Mux.Session.Silence.{deliver_to_each-IsSilent}
use dappy_core.Mux.Session.Delivery.{
  heard, published, deliver_to_client-open, succeeds, received, ReachesExactly,
  deliver_to_each-reaches, is_addressed, bind-ok,
}
use dappy_core.Mux.Session.Invariant.{IsWellFormed}
use dappy_core.Mux.Session.Upstream.{
  route_secondary, handle_upstream_message, handle_response, route_response, deliver_to_editor,
  handle_kind,
}

-- `state.role == ClientRole::Editor`
abbrev pub for_editors : ClientRole → Bool
for_editors role = same_role role editor

-- What a client gets of the adapter's response: the old number of the request.
abbrev pub readdressed : {V : Type 0} ⦃J : Json V⦄ → V → ℕ → ℕ → V
readdressed message client_seq display = set_seq (set_request_seq message client_seq) display

module _ {V : Type 0} ⦃J : Json V⦄ (ch : Channels) where
  pub publish-sent :
      (message : V) (w : World V)
      → (sent : List (Effect V)) × (publish message ch w ≡ ok tt (record w { sent = sent }))
        × ((id : ClientId) → received id sent ≡ received id w.sent)
        × (published sent ≡ heard ch message (published w.sent))
  unfolding publish
  publish-sent message w = elim (Bool-cases (ltb 0 ch.receiver_count)) [
    | inl h ↦ (broadcast message ∷ w.sent, rw h refl, (λ id. refl), rw h refl)
    | inr h ↦ (w.sent, rw h refl, (λ id. refl), rw h refl)
  ]

  -- The world in which a response with a known number is routed.
  abbrev seen : V → List (Effect V) → World V → World V
  seen message sent w = record w {
    sent = sent;
    session = record w.session { cache = observe_response w.session.cache message };
  }

  response-routed :
      (b : ℕ) (message : V) (w : World V) (sent : List (Effect V))
      → message_kind message ≡ response_kind
      → request_seq message ≡ some b
      → publish message ch w ≡ ok tt (record w { sent = sent })
      → handle_upstream_message message ch w ≡ route_response b message ch (seen message sent w)
  unfolding handle_upstream_message handle_response
  response-routed b message w sent k r p =
      bind-ok ch (publish message) (λ _. handle_kind (message_kind message) message) w _ tt p
      ∙ rw (k, handle_kind) (rw (r, handle_response) refl)

  -- The world in which an editor's response is sent.
  abbrev answered : ℕ → World V → World V
  answered b w = record w {
    session = record w.session {
      remapper = (Remapper.unmap w.session.remapper b).1;
      display_seq = next_i64 w.session.display_seq;
    };
  }

  editor-routed :
      (b c : ℕ) (message : V) (w : World V)
      → lookup_client w.session.remapper b ≡ some c
      → route_response b message ch w
        ≡ deliver_to_each for_editors w.session.clients
            (readdressed message c (next_i64 w.session.display_seq))
            ch
            (answered b w)
  unfolding route_response deliver_to_editor next_display_seq deliver_to_role
  editor-routed b c message w found =
      rw (unmap-result w.session.remapper b ∙ found, route_response) refl

  -- In a well-formed session, the response to an editor's request goes on the own channel of every editor
  -- and of no other client, with the number of the editor's own request, and is the last one to do so,
  -- where the editors' channels are open. On the broadcast, where any endpoint reads it, goes the response
  -- as it came, once.
  pub editor_response-reaches :
      (b c : ℕ) (message : V) (w : World V)
      → IsWellFormed w.session
      → message_kind message ≡ response_kind
      → request_seq message ≡ some b
      → lookup_client w.session.remapper b ≡ some c
      → ((id : ClientId)
          → is_addressed for_editors (HashMap.get w.session.clients id) ≡ true
          → ch.client_open id ≡ true)
      → let o = handle_upstream_message message ch w in
        ReachesExactly
          (λ id. is_addressed for_editors (HashMap.get w.session.clients id))
          (readdressed message c (next_i64 w.session.display_seq))
          (heard ch message (published w.sent))
          w
          o
        × (lookup_client (world_of o).session.remapper b ≡ none)
  editor_response-reaches b c message w v k r found live =
      let (sent, p, same, told) = publish-sent message w in
      let x = seen message sent w in
      let e = response-routed b message w sent k r p ∙ editor-routed b c message x found in
      let out = readdressed message c (next_i64 w.session.display_seq) in
      let (fine, reached, quiet) =
        deliver_to_each-reaches ch for_editors w.session.clients out (answered b x)
          (record { map = v.one_entry; attached = λ id h. h; live = live }) in
      let kept =
        (deliver_to_each-IsSilent for_editors w.session.clients out).same ch (answered b x) in
      rw e (
        (fine, (λ id. ground (arith, reached id, same id)), quiet ∙ told),
        rw kept (lookup_client-unmap w.session.remapper b b ∙ rw (==-refl b) refl),
      )

  -- A response that no editor's request waits for is looked up among the others.
  others-routed :
      (b : ℕ) (message : V) (w : World V)
      → lookup_client w.session.remapper b ≡ none
      → route_response b message ch w ≡ route_secondary b message ch w
  unfolding route_response
  others-routed b message w idle =
      rw
        (
          unmap-result w.session.remapper b ∙ idle,
          unmap-none w.session.remapper b idle,
          route_response,
        )
        refl

  abbrev taken : ℕ → World V → World V
  taken b w = record w {
    session = record w.session { secondary_pending = HashMap.remove w.session.secondary_pending b };
  }

  secondary-routed :
      (b k : ℕ) (owner : ClientId) (message : V) (w : World V)
      → HashMap.get w.session.secondary_pending b ≡ some (owner, k)
      → route_secondary b message ch w
        ≡ deliver_to_client owner (set_request_seq message k) ch (taken b w)
  unfolding route_secondary
  secondary-routed b k owner message w waits = rw (waits, route_secondary) refl

  -- The response to the request of an attached client that is no editor, with an open channel, goes on the
  -- own channel of that client alone, with the number that is kept for the client, and is the last one to
  -- do so. On the broadcast, where any endpoint reads it, goes the response as it came, once.
  pub secondary_response-reaches :
      (b k : ℕ) (owner : ClientId) (role : ClientRole) (message : V) (w : World V)
      → message_kind message ≡ response_kind
      → request_seq message ≡ some b
      → lookup_client w.session.remapper b ≡ none
      → HashMap.get w.session.secondary_pending b ≡ some (owner, k)
      → HashMap.get w.session.clients owner ≡ some role
      → ch.client_open owner ≡ true
      → let o = handle_upstream_message message ch w in
        ReachesExactly
          (λ id. owner == id)
          (set_request_seq message k)
          (heard ch message (published w.sent))
          w
          o
        × (HashMap.get (world_of o).session.secondary_pending b ≡ none)
  secondary_response-reaches b k owner role message w kind r idle waits attached live =
      let (sent, p, same, told) = publish-sent message w in
      let x = seen message sent w in
      rw
        (response-routed b message w sent kind r p
          ∙ others-routed b message x idle
          ∙ secondary-routed b k owner message x waits
          ∙ deliver_to_client-open ch owner role _ (taken b x) attached live)
        (
          (refl, (λ id. ground (arith, same id)), told),
          HashMap.get-remove w.session.secondary_pending b b ∙ rw (==-refl b) refl,
        )

  deliver_to_client-gone :
      (id : ClientId) (message : V) (w : World V)
      → HashMap.get w.session.clients id ≡ none
      → deliver_to_client id message ch w ≡ err client_not_found w
  unfolding deliver_to_client
  deliver_to_client-gone id message w gone = rw (gone, deliver_to_client) refl

  -- The response to the request of a client, not an editor, that has detached in between ends the whole
  -- loop with an error. It is on no client's own channel, only as it came on the broadcast, where any
  -- endpoint reads it.
  pub detached_response-breaks :
      (b k : ℕ) (owner : ClientId) (message : V) (w : World V)
      → message_kind message ≡ response_kind
      → request_seq message ≡ some b
      → lookup_client w.session.remapper b ≡ none
      → HashMap.get w.session.secondary_pending b ≡ some (owner, k)
      → HashMap.get w.session.clients owner ≡ none
      → let t = turn (from_upstream (some message)) ch w in
        (t.0 ≡ broken client_not_found)
        × ((id : ClientId) → received id t.1.sent ≡ received id w.sent)
        × (published t.1.sent ≡ heard ch message (published w.sent))
  unfolding turn
  detached_response-breaks b k owner message w kind r idle waits gone =
      let (sent, p, same, told) = publish-sent message w in
      let x = seen message sent w in
      rw
        (response-routed b message w sent kind r p
          ∙ others-routed b message x idle
          ∙ secondary-routed b k owner message x waits
          ∙ deliver_to_client-gone owner _ (taken b x) gone)
        (refl, same, told)

  unmatched-routed :
      (b : ℕ) (message : V) (w : World V)
      → HashMap.get w.session.secondary_pending b ≡ none
      → route_secondary b message ch w ≡ ok tt w
  unfolding route_secondary
  unmatched-routed b message w idle = rw (idle, route_secondary) refl

  -- A response that nobody waits for is on no client's own channel, only as it came on the broadcast, where
  -- any endpoint reads it; of the session, only the cache sees it.
  pub unmatched_response-drops :
      (b : ℕ) (message : V) (w : World V)
      → message_kind message ≡ response_kind
      → request_seq message ≡ some b
      → lookup_client w.session.remapper b ≡ none
      → HashMap.get w.session.secondary_pending b ≡ none
      → let o = handle_upstream_message message ch w in
        (succeeds o ≡ true)
        × ((id : ClientId) → received id (world_of o).sent ≡ received id w.sent)
        × (published (world_of o).sent ≡ heard ch message (published w.sent))
        × ((world_of o).session
            ≡ record w.session { cache = observe_response w.session.cache message })
  unmatched_response-drops b message w kind r idle_editor idle_other =
      let (sent, p, same, told) = publish-sent message w in
      let x = seen message sent w in
      rw
        (response-routed b message w sent kind r p
          ∙ others-routed b message x idle_editor
          ∙ unmatched-routed b message x idle_other)
        (refl, same, told, refl)
