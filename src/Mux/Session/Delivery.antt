-- ===== src/Mux/Session/Delivery.antt =====
-- Whom the sends of crates/protocol-mux/src/session.rs reach: what each client has received.
use dappy_core.Common.{
  ltb, ap, ◌≡◌, refl, inl, inr, Bool, true, false, Option, none, some, List, [], ◌∷◌, arith,
  if◌then◌else◌, Bool-cases, ◌==◌, nat_eq, string_eq, is_some, Option-cases,
}
use dappy_core.Common.HashMap.{HashMap, IsMap}
use dappy_core.Common.HashMap
use dappy_core.Mux.Client.{ClientRole, ClientId}
use dappy_core.Mux.Session.{
  ◌>>=◌, Action, Outcome, ok, err, world_of, Effect, deliver, forward, broadcast, endpoint, World,
  Channels, deliver_to_client, deliver_to_each,
}

-- The messages on a client's own channel, the newest in front.
abbrev pub received : {V : Type 0} → ClientId → List (Effect V) → List V
received id [] = []
received id (deliver j m ∷ es) = if j == id then m ∷ received id es else received id es
received id (forward m ∷ es) = received id es
received id (broadcast m ∷ es) = received id es
received id (endpoint j r ∷ es) = received id es

-- The messages that the adapter has received, the newest in front.
abbrev pub forwarded : {V : Type 0} → List (Effect V) → List V
forwarded [] = []
forwarded (deliver j m ∷ es) = forwarded es
forwarded (forward m ∷ es) = m ∷ forwarded es
forwarded (broadcast m ∷ es) = forwarded es
forwarded (endpoint j r ∷ es) = forwarded es

-- The messages on the broadcast channel, which every endpoint reads, the newest in front.
abbrev pub published : {V : Type 0} → List (Effect V) → List V
published [] = []
published (deliver j m ∷ es) = published es
published (forward m ∷ es) = published es
published (broadcast m ∷ es) = m ∷ published es
published (endpoint j r ∷ es) = published es

-- The broadcast channel with one more message, where any endpoint reads it.
abbrev pub heard : {V : Type 0} → Channels → V → List V → List V
heard ch message before = if ltb 0 ch.receiver_count then message ∷ before else before

abbrev pub succeeds : {V A : Type 0} → Outcome V A → Bool
succeeds (ok a w) = true
succeeds (err e w) = false

-- An attached client whose role passes the test.
abbrev pub is_addressed : (ClientRole → Bool) → Option ClientRole → Bool
is_addressed wanted none = false
is_addressed wanted (some role) = wanted role

-- What one delivery to each of some clients means for the channels of all clients, and what the broadcast
-- channel holds behind it.
abbrev pub ReachesExactly :
    {V : Type 0} → (ClientId → Bool) → V → List V → World V → Outcome V (Unit {0}) → Type 0
ReachesExactly {V} chosen message on_broadcast w o =
    (succeeds o ≡ true)
    × ((id : ClientId)
        → received id (world_of o).sent
          ≡ (if chosen id then message ∷ received id w.sent else received id w.sent))
    × (published (world_of o).sent ≡ on_broadcast)

module _ {V : Type 0} (ch : Channels) where
  pub deliver_to_client-open :
      (id : ClientId) (role : ClientRole) (message : V) (w : World V)
      → HashMap.get w.session.clients id ≡ some role
      → ch.client_open id ≡ true
      → deliver_to_client id message ch w ≡ ok tt (record w { sent = deliver id message ∷ w.sent })
  unfolding deliver_to_client
  deliver_to_client-open id role message w h o = rw (h, deliver_to_client) (rw o refl)

  pub published-deliver_to_client :
      (id : ClientId) (message : V) (w : World V)
      → published (world_of (deliver_to_client id message ch w)).sent ≡ published w.sent
  unfolding deliver_to_client
  published-deliver_to_client id message w = ground arith

  -- The conditions under which a loop over a part of the table reaches all it wants to.
  pub record Reachable (wanted : ClientRole → Bool) (clients : HashMap ClientId ClientRole)
      (w : World V) : Type 0 where
    pub map : IsMap clients
    pub attached :
        (id : ClientId)
        → is_some (HashMap.get clients id) ≡ true
        → is_some (HashMap.get w.session.clients id) ≡ true
    pub live :
        (id : ClientId)
        → is_addressed wanted (HashMap.get clients id) ≡ true
        → ch.client_open id ≡ true

  rest-Reachable :
      (wanted : ClientRole → Bool) (j : ClientId) (role : ClientRole)
      (rest : HashMap ClientId ClientRole) (w : World V) (sent : List (Effect V))
      → Reachable wanted ((j, role) ∷ rest) w
      → Reachable wanted rest (record w { sent = sent })
  unfolding HashMap.get
  rest-Reachable wanted j role rest w sent r = record {
    map = r.map.1;
    attached = λ id h. ground (arith, r.attached id);
    live = λ id h. ground (arith, r.live id, r.map.0);
  }

  pub bind-ok :
      {A B : Type 0} (m : Action V A) (f : A → Action V B) (w w' : World V) (a : A)
      → m ch w ≡ ok a w'
      → (m >>= f) ch w ≡ f a ch w'
  bind-ok m f w w' a h = ap (λ r. elim r [ ok b x ↦ f b ch x | err e x ↦ err e x ]) h

  each-chosen :
      (wanted : ClientRole → Bool) (j : ClientId) (role known : ClientRole)
      (rest : HashMap ClientId ClientRole) (message : V) (w : World V)
      → wanted role ≡ true
      → HashMap.get w.session.clients j ≡ some known
      → ch.client_open j ≡ true
      → deliver_to_each wanted ((j, role) ∷ rest) message ch w
        ≡ deliver_to_each wanted rest message ch (record w { sent = deliver j message ∷ w.sent })
  unfolding deliver_to_each
  each-chosen wanted j role known rest message w chosen here live = rw chosen (
      bind-ok (deliver_to_client j message) (λ _. deliver_to_each wanted rest message) w _ tt
        (deliver_to_client-open j known message w here live))

  -- Every wanted client of a part of the table gets the message once on its own channel, no other channel
  -- gets anything, and the broadcast is as it was.
  pub deliver_to_each-reaches :
      (wanted : ClientRole → Bool) (clients : HashMap ClientId ClientRole) (message : V)
      (w : World V)
      → Reachable wanted clients w
      → ReachesExactly
          (λ id. is_addressed wanted (HashMap.get clients id))
          message
          (published w.sent)
          w
          (deliver_to_each wanted clients message ch w)
  unfolding deliver_to_each HashMap.get
  deliver_to_each-reaches wanted [] message w r = (refl, (λ id. refl), refl)
  deliver_to_each-reaches wanted ((j, role) ∷ rest) message w r = elim (Bool-cases (wanted role)) [
    | inl chosen ↦ elim (Option-cases (HashMap.get w.session.clients j)) [
      | inl gone ↦ absurd (ground (arith, r.attached j))
      | inr (known, here) ↦
          let e =
            each-chosen wanted j role known rest message w chosen here (ground (arith, r.live j)) in
          let (fine, reached, quiet) =
            deliver_to_each-reaches wanted rest message _
              (rest-Reachable wanted j role rest w _ r) in
          rw e (fine, (λ id. ground (arith, reached id, r.map.0)), quiet)
    ]
    | inr left ↦
        let (fine, reached, quiet) =
          deliver_to_each-reaches wanted rest message w (rest-Reachable wanted j role rest w _ r) in
        rw left (fine, (λ id. ground (arith, reached id, r.map.0)), quiet)
  ]
