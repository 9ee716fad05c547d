-- ===== src/Mux/Session/Forwarding.antt =====
-- What crates/protocol-mux/src/session.rs forwards of a client's request.
use dappy_core.Common.{
  is_text, ◌&&◌, ◌==◌, false, if◌then◌else◌, unwrap_or, String, ℕ, ◌≡◌, refl, ◌∙◌, inl, inr, true,
  some, ◌∷◌, arith, nat_eq, string_eq, ==-refl, Option-cases,
}
use dappy_core.Common.HashMap.{HashMap, IsMap}
use dappy_core.Common.HashMap
use dappy_core.Json.{Json}
use dappy_core.Mux.Client.{is_control, is_editor, ClientRole, ClientId, editor}
use dappy_core.Mux.Remapper
use dappy_core.Mux.Remapper.{lookup_client, lookup_backend}
use dappy_core.Mux.Remapper.Laws.{lookup_client-map, lookup_backend-map}
use dappy_core.Mux.Cancel.{translate_cancel}
use dappy_core.Mux.Cancel.Laws.{translate_cancel_lem, upstream_id}
use dappy_core.Mux.Cache.{observe_client_request}
use dappy_core.Mux.Message.{message_kind, request_kind, seq, set_seq, command}
use dappy_core.Mux.Message.Laws.{
  is_object_of_kind, cancel_id, seq-set_seq, command-set_seq, get-set_seq,
}
use dappy_core.Mux.Session.{
  breakpoint_snapshot_command, forward, ok, world_of, World, Channels, next_i64, next_backend_seq,
}
use dappy_core.Mux.Session.Delivery.{published, received, forwarded, succeeds}
use dappy_core.Mux.Session.Client.{
  remap_secondary, handle_client_message, handle_request, remap_request, remap_editor,
  send_upstream,
}

module _ {V : Type 0} ⦃J : Json V⦄ where
  is_object_of_seq : (v : V) (n : ℕ) → seq v ≡ some n → J.is_object v ≡ true
  unfolding seq
  is_object_of_seq v n h = elim (Option-cases (J.get v "seq")) [
    | inl missing ↦ absurd (ground arith)
    | inr (x, e) ↦ J.is_object-get v "seq" x e
  ]

  get-set_seq_all :
      (v : V) (n : ℕ)
      → J.is_object v ≡ true
      → (key : String)
      → J.get (set_seq v n) key ≡ (if "seq" == key then some (J.number n) else J.get v key)
  unfolding set_seq
  get-set_seq_all v n o key = rw o (J.get-insert v "seq" key (J.number n) o)

  cancel_id-set_seq : (v : V) (n : ℕ) → cancel_id (set_seq v n) ≡ cancel_id v
  unfolding cancel_id
  cancel_id-set_seq v n = rw (command-set_seq v n, get-set_seq v n "arguments" refl) refl

module _ {V : Type 0} ⦃J : Json V⦄ (ch : Channels) where
  send_upstream-open :
      (m : V) (w : World V)
      → ch.upstream_open ≡ true
      → send_upstream m ch w ≡ ok tt (record w { sent = forward m ∷ w.sent })
  unfolding send_upstream
  send_upstream-open m w h = rw h refl

  -- The message that goes upstream for an editor's request, and the world that it leaves.
  abbrev translated : World V → V → V
  translated w message =
      set_seq (translate_cancel message w.session.remapper).0 (next_i64 w.session.backend_seq)

  abbrev recorded : World V → ℕ → V → World V
  recorded w c message = record {
    sent = forward (translated w message) ∷ w.sent;
    session = record w.session {
      backend_seq = next_i64 w.session.backend_seq;
      remapper = Remapper.map w.session.remapper c (next_i64 w.session.backend_seq);
      cache =
          observe_client_request w.session.cache (next_i64 w.session.backend_seq)
            (translated w message);
    };
  }

  editor_request-sent :
      (id : ClientId) (c : ℕ) (message : V) (w : World V)
      → HashMap.get w.session.clients id ≡ some editor
      → message_kind message ≡ request_kind
      → seq message ≡ some c
      → ch.upstream_open ≡ true
      → handle_client_message id message ch w ≡ ok tt (recorded w c message)
  unfolding handle_client_message remap_editor next_backend_seq
  editor_request-sent id c message w attached k s live =
      rw (attached, handle_client_message)
        (rw (k, handle_request)
          (rw (s, remap_request) (send_upstream-open (translated w message) _ live)))

  -- An attached editor's numbered request goes upstream, where that is open, as one message with a
  -- number of its own, the same command, and a `cancel` of the number that the adapter knows; the number
  -- is recorded for the client's, both ways; and nothing goes to any client, on its own channel or on the broadcast.
  pub editor_request-forwards :
      (id : ClientId) (c : ℕ) (message : V) (w : World V)
      → HashMap.get w.session.clients id ≡ some editor
      → message_kind message ≡ request_kind
      → seq message ≡ some c
      → ch.upstream_open ≡ true
      → let n = next_i64 w.session.backend_seq in
        let o = handle_client_message id message ch w in
        (m : V) × (succeeds o ≡ true)
        × (forwarded (world_of o).sent ≡ m ∷ forwarded w.sent)
        × (seq m ≡ some n)
        × (command m ≡ command message)
        × (cancel_id m ≡ upstream_id w.session.remapper (cancel_id message))
        × (lookup_client (world_of o).session.remapper n ≡ some c)
        × (lookup_backend (world_of o).session.remapper c ≡ some n)
        × ((j : ClientId) → received j (world_of o).sent ≡ received j w.sent)
        × (published (world_of o).sent ≡ published w.sent)
  editor_request-forwards id c message w attached k s live =
      let n = next_i64 w.session.backend_seq in
      let r = w.session.remapper in
      let t = (translate_cancel message r).0 in
      let (cancels, _, same_seq, same_command) = translate_cancel_lem message r in
      rw (editor_request-sent id c message w attached k s live) (
        translated w message,
        refl,
        refl,
        seq-set_seq t n (is_object_of_seq t c (same_seq ∙ s)),
        command-set_seq t n ∙ same_command,
        cancel_id-set_seq t n ∙ cancels,
        lookup_client-map r c n n ∙ rw (==-refl n) refl,
        lookup_backend-map r c n c ∙ rw (==-refl c) refl,
        (λ j. refl),
        refl,
      )

  -- The message that goes upstream for another client's request, and the world that it leaves.
  abbrev renumbered : World V → V → V
  renumbered w message = set_seq message (next_i64 w.session.backend_seq)

  abbrev kept_waiting : World V → ClientId → V → World V
  kept_waiting w id message = record {
    sent = forward (renumbered w message) ∷ w.sent;
    session = record w.session {
      backend_seq = next_i64 w.session.backend_seq;
      secondary_pending =
          HashMap.insert w.session.secondary_pending (next_i64 w.session.backend_seq)
            (id, unwrap_or (seq message) (next_i64 w.session.backend_seq));
      cache =
          observe_client_request w.session.cache (next_i64 w.session.backend_seq)
            (renumbered w message);
    };
  }

  secondary_request-sent :
      (id : ClientId) (role : ClientRole) (message : V) (w : World V)
      → HashMap.get w.session.clients id ≡ some role
      → is_editor role ≡ false
      → (is_control role && is_text (command message) breakpoint_snapshot_command) ≡ false
      → message_kind message ≡ request_kind
      → ch.upstream_open ≡ true
      → handle_client_message id message ch w ≡ ok tt (kept_waiting w id message)
  unfolding handle_client_message remap_secondary next_backend_seq
  secondary_request-sent id role message w attached other no_snapshot k live =
      rw (attached, handle_client_message)
        (rw (k, handle_request)
          (rw (no_snapshot, handle_request)
            (rw (other, remap_request) (send_upstream-open (renumbered w message) _ live))))

  -- A request of an attached client that is no editor, other than a control client's for the snapshot,
  -- goes upstream, where that is open, under a number of its own with every other field as it was; the
  -- client and its own number are kept under the new one; and nothing goes to any client, on its own channel or on the broadcast.
  pub secondary_request-forwards :
      (id : ClientId) (role : ClientRole) (message : V) (w : World V)
      → HashMap.get w.session.clients id ≡ some role
      → is_editor role ≡ false
      → (is_control role && is_text (command message) breakpoint_snapshot_command) ≡ false
      → message_kind message ≡ request_kind
      → ch.upstream_open ≡ true
      → let n = next_i64 w.session.backend_seq in
        let o = handle_client_message id message ch w in
        (m : V) × (succeeds o ≡ true)
        × (forwarded (world_of o).sent ≡ m ∷ forwarded w.sent)
        × ((key : String)
            → J.get m key ≡ (if "seq" == key then some (J.number n) else J.get message key))
        × (HashMap.get (world_of o).session.secondary_pending n
            ≡ some (id, unwrap_or (seq message) n))
        × ((j : ClientId) → received j (world_of o).sent ≡ received j w.sent)
        × (published (world_of o).sent ≡ published w.sent)
  secondary_request-forwards id role message w attached other no_snapshot k live =
      let n = next_i64 w.session.backend_seq in
      rw (secondary_request-sent id role message w attached other no_snapshot k live) (
        renumbered w message,
        refl,
        refl,
        get-set_seq_all message n (is_object_of_kind message (λ e. cc (k, e))),
        HashMap.get-insert w.session.secondary_pending n n (id, unwrap_or (seq message) n)
            ∙ rw (==-refl n) refl,
        (λ j. refl),
        refl,
      )
