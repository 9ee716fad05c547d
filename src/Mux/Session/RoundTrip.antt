-- ===== src/Mux/Session/RoundTrip.antt =====
-- A request and its response through the loop of crates/protocol-mux/src/session.rs, with any other
-- traffic in between.
use dappy_core.Common.{ℕ, ◌+◌, ◌^◌, ◌<◌, ◌≡◌, true, some, List, arith, nat_eq, string_eq, length}
use dappy_core.Common.HashMap
use dappy_core.Json.{Json}
use dappy_core.Mux.Client.{ClientId, editor}
use dappy_core.Mux.Message.{message_kind, request_kind, response_kind, seq, request_seq}
use dappy_core.Mux.Session.{world_of, World, Channels, next_i64}
use dappy_core.Mux.Session.Client.{handle_client_message}
use dappy_core.Mux.Session.Upstream.{handle_upstream_message}
use dappy_core.Mux.Session.Loop.{Input, run}
use dappy_core.Mux.Session.Delivery.{heard, published, ReachesExactly, is_addressed}
use dappy_core.Mux.Session.Routing.{for_editors, readdressed, editor_response-reaches}
use dappy_core.Mux.Session.Forwarding.{editor_request-forwards}
use dappy_core.Mux.Session.Invariant.{IsWellFormed}
use dappy_core.Mux.Session.Preservation.Clients.{handle_client_message-Follows}
use dappy_core.Mux.Session.Preservation.Runs.{run-IsWellFormed, run-waits, Unanswered}

module _ {V : Type 0} ⦃J : Json V⦄ (ch later : Channels) where
  -- An editor's request with the number `c` is forwarded; any run follows in which nothing answers its
  -- upstream number; then the response to that number goes on the own channel of every editor that is
  -- attached at that time and of no other client, with the number `c` again, and as it came on the
  -- broadcast, where any endpoint reads it. The session was well formed, the upstream and the
  -- channels of those editors are open, and the counters have room for the run.
  pub editor_request-response :
      (id : ClientId) (c : ℕ) (request answer : V) (inputs : List (Channels × Input V))
      (w : World V)
      → IsWellFormed w.session
      → w.session.backend_seq + length inputs + 1 < 2 ^ 64
      → w.session.next_client_id + length inputs + 1 < 2 ^ 64
      → HashMap.get w.session.clients id ≡ some editor
      → message_kind request ≡ request_kind
      → seq request ≡ some c
      → ch.upstream_open ≡ true
      → Unanswered (next_i64 w.session.backend_seq) inputs
      → message_kind answer ≡ response_kind
      → request_seq answer ≡ some (next_i64 w.session.backend_seq)
      → let x = (run inputs (world_of (handle_client_message id request ch w))).1 in
        ((j : ClientId)
          → is_addressed for_editors (HashMap.get x.session.clients j) ≡ true
          → later.client_open j ≡ true)
        → ReachesExactly
            (λ j. is_addressed for_editors (HashMap.get x.session.clients j))
            (readdressed answer c (next_i64 x.session.display_seq))
            (heard later answer (published x.sent))
            x
            (handle_upstream_message answer later x)
  editor_request-response id c request answer inputs w v room ids attached k s up quiet kind named
        live =
      let n = next_i64 w.session.backend_seq in
      let (_, _, _, _, _, _, waits, _, _, _) =
        editor_request-forwards ch id c request w attached k s up in
      let f = handle_client_message-Follows ch w v id request (omega arith) in
      let numbers = f.numbers in
      let given = f.ids in
      let y = world_of (handle_client_message id request ch w) in
      (editor_response-reaches later n c answer (run inputs y).1
        (run-IsWellFormed inputs y (omega arith) (omega arith) f.valid) kind named
        (run-waits inputs y n c (omega arith) (omega arith) f.valid quiet waits) live).0
