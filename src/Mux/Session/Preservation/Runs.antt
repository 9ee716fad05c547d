-- ===== src/Mux/Session/Preservation/Runs.antt =====
-- `handle_op` and `run` of crates/protocol-mux/src/session.rs keep the tables in step.
use dappy_core.Mux.Cache.{replay}
use dappy_core.Common.{
  ◌≢◌, Option, ℕ, ◌+◌, ◌^◌, ◌<◌, ◌≡◌, refl, ◌∙◌, none, some, List, [], ◌∷◌, arith, nat_eq,
  string_eq, length,
}
use dappy_core.Json.{Json}
use dappy_core.Mux.Client.{ClientId}
use dappy_core.Mux.Session.{
  world_of, deliver_to_client, SessionLoop, World, Channels, Outcome, ok, err,
}
use dappy_core.Mux.Session.Loop.{
  verdict, after_turn, handle_op, handle_attach, deliver_cached, SessionOp, attach, client_send,
  detach, Input, from_upstream, from_ops, turn, run, Ending, running, finished, broken,
}
use dappy_core.Mux.Session.Silence.{deliver_to_client-IsSilent}
use dappy_core.Mux.Session.Invariant.{IsWellFormed, attached-IsWellFormed, detached-IsWellFormed}
use dappy_core.Mux.Session.Preservation.{
  lookup_client, request_seq, handle_upstream_message, Follows, Ends, same-Follows, next_lt,
}
use dappy_core.Mux.Session.Preservation.Clients.{handle_client_message-Follows}
use dappy_core.Mux.Session.Preservation.Upstream.{handle_upstream_message-Follows}

module _ {V : Type 0} ⦃J : Json V⦄ where
  pub deliver_cached-same :
      (id : ClientId) (cached : List V) (ch : Channels) (w : World V)
      → (deliver_cached id cached ch w).session ≡ w.session
  unfolding deliver_cached
  deliver_cached-same id [] ch w = refl
  deliver_cached-same id (m ∷ rest) ch w =
      deliver_cached-same id rest ch (world_of (deliver_to_client id m ch w))
      ∙ (deliver_to_client-IsSilent id m).same ch w

  handle_op-Follows :
      (op : SessionOp V) (ch : Channels) (w : World V)
      → IsWellFormed w.session
      → w.session.backend_seq + 1 < 2 ^ 64
      → w.session.next_client_id + 1 < 2 ^ 64
      → Ends none w.session (handle_op op ch w)
  unfolding handle_op
  handle_op-Follows (attach role) ch w v b c =
      let (h, k) = next_lt w.session.next_client_id c in
      unfold handle_attach in
      rw (deliver_cached-same _ (replay w.session.cache) ch _) (record {
        valid = attached-IsWellFormed w.session v _ role h;
        numbers = omega arith;
        ids = k;
        editor_waits = λ b d ne g. g;
      })
  handle_op-Follows (client_send id message) ch w v b c =
      handle_client_message-Follows ch w v id message b
  handle_op-Follows (detach id) ch w v b c = record {
    valid = detached-IsWellFormed w.session v id;
    numbers = omega arith;
    ids = omega arith;
    editor_waits = λ b d ne g. g;
  }

  verdict-Follows :
      {a : Option ℕ} (s : SessionLoop V) (r : Outcome V (Unit {0}))
      → Ends a s r
      → Follows a s (verdict r).1.session
  verdict-Follows s (ok u w) f = f
  verdict-Follows s (err e w) f = f

  -- The number of the request that an input answers.
  abbrev pub answered_by : Input V → Option ℕ
  answered_by (from_upstream none) = none
  answered_by (from_upstream (some message)) = request_seq message
  answered_by (from_ops o) = none

  turn-Follows :
      (input : Input V) (ch : Channels) (w : World V)
      → IsWellFormed w.session
      → w.session.backend_seq + 1 < 2 ^ 64
      → w.session.next_client_id + 1 < 2 ^ 64
      → Follows (answered_by input) w.session (turn input ch w).1.session
  unfolding turn
  turn-Follows (from_upstream none) ch w v b c = same-Follows w.session v
  turn-Follows (from_upstream (some message)) ch w v b c =
      verdict-Follows w.session (handle_upstream_message message ch w) (
        handle_upstream_message-Follows (request_seq message) w.session ch message w refl
          (same-Follows w.session v))
  turn-Follows (from_ops none) ch w v b c = same-Follows w.session v
  turn-Follows (from_ops (some op)) ch w v b c =
      verdict-Follows w.session (handle_op op ch w) (handle_op-Follows op ch w v b c)

  after_turn-IsWellFormed :
      (t : Ending × World V) (k : World V → Ending × World V)
      → IsWellFormed t.1.session
      → IsWellFormed (k t.1).1.session
      → IsWellFormed (after_turn t k).1.session
  after_turn-IsWellFormed (running, w) k v f = f
  after_turn-IsWellFormed (finished, w) k v f = v
  after_turn-IsWellFormed (broken e, w) k v f = v

  -- From a well-formed session, whatever comes in and however the channels stand, the tables stay well
  -- formed, as long as the counters have room for the inputs.
  pub run-IsWellFormed :
      (inputs : List (Channels × Input V)) (w : World V)
      → w.session.backend_seq + length inputs < 2 ^ 64
      → w.session.next_client_id + length inputs < 2 ^ 64
      → IsWellFormed w.session
      → IsWellFormed (run inputs w).1.session
  unfolding run
  run-IsWellFormed [] w b c v = v
  run-IsWellFormed ((ch, input) ∷ rest) w b c v =
      let f = turn-Follows input ch w v (omega arith) (omega arith) in
      let numbers = f.numbers in
      let ids = f.ids in
      after_turn-IsWellFormed (turn input ch w) (run rest) f.valid
        (run-IsWellFormed rest (turn input ch w).1 (omega arith) (omega arith) f.valid)

  -- No input answers the request with the number.
  abbrev pub Unanswered : ℕ → List (Channels × Input V) → Type 0
  Unanswered b [] = Unit
  Unanswered b ((ch, input) ∷ rest) = (answered_by input ≢ some b) × Unanswered b rest

  after_turn-waits :
      (b c : ℕ) (t : Ending × World V) (k : World V → Ending × World V)
      → lookup_client t.1.session.remapper b ≡ some c
      → lookup_client (k t.1).1.session.remapper b ≡ some c
      → lookup_client (after_turn t k).1.session.remapper b ≡ some c
  after_turn-waits b c (running, w) k v f = f
  after_turn-waits b c (finished, w) k v f = v
  after_turn-waits b c (broken e, w) k v f = v

  -- From a well-formed session, an editor's request that is in flight stays so, under its number and for
  -- the editor's own number, through every run in which no message answers that number, as long as the
  -- counters have room for the inputs.
  pub run-waits :
      (inputs : List (Channels × Input V)) (w : World V) (b c : ℕ)
      → w.session.backend_seq + length inputs < 2 ^ 64
      → w.session.next_client_id + length inputs < 2 ^ 64
      → IsWellFormed w.session
      → Unanswered b inputs
      → lookup_client w.session.remapper b ≡ some c
      → lookup_client (run inputs w).1.session.remapper b ≡ some c
  unfolding run
  run-waits [] w b c m n v u h = h
  run-waits ((ch, input) ∷ rest) w b c m n v u h =
      let f = turn-Follows input ch w v (omega arith) (omega arith) in
      let numbers = f.numbers in
      let ids = f.ids in
      let kept = f.editor_waits b c u.0 h in
      after_turn-waits b c (turn input ch w) (run rest) kept
        (run-waits rest (turn input ch w).1 b c (omega arith) (omega arith) f.valid u.1 kept)
