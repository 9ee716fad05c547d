-- ===== src/Mux/Session/Loop.antt =====
-- `handle_op` and `run` of crates/protocol-mux/src/session.rs. The inputs of a run are in the order in
-- which `select!` takes them, each with the state of the channels at that moment.
use dappy_core.Common.{◌+◌, ◌%◌, ◌^◌, Option, none, some, List, [], ◌∷◌, nat_eq, string_eq}
use dappy_core.Common.HashMap
use dappy_core.Json.{Json}
use dappy_core.Mux.Client.{ClientRole, MuxError, ClientId}
use dappy_core.Mux.Cache.{replay}
use dappy_core.Mux.Session.{
  Outcome, world_of, endpoint, emit, err, ok, deliver_to_client, modify, Channels, Action, World,
}
use dappy_core.Mux.Session.Client.{handle_client_message}
use dappy_core.Mux.Session.Upstream.{handle_upstream_message}

pub data SessionOp (V : Type 0) : Type 0 where
  attach : ClientRole → SessionOp V
  client_send : ClientId → V → SessionOp V
  detach : ClientId → SessionOp V

-- A message of either channel; `none` when the channel is closed.
pub data Input (V : Type 0) : Type 0 where
  from_upstream : Option V → Input V
  from_ops : Option (SessionOp V) → Input V

-- How a run stands: it goes on, it has ended in order, or an error has ended it.
pub data Ending : Type 0 where
  running : Ending
  finished : Ending
  broken : MuxError → Ending

-- `self.handle_…(…)?` in the loop.
abbrev pub verdict : {V : Type 0} → Outcome V (Unit {0}) → Ending × World V
verdict (ok u w) = (running, w)
verdict (err e w) = (broken e, w)

-- The loop goes on after a turn that has not ended it.
abbrev pub after_turn :
    {V : Type 0} → Ending × World V → (World V → Ending × World V) → Ending × World V
after_turn (running, w) k = k w
after_turn (finished, w) k = (finished, w)
after_turn (broken e, w) k = (broken e, w)

module _ {V : Type 0} ⦃J : Json V⦄ where
  -- `let _ = self.deliver_to_client(id, cached)` for each cached message: a failure is ignored.
  unfoldable pub deliver_cached : ClientId → List V → Channels → World V → World V
  deliver_cached id [] ch w = w
  deliver_cached id (cached ∷ rest) ch w =
      deliver_cached id rest ch (world_of (deliver_to_client id cached ch w))

  -- The client is entered before the cached messages go out, so that they find it.
  unfoldable pub handle_attach : ClientRole → Action V (Unit {0})
  unfolding deliver_cached
  handle_attach role ch w =
      let id = (w.session.next_client_id + 1) % 2 ^ 64 in
      let entered = record w {
        session = record w.session {
          next_client_id = id;
          clients = HashMap.insert w.session.clients id role;
        };
      } in
      emit (endpoint id role) ch (deliver_cached id (replay w.session.cache) ch entered)

  unfoldable pub handle_op : SessionOp V → Action V (Unit {0})
  unfolding handle_attach
  handle_op (attach role) = handle_attach role
  handle_op (client_send id message) = handle_client_message id message
  handle_op (detach id) = modify (λ s. record s { clients = HashMap.remove s.clients id })

  -- One turn of the loop.
  unfoldable pub turn : Input V → Channels → World V → Ending × World V
  turn (from_upstream none) ch w = (finished, w)
  turn (from_upstream (some message)) ch w = verdict (handle_upstream_message message ch w)
  turn (from_ops none) ch w = (finished, w)
  turn (from_ops (some op)) ch w = verdict (handle_op op ch w)

  unfoldable pub run : List (Channels × Input V) → World V → Ending × World V
  run [] w = (running, w)
  run ((ch, input) ∷ rest) w = after_turn (turn input ch w) (run rest)
