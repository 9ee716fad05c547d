-- ===== src/Mux/Examples/Traffic.antt =====
-- A session of crates/protocol-mux with an editor, a control client and requests in flight, on which the
-- theorems on routing are applied.
use dappy_core.Mux.Session.Preservation.Runs.{run-waits}
use dappy_core.Mux.Session.Forwarding.{editor_request-forwards, secondary_request-forwards}
use dappy_core.Mux.Session.RoundTrip.{editor_request-response}
use dappy_core.Mux.Session.Events.{event-reaches}
use dappy_core.Mux.Cache.{observe}
use dappy_core.Mux.Remapper.{lookup_backend, lookup_client}
use dappy_core.Mux.Session.Delivery.{
  heard, published, forwarded, received, is_addressed, ReachesExactly, succeeds,
}
use dappy_core.Mux.Session.Upstream.{handle_upstream_message}
use dappy_core.Mux.Session.Client.{handle_client_message}
use dappy_core.Mux.Session.Invariant.{
  secondary_request-IsWellFormed, editor_request-IsWellFormed, attached-IsWellFormed,
  start-IsWellFormed, IsWellFormed,
}
use dappy_core.Mux.Session.Loop.{broken, turn, from_upstream, from_ops, attach, Input, run}
use dappy_core.Mux.Message.{set_seq, set_request_seq, request_seq, message_kind, seq, command}
use dappy_core.Mux.Remapper
use dappy_core.Common.{
  ℕ, String, ◌≡◌, refl, true, none, some, List, [], ◌∷◌, arith, if◌then◌else◌, ◌==◌, nat_eq,
  string_eq, unwrap_or,
}
use dappy_core.Mux.Client.{client_not_found, is_editor_or_control, ClientId, editor, control}
use dappy_core.Common.HashMap
use dappy_core.Json.Plain.{Value, plain, object, field, text, number, end}
use dappy_core.Mux.Examples.{upstream_id, cancel_id, all_open, set_breakpoints_request, cancel_41}
use dappy_core.Mux.Session.{start, World, SessionLoop, Channels, world_of, next_i64}
use dappy_core.Mux.Multiplexer.{
  attach_client, detach_client, client_count, attach_client-detach_client, Multiplexer,
}
use dappy_core.Mux.Multiplexer
use dappy_core.Mux.Session.Routing.{
  detached_response-breaks, editor_response-reaches, readdressed, secondary_response-reaches,
  for_editors,
}

abbrev begin : SessionLoop Value
begin = start

abbrev with_editor : SessionLoop Value
with_editor = record begin { next_client_id = 1; clients = HashMap.insert begin.clients 1 editor }

abbrev with_control : SessionLoop Value
with_control = record with_editor {
  next_client_id = 2;
  clients = HashMap.insert with_editor.clients 2 control;
}

-- The editor's request 41 is in flight as 1, the control client's request 9 as 2.
abbrev one_in_flight : SessionLoop Value
one_in_flight = record with_control {
  backend_seq = 1;
  remapper = Remapper.map with_control.remapper 41 1;
  cache = with_control.cache;
}

abbrev busy : SessionLoop Value
busy = record one_in_flight {
  backend_seq = 2;
  secondary_pending = HashMap.insert one_in_flight.secondary_pending 2 (2, 9);
  cache = one_in_flight.cache;
}

abbrev busy_world : World Value
busy_world = record { session = busy; sent = [] }

with_control-IsWellFormed : IsWellFormed with_control
unfolding start
with_control-IsWellFormed =
    attached-IsWellFormed with_editor
      (attached-IsWellFormed begin (start-IsWellFormed Value) 1 editor (omega arith)) 2 control
      (omega arith)

busy-IsWellFormed : IsWellFormed busy
unfolding start
busy-IsWellFormed =
    let v =
      editor_request-IsWellFormed with_control with_control-IsWellFormed 41 1 with_control.cache
        (omega arith) (with_control-IsWellFormed.tracked) in
    secondary_request-IsWellFormed one_in_flight v (2, 9) 2 one_in_flight.cache (omega arith)
      v.tracked

abbrev answer_to : ℕ → Value
answer_to n = object (
    field "type" (text "response")
      (field "request_seq" (number n) (field "command" (text "threads") end)))

abbrev stopped : Value
stopped = object (field "type" (text "event") (field "event" (text "stopped") end))

editor_response-reaches_example :
    let o = handle_upstream_message (answer_to 1) all_open busy_world in
    ReachesExactly
      (λ id. is_addressed for_editors (HashMap.get busy.clients id))
      (readdressed (answer_to 1) 41 (next_i64 busy.display_seq))
      (heard all_open (answer_to 1) (published busy_world.sent))
      busy_world
      o
    × (lookup_client (world_of o).session.remapper 1 ≡ none)
unfolding start message_kind request_seq lookup_client Remapper.map HashMap.get HashMap.insert
editor_response-reaches_example =
    editor_response-reaches all_open 1 41 (answer_to 1) busy_world busy-IsWellFormed refl refl refl
      (λ id h. refl)

secondary_response-reaches_example :
    let o = handle_upstream_message (answer_to 2) all_open busy_world in
    ReachesExactly
      (λ id. 2 == id)
      (set_request_seq (answer_to 2) 9)
      (heard all_open (answer_to 2) (published busy_world.sent))
      busy_world
      o
    × (HashMap.get (world_of o).session.secondary_pending 2 ≡ none)
unfolding start message_kind request_seq lookup_client Remapper.new Remapper.map HashMap.get
    HashMap.insert HashMap.remove
secondary_response-reaches_example =
    secondary_response-reaches all_open 2 9 2 control (answer_to 2) busy_world refl refl refl refl
      refl refl

-- The control client has left.
abbrev left_world : World Value
left_world = record { session = record busy { clients = HashMap.remove busy.clients 2 }; sent = [] }

detached_response-breaks_example :
    let t = turn (from_upstream (some (answer_to 2))) all_open left_world in
    (t.0 ≡ broken client_not_found)
    × ((id : ClientId) → received id t.1.sent ≡ received id left_world.sent)
    × (published t.1.sent ≡ heard all_open (answer_to 2) (published left_world.sent))
unfolding start message_kind request_seq lookup_client Remapper.new Remapper.map HashMap.get
    HashMap.insert HashMap.remove
detached_response-breaks_example =
    detached_response-breaks all_open 2 9 2 (answer_to 2) left_world refl refl refl refl refl

event-reaches_example :
    let o = handle_upstream_message stopped all_open busy_world in
    ReachesExactly
      (λ id. is_addressed is_editor_or_control (HashMap.get busy.clients id))
      (set_seq stopped (next_i64 busy.display_seq))
      (heard all_open
        (set_seq stopped (next_i64 busy.display_seq))
        (heard all_open stopped (published busy_world.sent)))
      busy_world
      o
    × ((world_of o).session ≡ record busy {
      cache = observe busy.cache stopped;
      display_seq = next_i64 busy.display_seq;
    })
unfolding message_kind
event-reaches_example =
    event-reaches all_open stopped busy_world busy-IsWellFormed refl (λ id h. refl)

editor_request-forwards_example :
    let o = handle_client_message 1 cancel_41 all_open busy_world in
    (m : Value) × (succeeds o ≡ true)
    × (forwarded (world_of o).sent ≡ m ∷ forwarded busy_world.sent)
    × (seq m ≡ some (next_i64 busy.backend_seq))
    × (command m ≡ command cancel_41)
    × (cancel_id m ≡ upstream_id busy.remapper (cancel_id cancel_41))
    × (lookup_client (world_of o).session.remapper (next_i64 busy.backend_seq) ≡ some 42)
    × (lookup_backend (world_of o).session.remapper 42 ≡ some (next_i64 busy.backend_seq))
    × ((j : ClientId) → received j (world_of o).sent ≡ received j busy_world.sent)
    × (published (world_of o).sent ≡ published busy_world.sent)
unfolding start message_kind seq HashMap.get HashMap.insert HashMap.remove
editor_request-forwards_example =
    editor_request-forwards all_open 1 42 cancel_41 busy_world refl refl refl refl

secondary_request-forwards_example :
    let n = next_i64 busy.backend_seq in
    let o = handle_client_message 2 cancel_41 all_open busy_world in
    (m : Value) × (succeeds o ≡ true)
    × (forwarded (world_of o).sent ≡ m ∷ forwarded busy_world.sent)
    × ((key : String)
        → plain.get m key
          ≡ (if "seq" == key then some (plain.number n) else plain.get cancel_41 key))
    × (HashMap.get (world_of o).session.secondary_pending n ≡ some (2, unwrap_or (seq cancel_41) n))
    × ((j : ClientId) → received j (world_of o).sent ≡ received j busy_world.sent)
    × (published (world_of o).sent ≡ published busy_world.sent)
unfolding start message_kind command HashMap.get HashMap.insert HashMap.remove
secondary_request-forwards_example =
    secondary_request-forwards all_open 2 control cancel_41 busy_world refl refl refl refl refl

abbrev snapshot_request : Value
snapshot_request = object (
    field "type" (text "request")
      (field "seq" (number 3) (field "command" (text "_dapBreakpointSnapshot") end)))

-- While the editor's request is on its way, another client attaches and the program stops.
abbrev meanwhile : List (Channels × Input Value)
meanwhile =
    (all_open, from_ops (some (attach control))) ∷ (all_open, from_upstream (some stopped)) ∷ []

abbrev later_world : World Value
later_world =
    (run meanwhile
      (world_of (handle_client_message 1 set_breakpoints_request all_open busy_world))).1

editor_request-response_example :
    ReachesExactly
      (λ j. is_addressed for_editors (HashMap.get later_world.session.clients j))
      (readdressed (answer_to 3) 41 (next_i64 later_world.session.display_seq))
      (heard all_open (answer_to 3) (published later_world.sent))
      later_world
      (handle_upstream_message (answer_to 3) all_open later_world)
unfolding start message_kind request_seq seq HashMap.get HashMap.insert HashMap.remove
editor_request-response_example =
    editor_request-response all_open all_open 1 41 set_breakpoints_request (answer_to 3) meanwhile
      busy_world busy-IsWellFormed (omega arith) (omega arith) refl refl refl refl
      ((λ e. cc), ((λ e. cc), tt)) refl refl (λ j h. refl)

run-waits_example : lookup_client (run meanwhile busy_world).1.session.remapper 1 ≡ some 41
unfolding start message_kind request_seq lookup_client Remapper.map HashMap.get HashMap.insert
run-waits_example =
    run-waits meanwhile busy_world 1 41 (omega arith) (omega arith) busy-IsWellFormed
      ((λ e. cc), ((λ e. cc), tt)) refl

abbrev one_client : Multiplexer
one_client = (attach_client Multiplexer.new editor).1
