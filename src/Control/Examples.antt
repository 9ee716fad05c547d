-- ===== src/Control/Examples.antt =====
-- A control client on channels that can be followed, over the plain values of Json.Plain.
use dappy_core.Common.{
  List, ℕ, String, ◌≡◌, refl, true, false, Option, none, some, [], ◌∷◌, ◌++◌, arith, nat_eq,
  string_eq,
}
use dappy_core.Common.Text.{codes}
use dappy_core.Json.Plain.{Value, plain, null, object, end, field, text, get_value}
use dappy_core.Wire.Message.{Message, response_message, event_message}
use dappy_core.Control.Channel.{
  arrives, late, ok, AdapterCapabilities, ControlClient, unknown, from_duplex,
}
use dappy_core.Control.Waits.{
  response_matches_seq, event_named, wait_for_response_seq, wait_for_event,
}
use dappy_core.Control.Inbox.{inbox, extract, wait_for_response_seq-extract}
use dappy_core.Control.Events.{or_timeout, wait_for_event-extract, response_after_event, first}
use dappy_core.Control.Calls.{
  send_dap_request_and_wait_for_event, dap_request, dap_request_preserve_events,
}
use dappy_core.Control.Drain.{drain}
use dappy_core.Control.Session.{navigate}
use dappy_core.Control.Replay.{messages_of}
use dappy_core.Control.Requests.{breakpoints_arguments}
use dappy_core.Control.Breakpoints.{pending_of-breakpoints_arguments}
use dappy_core.Control.Numbers.{Ascends}
use dappy_core.Control.Numbers.Reach.{here, next, requests, navigates, drains, Reach-IsNumbered}
use dappy_core.Control.Port.{resolve_control_port, port}
use dappy_core.Instances.Manager.{SessionRecord}
use dappy_core.Mux.Tracker.{SourceBreakpointSpec}
use dappy_core.Mux.Breakpoint.{pending_of}
use dappy_core.Dap.Navigation.{step_over}
use dappy_core.Control.Config.{SessionInitConfig}
use dappy_core.Control.Init.{run_debug_request}
use dappy_core.Control.Init.Sends.{Progress, commands}
use dappy_core.Control.Init.Sends.Script.{sequence_commands, run_debug_request-Progress}
use dappy_core.Plugin.Launch.{
  LaunchManifest, InitStep, Host, init_steps, build_launch_arguments, template_context,
}
use dappy_core.Plugin.Launch.Merging.{get_value-build_launch_arguments}
use dappy_core.Plugin.Template.{resolve_value}
use dappy_core.Control.Loss.{dap_request-loses}

abbrev answer_to : ℕ → Message Value
answer_to n = response_message (record {
  seq = 9;
  request_seq = n;
  success = true;
  command = some (codes "initialize");
  message = none;
  body = some null;
})

abbrev stopped : Message Value
stopped = event_message (record { seq = 8; event = codes "stopped"; body = none })

abbrev output : Message Value
output = event_message (record { seq = 7; event = codes "output"; body = none })

-- An event waits in the buffer; an event, a silence and the response are still to come.
abbrev busy : ControlClient Value
busy = record {
  incoming = arrives stopped ∷ late ∷ arrives (answer_to 1) ∷ [];
  written = [];
  accepts = 3;
  seq = 1;
  pending = output ∷ [];
  capabilities = unknown;
}

-- The event and the response come with no silence before them.
abbrev quick : ControlClient Value
quick = record busy { incoming = arrives (answer_to 1) ∷ arrives output ∷ arrives stopped ∷ [] }

-- The body of an `initialize` response is taken for the least capable adapter.
abbrev least : Value → Option (AdapterCapabilities Value)
least v = some unknown

wait_for_response_seq-extract_example :
    let (r, c) = wait_for_response_seq 1 busy in
    let (found, rest) = extract false (response_matches_seq 1) (inbox busy) in
    (r ≡ found) × (inbox c ≡ rest)
wait_for_response_seq-extract_example = wait_for_response_seq-extract 1 busy

waited :
    wait_for_response_seq 1 busy
    ≡ (ok (answer_to 1), record busy { pending = output ∷ stopped ∷ []; incoming = [] })
unfolding wait_for_response_seq
waited = refl

wait_for_event-extract_example :
    let (r, c) = wait_for_event (codes "stopped") 30000 busy in
    let (found, rest) = extract true (event_named (codes "stopped")) (inbox busy) in
    (r ≡ or_timeout found) × (inbox c ≡ rest)
wait_for_event-extract_example =
    wait_for_event-extract (codes "stopped") 30000 busy (λ e. absurd (omega arith))

response_after_event_example :
    let (sent, c1) =
      send_dap_request_and_wait_for_event (codes "launch") none (codes "stopped") quick in
    (sent ≡ ok 1) × ((wait_for_response_seq 1 c1).0 ≡ ok (answer_to 1))
response_after_event_example =
    response_after_event (codes "launch") none (codes "stopped") quick 2
      (answer_to 1 ∷ output ∷ stopped ∷ []) (answer_to 1 ∷ output ∷ []) [] stopped (answer_to 1)
      refl refl refl refl

-- An event comes before the response, and one behind it.
abbrev crossed : ControlClient Value
crossed = record busy { incoming = arrives stopped ∷ arrives (answer_to 1) ∷ arrives output ∷ [] }

dap_request-loses_example :
    let d = (dap_request (codes "threads") none crossed).1 in
    let p = (dap_request_preserve_events (codes "threads") none crossed).1 in
    (before : List (Message Value)) × (behind : List (Message Value)) × (messages_of
        crossed.incoming
      ≡ before ++ answer_to 1 ∷ behind)
    × (first (response_matches_seq 1) before ≡ none)
    × (messages_of (inbox d) ≡ (output ∷ []) ++ behind)
    × (messages_of (inbox p) ≡ ((output ∷ []) ++ before) ++ behind)
unfolding dap_request
dap_request-loses_example = dap_request-loses (codes "threads") none crossed (answer_to 1) refl

abbrev conditional : SourceBreakpointSpec
conditional = record {
  line = 7;
  condition = some "x > 1";
  hit_condition = none;
  log_message = some "here";
}

abbrev request_value : Value
request_value = object (field "arguments" (breakpoints_arguments "main.py" (conditional ∷ [])) end)

pending_of-breakpoints_arguments_example :
    ((pending_of request_value).source_path ≡ "main.py")
    × ((pending_of request_value).specs ≡ conditional ∷ [])
pending_of-breakpoints_arguments_example =
    pending_of-breakpoints_arguments Value request_value "main.py" (conditional ∷ []) refl

abbrev run_client : ControlClient Value
run_client =
    let c0 = from_duplex (arrives output ∷ arrives (answer_to 1) ∷ late ∷ arrives stopped ∷ []) 2 in
    let c1 = (dap_request (codes "initialize") none c0).1 in
    (navigate step_over 1 (drain 200 c1).1).1

Reach-IsNumbered_example : Ascends 1 run_client.written run_client.seq
unfolding from_duplex dap_request drain
Reach-IsNumbered_example =
    let c0 : ControlClient Value =
      from_duplex (arrives output ∷ arrives (answer_to 1) ∷ late ∷ arrives stopped ∷ []) 2 in
    let c1 = (dap_request (codes "initialize") none c0).1 in
    let c2 = (drain 200 c1).1 in
    Reach-IsNumbered least (arrives output ∷ arrives (answer_to 1) ∷ late ∷ arrives stopped ∷ []) 2
      run_client
      (next (next (next here (requests (codes "initialize") none c0)) (drains 200 c1))
        (navigates step_over 1 c2))
      (((tt, omega arith), omega arith), omega arith)

abbrev session_record : Option String → ℕ → SessionRecord
session_record scope control_port = record {
  instance_id = "a";
  pid = 4;
  control_port = control_port;
  adapter_id = "python";
  program = none;
  scope = scope;
  parent_id = none;
  started_at_unix = 0;
}

web_session :
    resolve_control_port
      (some (session_record none 5000 ∷ session_record (some "web") 5001 ∷ []))
      none
      (some "web")
    ≡ port 5001
unfolding resolve_control_port
web_session = refl

abbrev python_step : Option String → Option String → Option String → InitStep
python_step request event response_name = record {
  request = request;
  use_launch_arguments = false;
  arguments = none;
  wait_for_event = event;
  wait_for_response = response_name;
  record_entry = none;
}

-- A manifest that launches, configures, and then waits for the response to the launch.
abbrev python_manifest : LaunchManifest
python_manifest = record {
  id = "python";
  initialize = none;
  launch = some (record {
    request = "launch";
    defaults = some (object (field "console" (text "internal") (field "cwd" (text "${cwd}") end)));
    fields = some (object (field "program" (text "${program.abs}") end));
  });
  init = some (
      python_step (some "launch") (some "initialized") none
      ∷ python_step (some "configurationDone") none none
      ∷ python_step none none (some "launch")
      ∷ []);
}

abbrev at_root : Host
at_root = record { env = λ name. none; resolve_program_paths = λ program. (some "/main.py", none) }

abbrev python_config : SessionInitConfig
python_config = record {
  program = "main.py";
  adapter_id = none;
  client_id = "dap-core";
  manifest = some python_manifest;
  launch_overrides = none;
}

abbrev starting : ControlClient Value
starting = record busy { incoming = arrives (answer_to 1) ∷ late ∷ []; pending = [] }

-- Here the start fails behind the launch, for want of the event.
run_debug_request-Progress_example :
    Progress
      (codes "initialize" ∷ sequence_commands (some python_manifest) "launch")
      (commands [])
      (run_debug_request at_root least python_config "launch" (object end) starting)
run_debug_request-Progress_example =
    run_debug_request-Progress at_root least python_config "launch" (object end) starting

python_commands :
    sequence_commands (some python_manifest) "launch"
    ≡ codes "launch" ∷ codes "configurationDone" ∷ []
unfolding init_steps
python_commands = refl

get_value-build_launch_arguments_example :
    get_value (build_launch_arguments at_root python_manifest "main.py") "program"
    ≡ some (text "/main.py")
unfolding resolve_value template_context
get_value-build_launch_arguments_example =
    get_value-build_launch_arguments at_root python_manifest
      (record {
        request = "launch";
        defaults =
            some (object (field "console" (text "internal") (field "cwd" (text "${cwd}") end)));
        fields = some (object (field "program" (text "${program.abs}") end));
      })
      "main.py" "program" (field "console" (text "internal") (field "cwd" (text "${cwd}") end))
      (field "program" (text "${program.abs}") end) (text "/main.py") refl refl refl
      (refl, (refl, tt)) (refl, tt) refl
