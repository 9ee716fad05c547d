-- ===== src/Child/Examples.antt =====
-- A small stand-in for serde_json and a parent on which the theorems on child sessions are applied.
use dappy_core.Common.{
  ℕ, ◌≡◌, refl, ◌↔◌, true, Option, none, some, List, [], ◌∷◌, arith, if◌then◌else◌, nat_eq,
  string_eq,
}
use dappy_core.Common.Text.{Text, codes, same_text}
use dappy_core.Common.Text.Search.{split}
use dappy_core.Child.Value.{Value, null, number, text, object, Fields, end, field, Library}
use dappy_core.Child.Outcome.{Outcome, ok}
use dappy_core.Child.Profile.{stdio, ChildSessionConfig, debugpy_preset}
use dappy_core.Child.Resolve.{
  ParentSessionContext, StartDebuggingArgs, ChildSpawnPlan, tcp_plan, resolve_child_spawn,
}
use dappy_core.Child.Resolve.Plans.{IsPlanned, resolve_child_spawn_iff}
use dappy_core.Child.Resolve.Depth.{Nested, outermost, inside}
use dappy_core.Child.Handler.{Environment}
use dappy_core.Child.Reverse.{launched}
use dappy_core.Child.Bridge.{ChildSessionBridge, Host, bridge_turn, bridge_run}
use dappy_core.Child.Bridge.Replies.{Fate, bridge_turn_lem}
use dappy_core.Child.Bridge.Limit.{Climbs, bridge_run-Climbs}
use dappy_core.Wire.Message.{Message, request_message}

abbrev lookup : Fields ℕ → Text → Option (Value ℕ)
lookup end k = none
lookup (field j v fs) k = if same_text j k then some v else lookup fs k

abbrev field_of : Value ℕ → Text → Option (Value ℕ)
field_of (object fs) k = lookup fs k
field_of null k = none
field_of _ k = none

abbrev walk : Value ℕ → List Text → Option (Value ℕ)
walk v [] = some v
walk v (k ∷ ks) = elim (field_of v k) [ none ↦ none | some w ↦ walk w ks ]

abbrev behind_first : List Text → List Text
behind_first [] = []
behind_first (k ∷ ks) = ks

abbrev number_of : Value ℕ → Option ℕ
number_of (number n) = some n
number_of null = none
number_of _ = none

abbrev small_library : Library ℕ
unfolding split
small_library = record {
  get = field_of;
  pointer = λ v path. walk v (behind_first (split 47 path));
  as_u64 = number_of;
  to_string = λ v. [];
}

abbrev connect : Value ℕ
connect = object (
    field (codes "connect")
      (object (field (codes "host") (text (codes "::1")) (field (codes "port") (number 5678) end)))
      end)

abbrev args : StartDebuggingArgs ℕ
args = record { request = codes "attach"; configuration = connect }

abbrev value_of : StartDebuggingArgs ℕ → Outcome (Value ℕ)
value_of a = ok (
    object (
      field (codes "request") (text a.request) (field (codes "configuration") a.configuration end)))

abbrev context : Value ℕ
context =
    object
      (field (codes "request") (text (codes "attach")) (field (codes "configuration") connect end))

abbrev parent : ParentSessionContext
parent = record {
  backend = stdio;
  adapter_cmd = codes "debugpy" ∷ codes "--emit-start-debugging" ∷ [];
  tcp_endpoint = none;
}

abbrev config : ChildSessionConfig ℕ
config = record { auto_spawn = true; max_children = 2; max_depth = 1; profile = debugpy_preset }

abbrev plan : ChildSpawnPlan ℕ
plan = record {
  backend = tcp_plan (codes "::1") 5678;
  debug_request = codes "attach";
  debug_arguments = connect;
  child_depth = 0;
}

resolve_child_spawn_iff_example :
    (resolve_child_spawn small_library value_of config 1 0 parent args ≡ ok plan)
    ↔ IsPlanned small_library value_of config 1 0 parent args plan
resolve_child_spawn_iff_example =
    resolve_child_spawn_iff small_library value_of config 1 0 parent args plan

one_level : Nested small_library value_of 1 (plan ∷ [])
unfolding split resolve_child_spawn
one_level = inside 1 0 config parent args plan [] refl (outermost 0)

abbrev environment : Environment ℕ
environment = record {
  library = small_library;
  from_value = λ v. some args;
  to_value = value_of;
  spawn = λ p. ok (record { control_port = 42; instance_id = codes "child-1" });
}

abbrev child : ChildSessionBridge ℕ
child = record { config = config; remaining_depth = 1; parent = parent; environment = environment }

abbrev host : Host ℕ
host = record {
  library = small_library;
  launch = λ seq command. launched (codes "/tmp/1.log") 7;
  debug = λ s. s;
  augment = λ m. m;
}

abbrev start_debugging : Message (Value ℕ)
start_debugging =
    request_message (record { seq = 9; command = codes "startDebugging"; arguments = some context })

bridge_turn_lem_example :
    Fate host 0 start_debugging (bridge_turn host (some child) 0 start_debugging)
bridge_turn_lem_example = bridge_turn_lem host (some child) 0 start_debugging

bridge_run-Climbs_example :
    Climbs 2 0
      (bridge_run host (some child) 0 (start_debugging ∷ start_debugging ∷ start_debugging ∷ []))
bridge_run-Climbs_example =
    bridge_run-Climbs host child (omega arith) 0
      (start_debugging ∷ start_debugging ∷ start_debugging ∷ []) (omega arith)
