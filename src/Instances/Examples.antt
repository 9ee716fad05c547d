-- ===== src/Instances/Examples.antt =====
-- A registry of crates/instance-manager on which its theorems are applied.
use dappy_core.Common.{
  String, ◌≡◌, refl, true, none, some, List, [], ◌∷◌, if◌then◌else◌, nat_eq, string_eq, and_then,
}
use dappy_core.Common.HashMap
use dappy_core.Instances.State.{
  ok, invalid_transition, err, pending, starting, running, stopped, failed,
}
use dappy_core.Instances.State
use dappy_core.Instances.Handle.{InstanceHandle, InstanceSpec, Probes, is_alive}
use dappy_core.Instances.Handle
use dappy_core.Instances.Manager.{InstanceManager, SessionRecord, import_from_store, prune_stale}
use dappy_core.Instances.Manager.Imports.{import_from_store-fails, state_of}
use dappy_core.Instances.Manager.Pruning.{get-prune_stale}
use dappy_core.Instances.Manager.Lifecycle.{
  imports, Call, registers, sets_state, sets_port, after_calls, Lives, after_calls-Lives,
}
use dappy_core.Instances.Manager.Invariant.{IsRegistry, after_calls-IsRegistry}

abbrev handle_of : String → State.InstanceState → InstanceHandle
handle_of id state = record { spec = Handle.new id 100 "debug"; state = state }

abbrev two_instances : InstanceManager
two_instances = ("a", handle_of "a" running) ∷ ("b", handle_of "b" failed) ∷ []

two_instances-IsRegistry : IsRegistry two_instances
unfolding HashMap.get Handle.new
two_instances-IsRegistry = record { once = (refl, (refl, tt)); named = (refl, (refl, tt)) }

abbrev all_alive : Probes
all_alive = record { pid_alive = λ n. true; port_in_use = λ n. true }

abbrev calls : List Call
calls =
    sets_state "b" starting
    ∷ sets_state "a" starting
    ∷ registers (Handle.new "c" 101 "debug")
    ∷ sets_port "b" 4711
    ∷ imports (λ i. 200) (ok [])
    ∷ []

after_calls-IsRegistry_example : IsRegistry (after_calls calls two_instances)
after_calls-IsRegistry_example = after_calls-IsRegistry calls two_instances two_instances-IsRegistry

after_calls-Lives_example : Lives (after_calls calls two_instances) "b" starting
unfolding HashMap.get
after_calls-Lives_example =
    after_calls-Lives calls two_instances "b" (handle_of "b" failed) refl refl

get-prune_stale_example :
    HashMap.get (prune_stale all_alive two_instances).1 "b"
    ≡ and_then (HashMap.get two_instances "b") (λ h. if is_alive all_alive h then some h else none)
get-prune_stale_example =
    get-prune_stale all_alive two_instances "b" two_instances-IsRegistry.once
      two_instances-IsRegistry.named

abbrev one_record : SessionRecord
one_record = record {
  instance_id = "s1";
  pid = 7;
  control_port = 4711;
  adapter_id = "fake";
  program = some "main.py";
  scope = none;
  parent_id = none;
  started_at_unix = 100;
}

import_from_store-fails_example :
    ((import_from_store two_instances (λ id. 5) (State.ok (one_record ∷ []))).0
      ≡ err (invalid_transition "pending" "running"))
    × (state_of (import_from_store two_instances (λ id. 5) (State.ok (one_record ∷ []))).1 "s1"
        ≡ some pending)
unfolding HashMap.get
import_from_store-fails_example = import_from_store-fails two_instances (λ id. 5) one_record [] refl
