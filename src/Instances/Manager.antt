-- ===== src/Instances/Manager.antt =====
-- crates/instance-manager/src/manager.rs. The lock is held for the whole of a method, so a method is one
-- step on the map; it returns its result and the map. The calls inside `prune_stale` and
-- `import_from_store` are taken one after the other, with no other caller in between.
use dappy_core.Common.{
  ℕ, zero, suc, ◌+◌, ◌-◌, ◌*◌, ◌/◌, ◌%◌, ◌^◌, ◌≤◌, ◌<◌, String, ◌≡◌, refl, sym, ap, ◌∙◌, subst, ◌≢◌,
  ◌↔◌, ◌⊎◌, inl, inr, Bool, true, false, not, ◌&&◌, ◌||◌, Option, none, some, List, [], ◌∷◌, ◌++◌,
  map, arith, eq_iff, ltb, leb, if◌then◌else◌, Bool-cases, Eq, ◌==◌, nat_eq, string_eq, ==-refl,
  ==-eq, and_then, unwrap_or, or_else, is_some, Option-cases, is_text, is_true, is_false, length,
  get_elem?, set, remove_at, filter_map, find_map,
}
use dappy_core.Common.HashMap.{HashMap}
use dappy_core.Common.HashMap
use dappy_core.Instances.State.{
  InstanceState, pending, running, can_transition_to, label, InstanceError, not_found,
  already_exists, invalid_transition, Result, ok, err,
}
use dappy_core.Instances.Handle.{InstanceId, InstanceSpec, InstanceHandle, Probes, is_alive}
use dappy_core.Instances.Handle
pub mod Lifecycle
pub mod Pruning
pub mod Imports
pub mod Invariant

abbrev pub InstanceManager : Type 0
InstanceManager = HashMap InstanceId InstanceHandle

unfoldable pub register : InstanceManager → InstanceSpec → Result InstanceId × InstanceManager
register m spec =
    if is_some (HashMap.get m spec.id)
    then (err (already_exists spec.id), m)
    else (ok spec.id, HashMap.insert m spec.id (record { spec = spec; state = pending }))

abbrev pub in_scope : Option String → InstanceHandle → Bool
in_scope none h = true
in_scope (some s) h = is_text h.spec.scope s

unfoldable pub list : InstanceManager → Option String → List InstanceHandle
list [] scope = []
list ((id, h) ∷ m) scope = let rest = list m scope in if in_scope scope h then h ∷ rest else rest

unfoldable pub get : InstanceManager → InstanceId → Result InstanceHandle
get m id = elim (HashMap.get m id) [ none ↦ err (not_found id) | some h ↦ ok h ]

-- `get_mut(id)`, a change of the entry, and the changed handle.
unfoldable pub write_handle :
    InstanceManager → InstanceId → InstanceHandle → Result InstanceHandle × InstanceManager
write_handle m id h = (ok h, HashMap.insert m id h)

unfoldable pub set_state :
    InstanceManager → InstanceId → InstanceState → Result InstanceHandle × InstanceManager
unfolding write_handle
set_state m id next = elim (HashMap.get m id) [
  | none ↦ (err (not_found id), m)
  | some h ↦
      if not (can_transition_to h.state next)
      then (err (invalid_transition (label h.state) (label next)), m)
      else write_handle m id (record h { state = next })
]

unfoldable pub remove : InstanceManager → InstanceId → Result InstanceHandle × InstanceManager
remove m id = elim (HashMap.get m id) [
  | none ↦ (err (not_found id), m)
  | some h ↦ (ok h, HashMap.remove m id)
]

unfoldable pub count : InstanceManager → ℕ
count m = length m

unfoldable pub set_control_port :
    InstanceManager → InstanceId → ℕ → Result InstanceHandle × InstanceManager
unfolding write_handle
set_control_port m id port = elim (HashMap.get m id) [
  | none ↦ (err (not_found id), m)
  | some h ↦ write_handle m id (record h { spec = record h.spec { control_port = some port } })
]

unfoldable pub set_pid : InstanceManager → InstanceId → ℕ → Result InstanceHandle × InstanceManager
unfolding write_handle
set_pid m id pid = elim (HashMap.get m id) [
  | none ↦ (err (not_found id), m)
  | some h ↦ write_handle m id (record h { spec = record h.spec { pid = some pid } })
]

-- The ids of the handles that are not alive.
unfoldable pub stale_ids : Probes → List InstanceHandle → List InstanceId
stale_ids probes [] = []
stale_ids probes (h ∷ hs) =
    let rest = stale_ids probes hs in if not (is_alive probes h) then h.spec.id ∷ rest else rest

abbrev pub keep_removed : Result InstanceHandle → InstanceId → List InstanceId → List InstanceId
keep_removed (ok h) id removed = id ∷ removed
keep_removed (err e) id removed = removed

-- `for id in stale { if self.remove(&id).await.is_ok() { removed.push(id) } }`
unfoldable pub remove_each : InstanceManager → List InstanceId → List InstanceId × InstanceManager
remove_each m [] = ([], m)
remove_each m (id ∷ ids) =
    let (result, m') = remove m id in
    let (removed, m'') = remove_each m' ids in (keep_removed result id removed, m'')

unfoldable pub prune_stale : Probes → InstanceManager → List InstanceId × InstanceManager
unfolding remove_each
prune_stale probes m = remove_each m (stale_ids probes (list m none))

-- A record of the store.
pub record SessionRecord : Type 0 where
  pub instance_id : String
  pub pid : ℕ
  pub control_port : ℕ
  pub adapter_id : String
  pub program : Option String
  pub scope : Option String
  pub parent_id : Option String
  pub started_at_unix : ℕ

-- The specification that the import makes of a record.
unfoldable pub spec_of_record : ℕ → SessionRecord → InstanceSpec
spec_of_record now r = record (Handle.new r.instance_id now "dap-session") {
  id = r.instance_id;
  control_port = some r.control_port;
  pid = some r.pid;
  tags = HashMap.insert [] "adapter" r.adapter_id;
  label = r.program;
  scope = r.scope;
  parent_id = r.parent_id;
}

-- `self.set_state(&id, Running).await?`
abbrev pub set_running :
    InstanceId → Result InstanceHandle × InstanceManager → Result InstanceId × InstanceManager
set_running id (ok h, m) = (ok id, m)
set_running id (err e, m) = (err e, m)

-- `self.register(spec).await?`, and what follows it.
abbrev pub registered_then :
    InstanceId → Result InstanceId × InstanceManager → Result InstanceId × InstanceManager
registered_then id (ok _, m) = set_running id (set_state m id running)
registered_then id (err e, m) = (err e, m)

-- The clock is read once for each record, so its reading is an argument for each id.
unfoldable pub import_record :
    (InstanceId → ℕ) → SessionRecord → InstanceManager → Result InstanceId × InstanceManager
import_record now r m =
    registered_then r.instance_id (register m (spec_of_record (now r.instance_id) r))

-- `imported.push(id)`
abbrev pub then_imported :
    InstanceId
    → Result (List InstanceId) × InstanceManager
    → Result (List InstanceId) × InstanceManager
then_imported id (ok ids, m) = (ok (id ∷ ids), m)
then_imported id (err e, m) = (err e, m)

-- The loop goes on after a record that has not ended it.
abbrev pub after_record :
    Result InstanceId × InstanceManager
    → (InstanceManager → Result (List InstanceId) × InstanceManager)
    → Result (List InstanceId) × InstanceManager
after_record (ok id, m) k = then_imported id (k m)
after_record (err e, m) k = (err e, m)

-- The loop over `store.list_active()`: a record whose id is known is skipped, the first error ends it.
unfoldable pub import_records :
    (InstanceId → ℕ)
    → List SessionRecord
    → InstanceManager
    → Result (List InstanceId) × InstanceManager
unfolding import_record
import_records now [] m = (ok [], m)
import_records now (r ∷ rest) m =
    let skipped = import_records now rest m in
    if is_some (HashMap.get m r.instance_id)
    then skipped
    else after_record (import_record now r m) (import_records now rest)

-- The active records, or the error of the store, are an argument.
unfoldable pub import_from_store :
    InstanceManager
    → (InstanceId → ℕ)
    → Result (List SessionRecord)
    → Result (List InstanceId) × InstanceManager
unfolding import_records
import_from_store m now (err e) = (err e, m)
import_from_store m now (ok records) = import_records now records m

-- What is saved of an instance that has a port, a process and an adapter.
unfoldable pub session_record_from_handle : InstanceHandle → Option SessionRecord
session_record_from_handle h = and_then h.spec.control_port λ port. and_then h.spec.pid λ pid.
    and_then (HashMap.get h.spec.tags "adapter") λ adapter. some (record {
      instance_id = h.spec.id;
      pid = pid;
      control_port = port;
      adapter_id = adapter;
      program = h.spec.label;
      scope = h.spec.scope;
      parent_id = h.spec.parent_id;
      started_at_unix = h.spec.created_at_unix;
    })
