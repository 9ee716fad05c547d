-- ===== src/Instances/Manager/Imports.antt =====
-- What `import_from_store` of crates/instance-manager/src/manager.rs does with a record that is new.
use dappy_core.Common.{
  true, inl, inr, Option-cases, [], ℕ, ◌≡◌, refl, ap, ◌∙◌, false, Option, none, some, List, ◌∷◌,
  nat_eq, string_eq, ==-refl, and_then,
}
use dappy_core.Common.HashMap
use dappy_core.Instances.State.{pending, invalid_transition, err, Result, InstanceState}
use dappy_core.Instances.Handle.{InstanceSpec, InstanceId, InstanceHandle}
use dappy_core.Instances.Manager.{
  set_running, registered_then, after_record, running, write_handle, InstanceManager, SessionRecord,
  spec_of_record, import_record, import_records, import_from_store, register, set_state,
}
use dappy_core.Instances.State

-- The state of an instance, if it is registered.
abbrev pub state_of : InstanceManager → InstanceId → Option InstanceState
state_of m id = and_then (HashMap.get m id) (λ h. some h.state)

id-spec_of_record : (now : ℕ) (r : SessionRecord) → (spec_of_record now r).id ≡ r.instance_id
unfolding spec_of_record
id-spec_of_record now r = refl

pub set_state-refused :
    (m : InstanceManager) (id : InstanceId) (h : InstanceHandle) (next : InstanceState)
    → HashMap.get m id ≡ some h
    → State.can_transition_to h.state next ≡ false
    → set_state m id next ≡ (err (invalid_transition (State.label h.state) (State.label next)), m)
unfolding set_state
set_state-refused m id h next here no_way = rw (here, set_state) (rw (no_way, set_state) refl)

pub set_state-allowed :
    (m : InstanceManager) (id : InstanceId) (h : InstanceHandle) (next : InstanceState)
    → HashMap.get m id ≡ some h
    → State.can_transition_to h.state next ≡ true
    → (set_state m id next).1 ≡ HashMap.insert m id (record h { state = next })
unfolding set_state write_handle
set_state-allowed m id h next here way = rw (here, set_state) (rw (way, set_state) refl)

register-fresh :
    (m : InstanceManager) (spec : InstanceSpec)
    → HashMap.get m spec.id ≡ none
    → register m spec
      ≡ (State.ok spec.id, HashMap.insert m spec.id (record { spec = spec; state = pending }))
unfolding register
register-fresh m spec fresh = rw (fresh, register) refl

-- The map with the record's instance in it.
abbrev pub with_record : InstanceManager → (InstanceId → ℕ) → SessionRecord → InstanceManager
with_record m now r =
    HashMap.insert m r.instance_id
      (record { spec = spec_of_record (now r.instance_id) r; state = pending })

get-with_record :
    (m : InstanceManager) (now : InstanceId → ℕ) (r : SessionRecord)
    → HashMap.get (with_record m now r) r.instance_id
      ≡ some (record { spec = spec_of_record (now r.instance_id) r; state = pending })
get-with_record m now r =
    HashMap.get-insert m r.instance_id r.instance_id _ ∙ rw (==-refl r.instance_id) refl

import_record-fresh :
    (m : InstanceManager) (now : InstanceId → ℕ) (r : SessionRecord)
    → HashMap.get m r.instance_id ≡ none
    → import_record now r m ≡ (err (invalid_transition "pending" "running"), with_record m now r)
unfolding import_record spec_of_record
import_record-fresh m now r fresh =
    ap (registered_then r.instance_id)
      (register-fresh m (spec_of_record (now r.instance_id) r) fresh)
    ∙ ap (set_running r.instance_id) (
        set_state-refused (with_record m now r) r.instance_id _ running (get-with_record m now r)
          refl)

import_records-fresh :
    (m : InstanceManager) (now : InstanceId → ℕ) (r : SessionRecord) (rest : List SessionRecord)
    → HashMap.get m r.instance_id ≡ none
    → import_records now (r ∷ rest) m
      ≡ (err (invalid_transition "pending" "running"), with_record m now r)
unfolding import_records
import_records-fresh m now r rest fresh =
    rw (fresh, import_records)
      (ap (λ o. after_record o (import_records now rest)) (import_record-fresh m now r fresh))

import_records-keeps {κ} :
    (P : InstanceManager → Type κ) (m : InstanceManager) (now : InstanceId → ℕ)
    (records : List SessionRecord)
    → P m
    → ((r : SessionRecord) → HashMap.get m r.instance_id ≡ none → P (with_record m now r))
    → P (import_records now records m).1
unfolding import_records
import_records-keeps P m now [] here fresh = here
import_records-keeps P m now (r ∷ rest) here fresh =
    elim (Option-cases (HashMap.get m r.instance_id)) [
      | inl absent ↦ rw (import_records-fresh m now r rest absent) (fresh r absent)
      | inr (h, there) ↦ rw there (import_records-keeps P m now rest here fresh)
    ]

-- An import leaves the registry as it was, or with the instance of one record that was not there.
pub import_from_store-keeps {κ} :
    (P : InstanceManager → Type κ) (m : InstanceManager) (now : InstanceId → ℕ)
    (found : Result (List SessionRecord))
    → P m
    → ((r : SessionRecord) → HashMap.get m r.instance_id ≡ none → P (with_record m now r))
    → P (import_from_store m now found).1
unfolding import_from_store
import_from_store-keeps P m now (State.ok records) here fresh =
    import_records-keeps P m now records here fresh
import_from_store-keeps P m now (err e) here fresh = here

-- Where the store can be read and its first active record has an id that is not registered, the import
-- fails with a forbidden transition, and the record's instance stays registered as pending.
pub import_from_store-fails :
    (m : InstanceManager) (now : InstanceId → ℕ) (r : SessionRecord) (rest : List SessionRecord)
    → HashMap.get m r.instance_id ≡ none
    → ((import_from_store m now (State.ok (r ∷ rest))).0
        ≡ err (invalid_transition "pending" "running"))
      × (state_of (import_from_store m now (State.ok (r ∷ rest))).1 r.instance_id ≡ some pending)
unfolding import_from_store
import_from_store-fails m now r rest fresh =
    rw (import_records-fresh m now r rest fresh)
      (refl, ap (λ o. and_then o (λ h. some h.state)) (get-with_record m now r))
