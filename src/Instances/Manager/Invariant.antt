-- ===== src/Instances/Manager/Invariant.antt =====
-- The registry of crates/instance-manager/src/manager.rs keeps each handle under its own id, once.
use dappy_core.Common.{
  eq_of_some-eq, if_keeps, ◌≡◌, refl, sym, ap, ◌∙◌, inl, inr, not, some, List, [], ◌∷◌, Bool-cases,
  ◌==◌, nat_eq, string_eq, ==-eq, is_some, match_keeps_eq,
}
use dappy_core.Common.HashMap.{HashMap, IsMap}
use dappy_core.Common.HashMap
use dappy_core.Instances.State.{can_transition_to, Result}
use dappy_core.Instances.Handle.{InstanceId, InstanceHandle}
use dappy_core.Instances.Manager.{
  InstanceManager, spec_of_record, register, set_state, remove, set_control_port, set_pid,
  write_handle,
}
use dappy_core.Instances.Manager.Pruning.{AllNamed, prune_stale-keeps}
use dappy_core.Instances.Manager.Imports.{import_from_store-keeps}
use dappy_core.Instances.Manager.Lifecycle.{
  Call, prunes, imports, registers, sets_state, removes, sets_port, sets_pid, after_call,
  after_calls,
}

-- No id twice, and every handle under its own id.
pub record IsRegistry (m : InstanceManager) : Type 0 where
  pub once : IsMap m
  pub named : AllNamed m

remove-AllNamed :
    (m : InstanceManager) (id : InstanceId) → AllNamed m → AllNamed (HashMap.remove m id)
unfolding HashMap.remove
remove-AllNamed [] id n = n
remove-AllNamed ((j, h) ∷ m) id n =
    if_keeps AllNamed (j == id) _ _ (remove-AllNamed m id n.1) (n.0, remove-AllNamed m id n.1)

id_of_get :
    (m : InstanceManager) (id : InstanceId) (h : InstanceHandle)
    → AllNamed m
    → HashMap.get m id ≡ some h
    → h.spec.id ≡ id
unfolding HashMap.get
id_of_get [] id h n e = absurd (cc e)
id_of_get ((j, k) ∷ m) id h n e = elim (Bool-cases (j == id)) [
  | inl same ↦
      ap (λ x. x.spec.id) (sym (eq_of_some-eq k h (sym (rw same refl) ∙ e))) ∙ n.0 ∙ ==-eq j id same
  | inr apart ↦ id_of_get m id h n.1 (sym (rw apart refl) ∙ e)
]

insert-IsRegistry :
    (m : InstanceManager) (id : InstanceId) (h : InstanceHandle)
    → h.spec.id ≡ id
    → IsRegistry m
    → IsRegistry (HashMap.insert m id h)
unfolding HashMap.insert
insert-IsRegistry m id h e v = record {
  once = HashMap.insert-IsMap m id h v.once;
  named = (e, remove-AllNamed m id v.named);
}

remove-IsRegistry :
    (m : InstanceManager) (id : InstanceId) → IsRegistry m → IsRegistry (HashMap.remove m id)
remove-IsRegistry m id v = record {
  once = HashMap.remove-IsMap m id v.once;
  named = remove-AllNamed m id v.named;
}

remove_call-IsRegistry :
    (m : InstanceManager) (id : InstanceId) → IsRegistry m → IsRegistry (remove m id).1
unfolding remove
remove_call-IsRegistry m id v =
    match_keeps_eq (λ (x : Result InstanceHandle × InstanceManager). IsRegistry x.1)
      (HashMap.get m id) _ _ v (λ old there. remove-IsRegistry m id v)

module _ (m : InstanceManager) (v : IsRegistry m) where
  abbrev Left : {A : Type 0} → Result A × InstanceManager → Type 0
  Left r = IsRegistry r.1

  write-IsRegistry :
      (id : InstanceId) (old new : InstanceHandle)
      → HashMap.get m id ≡ some old
      → new.spec.id ≡ old.spec.id
      → IsRegistry (HashMap.insert m id new)
  write-IsRegistry id old new there e =
      insert-IsRegistry m id new (e ∙ id_of_get m id old v.named there) v

  after_call-IsRegistry : (call : Call) → IsRegistry (after_call call m)
  unfolding register set_state remove set_control_port set_pid write_handle
  after_call-IsRegistry (registers spec) =
      if_keeps Left (is_some (HashMap.get m spec.id)) _ _ v (insert-IsRegistry m spec.id _ refl v)
  after_call-IsRegistry (sets_state id next) =
      match_keeps_eq Left (HashMap.get m id) _ _ v λ old there.
        if_keeps Left (not (can_transition_to old.state next)) _ _ v
          (write-IsRegistry id old _ there refl)
  after_call-IsRegistry (removes id) = remove_call-IsRegistry m id v
  after_call-IsRegistry (sets_port id port) =
      match_keeps_eq Left (HashMap.get m id) _ _ v
        (λ old there. write-IsRegistry id old _ there refl)
  after_call-IsRegistry (prunes probes) =
      prune_stale-keeps IsRegistry remove_call-IsRegistry probes m v
  after_call-IsRegistry (imports now found) =
      import_from_store-keeps IsRegistry m now found v
        λ r absent. unfold spec_of_record in insert-IsRegistry m r.instance_id _ refl v
  after_call-IsRegistry (sets_pid id pid) =
      match_keeps_eq Left (HashMap.get m id) _ _ v
        (λ old there. write-IsRegistry id old _ there refl)

-- From a registry that holds every handle under its own id, and, being a list here, no id twice, any calls of
-- the methods that change it, prune_stale and import_from_store among them, lead to such a registry.
pub after_calls-IsRegistry :
    (calls : List Call) (m : InstanceManager) → IsRegistry m → IsRegistry (after_calls calls m)
after_calls-IsRegistry [] m v = v
after_calls-IsRegistry (call ∷ calls) m v =
    after_calls-IsRegistry calls (after_call call m) (after_call-IsRegistry m v call)
