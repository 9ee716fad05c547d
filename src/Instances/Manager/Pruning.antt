-- ===== src/Instances/Manager/Pruning.antt =====
-- What `prune_stale` of crates/instance-manager/src/manager.rs leaves.
use dappy_core.Common.{
  ◌≡◌, refl, ◌∙◌, inl, inr, Bool, false, not, ◌||◌, Option, none, some, List, [], ◌∷◌, arith,
  eq_iff, if◌then◌else◌, ◌==◌, nat_eq, string_eq, and_then, Option-cases,
}
use dappy_core.Common.HashMap.{HashMap, IsMap}
use dappy_core.Common.HashMap
use dappy_core.Instances.Handle.{InstanceId, InstanceHandle, Probes, is_alive}
use dappy_core.Instances.Manager.{
  InstanceManager, list, stale_ids, remove, remove_each, prune_stale,
}

-- Every handle stands under its own id.
abbrev pub AllNamed : InstanceManager → Type 0
AllNamed [] = Unit
AllNamed ((id, h) ∷ m) = (h.spec.id ≡ id) × AllNamed m

abbrev contains : List InstanceId → InstanceId → Bool
contains [] id = false
contains (i ∷ is) id = i == id || contains is id

get-remove_result :
    (m : InstanceManager) (i id : InstanceId)
    → HashMap.get (remove m i).1 id ≡ (if i == id then none else HashMap.get m id)
unfolding remove
get-remove_result m i id = elim (Option-cases (HashMap.get m i)) [
  | inl absent ↦ rw (absent, remove) (ground (arith, eq_iff i id))
  | inr (h, there) ↦ rw (there, remove) (HashMap.get-remove m i id)
]

get-remove_each :
    (ids : List InstanceId) (m : InstanceManager) (id : InstanceId)
    → HashMap.get (remove_each m ids).1 id ≡ (if contains ids id then none else HashMap.get m id)
unfolding remove_each
get-remove_each [] m id = refl
get-remove_each (i ∷ ids) m id =
    get-remove_each ids (remove m i).1 id ∙ ground (arith, get-remove_result m i id)

-- Whether an id's handle is there and not alive.
abbrev is_stale : Probes → Option InstanceHandle → Bool
is_stale probes none = false
is_stale probes (some h) = not (is_alive probes h)

contains-stale_ids :
    (probes : Probes) (m : InstanceManager) (id : InstanceId)
    → IsMap m
    → AllNamed m
    → contains (stale_ids probes (list m none)) id ≡ is_stale probes (HashMap.get m id)
unfolding stale_ids list HashMap.get
contains-stale_ids probes [] id u n = refl
contains-stale_ids probes ((i, h) ∷ m) id u n =
    ground
      (arith, contains-stale_ids probes m id u.1 n.1, u.0, n.0, eq_iff i id, eq_iff h.spec.id id)

remove_each-keeps {κ} :
    (P : InstanceManager → Type κ)
    → ((m : InstanceManager) (id : InstanceId) → P m → P (remove m id).1)
    → (ids : List InstanceId) (m : InstanceManager) → P m
    → P (remove_each m ids).1
unfolding remove_each
remove_each-keeps P step [] m here = here
remove_each-keeps P step (id ∷ ids) m here =
    remove_each-keeps P step ids (remove m id).1 (step m id here)

-- What every removal keeps, prune_stale keeps.
pub prune_stale-keeps {κ} :
    (P : InstanceManager → Type κ)
    → ((m : InstanceManager) (id : InstanceId) → P m → P (remove m id).1)
    → (probes : Probes) (m : InstanceManager) → P m
    → P (prune_stale probes m).1
unfolding prune_stale
prune_stale-keeps P step probes m here =
    remove_each-keeps P step (stale_ids probes (list m none)) m here

-- Where no id is there twice and every handle stands under its own id, `prune_stale` leaves exactly the
-- instances that are alive, each as it was.
pub get-prune_stale :
    (probes : Probes) (m : InstanceManager) (id : InstanceId)
    → IsMap m
    → AllNamed m
    → HashMap.get (prune_stale probes m).1 id
      ≡ and_then (HashMap.get m id) (λ h. if is_alive probes h then some h else none)
unfolding prune_stale
get-prune_stale probes m id u n =
    get-remove_each (stale_ids probes (list m none)) m id
    ∙ ground (arith, contains-stale_ids probes m id u n)
