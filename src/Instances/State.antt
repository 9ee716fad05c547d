-- ===== src/Instances/State.antt =====
-- crates/instance-manager/src/state.rs and error.rs.
use dappy_core.Common.{String, Bool, true, false, nat_eq, string_eq}

pub data InstanceState : Type 0 where
  pending starting running stopping stopped failed : InstanceState

abbrev pub can_transition_to : InstanceState → InstanceState → Bool
can_transition_to pending starting = true
can_transition_to starting running = true
can_transition_to starting failed = true
can_transition_to running stopping = true
can_transition_to running failed = true
can_transition_to stopping stopped = true
can_transition_to stopping failed = true
can_transition_to stopped starting = true
can_transition_to failed starting = true
can_transition_to _ _ = false

abbrev pub label : InstanceState → String
label pending = "pending"
label starting = "starting"
label running = "running"
label stopping = "stopping"
label stopped = "stopped"
label failed = "failed"

pub data InstanceError : Type 0 where
  not_found already_exists : String → InstanceError
  invalid_transition : String → String → InstanceError
  other_error : String → InstanceError

-- `Result<A, InstanceError>`
pub data Result (A : Type 0) : Type 0 where
  ok : A → Result A
  err : InstanceError → Result A
