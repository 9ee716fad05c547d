-- ===== src/Instances/Handle.antt =====
-- crates/instance-manager/src/spec.rs and handle.rs. An id is its text. The new id and the time that a
-- specification starts with are arguments (a random number and the clock), and so are the probes of the
-- operating system that tell whether a process and a port are alive.
use dappy_core.Common.{
  ℕ, String, Bool, true, false, not, Option, none, some, [], if◌then◌else◌, nat_eq, string_eq,
}
use dappy_core.Common.HashMap.{HashMap}
use dappy_core.Instances.State.{InstanceState, stopped, failed}

abbrev pub InstanceId : Type 0
InstanceId = String

pub record InstanceSpec : Type 0 where
  pub id : InstanceId
  pub kind : String
  pub label : Option String
  pub scope : Option String
  pub control_port : Option ℕ
  pub parent_id : Option InstanceId
  pub pid : Option ℕ
  pub tags : HashMap String String
  pub created_at_unix : ℕ

pub record InstanceHandle : Type 0 where
  pub spec : InstanceSpec
  pub state : InstanceState

unfoldable pub new : InstanceId → ℕ → String → InstanceSpec
new fresh_id now kind = record {
  id = fresh_id;
  kind = kind;
  label = none;
  scope = none;
  control_port = none;
  parent_id = none;
  pid = none;
  tags = [];
  created_at_unix = now;
}

-- `is_pid_alive` and `is_control_port_in_use`.
pub record Probes : Type 0 where
  pub pid_alive : ℕ → Bool
  pub port_in_use : ℕ → Bool

abbrev pub has_ended : InstanceState → Bool
has_ended stopped = true
has_ended failed = true
has_ended _ = false

-- Passes where there is nothing to test.
abbrev holds_for : Option ℕ → (ℕ → Bool) → Bool
holds_for none test = true
holds_for (some n) test = test n

unfoldable pub is_alive : Probes → InstanceHandle → Bool
is_alive probes h =
    if has_ended h.state
    then false
    else if not (holds_for h.spec.pid probes.pid_alive)
    then false
    else if not (holds_for h.spec.control_port probes.port_in_use)
    then false
    else true
