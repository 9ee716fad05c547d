-- ===== src/Control/Port.antt =====
-- crates/dap-core/src/control_client.rs (`resolve_control_port`): the session that a client means. The list of
-- the active sessions comes from the store's files, so it is an argument; of an error only its kind is kept.
use dappy_core.Common.{
  ℕ, String, ◌≡◌, Bool, true, false, Option, none, some, List, [], ◌∷◌, ◌++◌, if◌then◌else◌, nat_eq,
  string_eq, is_text, length,
}
use dappy_core.Instances.Manager.{SessionRecord}

pub data PortError : Type 0 where
  list_failed no_active_session : PortError
  ambiguous : ℕ → PortError

pub data PortResult : Type 0 where
  port : ℕ → PortResult
  refused : PortError → PortResult

abbrev pub in_scope : Option String → SessionRecord → Bool
in_scope none r = true
in_scope (some s) r = is_text r.scope s

abbrev pub filter_scope : Option String → List SessionRecord → List SessionRecord
filter_scope scope [] = []
filter_scope scope (r ∷ rs) =
    let rest = filter_scope scope rs in if in_scope scope r then r ∷ rest else rest

-- The `match` on the number of sessions.
unfoldable pub port_among : List SessionRecord → PortResult
port_among [] = refused no_active_session
port_among (r ∷ []) = port r.control_port
port_among (r ∷ s ∷ rest) = refused (ambiguous (length (r ∷ s ∷ rest)))

abbrev port_of_list : Option (List SessionRecord) → Option String → PortResult
port_of_list none scope = refused list_failed
port_of_list (some records) scope = port_among (filter_scope scope records)

unfoldable pub resolve_control_port :
    Option (List SessionRecord) → Option ℕ → Option String → PortResult
unfolding port_among
resolve_control_port list_active (some p) scope = port p
resolve_control_port list_active none scope = port_of_list list_active scope

abbrev pub NoneIn : Option String → List SessionRecord → Type 0
NoneIn scope [] = Unit {0}
NoneIn scope (r ∷ rs) = (in_scope scope r ≡ false) × NoneIn scope rs

-- One session of the scope, among any others.
pub record OnlyOne (scope : Option String) (records : List SessionRecord) (p : ℕ) : Type 0 where
  pub before : List SessionRecord
  pub session : SessionRecord
  pub behind : List SessionRecord
  pub split : records ≡ before ++ session ∷ behind
  pub none_before : NoneIn scope before
  pub none_behind : NoneIn scope behind
  pub within : in_scope scope session ≡ true
  pub has_port : session.control_port ≡ p
