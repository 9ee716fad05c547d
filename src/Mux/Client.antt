-- ===== src/Mux/Client.antt =====
-- crates/protocol-mux/src/client.rs and error.rs. A client id is a u64, as in the default `Id`.
use dappy_core.Common.{ℕ, String, Bool, true, false}

pub data ClientRole : Type 0 where
  editor control agent other : ClientRole

pub data MuxError : Type 0 where
  client_not_found upstream_not_connected : MuxError
  other_error : String → MuxError

abbrev pub ClientId : Type 0
ClientId = ℕ

-- `role == ClientRole::Editor`
abbrev pub is_editor : ClientRole → Bool
is_editor editor = true
is_editor _ = false

-- `role == ClientRole::Control`
abbrev pub is_control : ClientRole → Bool
is_control control = true
is_control _ = false

-- `matches!(role, ClientRole::Editor | ClientRole::Control)`
abbrev pub is_editor_or_control : ClientRole → Bool
is_editor_or_control editor = true
is_editor_or_control control = true
is_editor_or_control _ = false

-- `==` on roles.
abbrev pub same_role : ClientRole → ClientRole → Bool
same_role editor r = is_editor r
same_role control r = is_control r
same_role agent agent = true
same_role agent _ = false
same_role other other = true
same_role other _ = false
