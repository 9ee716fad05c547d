-- ===== src/Child/Profile.antt =====
-- crates/dap-core/src/child_session/profile.rs: the rules for child sessions.
use dappy_core.Child.Outcome.{err, Outcome, ok_or}
use dappy_core.Common.{
  ℕ, Bool, true, false, Option, none, some, List, [], ◌∷◌, ◌++◌, if◌then◌else◌, nat_eq, string_eq,
}
use dappy_core.Common.Text.{Text, codes, same_text}
use dappy_core.Child.Value.{object, Library, Value, text}

pub data ParentBackendKind : Type 0 where
  stdio tcp : ParentBackendKind

abbrev pub same_kind : ParentBackendKind → ParentBackendKind → Bool
same_kind stdio stdio = true
same_kind tcp tcp = true
same_kind _ _ = false

pub record RuleCondition : Type 0 where
  pub request : Option Text
  pub exists : List Text
  pub parent_backend : List ParentBackendKind

pub data PortTemplate : Type 0 where
  port_number : ℕ → PortTemplate
  port_template : Text → PortTemplate

pub data ChildBackendTemplate : Type 0 where
  stdio_template : Text → List Text → ChildBackendTemplate
  tcp_template : Text → PortTemplate → ChildBackendTemplate
  parent_backend_template inherit_parent_stdio : ChildBackendTemplate

module _ (N : Type 0) where
  pub record DebugRequestTemplate : Type 0 where
    pub request : Text
    pub arguments : Value N

  pub record ChildSessionRule : Type 0 where
    pub when : RuleCondition
    pub child_backend : ChildBackendTemplate
    pub debug_request : DebugRequestTemplate

  pub record ChildSessionProfile : Type 0 where
    pub rules : List ChildSessionRule
    pub unsupported_message : Option Text

  pub record ChildSessionConfig : Type 0 where
    pub auto_spawn : Bool
    pub max_children : ℕ
    pub max_depth : ℕ
    pub profile : ChildSessionProfile

abbrev pub default_max_children : ℕ
default_max_children = 16

abbrev pub default_max_depth : ℕ
default_max_depth = 1

abbrev pub lldb_dap_stdio_unsupported_message : Text
lldb_dap_stdio_unsupported_message =
    codes "startDebugging unsupported for lldb-dap profile with stdio parent backend; "
    ++ codes "lldb-dap session handoff requires a reusable tcp server endpoint"

module _ {N : Type 0} where
  -- The request that all presets make of a child: the parent's own.
  abbrev pub same_request : DebugRequestTemplate N
  same_request = record {
    request = codes "${request}";
    arguments = text (codes "${configuration}");
  }

  abbrev pub default_profile : ChildSessionProfile N
  default_profile = record { rules = []; unsupported_message = none }

  abbrev pub default_config : ChildSessionConfig N
  default_config = record {
    auto_spawn = false;
    max_children = default_max_children;
    max_depth = default_max_depth;
    profile = default_profile;
  }

  abbrev pub fake_preset : ChildSessionProfile N
  fake_preset = record {
    rules =
        record {
          when = record { request = some (codes "launch"); exists = []; parent_backend = [] };
          child_backend = inherit_parent_stdio;
          debug_request = same_request;
        }
        ∷ [];
    unsupported_message = none;
  }

  abbrev pub debugpy_rule : ChildSessionRule N
  debugpy_rule = record {
    when = record {
      request = some (codes "attach");
      exists = codes "configuration.connect.host" ∷ codes "configuration.connect.port" ∷ [];
      parent_backend = [];
    };
    child_backend =
        tcp_template (codes "${configuration.connect.host}")
          (port_template (codes "${configuration.connect.port}"));
    debug_request = same_request;
  }

  abbrev pub debugpy_preset : ChildSessionProfile N
  debugpy_preset = record { rules = debugpy_rule ∷ []; unsupported_message = none }

  abbrev pub lldb_dap_preset : ChildSessionProfile N
  lldb_dap_preset = record {
    rules =
        record {
          when = record { request = none; exists = []; parent_backend = tcp ∷ [] };
          child_backend = parent_backend_template;
          debug_request = same_request;
        }
        ∷ [];
    unsupported_message = some lldb_dap_stdio_unsupported_message;
  }

  abbrev pub from_preset : Text → Option (ChildSessionProfile N)
  from_preset name =
      if same_text name (codes "fake")
      then some fake_preset
      else if same_text name (codes "debugpy")
      then some debugpy_preset
      else if same_text name (codes "lldb-dap")
      then some lldb_dap_preset
      else none

  -- What serde makes of an object is an argument.
  unfoldable pub deserialize_profile :
      Library N
      → (Value N → Outcome (ChildSessionProfile N))
      → Value N
      → Outcome (ChildSessionProfile N)
  deserialize_profile lib explicit (text name) = ok_or (from_preset name) (
      codes "unknown child-session profile preset '"
      ++ (name
          ++ codes "'; expected \"fake\", \"debugpy\", \"lldb-dap\", or an explicit rules object"))
  deserialize_profile lib explicit (object fields) = explicit (object fields)
  deserialize_profile lib explicit other = err (
      codes "child-session profile must be a preset name or rules object, got "
      ++ lib.to_string other)
