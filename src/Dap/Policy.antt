-- ===== src/Dap/Policy.antt =====
-- The guards of crates/dap-core/src/stop_policy.rs. A guard takes the capability that it reads.
use dappy_core.Common.{
  String, ◌≡◌, ◌↔◌, Bool, true, false, not, ◌&&◌, ◌||◌, Option, none, some, arith, if◌then◌else◌,
  nat_eq, string_eq, is_some,
}
use dappy_core.Dap.Navigation.{NavigationType, step_back, reverse_continue, display}

pub record ClientStopPolicy : Type 0 where
  pub condition : Bool
  pub hit : Bool
  pub log : Bool

unfoldable pub any : ClientStopPolicy → Bool
any p = p.condition || p.hit || p.log

-- The three capabilities that `uses_client_stop_policy` reads.
pub record StopCapabilities : Type 0 where
  pub supports_conditional_breakpoints : Bool
  pub supports_hit_conditional_breakpoints : Bool
  pub supports_log_points : Bool

unfoldable pub uses_client_stop_policy :
    StopCapabilities → Option String → Option String → Option String → ClientStopPolicy
uses_client_stop_policy c condition hit_condition log_message = record {
  condition = is_some condition && not c.supports_conditional_breakpoints;
  hit = is_some hit_condition && not c.supports_hit_conditional_breakpoints;
  log = is_some log_message && not c.supports_log_points;
}

unfoldable pub uses_emulated_exception_condition : Bool → Option String → Bool
uses_emulated_exception_condition supports_exception_filter_options condition =
    is_some condition && not supports_exception_filter_options

abbrev is_backward : NavigationType → Bool
is_backward step_back = true
is_backward reverse_continue = true
is_backward _ = false

-- `none` for `Ok(())`, and the navigation that the message of an error names.
unfoldable pub ensure_navigation_supported : Bool → NavigationType → Option String
ensure_navigation_supported supports_step_back n =
    if is_backward n && not supports_step_back then some (display n) else none

-- The client emulates a part of a breakpoint exactly where the breakpoint has it and the adapter lacks it,
-- so nothing is emulated exactly where every part that is there is supported.
pub any-uses_client_stop_policy :
    (c : StopCapabilities) (condition hit_condition log_message : Option String)
    → (any (uses_client_stop_policy c condition hit_condition log_message) ≡ false) ↔ (
        (is_some condition ≡ true → c.supports_conditional_breakpoints ≡ true)
        × (is_some hit_condition ≡ true → c.supports_hit_conditional_breakpoints ≡ true)
        × (is_some log_message ≡ true → c.supports_log_points ≡ true))
unfolding any uses_client_stop_policy
any-uses_client_stop_policy c condition hit_condition log_message = ground arith
