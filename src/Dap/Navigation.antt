-- ===== src/Dap/Navigation.antt =====
-- crates/dap-core/src/navigation.rs: the commands and their names.
use dappy_core.Common.{
  String, ◌≡◌, ap, Bool, true, false, ◌||◌, Option, none, some, if◌then◌else◌, ◌==◌, nat_eq,
  string_eq,
}

pub data NavigationType : Type 0 where
  continues step_over step_in step_out pause step_back reverse_continue : NavigationType

unfoldable pub dap_command : NavigationType → String
dap_command continues = "continue"
dap_command step_over = "next"
dap_command step_in = "stepIn"
dap_command step_out = "stepOut"
dap_command pause = "pause"
dap_command step_back = "stepBack"
dap_command reverse_continue = "reverseContinue"

abbrev pub waits_for_stop : NavigationType → Bool
waits_for_stop continues = true
waits_for_stop pause = true
waits_for_stop reverse_continue = true
waits_for_stop _ = false

-- The name of `Display`.
unfoldable pub display : NavigationType → String
display continues = "continue"
display step_over = "step_over"
display step_in = "step_in"
display step_out = "step_out"
display pause = "pause"
display step_back = "step_back"
display reverse_continue = "reverse_continue"

unfoldable pub from_str_of : String → Option NavigationType
from_str_of s =
    if s == "continue"
    then some continues
    else if s == "next" || s == "step_over" || s == "stepover"
    then some step_over
    else if s == "step_in" || s == "stepin"
    then some step_in
    else if s == "step_out" || s == "stepout"
    then some step_out
    else if s == "pause"
    then some pause
    else if s == "step_back" || s == "stepback"
    then some step_back
    else if s == "reverse_continue" || s == "reversecontinue"
    then some reverse_continue
    else none

-- `s.replace('-', "_").to_ascii_lowercase()` is an argument.
unfoldable pub from_str : (String → String) → String → Option NavigationType
from_str normal s = from_str_of (normal s)

-- The name that is shown for a navigation is read back as that navigation, where the normal form of such
-- a name, which has no dash and no capital, is the name itself.
pub from_str-display :
    (normal : String → String)
    → ((n : NavigationType) → normal (display n) ≡ display n)
    → (n : NavigationType) → from_str normal (display n) ≡ some n
unfolding from_str from_str_of display
from_str-display normal h continues = ap from_str_of (h continues)
from_str-display normal h step_over = ap from_str_of (h step_over)
from_str-display normal h step_in = ap from_str_of (h step_in)
from_str-display normal h step_out = ap from_str_of (h step_out)
from_str-display normal h pause = ap from_str_of (h pause)
from_str-display normal h step_back = ap from_str_of (h step_back)
from_str-display normal h reverse_continue = ap from_str_of (h reverse_continue)
