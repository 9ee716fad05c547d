-- ===== src/Dap/Examples.antt =====
-- Inputs of crates/dap-core on which its theorems are applied.
use dappy_core.Dap.Attach.{merge_debug_request_arguments, merge_debug_request_arguments-request}
use dappy_core.Wire.Message.{Request, request_message}
use dappy_core.Json.Plain.{
  Value, object, Fields, end, field, get_field, get_value, number, text, plain,
}
use dappy_core.Common.{
  arith, ◌⊎◌, String, or_else, inl, ◌↔◌, if◌then◌else◌, refl, ◌≡◌, true, Option, none, some, List,
  [], ◌∷◌, nat_eq, string_eq,
}
use dappy_core.Common.Text.{Text, codes}
use dappy_core.Common.Text.Search.{split}
use dappy_core.Dap.Skip.{path_matches_skip, is_empty}
use dappy_core.Dap.Skip.Glob.{Globs, path_matches_skip_iff}
use dappy_core.Dap.SourcePath.{source_paths_match}
use dappy_core.Dap.SourcePath.Endings.{
  nothing_left, backslash, other, IsNormalOf, ends_otherwise, Ends, SameFile,
  source_paths_match_iff,
}

-- `src/*.rs` stands for the path.
path_matches_skip_iff_example :
    (path_matches_skip (codes "src/a.rs") (codes "src/*.rs") ≡ true)
    ↔ Globs (codes "src/*.rs") (codes "src/a.rs")
path_matches_skip_iff_example = path_matches_skip_iff (codes "src/a.rs") (codes "src/*.rs") refl

skips_rust_file : path_matches_skip (codes "src/a.rs") (codes "src/*.rs") ≡ true
unfolding path_matches_skip
skips_rust_file = refl

abbrev last_part : List Text → Option Text
last_part [] = none
last_part (p ∷ []) = if is_empty p then none else some p
last_part (p ∷ q ∷ ps) = last_part (q ∷ ps)

-- The name behind the last slash.
abbrev last_name : Text → Option Text
last_name s = last_part (split 47 s)

abbrev windows_path : Text
windows_path = codes "a\\b/"

windows-IsNormalOf : IsNormalOf windows_path (codes "a/b")
windows-IsNormalOf = record {
  slashed = codes "a/b/";
  replaced =
      other (λ e. omega arith)
        (backslash (other (λ e. omega arith) (other (λ e. omega arith) nothing_left)));
  cut = 1;
  whole = refl;
  no_slash = ends_otherwise (codes "a/") 98 (λ e. omega arith);
}

long-IsNormalOf : IsNormalOf (codes "/x/a/b") (codes "/x/a/b")
long-IsNormalOf = record {
  slashed = codes "/x/a/b";
  replaced =
      other (λ e. omega arith)
        (other (λ e. omega arith)
          (other (λ e. omega arith)
            (other (λ e. omega arith)
              (other (λ e. omega arith) (other (λ e. omega arith) nothing_left)))));
  cut = 0;
  whole = refl;
  no_slash = ends_otherwise (codes "/x/a/") 98 (λ e. omega arith);
}

-- Paths that differ in their slashes.
source_paths_match_iff_example :
    (source_paths_match last_name windows_path (codes "/x/a/b") ≡ true) ↔ (
      Ends (codes "/x/a/b") (codes "a/b")
      ⊎ Ends (codes "a/b") (codes "/x/a/b")
      ⊎ SameFile last_name (codes "a/b") (codes "/x/a/b"))
source_paths_match_iff_example =
    source_paths_match_iff last_name windows_path (codes "/x/a/b") (codes "a/b") (codes "/x/a/b")
      windows-IsNormalOf long-IsNormalOf

abbrev attach_request : Request Value
attach_request = record {
  seq = 2;
  command = codes "attach";
  arguments = some (object (field "host" (text "10.0.0.5") end));
}

abbrev target_defaults : Fields
target_defaults = field "host" (text "127.0.0.1") (field "port" (number 1234) end)

merge_debug_request_arguments-request_example :
    (args : Value) × (merge_debug_request_arguments
        (request_message attach_request)
        (object target_defaults)
      ≡ request_message (record attach_request { arguments = some args }))
    × ((k : String)
        → get_value args k
          ≡ or_else
              (get_field (field "host" (text "10.0.0.5") end) k)
              (get_field target_defaults k))
merge_debug_request_arguments-request_example =
    merge_debug_request_arguments-request attach_request (field "host" (text "10.0.0.5") end)
      target_defaults (inl refl) refl (refl, (refl, tt))
