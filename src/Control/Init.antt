-- ===== src/Control/Init.antt =====
-- crates/dap-core/src/session_init.rs: how a session is started over a control client. The value is
-- serde_json's enum, as Json.Plain has it.
use dappy_core.Wire.Message.{Message}
pub mod Sends
use dappy_core.Common.{
  ℕ, String, Bool, true, false, Option, none, some, List, [], ◌∷◌, if◌then◌else◌, nat_eq, string_eq,
  and_then, unwrap_or, is_text,
}
use dappy_core.Common.Text.{codes}
use dappy_core.Json.Plain.{Value, plain, text, object, end, field, as_text}
use dappy_core.Control.Channel.{
  unresolved_entry, Result, ok, err, AdapterCapabilities, Op, ◌>>=◌, pure, set_capabilities,
}
use dappy_core.Control.Waits.{wait_for_response_seq, wait_for_response_named, wait_for_event}
use dappy_core.Control.Calls.{dap_request_preserve_events, send_dap_request_and_wait_for_event}
use dappy_core.Control.Drain.{from_initialize_message}
use dappy_core.Control.Session.{stop_of}
use dappy_core.Plugin.Template.{TemplateContext, resolve_value}
use dappy_core.Control.Config.{
  SessionInitConfig, config_initialize_arguments, config_launch_arguments,
}
use dappy_core.Plugin.Launch.{
  LaunchManifest, InitStep, RecordEntry, Host, template_context, merge_resolved, initialize_object,
  build_initialize_arguments, build_launch_arguments, launch_request_name, init_steps,
}

pub record SessionEntryLocation : Type 0 where
  pub path : String
  pub line : ℕ
  pub frame_id : Option ℕ

pub record SessionInitResult : Type 0 where
  pub ready : Bool
  pub stop_reason : Option String
  pub thread_id : Option ℕ
  pub entry_location : Option SessionEntryLocation
  pub capabilities : AdapterCapabilities Value

-- `{}`
abbrev pub empty_object : Value
empty_object = object end

-- A result that does not touch the client.
abbrev pub lift : {A : Type 0} → Result A → Op Value A
lift r c = (r, c)

abbrev pub command_is : Option String → String → Bool
command_is o command = is_text o command

unfoldable pub run_default_init_sequence : String → Value → Op Value (Unit {0})
run_default_init_sequence request arguments = do
  response ← dap_request_preserve_events (codes request) (some arguments)
  initialized ← wait_for_event (codes "initialized") 30000
  done ← dap_request_preserve_events (codes "configurationDone") (some empty_object)
  pure tt

abbrev pub location_of : RecordEntry → Option String → Result SessionEntryLocation
location_of entry none = err unresolved_entry
location_of entry (some path) = ok (record { path = path; line = entry.line; frame_id = some 1 })

-- `if let Some(wait_for) = &step.wait_for_response`
abbrev pub wait_named : {A : Type 0} → Option String → A → Op Value A
wait_named none a = pure a
wait_named (some name) a = do response ← wait_for_response_named (codes name); pure a

abbrev pub wait_seq : {A : Type 0} → Bool → ℕ → A → Op Value A
wait_seq false seq a = pure a
wait_seq true seq a = do response ← wait_for_response_seq seq; pure a

abbrev pub default_then_none : String → Value → Op Value (Option SessionEntryLocation)
default_then_none request arguments = do
  done ← run_default_init_sequence request arguments
  pure none

abbrev pub request_name : Option LaunchManifest → String
request_name none = "launch"
request_name (some manifest) = launch_request_name manifest

unfoldable pub init_result :
    AdapterCapabilities Value → Option SessionEntryLocation → Message Value → SessionInitResult
unfolding stop_of
init_result capabilities entry stopped = record {
  ready = true;
  stop_reason = (stop_of stopped).0;
  thread_id = (stop_of stopped).1;
  entry_location = entry;
  capabilities = capabilities;
}

-- The wait for the stop at the entry, and the result.
abbrev pub finish :
    AdapterCapabilities Value → Option SessionEntryLocation → Op Value SessionInitResult
finish capabilities entry = do
  stopped ← wait_for_event (codes "stopped") 30000
  pure (init_result capabilities entry stopped)

module _ (host : Host) where
  unfoldable pub step_arguments : InitStep → String → Value → TemplateContext → Option Value
  step_arguments step request launch_arguments ctx =
      if step.use_launch_arguments then some launch_arguments else elim step.arguments [
        | some arguments ↦ resolve_value host.env ctx arguments
        | none ↦
            if command_is step.request request then some launch_arguments else some empty_object
      ]

  unfoldable pub resolve_entry_location :
      RecordEntry → TemplateContext → Result SessionEntryLocation
  resolve_entry_location entry ctx =
      location_of entry (and_then (resolve_value host.env ctx (text entry.path)) as_text)

  -- `if let Some(record) = &step.record_entry`
  abbrev pub with_entry :
      Option RecordEntry
      → TemplateContext
      → Option SessionEntryLocation
      → Op Value (Option SessionEntryLocation)
  with_entry none ctx location = pure location
  with_entry (some entry) ctx location = do
    here ← lift (resolve_entry_location entry ctx)
    pure (some here)

  -- A step that sends a command: with an event to wait for, or without.
  abbrev pub send_step :
      Option String
      → String
      → Option Value
      → InitStep
      → TemplateContext
      → Option SessionEntryLocation
      → Op Value (Option SessionEntryLocation)
  send_step (some event_name) command arguments step ctx location = do
    seq ← send_dap_request_and_wait_for_event (codes command) arguments (codes event_name)
    here ← with_entry step.record_entry ctx location
    wait_seq (command_is step.wait_for_response command) seq here
  send_step none command arguments step ctx location = do
    response ← dap_request_preserve_events (codes command) arguments
    here ← with_entry step.record_entry ctx location
    wait_named step.wait_for_response here

  -- The body of the loop.
  abbrev pub init_step :
      Option String
      → InitStep
      → String
      → Value
      → TemplateContext
      → Option SessionEntryLocation
      → Op Value (Option SessionEntryLocation)
  init_step none step request launch_arguments ctx location =
      wait_named step.wait_for_response location
  init_step (some command) step request launch_arguments ctx location =
      send_step step.wait_for_event command (step_arguments step request launch_arguments ctx) step
        ctx location

  abbrev pub init_loop :
      List InitStep
      → String
      → Value
      → TemplateContext
      → Option SessionEntryLocation
      → Op Value (Option SessionEntryLocation)
  init_loop [] request launch_arguments ctx location = pure location
  init_loop (step ∷ steps) request launch_arguments ctx location = do
    here ← init_step step.request step request launch_arguments ctx location
    init_loop steps request launch_arguments ctx here

  unfoldable pub run_manifest_init_sequence :
      SessionInitConfig → LaunchManifest → String → Value → Op Value (Option SessionEntryLocation)
  run_manifest_init_sequence config manifest request launch_arguments =
      init_loop (init_steps manifest) request launch_arguments
        (template_context host manifest config.program) none

  -- With no steps the manifest is as good as none.
  abbrev pub manifest_sequence :
      List InitStep
      → SessionInitConfig
      → LaunchManifest
      → String
      → Value
      → Op Value (Option SessionEntryLocation)
  manifest_sequence [] config manifest request arguments = default_then_none request arguments
  manifest_sequence (step ∷ steps) config manifest request arguments =
      run_manifest_init_sequence config manifest request arguments

  abbrev pub init_sequence :
      Option LaunchManifest
      → SessionInitConfig
      → String
      → Value
      → Op Value (Option SessionEntryLocation)
  init_sequence none config request arguments = default_then_none request arguments
  init_sequence (some manifest) config request arguments =
      manifest_sequence (init_steps manifest) config manifest request arguments

  -- What follows the response to `initialize`.
  abbrev pub start_with :
      SessionInitConfig → String → Value → AdapterCapabilities Value → Op Value SessionInitResult
  start_with config request arguments capabilities = do
    known ← (λ c. (ok tt, set_capabilities capabilities c))
    entry ← init_sequence config.manifest config request arguments
    finish capabilities entry

  module _ (from_value : Value → Option (AdapterCapabilities Value)) where
    unfoldable pub run_debug_request :
        SessionInitConfig → String → Value → Op Value SessionInitResult
    run_debug_request config request arguments = do
      init_message ←
          dap_request_preserve_events (codes "initialize")
            (some (config_initialize_arguments host config))
      capabilities ← lift (from_initialize_message from_value init_message)
      start_with config request arguments capabilities

    unfoldable pub run_session_init : SessionInitConfig → Op Value SessionInitResult
    unfolding run_debug_request
    run_session_init config =
        run_debug_request config (request_name config.manifest)
          (config_launch_arguments host config)
