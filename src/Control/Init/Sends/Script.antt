-- ===== src/Control/Init/Sends/Script.antt =====
-- The script of a session's start in crates/dap-core/src/session_init.rs, and that a start follows it.
use dappy_core.Common.{
  String, ◌≡◌, refl, subst, Option, none, some, List, [], ◌∷◌, ◌++◌, nat_eq, string_eq,
}
use mathlib.Core.List.{append-nil}
use dappy_core.Common.Text.{Text, codes}
use dappy_core.Json.Plain.{Value, plain}
use dappy_core.Control.Channel.{
  ok, AdapterCapabilities, ControlClient, ◌>>=◌, pure, set_capabilities,
}
use dappy_core.Control.Waits.{wait_for_event}
use dappy_core.Control.Calls.{dap_request_preserve_events, send_dap_request_and_wait_for_event}
use dappy_core.Control.Drain.{from_initialize_message}
use dappy_core.Plugin.Template.{TemplateContext}
use dappy_core.Plugin.Launch.{
  LaunchManifest, InitStep, RecordEntry, Host, template_context, init_steps,
}
use dappy_core.Control.Config.{SessionInitConfig, config_initialize_arguments}
use dappy_core.Control.Init.{
  init_result, SessionEntryLocation, run_default_init_sequence, wait_named, wait_seq,
  default_then_none, command_is, finish, start_with, step_arguments, resolve_entry_location,
  with_entry, send_step, init_step, init_loop, run_manifest_init_sequence, manifest_sequence,
  init_sequence, run_debug_request, lift, empty_object,
}
use dappy_core.Control.Init.Sends.{
  commands, Progress, >>=-Progress, Progress-same, preserve-Progress, pure-Progress,
  send_and_wait-Progress, wait_for_event-Progress, wait_named-Progress, wait_seq-Progress,
}

abbrev pub step_commands : Option String → List Text
step_commands none = []
step_commands (some command) = codes command ∷ []

-- The commands of the steps that have one.
abbrev pub steps_commands : List InitStep → List Text
steps_commands [] = []
steps_commands (step ∷ steps) = step_commands step.request ++ steps_commands steps

abbrev pub or_default : List InitStep → String → List Text
or_default [] request = codes request ∷ codes "configurationDone" ∷ []
or_default (step ∷ steps) request = steps_commands (step ∷ steps)

-- What is sent after `initialize`.
abbrev pub sequence_commands : Option LaunchManifest → String → List Text
sequence_commands none request = or_default [] request
sequence_commands (some manifest) request = or_default (init_steps manifest) request

default-Progress :
    (request : String) (arguments : Value) (c : ControlClient Value)
    → Progress
        (or_default [] request)
        (commands c.written)
        (run_default_init_sequence request arguments c)
unfolding run_default_init_sequence
default-Progress request arguments c =
    >>=-Progress (codes request ∷ []) (codes "configurationDone" ∷ []) (commands c.written)
      (dap_request_preserve_events (codes request) (some arguments) c)
      (λ response. wait_for_event (codes "initialized") 30000 >>= (λ initialized.
        dap_request_preserve_events (codes "configurationDone") (some empty_object)
        >>= (λ done. pure tt)))
      (preserve-Progress (codes request) (some arguments) c)
      (λ response d.
        >>=-Progress [] (codes "configurationDone" ∷ []) (commands d.written)
          (wait_for_event (codes "initialized") 30000 d)
          (λ initialized.
            dap_request_preserve_events (codes "configurationDone") (some empty_object)
            >>= (λ done. pure tt))
          (wait_for_event-Progress (codes "initialized") 30000 d)
          (λ initialized e.
            >>=-Progress (codes "configurationDone" ∷ []) [] (commands e.written)
              (dap_request_preserve_events (codes "configurationDone") (some empty_object) e)
              (λ done. pure tt)
              (preserve-Progress (codes "configurationDone") (some empty_object) e)
              (λ done f. pure-Progress tt f)))

default_then_none-Progress :
    (request : String) (arguments : Value) (c : ControlClient Value)
    → Progress (or_default [] request) (commands c.written) (default_then_none request arguments c)
default_then_none-Progress request arguments c =
    >>=-Progress (or_default [] request) [] (commands c.written)
      (run_default_init_sequence request arguments c) (λ done. pure none)
      (default-Progress request arguments c)
      (λ done d. pure-Progress {A = Option SessionEntryLocation} none d)

module _ (host : Host) where
  with_entry-Progress :
      (entry : Option RecordEntry) (ctx : TemplateContext) (location : Option SessionEntryLocation)
      (c : ControlClient Value)
      → Progress [] (commands c.written) (with_entry host entry ctx location c)
  with_entry-Progress none ctx location c = pure-Progress location c
  with_entry-Progress (some entry) ctx location c =
      >>=-Progress [] [] (commands c.written) (resolve_entry_location host entry ctx, c)
        (λ here. pure (some here)) (Progress-same (resolve_entry_location host entry ctx, c) c refl)
        (λ here d. pure-Progress (some here) d)

  send_step-Progress :
      (event : Option String) (command : String) (arguments : Option Value) (step : InitStep)
      (ctx : TemplateContext) (location : Option SessionEntryLocation) (c : ControlClient Value)
      → Progress
          (codes command ∷ [])
          (commands c.written)
          (send_step host event command arguments step ctx location c)
  send_step-Progress (some name) command arguments step ctx location c =
      >>=-Progress (codes command ∷ []) [] (commands c.written)
        (send_dap_request_and_wait_for_event (codes command) arguments (codes name) c)
        (λ seq.
          with_entry host step.record_entry ctx location
          >>= (λ here. wait_seq (command_is step.wait_for_response command) seq here))
        (send_and_wait-Progress (codes command) arguments (codes name) c)
        (λ seq d.
          >>=-Progress [] [] (commands d.written) (with_entry host step.record_entry ctx location d)
            (λ here. wait_seq (command_is step.wait_for_response command) seq here)
            (with_entry-Progress step.record_entry ctx location d)
            (λ here e. wait_seq-Progress (command_is step.wait_for_response command) seq here e))
  send_step-Progress none command arguments step ctx location c =
      >>=-Progress (codes command ∷ []) [] (commands c.written)
        (dap_request_preserve_events (codes command) arguments c)
        (λ response.
          with_entry host step.record_entry ctx location
          >>= (λ here. wait_named step.wait_for_response here))
        (preserve-Progress (codes command) arguments c)
        (λ response d.
          >>=-Progress [] [] (commands d.written) (with_entry host step.record_entry ctx location d)
            (λ here. wait_named step.wait_for_response here)
            (with_entry-Progress step.record_entry ctx location d)
            (λ here e. wait_named-Progress step.wait_for_response here e))

  init_step-Progress :
      (command : Option String) (step : InitStep) (request : String) (launch_arguments : Value)
      (ctx : TemplateContext) (location : Option SessionEntryLocation) (c : ControlClient Value)
      → Progress
          (step_commands command)
          (commands c.written)
          (init_step host command step request launch_arguments ctx location c)
  init_step-Progress none step request launch_arguments ctx location c =
      wait_named-Progress step.wait_for_response location c
  init_step-Progress (some command) step request launch_arguments ctx location c =
      send_step-Progress step.wait_for_event command
        (step_arguments host step request launch_arguments ctx) step ctx location c

  init_loop-Progress :
      (steps : List InitStep) (request : String) (launch_arguments : Value) (ctx : TemplateContext)
      (location : Option SessionEntryLocation) (c : ControlClient Value)
      → Progress
          (steps_commands steps)
          (commands c.written)
          (init_loop host steps request launch_arguments ctx location c)
  init_loop-Progress [] request launch_arguments ctx location c = pure-Progress location c
  init_loop-Progress (step ∷ steps) request launch_arguments ctx location c =
      >>=-Progress (step_commands step.request) (steps_commands steps) (commands c.written)
        (init_step host step.request step request launch_arguments ctx location c)
        (init_loop host steps request launch_arguments ctx)
        (init_step-Progress step.request step request launch_arguments ctx location c)
        (init_loop-Progress steps request launch_arguments ctx)

  manifest-Progress :
      (steps : List InitStep) (config : SessionInitConfig) (manifest : LaunchManifest)
      (request : String) (arguments : Value) (c : ControlClient Value)
      → init_steps manifest ≡ steps
      → Progress
          (or_default steps request)
          (commands c.written)
          (manifest_sequence host steps config manifest request arguments c)
  unfolding run_manifest_init_sequence
  manifest-Progress [] config manifest request arguments c e =
      default_then_none-Progress request arguments c
  manifest-Progress (step ∷ steps) config manifest request arguments c e =
      subst
        (λ s. Progress (steps_commands s) (commands c.written) (
          init_loop host (init_steps manifest) request arguments
            (template_context host manifest config.program) none c))
        e
        (init_loop-Progress (init_steps manifest) request arguments
          (template_context host manifest config.program) none c)

  sequence-Progress :
      (manifest : Option LaunchManifest) (config : SessionInitConfig) (request : String)
      (arguments : Value) (c : ControlClient Value)
      → Progress
          (sequence_commands manifest request)
          (commands c.written)
          (init_sequence host manifest config request arguments c)
  sequence-Progress none config request arguments c = default_then_none-Progress request arguments c
  sequence-Progress (some manifest) config request arguments c =
      manifest-Progress (init_steps manifest) config manifest request arguments c refl

  set_capabilities-written :
      (caps : AdapterCapabilities Value) (c : ControlClient Value)
      → (set_capabilities caps c).written ≡ c.written
  unfolding set_capabilities
  set_capabilities-written caps c = refl

  finish-Progress :
      (caps : AdapterCapabilities Value) (entry : Option SessionEntryLocation)
      (c : ControlClient Value)
      → Progress [] (commands c.written) (finish caps entry c)
  finish-Progress caps entry c =
      >>=-Progress [] [] (commands c.written) (wait_for_event (codes "stopped") 30000 c)
        (λ stopped. pure (init_result caps entry stopped))
        (wait_for_event-Progress (codes "stopped") 30000 c)
        (λ stopped d. pure-Progress (init_result caps entry stopped) d)

  start_with-Progress :
      (config : SessionInitConfig) (request : String) (arguments : Value)
      (caps : AdapterCapabilities Value) (c : ControlClient Value)
      → Progress
          (sequence_commands config.manifest request)
          (commands c.written)
          (start_with host config request arguments caps c)
  start_with-Progress config request arguments caps c =
      subst (λ s. Progress s (commands c.written) (start_with host config request arguments caps c))
        (append-nil (sequence_commands config.manifest request))
        (>>=-Progress [] (sequence_commands config.manifest request ++ []) (commands c.written)
          (ok tt, set_capabilities caps c)
          (λ known. init_sequence host config.manifest config request arguments >>= finish caps)
          (Progress-same (ok tt, set_capabilities caps c) c (set_capabilities-written caps c))
          (λ known d.
            >>=-Progress (sequence_commands config.manifest request) [] (commands d.written)
              (init_sequence host config.manifest config request arguments d) (finish caps)
              (sequence-Progress config.manifest config request arguments d)
              (finish-Progress caps)))

  module _ (from_value : Value → Option (AdapterCapabilities Value)) where
    -- The start of a session sends `initialize` and then the requests of the manifest's steps in their order,
    -- or, where there are none, the request to launch or attach and `configurationDone`. It sends these and no
    -- others: all of them where it succeeds, and where it fails the first of them up to some point.
    pub run_debug_request-Progress :
        (config : SessionInitConfig) (request : String) (arguments : Value)
        (c : ControlClient Value)
        → Progress
            (codes "initialize" ∷ sequence_commands config.manifest request)
            (commands c.written)
            (run_debug_request host from_value config request arguments c)
    unfolding run_debug_request
    run_debug_request-Progress config request arguments c =
        >>=-Progress (codes "initialize" ∷ []) (sequence_commands config.manifest request)
          (commands c.written)
          (dap_request_preserve_events (codes "initialize")
            (some (config_initialize_arguments host config)) c)
          (λ message.
            lift (from_initialize_message from_value message)
            >>= start_with host config request arguments)
          (preserve-Progress (codes "initialize") (some (config_initialize_arguments host config))
            c)
          (λ message d.
            >>=-Progress [] (sequence_commands config.manifest request) (commands d.written)
              (from_initialize_message from_value message, d)
              (start_with host config request arguments)
              (Progress-same (from_initialize_message from_value message, d) d refl)
              (start_with-Progress config request arguments))
