-- ===== src/Control/Requests.antt =====
-- crates/dap-core/src/control_client.rs: one method for each request of the protocol, with its arguments.
use dappy_core.Mux.Session.{breakpoint_snapshot_command}
use dappy_core.Common.{
  ℕ, String, Bool, Option, none, some, List, [], ◌∷◌, map, if◌then◌else◌, nat_eq, string_eq,
  and_then, filter_map,
}
use dappy_core.Json.{Json}
use dappy_core.Mux.Tracker.{SourceBreakpointSpec, ExceptionBreakpointSpec}
use dappy_core.Control.Channel.{Op}
use dappy_core.Control.Session.{request_body}

-- `SourceBreakpointSpec::line`. The two crates declare the same structs.
unfoldable pub line_spec : ℕ → SourceBreakpointSpec
line_spec line = record { line = line; condition = none; hit_condition = none; log_message = none }

module _ {V : Type 0} ⦃J : Json V⦄ where
  -- `if let Some(x) = x { args[key] = json!(x) }`
  abbrev pub with_number : V → String → Option ℕ → V
  with_number args key none = args
  with_number args key (some n) = J.insert args key (J.number n)

  abbrev pub with_text : V → String → Option String → V
  with_text args key none = args
  with_text args key (some t) = J.insert args key (J.text t)

  abbrev pub with_bool : V → String → Option Bool → V
  with_bool args key none = args
  with_bool args key (some b) = J.insert args key (J.bool b)

  -- `{ "path": source }`
  abbrev pub source_object : String → V
  source_object source = J.insert J.empty "path" (J.text source)

  unfoldable pub stack_trace_with_options : ℕ → Option ℕ → Option ℕ → Op V V
  stack_trace_with_options thread_id start_frame levels =
      let args = J.insert J.empty "threadId" (J.number thread_id) in
      let args1 = with_number args "startFrame" start_frame in
      request_body "stackTrace" (some (with_number args1 "levels" levels))

  unfoldable pub stack_trace : ℕ → Op V V
  unfolding stack_trace_with_options
  stack_trace thread_id = stack_trace_with_options thread_id none none

  unfoldable pub read_memory : String → ℕ → Option ℕ → Op V V
  read_memory memory_reference count offset =
      let args =
        J.insert (J.insert J.empty "memoryReference" (J.text memory_reference)) "count"
          (J.number count) in
      request_body "readMemory" (some (with_number args "offset" offset))

  unfoldable pub write_memory : String → String → Option ℕ → Option Bool → Op V V
  write_memory memory_reference data_base64 offset allow_partial =
      let args =
        J.insert (J.insert J.empty "memoryReference" (J.text memory_reference)) "data"
          (J.text data_base64) in
      let args1 = with_number args "offset" offset in
      request_body "writeMemory" (some (with_bool args1 "allowPartial" allow_partial))

  unfoldable pub breakpoint_value : SourceBreakpointSpec → V
  breakpoint_value bp =
      let value = J.insert J.empty "line" (J.number bp.line) in
      let value1 = with_text value "condition" bp.condition in
      let value2 = with_text value1 "hitCondition" bp.hit_condition in
      with_text value2 "logMessage" bp.log_message

  unfoldable pub breakpoints_arguments : String → List SourceBreakpointSpec → V
  unfolding breakpoint_value
  breakpoints_arguments source breakpoints =
      J.insert (J.insert J.empty "source" (source_object source)) "breakpoints"
        (J.array (map breakpoint_value breakpoints))

  unfoldable pub set_breakpoints : String → List SourceBreakpointSpec → Op V V
  unfolding breakpoints_arguments
  set_breakpoints source breakpoints =
      request_body "setBreakpoints" (some (breakpoints_arguments source breakpoints))

  unfoldable pub scopes : ℕ → Op V V
  scopes frame_id = request_body "scopes" (some (J.insert J.empty "frameId" (J.number frame_id)))

  unfoldable pub variables : ℕ → Op V V
  variables variables_reference =
      request_body "variables"
        (some (J.insert J.empty "variablesReference" (J.number variables_reference)))

  unfoldable pub evaluate : String → Option ℕ → Op V V
  evaluate expression frame_id =
      request_body "evaluate"
        (some (with_number (J.insert J.empty "expression" (J.text expression)) "frameId" frame_id))

  unfoldable pub set_variable : String → String → ℕ → Op V V
  set_variable name value variables_reference =
      let args = J.insert J.empty "variablesReference" (J.number variables_reference) in
      request_body "setVariable"
        (some (J.insert (J.insert args "name" (J.text name)) "value" (J.text value)))

  unfoldable pub set_expression : String → String → Option ℕ → Op V V
  set_expression expression value frame_id =
      let args =
        J.insert (J.insert J.empty "expression" (J.text expression)) "value" (J.text value) in
      request_body "setExpression" (some (with_number args "frameId" frame_id))

  unfoldable pub set_function_breakpoints : List String → Op V V
  set_function_breakpoints functions = request_body "setFunctionBreakpoints" (
      some (
        J.insert J.empty "breakpoints"
          (J.array (map (λ name. J.insert J.empty "name" (J.text name)) functions))))

  unfoldable pub breakpoint_locations : String → ℕ → Option ℕ → Op V V
  breakpoint_locations source line end_line =
      let args =
        J.insert (J.insert J.empty "source" (source_object source)) "line" (J.number line) in
      request_body "breakpointLocations" (some (with_number args "endLine" end_line))

  unfoldable pub goto_targets : String → ℕ → Op V V
  goto_targets source line =
      request_body "gotoTargets"
        (some (J.insert (J.insert J.empty "source" (source_object source)) "line" (J.number line)))

  unfoldable pub goto : ℕ → ℕ → Op V V
  goto thread_id target_id = request_body "goto" (
      some (
        J.insert (J.insert J.empty "threadId" (J.number thread_id)) "targetId"
          (J.number target_id)))

  unfoldable pub completions : String → ℕ → Option ℕ → Op V V
  completions content column frame_id =
      let args = J.insert (J.insert J.empty "text" (J.text content)) "column" (J.number column) in
      request_body "completions" (some (with_number args "frameId" frame_id))

  unfoldable pub restart_frame : ℕ → Op V V
  restart_frame frame_id =
      request_body "restartFrame" (some (J.insert J.empty "frameId" (J.number frame_id)))

  unfoldable pub disassemble : String → ℕ → ℕ → Op V V
  disassemble memory_reference instruction_offset instruction_count =
      let args = J.insert J.empty "memoryReference" (J.text memory_reference) in
      request_body "disassemble" (
        some (
          J.insert (J.insert args "offset" (J.number instruction_offset)) "instructionCount"
            (J.number instruction_count)))

  unfoldable pub set_instruction_breakpoints : List V → Op V V
  set_instruction_breakpoints breakpoints =
      request_body "setInstructionBreakpoints"
        (some (J.insert J.empty "breakpoints" (J.array breakpoints)))

  unfoldable pub set_data_breakpoints : List V → Op V V
  set_data_breakpoints breakpoints =
      request_body "setDataBreakpoints"
        (some (J.insert J.empty "breakpoints" (J.array breakpoints)))

  -- `None` in the `filter_map` where the filter has no condition.
  unfoldable pub filter_option : ExceptionBreakpointSpec → Option V
  filter_option bp = and_then bp.condition λ condition.
      some
        (J.insert (J.insert J.empty "filterId" (J.text bp.filter)) "condition" (J.text condition))

  abbrev pub with_options : V → List V → V
  with_options args [] = args
  with_options args (o ∷ os) = J.insert args "filterOptions" (J.array (o ∷ os))

  unfoldable pub exception_arguments : List ExceptionBreakpointSpec → Bool → V
  unfolding filter_option
  exception_arguments breakpoints supports_filter_options =
      let args = J.insert J.empty "filters" (J.array (map (λ bp. J.text bp.filter) breakpoints)) in
      if supports_filter_options
      then with_options args (filter_map filter_option breakpoints)
      else args

  unfoldable pub set_exception_breakpoints : List ExceptionBreakpointSpec → Bool → Op V V
  unfolding exception_arguments
  set_exception_breakpoints breakpoints supports_filter_options =
      request_body "setExceptionBreakpoints"
        (some (exception_arguments breakpoints supports_filter_options))

  unfoldable pub proxy_plugin_info : Op V V
  proxy_plugin_info = request_body "dapProxyPluginInfo" none

  unfoldable pub session_breakpoint_snapshot : Op V V
  session_breakpoint_snapshot = request_body breakpoint_snapshot_command none
