-- ===== src/Child/Reverse.antt =====
-- crates/dap-core/src/reverse_request.rs: the requests of an adapter that the proxy answers.
use dappy_core.Common.{
  ℕ, true, false, Option, none, some, List, [], ◌∷◌, ◌++◌, if◌then◌else◌, nat_eq, string_eq,
  and_then, unwrap_or,
}
use dappy_core.Common.Text.{Text, codes, same_text}
use dappy_core.Child.Value.{
  Value, null, bool, number, text, array, object, Items, nil, cons, Fields, end, field, Library,
}
use dappy_core.Child.Handler.{decline_reverse_request}
use dappy_core.Wire.Message.{Request, Message, request_message, response_message, event_message}

-- The process that is asked for.
pub record TerminalCommand : Type 0 where
  pub program : Text
  pub args : List Text
  pub cwd : Option Text
  pub env : List (Text × Text)

-- What the file system and the spawn make of it, with the texts of their errors.
pub data Launch (N : Type 0) : Type 0 where
  no_directory no_file no_copy not_spawned : Text → Launch N
  launched : Text → N → Launch N

module _ {N : Type 0} where
  abbrev pub as_str : Value N → Option Text
  as_str (text t) = some t
  as_str null = none
  as_str _ = none

  -- `filter_map` of the texts.
  abbrev pub texts : Items N → List Text
  texts nil = []
  texts (cons (text t) xs) = t ∷ texts xs
  texts (cons x xs) = texts xs

  abbrev pub variables : Fields N → List (Text × Text)
  variables end = []
  variables (field k (text t) fs) = (k, t) ∷ variables fs
  variables (field k x fs) = variables fs

  abbrev pub variables_of : Option (Value N) → List (Text × Text)
  variables_of (some (object fs)) = variables fs
  variables_of none = []
  variables_of (some _) = []

  unfoldable pub succeed_reverse_request : Request (Value N) → Option (Value N) → Message (Value N)
  succeed_reverse_request request body = response_message (record {
    seq = 0;
    request_seq = request.seq;
    success = true;
    command = some request.command;
    message = none;
    body = body;
  })

  unfoldable pub fail_reverse_request : Request (Value N) → Text → Message (Value N)
  fail_reverse_request request message = response_message (record {
    seq = 0;
    request_seq = request.seq;
    success = false;
    command = some request.command;
    message = some message;
    body = none;
  })

  unfoldable pub launch_reply : Request (Value N) → Launch N → Message (Value N)
  unfolding fail_reverse_request succeed_reverse_request
  launch_reply request (no_directory e) =
      fail_reverse_request request (codes "failed to create runInTerminal log directory: " ++ e)
  launch_reply request (no_file e) =
      fail_reverse_request request (codes "failed to create runInTerminal log file: " ++ e)
  launch_reply request (no_copy e) =
      fail_reverse_request request (codes "failed to duplicate runInTerminal log file: " ++ e)
  launch_reply request (not_spawned e) =
      fail_reverse_request request (codes "failed to spawn terminal process: " ++ e)
  launch_reply request (launched log_path process_id) = succeed_reverse_request request (
      some (
        object (
          field (codes "captured") (bool true) (
            field (codes "logPath") (text log_path)
              (field (codes "processId") (number process_id) end)))))

  -- `launch` is the number of the request, which names the log file, and the command.
  module _ (lib : Library N) (launch : ℕ → TerminalCommand → Launch N) (debug : Text → Text) where
    abbrev pub terminal_command : Value N → Text → Items N → TerminalCommand
    terminal_command arguments program rest = record {
      program = program;
      args = texts rest;
      cwd = and_then (lib.get arguments (codes "cwd")) as_str;
      env = variables_of (lib.get arguments (codes "env"));
    }

    abbrev pub run_program : Request (Value N) → Value N → Text → Items N → Message (Value N)
    run_program request arguments [] rest =
        fail_reverse_request request (codes "runInTerminal args[0] must be a command")
    run_program request arguments (c ∷ s) rest =
        launch_reply request (launch request.seq (terminal_command arguments (c ∷ s) rest))

    abbrev pub run_args : Request (Value N) → Value N → Option (Value N) → Message (Value N)
    run_args request arguments (some (array (cons x xs))) =
        run_program request arguments (unwrap_or (as_str x) []) xs
    run_args request arguments none =
        fail_reverse_request request (codes "runInTerminal missing args")
    run_args request arguments (some _) =
        fail_reverse_request request (codes "runInTerminal missing args")

    unfoldable pub handle_run_in_terminal : Request (Value N) → Message (Value N)
    unfolding fail_reverse_request launch_reply
    handle_run_in_terminal request =
        let arguments = unwrap_or request.arguments null in
        run_args request arguments (lib.get arguments (codes "args"))

    unfoldable pub handle_reverse_request : Message (Value N) → Option (Message (Value N))
    unfolding handle_run_in_terminal decline_reverse_request
    handle_reverse_request (request_message request) =
        if same_text request.command (codes "startDebugging")
        then some (decline_reverse_request debug request)
        else if same_text request.command (codes "runInTerminal")
        then some (handle_run_in_terminal request)
        else none
    handle_reverse_request (response_message r) = none
    handle_reverse_request (event_message e) = none
