-- ===== src/Control/Channel.antt =====
-- crates/dap-core/src/control_client.rs: the client of a running session, over the messages that its
-- channel yields. A channel is what will still come of it, in order: a message, an error of the transport,
-- or a silence in which a timer runs out, if one is set; behind the last of these it is closed. The read
-- that a timer cuts off is not cancel safe: in a silence between two messages (`late`) it has taken nothing;
-- in one within a message (`torn`) what it has taken is gone, and the reads that follow yield what the rest
-- of the bytes makes: so many arrivals, each by its place. Where no timer runs, the message itself follows.
-- Of an error only its kind is kept, not its text.
use dappy_core.Common.{
  ℕ, zero, suc, Bool, false, Option, none, some, List, [], ◌∷◌, ◌++◌, nat_eq, string_eq,
}
use dappy_core.Wire.Message.{Message, ProtocolError}

pub data Arrival (V : Type 0) : Type 0 where
  arrives : Message V → Arrival V
  late : Arrival V
  torn : ℕ → (ℕ → Arrival V) → Arrival V
  fails : ProtocolError → Arrival V

-- The first of what reads yield.
abbrev pub yields : {V : Type 0} → ℕ → (ℕ → Arrival V) → List (Arrival V)
yields zero reads = []
yields (suc n) reads = reads 0 ∷ yields n (λ i. reads (suc i))

pub data Fault : Type 0 where
  channel_closed timed_out not_a_response missing_body bad_capabilities unresolved_entry : Fault
  transport : ProtocolError → Fault

pub data Result {ℓ} (A : Type ℓ) : Type ℓ where
  ok : A → Result A
  err : Fault → Result A

-- The flags of `AdapterCapabilities`, in the order of its fields.
pub record AdapterCapabilities (V : Type 0) : Type 0 where
  pub supports_configuration_done_request : Bool
  pub supports_function_breakpoints : Bool
  pub supports_conditional_breakpoints : Bool
  pub supports_hit_conditional_breakpoints : Bool
  pub supports_evaluate_for_hovers : Bool
  pub supports_step_back : Bool
  pub supports_set_variable : Bool
  pub supports_set_expression : Bool
  pub supports_goto_targets_request : Bool
  pub supports_goto_request : Bool
  pub supports_completions_request : Bool
  pub supports_breakpoint_locations_request : Bool
  pub supports_data_breakpoints : Bool
  pub supports_disassemble_request : Bool
  pub supports_instruction_breakpoints : Bool
  pub supports_exception_filter_options : Bool
  pub supports_log_points : Bool
  pub supports_restart_frame : Bool
  pub supports_read_memory_request : Bool
  pub supports_write_memory_request : Bool
  pub exception_breakpoint_filters : Option (List V)
  pub raw : Option V

-- `incoming` is the read half, `written` what the write half has sent and `accepts` how many messages the
-- other side still takes.
pub record ControlClient (V : Type 0) : Type 0 where
  pub incoming : List (Arrival V)
  pub written : List (Message V)
  pub accepts : ℕ
  pub seq : ℕ
  pub pending : List (Message V)
  pub capabilities : AdapterCapabilities V

abbrev pub Op : Type 0 → Type 0 → Type 0
Op V A = ControlClient V → Result A × ControlClient V

module _ {V A B : Type 0} where
  abbrev pub continue_with : Result A × ControlClient V → (A → Op V B) → Result B × ControlClient V
  continue_with (ok a, c) k = k a c
  continue_with (err e, c) k = (err e, c)

  infixl 5 ◌>>=◌
  abbrev pub ◌>>=◌ : Op V A → (A → Op V B) → Op V B
  (m >>= k) c = continue_with (m c) k

abbrev pub pure : {V A : Type 0} → A → Op V A
pure a c = (ok a, c)

-- `AdapterCapabilities::default()`
unfoldable pub unknown : {V : Type 0} → AdapterCapabilities V
unknown = record {
  supports_configuration_done_request = false;
  supports_function_breakpoints = false;
  supports_conditional_breakpoints = false;
  supports_hit_conditional_breakpoints = false;
  supports_evaluate_for_hovers = false;
  supports_step_back = false;
  supports_set_variable = false;
  supports_set_expression = false;
  supports_goto_targets_request = false;
  supports_goto_request = false;
  supports_completions_request = false;
  supports_breakpoint_locations_request = false;
  supports_data_breakpoints = false;
  supports_disassemble_request = false;
  supports_instruction_breakpoints = false;
  supports_exception_filter_options = false;
  supports_log_points = false;
  supports_restart_frame = false;
  supports_read_memory_request = false;
  supports_write_memory_request = false;
  exception_breakpoint_filters = none;
  raw = none;
}

module _ {V : Type 0} where
  -- A client on a duplex channel.
  unfoldable pub from_duplex : List (Arrival V) → ℕ → ControlClient V
  unfolding unknown
  from_duplex incoming accepts = record {
    incoming = incoming;
    written = [];
    accepts = accepts;
    seq = 1;
    pending = [];
    capabilities = unknown;
  }

  unfoldable pub set_capabilities : AdapterCapabilities V → ControlClient V → ControlClient V
  set_capabilities caps c = record c { capabilities = caps }

  unfoldable pub buffer_message : Message V → ControlClient V → ControlClient V
  buffer_message m c = record c { pending = c.pending ++ m ∷ [] }

  -- `recv_from_wire`, with no timer.
  unfoldable pub recv_arrival : List (Arrival V) → Result (Option (Message V)) × List (Arrival V)
  recv_arrival [] = (ok none, [])
  recv_arrival (arrives m ∷ more) = (ok (some m), more)
  recv_arrival (late ∷ more) = recv_arrival more
  recv_arrival (torn count reads ∷ more) = recv_arrival more
  recv_arrival (fails e ∷ more) = (err (transport e), more)

  unfoldable pub recv_from_wire : Op V (Option (Message V))
  unfolding recv_arrival
  recv_from_wire c =
      let (r, incoming) = recv_arrival c.incoming in (r, record c { incoming = incoming })

  abbrev pub next_pending : List (Message V) → Op V (Option (Message V)) → Op V (Option (Message V))
  next_pending [] wire c = wire c
  next_pending (m ∷ ms) wire c = (ok (some m), record c { pending = ms })

  unfoldable pub recv_next : Op V (Option (Message V))
  unfolding recv_from_wire
  recv_next c = next_pending c.pending recv_from_wire c

  unfoldable pub read_message : Op V (Option (Message V))
  unfolding recv_next
  read_message = recv_next

  -- `recv_timeout` on an empty buffer: nothing where the channel is closed or silent.
  unfoldable pub recv_timed : List (Arrival V) → Result (Option (Message V)) × List (Arrival V)
  recv_timed [] = (ok none, [])
  recv_timed (arrives m ∷ more) = (ok (some m), more)
  recv_timed (late ∷ more) = (ok none, more)
  recv_timed (torn count reads ∷ more) = (ok none, yields count reads)
  recv_timed (fails e ∷ more) = (err (transport e), more)

  unfoldable pub recv_timeout : Op V (Option (Message V))
  unfolding recv_timed
  recv_timeout c =
      next_pending c.pending
        (λ d. let (r, incoming) = recv_timed d.incoming in (r, record d { incoming = incoming })) c
