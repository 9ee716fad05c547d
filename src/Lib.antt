-- ===== src/Lib.antt =====
-- A model of dappy-core, a set of Rust crates that put one debug session behind a proxy which an
-- editor, command-line clients and agents share.
--
-- crates/protocol-mux (Mux) is the centre: a loop owns one connection to the debug adapter and
-- serves many clients. A client's request gets a number of the multiplexer's own before it is
-- forwarded (Mux.Session.Client, `handle_client_message`); the response is given its old number
-- back and goes to the client that waits for it (Mux.Session.Upstream, `handle_upstream_message`);
-- events go to all. Mux.Session.Loop holds `handle_op` and `run`, Mux.Session.Handles what callers
-- post to it, and Mux.Multiplexer the wrapper without a loop. The tables behind it are Mux.Remapper
-- (remapper.rs, with an abstract table of requests in flight), Mux.Cancel (cancel.rs), Mux.Cache
-- (cache.rs, with what a late client is told) and Mux.Breakpoint with Mux.Tracker
-- (breakpoint_state.rs); Mux.Message is message.rs and Mux.Client is client.rs and error.rs.
--
-- crates/instance-manager (Instances) keeps the running sessions: state.rs and error.rs are
-- Instances.State, spec.rs, id.rs and handle.rs are Instances.Handle, manager.rs is
-- Instances.Manager. crates/protocol-gateway (Gateway) picks the plugin that serves a request:
-- Gateway.Registry is registry.rs, route.rs, error.rs and the interface in plugin.rs,
-- Gateway.Static its static plugin, spawn.rs and the builders of route.rs. Gateway.Launch is
-- gateway.rs of crates/dap-core, with rust_routing.rs and the manifests of registry.rs. Of
-- crates/dap-core, Dap.Execution is execution_state.rs, Dap.Watch is data_watch.rs, Dap.Navigation
-- is navigation.rs, Dap.Policy the guards of stop_policy.rs, Dap.HitCount its hit conditions,
-- Dap.Skip its skip patterns with stack_filter.rs, and Dap.SourcePath its comparison of paths.
-- Dap.Attach is the merging of defaults in rsp_target.rs, with the loop of mux_bridge.rs that sends
-- to the adapter.
--
-- crates/dap-protocol (Wire) frames the messages on a byte stream: Wire.Message is message.rs and
-- error.rs, Wire.Transport is transport.rs, and Wire.Client the wait for a response in
-- mux_bridge.rs. Common.Text is what the program uses of Rust's `str`: trimming, prefixes, UTF-8,
-- and the reading and printing of numbers.
--
-- crates/dap-core/src/child_session (Child) starts sessions for the child processes of a debugged
-- program: Child.Profile is profile.rs, Child.Template and Child.Resolve are resolve.rs,
-- Child.Handler is mod.rs. Child.Reverse is reverse_request.rs, and Child.Bridge the loop of
-- mux_bridge.rs that reads the adapter and calls them. Here a JSON value is the enum of serde_json,
-- since the templates recurse on it (Child.Value).
--
-- Control is the other end: control_client.rs, the client that command-line tools and agents drive
-- a session with. Control.Channel holds its state and what a channel yields, Control.Waits the waits
-- for a response or an event, Control.Calls the requests, Control.Drain the replay for a late joiner
-- (with capabilities.rs), Control.Session navigation and the end of a session, Control.Requests one
-- method for each request, and Control.Port the choice of a session. Control.Config
-- and Control.Init are session_init.rs, the start of a session over such a client. Its channel is over messages,
-- not bytes. A silence in which a timer runs out is one of the things that it yields, and where it
-- falls within a message, the read that the timer cuts off loses what it has taken of it.
-- crates/dap-plugin-api (Plugin) says what a manifest gives a launch: Plugin.Template is template.rs
-- and Plugin.Launch is launch.rs.
--
-- State and effects. A method of the loop is an action: it takes how the channels stand, and a
-- world of the session's state and the effects so far, newest first, and returns or fails with the
-- world as it then stands. `?` is the monad's bind. A send on an unbounded channel fails exactly
-- when its receiving end is gone, which the argument `Channels` says at each turn, so a theorem
-- covers every way in which clients come and go. A client has two channels: its own, whose messages
-- Mux.Session.Delivery calls `received`, and the broadcast, `published`, which all endpoints read. A run takes its inputs in the order in which
-- `select!` picks them.
--
-- JSON values are those of serde_json, a library: Json is the interface that the program uses of
-- it, with laws for what its documentation says. Json.Plain is its enum of values, which fills the
-- interface; the templates of a manifest recurse on it, and the tests run on it.
--
-- Numbers. An i64 or u64 is its bit pattern, a number below 2 ^ 64, and a counter wraps at 2 ^ 64, as a
-- plain `+=` does in a build for release; the theorem on the numbers of the control client stays below
-- 2 ^ 63, where no build overflows. The theorem on runs asks for room for as many steps as there are
-- inputs. A HashMap is an association list without a repeated key; a loop over one visits the entries in the order of the
-- list. Of the loops only three have fuel, all others run over lists: read_headers has one more
-- than the bytes of the stream, and each line takes one; await_response has as much, and each
-- message takes one; print_u64 has twenty, the digits of a 64-bit number.
--
-- A method that takes a lock for its whole body is one step. What the operating system tells (the
-- clock, random ids, whether a process or a port is alive, the files of the session store) is an
-- argument.
--
-- Not modelled: sockets, processes, files, logging and the command line; in crates/dap-plugin-api the
-- targets and the validation and loading of manifests; in crates/dap-core the rendering, the views of
-- source and memory, the bounds on variables, the guards, the bridges of the clients, and the wiring
-- of proxy.rs, engine.rs and client.rs; and the binary crates/dap-proxy.
pub mod Common
pub mod Json
pub mod Mux
pub mod Instances
pub mod Gateway
pub mod Wire
pub mod Child
pub mod Dap
pub mod Control
pub mod Plugin
