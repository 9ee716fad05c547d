-- ===== src/Mux/Session/Handles.antt =====
-- `MultiplexSession` and `ClientEndpoint` of crates/protocol-mux/src/session.rs: the handles through which
-- callers reach the loop. A call only posts an operation; whether the loop still takes operations is an
-- argument, and the answer to `attach` is the effect `endpoint` of the loop, where it gives one.
use dappy_core.Common.{Bool, if◌then◌else◌, nat_eq, string_eq}
use dappy_core.Mux.Client.{ClientRole, ClientId, MuxError, client_not_found, other_error}
use dappy_core.Mux.Session.Loop.{SessionOp, attach, client_send, detach}

pub record ClientEndpoint : Type 0 where
  pub id : ClientId
  pub role : ClientRole

-- An operation for the loop, or the error of the caller.
pub data Posted (V : Type 0) : Type 0 where
  posted : SessionOp V → Posted V
  refused : MuxError → Posted V

module _ {V : Type 0} where
  abbrev pub post : Bool → SessionOp V → MuxError → Posted V
  post takes op e = if takes then posted op else refused e

  -- `MultiplexSession::attach`, up to the wait for the endpoint.
  unfoldable pub post_attach : Bool → ClientRole → Posted V
  post_attach takes role = post takes (attach role) (other_error "session loop stopped")

  -- `MultiplexSession::send`
  unfoldable pub post_send : Bool → ClientId → V → Posted V
  post_send takes id message = post takes (client_send id message) client_not_found

  -- `MultiplexSession::detach`
  unfoldable pub post_detach : Bool → ClientId → Posted V
  post_detach takes id = post takes (detach id) client_not_found

  -- `ClientEndpoint::send`
  unfoldable pub endpoint_send : Bool → ClientEndpoint → V → Posted V
  endpoint_send takes endpoint message =
      post takes (client_send endpoint.id message) client_not_found
