-- ===== src/Mux/Session.antt =====
-- crates/protocol-mux/src/session.rs: the state of the multiplex loop and what its methods are made of.
-- A method is an action: it reads how the channels stand, changes the world, and returns or fails. What
-- the loop sends is a list of effects, the newest in front. `?` in the source is `>>=` here.
use dappy_core.Common.{
  ℕ, zero, suc, ◌+◌, ◌-◌, ◌*◌, ◌/◌, ◌%◌, ◌^◌, ◌≤◌, ◌<◌, String, ◌≡◌, refl, sym, ap, ◌∙◌, subst, ◌≢◌,
  ◌↔◌, ◌⊎◌, inl, inr, Bool, true, false, not, ◌&&◌, ◌||◌, Option, none, some, List, [], ◌∷◌, ◌++◌,
  map, arith, eq_iff, ltb, leb, if◌then◌else◌, Bool-cases, Eq, ◌==◌, nat_eq, string_eq, ==-refl,
  ==-eq, and_then, unwrap_or, or_else, is_some, Option-cases, is_text, is_true, is_false, length,
  get_elem?, set, remove_at, filter_map, find_map,
}
use dappy_core.Common.HashMap.{HashMap}
use dappy_core.Common.HashMap
use dappy_core.Json.{Json}
use dappy_core.Mux.Client.{is_editor, same_role, ClientRole, MuxError, ClientId, client_not_found}
use dappy_core.Mux.Remapper.{MessageRemapper}
use dappy_core.Mux.Remapper
use dappy_core.Mux.Cache.{LateJoinCache}
use dappy_core.Mux.Cache
pub mod Client
pub mod Upstream
pub mod Loop
pub mod Handles
pub mod Silence
pub mod Invariant
pub mod Preservation
pub mod Delivery
pub mod Routing
pub mod Forwarding
pub mod Joining
pub mod Events
pub mod RoundTrip

-- A client's state is its role; its outbound channel is known by its id.
pub record SessionLoop (V : Type 0) : Type 0 where
  pub clients : HashMap ClientId ClientRole
  pub secondary_pending : HashMap ℕ (ClientId × ℕ)
  pub remapper : MessageRemapper
  pub backend_seq : ℕ
  pub display_seq : ℕ
  pub cache : LateJoinCache V
  pub next_client_id : ℕ

pub data Effect (V : Type 0) : Type 0 where
  -- a message on a client's outbound channel
  deliver : ClientId → V → Effect V
  -- a message to the upstream adapter
  forward : V → Effect V
  -- a message on the broadcast channel
  broadcast : V → Effect V
  -- the endpoint that answers `attach`
  endpoint : ClientId → ClientRole → Effect V

-- How the channels stand when a method runs. A send on an unbounded channel fails exactly when the
-- receiving end is gone.
pub record Channels : Type 0 where
  pub client_open : ClientId → Bool
  pub upstream_open : Bool
  pub receiver_count : ℕ

pub record World (V : Type 0) : Type 0 where
  pub session : SessionLoop V
  pub sent : List (Effect V)

pub data Outcome (V A : Type 0) : Type 0 where
  ok : A → World V → Outcome V A
  err : MuxError → World V → Outcome V A

-- The world that an action leaves, also where it fails.
abbrev pub world_of : {V A : Type 0} → Outcome V A → World V
world_of (ok a w) = w
world_of (err e w) = w

abbrev pub Action : Type 0 → Type 0 → Type 0
Action V A = Channels → World V → Outcome V A

infixl 5 ◌>>=◌ ◌>>◌
abbrev pub ◌>>=◌ : {V A B : Type 0} → Action V A → (A → Action V B) → Action V B
◌>>=◌ m f ch w = elim (m ch w) [ ok a w' ↦ f a ch w' | err e w' ↦ err e w' ]

abbrev pub ◌>>◌ : {V B : Type 0} → Action V (Unit {0}) → Action V B → Action V B
m >> k = m >>= λ _. k

abbrev pub pure : {V A : Type 0} → A → Action V A
pure a ch w = ok a w

abbrev pub raise : {V A : Type 0} → MuxError → Action V A
raise e ch w = err e w

-- `self.field`, and `self.field = …`.
abbrev pub gets : {V A : Type 0} → (SessionLoop V → A) → Action V A
gets f ch w = ok (f w.session) w

abbrev pub modify : {V : Type 0} → (SessionLoop V → SessionLoop V) → Action V (Unit {0})
modify f ch w = ok tt (record w { session = f w.session })

abbrev pub emit : {V : Type 0} → Effect V → Action V (Unit {0})
emit e ch w = ok tt (record w { sent = e ∷ w.sent })

-- `uses_seq_remapping`
abbrev pub uses_seq_remapping : ClientRole → Bool
uses_seq_remapping role = is_editor role

abbrev pub breakpoint_snapshot_command : String
breakpoint_snapshot_command = "_dapBreakpointSnapshot"

-- The state that `start_session` begins with.
unfoldable pub start : {V : Type 0} → SessionLoop V
unfolding Cache.default Remapper.new
start = record {
  clients = [];
  secondary_pending = [];
  remapper = Remapper.new;
  backend_seq = 0;
  display_seq = 0;
  cache = Cache.default;
  next_client_id = 0;
}

-- `fetch_add(1, SeqCst) + 1` on an i64, which wraps.
abbrev pub next_i64 : ℕ → ℕ
next_i64 n = (n + 1) % 2 ^ 64

module _ {V : Type 0} where
  unfoldable pub next_backend_seq : Action V ℕ
  next_backend_seq ch w =
      let n = next_i64 w.session.backend_seq in
      ok n (record w { session = record w.session { backend_seq = n } })

  unfoldable pub next_display_seq : Action V ℕ
  next_display_seq ch w =
      let n = next_i64 w.session.display_seq in
      ok n (record w { session = record w.session { display_seq = n } })

  unfoldable pub publish : V → Action V (Unit {0})
  publish message ch w = if ltb 0 ch.receiver_count then emit (broadcast message) ch w else ok tt w

  unfoldable pub deliver_to_client : ClientId → V → Action V (Unit {0})
  deliver_to_client id message ch w = elim (HashMap.get w.session.clients id) [
    | none ↦ err client_not_found w
    | some role ↦
        if ch.client_open id then emit (deliver id message) ch w else err client_not_found w
  ]

  -- The loop over `&self.clients`, with the test that its body makes of the role.
  unfoldable pub deliver_to_each :
      (ClientRole → Bool) → HashMap ClientId ClientRole → V → Action V (Unit {0})
  deliver_to_each wanted [] message = pure tt
  deliver_to_each wanted ((id, role) ∷ rest) message = do
    if wanted role then deliver_to_client id message else pure tt
    deliver_to_each wanted rest message

  unfoldable pub deliver_to_role : ClientRole → V → Action V (Unit {0})
  deliver_to_role role message = do
    clients ← gets (λ s. s.clients)
    deliver_to_each (λ r. same_role r role) clients message
