-- ===== src/Mux/Session/Preservation.antt =====
-- Every method of the multiplex loop (crates/protocol-mux/src/session.rs) keeps its invariant, on every
-- branch and also where it fails; and so does every run.
use dappy_core.Mux.Remapper.{lookup_client}
use dappy_core.Mux.Cache.{observe_response, is_request}
use dappy_core.Mux.Remapper
use dappy_core.Common.HashMap
use dappy_core.Mux.Message.{request_seq, command, MessageKind, message_kind, request, seq}
use dappy_core.Mux.Session.Upstream.{
  handle_response, broadcast_to_all, handle_upstream_message, handle_event, handle_kind,
  deliver_to_editor, route_secondary, route_response,
}
use dappy_core.Common.{
  ℕ, zero, suc, ◌+◌, ◌-◌, ◌*◌, ◌/◌, ◌%◌, ◌^◌, ◌≤◌, ◌<◌, String, ◌≡◌, refl, sym, ap, ◌∙◌, subst, ◌≢◌,
  ◌↔◌, ◌⊎◌, inl, inr, Bool, true, false, not, ◌&&◌, ◌||◌, Option, none, some, List, [], ◌∷◌, ◌++◌,
  map, arith, eq_iff, ltb, leb, if◌then◌else◌, Bool-cases, Eq, ◌==◌, nat_eq, string_eq, ==-refl,
  ==-eq, and_then, unwrap_or, or_else, is_some, Option-cases, is_text, is_true, is_false, length,
  get_elem?, set, remove_at, filter_map, find_map, if_keeps, match_keeps,
}
use dappy_core.Json.{Json}
use dappy_core.Mux.Client.{is_control, editor, ClientRole, ClientId}
use dappy_core.Mux.Cache.Laws.{
  observe-IsTracked, observe_response-IsTracked, observe_client_request-IsTracked,
}
use dappy_core.Mux.Session.{
  world_of, err, breakpoint_snapshot_command, ok, Outcome, uses_seq_remapping, deliver_to_role,
  publish, SessionLoop, Action, World, Channels, ◌>>=◌, next_backend_seq, next_display_seq,
  deliver_to_client,
}
use dappy_core.Mux.Session.Client.{
  remap_request, handle_client_message, send_upstream, serve_snapshot, remap_editor,
  remap_secondary,
}
use dappy_core.Mux.Session.Silence.{
  deliver_to_role-IsSilent, publish-IsSilent, IsSilent, deliver_to_client-IsSilent,
}
use dappy_core.Mux.Session.Invariant.{
  cache-IsWellFormed, answered-IsWellFormed, unmapped-IsWellFormed, IsWellFormed,
  editor_request-IsWellFormed, secondary_request-IsWellFormed, display-IsWellFormed,
}
pub mod Clients
pub mod Upstream
pub mod Runs

-- A session that one method makes of another: well formed, with at most one more number and one more id
-- given out, in which every editor's request waits as before, unless its number is the one, `a`, that the
-- method's input answers.
pub record Follows {V : Type 0} (a : Option ℕ) (s s' : SessionLoop V) : Type 0 where
  pub valid : IsWellFormed s'
  pub numbers : s'.backend_seq ≤ s.backend_seq + 1
  pub ids : s'.next_client_id ≤ s.next_client_id + 1
  pub editor_waits :
      (b c : ℕ)
      → a ≢ some b
      → lookup_client s.remapper b ≡ some c
      → lookup_client s'.remapper b ≡ some c

-- An action that leads from `s` to such a session.
abbrev pub Leads :
    {V : Type 0} → Option ℕ → SessionLoop V → Channels → World V → Action V (Unit {0}) → Type 0
Leads a s ch w m = Follows a s (world_of (m ch w)).session

-- An outcome that leaves such a session.
abbrev pub Ends : {V : Type 0} → Option ℕ → SessionLoop V → Outcome V (Unit {0}) → Type 0
Ends a s o = Follows a s (world_of o).session

module _ {V : Type 0} where
  pub silent-Follows :
      {a : Option ℕ} (s : SessionLoop V) (m : Action V (Unit {0})) (ch : Channels) (w : World V)
      → IsSilent m
      → Follows a s w.session
      → Leads a s ch w m
  silent-Follows s m ch w q f = rw (q.same ch w) f

  pub same-Follows : {a : Option ℕ} (s : SessionLoop V) → IsWellFormed s → Follows a s s
  same-Follows s v = record {
    valid = v;
    numbers = omega arith;
    ids = omega arith;
    editor_waits = λ b c ne h. h;
  }

  pub send_upstream-IsSilent : ⦃J : Json V⦄ (message : V) → IsSilent (send_upstream message)
  unfolding send_upstream
  send_upstream-IsSilent message = record { same = λ ch w. ground arith }

pub next_lt : (n : ℕ) → n + 1 < 2 ^ 64 → (n < (n + 1) % 2 ^ 64) × ((n + 1) % 2 ^ 64 ≤ n + 1)
next_lt n h = omega arith
