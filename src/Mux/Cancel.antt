-- ===== src/Mux/Cancel.antt =====
-- crates/protocol-mux/src/cancel.rs. The request is changed in place, so it is a result too.
use dappy_core.Common.{ℕ, Bool, Option, false, none, some}
use dappy_core.Json.{Json}
use dappy_core.Mux.Message.{cancel_request_id, set_cancel_request_id}
use dappy_core.Mux.Remapper.{MessageRemapper, lookup_backend}
pub mod Laws

module _ {V : Type 0} ⦃J : Json V⦄ where
  -- The request after `cancel_request_id`, and the id that it found.
  translate_found : V × Option ℕ → MessageRemapper → V × Bool
  translate_found (request, none) remapper = (request, false)
  translate_found (request, some referenced) remapper = elim (lookup_backend remapper referenced) [
    | none ↦ (request, false)
    | some backend ↦ set_cancel_request_id request backend
  ]

  unfoldable pub translate_cancel : V → MessageRemapper → V × Bool
  unfolding translate_found
  translate_cancel request remapper = translate_found (cancel_request_id request) remapper
