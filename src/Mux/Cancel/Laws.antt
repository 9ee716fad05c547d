-- ===== src/Mux/Cancel/Laws.antt =====
-- What crates/protocol-mux/src/cancel.rs does to a request.
use dappy_core.Common.{unwrap_or, is_some, ℕ, Bool, false, Option, none, some, ◌≡◌, refl, arith}
use dappy_core.Json.{Json}
use dappy_core.Mux.Message.Laws.{
  cancel_id, cancel_request_id-none, cancel_request_id-keeps, cancel_request_id-result,
  cancel_id-set_cancel_request_id,
}
use dappy_core.Mux.Message.{cancel_request_id, command, seq}
use dappy_core.Mux.Remapper.{MessageRemapper, lookup_backend}
use dappy_core.Mux.Cancel.{translate_cancel}

-- The number that a `cancel` should name upstream: that of the request in flight with the client's
-- number, or the number as it is where no such request is known.
abbrev pub upstream_id : MessageRemapper → Option ℕ → Option ℕ
upstream_id r none = none
upstream_id r (some id) = some (unwrap_or (lookup_backend r id) id)

abbrev pub is_known : MessageRemapper → Option ℕ → Bool
is_known r none = false
is_known r (some id) = is_some (lookup_backend r id)

module _ {V : Type 0} ⦃J : Json V⦄ where
  translate_cancel-cases :
      (request : V) (r : MessageRemapper) (o : Option ℕ)
      → cancel_id request ≡ o
      → (cancel_id (translate_cancel request r).0 ≡ upstream_id r o)
        × ((translate_cancel request r).1 ≡ is_known r o)
        × (seq (translate_cancel request r).0 ≡ seq request)
        × (command (translate_cancel request r).0 ≡ command request)
  unfolding translate_cancel
  translate_cancel-cases request r none e =
      rw (cancel_request_id-none request e) (e, refl, refl, refl)
  translate_cancel-cases request r (some id) e =
      let (kept, kept_seq, kept_command) = cancel_request_id-keeps request in
      ground (
        arith,
        cancel_request_id-result request,
        kept,
        kept_seq,
        kept_command,
        cancel_id-set_cancel_request_id (cancel_request_id request).0
            (unwrap_or (lookup_backend r id) id) id,
      )

  -- On every request: the upstream sees a `cancel` of the number it knows, and the same sequence
  -- number and command; the call answers whether the number was known.
  pub translate_cancel_lem :
      (request : V) (r : MessageRemapper)
      → (cancel_id (translate_cancel request r).0 ≡ upstream_id r (cancel_id request))
        × ((translate_cancel request r).1 ≡ is_known r (cancel_id request))
        × (seq (translate_cancel request r).0 ≡ seq request)
        × (command (translate_cancel request r).0 ≡ command request)
  translate_cancel_lem request r = translate_cancel-cases request r (cancel_id request) refl
