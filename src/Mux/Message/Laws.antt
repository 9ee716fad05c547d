-- ===== src/Mux/Message/Laws.antt =====
-- What the accessors of crates/protocol-mux/src/message.rs read after the setters and builders.
use dappy_core.Common.{
  sym, ◌∙◌, none, if◌then◌else◌, is_text, Option, and_then, ℕ, String, ◌≢◌, Option-cases, inl, inr,
  ◌==◌, string_eq, true, false, some, ◌≡◌, refl, arith,
}
use dappy_core.Json.{Json}
use dappy_core.Mux.Message.{
  set_cancel_request_id, put_request_id, object_at, cancel_request_id, unknown_kind, message_kind,
  seq, set_seq, request_seq, set_request_seq, command,
}

module _ {V : Type 0} ⦃J : Json V⦄ where
  pub seq-set_seq : (v : V) (n : ℕ) → J.is_object v ≡ true → seq (set_seq v n) ≡ some n
  unfolding seq set_seq
  seq-set_seq v n o = rw (o, J.get-insert v "seq" "seq" (J.number n) o) (J.as_i64-number n)

  pub request_seq-set_request_seq :
      (v : V) (n : ℕ) → J.is_object v ≡ true → request_seq (set_request_seq v n) ≡ some n
  unfolding request_seq set_request_seq
  request_seq-set_request_seq v n o = ground (
    arith,
    J.is_object-remove v "requestSeq" o,
    J.get-remove v "requestSeq" "requestSeq" o,
    J.get-insert (J.remove v "requestSeq") "request_seq" "requestSeq" (J.number n),
    J.get-insert (J.remove v "requestSeq") "request_seq" "request_seq" (J.number n),
    J.as_i64-number n,
  )

  -- A message that has a kind is an object.
  pub is_object_of_kind : (v : V) → message_kind v ≢ unknown_kind → J.is_object v ≡ true
  unfolding message_kind
  is_object_of_kind v h = elim (Option-cases (J.get v "type")) [
    | inl missing ↦ absurd (h (rw missing refl))
    | inr (x, e) ↦ J.is_object-get v "type" x e
  ]

  -- A setter of a number leaves every other field as it was.
  pub get-set_seq :
      (v : V) (n : ℕ) (k : String) → ("seq" == k) ≡ false → J.get (set_seq v n) k ≡ J.get v k
  unfolding set_seq
  get-set_seq v n k h = ground (arith, J.get-insert v "seq" k (J.number n))

  pub get-set_request_seq :
      (v : V) (n : ℕ) (k : String)
      → ("request_seq" == k) ≡ false
      → ("requestSeq" == k) ≡ false
      → J.get (set_request_seq v n) k ≡ J.get v k
  unfolding set_request_seq
  get-set_request_seq v n k h g = ground (
    arith,
    J.is_object-remove v "requestSeq",
    J.get-remove v "requestSeq" k,
    J.get-insert (J.remove v "requestSeq") "request_seq" k (J.number n),
  )

  pub is_object-set_seq : (v : V) (n : ℕ) → J.is_object v ≡ true → J.is_object (set_seq v n) ≡ true
  unfolding set_seq
  is_object-set_seq v n o = rw o (J.is_object-insert v "seq" (J.number n) o)

  pub is_object-set_request_seq :
      (v : V) (n : ℕ) → J.is_object v ≡ true → J.is_object (set_request_seq v n) ≡ true
  unfolding set_request_seq
  is_object-set_request_seq v n o =
      rw o (J.is_object-insert _ "request_seq" (J.number n) (J.is_object-remove v "requestSeq" o))

  pub message_kind-set_seq : (v : V) (n : ℕ) → message_kind (set_seq v n) ≡ message_kind v
  unfolding message_kind
  message_kind-set_seq v n = rw (get-set_seq v n "type" refl)

  pub request_seq-set_seq : (v : V) (n : ℕ) → request_seq (set_seq v n) ≡ request_seq v
  unfolding request_seq
  request_seq-set_seq v n =
      rw (get-set_seq v n "requestSeq" refl, get-set_seq v n "request_seq" refl)

  pub command-set_seq : (v : V) (n : ℕ) → command (set_seq v n) ≡ command v
  unfolding command
  command-set_seq v n = rw (get-set_seq v n "command" refl)

  pub object_at-eq_some :
      (v : V) (k : String) (x : V)
      → object_at v k ≡ some x
      → (J.get v k ≡ some x) × (J.is_object x ≡ true)
  object_at-eq_some v k x h = ground arith

  -- A request whose id is written holds that id, and keeps its other fields.
  pub object_at-put_request_id :
      (v args : V) (id : ℕ)
      → object_at v "arguments" ≡ some args
      → object_at (put_request_id v args id) "arguments"
        ≡ some (J.insert args "requestId" (J.number id))
  unfolding put_request_id
  object_at-put_request_id v args id h =
      let (e, o) = object_at-eq_some v "arguments" args h in
      let new = J.insert args "requestId" (J.number id) in
      ground (
        arith,
        J.get-insert v "arguments" "arguments" new (J.is_object-get v "arguments" args e),
        J.is_object-insert args "requestId" (J.number id) o,
      )

  pub get-put_request_id :
      (v args : V) (id : ℕ) (k : String)
      → object_at v "arguments" ≡ some args
      → ("arguments" == k) ≡ false
      → J.get (put_request_id v args id) k ≡ J.get v k
  unfolding put_request_id
  get-put_request_id v args id k h ne =
      let (e, o) = object_at-eq_some v "arguments" args h in
      rw (J.get-insert v "arguments" k _ (J.is_object-get v "arguments" args e), ne) refl

  pub command-put_request_id :
      (v args : V) (id : ℕ)
      → object_at v "arguments" ≡ some args
      → command (put_request_id v args id) ≡ command v
  unfolding command
  command-put_request_id v args id h = rw (get-put_request_id v args id "command" h refl)

  pub seq-put_request_id :
      (v args : V) (id : ℕ)
      → object_at v "arguments" ≡ some args
      → seq (put_request_id v args id) ≡ seq v
  unfolding seq
  seq-put_request_id v args id h = rw (get-put_request_id v args id "seq" h refl)

  pub get-put_request_id_self :
      (args : V) (id : ℕ)
      → J.is_object args ≡ true
      → and_then (J.get (J.insert args "requestId" (J.number id)) "requestId") J.as_i64 ≡ some id
  get-put_request_id_self args id o =
      rw (J.get-insert args "requestId" "requestId" (J.number id) o) (J.as_i64-number id)

  -- The id of a `cancel` request, if it names one: read without a change.
  unfoldable pub cancel_id : V → Option ℕ
  cancel_id v =
      if is_text (command v) "cancel"
      then and_then (object_at v "arguments") (λ args. and_then (J.get args "requestId") J.as_i64)
      else none

  pub cancel_request_id-result : (v : V) → (cancel_request_id v).1 ≡ cancel_id v
  unfolding cancel_request_id cancel_id
  cancel_request_id-result v = grind (arith, J.as_i64-number)

  pub cancel_id-eq_some :
      (v : V) (id : ℕ)
      → cancel_id v ≡ some id
      → (is_text (command v) "cancel" ≡ true)
        × ((args : V) × (object_at v "arguments" ≡ some args)
            × (and_then (J.get args "requestId") J.as_i64 ≡ some id))
  unfolding cancel_id
  cancel_id-eq_some v id h = elim (Option-cases (object_at v "arguments")) [
    | inl e ↦ absurd (ground arith)
    | inr (args, e) ↦ (ground arith, (args, e, ground arith))
  ]

  -- What `set_cancel_request_id` writes is what is read back, and it says whether it wrote.
  pub cancel_id-set_cancel_request_id :
      (v : V) (id old : ℕ)
      → cancel_id v ≡ some old
      → (cancel_id (set_cancel_request_id v id).0 ≡ some id)
        × ((set_cancel_request_id v id).1 ≡ true)
        × (seq (set_cancel_request_id v id).0 ≡ seq v)
        × (command (set_cancel_request_id v id).0 ≡ command v)
  unfolding set_cancel_request_id cancel_id
  cancel_id-set_cancel_request_id v id old h =
      let (c, (args, o, _)) = cancel_id-eq_some v old h in
      let (_, obj) = object_at-eq_some v "arguments" args o in
      ground (
        arith,
        command-put_request_id v args id o,
        seq-put_request_id v args id o,
        object_at-put_request_id v args id o,
        get-put_request_id_self args id obj,
      )

  pub cancel_request_id-none : (v : V) → cancel_id v ≡ none → cancel_request_id v ≡ (v, none)
  unfolding cancel_request_id cancel_id
  cancel_request_id-none v h = ground arith

  pub cancel_request_id-some :
      (v args : V) (id : ℕ)
      → is_text (command v) "cancel" ≡ true
      → object_at v "arguments" ≡ some args
      → and_then (J.get args "requestId") J.as_i64 ≡ some id
      → cancel_request_id v ≡ (put_request_id v args id, some id)
  unfolding cancel_request_id
  cancel_request_id-some v args id c o e = ground (arith, J.as_i64-number id)

  pub cancel_id-put_request_id :
      (v args : V) (id : ℕ)
      → is_text (command v) "cancel" ≡ true
      → object_at v "arguments" ≡ some args
      → cancel_id (put_request_id v args id) ≡ some id
  unfolding cancel_id
  cancel_id-put_request_id v args id c o =
      let (_, obj) = object_at-eq_some v "arguments" args o in
      ground (
        arith,
        command-put_request_id v args id o,
        object_at-put_request_id v args id o,
        get-put_request_id_self args id obj,
      )

  -- Reading the id leaves what the accessors see of the request as it was.
  pub cancel_request_id-keeps :
      (v : V)
      → (cancel_id (cancel_request_id v).0 ≡ cancel_id v)
        × (seq (cancel_request_id v).0 ≡ seq v)
        × (command (cancel_request_id v).0 ≡ command v)
  cancel_request_id-keeps v = elim (Option-cases (cancel_id v)) [
    | inl e ↦ rw (cancel_request_id-none v e) (refl, refl, refl)
    | inr (id, e) ↦
        let (c, (args, o, i)) = cancel_id-eq_some v id e in
        rw (cancel_request_id-some v args id c o i) (
          cancel_id-put_request_id v args id c o ∙ sym e,
          seq-put_request_id v args id o,
          command-put_request_id v args id o,
        )
  ]
