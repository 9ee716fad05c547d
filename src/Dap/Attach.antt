-- ===== src/Dap/Attach.antt =====
-- The defaults of a target that go into the requests to attach or launch (crates/dap-core/src/rsp_target.rs),
-- and the loop of crates/dap-core/src/mux_bridge.rs that sends what the multiplexer forwards to the adapter.
-- The value is serde_json's enum, as Json.Plain has it; what serde makes of a message is a parameter.
use dappy_core.Common.{
  ℕ, zero, suc, String, ◌≡◌, refl, sym, ap, ◌∙◌, subst, ◌⊎◌, inl, inr, true, ◌||◌, Option, none,
  some, List, [], ◌∷◌, if◌then◌else◌, Bool-cases, ◌==◌, nat_eq, string_eq, ==-eq, unwrap_or,
  or_else, Option-cases,
}
use dappy_core.Common.Text.{Text, codes, same_text}
use dappy_core.Json.Plain.{
  Value, null, bool, number, text, array, object, Fields, end, field, get_field, get_value,
  insert_value, get_value-insert, is_object_value, is_object-insert_value,
}
use dappy_core.Wire.Message.{Request, Message, request_message, response_message, event_message}
use dappy_core.Plugin.Launch.Merging.{HasDistinctKeys}

-- `entry(key).or_insert(value)` for each of the defaults.
abbrev pub add_missing : Value → Fields → Value
add_missing client end = client
add_missing client (field k v fs) =
    add_missing (elim (get_value client k) [ none ↦ insert_value client k v | some w ↦ client ]) fs

abbrev pub merge_into : Value → Fields → Value
merge_into (object cs) defaults = add_missing (object cs) defaults
merge_into null defaults = object defaults
merge_into (bool b) defaults = insert_value (object defaults) "extra" (bool b)
merge_into (number n) defaults = insert_value (object defaults) "extra" (number n)
merge_into (text s) defaults = insert_value (object defaults) "extra" (text s)
merge_into (array items) defaults = insert_value (object defaults) "extra" (array items)

unfoldable pub merge_default_attach_arguments : Value → Value → Value
merge_default_attach_arguments client (object defaults) = merge_into client defaults
merge_default_attach_arguments client null = client
merge_default_attach_arguments client (bool b) = client
merge_default_attach_arguments client (number n) = client
merge_default_attach_arguments client (text s) = client
merge_default_attach_arguments client (array items) = client

unfoldable pub merge_debug_request_arguments : Message Value → Value → Message Value
unfolding merge_default_attach_arguments
merge_debug_request_arguments (request_message r) defaults =
    if same_text r.command (codes "attach") || same_text r.command (codes "launch")
    then request_message (record r {
      arguments =
          some (merge_default_attach_arguments (unwrap_or r.arguments (object end)) defaults);
    })
    else request_message r
merge_debug_request_arguments (response_message r) defaults = response_message r
merge_debug_request_arguments (event_message e) defaults = event_message e

-- How the loop ends: by its channel or the shutdown, after which the adapter is asked to disconnect, or by an
-- error.
pub data ForwardEnding : Type 0 where
  asks_disconnect fails_with_error : ForwardEnding

abbrev pub outbound : Option Value → Message Value → Message Value
outbound none m = m
outbound (some defaults) m = merge_debug_request_arguments m defaults

-- `mux_to_backend`, over what the multiplexer sends until its channel closes or the shutdown is picked. The
-- adapter takes `accepts` messages before its end is gone.
unfoldable pub mux_to_backend :
    {V : Type 0}
    → (V → Option (Message Value))
    → Option Value
    → ℕ
    → List V
    → List (Message Value) × ForwardEnding
unfolding merge_debug_request_arguments
mux_to_backend value_to_message defaults accepts [] = ([], asks_disconnect)
mux_to_backend value_to_message defaults zero (v ∷ vs) = ([], fails_with_error)
mux_to_backend value_to_message defaults (suc accepts) (v ∷ vs) =
    let rest = mux_to_backend value_to_message defaults accepts vs in
    elim (value_to_message v) [
      | none ↦ ([], fails_with_error)
      | some m ↦ (outbound defaults m ∷ rest.0, rest.1)
    ]

or_else-none : (o : Option Value) → or_else o none ≡ o
or_else-none none = refl
or_else-none (some v) = refl

get_value-add_missing :
    (fs : Fields) (client : Value) (k : String)
    → is_object_value client ≡ true
    → HasDistinctKeys fs
    → get_value (add_missing client fs) k ≡ or_else (get_value client k) (get_field fs k)
get_value-add_missing end client k o h = sym (or_else-none (get_value client k))
get_value-add_missing (field j v fs) client k o (fresh, rest) =
    elim (Option-cases (get_value client j)) [
      | inl missing ↦ rw missing (
          get_value-add_missing fs (insert_value client j v) k (is_object-insert_value client j v o)
            rest
          ∙ ap (λ found. or_else found (get_field fs k)) (get_value-insert client j k v o)
          ∙ elim (Bool-cases (j == k)) [
            | inl e ↦
                let absent = subst (λ x. get_value client x ≡ none) (==-eq j k e) missing in
                rw (e, absent) refl
            | inr e ↦ rw e refl
          ])
      | inr (w, there) ↦ rw there (
          get_value-add_missing fs client k o rest ∙ elim (Bool-cases (j == k)) [
            | inl e ↦
                let present = subst (λ x. get_value client x ≡ some w) (==-eq j k e) there in
                rw (e, present) refl
            | inr e ↦ rw e refl
          ])
    ]

is_debug_request :
    (command : Text)
    → (command ≡ codes "attach") ⊎ (command ≡ codes "launch")
    → (same_text command (codes "attach") || same_text command (codes "launch")) ≡ true
is_debug_request command (inl e) = rw e refl
is_debug_request command (inr e) = rw e refl

-- A request to attach or launch whose arguments and defaults are objects is sent with arguments in which each
-- key has the value that the client gave, or else the default; everything else of it is as it was.
pub merge_debug_request_arguments-request :
    (r : Request Value) (cs ds : Fields)
    → (r.command ≡ codes "attach") ⊎ (r.command ≡ codes "launch")
    → r.arguments ≡ some (object cs)
    → HasDistinctKeys ds
    → (args : Value) × (merge_debug_request_arguments (request_message r) (object ds)
        ≡ request_message (record r { arguments = some args }))
      × ((k : String) → get_value args k ≡ or_else (get_field cs k) (get_field ds k))
unfolding merge_debug_request_arguments
merge_debug_request_arguments-request r cs ds which given h = (
  add_missing (object cs) ds,
  rw (is_debug_request r.command which) (
      ap
        (λ (o : Option Value). request_message (record r {
          arguments = some (merge_default_attach_arguments (unwrap_or o (object end)) (object ds));
        }))
        given),
  λ k. get_value-add_missing ds (object cs) k refl h,
)
