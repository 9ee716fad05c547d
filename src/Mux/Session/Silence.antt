-- ===== src/Mux/Session/Silence.antt =====
-- The sends of crates/protocol-mux/src/session.rs leave the session as it was, whether they succeed or
-- fail; and a rule for a property that the parts of an action keep.
use dappy_core.Common.{if_keeps, ◌≡◌, refl, ◌∙◌, Bool, [], ◌∷◌, arith, nat_eq, string_eq}
use dappy_core.Common.HashMap.{HashMap}
use dappy_core.Mux.Client.{same_role, ClientRole, ClientId}
use dappy_core.Mux.Session.{
  world_of, pure, Channels, Action, World, Outcome, ok, err, ◌>>=◌, publish, deliver_to_client,
  deliver_to_each, deliver_to_role,
}

-- An action that changes no field of the session.
pub record IsSilent {V A : Type 0} (m : Action V A) : Type 0 where
  pub same : (ch : Channels) (w : World V) → (world_of (m ch w)).session ≡ w.session

module _ {V : Type 0} where
  pub publish-IsSilent : (message : V) → IsSilent (publish message)
  unfolding publish
  publish-IsSilent message = record { same = λ ch w. ground arith }

  pub deliver_to_client-IsSilent :
      (id : ClientId) (message : V) → IsSilent (deliver_to_client id message)
  unfolding deliver_to_client
  deliver_to_client-IsSilent id message = record { same = λ ch w. ground arith }

  after_bind :
      {A B : Type 0} (r : Outcome V A) (f : A → Action V B) (ch : Channels) (w : World V)
      → (world_of r).session ≡ w.session
      → ((a : A) → IsSilent (f a))
      → (world_of (elim r [ ok a w' ↦ f a ch w' | err e w' ↦ err e w' ])).session ≡ w.session
  after_bind (ok a w') f ch w h hf = (hf a).same ch w' ∙ h
  after_bind (err e w') f ch w h hf = h

  pub bind-IsSilent :
      {A B : Type 0} (m : Action V A) (f : A → Action V B)
      → IsSilent m
      → ((a : A) → IsSilent (f a))
      → IsSilent (m >>= f)
  bind-IsSilent m f hm hf = record { same = λ ch w. after_bind (m ch w) f ch w (hm.same ch w) hf }

  pub pure-IsSilent : {A : Type 0} (a : A) → IsSilent (pure {V = V} a)
  pure-IsSilent a = record { same = λ ch w. refl }

  pub deliver_to_each-IsSilent :
      (wanted : ClientRole → Bool) (clients : HashMap ClientId ClientRole) (message : V)
      → IsSilent (deliver_to_each wanted clients message)
  unfolding deliver_to_each
  deliver_to_each-IsSilent wanted [] message = pure-IsSilent tt
  deliver_to_each-IsSilent wanted ((id, role) ∷ rest) message =
      bind-IsSilent _ _
        (if_keeps IsSilent (wanted role) _ _ (deliver_to_client-IsSilent id message)
          (pure-IsSilent tt))
        (λ _. deliver_to_each-IsSilent wanted rest message)

  pub deliver_to_role-IsSilent :
      (role : ClientRole) (message : V) → IsSilent (deliver_to_role role message)
  unfolding deliver_to_role
  deliver_to_role-IsSilent role message = record {
    same = λ ch w.
        (deliver_to_each-IsSilent (λ r. same_role r role) w.session.clients message).same ch w;
  }
