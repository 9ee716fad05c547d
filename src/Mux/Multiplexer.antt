-- ===== src/Mux/Multiplexer.antt =====
-- The wrapper `Multiplexer` of crates/protocol-mux/src/session.rs, which keeps ids without the loop.
use dappy_core.Common.{
  ℕ, suc, ◌+◌, ◌%◌, ◌^◌, ◌≡◌, refl, ap, ◌∙◌, Option, none, some, [], ◌∷◌, arith, nat_eq, string_eq,
  ==-refl, length,
}
use dappy_core.Common.HashMap.{HashMap}
use dappy_core.Common.HashMap
use dappy_core.Mux.Client.{ClientRole, ClientId}
use dappy_core.Mux.Remapper.{MessageRemapper}
use dappy_core.Mux.Remapper

pub record Multiplexer : Type 0 where
  pub remapper : MessageRemapper
  pub next_client_id : ℕ
  pub clients : HashMap ClientId ClientRole

unfoldable pub new : Multiplexer
new = record { remapper = Remapper.new; next_client_id = 0; clients = [] }

unfoldable pub attach_client : Multiplexer → ClientRole → ClientId × Multiplexer
attach_client m role =
    let id = (m.next_client_id + 1) % 2 ^ 64 in
    (id, record m { next_client_id = id; clients = HashMap.insert m.clients id role })

unfoldable pub detach_client : Multiplexer → ClientId → Option ClientRole × Multiplexer
detach_client m id = (HashMap.get m.clients id, record m { clients = HashMap.remove m.clients id })

unfoldable pub client_count : Multiplexer → ℕ
client_count m = length m.clients

remove-absent :
    (m : HashMap ClientId ClientRole) (id : ClientId)
    → HashMap.get m id ≡ none
    → HashMap.remove m id ≡ m
unfolding HashMap.get HashMap.remove
remove-absent [] id h = refl
remove-absent ((j, role) ∷ m) id h = ground (arith, remove-absent m id)

-- Where the next id is free, a client that attaches is one more, and one that detaches again gives back
-- its role and leaves the table as it was.
pub attach_client-detach_client :
    (m : Multiplexer) (role : ClientRole)
    → HashMap.get m.clients ((m.next_client_id + 1) % 2 ^ 64) ≡ none
    → let (id, attached) = attach_client m role in
      let (found, after) = detach_client attached id in
      (client_count attached ≡ client_count m + 1)
      × (found ≡ some role)
      × (after.clients ≡ m.clients)
unfolding attach_client detach_client client_count HashMap.insert
attach_client-detach_client m role free =
    let id = (m.next_client_id + 1) % 2 ^ 64 in
    let same = remove-absent m.clients id free in
    (
      ap (λ l. suc (length l)) same ∙ omega arith,
      HashMap.get-insert m.clients id id role ∙ rw (==-refl id) refl,
      rw (==-refl id) (ap (λ l. HashMap.remove l id) same ∙ same),
    )
