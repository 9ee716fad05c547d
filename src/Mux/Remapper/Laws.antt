-- ===== src/Mux/Remapper/Laws.antt =====
-- Laws of the two maps of crates/protocol-mux/src/remapper.rs.
use dappy_core.Common.{
  ℕ, Option-cases, inl, inr, ◌≡◌, none, some, arith, nat_eq, if◌then◌else◌, ◌==◌,
}
use dappy_core.Common.HashMap
use dappy_core.Common.HashMap.{get-insert, get-remove}
use dappy_core.Mux.Remapper.{MessageRemapper, new, map, unmap, lookup_backend, lookup_client}

-- Where the two maps agree: a client's entry points to a backend entry that points back.
pub record IsConsistent (r : MessageRemapper) : Type 0 where
  pub back : (c b : ℕ) → lookup_backend r c ≡ some b → lookup_client r b ≡ some c

pub new-IsConsistent : IsConsistent new
unfolding new lookup_backend HashMap.get
new-IsConsistent = record { back = λ c b h. cc }

pub lookup_client-map :
    (r : MessageRemapper) (c b j : ℕ)
    → lookup_client (map r c b) j ≡ (if b == j then some c else lookup_client r j)
unfolding lookup_client map
lookup_client-map r c b j = get-insert r.reverse b j c

pub lookup_backend-map :
    (r : MessageRemapper) (c b j : ℕ)
    → lookup_backend (map r c b) j ≡ (if c == j then some b else lookup_backend r j)
unfolding lookup_backend map
lookup_backend-map r c b j = get-insert r.forward c j b

pub unmap-result : (r : MessageRemapper) (b : ℕ) → (unmap r b).0 ≡ lookup_client r b
unfolding unmap lookup_client
unmap-result r b = ground arith

pub lookup_client-unmap :
    (r : MessageRemapper) (b j : ℕ)
    → lookup_client (unmap r b).1 j ≡ (if b == j then none else lookup_client r j)
unfolding lookup_client unmap
lookup_client-unmap r b j = ground (arith, get-remove r.reverse b j)

-- A backend number that is not in use keeps the maps consistent.
pub map-IsConsistent :
    (r : MessageRemapper) (c b : ℕ)
    → lookup_client r b ≡ none
    → IsConsistent r
    → IsConsistent (map r c b)
map-IsConsistent r c b fresh v = record {
  back = λ j d h. ground (arith, lookup_client-map r c b d, lookup_backend-map r c b j, v.back j d);
}

pub lookup_backend-unmap :
    (r : MessageRemapper) (b c j : ℕ)
    → lookup_client r b ≡ some c
    → lookup_backend (unmap r b).1 j ≡ (if c == j then none else lookup_backend r j)
unfolding lookup_client lookup_backend unmap
lookup_backend-unmap r b c j h = ground (arith, get-remove r.forward c j)

pub unmap-none : (r : MessageRemapper) (b : ℕ) → lookup_client r b ≡ none → (unmap r b).1 ≡ r
unfolding lookup_client unmap
unmap-none r b h = ground arith

pub unmap-IsConsistent : (r : MessageRemapper) (b : ℕ) → IsConsistent r → IsConsistent (unmap r b).1
unmap-IsConsistent r b v = elim (Option-cases (lookup_client r b)) [
  | inl idle ↦ rw (unmap-none r b idle) v
  | inr (c, busy) ↦ record {
    back = λ j d h.
        ground (arith, lookup_client-unmap r b d, lookup_backend-unmap r b c j busy, v.back j d);
  }
]
