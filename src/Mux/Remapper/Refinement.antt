-- ===== src/Mux/Remapper/Refinement.antt =====
-- The requests in flight behind crates/protocol-mux/src/remapper.rs: an abstract table, beside
-- the two maps.
use dappy_core.Common.HashMap
use dappy_core.Common.{
  ℕ, ◌≡◌, refl, sym, ap, ◌∙◌, ◌≢◌, inl, inr, Option, none, some, List, [], ◌∷◌, arith,
  if◌then◌else◌, Bool-cases, ◌==◌, nat_eq, Option-cases,
}
use dappy_core.Mux.Remapper.{MessageRemapper, new, map, unmap, lookup_backend, lookup_client}
use dappy_core.Mux.Remapper.Laws.{
  lookup_client-map, lookup_backend-map, unmap-result, lookup_client-unmap, lookup_backend-unmap,
  unmap-none,
}

-- A request in flight: its upstream number, and the number that its client gave it.
abbrev pub Table : Type 0
Table = List (ℕ × ℕ)

abbrev pub client_of : Table → ℕ → Option ℕ
client_of [] b = none
client_of ((d, c) ∷ p) b = if d == b then some c else client_of p b

abbrev pub backend_of : Table → ℕ → Option ℕ
backend_of [] c = none
backend_of ((b, e) ∷ p) c = if e == c then some b else backend_of p c

abbrev pub without : Table → ℕ → Table
without [] b = []
without ((d, c) ∷ p) b = let rest = without p b in if d == b then rest else (d, c) ∷ rest

-- A request that goes upstream, or an answer that comes back.
pub data Use : Type 0 where
  opens : ℕ → ℕ → Use
  closes : ℕ → Use

-- What an answer finds, and the table behind a use.
abbrev pub table_step : Table → Use → Option ℕ × Table
table_step p (opens c b) = (none, (b, c) ∷ p)
table_step p (closes b) = (client_of p b, without p b)

abbrev pub remapper_step : MessageRemapper → Use → Option ℕ × MessageRemapper
remapper_step r (opens c b) = (none, map r c b)
remapper_step r (closes b) = unmap r b

abbrev pub table_run : Table → List Use → List (Option ℕ) × Table
table_run p [] = ([], p)
table_run p (u ∷ us) =
    ((table_step p u).0 ∷ (table_run (table_step p u).1 us).0, (table_run (table_step p u).1 us).1)

abbrev pub remapper_run : MessageRemapper → List Use → List (Option ℕ) × MessageRemapper
remapper_run r [] = ([], r)
remapper_run r (u ∷ us) = (
  (remapper_step r u).0 ∷ (remapper_run (remapper_step r u).1 us).0,
  (remapper_run (remapper_step r u).1 us).1,
)

-- A request is opened with numbers that no request in flight has.
abbrev pub IsFree : Table → Use → Type 0
IsFree p (opens c b) = (client_of p b ≡ none) × (backend_of p c ≡ none)
IsFree p (closes b) = Unit

abbrev pub AreFree : Table → List Use → Type 0
AreFree p [] = Unit
AreFree p (u ∷ us) = IsFree p u × AreFree (table_step p u).1 us

-- No two requests in flight share a number.
abbrev pub Apart : Table → Type 0
Apart [] = Unit
Apart ((b, c) ∷ p) = (client_of p b ≡ none) × (backend_of p c ≡ none) × Apart p

client_of-without :
    (p : Table) (b j : ℕ) → client_of (without p b) j ≡ (if b == j then none else client_of p j)
client_of-without [] b j = ground arith
client_of-without ((d, c) ∷ p) b j = ground (arith, client_of-without p b j)

without-none : (p : Table) (b : ℕ) → client_of p b ≡ none → without p b ≡ p
without-none [] b h = refl
without-none ((d, c) ∷ p) b h = ground (arith, without-none p b)

-- A request in flight is found by both numbers.
backend_of-known : (p : Table) (b c : ℕ) → client_of p b ≡ some c → backend_of p c ≢ none
backend_of-known [] b c h = λ e. cc
backend_of-known ((d, e) ∷ p) b c h = ground (arith, backend_of-known p b c)

backend_of-without-none :
    (p : Table) (b c : ℕ) → backend_of p c ≡ none → backend_of (without p b) c ≡ none
backend_of-without-none [] b c h = refl
backend_of-without-none ((d, e) ∷ p) b c h = ground (arith, backend_of-without-none p b c)

backend_of-without :
    (p : Table) (b c j : ℕ)
    → Apart p
    → client_of p b ≡ some c
    → backend_of (without p b) j ≡ (if c == j then none else backend_of p j)
backend_of-without [] b c j a h = cc
backend_of-without ((d, e) ∷ p) b c j a h =
    ground (arith, backend_of-without p b c j a.2, without-none p b, backend_of-known p b c)

without-Apart : (p : Table) (b : ℕ) → Apart p → Apart (without p b)
without-Apart [] b a = tt
without-Apart ((d, c) ∷ p) b a = elim (Bool-cases (d == b)) [
  | inl e ↦ rw e (without-Apart p b a.2)
  | inr e ↦ rw e (
    ground (arith, client_of-without p b d),
    backend_of-without-none p b c a.1,
    without-Apart p b a.2,
  )
]

-- The maps answer every question as the table does.
pub record Implements (r : MessageRemapper) (p : Table) : Type 0 where
  pub clients : (b : ℕ) → lookup_client r b ≡ client_of p b
  pub backends : (c : ℕ) → lookup_backend r c ≡ backend_of p c
  pub apart : Apart p

abbrev pub Simulates : MessageRemapper → Table → Use → Type 0
Simulates r p u =
    ((remapper_step r u).0 ≡ (table_step p u).0)
    × Implements (remapper_step r u).1 (table_step p u).1

opens-Simulates :
    (r : MessageRemapper) (p : Table) (c b : ℕ)
    → Implements r p
    → IsFree p (opens c b)
    → Simulates r p (opens c b)
opens-Simulates r p c b v free = (
  refl,
  record {
    clients = λ j. ground (arith, lookup_client-map r c b j, v.clients j);
    backends = λ j. ground (arith, lookup_backend-map r c b j, v.backends j);
    apart = (free.0, free.1, v.apart);
  },
)

closes-backends :
    (r : MessageRemapper) (p : Table) (b j : ℕ)
    → Implements r p
    → lookup_backend (unmap r b).1 j ≡ backend_of (without p b) j
closes-backends r p b j v = elim (Option-cases (lookup_client r b)) [
  | inl idle ↦
      ap (λ (m : MessageRemapper). lookup_backend m j) (unmap-none r b idle)
      ∙ v.backends j
      ∙ ap (λ (t : Table). backend_of t j) (sym (without-none p b (sym (v.clients b) ∙ idle)))
  | inr (c, busy) ↦
      lookup_backend-unmap r b c j busy
      ∙ ap (λ (o : Option ℕ). if c == j then none else o) (v.backends j)
      ∙ sym (backend_of-without p b c j v.apart (sym (v.clients b) ∙ busy))
]

closes-Simulates :
    (r : MessageRemapper) (p : Table) (b : ℕ) → Implements r p → Simulates r p (closes b)
closes-Simulates r p b v = (
  unmap-result r b ∙ v.clients b,
  record {
    clients = λ j. ground (arith, lookup_client-unmap r b j, client_of-without p b j, v.clients j);
    backends = λ j. closes-backends r p b j v;
    apart = without-Apart p b v.apart;
  },
)

pub step-Simulates :
    (r : MessageRemapper) (p : Table) (u : Use) → Implements r p → IsFree p u → Simulates r p u
step-Simulates r p (opens c b) v free = opens-Simulates r p c b v free
step-Simulates r p (closes b) v free = closes-Simulates r p b v

run-refines :
    (r : MessageRemapper) (p : Table) (us : List Use)
    → Implements r p
    → AreFree p us
    → ((remapper_run r us).0 ≡ (table_run p us).0)
      × Implements (remapper_run r us).1 (table_run p us).1
run-refines r p [] v free = (refl, v)
run-refines r p (u ∷ us) v free =
    let (answer, w) = step-Simulates r p u v free.0 in
    let (answers, x) = run-refines (remapper_step r u).1 (table_step p u).1 us w free.1 in
    (ground (arith, answer, answers), x)

new-Implements : Implements new []
unfolding new lookup_client lookup_backend HashMap.get
new-Implements = record { clients = λ b. refl; backends = λ c. refl; apart = tt }

-- The remapper implements the table of requests in flight: as long as each request is opened with numbers
-- that none in flight has, every answer finds what the table holds for it, and then both maps find exactly
-- what the table holds.
pub remapper_run-refines :
    (us : List Use)
    → AreFree [] us
    → ((remapper_run new us).0 ≡ (table_run [] us).0)
      × Implements (remapper_run new us).1 (table_run [] us).1
remapper_run-refines us free = run-refines new [] us new-Implements free
