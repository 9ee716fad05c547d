-- ===== src/Mux/Session/Invariant.antt =====
-- What holds between the tables of the multiplex loop (crates/protocol-mux/src/session.rs), and the
-- changes that its methods make to them.
use dappy_core.Common.{ℕ, ◌<◌, ◌≡◌, refl, none, some, arith, nat_eq, string_eq}
use dappy_core.Common.HashMap
use dappy_core.Mux.Client.{ClientRole, ClientId}
use dappy_core.Mux.Cache.{LateJoinCache}
use dappy_core.Mux.Cache.Laws.{IsTracked, default-IsTracked}
use dappy_core.Mux.Remapper.{lookup_client, lookup_backend}
use dappy_core.Mux.Remapper
use dappy_core.Mux.Remapper.Laws.{
  IsConsistent, new-IsConsistent, map-IsConsistent, unmap-IsConsistent, lookup_client-map,
  lookup_client-unmap,
}
use dappy_core.Mux.Session.{SessionLoop, start}

-- Numbers in use were given out; a response has at most one taker; the remapper's two maps agree; the
-- breakpoint ids are in step; ids in use were given out; and no client is entered twice.
pub record IsWellFormed {V : Type 0} (s : SessionLoop V) : Type 0 where
  pub fresh_editor : (b : ℕ) → s.backend_seq < b → lookup_client s.remapper b ≡ none
  pub fresh_secondary : (b : ℕ) → s.backend_seq < b → HashMap.get s.secondary_pending b ≡ none
  pub one_taker :
      (b c : ℕ) → lookup_client s.remapper b ≡ some c → HashMap.get s.secondary_pending b ≡ none
  pub consistent : IsConsistent s.remapper
  pub tracked : IsTracked s.cache
  pub fresh_client : (id : ℕ) → s.next_client_id < id → HashMap.get s.clients id ≡ none
  pub one_entry : HashMap.IsMap s.clients

pub start-IsWellFormed : (V : Type 0) → IsWellFormed (start {V = V})
unfolding start HashMap.get lookup_client
start-IsWellFormed V = record {
  fresh_editor = λ b h. refl;
  fresh_secondary = λ b h. refl;
  one_taker = λ b c h. refl;
  consistent = new-IsConsistent;
  tracked = default-IsTracked V;
  fresh_client = λ id h. refl;
  one_entry = tt;
}

module _ {V : Type 0} (s : SessionLoop V) (v : IsWellFormed s) where
  -- A number of its own for an editor's request.
  pub editor_request-IsWellFormed :
      (client_seq n : ℕ) (cache : LateJoinCache V)
      → s.backend_seq < n
      → IsTracked cache
      → IsWellFormed (record s {
        backend_seq = n;
        remapper = Remapper.map s.remapper client_seq n;
        cache = cache;
      })
  editor_request-IsWellFormed c n cache h tr = record {
    fresh_editor = λ b g. ground (arith, lookup_client-map s.remapper c n b, v.fresh_editor b);
    fresh_secondary = λ b g. v.fresh_secondary b (omega arith);
    one_taker = λ b d e.
        ground (arith, lookup_client-map s.remapper c n b, v.one_taker b d, v.fresh_secondary b);
    consistent = map-IsConsistent s.remapper c n (v.fresh_editor n h) v.consistent;
    tracked = tr;
    fresh_client = v.fresh_client;
    one_entry = v.one_entry;
  }

  -- A number of its own for the request of another client.
  pub secondary_request-IsWellFormed :
      (waiter : ClientId × ℕ) (n : ℕ) (cache : LateJoinCache V)
      → s.backend_seq < n
      → IsTracked cache
      → IsWellFormed (record s {
        backend_seq = n;
        secondary_pending = HashMap.insert s.secondary_pending n waiter;
        cache = cache;
      })
  secondary_request-IsWellFormed waiter n cache h tr = record {
    fresh_editor = λ b g. v.fresh_editor b (omega arith);
    fresh_secondary = λ b g.
        ground (arith, HashMap.get-insert s.secondary_pending n b waiter, v.fresh_secondary b);
    one_taker = λ b d e. ground (
      arith,
      HashMap.get-insert s.secondary_pending n b waiter,
      v.one_taker b d,
      v.fresh_editor b,
    );
    consistent = v.consistent;
    tracked = tr;
    fresh_client = v.fresh_client;
    one_entry = v.one_entry;
  }

  -- A response takes its number out of use.
  pub unmapped-IsWellFormed :
      (backend : ℕ) → IsWellFormed (record s { remapper = (Remapper.unmap s.remapper backend).1 })
  unmapped-IsWellFormed backend = record {
    fresh_editor =
        λ b g. ground (arith, lookup_client-unmap s.remapper backend b, v.fresh_editor b);
    fresh_secondary = v.fresh_secondary;
    one_taker = λ b d e. ground (arith, lookup_client-unmap s.remapper backend b, v.one_taker b d);
    consistent = unmap-IsConsistent s.remapper backend v.consistent;
    tracked = v.tracked;
    fresh_client = v.fresh_client;
    one_entry = v.one_entry;
  }

  pub answered-IsWellFormed :
      (backend : ℕ)
      → IsWellFormed (record s { secondary_pending = HashMap.remove s.secondary_pending backend })
  answered-IsWellFormed backend = record {
    fresh_editor = v.fresh_editor;
    fresh_secondary = λ b g.
        ground (arith, HashMap.get-remove s.secondary_pending backend b, v.fresh_secondary b);
    one_taker =
        λ b d e. ground (arith, HashMap.get-remove s.secondary_pending backend b, v.one_taker b d);
    consistent = v.consistent;
    tracked = v.tracked;
    fresh_client = v.fresh_client;
    one_entry = v.one_entry;
  }

  pub cache-IsWellFormed :
      (cache : LateJoinCache V) → IsTracked cache → IsWellFormed (record s { cache = cache })
  cache-IsWellFormed cache tr = record {
    fresh_editor = v.fresh_editor;
    fresh_secondary = v.fresh_secondary;
    one_taker = v.one_taker;
    consistent = v.consistent;
    tracked = tr;
    fresh_client = v.fresh_client;
    one_entry = v.one_entry;
  }

  pub display-IsWellFormed : (n : ℕ) → IsWellFormed (record s { display_seq = n })
  display-IsWellFormed n = record {
    fresh_editor = v.fresh_editor;
    fresh_secondary = v.fresh_secondary;
    one_taker = v.one_taker;
    consistent = v.consistent;
    tracked = v.tracked;
    fresh_client = v.fresh_client;
    one_entry = v.one_entry;
  }

  pub attached-IsWellFormed :
      (id : ClientId) (role : ClientRole)
      → s.next_client_id < id
      → IsWellFormed (record s { next_client_id = id; clients = HashMap.insert s.clients id role })
  attached-IsWellFormed id role h = record {
    fresh_editor = v.fresh_editor;
    fresh_secondary = v.fresh_secondary;
    one_taker = v.one_taker;
    consistent = v.consistent;
    tracked = v.tracked;
    fresh_client = λ j g. ground (arith, HashMap.get-insert s.clients id j role, v.fresh_client j);
    one_entry = HashMap.insert-IsMap s.clients id role v.one_entry;
  }

  pub detached-IsWellFormed :
      (id : ClientId) → IsWellFormed (record s { clients = HashMap.remove s.clients id })
  detached-IsWellFormed id = record {
    fresh_editor = v.fresh_editor;
    fresh_secondary = v.fresh_secondary;
    one_taker = v.one_taker;
    consistent = v.consistent;
    tracked = v.tracked;
    fresh_client = λ j g. ground (arith, HashMap.get-remove s.clients id j, v.fresh_client j);
    one_entry = HashMap.remove-IsMap s.clients id v.one_entry;
  }
