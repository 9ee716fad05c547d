-- ===== src/Mux/Remapper.antt =====
-- crates/protocol-mux/src/remapper.rs. The mutex is held for the whole of each method, so a method is
-- one step on the two maps; a method that changes them returns them.
use dappy_core.Common.{ℕ, Option, none, some, [], nat_eq}
use dappy_core.Common.HashMap.{HashMap}
use dappy_core.Common.HashMap
pub mod Laws
pub mod Refinement

abbrev pub ClientSeq : Type 0
ClientSeq = ℕ

abbrev pub BackendSeq : Type 0
BackendSeq = ℕ

pub record MessageRemapper : Type 0 where
  pub forward : HashMap ClientSeq BackendSeq
  pub reverse : HashMap BackendSeq ClientSeq

unfoldable pub new : MessageRemapper
new = record { forward = []; reverse = [] }

unfoldable pub map : MessageRemapper → ClientSeq → BackendSeq → MessageRemapper
map r client_seq backend_seq = record {
  forward = HashMap.insert r.forward client_seq backend_seq;
  reverse = HashMap.insert r.reverse backend_seq client_seq;
}

unfoldable pub unmap : MessageRemapper → BackendSeq → Option ClientSeq × MessageRemapper
unmap r backend_seq = elim (HashMap.get r.reverse backend_seq) [
  | none ↦ (none, r)
  | some client_seq ↦ (
    some client_seq,
    record {
      forward = HashMap.remove r.forward client_seq;
      reverse = HashMap.remove r.reverse backend_seq;
    },
  )
]

unfoldable pub lookup_backend : MessageRemapper → ClientSeq → Option BackendSeq
lookup_backend r client_seq = HashMap.get r.forward client_seq

unfoldable pub lookup_client : MessageRemapper → BackendSeq → Option ClientSeq
lookup_client r backend_seq = HashMap.get r.reverse backend_seq
