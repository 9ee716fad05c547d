-- ===== src/Child/Resolve/Endpoint.antt =====
-- Endpoints and the flag of the parent's command in crates/dap-core/src/child_session/resolve.rs.
use dappy_core.Common.{
  ℕ, ◌≤◌, ◌≡◌, refl, Bool, none, some, [], ◌∷◌, ◌++◌, arith, ◌==◌, nat_eq, string_eq,
}
use dappy_core.Common.Text.{Text}
use dappy_core.Common.Text.Decimal.{
  parse_uint, print_u64, print_u64-AllDigits, parse_uint-print_u64,
}
use dappy_core.Common.Text.Trimming.{Fails, AllDigits-Fails}
use dappy_core.Child.Outcome.{ok}
use dappy_core.Child.Resolve.{rsplit_colon, u16_max, parse_host_port}

abbrev is_colon : ℕ → Bool
is_colon c = c == 58

rsplit_colon-Fails : (s : Text) → Fails is_colon s → rsplit_colon s ≡ none
rsplit_colon-Fails [] h = refl
rsplit_colon-Fails (c ∷ s) h = rw (rsplit_colon-Fails s h.1) (rw h.0 refl)

rsplit_colon-last :
    (host port : Text) → Fails is_colon port → rsplit_colon (host ++ 58 ∷ port) ≡ some (host, port)
rsplit_colon-last [] port h = rw (rsplit_colon-Fails port h) refl
rsplit_colon-last (c ∷ host) port h = rw (rsplit_colon-last host port h) refl

parse_host_port-eq :
    (endpoint host port : Text) (n : ℕ)
    → rsplit_colon endpoint ≡ some (host, port)
    → parse_uint u16_max port ≡ some n
    → parse_host_port endpoint ≡ ok (host, n)
unfolding parse_host_port
parse_host_port-eq endpoint host port n split parsed = ground arith

-- A host, a colon and the print of a port of 16 bits are read as that host and port, whatever colons the
-- host has.
pub parse_host_port-print_u64 :
    (host : Text) (port : ℕ)
    → port ≤ u16_max
    → parse_host_port (host ++ 58 ∷ print_u64 port) ≡ ok (host, port)
parse_host_port-print_u64 host port fits =
    parse_host_port-eq (host ++ 58 ∷ print_u64 port) host (print_u64 port) port
      (rsplit_colon-last host (print_u64 port) (
        AllDigits-Fails is_colon (print_u64 port) (λ c h. ground arith) (print_u64-AllDigits port)))
      (parse_uint-print_u64 u16_max port fits (omega arith))
