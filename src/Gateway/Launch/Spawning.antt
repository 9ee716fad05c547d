-- ===== src/Gateway/Launch/Spawning.antt =====
-- The two forms of a spawn in crates/dap-core/src/gateway.rs.
use dappy_core.Common.{
  ℕ, ◌-◌, ◌^◌, ◌<◌, ◌≡◌, refl, ap, ◌∙◌, some, [], ◌∷◌, ◌++◌, arith, ◌==◌, nat_eq, string_eq,
}
use dappy_core.Common.Text.{Text}
use dappy_core.Common.Text.Decimal.{parse_uint, print_u64, parse_uint-print_u64}
use dappy_core.Common.Text.Trimming.{Fails}
use dappy_core.Gateway.Static.{SpawnSpec, stdio_spec, tcp_spec, builtin_spec}
use dappy_core.Gateway.Launch.{
  split_colon, endpoint_of, adapter_to_spawn_spec, spawn_spec_to_adapter,
}

-- No character is a colon.
abbrev pub NoColon : Text → Type 0
NoColon s = Fails (λ c. c == 58) s

split_colon-append :
    (host port : Text) → NoColon host → split_colon (host ++ 58 ∷ port) ≡ some (host, port)
split_colon-append [] port h = refl
split_colon-append (c ∷ host) port h = rw h.0 (rw (split_colon-append host port h.1) refl)

endpoint_of-eq :
    (command host port : Text) (n : ℕ)
    → parse_uint (2 ^ 16 - 1) port ≡ some n
    → endpoint_of command (some (host, port)) ≡ tcp_spec host n
endpoint_of-eq command host port n e = rw (e, endpoint_of) refl

-- A port of 16 bits, and a host without a colon.
abbrev pub IsPlain : SpawnSpec → Type 0
IsPlain (stdio_spec command args) = Unit
IsPlain (tcp_spec host port) = NoColon host × (port < 2 ^ 16)
IsPlain (builtin_spec id) = Unit

-- The adapter of a specification whose host has no colon and whose port has 16 bits stands for
-- that specification.
pub adapter_to_spawn_spec-spawn_spec_to_adapter :
    (s : SpawnSpec) → IsPlain s → adapter_to_spawn_spec (spawn_spec_to_adapter s) ≡ s
unfolding adapter_to_spawn_spec spawn_spec_to_adapter
adapter_to_spawn_spec-spawn_spec_to_adapter (stdio_spec command args) h = refl
adapter_to_spawn_spec-spawn_spec_to_adapter (builtin_spec id) h = refl
adapter_to_spawn_spec-spawn_spec_to_adapter (tcp_spec host port) h =
    ap (endpoint_of (host ++ 58 ∷ print_u64 port)) (split_colon-append host (print_u64 port) h.0)
    ∙ endpoint_of-eq (host ++ 58 ∷ print_u64 port) host (print_u64 port) port
        (parse_uint-print_u64 (2 ^ 16 - 1) port (omega arith) (omega arith))
