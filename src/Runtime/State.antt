-- ===== src/Runtime/State.antt =====
-- internal/contexts/runtime/state.go, and the snapshot of application/types.go: what is published to
-- the serving code, and whether the configuration is ready.
use kiwi_guard.Common.{
  ℕ, ℤ, pos, leb_ℤ, String, Bool, true, false, ◌==◌, eq_nat, Option, none, some, Result, ok, err,
  if◌then◌else◌,
}

-- Of the gateway, which may be nil, the route count.
pub record CompiledRuntime : Type 0 where
  pub revision_number : ℤ
  pub snapshot_hash : String
  pub gateway : Option ℕ
  pub loaded_at : ℤ

abbrev no_routes : Option ℕ → Bool
no_routes none = true
no_routes (some routes) = routes == 0

-- The error, if any.
unfoldable pub validate_compiled_runtime : CompiledRuntime → Option String
validate_compiled_runtime runtime =
    if leb_ℤ runtime.revision_number (pos 0)
    then some "compiled runtime revision number is required"
    else if no_routes runtime.gateway
    then some "compiled runtime gateway routes are required"
    else none

-- The runtime that is published.
pub record ActiveRuntimeState : Type 0 where
  pub value : CompiledRuntime

abbrev unless {ℓ} : {A : Type ℓ} → Option String → A → Result String A
unless none a = ok a
unless (some e) a = err e

unfoldable pub new_active_runtime_state : CompiledRuntime → Result String ActiveRuntimeState
unfolding validate_compiled_runtime
new_active_runtime_state initial =
    unless (validate_compiled_runtime initial) (record { value = initial })

unfoldable pub snapshot : ActiveRuntimeState → CompiledRuntime
snapshot state = state.value

unfoldable pub swap : CompiledRuntime → ActiveRuntimeState → Result String ActiveRuntimeState
unfolding validate_compiled_runtime
swap next state = unless (validate_compiled_runtime next) (record { value = next })

pub record ReadinessState : Type 0 where
  pub config_ready : Bool
  pub reason : String

unfoldable pub new_readiness_state : ReadinessState
new_readiness_state = record { config_ready = true; reason = "" }

-- The readiness is a pointer that may be nil.
unfoldable pub config_ready : Option ReadinessState → Bool
config_ready none = true
config_ready (some r) = r.config_ready

unfoldable pub readiness_reason : Option ReadinessState → String
readiness_reason none = ""
readiness_reason (some r) = r.reason

unfoldable pub mark_config_ready : Option ReadinessState → Option ReadinessState
mark_config_ready none = none
mark_config_ready (some r) = some (record { config_ready = true; reason = "" })

unfoldable pub mark_config_degraded : String → Option ReadinessState → Option ReadinessState
mark_config_degraded reason none = none
mark_config_degraded reason (some r) = some (record { config_ready = false; reason = reason })
