-- ===== src/Runtime/Reloading.antt =====
-- internal/contexts/runtime/application/usecases.go: loading the active configuration, and reloading
-- it where its revision has changed.
use kiwi_guard.Common.{
  ℤ, pos, negsuc, String, ◌<>◌, Bool, false, Option, none, some, Result, ok, err, ◌==◌, eq_nat,
  if◌then◌else◌,
}
use kiwi_guard.Runtime.Types.{RuntimeConfig}
use kiwi_guard.Runtime.State.{
  CompiledRuntime, ActiveRuntimeState, ReadinessState, snapshot, swap, mark_config_ready,
  mark_config_degraded,
}

abbrev pub eqb_ℤ : ℤ → ℤ → Bool
eqb_ℤ (pos m) (pos n) = m == n
eqb_ℤ (negsuc m) (negsuc n) = m == n
eqb_ℤ _ _ = false

-- What the repository answers at the time of a call.
pub record Repository : Type 0 where
  pub active_revision_number : Result String ℤ
  pub load_runtime_config : Result String RuntimeConfig

pub record Compiler : Type 0 where
  pub compile_runtime : RuntimeConfig → Result String CompiledRuntime

-- The ports of a reloader. The repository, the compiler and the state may be nil.
pub record Reloader : Type 0 where
  pub repository : Option Repository
  pub compiler : Option Compiler
  pub state : Option ActiveRuntimeState
  pub readiness : Option ReadinessState

unfoldable pub load_compiled_runtime :
    Option Repository → Option Compiler → Result String CompiledRuntime
load_compiled_runtime none compiler = err "active runtime config not found"
load_compiled_runtime (some repository) none = err "runtime compiler is required"
load_compiled_runtime (some repository) (some compiler) = elim repository.load_runtime_config [
  | err e ↦ err e
  | ok config ↦ elim (compiler.compile_runtime config) [
    | err e ↦ err ("compile active runtime: " <> e)
    | ok compiled ↦ ok compiled
  ]
]

-- What serving code sees: the published runtime, and whether the configuration is ready.
pub record Served : Type 0 where
  pub state : ActiveRuntimeState
  pub readiness : Option ReadinessState

unfoldable pub mark_degraded : String → Served → Served
unfolding mark_config_degraded
mark_degraded reason s = record s { readiness = mark_config_degraded reason s.readiness }

unfoldable pub publish : Result String ActiveRuntimeState → Served → Served
unfolding mark_degraded mark_config_ready
publish (err e) s = mark_degraded "runtime_config_swap_failed" s
publish (ok state) s = record { state = state; readiness = mark_config_ready s.readiness }

unfoldable pub publish_compiled : Result String CompiledRuntime → Served → Served
unfolding mark_degraded publish
publish_compiled (err e) s = mark_degraded "runtime_config_compile_failed" s
publish_compiled (ok compiled) s = publish (swap compiled s.state) s

unfoldable pub publish_config : Compiler → Result String RuntimeConfig → Served → Served
unfolding mark_degraded publish_compiled
publish_config compiler (err e) s = mark_degraded "runtime_config_load_failed" s
publish_config compiler (ok config) s = publish_compiled (compiler.compile_runtime config) s

unfoldable pub reload_revision : Compiler → Repository → Result String ℤ → Served → Served
unfolding mark_degraded publish_config snapshot
reload_revision compiler repository (err e) s = mark_degraded "active_revision_unavailable" s
reload_revision compiler repository (ok revision) s =
    if eqb_ℤ revision (snapshot s.state).revision_number
    then s
    else publish_config compiler repository.load_runtime_config s

-- A reload with all ports.
unfoldable pub reload : Compiler → Repository → Served → Served
unfolding reload_revision
reload compiler repository s =
    reload_revision compiler repository repository.active_revision_number s

-- The error, and the reloader's state and readiness after the call.
unfoldable pub reload_if_changed :
    Reloader → Option String × Option ActiveRuntimeState × Option ReadinessState
unfolding reload
reload_if_changed r = with_ports r.repository r.compiler r.state
  where
    with_ports :
        Option Repository
        → Option Compiler
        → Option ActiveRuntimeState
        → Option String × Option ActiveRuntimeState × Option ReadinessState
    with_ports none compiler state =
        (some "reload runtime config: repository is required", state, r.readiness)
    with_ports (some repository) none state =
        (some "reload runtime config: compiler is required", state, r.readiness)
    with_ports (some repository) (some compiler) none =
        (some "reload runtime config: state is required", none, r.readiness)
    with_ports (some repository) (some compiler) (some state) =
        let served =
          reload compiler repository (record { state = state; readiness = r.readiness }) in
        (none, some served.state, served.readiness)
