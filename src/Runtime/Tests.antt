-- ===== src/Runtime/Tests.antt =====
-- An example of a repository whose configuration changes from revision 1 to revision 2.
use kiwi_guard.Common.{ℤ, pos, false, [], ◌∷◌, some, ok, ◌≡◌, refl, ◌⊎◌}
use kiwi_guard.Runtime.Types.{RuntimeConfig}
use kiwi_guard.Runtime.State.{CompiledRuntime, validate_compiled_runtime, config_ready}
use kiwi_guard.Runtime.Reloading.{Repository, Compiler, Served}
use kiwi_guard.Runtime.Watching.{notified, ticked, subscriber_closed, handle_signals, watch}
use kiwi_guard.Runtime.Watching.Publication.{IsValid, OneGives, watch-IsValid}
use kiwi_guard.Runtime.Watching.Readiness.{
  ready_with, handle_signals-catches_up, handle_signals-degraded,
}

abbrev config : ℤ → RuntimeConfig
config n = record {
  revision = record { number = n };
  routes = [];
  providers = [];
  model_mappings = [];
  verdict_providers = [];
  route_verdict_provider_bindings = [];
  sinks = [];
  retention = [];
  policy_bundles = [];
  raw_capture = [];
  gateway_clients = [];
  route_limits = [];
  client_route_limit_overrides = [];
}

abbrev compiled : ℤ → CompiledRuntime
compiled n = record { revision_number = n; snapshot_hash = ""; gateway = some 1; loaded_at = pos 0 }

abbrev compiler : Compiler
compiler = record { compile_runtime = λ c. ok (compiled c.revision.number) }

abbrev second : Repository
second = record { active_revision_number = ok (pos 2); load_runtime_config = ok (config (pos 2)) }

abbrev first : Repository
first = record { active_revision_number = ok (pos 1); load_runtime_config = ok (config (pos 1)) }

-- Revision 1 is served, and the last answer of the repository was an error.
abbrev served : Served
served = record {
  state = record { value = compiled (pos 1) };
  readiness = some (record { config_ready = false; reason = "active_revision_unavailable" });
}

first-IsValid : IsValid (compiled (pos 1))
unfolding validate_compiled_runtime
first-IsValid = refl

second-IsValid : IsValid (compiled (pos 2))
unfolding validate_compiled_runtime
second-IsValid = refl

watch-IsValid_example :
    (let published : CompiledRuntime =
        (watch compiler
          (some "closed")
          first
          (subscriber_closed ∷ notified second ∷ [])
          served).state.value in
      IsValid published
      × ((published ≡ compiled (pos 1))
          ⊎ OneGives (ticked first ∷ subscriber_closed ∷ notified second ∷ []) compiler published))
watch-IsValid_example =
    watch-IsValid compiler (some "closed") first (subscriber_closed ∷ notified second ∷ []) served
      first-IsValid

handle_signals-catches_up_example :
    handle_signals compiler (notified second ∷ ticked second ∷ []) served
    ≡ ready_with (compiled (pos 2)) served
handle_signals-catches_up_example =
    handle_signals-catches_up compiler (compiled (pos 2)) (notified second) (ticked second ∷ [])
      served second-IsValid refl
      ((refl, (config (pos 2), refl, refl)), ((refl, (config (pos 2), refl, refl)), tt))

handle_signals-degraded_example :
    (let after : Served = handle_signals compiler (ticked first ∷ notified first ∷ []) served in
      (after.state ≡ served.state) × (config_ready after.readiness ≡ false))
unfolding config_ready
handle_signals-degraded_example =
    handle_signals-degraded compiler (ticked first ∷ notified first ∷ []) served (refl, (refl, tt))
      refl
