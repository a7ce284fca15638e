-- ===== src/Runtime/Watching/Readiness.antt =====
-- When a watcher is ready and when it catches up
-- (internal/contexts/runtime/watcher.go and application/usecases.go).
use kiwi_guard.Common.{
  ℕ, ℤ, pos, negsuc, true, false, List, [], ◌∷◌, Option, none, some, ok, ◌≡◌, refl, sym, ap, ◌∙◌,
  subst, arith, ◌==◌, eq_nat, All,
}
use kiwi_guard.Runtime.Types.{RuntimeConfig}
use kiwi_guard.Runtime.State.{
  CompiledRuntime, ReadinessState, config_ready, mark_config_ready, mark_config_degraded, swap,
  snapshot,
}
use kiwi_guard.Runtime.Reloading.{
  Repository, Compiler, Served, mark_degraded, publish, publish_compiled, publish_config,
  reload_revision, reload, eqb_ℤ,
}
use kiwi_guard.Runtime.Watching.{
  Signal, notified, ticked, subscriber_closed, handle_signal, handle_signals,
}
use kiwi_guard.Runtime.Watching.Publication.{IsValid}

eqb_nat_refl : (n : ℕ) → (n == n) ≡ true
eqb_nat_refl n = ground arith

eqb_ℤ_refl : (n : ℤ) → eqb_ℤ n n ≡ true
eqb_ℤ_refl (pos n) = eqb_nat_refl n
eqb_ℤ_refl (negsuc n) = eqb_nat_refl n

-- Whenever the signal asks the repository, it answers with this revision.
abbrev pub Answers : ℤ → Signal → Type 0
Answers revision (notified repository) = repository.active_revision_number ≡ ok revision
Answers revision (ticked repository) = repository.active_revision_number ≡ ok revision
Answers revision subscriber_closed = Unit

-- The repository answers with the revision of this runtime, and with a configuration that compiles to
-- it.
abbrev pub IsOffered : Compiler → CompiledRuntime → Repository → Type 0
IsOffered compiler runtime repository =
    (repository.active_revision_number ≡ ok runtime.revision_number)
    × ((config : RuntimeConfig) × (repository.load_runtime_config ≡ ok config)
        × (compiler.compile_runtime config ≡ ok runtime))

abbrev pub Offers : Compiler → CompiledRuntime → Signal → Type 0
Offers compiler runtime (notified repository) = IsOffered compiler runtime repository
Offers compiler runtime (ticked repository) = IsOffered compiler runtime repository
Offers compiler runtime subscriber_closed = ⊥

-- The same revision: a reload changes nothing.
reload-same :
    (compiler : Compiler) (repository : Repository) (s : Served)
    → repository.active_revision_number ≡ ok s.state.value.revision_number
    → reload compiler repository s ≡ s
unfolding reload reload_revision snapshot
reload-same compiler repository s e =
    ap (λ r. reload_revision compiler repository r s) e
    ∙ rw (eqb_ℤ_refl s.state.value.revision_number) refl

abbrev pub ready_with : CompiledRuntime → Served → Served
ready_with runtime s = record {
  state = record { value = runtime };
  readiness = mark_config_ready s.readiness;
}

publish-valid :
    (runtime : CompiledRuntime) (s : Served)
    → IsValid runtime
    → publish (swap runtime s.state) s ≡ ready_with runtime s
unfolding publish swap
publish-valid runtime s valid = rw (valid) refl

reload-offered :
    (compiler : Compiler) (runtime : CompiledRuntime) (repository : Repository) (s : Served)
    → IsValid runtime
    → eqb_ℤ runtime.revision_number s.state.value.revision_number ≡ false
    → IsOffered compiler runtime repository
    → reload compiler repository s ≡ ready_with runtime s
unfolding reload reload_revision snapshot publish_config publish_compiled
reload-offered compiler runtime repository s valid new (revision, (config, loaded, compiled)) =
    ap (λ r. reload_revision compiler repository r s) revision
    ∙ rw (new) (ap (λ c. publish_config compiler c s) loaded)
    ∙ ap (λ r. publish_compiled r s) compiled
    ∙ publish-valid runtime s valid

handle_signals-same :
    (compiler : Compiler) (runtime : CompiledRuntime) (signals : List Signal) (s : Served)
    → s.state.value ≡ runtime
    → All (Offers compiler runtime) signals
    → handle_signals compiler signals s ≡ s
unfolding handle_signals handle_signal
handle_signals-same compiler runtime [] s e h = refl
handle_signals-same compiler runtime (notified repository ∷ signals) s e h =
    let same =
      reload-same compiler repository s
        (h.0.0 ∙ ap (λ (r : CompiledRuntime). ok r.revision_number) (sym e)) in
    ap (handle_signals compiler signals) same ∙ handle_signals-same compiler runtime signals s e h.1
handle_signals-same compiler runtime (ticked repository ∷ signals) s e h =
    let same =
      reload-same compiler repository s
        (h.0.0 ∙ ap (λ (r : CompiledRuntime). ok r.revision_number) (sym e)) in
    ap (handle_signals compiler signals) same ∙ handle_signals-same compiler runtime signals s e h.1
handle_signals-same compiler runtime (subscriber_closed ∷ signals) s e h = elim h.0 [ ]

-- If from some signal on each signal asks the repository, and the repository answers with one
-- revision that differs from the published one and with a configuration that compiles to a
-- valid runtime of that revision, then that runtime is published and the configuration is ready
-- after the first of these signals, and after all of them.
pub handle_signals-catches_up :
    (compiler : Compiler) (runtime : CompiledRuntime) (signal : Signal) (signals : List Signal)
    (s : Served)
    → IsValid runtime
    → eqb_ℤ runtime.revision_number s.state.value.revision_number ≡ false
    → All (Offers compiler runtime) (signal ∷ signals)
    → handle_signals compiler (signal ∷ signals) s ≡ ready_with runtime s
unfolding handle_signals handle_signal
handle_signals-catches_up compiler runtime (notified repository) signals s valid new h =
    ap (handle_signals compiler signals)
      (reload-offered compiler runtime repository s valid new h.0)
    ∙ handle_signals-same compiler runtime signals (ready_with runtime s) refl h.1
handle_signals-catches_up compiler runtime (ticked repository) signals s valid new h =
    ap (handle_signals compiler signals)
      (reload-offered compiler runtime repository s valid new h.0)
    ∙ handle_signals-same compiler runtime signals (ready_with runtime s) refl h.1
handle_signals-catches_up compiler runtime subscriber_closed signals s valid new h = elim h.0 [ ]

closed-degraded :
    (r : Option ReadinessState)
    → config_ready r ≡ false
    → config_ready (mark_config_degraded "config_subscriber_closed" r) ≡ false
unfolding config_ready mark_config_degraded
closed-degraded none h = h
closed-degraded (some r) h = refl

-- While the repository answers every request with the revision that is published, a
-- configuration that is not ready stays so, and the published runtime stays too.
pub handle_signals-degraded :
    (compiler : Compiler) (signals : List Signal) (s : Served)
    → All (Answers s.state.value.revision_number) signals
    → config_ready s.readiness ≡ false
    → (let after : Served = handle_signals compiler signals s in
        (after.state ≡ s.state) × (config_ready after.readiness ≡ false))
unfolding handle_signals handle_signal mark_degraded
handle_signals-degraded compiler [] s h d = (refl, d)
handle_signals-degraded compiler (notified repository ∷ signals) s h d =
    subst
      (λ (x : Served).
        ((handle_signals compiler signals x).state ≡ s.state)
        × (config_ready (handle_signals compiler signals x).readiness ≡ false))
      (sym (reload-same compiler repository s h.0))
      (handle_signals-degraded compiler signals s h.1 d)
handle_signals-degraded compiler (ticked repository ∷ signals) s h d =
    subst
      (λ (x : Served).
        ((handle_signals compiler signals x).state ≡ s.state)
        × (config_ready (handle_signals compiler signals x).readiness ≡ false))
      (sym (reload-same compiler repository s h.0))
      (handle_signals-degraded compiler signals s h.1 d)
handle_signals-degraded compiler (subscriber_closed ∷ signals) s h d =
    handle_signals-degraded compiler signals
      (record s { readiness = mark_config_degraded "config_subscriber_closed" s.readiness }) h.1
      (closed-degraded s.readiness d)
