-- ===== src/Runtime/Watching/Publication.antt =====
-- What a watcher publishes (internal/contexts/runtime/watcher.go and application/usecases.go).
use kiwi_guard.Common.{
  ℤ, String, Bool, true, false, List, [], ◌∷◌, Option, none, some, Result, ok, err, ◌≡◌, refl, sym,
  ap, ◌∙◌, subst, ◌⊎◌, inl, inr,
}
use kiwi_guard.Runtime.Types.{RuntimeConfig}
use kiwi_guard.Runtime.State.{CompiledRuntime, validate_compiled_runtime, swap, snapshot}
use kiwi_guard.Runtime.Reloading.{
  Repository, Compiler, Served, mark_degraded, publish, publish_compiled, publish_config,
  reload_revision, reload, eqb_ℤ,
}
use kiwi_guard.Runtime.Watching.{
  Signal, notified, ticked, subscriber_closed, handle_signal, handle_signals, subscribed, watch,
}

abbrev pub IsValid : CompiledRuntime → Type 0
IsValid runtime = validate_compiled_runtime runtime ≡ none

-- The runtime is valid and is what the compiler makes of a configuration that the repository gave.
abbrev pub IsFrom : Compiler → Repository → CompiledRuntime → Type 0
IsFrom compiler repository runtime =
    IsValid runtime
    × ((config : RuntimeConfig) × (repository.load_runtime_config ≡ ok config)
        × (compiler.compile_runtime config ≡ ok runtime))

abbrev pub Gives : Signal → Compiler → CompiledRuntime → Type 0
Gives (notified repository) compiler runtime = IsFrom compiler repository runtime
Gives (ticked repository) compiler runtime = IsFrom compiler repository runtime
Gives subscriber_closed compiler runtime = ⊥

abbrev pub OneGives : List Signal → Compiler → CompiledRuntime → Type 0
OneGives [] compiler runtime = ⊥
OneGives (signal ∷ signals) compiler runtime =
    Gives signal compiler runtime ⊎ OneGives signals compiler runtime

abbrev value_of : Served → CompiledRuntime
value_of s = s.state.value

publish-value :
    (c : CompiledRuntime) (s : Served)
    → (value_of (publish (swap c s.state) s) ≡ value_of s)
      ⊎ ((value_of (publish (swap c s.state) s) ≡ c) × IsValid c)
unfolding publish swap mark_degraded
publish-value c s = cases (validate_compiled_runtime c) refl
  where
    cases :
        (e : Option String)
        → validate_compiled_runtime c ≡ e
        → (value_of (publish (swap c s.state) s) ≡ value_of s)
          ⊎ ((value_of (publish (swap c s.state) s) ≡ c) × IsValid c)
    cases none e = inr (rw (e) refl, e)
    cases (some x) e = inl (rw (e) refl)

publish_compiled-value :
    (r : Result String CompiledRuntime) (s : Served)
    → (value_of (publish_compiled r s) ≡ value_of s)
      ⊎ ((r ≡ ok (value_of (publish_compiled r s))) × IsValid (value_of (publish_compiled r s)))
unfolding publish_compiled mark_degraded
publish_compiled-value (err e) s = inl refl
publish_compiled-value (ok c) s = elim (publish-value c s) [
  | inl same ↦ inl same
  | inr (is, valid) ↦ inr (ap ok (sym is), subst IsValid (sym is) valid)
]

publish_config-value :
    (compiler : Compiler) (loaded : Result String RuntimeConfig) (s : Served)
    → (value_of (publish_config compiler loaded s) ≡ value_of s)
      ⊎ (IsValid (value_of (publish_config compiler loaded s))
          × ((config : RuntimeConfig) × (loaded ≡ ok config)
              × (compiler.compile_runtime config
                  ≡ ok (value_of (publish_config compiler loaded s)))))
unfolding publish_config mark_degraded
publish_config-value compiler (err e) s = inl refl
publish_config-value compiler (ok config) s =
    elim (publish_compiled-value (compiler.compile_runtime config) s) [
      | inl same ↦ inl same
      | inr (is, valid) ↦ inr (valid, (config, refl, is))
    ]

reload_revision-value :
    (compiler : Compiler) (repository : Repository) (revision : Result String ℤ) (s : Served)
    → (value_of (reload_revision compiler repository revision s) ≡ value_of s)
      ⊎ IsFrom compiler repository (value_of (reload_revision compiler repository revision s))
unfolding reload_revision snapshot mark_degraded
reload_revision-value compiler repository (err e) s = inl refl
reload_revision-value compiler repository (ok revision) s =
    go (eqb_ℤ revision s.state.value.revision_number) refl
  where
    go :
        (b : Bool)
        → eqb_ℤ revision s.state.value.revision_number ≡ b
        → (value_of (reload_revision compiler repository (ok revision) s) ≡ value_of s)
          ⊎ IsFrom compiler repository
              (value_of (reload_revision compiler repository (ok revision) s))
    go true e = inl (rw (e) refl)
    go false e = rw (e) (publish_config-value compiler repository.load_runtime_config s)

reload-value :
    (compiler : Compiler) (repository : Repository) (s : Served)
    → (value_of (reload compiler repository s) ≡ value_of s)
      ⊎ IsFrom compiler repository (value_of (reload compiler repository s))
unfolding reload
reload-value compiler repository s =
    reload_revision-value compiler repository repository.active_revision_number s

-- A signal leaves the published runtime, or publishes what it gives.
handle_signal-value :
    (compiler : Compiler) (signal : Signal) (s : Served)
    → (value_of (handle_signal compiler signal s) ≡ value_of s)
      ⊎ Gives signal compiler (value_of (handle_signal compiler signal s))
unfolding handle_signal mark_degraded
handle_signal-value compiler (notified repository) s = reload-value compiler repository s
handle_signal-value compiler (ticked repository) s = reload-value compiler repository s
handle_signal-value compiler subscriber_closed s = inl refl

handle_signals-value :
    (compiler : Compiler) (signals : List Signal) (s : Served)
    → (value_of (handle_signals compiler signals s) ≡ value_of s)
      ⊎ OneGives signals compiler (value_of (handle_signals compiler signals s))
unfolding handle_signals
handle_signals-value compiler [] s = inl refl
handle_signals-value compiler (signal ∷ signals) s =
    elim (handle_signals-value compiler signals (handle_signal compiler signal s)) [
      | inr gives ↦ inr (inr gives)
      | inl same ↦ elim (handle_signal-value compiler signal s) [
        | inl kept ↦ inl (same ∙ kept)
        | inr gives ↦ inr (inl (subst (Gives signal compiler) (sym same) gives))
      ]
    ]

OneGives-IsValid :
    (signals : List Signal) (compiler : Compiler) (runtime : CompiledRuntime)
    → OneGives signals compiler runtime
    → IsValid runtime
OneGives-IsValid [] compiler runtime h = elim h [ ]
OneGives-IsValid (notified repository ∷ signals) compiler runtime (inl h) = h.0
OneGives-IsValid (ticked repository ∷ signals) compiler runtime (inl h) = h.0
OneGives-IsValid (subscriber_closed ∷ signals) compiler runtime (inl h) = elim h [ ]
OneGives-IsValid (signal ∷ signals) compiler runtime (inr h) =
    OneGives-IsValid signals compiler runtime h

subscribed-value : (e : Option String) (s : Served) → value_of (subscribed e s) ≡ value_of s
unfolding subscribed mark_degraded
subscribed-value none s = refl
subscribed-value (some e) s = refl

-- Whatever signals a watcher receives and whatever the repository and the compiler answer, the
-- runtime published at the end is valid if the one published at first was, and it is that one
-- or is what the compiler made of a configuration that the repository gave at one of the
-- reloads.
pub watch-IsValid :
    (compiler : Compiler) (subscribe_error : Option String) (repository : Repository)
    (signals : List Signal) (s : Served)
    → IsValid s.state.value
    → (let published : CompiledRuntime =
          (watch compiler subscribe_error repository signals s).state.value in
        IsValid published
        × ((published ≡ s.state.value) ⊎ OneGives (ticked repository ∷ signals) compiler published))
unfolding watch
watch-IsValid compiler subscribe_error repository signals s valid =
    let first = subscribed subscribe_error s in
    elim (handle_signals-value compiler signals (reload compiler repository first)) [
      | inr gives ↦ (OneGives-IsValid signals compiler _ gives, inr (inr gives))
      | inl same ↦ elim (reload-value compiler repository first) [
        | inl kept ↦
            let all = same ∙ kept ∙ subscribed-value subscribe_error s in
            (subst IsValid (sym all) valid, inl all)
        | inr gives ↦ (
          subst IsValid (sym same) gives.0,
          inr (inl (subst (IsFrom compiler repository) (sym same) gives)),
        )
      ]
    ]
