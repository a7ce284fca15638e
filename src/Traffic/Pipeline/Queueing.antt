-- ===== src/Traffic/Pipeline/Queueing.antt =====
-- The outcomes of an enqueue (internal/contexts/traffic/adapters/events/pipeline.go).
use kiwi_guard.Common.{
  ◌≤◌, ◌<◌, String, Bool, true, false, [], ◌∷◌, ◌++◌, Option, none, some, length, ltb→lt, ◌≡◌, refl,
  sym, subst, ◌⊎◌, inl, inr, arith, Bool-cases, if◌then◌else◌,
}
use kiwi_guard.Traffic.Types.{Event}
use kiwi_guard.Traffic.Pipeline.{Pipeline, enqueue, select_enqueue, drop_event, has_room}

-- The event is last in the channel, which was open and had room.
abbrev pub IsSent : Event → Pipeline → Option String × Pipeline → Type 0
IsSent event p result =
    (result ≡ (none, record p { events = p.events ++ event ∷ [] }))
    × (p.closed ≡ false)
    × (length p.events < p.capacity)

-- The call returns the error of its context, and the channel was open.
abbrev pub IsRefused : Option String → Pipeline → Option String × Pipeline → Type 0
IsRefused ctx_error p result =
    (e : String) × (ctx_error ≡ some e) × (result ≡ (some e, p)) × (p.closed ≡ false)

-- The event is counted as dropped, as the channel is closed or the channel is full and the context is
-- not done.
abbrev pub IsDropped : Option String → Pipeline → Option String × Pipeline → Type 0
IsDropped ctx_error p result =
    (result ≡ (none, drop_event p))
    × ((p.closed ≡ true) ⊎ ((ctx_error ≡ none) × (p.capacity ≤ length p.events)))

abbrev pub Outcomes : Option String → Event → Pipeline → Option String × Pipeline → Type 0
Outcomes ctx_error event p result =
    IsSent event p result ⊎ IsRefused ctx_error p result ⊎ IsDropped ctx_error p result

select_enqueue-Outcomes :
    (ctx_error : Option String) (prefers_done room : Bool) (event : Event) (p : Pipeline)
    → p.closed ≡ false
    → has_room p ≡ room
    → Outcomes ctx_error event p (select_enqueue ctx_error prefers_done room event p)
unfolding select_enqueue
select_enqueue-Outcomes none f true event p o r = inl (refl, o, ltb→lt _ _ r)
select_enqueue-Outcomes none f false event p o r = inr (inr (refl, inr (refl, ground arith)))
select_enqueue-Outcomes (some e) true true event p o r = inr (inl (e, refl, refl, o))
select_enqueue-Outcomes (some e) false true event p o r = inl (refl, o, ltb→lt _ _ r)
select_enqueue-Outcomes (some e) f false event p o r = inr (inl (e, refl, refl, o))

if-true : {A : Type 0} (b : Bool) (x y : A) → b ≡ true → (if b then x else y) ≡ x
if-true true x y e = refl
if-true false x y e = ground arith

if-false : {A : Type 0} (b : Bool) (x y : A) → b ≡ false → (if b then x else y) ≡ y
if-false true x y e = ground arith
if-false false x y e = refl

-- An enqueue has one of three outcomes: the event is put last in the channel, which was open
-- and had room; the call returns the error of its context, which was done, and changes nothing;
-- or the call counts the event as dropped and returns no error, where the pipeline is closed,
-- or the channel is full and the context not done.
pub enqueue-Outcomes :
    (ctx_error : Option String) (prefers_done : Bool) (event : Event) (p : Pipeline)
    → Outcomes ctx_error event p (enqueue ctx_error prefers_done event p)
unfolding enqueue
enqueue-Outcomes ctx_error prefers_done event p = elim (Bool-cases p.closed) [
  | inl c ↦ inr (inr (if-true p.closed _ _ c, inl c))
  | inr c ↦
      subst (Outcomes ctx_error event p) (sym (if-false p.closed _ _ c))
        (select_enqueue-Outcomes ctx_error prefers_done (has_room p) event p c refl)
]
