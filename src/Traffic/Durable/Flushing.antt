-- ===== src/Traffic/Durable/Flushing.antt =====
-- The pipeline's flush into the durable sink
-- (internal/contexts/traffic/adapters/events/pipeline.go and durable_sink.go).
use kiwi_guard.Common.{
  ◌≤◌, String, List, [], ◌∷◌, ◌++◌, Option, none, some, some-injective, ◌≡◌, refl, sym, ap, ◌∙◌,
  All, All-append, All-mono, arith, subst,
}
use kiwi_guard.Traffic.Types.{Event, SinkReply, BatchSink}
use kiwi_guard.Traffic.Pipeline.{
  Pipeline, mark_sink_status, Flushed, settle, write_marked, flush, first_of,
}
use kiwi_guard.Traffic.Pipeline.Draining.{events_of, write_all, with_events, flush-Drains}
use kiwi_guard.Traffic.Durable.{Spool, durable}
use kiwi_guard.Traffic.Durable.Holding.{
  ids, Primary, Durability, Holds, both, durable_write-Holds, durable_write-stores,
}

first_of-none : (x y : Option String) → first_of x y ≡ none → (x ≡ none) × (y ≡ none)
first_of-none none y h = (refl, h)
first_of-none (some e) y h = ground arith

ids-append : (xs ys : List Event) → ids (xs ++ ys) ≡ ids xs ++ ids ys
ids-append [] ys = refl
ids-append (x ∷ xs) ys = ap (λ zs. x.event_id ∷ zs) (ids-append xs ys)

ids-mark_sink_status :
    (status : String) (es : List Event) → ids (mark_sink_status status es) ≡ ids es
unfolding mark_sink_status
ids-mark_sink_status status [] = refl
ids-mark_sink_status status (e ∷ es) = ap (λ xs. e.event_id ∷ xs) (ids-mark_sink_status status es)

module _ {S : Type 0} (out : BatchSink S) where
  -- No error after a round says that there was none before it, nor of its write.
  settle-none :
      (state : Flushed S) (reply : SinkReply S) (e : Option String)
      → (settle out state reply e).error ≡ none
      → (state.error ≡ none) × (e ≡ none)
  unfolding settle
  settle-none state reply none h = (h, refl)
  settle-none state reply (some e) h =
      let twice = first_of-none _ _ h in
      let once = first_of-none state.error _ twice.0 in ground (arith, once.1)

  write_all-none :
      (bs : List (List Event)) (state : Flushed S)
      → (write_all out bs state).error ≡ none
      → state.error ≡ none
  unfolding write_marked
  write_all-none [] state h = h
  write_all-none (b ∷ bs) state h =
      let reply = out.write_batch (mark_sink_status "delivered" b) state.sink in
      (settle-none state reply reply.error (write_all-none bs (write_marked out b state) h)).0

module _ {P S : Type 0} (sink : BatchSink P) (spool : Spool S) (primary : Primary sink)
    (store : Durability spool) where
  abbrev out : BatchSink (P × S)
  out = durable (both sink spool primary store)

  abbrev Held : P × S → String → Type 0
  Held state id = Holds sink spool primary store state id

  settle-Held :
      (state : Flushed (P × S)) (reply : SinkReply (P × S)) (e : Option String) (id : String)
      → Held reply.sink id
      → Held (settle out state reply e).sink id
  unfolding settle
  settle-Held state reply none id h = h
  settle-Held state reply (some e) id h =
      durable_write-Holds sink spool primary store (mark_sink_status "failed" reply.batch)
        reply.sink id h

  write_all-Held :
      (bs : List (List Event)) (state : Flushed (P × S)) (id : String)
      → Held state.sink id
      → Held (write_all out bs state).sink id
  unfolding write_marked
  write_all-Held [] state id h = h
  write_all-Held (b ∷ bs) state id h =
      let marked = mark_sink_status "delivered" b in
      let reply = out.write_batch marked state.sink in
      write_all-Held bs (write_marked out b state) id (
        settle-Held state reply reply.error id
          (durable_write-Holds sink spool primary store marked state.sink id h))

  write_all-stores :
      (bs : List (List Event)) (state : Flushed (P × S))
      → (write_all out bs state).error ≡ none
      → All (Held (write_all out bs state).sink) (ids (events_of bs))
  unfolding write_marked
  write_all-stores [] state h = tt
  write_all-stores (b ∷ bs) state h =
      let marked = mark_sink_status "delivered" b in
      let reply = out.write_batch marked state.sink in
      let fine =
        settle-none out state reply reply.error
          (write_all-none out bs (write_marked out b state) h) in
      let stored : All (Held reply.sink) (ids b) =
        subst (All (Held reply.sink)) (ids-mark_sink_status "delivered" b)
          (durable_write-stores sink spool primary store marked state.sink fine.1) in
      let after = write_all out bs (write_marked out b state) in
      subst (All (Held after.sink)) (sym (ids-append b (events_of bs))) (
        All-append (Held after.sink) (ids b) (ids (events_of bs))
          (All-mono (ids b)
            (λ id k.
              write_all-Held bs (write_marked out b state) id
                (settle-Held state reply reply.error id k))
            stored)
          (write_all-stores bs (write_marked out b state) h))

  -- A flush that returns no error leaves every event of the queue held.
  pub flush-stores :
      (p : Pipeline) (state : P × S) (r : Flushed (P × S))
      → 1 ≤ p.batch_size
      → flush (some out) p state ≡ some r
      → r.error ≡ none
      → All (Held r.sink) (ids p.events)
  flush-stores p state r h e n =
      let (bs, all, sizes, is) = flush-Drains out p state h in
      let same = some-injective _ _ (sym is ∙ e) in
      let fine = ap (λ (x : Flushed (P × S)). x.error) same ∙ n in
      subst (λ (x : Flushed (P × S)). All (Held x.sink) (ids p.events)) same
        (subst
          (λ es.
            All
              (Held
                (write_all out bs
                  (with_events out [] (record { error = none; pipeline = p; sink = state }))).sink)
              (ids es))
          all (write_all-stores bs _ fine))
