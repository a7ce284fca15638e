-- ===== src/Traffic/Durable/Holding.antt =====
-- What the sink and the spool have been given between them
-- (internal/contexts/traffic/adapters/events/durable_sink.go and pipeline.go).
use kiwi_guard.Common.{
  String, List, [], ◌∷◌, map, Option, none, some, ◌≡◌, refl, sym, ap, ◌⊎◌, inl, inr, All, All-mono,
  arith, subst,
}
use kiwi_guard.Traffic.Types.{Event, SinkReply, BatchSink}
use kiwi_guard.Traffic.Durable.{
  SpooledEvent, Spool, DurableSink, mark_spooled, appended, spool_batch, after_primary, write_to,
  durable_write,
}
use kiwi_guard.Traffic.Durable.Replay.{}

abbrev pub ids : List Event → List String
ids events = map (λ (e : Event). e.event_id) events

abbrev pub ids_of_records : List SpooledEvent → List String
ids_of_records records = map (λ (r : SpooledEvent). r.event.event_id) records

-- What can be said of the events that a sink has been given: they are had after a write that returns
-- no error, a write keeps those had before, and it does not rename those of its batch.
pub record Primary {P : Type 0} (sink : BatchSink P) : Type 1 where
  pub Has : P → String → Type 0
  pub takes :
      (es : List Event) (p : P)
      → (sink.write_batch es p).error ≡ none
      → All (Has (sink.write_batch es p).sink) (ids es)
  pub keeps :
      (es : List Event) (p : P) (id : String) → Has p id → Has (sink.write_batch es p).sink id
  pub same_ids : (es : List Event) (p : P) → ids (sink.write_batch es p).batch ≡ ids es

-- What can be said of the events that a spool has been given: they are had after an append that
-- returns no error, and an append keeps those had before.
pub record Durability {S : Type 0} (spool : Spool S) : Type 1 where
  pub Has : S → String → Type 0
  pub takes :
      (es : List Event) (s : S)
      → (spool.append es s).0 ≡ none
      → All (Has (spool.append es s).1) (ids es)
  pub append_keeps :
      (es : List Event) (s : S) (id : String) → Has s id → Has (spool.append es s).1 id

module _ {P S : Type 0} (sink : BatchSink P) (spool : Spool S) (primary : Primary sink)
    (store : Durability spool) where
  abbrev pub Holds : P × S → String → Type 0
  Holds (p, s) id = Primary.Has primary p id ⊎ Durability.Has store s id

  abbrev pub both : DurableSink P S
  both = record { primary = some sink; spool = some spool }

  ids-mark_spooled : (es : List Event) → ids (mark_spooled es) ≡ ids es
  unfolding mark_spooled
  ids-mark_spooled [] = refl
  ids-mark_spooled (e ∷ es) = ap (λ xs. e.event_id ∷ xs) (ids-mark_spooled es)

  appended-Holds :
      (es : List Event) (p : P) (r : Option String × S) (id : String)
      → Holds (p, r.1) id
      → Holds (appended es p r).sink id
  unfolding appended
  appended-Holds es p (none, s) id h = h
  appended-Holds es p (some e, s) id h = h

  appended-stores :
      (es : List Event) (p : P) (r : Option String × S)
      → (r.0 ≡ none → All (Durability.Has store r.1) (ids es))
      → (appended es p r).error ≡ none
      → All (Holds (appended es p r).sink) (ids es)
  unfolding appended
  appended-stores es p (none, s) h e = All-mono (ids es) (λ id k. inr k) (h refl)
  appended-stores es p (some x, s) h e = ground arith

  -- What is held before a write is held after it.
  after_primary-Holds :
      (reply : SinkReply P) (e : Option String) (s : S) (id : String)
      → Holds (reply.sink, s) id
      → Holds (after_primary (some spool) reply e s).sink id
  unfolding after_primary spool_batch
  after_primary-Holds reply none s id h = h
  after_primary-Holds reply (some e) s id (inl k) =
      appended-Holds reply.batch reply.sink _ id (inl k)
  after_primary-Holds reply (some e) s id (inr k) =
      appended-Holds reply.batch reply.sink _ id (inr (store.append_keeps _ s id k))

  after_primary-stores :
      (reply : SinkReply P) (e : Option String) (s : S)
      → (e ≡ none → All (Primary.Has primary reply.sink) (ids reply.batch))
      → (after_primary (some spool) reply e s).error ≡ none
      → All (Holds (after_primary (some spool) reply e s).sink) (ids reply.batch)
  unfolding after_primary spool_batch
  after_primary-stores reply none s h q = All-mono (ids reply.batch) (λ id k. inl k) (h refl)
  after_primary-stores reply (some e) s h q =
      appended-stores reply.batch reply.sink _
        (λ n.
          subst (All _) (ids-mark_spooled reply.batch) (store.takes (mark_spooled reply.batch) s n))
        q

  pub durable_write-Holds :
      (es : List Event) (state : P × S) (id : String)
      → Holds state id
      → Holds (durable_write both es state).sink id
  unfolding durable_write write_to
  durable_write-Holds [] state id h = h
  durable_write-Holds (e ∷ es) (p, s) id (inl h) =
      after_primary-Holds (sink.write_batch (e ∷ es) p) _ s id (inl (primary.keeps (e ∷ es) p id h))
  durable_write-Holds (e ∷ es) (p, s) id (inr h) =
      after_primary-Holds (sink.write_batch (e ∷ es) p) _ s id (inr h)

  -- A write that returns no error holds its batch.
  pub durable_write-stores :
      (es : List Event) (state : P × S)
      → (durable_write both es state).error ≡ none
      → All (Holds (durable_write both es state).sink) (ids es)
  unfolding durable_write write_to
  durable_write-stores [] state q = tt
  durable_write-stores (e ∷ es) (p, s) q =
      let reply = sink.write_batch (e ∷ es) p in
      let same = primary.same_ids (e ∷ es) p in
      subst (All (Holds (after_primary (some spool) reply reply.error s).sink)) same (
        after_primary-stores reply reply.error s
          (λ n.
            subst (All (Primary.Has primary reply.sink)) (sym same) (primary.takes (e ∷ es) p n))
          q)
