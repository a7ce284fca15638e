-- ===== src/Traffic/Durable/Accepting.antt =====
-- What the durable sink and the replay rest on: which events the primary sink and the spool have
-- accepted, whatever they do with them later
-- (internal/contexts/traffic/adapters/events/durable_sink.go and pipeline.go).
use kiwi_guard.Common.{
  ◌≤◌, ℤ, String, List, [], ◌∷◌, ◌++◌, Option, none, some, eq_string, map, Result, ok, err, ◌≡◌,
  refl, sym, ap, ◌∙◌, ◌⊎◌, inl, inr, All, In, In-append_left, In-append_right, arith,
}
use kiwi_guard.Traffic.Types.{Event, SinkReply, BatchSink}
use kiwi_guard.Traffic.Pipeline.{Pipeline, Flushed, flush}
use kiwi_guard.Traffic.Durable.{SpooledEvent, Spool, durable}
use kiwi_guard.Traffic.Durable.Replay.{
  replayed, replay_failed, settle_replay, replay_batch, replay_with, replay_once,
}
use kiwi_guard.Traffic.Durable.Holding.{ids, ids_of_records, Primary, Durability}
use kiwi_guard.Traffic.Durable.Flushing.{flush-stores}

-- A note of the events of a batch that has been accepted without an error.
abbrev pub noted : Option String → List String → List String → List String
noted none batch log = batch ++ log
noted (some e) batch log = log

-- A sink, with a note of the events that its writes have accepted.
abbrev pub noting_sink : {P : Type 0} → BatchSink P → BatchSink (P × List String)
noting_sink sink = record {
  write_batch = λ es (p, log).
      let reply = sink.write_batch es p in
      record {
        error = reply.error;
        batch = reply.batch;
        sink = (reply.sink, noted reply.error (ids es) log);
      };
}

-- A spool, with a note of the events that its appends have accepted.
abbrev pub noting_spool : {S : Type 0} → Spool S → Spool (S × List String)
noting_spool spool = record {
  append = λ es (s, log). let r = spool.append es s in (r.0, (r.1, noted r.0 (ids es) log));
  next_batch = λ n (s, log). let r = spool.next_batch n s in (r.0, (r.1, log));
  record_failure = λ rs e (s, log). let r = spool.record_failure rs e s in (r.0, (r.1, log));
  ack = λ rs (s, log). let r = spool.ack rs s in (r.0, (r.1, log));
}

-- A spool, with a note of the events that have been acknowledged since the last append.
abbrev pub acking_spool : {S : Type 0} → Spool S → Spool (S × List String)
acking_spool spool = record {
  append = λ es (s, log). let r = spool.append es s in (r.0, (r.1, []));
  next_batch = λ n (s, log). let r = spool.next_batch n s in (r.0, (r.1, log));
  record_failure = λ rs e (s, log). let r = spool.record_failure rs e s in (r.0, (r.1, log));
  ack = λ rs (s, log). let r = spool.ack rs s in (r.0, (r.1, ids_of_records rs ++ log));
}

All-prefix :
    (xs ys log : List String) → ((id : String) → In id xs → In id log) → All (λ id. In id log) xs
All-prefix [] ys log h = tt
All-prefix (x ∷ xs) ys log h = (h x (inl refl), All-prefix xs ys log (λ id k. h id (inr k)))

noted-takes :
    (e : Option String) (batch log : List String)
    → e ≡ none
    → All (λ id. In id (noted e batch log)) batch
noted-takes none batch log h =
    All-prefix batch log (batch ++ log) (λ id k. In-append_left id batch log k)
noted-takes (some e) batch log h = ground arith

noted-keeps :
    (e : Option String) (batch log : List String) (id : String)
    → In id log
    → In id (noted e batch log)
noted-keeps none batch log id k = In-append_right id batch log k
noted-keeps (some e) batch log id k = k

module _ {P S : Type 0} (sink : BatchSink P) (spool : Spool S)
    (same_ids : (es : List Event) (p : P) → ids (sink.write_batch es p).batch ≡ ids es) where
  abbrev noting_sink-Primary : Primary (noting_sink sink)
  noting_sink-Primary = record {
    Has = λ (p, log) id. In id log;
    takes = λ es (p, log) h. noted-takes _ (ids es) log h;
    keeps = λ es (p, log) id k. noted-keeps _ (ids es) log id k;
    same_ids = λ es (p, log). same_ids es p;
  }

  abbrev noting_spool-Durability : Durability (noting_spool spool)
  noting_spool-Durability = record {
    Has = λ (s, log) id. In id log;
    takes = λ es (s, log) h. noted-takes _ (ids es) log h;
    append_keeps = λ es (s, log) id k. noted-keeps _ (ids es) log id k;
  }

  -- With a positive batch size, and a primary sink that does not rename the events of a batch, a
  -- flush into the durable sink that returns no error has had every event of the queue accepted:
  -- in a write of the primary sink or in an append of the spool that returned no error. Nothing
  -- is supposed of the spool.
  pub flush-accepts :
      (q : Pipeline) (p : P) (s : S) (r : Flushed ((P × List String) × (S × List String)))
      → 1 ≤ q.batch_size
      → flush
          (some (
            durable
              (record { primary = some (noting_sink sink); spool = some (noting_spool spool) })))
          q
          ((p, []), (s, []))
        ≡ some r
      → r.error ≡ none
      → All (λ id. In id r.sink.0.1 ⊎ In id r.sink.1.1) (ids q.events)
  flush-accepts q p s r h e n =
      flush-stores (noting_sink sink) (noting_spool spool) noting_sink-Primary
        noting_spool-Durability q ((p, []), (s, [])) r h e n

ids-replayed : (rs : List SpooledEvent) → ids (map replayed rs) ≡ ids_of_records rs
unfolding replayed
ids-replayed [] = refl
ids-replayed (r ∷ rs) = ap (λ xs. r.event.event_id ∷ xs) (ids-replayed rs)

module _ {P S : Type 0} (sink : BatchSink P) (spool : Spool S) where
  -- The notes of the primary sink and of the spool.
  abbrev accepted : Option String × ((P × List String) × (S × List String)) → List String
  accepted r = r.1.0.1

  abbrev acknowledged : Option String × ((P × List String) × (S × List String)) → List String
  acknowledged r = r.1.1.1

  replay_failed_lem :
      (cause : String) (p : P × List String) (r : Option String × (S × List String))
      → (replay_failed cause p r).1 ≡ (p, r.1)
  unfolding replay_failed
  replay_failed_lem cause p (none, s) = refl
  replay_failed_lem cause p (some e, s) = refl

  settle_replay_lem :
      (rs : List SpooledEvent) (reply : SinkReply (P × List String)) (e : Option String) (s : S)
      → reply.sink.1 ≡ noted e (ids (map replayed rs)) []
      → acknowledged (settle_replay (acking_spool spool) rs reply e (s, []))
        ≡ accepted (settle_replay (acking_spool spool) rs reply e (s, []))
  unfolding settle_replay
  settle_replay_lem rs reply none s h = ap (λ xs. xs ++ []) (sym (ids-replayed rs)) ∙ sym h
  settle_replay_lem rs reply (some cause) s h =
      let same =
        replay_failed_lem cause reply.sink
          ((acking_spool spool).record_failure rs (some cause) (s, [])) in
      ap (λ (t : (P × List String) × (S × List String)). t.1.1) same
      ∙ sym h
      ∙ sym (ap (λ (t : (P × List String) × (S × List String)). t.0.1) same)

  replay_batch_lem :
      (found : Result String (List SpooledEvent)) (p : P) (s : S)
      → acknowledged (replay_batch (acking_spool spool) (noting_sink sink) found (p, []) (s, []))
        ≡ accepted (replay_batch (acking_spool spool) (noting_sink sink) found (p, []) (s, []))
  unfolding replay_batch
  replay_batch_lem (err e) p s = refl
  replay_batch_lem (ok []) p s = refl
  replay_batch_lem (ok (r ∷ rs)) p s =
      let reply = (noting_sink sink).write_batch (map replayed (r ∷ rs)) (p, []) in
      settle_replay_lem (r ∷ rs) reply reply.error s refl

  -- Whatever the primary sink and the spool do, a replay acknowledges to the spool exactly the
  -- events that a write of the primary sink in that replay has accepted, which is a write that
  -- returned no error, and in the same order: none if there is no such write.
  pub replay_once-acks :
      (n : ℤ) (p : P) (s : S)
      → (let after =
            replay_once
              (record {
                primary = some (noting_sink sink);
                spool = some (acking_spool spool);
                batch_size = n;
              })
              ((p, []), (s, [])) in
          after.1.1.1 ≡ after.1.0.1)
  unfolding replay_once replay_with
  replay_once-acks n p s = replay_batch_lem (spool.next_batch n s).0 p (spool.next_batch n s).1
