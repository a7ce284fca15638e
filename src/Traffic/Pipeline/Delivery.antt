-- ===== src/Traffic/Pipeline/Delivery.antt =====
-- The interleavings of the gateway's enqueues with the rounds of the flusher
-- (internal/contexts/traffic/adapters/events/pipeline.go).
use kiwi_guard.Common.{
  ◌≤◌, ◌<◌, String, Bool, List, [], ◌∷◌, ◌++◌, append_assoc, append-nil, filter, drop, drop_all,
  drop-append, length-append, Option, none, some, length, ◌==◌, eq_string, ◌≡◌, refl, sym, ap, ◌∙◌,
  ◌⊎◌, inl, inr, arith, Bool-cases, subst,
}
use kiwi_guard.Traffic.Types.{Event, SinkReply, BatchSink}
use kiwi_guard.Traffic.Pipeline.{
  Pipeline, PipelineOptions, new_pipeline, enqueue, close, drop_event, mark_drop_unhealthy,
  mark_sink_status, Flushed, settle, write_marked, mark_write_failed, mark_write_succeeded,
  end_flush,
}
use kiwi_guard.Traffic.Pipeline.Queueing.{enqueue-Outcomes}

-- A sink together with the events that it has been given.
abbrev pub recording : {S : Type 0} → BatchSink S → BatchSink (S × List Event)
recording out = record {
  write_batch = λ batch s.
      let reply = out.write_batch batch s.0 in
      record { error = reply.error; batch = reply.batch; sink = (reply.sink, s.1 ++ batch) };
}

abbrev pub delivered : List Event → List Event
delivered events = filter (λ (e : Event). e.sink_status == "delivered") events

-- The flusher with the batch that it is receiving, and the events that enqueues have sent.
pub record Line (S : Type 0) : Type 0 where
  pub state : Flushed (S × List Event)
  pub batch : List Event
  pub sent : List Event

abbrev pub channel : {S : Type 0} → Line S → List Event
channel l = l.state.pipeline.events

abbrev pub with_pipeline : {S : Type 0} → Pipeline → Line S → Line S
with_pipeline p l = record l { state = record l.state { pipeline = p } }

-- The line when an enqueue has left this pipeline: what it put last in the channel is sent.
abbrev pub sent_by : {S : Type 0} → Line S → Pipeline → Line S
sent_by l p = record (with_pipeline p l) { sent = l.sent ++ drop (length (channel l)) p.events }

module _ {S : Type 0} (out : BatchSink S) where
  -- A request enqueues, the flusher receives an event, writes a batch that is full or has emptied the
  -- channel, or ends a flush, and the pipeline is closed.
  pub data Step : Line S → Line S → Type 0 where
    enqueues :
        (l : Line S) (ctx_error : Option String) (prefers_done : Bool) (event : Event)
        → Step l (sent_by l (enqueue ctx_error prefers_done event l.state.pipeline).1)
    receives :
        (l : Line S) (event : Event) (rest : List Event)
        → channel l ≡ event ∷ rest
        → length l.batch < l.state.pipeline.batch_size
        → Step l (record (with_pipeline (record l.state.pipeline { events = rest }) l) {
          batch = l.batch ++ event ∷ [];
        })
    writes :
        (l : Line S)
        → 1 ≤ length l.batch
        → ((length l.batch ≡ l.state.pipeline.batch_size) ⊎ (channel l ≡ []))
        → Step l (record l { state = write_marked (recording out) l.batch l.state; batch = [] })
    ends :
        (l : Line S)
        → l.batch ≡ []
        → channel l ≡ []
        → Step l (record l {
          state = record l.state {
            error = none;
            pipeline = end_flush l.state.error l.state.pipeline;
          };
        })
    closes : (l : Line S) → Step l (with_pipeline (close l.state.pipeline) l)

  pub data Reaches (opts : PipelineOptions) (s : S) : Line S → Type 0 where
    starts : Reaches opts s (record {
      state = record { error = none; pipeline = new_pipeline opts; sink = (s, []) };
      batch = [];
      sent = [];
    })
    steps : (l l' : Line S) → Reaches opts s l → Step l l' → Reaches opts s l'

  -- What was sent has been given to the sink, is in the flusher's batch or is in the channel.
  abbrev pub Conserves : Line S → Type 0
  Conserves l =
      delivered l.state.sink.1 ++ mark_sink_status "delivered" (l.batch ++ channel l)
      ≡ mark_sink_status "delivered" l.sent

  delivered-marked :
      (es : List Event)
      → delivered (mark_sink_status "delivered" es) ≡ mark_sink_status "delivered" es
  unfolding mark_sink_status
  delivered-marked [] = refl
  delivered-marked (e ∷ es) =
      ap (λ xs. record e { sink_status = "delivered" } ∷ xs) (delivered-marked es)

  delivered-failed : (es : List Event) → delivered (mark_sink_status "failed" es) ≡ []
  unfolding mark_sink_status
  delivered-failed [] = refl
  delivered-failed (e ∷ es) = delivered-failed es

  delivered-append : (xs ys : List Event) → delivered (xs ++ ys) ≡ delivered xs ++ delivered ys
  delivered-append [] ys = refl
  delivered-append (x ∷ xs) ys = elim (Bool-cases (x.sink_status == "delivered")) [
    | inl e ↦ rw e (ap (λ zs. x ∷ zs) (delivered-append xs ys))
    | inr e ↦ rw e (delivered-append xs ys)
  ]

  mark_sink_status-append :
      (status : String) (xs ys : List Event)
      → mark_sink_status status (xs ++ ys)
        ≡ mark_sink_status status xs ++ mark_sink_status status ys
  unfolding mark_sink_status
  mark_sink_status-append status [] ys = refl
  mark_sink_status-append status (x ∷ xs) ys =
      ap (λ zs. record x { sink_status = status } ∷ zs) (mark_sink_status-append status xs ys)

  -- A round gives the sink its batch once as delivered, and leaves the channel as it is.
  settle-log :
      (state : Flushed (S × List Event)) (reply : SinkReply (S × List Event)) (e : Option String)
      → (delivered (settle (recording out) state reply e).sink.1 ≡ delivered reply.sink.1)
        × ((settle (recording out) state reply e).pipeline.events ≡ state.pipeline.events)
        × ((settle (recording out) state reply e).pipeline.capacity ≡ state.pipeline.capacity)
  unfolding settle mark_write_failed mark_write_succeeded
  settle-log state reply none = (refl, refl, refl)
  settle-log state reply (some e) = (
    delivered-append reply.sink.1 _
        ∙ ap (λ xs. delivered reply.sink.1 ++ xs) (delivered-failed reply.batch)
        ∙ append-nil _,
    refl,
    refl,
  )

  abbrev Keeps : Flushed (S × List Event) → Flushed (S × List Event) → Type 0
  Keeps state after =
      (after.pipeline.events ≡ state.pipeline.events)
      × (after.pipeline.capacity ≡ state.pipeline.capacity)

  -- The flusher's part of the conservation, with the batch given to the sink.
  write_marked-log :
      (batch : List Event) (state : Flushed (S × List Event))
      → delivered (write_marked (recording out) batch state).sink.1
        ≡ delivered state.sink.1 ++ mark_sink_status "delivered" batch
  unfolding write_marked
  write_marked-log batch state =
      let reply = (recording out).write_batch (mark_sink_status "delivered" batch) state.sink in
      (settle-log state reply reply.error).0
      ∙ delivered-append state.sink.1 _
      ∙ ap (λ xs. delivered state.sink.1 ++ xs) (delivered-marked batch)

  abbrev pub IsInvariant : Line S → Type 0
  IsInvariant l = Conserves l × (length (channel l) ≤ l.state.pipeline.capacity)

  drop-sent : (es : List Event) (new : List Event) → drop (length es) (es ++ new) ≡ new
  drop-sent es new =
      drop-append (length es) es new (omega arith)
      ∙ ap (λ xs. xs ++ new) (drop_all (length es) es (omega arith))

  -- More in the channel and as much more sent.
  Conserves-more :
      (log batch events sent new : List Event)
      → log ++ mark_sink_status "delivered" (batch ++ events) ≡ mark_sink_status "delivered" sent
      → log ++ mark_sink_status "delivered" (batch ++ (events ++ new))
        ≡ mark_sink_status "delivered" (sent ++ drop (length events) (events ++ new))
  Conserves-more log batch events sent new k =
      let mark = mark_sink_status "delivered" in
      ap (λ xs. log ++ mark xs) (sym (append_assoc batch events new))
      ∙ ap (λ xs. log ++ xs) (mark_sink_status-append "delivered" (batch ++ events) new)
      ∙ sym (append_assoc log (mark (batch ++ events)) (mark new))
      ∙ ap (λ xs. xs ++ mark new) k
      ∙ sym (mark_sink_status-append "delivered" sent new)
      ∙ ap (λ xs. mark (sent ++ xs)) (sym (drop-sent events new))

  -- An enqueue that adds nothing to the channel.
  enqueue_nothing :
      (l : Line S) (p : Pipeline)
      → p.events ≡ channel l ++ []
      → p.capacity ≡ l.state.pipeline.capacity
      → IsInvariant l
      → IsInvariant (sent_by l p)
  enqueue_nothing l p e c (k, b) = (
    subst
        (λ es.
          delivered l.state.sink.1 ++ mark_sink_status "delivered" (l.batch ++ es)
          ≡ mark_sink_status "delivered" (l.sent ++ drop (length (channel l)) es))
        (sym e) (Conserves-more (delivered l.state.sink.1) l.batch (channel l) l.sent [] k),
    omega (arith, ap (λ xs. length xs) e, length-append (channel l) [], c, b),
  )

  enqueue-IsInvariant :
      (l : Line S) (ctx_error : Option String) (prefers_done : Bool) (event : Event)
      → IsInvariant l
      → IsInvariant (sent_by l (enqueue ctx_error prefers_done event l.state.pipeline).1)
  unfolding drop_event mark_drop_unhealthy
  enqueue-IsInvariant l c f event (k, b) =
      let p = l.state.pipeline in
      let log = delivered l.state.sink.1 in
      elim (enqueue-Outcomes c f event p) [
        | inl (r, o, room) ↦
            subst (λ q. IsInvariant (sent_by l q.1)) (sym r)
              (
                Conserves-more log l.batch (channel l) l.sent (event ∷ []) k,
                omega (arith, room, length-append (channel l) (event ∷ [])),
              )
        | inr (inl (e, is, r, o)) ↦
            subst (λ q. IsInvariant (sent_by l q.1)) (sym r)
              (enqueue_nothing l p (sym (append-nil _)) refl (k, b))
        | inr (inr (r, why)) ↦
            subst (λ q. IsInvariant (sent_by l q.1)) (sym r)
              (enqueue_nothing l (drop_event p) (sym (append-nil _)) refl (k, b))
      ]

  end_flush-keeps :
      (e : Option String) (p : Pipeline)
      → ((end_flush e p).events ≡ p.events) × ((end_flush e p).capacity ≡ p.capacity)
  unfolding end_flush mark_write_failed
  end_flush-keeps none p = (refl, refl)
  end_flush-keeps (some e) p = (refl, refl)

  writes-IsInvariant :
      (l : Line S)
      → IsInvariant l
      → IsInvariant (record l { state = write_marked (recording out) l.batch l.state; batch = [] })
  unfolding write_marked
  writes-IsInvariant l (k, b) =
      let mark = mark_sink_status "delivered" in
      let log = delivered l.state.sink.1 in
      let reply = (recording out).write_batch (mark l.batch) l.state.sink in
      let (given, same, room) = settle-log l.state reply reply.error in
      let after = (settle (recording out) l.state reply reply.error).pipeline.events in
      (
        ap (λ xs. xs ++ mark after) (write_marked-log l.batch l.state)
            ∙ append_assoc log (mark l.batch) (mark after)
            ∙ ap (λ xs. log ++ xs) (sym (mark_sink_status-append "delivered" l.batch after))
            ∙ ap (λ xs. log ++ mark (l.batch ++ xs)) same
            ∙ k,
        omega (arith, ap (λ xs. length xs) same, room, b),
      )

  Step-IsInvariant : (l l' : Line S) → Step l l' → IsInvariant l → IsInvariant l'
  unfolding close
  Step-IsInvariant _ _ (enqueues l c f e) h = enqueue-IsInvariant l c f e h
  Step-IsInvariant _ _ (receives l e rest h n) (k, b) = (
    ap (λ xs. delivered l.state.sink.1 ++ mark_sink_status "delivered" xs)
          (append_assoc l.batch (e ∷ []) rest ∙ ap (λ xs. l.batch ++ xs) (sym h))
        ∙ k,
    omega (arith, ap (λ xs. length xs) h, b),
  )
  Step-IsInvariant _ _ (writes l n h) kb = writes-IsInvariant l kb
  Step-IsInvariant _ _ (ends l h h') (k, b) =
      let (same, room) = end_flush-keeps l.state.error l.state.pipeline in
      (
        ap (λ xs. delivered l.state.sink.1 ++ mark_sink_status "delivered" (l.batch ++ xs)) same
            ∙ k,
        omega (arith, ap (λ xs. length xs) same, room, b),
      )
  Step-IsInvariant _ _ (closes l) (k, b) = (k, b)

  -- However enqueues, receipts, writes, ends of flushes and the close are interleaved, from a
  -- new pipeline on, the events that enqueues have put in the channel are, in their order,
  -- those that the sink has been given as delivered, each once, then those of the flusher's
  -- batch, then those in the channel; and the channel never holds more than its capacity.
  pub Reaches-IsInvariant :
      (opts : PipelineOptions) (s : S) (l : Line S) → Reaches opts s l → IsInvariant l
  unfolding new_pipeline mark_sink_status
  Reaches-IsInvariant opts s _ starts = (refl, omega arith)
  Reaches-IsInvariant opts s _ (steps l l' r h) =
      Step-IsInvariant l l' h (Reaches-IsInvariant opts s l r)
