-- ===== src/Traffic/Pipeline/Draining.antt =====
-- The rounds of a flush (internal/contexts/traffic/adapters/events/pipeline.go).
use kiwi_guard.Common.{
  ℕ, zero, suc, ◌≤◌, ◌<◌, String, false, List, [], ◌∷◌, ◌++◌, Option, none, some, length,
  length-append, is_empty, ◌≡◌, refl, sym, ap, ◌∙◌, arith, All,
}
use kiwi_guard.Traffic.Types.{Event, SinkReply, BatchSink}
use kiwi_guard.Traffic.Pipeline.{
  Pipeline, PipelineOptions, new_pipeline, next_batch, mark_sink_status, Flushed, settle,
  write_marked, flush_rounds, flush, mark_write_failed, mark_write_succeeded,
}

pub next_batch-append :
    (size : ℕ) (es : List Event) → (next_batch size es).0 ++ (next_batch size es).1 ≡ es
unfolding next_batch
next_batch-append zero es = refl
next_batch-append (suc size) [] = refl
next_batch-append (suc size) (e ∷ es) = ap (λ xs. e ∷ xs) (next_batch-append size es)

pub next_batch-length : (size : ℕ) (es : List Event) → length (next_batch size es).0 ≤ size
unfolding next_batch
next_batch-length zero es = omega arith
next_batch-length (suc size) [] = omega arith
next_batch-length (suc size) (e ∷ es) = omega (arith, next_batch-length size es)

next_batch-nil : (size : ℕ) → next_batch size [] ≡ ([], [])
unfolding next_batch
next_batch-nil zero = refl
next_batch-nil (suc size) = refl

next_batch-full :
    (size : ℕ) (e : Event) (es : List Event)
    → 1 ≤ size
    → is_empty (next_batch size (e ∷ es)).0 ≡ false
unfolding next_batch
next_batch-full zero e es h = ground arith
next_batch-full (suc size) e es h = refl

next_batch-count :
    (size : ℕ) (e : Event) (es : List Event) → 1 ≤ size → 1 ≤ length (next_batch size (e ∷ es)).0
unfolding next_batch
next_batch-count zero e es h = ground arith
next_batch-count (suc size) e es h = omega arith

pub new_pipeline-batch_size : (opts : PipelineOptions) → 1 ≤ (new_pipeline opts).batch_size
unfolding new_pipeline
new_pipeline-batch_size opts = ground arith

-- Batches that a flush writes, each with at least one event and at most `size`.
abbrev pub IsBatch : ℕ → List Event → Type 0
IsBatch size batch = (1 ≤ length batch) × (length batch ≤ size)

abbrev pub events_of : List (List Event) → List Event
events_of [] = []
events_of (b ∷ bs) = b ++ events_of bs

module _ {S : Type 0} (out : BatchSink S) where
  abbrev pub write_all : List (List Event) → Flushed S → Flushed S
  write_all [] state = state
  write_all (b ∷ bs) state = write_all bs (write_marked out b state)

  abbrev pub with_events : List Event → Flushed S → Flushed S
  with_events es state = record state { pipeline = record state.pipeline { events = es } }

  settle-with_events :
      (es : List Event) (state : Flushed S) (reply : SinkReply S) (e : Option String)
      → settle out (with_events es state) reply e ≡ with_events es (settle out state reply e)
  unfolding settle mark_write_failed mark_write_succeeded
  settle-with_events es state reply none = refl
  settle-with_events es state reply (some e) = refl

  write_marked-with_events :
      (batch es : List Event) (state : Flushed S)
      → write_marked out batch (with_events es state)
        ≡ with_events es (write_marked out batch state)
  unfolding write_marked
  write_marked-with_events batch es state =
      let reply = out.write_batch (mark_sink_status "delivered" batch) state.sink in
      settle-with_events es state reply reply.error

  settle-batch_size :
      (state : Flushed S) (reply : SinkReply S) (e : Option String)
      → (settle out state reply e).pipeline.batch_size ≡ state.pipeline.batch_size
  unfolding settle mark_write_failed mark_write_succeeded
  settle-batch_size state reply none = refl
  settle-batch_size state reply (some e) = refl

  write_marked-batch_size :
      (batch : List Event) (state : Flushed S)
      → (write_marked out batch state).pipeline.batch_size ≡ state.pipeline.batch_size
  unfolding write_marked
  write_marked-batch_size batch state =
      let reply = out.write_batch (mark_sink_status "delivered" batch) state.sink in
      settle-batch_size state reply reply.error

  -- What a flush of the events does, and that it returns.
  abbrev pub Drains : ℕ → List Event → Flushed S → Option (Flushed S) → Type 0
  Drains size es state result =
      (bs : List (List Event)) × (events_of bs ≡ es)
      × All (IsBatch size) bs
      × (result ≡ some (write_all bs (with_events [] state)))

  flush_rounds-Drains :
      (fuel size : ℕ) (es : List Event) (state : Flushed S)
      → 1 ≤ size
      → state.pipeline.batch_size ≡ size
      → length es < fuel
      → Drains size es state (flush_rounds out fuel (with_events es state))
  unfolding flush_rounds
  flush_rounds-Drains zero size es state h b l = ground arith
  flush_rounds-Drains (suc fuel) size [] state h b l =
      rw (next_batch-nil state.pipeline.batch_size) ([], refl, tt, refl)
  flush_rounds-Drains (suc fuel) size (e ∷ es) state h b l =
      let k = state.pipeline.batch_size in
      let (batch, rest) = next_batch k (e ∷ es) in
      let at_least : 1 ≤ k = omega (arith, b, h) in
      let whole = next_batch-append k (e ∷ es) in
      let full = next_batch-full k e es at_least in
      let count = next_batch-count k e es at_least in
      let shorter : length rest < fuel =
        omega (arith, sym (length-append batch rest) ∙ ap (λ xs. length xs) whole, count, l) in
      let within : length batch ≤ size = omega (arith, next_batch-length k (e ∷ es), b) in
      let (bs, all, sizes, is) =
        flush_rounds-Drains fuel size rest (write_marked out batch state) h
          (write_marked-batch_size batch state ∙ b) shorter in
      (
        batch ∷ bs,
        ap (λ r. batch ++ r) all ∙ whole,
        ((count, within), sizes),
        rw
            (
              full,
              write_marked-with_events batch rest state,
              write_marked-with_events batch [] state,
            )
            is,
      )

-- A flush returns, and has then written all events of the queue in their order, in batches that are
-- neither empty nor larger than the batch size.
module _ {S : Type 0} where
  -- With a positive batch size, a flush that nothing else disturbs returns and leaves the
  -- channel empty: it has written the events of the queue in their order, in batches that have
  -- at least one event and at most the batch size, whether or not writes fail.
  pub flush-Drains :
      (out : BatchSink S) (p : Pipeline) (s : S)
      → 1 ≤ p.batch_size
      → Drains out p.batch_size p.events
          (record { error = none; pipeline = p; sink = s })
          (flush (some out) p s)
  unfolding flush
  flush-Drains out p s h =
      flush_rounds-Drains out (suc (length p.events)) p.batch_size p.events
        (record { error = none; pipeline = p; sink = s }) h refl (omega arith)
