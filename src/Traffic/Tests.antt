-- ===== src/Traffic/Tests.antt =====
-- Examples of the event pipeline and the durable sink: a sink that can be down, and a spool in memory.
use kiwi_guard.Common.{
  pos, pos_part, String, Bool, true, false, ◌==◌, eq_string, List, [], ◌∷◌, ◌++◌, map, take, none,
  some, ok, ◌≡◌, refl, Option, ◌⊎◌, inr, if◌then◌else◌, All, In, arith,
}
use kiwi_guard.Traffic.Types.{EventContent, Event, SinkReply, BatchSink}
use kiwi_guard.Traffic.Pipeline.{
  Pipeline, PipelineOptions, new_pipeline, new_health_gate, write_marked, mark_sink_status,
  mark_write_succeeded, mark_healthy, next_batch, flush_rounds, settle, enqueue, flush, Flushed,
}
use kiwi_guard.Traffic.Pipeline.Draining.{Drains, flush-Drains, new_pipeline-batch_size}
use kiwi_guard.Traffic.Pipeline.Delivery.{
  Line, Reaches, starts, steps, enqueues, receives, writes, sent_by, recording, with_pipeline,
  IsInvariant, Reaches-IsInvariant,
}
use kiwi_guard.Traffic.Durable.{
  SpooledEvent, Spool, durable, durable_write, write_to, after_primary, spool_batch, appended,
  mark_spooled,
}
use kiwi_guard.Traffic.Durable.Replay.{replay_once, replay_with, replay_batch, settle_replay}
use kiwi_guard.Traffic.Durable.Holding.{ids, ids_of_records}
use kiwi_guard.Traffic.Durable.Accepting.{
  noting_sink, noting_spool, acking_spool, flush-accepts, replay_once-acks,
}

abbrev content : EventContent
content = record {
  schema_version = "1";
  event_time = pos 0;
  request_id = "r";
  correlation_id = "";
  config_revision_number = pos 1;
  snapshot_hash = "";
  client_id = "c";
  route_id = "chat";
  provider_id = "p";
  verdict_provider_id = "";
  policy_bundle_ids = [];
  http_method = "POST";
  api_path = "/v1/chat/completions";
  endpoint_kind = "chat_completions";
  requested_model = "m";
  mapped_model = "m";
  upstream_model = "m";
  gateway_status = 200;
  upstream_status = 200;
  error_type = "";
  block_reason = "";
  fallback_triggered = false;
  direction = "input";
  verdict = "allow";
  action = "allow";
  risk_level = "low";
  categories = [];
  confidence = 0;
  detector_categories = [];
  matched_span_count = 0;
  policy_rule_ids = [];
  request_hash = "";
  response_hash = "";
  request_payload = "";
  response_payload = "";
  request_bytes = pos 0;
  response_bytes = pos 0;
  gateway_latency = pos 0;
  detector_latency = pos 0;
  verdict_latency = pos 0;
  upstream_latency = pos 0;
  queue_delay = pos 0;
  total_latency = pos 0;
  streaming_chunk_count = pos 0;
  redaction_count = pos 0;
  termination_reason = "";
  partial_output = false;
  raw_capture_policy_id = "";
  retention_policy_id = "";
  capture_reference = "";
  dropped = false;
  drop_reason = "";
}

abbrev event : String → Event
event id = record {
  event_id = id;
  sink_status = "";
  spool_status = "";
  retry_count = 0;
  content = content;
}

abbrev spooled_event : String → Event
spooled_event id = record {
  event_id = id;
  sink_status = "spooled";
  spool_status = "spooled";
  retry_count = 0;
  content = content;
}

-- The event store: whether it is up, and its events.
abbrev store_write : List Event → Bool × List Event → SinkReply (Bool × List Event)
store_write es (true, held) = record { error = none; batch = es; sink = (true, held ++ es) }
store_write es (false, held) = record { error = some "down"; batch = es; sink = (false, held) }

abbrev event_store : BatchSink (Bool × List Event)
event_store = record { write_batch = store_write }

abbrev spooled : Event → SpooledEvent
spooled e = record {
  id = e.event_id;
  path = e.event_id;
  event = e;
  created_at = pos 0;
  retry_count = 0;
  last_error = "";
  size_bytes = pos 0;
}

abbrev member : String → List String → Bool
member id [] = false
member id (x ∷ xs) = if id == x then true else member id xs

abbrev acked : List SpooledEvent → List SpooledEvent → List SpooledEvent
acked rs [] = []
acked rs (r ∷ s) =
    let rest = acked rs s in if member r.event.event_id (ids_of_records rs) then rest else r ∷ rest

abbrev memory_spool : Spool (List SpooledEvent)
memory_spool = record {
  append = λ es s. (none, s ++ map spooled es);
  next_batch = λ n s. (ok (take (pos_part n) s), s);
  record_failure = λ rs e s. (none, s);
  ack = λ rs s. (none, acked rs s);
}

abbrev options : PipelineOptions
options = record {
  capacity = pos 3;
  batch_size = pos 2;
  strict_health_gate = some new_health_gate;
  mark_unhealthy_drop = true;
}

-- Three events in the queue.
abbrev filled : Pipeline
filled = record (new_pipeline options) { events = event "a" ∷ event "b" ∷ event "c" ∷ [] }

flush-Drains_example :
    Drains event_store filled.batch_size filled.events
      (record { error = none; pipeline = filled; sink = (true, []) })
      (flush (some event_store) filled (true, []))
flush-Drains_example = flush-Drains event_store filled (true, []) (new_pipeline-batch_size options)

abbrev first_line : Line (Bool × List Event)
first_line = record {
  state = record { error = none; pipeline = new_pipeline options; sink = ((true, []), []) };
  batch = [];
  sent = [];
}

-- An enqueue, the flusher's receipt of its event and its write.
abbrev second_line : Line (Bool × List Event)
second_line = sent_by first_line (enqueue none false (event "a") first_line.state.pipeline).1

abbrev third_line : Line (Bool × List Event)
third_line =
    record (with_pipeline (record second_line.state.pipeline { events = [] }) second_line) {
      batch = event "a" ∷ [];
    }

abbrev fourth_line : Line (Bool × List Event)
fourth_line = record third_line {
  state = write_marked (recording event_store) (event "a" ∷ []) third_line.state;
  batch = [];
}

fourth_line-Reaches : Reaches event_store options (true, []) fourth_line
unfolding enqueue new_pipeline
fourth_line-Reaches =
    steps third_line fourth_line
      (steps second_line third_line
        (steps first_line second_line starts (enqueues first_line none false (event "a")))
        (receives second_line (event "a") [] refl (omega arith)))
      (writes third_line (omega arith) (inr refl))

Reaches-IsInvariant_example : IsInvariant event_store fourth_line
Reaches-IsInvariant_example =
    Reaches-IsInvariant event_store options (true, []) fourth_line fourth_line-Reaches

-- The event store is down, and the spool takes the events.
abbrev flushed : Flushed (((Bool × List Event) × List String) × (List SpooledEvent × List String))
flushed = record {
  error = none;
  pipeline = record filled { events = [] };
  sink = (
    ((false, []), []),
    (
      spooled (spooled_event "a") ∷ spooled (spooled_event "b") ∷ spooled (spooled_event "c") ∷ [],
      "c" ∷ "a" ∷ "b" ∷ [],
    ),
  );
}

flushed_by :
    flush
      (some (
        durable (record {
          primary = some (noting_sink event_store);
          spool = some (noting_spool memory_spool);
        })))
      filled
      (((false, []), []), ([], []))
    ≡ some flushed
unfolding flush flush_rounds next_batch write_marked settle mark_sink_status mark_write_succeeded
    mark_healthy durable_write write_to after_primary spool_batch appended mark_spooled new_pipeline
    new_health_gate
flushed_by = refl

same_ids : (es : List Event) (p : Bool × List Event) → ids (store_write es p).batch ≡ ids es
same_ids es (true, held) = refl
same_ids es (false, held) = refl

flush-accepts_example :
    All (λ id. In id flushed.sink.0.1 ⊎ In id flushed.sink.1.1) (ids filled.events)
flush-accepts_example =
    flush-accepts event_store memory_spool same_ids filled (false, []) [] flushed
      (new_pipeline-batch_size options) flushed_by refl

-- The replay of the spool once the event store is up again.
abbrev replay :
    Option String × (((Bool × List Event) × List String) × (List SpooledEvent × List String))
replay =
    replay_once
      (record {
        primary = some (noting_sink event_store);
        spool = some (acking_spool memory_spool);
        batch_size = pos 2;
      })
      (((true, []), []), (flushed.sink.1.0, []))

replay_once-acks_example : replay.1.1.1 ≡ replay.1.0.1
replay_once-acks_example =
    replay_once-acks event_store memory_spool (pos 2) (true, []) flushed.sink.1.0

replayed_two : replay.1.1.1 ≡ "a" ∷ "b" ∷ []
unfolding replay_once replay_with replay_batch settle_replay
replayed_two = refl
