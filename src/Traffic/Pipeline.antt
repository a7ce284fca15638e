-- ===== src/Traffic/Pipeline.antt =====
-- internal/contexts/traffic/adapters/events/pipeline.go and health.go: the queue between the gateway
-- and the event sink.
pub mod Draining
pub mod Queueing
pub mod Delivery
use kiwi_guard.Common.{
  ℕ, zero, suc, ◌+◌, ◌%◌, ◌^◌, ℤ, pos, pos_part, leb_ℤ, String, ◌<>◌, Bool, true, false, not, List,
  [], ◌∷◌, ◌++◌, map, Option, none, some, if◌then◌else◌, ltb, length, is_empty,
}
use kiwi_guard.Traffic.Types.{Event, SinkReply, BatchSink}

pub record HealthGate : Type 0 where
  pub healthy : Bool
  pub reason : String

unfoldable pub new_health_gate : HealthGate
new_health_gate = record { healthy = true; reason = "" }

-- The gate is a pointer that may be nil.
unfoldable pub healthy : Option HealthGate → Bool
healthy none = true
healthy (some g) = g.healthy

unfoldable pub reason_of : Option HealthGate → String
reason_of none = ""
reason_of (some g) = g.reason

unfoldable pub mark_healthy : Option HealthGate → Option HealthGate
mark_healthy none = none
mark_healthy (some g) = some (record { healthy = true; reason = "" })

unfoldable pub mark_unhealthy : String → Option HealthGate → Option HealthGate
mark_unhealthy reason none = none
mark_unhealthy reason (some g) = some (record { healthy = false; reason = reason })

pub record PipelineOptions : Type 0 where
  pub capacity : ℤ
  pub batch_size : ℤ
  pub strict_health_gate : Option HealthGate
  pub mark_unhealthy_drop : Bool

-- `events` is the content of the channel, and `capacity` the channel's.
pub record Pipeline : Type 0 where
  pub events : List Event
  pub capacity : ℕ
  pub batch_size : ℕ
  pub strict_health_gate : Option HealthGate
  pub mark_unhealthy_drop : Bool
  pub closed : Bool
  pub dropped : ℕ
  pub last_error : String

abbrev default_pipeline_capacity : ℕ
default_pipeline_capacity = 1024

abbrev pub default_pipeline_batch_size : ℕ
default_pipeline_batch_size = 100

abbrev pub uint64_modulus : ℕ
uint64_modulus = 2 ^ 64

-- A Go int, or the default in place of one that is not positive.
abbrev pub or_default : ℕ → ℤ → ℕ
or_default default n = if leb_ℤ n (pos 0) then default else pos_part n

unfoldable pub new_pipeline : PipelineOptions → Pipeline
new_pipeline opts = record {
  events = [];
  capacity = or_default default_pipeline_capacity opts.capacity;
  batch_size = or_default default_pipeline_batch_size opts.batch_size;
  strict_health_gate = opts.strict_health_gate;
  mark_unhealthy_drop = opts.mark_unhealthy_drop;
  closed = false;
  dropped = 0;
  last_error = "";
}

unfoldable pub mark_drop_unhealthy : Pipeline → Pipeline
unfolding mark_unhealthy
mark_drop_unhealthy p = record p {
  strict_health_gate =
      if p.mark_unhealthy_drop
      then mark_unhealthy "event_queue_saturated" p.strict_health_gate
      else p.strict_health_gate;
}

unfoldable pub drop_event : Pipeline → Pipeline
unfolding mark_drop_unhealthy
drop_event p = mark_drop_unhealthy (record p { dropped = (p.dropped + 1) % uint64_modulus })

abbrev pub has_room : Pipeline → Bool
has_room p = ltb (length p.events) p.capacity

-- The select of `Enqueue`. `ctx_error` is the error of a context that is done. Where the context is
-- done and the channel has room, it takes either case: `prefers_done` says which.
unfoldable pub select_enqueue :
    Option String → Bool → Bool → Event → Pipeline → Option String × Pipeline
unfolding drop_event
select_enqueue none prefers_done true event p = (none, record p { events = p.events ++ event ∷ [] })
select_enqueue none prefers_done false event p = (none, drop_event p)
select_enqueue (some e) true true event p = (some e, p)
select_enqueue (some e) false true event p = (none, record p { events = p.events ++ event ∷ [] })
select_enqueue (some e) prefers_done false event p = (some e, p)

unfoldable pub enqueue : Option String → Bool → Event → Pipeline → Option String × Pipeline
unfolding drop_event select_enqueue
enqueue ctx_error prefers_done event p =
    if p.closed
    then (none, drop_event p)
    else select_enqueue ctx_error prefers_done (has_room p) event p

-- The first `size` events of the channel, and those left in it.
unfoldable pub next_batch : ℕ → List Event → List Event × List Event
next_batch zero events = ([], events)
next_batch (suc size) [] = ([], [])
next_batch (suc size) (e ∷ events) = let (batch, rest) = next_batch size events in (e ∷ batch, rest)

unfoldable pub mark_sink_status : String → List Event → List Event
mark_sink_status status events = map (λ (e : Event). record e { sink_status = status }) events

abbrev pub stored : Option String → String → String
stored none old = old
stored (some e) old = e

unfoldable pub mark_write_failed : Option String → Pipeline → Pipeline
unfolding mark_unhealthy
mark_write_failed e p = record p {
  last_error = stored e p.last_error;
  strict_health_gate = mark_unhealthy "clickhouse_write_failed" p.strict_health_gate;
}

unfoldable pub mark_write_succeeded : Pipeline → Pipeline
unfolding mark_healthy
mark_write_succeeded p = record p {
  last_error = "";
  strict_health_gate = mark_healthy p.strict_health_gate;
}

-- `fmt.Errorf` with the error last, of an error that may be nil.
abbrev pub wrapped : String → Option String → Option String
wrapped context none = none
wrapped context (some e) = some (context <> e)

-- The first error that is not nil.
abbrev pub first_of : Option String → Option String → Option String
first_of (some e) other = some e
first_of none other = other

unfoldable pub discard_queued : Pipeline → Pipeline
discard_queued p = record p { events = [] }

unfoldable pub close : Pipeline → Pipeline
close p = record p { closed = true }

pub record Flushed (S : Type 0) : Type 0 where
  pub error : Option String
  pub pipeline : Pipeline
  pub sink : S

-- What `Run` does with the error of a flush.
unfoldable pub end_flush : Option String → Pipeline → Pipeline
unfolding mark_write_failed
end_flush none p = p
end_flush (some e) p = mark_write_failed (some e) p

module _ {S : Type 0} (out : BatchSink S) where
  open out use {write_batch}

  -- The end of a round, by the error of its first write.
  unfoldable pub settle : Flushed S → SinkReply S → Option String → Flushed S
  unfolding mark_sink_status mark_write_failed mark_write_succeeded
  settle state reply none = record {
    error = state.error;
    pipeline = mark_write_succeeded state.pipeline;
    sink = reply.sink;
  }
  settle state reply (some e) =
      let first = first_of state.error (wrapped "flush event batch: " (some e)) in
      let again = write_batch (mark_sink_status "failed" reply.batch) reply.sink in
      let first' = first_of first (wrapped "flush failed event status: " again.error) in
      record {
        error = first';
        pipeline = mark_write_failed first' state.pipeline;
        sink = again.sink;
      }

  -- A round of `Flush` on a batch that is not empty.
  unfoldable pub write_marked : List Event → Flushed S → Flushed S
  unfolding mark_sink_status settle
  write_marked batch state =
      let reply = write_batch (mark_sink_status "delivered" batch) state.sink in
      settle state reply reply.error

  -- The rounds of `Flush`: none where the fuel does not last until the channel is empty.
  unfoldable pub flush_rounds : ℕ → Flushed S → Option (Flushed S)
  unfolding next_batch write_marked
  flush_rounds zero state = none
  flush_rounds (suc fuel) state =
      let (batch, rest) = next_batch state.pipeline.batch_size state.pipeline.events in
      let taken = record state { pipeline = record state.pipeline { events = rest } } in
      let more = flush_rounds fuel (write_marked batch taken) in
      if is_empty batch then some taken else more

-- `Flush`, where nothing else uses the channel.
module _ {S : Type 0} where
  unfoldable pub flush : Option (BatchSink S) → Pipeline → S → Option (Flushed S)
  unfolding flush_rounds discard_queued
  flush none p s = some (record { error = none; pipeline = discard_queued p; sink = s })
  flush (some out) p s =
      flush_rounds out (suc (length p.events)) (record { error = none; pipeline = p; sink = s })
