-- ===== src/Traffic/Durable.antt =====
-- internal/contexts/traffic/adapters/events/durable_sink.go, and the interface of the spool in
-- spool.go: delivery with a spool that takes what the primary sink does not.
pub mod Replay
pub mod Holding
pub mod Flushing
pub mod Accepting
use kiwi_guard.Common.{
  ℕ, ◌+◌, ◌%◌, ◌^◌, ℤ, pos, String, ◌<>◌, Bool, true, false, List, [], ◌∷◌, map, Option, none, some,
  Result, ok, err, if◌then◌else◌, is_empty,
}
use kiwi_guard.Traffic.Types.{Event, SinkReply, BatchSink}
use kiwi_guard.Traffic.Pipeline.{wrapped}

-- Times are in nanoseconds.
pub record SpooledEvent : Type 0 where
  pub id : String
  pub path : String
  pub event : Event
  pub created_at : ℤ
  pub retry_count : ℕ
  pub last_error : String
  pub size_bytes : ℤ

-- The `Spool` interface, less its statistics.
pub record Spool (S : Type 0) : Type 0 where
  pub append : List Event → S → Option String × S
  pub next_batch : ℤ → S → Result String (List SpooledEvent) × S
  pub record_failure : List SpooledEvent → Option String → S → Option String × S
  pub ack : List SpooledEvent → S → Option String × S

-- The sinks of a `DurableSink`, either of which may be nil.
pub record DurableSink (P S : Type 0) : Type 0 where
  pub primary : Option (BatchSink P)
  pub spool : Option (Spool S)

unfoldable pub mark_spooled : List Event → List Event
mark_spooled events =
    map (λ (e : Event). record e { sink_status = "spooled"; spool_status = "spooled" }) events

module _ {P S : Type 0} where
  -- The end of `WriteBatch`, by the result of `Append`.
  unfoldable pub appended : List Event → P → Option String × S → SinkReply (P × S)
  unfolding mark_spooled
  appended batch p (none, s) = record { error = none; batch = mark_spooled batch; sink = (p, s) }
  appended batch p (some e, s) = record {
    error = wrapped "append event batch to spool: " (some e);
    batch = batch;
    sink = (p, s);
  }

  -- The spool's part of `WriteBatch`, with the batch as the primary sink leaves it.
  unfoldable pub spool_batch : Option (Spool S) → List Event → P × S → SinkReply (P × S)
  unfolding mark_spooled appended
  spool_batch none batch state = record {
    error = some "event spool is required after primary sink failure";
    batch = batch;
    sink = state;
  }
  spool_batch (some spool) batch (p, s) = appended batch p (spool.append (mark_spooled batch) s)

  -- The reply of the primary sink decides whether the batch is spooled.
  unfoldable pub after_primary :
      Option (Spool S) → SinkReply P → Option String → S → SinkReply (P × S)
  unfolding spool_batch
  after_primary spool reply none s = record {
    error = none;
    batch = reply.batch;
    sink = (reply.sink, s);
  }
  after_primary spool reply (some e) s = spool_batch spool reply.batch (reply.sink, s)

  unfoldable pub write_to :
      Option (BatchSink P) → Option (Spool S) → List Event → P × S → SinkReply (P × S)
  unfolding after_primary
  write_to none spool batch state = record {
    error = some "primary event sink is required";
    batch = batch;
    sink = state;
  }
  write_to (some primary) spool batch (p, s) =
      let reply = primary.write_batch batch p in after_primary spool reply reply.error s

  unfoldable pub durable_write : DurableSink P S → List Event → P × S → SinkReply (P × S)
  unfolding write_to
  durable_write d [] state = record { error = none; batch = []; sink = state }
  durable_write d (e ∷ es) state = write_to d.primary d.spool (e ∷ es) state

  -- The durable sink as a sink of the pipeline.
  abbrev pub durable : DurableSink P S → BatchSink (P × S)
  durable d = record { write_batch = durable_write d }
