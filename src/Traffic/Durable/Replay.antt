-- ===== src/Traffic/Durable/Replay.antt =====
-- internal/contexts/traffic/adapters/events/durable_sink.go: the worker that replays the spool to the
-- primary sink.
use kiwi_guard.Common.{
  ◌+◌, ◌%◌, ◌^◌, ℤ, pos, leb_ℤ, String, List, [], ◌∷◌, map, Option, none, some, Result, ok, err,
  if◌then◌else◌,
}
use kiwi_guard.Traffic.Types.{Event, SinkReply, BatchSink}
use kiwi_guard.Traffic.Pipeline.{wrapped}
use kiwi_guard.Traffic.Durable.{SpooledEvent, Spool}

pub record ReplayWorker (P S : Type 0) : Type 0 where
  pub primary : Option (BatchSink P)
  pub spool : Option (Spool S)
  pub batch_size : ℤ

-- The event of a record, with the count of a uint16.
unfoldable pub replayed : SpooledEvent → Event
replayed r = record r.event {
  spool_status = "replayed";
  retry_count = (r.retry_count + 1) % 2 ^ 16;
}

module _ {P S : Type 0} where
  unfoldable pub new_replay_worker : Option (BatchSink P) → Option (Spool S) → ℤ → ReplayWorker P S
  new_replay_worker primary spool batch_size = record {
    primary = primary;
    spool = spool;
    batch_size = if leb_ℤ batch_size (pos 0) then pos 100 else batch_size;
  }

  -- The end of a replay that failed, by the result of `RecordFailure`.
  unfoldable pub replay_failed : String → P → Option String × S → Option String × (P × S)
  replay_failed cause p (some e, s) =
      (wrapped "record event spool replay failure: " (some e), (p, s))
  replay_failed cause p (none, s) = (wrapped "replay event spool batch: " (some cause), (p, s))

  module _ (spool : Spool S) where
    -- The end of a replay, by the reply of the primary sink.
    unfoldable pub settle_replay :
        List SpooledEvent → SinkReply P → Option String → S → Option String × (P × S)
    unfolding replay_failed
    settle_replay records reply none s =
        let (e, s') = spool.ack records s in (wrapped "ack event spool batch: " e, (reply.sink, s'))
    settle_replay records reply (some cause) s =
        replay_failed cause reply.sink (spool.record_failure records (some cause) s)

    unfoldable pub replay_batch :
        BatchSink P → Result String (List SpooledEvent) → P → S → Option String × (P × S)
    unfolding replayed settle_replay
    replay_batch primary (err e) p s = (wrapped "read event spool batch: " (some e), (p, s))
    replay_batch primary (ok []) p s = (none, (p, s))
    replay_batch primary (ok (r ∷ rs)) p s =
        let reply = primary.write_batch (map replayed (r ∷ rs)) p in
        settle_replay (r ∷ rs) reply reply.error s

  unfoldable pub replay_with :
      Option (BatchSink P) → Option (Spool S) → ℤ → P × S → Option String × (P × S)
  unfolding replay_batch
  replay_with none spool batch_size state = (some "primary event sink is required", state)
  replay_with (some primary) none batch_size state = (some "event spool is required", state)
  replay_with (some primary) (some spool) batch_size (p, s) =
      let (found, s') = spool.next_batch batch_size s in replay_batch spool primary found p s'

  unfoldable pub replay_once : ReplayWorker P S → P × S → Option String × (P × S)
  unfolding replay_with
  replay_once w state = replay_with w.primary w.spool w.batch_size state
