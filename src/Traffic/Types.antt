-- ===== src/Traffic/Types.antt =====
-- internal/contexts/traffic/domain/types.go and adapters/events/types.go: the traffic event, and the
-- sink that batches of events are written to.
use kiwi_guard.Common.{ℕ, String, Bool, List, Option, ℤ}

-- The fields of `Event` that its delivery does not touch. Times and durations are in nanoseconds,
-- the confidence is in the unit of the model signal's.
pub record EventContent : Type 0 where
  pub schema_version : String
  pub event_time : ℤ
  pub request_id : String
  pub correlation_id : String
  pub config_revision_number : ℤ
  pub snapshot_hash : String
  pub client_id : String
  pub route_id : String
  pub provider_id : String
  pub verdict_provider_id : String
  pub policy_bundle_ids : List String
  pub http_method : String
  pub api_path : String
  pub endpoint_kind : String
  pub requested_model : String
  pub mapped_model : String
  pub upstream_model : String
  pub gateway_status : ℕ
  pub upstream_status : ℕ
  pub error_type : String
  pub block_reason : String
  pub fallback_triggered : Bool
  pub direction : String
  pub verdict : String
  pub action : String
  pub risk_level : String
  pub categories : List String
  pub confidence : ℕ
  pub detector_categories : List String
  pub matched_span_count : ℕ
  pub policy_rule_ids : List String
  pub request_hash : String
  pub response_hash : String
  pub request_payload : String
  pub response_payload : String
  pub request_bytes : ℤ
  pub response_bytes : ℤ
  pub gateway_latency : ℤ
  pub detector_latency : ℤ
  pub verdict_latency : ℤ
  pub upstream_latency : ℤ
  pub queue_delay : ℤ
  pub total_latency : ℤ
  pub streaming_chunk_count : ℤ
  pub redaction_count : ℤ
  pub termination_reason : String
  pub partial_output : Bool
  pub raw_capture_policy_id : String
  pub retention_policy_id : String
  pub capture_reference : String
  pub dropped : Bool
  pub drop_reason : String

-- `RetryCount` is a uint16.
pub record Event : Type 0 where
  pub event_id : String
  pub sink_status : String
  pub spool_status : String
  pub retry_count : ℕ
  pub content : EventContent

-- What a call of `WriteBatch` leaves: its error, the batch, whose events the sink may have changed,
-- and the sink.
pub record SinkReply (S : Type 0) : Type 0 where
  pub error : Option String
  pub batch : List Event
  pub sink : S

pub record BatchSink (S : Type 0) : Type 0 where
  pub write_batch : List Event → S → SinkReply S
