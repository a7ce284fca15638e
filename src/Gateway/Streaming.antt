-- ===== src/Gateway/Streaming.antt =====
-- internal/contexts/gateway/application/stream_buffer.go and streaming_output.go: the bounded state
-- of a streamed response, and the plans made for it.
pub mod Window
pub mod Sse
pub mod Session
pub mod Passing
pub mod Refusal
pub mod Release
pub mod Closing
pub mod Reading
pub mod Relaying
mod Tests
use kiwi_guard.Common.{
  ℕ, ◌+◌, ◌-◌, ℤ, pos, pos_part, ltb_ℤ, leb_ℤ, String, Bool, true, false, not, ◌&&◌, List, [], ◌∷◌,
  ◌++◌, if◌then◌else◌, ltb, length, drop, is_empty,
}
use kiwi_guard.Common.Utf8.{Bytes, runes, encode}
use kiwi_guard.Policy.Types.{Decision}
use kiwi_guard.Gateway.Lifecycle.{classify_streaming_delta}

-- The limits are Go ints; the window's text is a slice of runes.
pub record StreamWindow : Type 0 where
  pub limit : ℤ
  pub text : List ℕ

pub record StreamTextCollector : Type 0 where
  pub limit : ℤ
  pub buf : Bytes

pub record StreamBuffer : Type 0 where
  pub window : StreamWindow
  pub collector : StreamTextCollector

pub record StreamDeltaObservation : Type 0 where
  pub window_text : Bytes
  pub collection_accepted : Bool

unfoldable pub new_stream_buffer : ℤ → ℤ → StreamBuffer
new_stream_buffer window_limit collection_limit = record {
  window = record { limit = window_limit; text = [] };
  collector = record { limit = collection_limit; buf = [] };
}

-- `w.text[len(w.text)-limit:]` where the text is longer than the limit.
abbrev pub keep_last : ℕ → List ℕ → List ℕ
keep_last limit text = if ltb limit (length text) then drop (length text - limit) text else text

unfoldable pub append_window : Bytes → StreamWindow → StreamWindow
append_window text w =
    if leb_ℤ w.limit (pos 0)
    then record w { text = [] }
    else record w { text = keep_last (pos_part w.limit) (w.text ++ runes text) }

unfoldable pub window_text_of : StreamWindow → Bytes
window_text_of w = encode w.text

-- The result, and the collector after the call.
unfoldable pub append_collector : Bytes → StreamTextCollector → Bool × StreamTextCollector
append_collector text c =
    if leb_ℤ c.limit (pos 0)
    then (false, c)
    else if ltb_ℤ c.limit (pos (length c.buf + length text))
    then (false, c)
    else (true, record c { buf = c.buf ++ text })

unfoldable pub observe_delta : Bytes → StreamBuffer → StreamDeltaObservation × StreamBuffer
observe_delta text b =
    let window = append_window text b.window in
    let (accepted, collector) = append_collector text b.collector in
    (
      record { window_text = window_text_of window; collection_accepted = accepted },
      record { window = window; collector = collector },
    )

unfoldable pub collected_text : StreamBuffer → Bytes
collected_text b = b.collector.buf

pub data Action : Type 0 where
  continue evaluate_policy write_pending terminate complete emit : Action

pub record Plan : Type 0 where
  pub action : Action
  pub policy_text : Bytes
  pub collection_accepted : Bool
  pub force_blocked_output : Bool
  pub termination_reason : String

-- The plan with an action and no other field.
abbrev pub only : Action → Plan
only action = record {
  action = action;
  policy_text = [];
  collection_accepted = false;
  force_blocked_output = false;
  termination_reason = "";
}

-- The plan, and the buffer that `ObserveDelta` leaves.
unfoldable pub plan_delta : Bytes → StreamBuffer → Plan × StreamBuffer
plan_delta text buffer =
    let (observation, buffer') = observe_delta text buffer in
    if is_empty text then (only continue, buffer) else (
      record (only evaluate_policy) {
        policy_text = observation.window_text;
        collection_accepted = observation.collection_accepted;
      },
      buffer',
    )

-- Arguments: the decision and `CollectionAccepted`.
unfoldable pub plan_stream_policy : Decision → Bool → Plan
unfolding classify_streaming_delta
plan_stream_policy decision collection_accepted =
    let streaming = classify_streaming_delta (record {
      delta_observed = true;
      policy_decision = decision;
      collection_accepted = collection_accepted;
    }) in
    if streaming.terminated
    then record (only terminate) {
      force_blocked_output = not collection_accepted;
      termination_reason = streaming.termination_reason;
    }
    else only continue

-- Arguments: `HasPending` and `Done`.
unfoldable pub plan_frame : Bool → Bool → Plan
plan_frame has_pending done =
    if done then only complete else if has_pending then only write_pending else only continue

-- Arguments: `PolicyAllowed` and `CollectedText`.
unfoldable pub plan_final : Bool → Bytes → Plan
plan_final policy_allowed collected =
    if policy_allowed && not (is_empty collected)
    then record (only evaluate_policy) { policy_text = collected }
    else only emit
