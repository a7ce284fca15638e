-- ===== src/Gateway/Streaming/Tests.antt =====
-- An example of a streamed response.
use kiwi_guard.Common.{
  ◌≡◌, some, ℕ, pos, Bool, true, false, ◌==◌, eq_string, eq_nat, List, [], ◌∷◌, ok, if◌then◌else◌,
}
use kiwi_guard.Common.Utf8.{Bytes}
use kiwi_guard.Gateway.Streaming.{new_stream_buffer}
use kiwi_guard.Gateway.Streaming.Sse.{at_eof, join}
use kiwi_guard.Gateway.Streaming.Session.{
  Session, Next, frame, Peers, handle_streaming, allowed_decision, blocked_decision,
}
use kiwi_guard.Gateway.Streaming.Passing.{Writes, raws, released, passing}
use kiwi_guard.Gateway.Streaming.Relaying.{IsStart, frames_of, relayed, relay-IsStart}
use kiwi_guard.Gateway.Streaming.Closing.{IsClosed, handle_streaming-sent}

abbrev contains : ℕ → Bytes → Bool
contains c [] = false
contains c (x ∷ xs) = if x == c then true else contains c xs

-- The text of a frame is what it holds; an `x` (120) is blocked, and the client takes all.
abbrev peers : Peers
peers = record {
  parse_delta = λ f. ok f.raw;
  evaluate_window = λ text. if contains 120 text then blocked_decision else allowed_decision;
  evaluate_whole = λ text. allowed_decision;
  accepts = λ written raw. true;
  part = λ written raw. 0;
}

abbrev piece : Bytes → Next
piece raw = frame (record {
  event = [];
  payload = raw;
  id = [];
  retry = [];
  comment = [];
  done = false;
  raw = raw;
})

-- The third frame is blocked: the second, held back when it comes, is not written.
abbrev inputs : List Next
inputs = piece (97 ∷ []) ∷ piece (98 ∷ []) ∷ piece (120 ∷ []) ∷ piece (99 ∷ []) ∷ []

handle_streaming-sent_example :
    Writes peers
      (handle_streaming peers (pos 1000) inputs)
      (raws (released (passing peers inputs (new_stream_buffer (pos 4096) (pos 1000)))))
    × IsClosed (handle_streaming peers (pos 1000) inputs)
handle_streaming-sent_example = handle_streaming-sent peers (pos 1000) inputs

-- Two events, the second without an end of line.
abbrev body : Bytes
body = 97 ∷ 10 ∷ 10 ∷ 98 ∷ []

abbrev event_of : Bytes → Next
event_of raw = frame (record {
  event = [];
  payload = [];
  id = [];
  retry = [];
  comment = [];
  done = false;
  raw = raw;
})

abbrev same_bytes : Bytes → Bytes
same_bytes text = text

abbrev events : List Next
events = event_of (97 ∷ 10 ∷ 10 ∷ []) ∷ event_of (98 ∷ []) ∷ []

relay-IsStart_example :
    (s : Session) × (relayed peers same_bytes false
        (pos 1000)
        body
        at_eof
        (frames_of peers same_bytes false (pos 1000) body at_eof)
      ≡ some s)
    × IsStart (join s.written) body
    × IsClosed s
relay-IsStart_example = relay-IsStart peers same_bytes false (pos 1000) body at_eof
