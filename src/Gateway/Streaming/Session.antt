-- ===== src/Gateway/Streaming/Session.antt =====
-- internal/contexts/gateway/adapters/http/openai/streaming_handler.go: the loop that proxies a
-- streamed response under the output policy.
use Prim.Native.Char.{code}
use kiwi_guard.Common.{
  ℕ, suc, ◌+◌, ℤ, pos, String, Bool, true, false, not, ◌||◌, List, [], ◌∷◌, ◌++◌, Option, none,
  some, Result, ok, err, ◌==◌, eq_string, if◌then◌else◌, length, is_empty, take, drop, ◌-◌, ◌<>◌,
}
use kiwi_guard.Common.Utf8.{Bytes}
use kiwi_guard.Policy.Types.{Decision, action_allow, action_block, is_some}
use kiwi_guard.Gateway.Plans.Zero.{no_decision}
use kiwi_guard.Gateway.Streaming.Sse.{SseFrame, join}
use kiwi_guard.Gateway.Streaming.{
  StreamBuffer, new_stream_buffer, collected_text, Plan, plan_delta, plan_stream_policy, plan_frame,
  plan_final, continue, evaluate_policy, write_pending, terminate, complete, emit, Action,
}

-- A result of `parser.Next` that is not `io.EOF`, which is the end of the list. Of an error, whether
-- it or the context's is an exceeded deadline.
pub data Next : Type 0 where
  frame : SseFrame → Next
  failed : Bool → Next

unfoldable pub streaming_read_termination : Bool → String
streaming_read_termination deadline = if deadline then "upstream_timeout" else "sse_parse_error"

-- The bytes of a string of ASCII characters.
abbrev ascii : String → Bytes
ascii String.[] = []
ascii (String.◌∷◌ c s) = code c ∷ ascii s

-- `writeSSETermination`. The reasons have no character that `%q` escapes.
unfoldable pub sse_termination : String → Bytes
sse_termination reason =
    ascii (
      "event: error\ndata: {\"error\":{\"code\":\""
      <> (reason <> "\",\"message\":\"stream terminated by gateway\"}}\n\n"))
    ++ ascii "data: [DONE]\n\n"

-- What the loop takes from outside: the JSON text of a frame, the policy on a window of text, the
-- full evaluation of the whole text, whether the client takes a write after those before it, and
-- of a write that fails, the number of bytes that have been written.
pub record Peers : Type 0 where
  pub parse_delta : SseFrame → Result String Bytes
  pub evaluate_window : Bytes → Decision
  pub evaluate_whole : Bytes → Decision
  pub accepts : List Bytes → Bytes → Bool
  pub part : List Bytes → Bytes → ℕ

-- The variables of the handler, and what it has written: the raw frames written whole, and the
-- other bytes, each with the number of whole frames before it.
pub record Session : Type 0 where
  pub buffer : StreamBuffer
  pub pending : Option SseFrame
  pub decision : Decision
  pub termination : String
  pub partial_output : Bool
  pub stream_chunks : ℕ
  pub response_bytes : ℕ
  pub written : List Bytes
  pub others : List (ℕ × Bytes)

-- The bytes of some frames, from the one of a number on, with the others between them.
unfoldable pub weave : ℕ → List Bytes → List (ℕ × Bytes) → Bytes
weave k frames [] = join frames
weave k frames ((at, bytes) ∷ others) =
    join (take (at - k) frames) ++ (bytes ++ weave at (drop (at - k) frames) others)

-- All that is written to the client, in order.
unfoldable pub sent : Session → Bytes
unfolding weave
sent s = weave 0 s.written s.others

abbrev pub allowed_decision : Decision
allowed_decision = record no_decision { action = action_allow }

abbrev pub blocked_decision : Decision
blocked_decision = record no_decision { action = action_block }

unfoldable pub new_session : ℤ → Session
new_session max_body_bytes = record {
  buffer = new_stream_buffer (pos 4096) max_body_bytes;
  pending = none;
  decision = allowed_decision;
  termination = "";
  partial_output = false;
  stream_chunks = 0;
  response_bytes = 0;
  written = [];
  others = [];
}

-- The output ends with a notice of the reason.
abbrev pub cut : String → Session → Session
cut reason s = record s {
  termination = reason;
  partial_output = true;
  others = s.others ++ (length s.written, sse_termination reason) ∷ [];
}

abbrev is_action : Action → Action → Bool
is_action continue continue = true
is_action evaluate_policy evaluate_policy = true
is_action write_pending write_pending = true
is_action terminate terminate = true
is_action complete complete = true
is_action emit emit = true
is_action _ _ = false

-- The end of the policy on a delta. The result says whether the loop goes on.
unfoldable pub follow_plan : Plan → Session → Bool × Session
follow_plan plan s =
    if is_action plan.action terminate
    then (
      false,
      cut plan.termination_reason
          (if plan.force_blocked_output then record s { decision = blocked_decision } else s),
    )
    else (true, s)

module _ (env : Peers) where
  open env use {parse_delta, evaluate_window, evaluate_whole, accepts, part}

  -- The result says whether the client took the frame.
  unfoldable pub write_frame : SseFrame → Session → Bool × Session
  write_frame f s =
      if accepts s.written f.raw
      then (
        true,
        record s {
          written = s.written ++ f.raw ∷ [];
          response_bytes = s.response_bytes + length f.raw;
        },
      )
      else (
        false,
        record s {
          termination = "client_write_error";
          partial_output = true;
          others = s.others ++ (length s.written, take (part s.written f.raw) f.raw) ∷ [];
        },
      )

  unfoldable pub write_held : Option SseFrame → Session → Bool × Session
  unfolding write_frame
  write_held none s = (true, s)
  write_held (some f) s = write_frame f s

  -- The policy on a delta that is not empty.
  unfoldable pub check_delta : Bytes → Session → Bool × Session
  unfolding follow_plan
  check_delta delta s =
      let (planned, buffer) = plan_delta delta s.buffer in
      let decision = evaluate_window planned.policy_text in
      if is_action planned.action evaluate_policy
      then follow_plan (plan_stream_policy decision planned.collection_accepted)
          (record s { buffer = buffer; decision = decision })
      else follow_plan planned (record s { buffer = buffer })

  -- The end of the loop's body: the frame held is written, and this one is held or written.
  unfoldable pub forward_frame : SseFrame → Session → Bool × Session
  unfolding write_held
  forward_frame f s =
      let plan = plan_frame (is_some s.pending) f.done in
      let release = is_action plan.action write_pending || is_action plan.action complete in
      let (held_ok, s1) = if release then write_held s.pending s else (true, s) in
      let s2 = record s1 { pending = some f } in
      let (last_ok, s3) = write_frame f s2 in
      if not held_ok
      then (false, s1)
      else if is_action plan.action complete
      then (false, if last_ok then record s3 { pending = none } else s3)
      else (true, s2)

  -- The body of the loop once the frame's text has been read.
  unfoldable pub handle_delta : Result String Bytes → SseFrame → Session → Bool × Session
  unfolding check_delta forward_frame
  handle_delta (err e) f s =
      (false, record (cut "sse_parse_error" s) { decision = blocked_decision })
  handle_delta (ok delta) f s =
      if is_empty delta
      then forward_frame f s
      else let (goes_on, s') = check_delta delta s in
        if goes_on then forward_frame f s' else (false, s')

  unfoldable pub handle_frame : SseFrame → Session → Bool × Session
  unfolding handle_delta
  handle_frame f s =
      handle_delta (parse_delta f) f (record s { stream_chunks = suc s.stream_chunks })

  unfoldable pub handle_next : Next → Session → Bool × Session
  unfolding handle_frame
  handle_next (failed deadline) s =
      (false, record (cut (streaming_read_termination deadline) s) { decision = blocked_decision })
  handle_next (frame f) s = handle_frame f s

  unfoldable pub handle_all : List Next → Session → Session
  unfolding handle_next
  handle_all [] s = s
  handle_all (n ∷ ns) s =
      let (goes_on, s') = handle_next n s in
      let rest = handle_all ns s' in if goes_on then rest else s'

  -- After the loop: the frame still held is written, if nothing has gone wrong.
  unfoldable pub flush : Session → Session
  unfolding write_held
  flush s = if s.termination == "" then (write_held s.pending s).1 else s

  unfoldable pub finish : Session → Session
  unfolding flush
  finish s =
      let flushed = flush s in
      let plan =
        plan_final (flushed.decision.action == action_allow) (collected_text flushed.buffer) in
      record flushed {
        decision =
            if is_action plan.action evaluate_policy
            then evaluate_whole plan.policy_text
            else flushed.decision;
      }

  unfoldable pub handle_streaming : ℤ → List Next → Session
  unfolding new_session handle_all finish
  handle_streaming max_body_bytes inputs = finish (handle_all inputs (new_session max_body_bytes))
