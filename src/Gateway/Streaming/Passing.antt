-- ===== src/Gateway/Streaming/Passing.antt =====
-- What a stream lets through, by the policy on each delta
-- (internal/contexts/gateway/adapters/http/openai/streaming_handler.go).
use kiwi_guard.Common.{
  String, Bool, true, false, not, ◌&&◌, ◌||◌, List, [], ◌∷◌, ◌++◌, map, Result, ok, err, ◌==◌,
  eq_string, if◌then◌else◌, is_empty, ◌≡◌,
}
use kiwi_guard.Common.Utf8.{Bytes}
use kiwi_guard.Policy.Types.{action_block, action_redact}
use kiwi_guard.Gateway.Streaming.{StreamBuffer, observe_delta}
use kiwi_guard.Gateway.Streaming.Sse.{SseFrame}
use kiwi_guard.Gateway.Streaming.Session.{Next, frame, failed, Peers, Session}

-- The list without its last item.
abbrev pub drop_last {ℓ} : {A : Type ℓ} → List A → List A
drop_last [] = []
drop_last (x ∷ []) = []
drop_last (x ∷ y ∷ xs) = x ∷ drop_last (y ∷ xs)

-- What a stream releases of frames that passed: all where it ended cleanly, else all but the last.
abbrev pub released : List SseFrame × Bool → List SseFrame
released (frames, clean) = if clean then frames else drop_last frames

-- A frame before the rest of those that pass, where the frame may say that it is the last.
abbrev pub ended : SseFrame → Bool → List SseFrame × Bool → List SseFrame × Bool
ended f true rest = (f ∷ [], true)
ended f false rest = (f ∷ rest.0, rest.1)

abbrev pub IsPrefix : List Bytes → List Bytes → Type 0
IsPrefix xs ys = (rest : List Bytes) × (ys ≡ xs ++ rest)

abbrev pub raws : List SseFrame → List Bytes
raws frames = map (λ (f : SseFrame). f.raw) frames

module _ (env : Peers) where
  open env use {parse_delta, evaluate_window, accepts}

  -- A delta passes if its window neither is blocked nor needs redaction, and the text collected is
  -- within its budget.
  abbrev pub passes : StreamBuffer → Bytes → Bool
  passes b delta =
      let (seen, after) = observe_delta delta b in
      let action = (evaluate_window seen.window_text).action in
      not (action == action_block) && not (action == action_redact) && seen.collection_accepted

  abbrev pub buffer_after : StreamBuffer → Result String Bytes → StreamBuffer
  buffer_after b (err e) = b
  buffer_after b (ok delta) = if is_empty delta then b else (observe_delta delta b).1

  -- A frame that cannot be read or does not pass stops the stream.
  abbrev pub judged :
      StreamBuffer → Result String Bytes → SseFrame → List SseFrame × Bool → List SseFrame × Bool
  judged b (err e) f rest = ([], false)
  judged b (ok delta) f rest =
      if is_empty delta || passes b delta then ended f f.done rest else ([], false)

  -- The frames before the first that cannot be read or does not pass, and whether there was none
  -- such, up to a frame that says it is the last.
  abbrev pub passing : List Next → StreamBuffer → List SseFrame × Bool
  passing [] b = ([], true)
  passing (failed deadline ∷ ns) b = ([], false)
  passing (frame f ∷ ns) b =
      judged b (parse_delta f) f (passing ns (buffer_after b (parse_delta f)))

  abbrev pub TakesAll : Type 0
  TakesAll = (written : List Bytes) (raw : Bytes) → accepts written raw ≡ true

  -- What is written is a prefix of the bytes given, and all of them if the client takes all.
  abbrev pub Delivers : List Bytes → List Bytes → Type 0
  Delivers written expected = IsPrefix written expected × (TakesAll → written ≡ expected)

  abbrev pub Writes : Session → List Bytes → Type 0
  Writes s expected = Delivers s.written expected
