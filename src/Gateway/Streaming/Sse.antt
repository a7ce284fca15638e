-- ===== src/Gateway/Streaming/Sse.antt =====
-- internal/contexts/gateway/adapters/http/openai/sse.go: the parser of server-sent events.
use kiwi_guard.Common.{
  ℕ, ◌^◌, Bool, true, false, ◌&&◌, ◌||◌, ◌==◌, eq_nat, List, [], ◌∷◌, ◌++◌, if◌then◌else◌, ltb,
  length, is_empty,
}
use kiwi_guard.Common.Utf8.{Bytes}

abbrev pub max_sse_frame_bytes : ℕ
max_sse_frame_bytes = 2 ^ 20

pub record SseFrame : Type 0 where
  pub event : Bytes
  pub payload : Bytes
  pub id : Bytes
  pub retry : Bytes
  pub comment : Bytes
  pub done : Bool
  pub raw : Bytes

-- How the reader ends: with `io.EOF`, or with an error, of which it is known whether it is an
-- exceeded deadline.
pub data Ending : Type 0 where
  at_eof : Ending
  broken : Bool → Ending

-- The bytes that the reader still holds: its lines, each with its newline, and what follows them.
pub record SseParser : Type 0 where
  pub lines : List Bytes
  pub tail : Bytes
  pub ending : Ending
  pub done : Bool

abbrev pub join : List Bytes → Bytes
join [] = []
join (l ∷ ls) = l ++ join ls

abbrev pub remaining : SseParser → Bytes
remaining p = join p.lines ++ p.tail

-- A byte before lines and what follows them.
abbrev pub before_lines : ℕ → List Bytes × Bytes → List Bytes × Bytes
before_lines c ([], tail) = ([], c ∷ tail)
before_lines c (l ∷ ls, tail) = ((c ∷ l) ∷ ls, tail)

-- What `ReadString('\n')` gives, call after call.
abbrev pub split_lines : Bytes → List Bytes × Bytes
split_lines [] = ([], [])
split_lines (c ∷ cs) =
    let (ls, tail) = split_lines cs in
    if c == 10 then ((c ∷ []) ∷ ls, tail) else before_lines c (ls, tail)

unfoldable pub new_sse_parser : Bytes → Ending → SseParser
new_sse_parser input ending = record {
  lines = (split_lines input).0;
  tail = (split_lines input).1;
  ending = ending;
  done = false;
}

-- `strings.TrimSuffix` of one byte.
abbrev trim_suffix : ℕ → Bytes → Bytes
trim_suffix c [] = []
trim_suffix c (x ∷ []) = if x == c then [] else x ∷ []
trim_suffix c (x ∷ y ∷ xs) = x ∷ trim_suffix c (y ∷ xs)

unfoldable pub trim_line : Bytes → Bytes
trim_line line = trim_suffix 13 (trim_suffix 10 line)

-- `strings.TrimPrefix` of one byte.
abbrev trim_prefix : ℕ → Bytes → Bytes
trim_prefix c [] = []
trim_prefix c (x ∷ xs) = if x == c then xs else x ∷ xs

-- `strings.Cut` at a byte, with whether it is there.
abbrev cut_at : ℕ → Bytes → Bytes × Bytes × Bool
cut_at c [] = ([], [], false)
cut_at c (x ∷ xs) =
    let (before, after, found) = cut_at c xs in
    if x == c then ([], xs, true) else (x ∷ before, after, found)

abbrev join_with : ℕ → List Bytes → Bytes
join_with c [] = []
join_with c (x ∷ []) = x
join_with c (x ∷ y ∷ ys) = x ++ c ∷ join_with c (y ∷ ys)

abbrev pub eqb_bytes : Bytes → Bytes → Bool
eqb_bytes [] [] = true
eqb_bytes (x ∷ xs) (y ∷ ys) = x == y && eqb_bytes xs ys
eqb_bytes _ _ = false

abbrev event_field : Bytes
event_field = 101 ∷ 118 ∷ 101 ∷ 110 ∷ 116 ∷ []

abbrev data_field : Bytes
data_field = 100 ∷ 97 ∷ 116 ∷ 97 ∷ []

abbrev id_field : Bytes
id_field = 105 ∷ 100 ∷ []

abbrev retry_field : Bytes
retry_field = 114 ∷ 101 ∷ 116 ∷ 114 ∷ 121 ∷ []

abbrev done_text : Bytes
done_text = 91 ∷ 68 ∷ 79 ∷ 78 ∷ 69 ∷ 93 ∷ []

-- The frame so far, its `dataParts` and its `commentParts`.
pub record Parts : Type 0 where
  pub frame : SseFrame
  pub data_parts : List Bytes
  pub comment_parts : List Bytes

unfoldable pub set_field : Bytes → Bytes → Parts → Parts
set_field field value p =
    if eqb_bytes field event_field
    then record p { frame = record p.frame { event = value } }
    else if eqb_bytes field data_field
    then record p { data_parts = p.data_parts ++ value ∷ [] }
    else if eqb_bytes field id_field
    then record p { frame = record p.frame { id = value } }
    else if eqb_bytes field retry_field
    then record p { frame = record p.frame { retry = value } }
    else p

unfoldable pub parse_sse_line : Bytes → Parts → Parts
unfolding set_field
parse_sse_line line p =
    let (field, value, found) = cut_at 58 line in
    if has_colon line
    then record p { comment_parts = p.comment_parts ++ trim_prefix 32 (trim_prefix 58 line) ∷ [] }
    else if found
    then set_field field (trim_prefix 32 value) p
    else set_field line [] p
  where
    has_colon : Bytes → Bool
    has_colon [] = false
    has_colon (x ∷ xs) = x == 58

unfoldable pub parse_parts : List Bytes → Parts → Parts
unfolding parse_sse_line
parse_parts [] p = p
parse_parts (line ∷ lines) p = parse_parts lines (parse_sse_line line p)

abbrev empty_frame : SseFrame
empty_frame = record {
  event = [];
  payload = [];
  id = [];
  retry = [];
  comment = [];
  done = false;
  raw = [];
}

-- What a call of `Next` returns.
pub data Parsed : Type 0 where
  parsed : SseFrame → Parsed
  eof : Parsed
  parse_failed : Bool → Parsed

-- `trim_space` is `strings.TrimSpace`, and `late` says whether the deadline of the request is exceeded
-- when a frame is too large.
module _ (trim_space : Bytes → Bytes) (late : Bool) where
  unfoldable pub parse_sse_lines : List Bytes → SseFrame
  unfolding parse_parts
  parse_sse_lines lines =
      let p =
        parse_parts lines (record { frame = empty_frame; data_parts = []; comment_parts = [] }) in
      let payload = join_with 10 p.data_parts in
      record p.frame {
        payload = payload;
        comment = join_with 10 p.comment_parts;
        done = eqb_bytes (trim_space payload) done_text;
      }

  -- The frame of the lines read, which may be the last.
  unfoldable pub end_frame : Bytes → List Bytes → SseParser → Parsed × SseParser
  unfolding parse_sse_lines
  end_frame raw lines p =
      let frame = record (parse_sse_lines lines) { raw = raw } in
      (parsed frame, record p { done = p.done || frame.done })

  -- The reader's error ends the loop.
  unfoldable pub read_end : Ending → Bytes → List Bytes → Parsed × SseParser
  unfolding end_frame
  read_end at_eof raw [] = (eof, record { lines = []; tail = []; ending = at_eof; done = true })
  read_end at_eof raw (l ∷ ls) =
      end_frame raw (l ∷ ls) (record { lines = []; tail = []; ending = at_eof; done = true })
  read_end (broken deadline) raw ls = (
    parse_failed deadline,
    record { lines = []; tail = []; ending = broken deadline; done = false },
  )

  -- The line that no newline ends.
  unfoldable pub read_tail : Bytes → Ending → Bytes → List Bytes → Parsed × SseParser
  unfolding end_frame read_end trim_line
  read_tail [] ending raw acc = read_end ending raw acc
  read_tail (c ∷ cs) ending raw acc =
      let line = c ∷ cs in
      let p : SseParser = record { lines = []; tail = []; ending = ending; done = false } in
      if ltb max_sse_frame_bytes (length (raw ++ line))
      then (parse_failed late, p)
      else if is_empty (trim_line line)
      then end_frame (raw ++ line) acc p
      else read_end ending (raw ++ line) (acc ++ trim_line line ∷ [])

  -- The loop of `Next`, with the bytes and the lines read so far.
  unfoldable pub read_frame : List Bytes → Bytes → Ending → Bytes → List Bytes → Parsed × SseParser
  unfolding end_frame read_tail trim_line
  read_frame [] tail ending raw acc = read_tail tail ending raw acc
  read_frame (line ∷ lines) tail ending raw acc =
      let more = read_frame lines tail ending (raw ++ line) (acc ++ trim_line line ∷ []) in
      let p : SseParser = record { lines = lines; tail = tail; ending = ending; done = false } in
      if ltb max_sse_frame_bytes (length (raw ++ line))
      then (parse_failed late, p)
      else if is_empty (trim_line line)
      then end_frame (raw ++ line) acc p
      else more

  unfoldable pub next : SseParser → Parsed × SseParser
  unfolding read_frame
  next p = if p.done then (eof, p) else read_frame p.lines p.tail p.ending [] []
