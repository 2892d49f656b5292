-- ===== src/Http/Llm.antt =====
-- internal/httpapi/llm.go: the call of the model gateway and the reading of its event stream. The
-- transport, the scanner of lines and `encoding/json` are parameters.
pub mod Laws
use alfa_hakaton.Common.{
  ℕ, ◌==◌, Bool, true, false, not, ◌&&◌, ◌||◌, Bytes, bytes_eq, codes, List, [], ◌∷◌, ◌++◌, Option,
  none, some, drop, if◌then◌else◌, leb,
}
use alfa_hakaton.Common.Result.{Result, ok, err}
use alfa_hakaton.Common.Find.{has_prefix}
use alfa_hakaton.Auth.{is_empty}

pub record ChatMessage : Type 0 where
  pub role : Bytes
  pub content : Bytes

pub record Usage : Type 0 where
  pub prompt_tokens : ℕ
  pub completion_tokens : ℕ
  pub total_tokens : ℕ

abbrev pub no_usage : Usage
no_usage = record { prompt_tokens = 0; completion_tokens = 0; total_tokens = 0 }

pub record Choice : Type 0 where
  pub content : Bytes
  pub finish_reason : Option Bytes

pub record SseChunk : Type 0 where
  pub choices : List Choice
  pub usage : Option Usage

-- A line as the scanner gives it, and whether `Err` is an error by then: a scanner keeps the error of a
-- read that came with the bytes of the line, and goes on to the lines that it has.
pub record Line : Type 0 where
  pub text : Bytes
  pub failed : Bool

-- The lines of a stream, and whether `Err` is an error when there are no more.
pub record Stream : Type 0 where
  pub lines : List Line
  pub broken : Bool

pub data LlmError : Type 0 where
  timed_out unreachable read_failed not_terminated : LlmError
  bad_status : ℕ → LlmError

-- The loop's variables of `readSSE`.
pub record Reading : Type 0 where
  pub content : Bytes
  pub usage : Usage
  pub saw_done : Bool

unfoldable pub start_reading : Reading
start_reading = record { content = []; usage = no_usage; saw_done = false }

abbrev pub finishes : Option Bytes → Bool
finishes none = false
finishes (some reason) = not (is_empty reason)

unfoldable pub add_choices : Reading → List Choice → Reading
add_choices r [] = r
add_choices r (c ∷ choices) =
    add_choices
      (record r {
        content = r.content ++ c.content;
        saw_done = r.saw_done || finishes c.finish_reason;
      })
      choices

abbrev pub new_usage : Reading → Option Usage → Reading
new_usage r none = r
new_usage r (some u) = record r { usage = u }

-- A chunk that cannot be decoded is passed over.
unfoldable pub add_chunk : Reading → Option SseChunk → Reading
unfolding add_choices
add_chunk r none = r
add_chunk r (some chunk) = new_usage (add_choices r chunk.choices) chunk.usage

abbrev pub data_prefix : Bytes
data_prefix = codes "data:"

abbrev pub done_marker : Bytes
done_marker = codes "[DONE]"

abbrev pub close : Bool → Reading → Result LlmError Bytes × Usage
close true r = (err read_failed, r.usage)
close false r = if not r.saw_done then (err not_terminated, r.usage) else (ok r.content, r.usage)

module _ (trim : Bytes → Bytes) (decode : Bytes → Option SseChunk) where
  -- What a line carries, if it is one of data.
  unfoldable pub line_data : Bytes → Option Bytes
  unfolding has_prefix
  line_data line = if has_prefix line data_prefix then some (trim (drop 5 line)) else none

  -- The loop over the lines. After the marker no line is read, but an error that the scanner has by then
  -- counts.
  unfoldable pub read_lines : Bool → Reading → List Line → Result LlmError Bytes × Usage
  unfolding line_data add_chunk
  read_lines broken r [] = close broken r
  read_lines broken r (line ∷ lines) = elim (line_data line.text) [
    | none ↦ read_lines broken r lines
    | some text ↦
        let rest = read_lines broken (add_chunk r (decode text)) lines in
        if bytes_eq text done_marker then close line.failed (record r { saw_done = true }) else rest
  ]

  unfoldable pub read_sse : Stream → Result LlmError Bytes × Usage
  unfolding read_lines start_reading
  read_sse stream = read_lines stream.broken start_reading stream.lines

  -- The gateway's answer to a request: an error of the transport, or a status and a stream.
  module _ (post : Bytes → List ChatMessage → Result LlmError (ℕ × Stream)) where
    abbrev pub completion : Result LlmError (ℕ × Stream) → Result LlmError (Bytes × Usage)
    completion (err x) = err x
    completion (ok (status, stream)) =
        if leb 500 status || status == 429
        then err (bad_status status)
        else if not (status == 200)
        then err (bad_status status)
        else elim (read_sse stream).0 [ err x ↦ err x | ok text ↦ ok (text, (read_sse stream).1) ]

    -- The model is the configured one, whatever the client asks for.
    unfoldable pub chat_completion : Bytes → List ChatMessage → Result LlmError (Bytes × Usage)
    unfolding read_sse
    chat_completion model messages = completion (post model messages)
