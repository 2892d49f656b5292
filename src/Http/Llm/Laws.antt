-- ===== src/Http/Llm/Laws.antt =====
-- internal/httpapi/llm.go: `readSSE` against a description of what a stream says.
use alfa_hakaton.Common.{
  ◌≡◌, refl, sym, ap, ◌∙◌, Bool, true, false, ◌||◌, any, Bytes, bytes_eq, List, [], ◌∷◌, ◌++◌,
  append-nil, append_assoc, Option, none, some, if◌then◌else◌, Bool-cases, Option-cases, inl, inr,
}
use alfa_hakaton.Common.Result.{Result, ok, err}
use alfa_hakaton.Http.Llm.{
  Usage, no_usage, Choice, SseChunk, Line, Stream, LlmError, read_failed, not_terminated, Reading,
  start_reading, finishes, add_choices, new_usage, add_chunk, done_marker, close, line_data,
  read_lines, read_sse,
}

pub contents : List Choice → Bytes
contents [] = []
contents (c ∷ choices) = c.content ++ contents choices

abbrev finish : Choice → Bool
finish c = finishes c.finish_reason

or_assoc : (a b c : Bool) → ((a || b) || c) ≡ (a || (b || c))
or_assoc true b c = refl
or_assoc false b c = refl

or_false : (a : Bool) → (a || false) ≡ a
or_false true = refl
or_false false = refl

add_choices_lem :
    (r : Reading) (choices : List Choice)
    → add_choices r choices ≡ record r {
      content = r.content ++ contents choices;
      saw_done = r.saw_done || any finish choices;
    }
unfolding add_choices contents
add_choices_lem r [] = simp (append-nil, or_false)
add_choices_lem r (c ∷ choices) =
    add_choices_lem
      (record r {
        content = r.content ++ c.content;
        saw_done = r.saw_done || finishes c.finish_reason;
      })
      choices
    ∙ simp (append_assoc, or_assoc)

pub chunk_contents : List SseChunk → Bytes
chunk_contents [] = []
chunk_contents (c ∷ chunks) = contents c.choices ++ chunk_contents chunks

pub finished : List SseChunk → Bool
finished [] = false
finished (c ∷ chunks) = any finish c.choices || finished chunks

abbrev usage_or : Option Usage → Usage → Usage
usage_or none u = u
usage_or (some v) u = v

pub last_usage : Usage → List SseChunk → Usage
last_usage u [] = u
last_usage u (c ∷ chunks) = last_usage (usage_or c.usage u) chunks

new_usage_lem :
    (r : Reading) (o : Option Usage) → new_usage r o ≡ record r { usage = usage_or o r.usage }
new_usage_lem r none = refl
new_usage_lem r (some u) = refl

add_chunk_lem :
    (r : Reading) (c : SseChunk)
    → add_chunk r (some c) ≡ record {
      content = r.content ++ contents c.choices;
      usage = usage_or c.usage r.usage;
      saw_done = r.saw_done || any finish c.choices;
    }
unfolding add_chunk
add_chunk_lem r c =
    ap (λ x. new_usage x c.usage) (add_choices_lem r c.choices) ∙ new_usage_lem _ c.usage

-- How a reading ends: at the marker, or where there are no more lines, with or without an error of the
-- scanner by then.
pub data Ending : Type 0 where
  at_marker at_end : Bool → Ending

-- What the ending makes of a reading: an error of the scanner counts, and without the marker a choice
-- must have finished.
pub verdict : Ending → Reading → Result LlmError Bytes × Usage
verdict (at_marker true) r = (err read_failed, r.usage)
verdict (at_marker false) r = (ok r.content, r.usage)
verdict (at_end true) r = (err read_failed, r.usage)
verdict (at_end false) r =
    if r.saw_done then (ok r.content, r.usage) else (err not_terminated, r.usage)

-- The texts up to the marker.
pub before_done : List Line → List Bytes
before_done [] = []
before_done (t ∷ texts) = if bytes_eq t.text done_marker then [] else t.text ∷ before_done texts

-- The first marker, or the end.
pub ending : Bool → List Line → Ending
ending broken [] = at_end broken
ending broken (t ∷ texts) =
    if bytes_eq t.text done_marker then at_marker t.failed else ending broken texts

abbrev cons_some {ℓ} : {A : Type ℓ} → Option A → List A → List A
cons_some none xs = xs
cons_some (some x) xs = x ∷ xs

-- The text of a line of data, with the state of the scanner.
abbrev with_text : Line → Option Bytes → Option Line
with_text line none = none
with_text line (some t) = some (record line { text = t })

close-verdict : (broken : Bool) (r : Reading) → close broken r ≡ verdict (at_end broken) r
unfolding verdict
close-verdict true r = refl
close-verdict false r = elim (Bool-cases r.saw_done) [ inl e ↦ rw e refl | inr e ↦ rw e refl ]

marker-verdict :
    (failed : Bool) (r : Reading)
    → close failed (record r { saw_done = true }) ≡ verdict (at_marker failed) r
unfolding verdict
marker-verdict true r = refl
marker-verdict false r = refl

add_chunk-none : (r : Reading) → add_chunk r none ≡ r
unfolding add_chunk
add_chunk-none r = refl

module _ (trim : Bytes → Bytes) (decode : Bytes → Option SseChunk) where
  -- The lines of data, without their prefix.
  pub texts : List Line → List Line
  texts [] = []
  texts (line ∷ lines) = cons_some (with_text line (line_data trim decode line.text)) (texts lines)

  -- The texts that can be decoded.
  pub chunks : List Bytes → List SseChunk
  chunks [] = []
  chunks (t ∷ ts) = cons_some (decode t) (chunks ts)

  -- A reading continued by chunks.
  abbrev continued : Reading → List SseChunk → Reading
  continued r cs = record {
    content = r.content ++ chunk_contents cs;
    usage = last_usage r.usage cs;
    saw_done = r.saw_done || finished cs;
  }

  continued_none : (r : Reading) → continued r [] ≡ r
  unfolding chunk_contents finished last_usage
  continued_none r = simp (append-nil, or_false)

  continued_chunk :
      (r : Reading) (t : Bytes) (ts : List Bytes)
      → continued (add_chunk r (decode t)) (chunks ts) ≡ continued r (chunks (t ∷ ts))
  unfolding chunks chunk_contents finished last_usage
  continued_chunk r t ts = elim (Option-cases (decode t)) [
    | inl gone ↦ rw (gone, chunks) (ap (λ x. continued x (chunks ts)) (add_chunk-none r))
    | inr (c, got) ↦
        rw (got, chunks)
          (ap (λ x. continued x (chunks ts)) (add_chunk_lem r c) ∙ simp (append_assoc, or_assoc))
  ]

  read_lines_lem :
      (broken : Bool) (r : Reading) (lines : List Line)
      → read_lines trim decode broken r lines
        ≡ verdict (ending broken (texts lines)) (continued r (chunks (before_done (texts lines))))
  unfolding read_lines texts ending before_done chunks
  read_lines_lem broken r [] =
      close-verdict broken r ∙ ap (verdict (at_end broken)) (sym (continued_none r))
  read_lines_lem broken r (line ∷ lines) = elim (Option-cases (line_data trim decode line.text)) [
    | inl gone ↦ rw (gone, texts, read_lines) (read_lines_lem broken r lines)
    | inr (t, got) ↦
        rw (got, texts, read_lines)
          (elim (Bool-cases (bytes_eq t done_marker)) [
            | inl end ↦ rw end (
                marker-verdict line.failed r
                ∙ ap (verdict (at_marker line.failed)) (sym (continued_none r)))
            | inr more ↦ rw more (
                read_lines_lem broken (add_chunk r (decode t)) lines
                ∙ ap (verdict (ending broken (texts lines)))
                    (continued_chunk r t (before_done (texts lines))))
          ])
  ]

  -- The chunks of a stream: what its lines of data say, up to the marker.
  pub said : Stream → List SseChunk
  said stream = chunks (before_done (texts stream.lines))

  -- The text of a stream is the contents of its chunks up to the marker, put together, and its usage is
  -- the last that they report. No line behind the marker counts. The result is an error if the scanner
  -- has one at the marker, or without a marker at the end, or if there is no marker and no choice has
  -- finished.
  pub read_sse_lem :
      (stream : Stream)
      → read_sse trim decode stream
        ≡ verdict (ending stream.broken (texts stream.lines)) (record {
          content = chunk_contents (said stream);
          usage = last_usage no_usage (said stream);
          saw_done = finished (said stream);
        })
  unfolding read_sse start_reading said
  read_sse_lem stream = read_lines_lem stream.broken start_reading stream.lines
