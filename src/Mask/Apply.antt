-- ===== src/Mask/Apply.antt =====
-- `Apply` of internal/mask/mask.go. The loop over the sorted spans is a fold over its variables.
use alfa_hakaton.Common.{
  ℕ, ◌||◌, Bytes, List, [], ◌∷◌, ◌++◌, foldl, length, drop, slice, ltb, leb, if◌then◌else◌, Option,
  none, some,
}
use alfa_hakaton.Common.Int.{pos}
use alfa_hakaton.Common.Sort.{SortSlice}
use alfa_hakaton.Pii.Types.{Span, span_less}
use alfa_hakaton.Mask.Doc.{DocState, new_doc_state, Strategy, Replacement}

pub record Masking : Type 0 where
  pub at : ℕ
  pub out : Bytes
  pub reps : List Replacement
  pub doc : DocState

-- The replacement text, the gap before it and the record of both.
unfoldable pub emit : Bytes → Span → Masking → Bytes × DocState → Masking
emit text sp m (replacement, doc) =
    let before = m.out ++ slice text m.at sp.start in
    let after = before ++ replacement in
    record {
      at = sp.end;
      out = after;
      reps =
          m.reps
          ++ (record {
            category = sp.category;
            original = slice text sp.start sp.end;
            masked = replacement;
            start = pos (length before);
            end = pos (length after);
          })
            ∷ [];
      doc = doc;
    }

-- One round: a span that overlaps an earlier one, or is no range of the text, is passed over.
unfoldable pub apply_step : Bytes → Strategy → Masking → Span → Masking
apply_step text s m sp =
    if ltb sp.start m.at
    then m
    else if ltb (length text) sp.start || (ltb (length text) sp.end || leb sp.end sp.start)
    then m
    else emit text sp m (s.mask (slice text sp.start sp.end) sp.category m.doc)

abbrev pub or_new : Option DocState → DocState
or_new none = new_doc_state
or_new (some d) = d

pub record Applied : Type 0 where
  pub text : Bytes
  pub replacements : List Replacement
  pub doc : DocState

unfoldable pub start_masking : DocState → Masking
start_masking d = record { at = 0; out = []; reps = []; doc = d }

unfoldable pub finish : Bytes → Masking → Applied
finish text m = record { text = m.out ++ drop m.at text; replacements = m.reps; doc = m.doc }

unfoldable pub apply : SortSlice → Bytes → List Span → Strategy → Option DocState → Applied
unfolding span_less
apply sort text spans s doc =
    finish text
      (foldl (apply_step text s) (start_masking (or_new doc)) (sort.sort Span span_less spans))
