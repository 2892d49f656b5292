-- ===== src/Pii/Pipeline.antt =====
-- internal/pii/pipeline.go: the detectors are run in order, their spans resolved, and dates are then
-- reclassified by what stands near them.
pub mod Laws
use alfa_hakaton.Common.{
  ℕ, zero, suc, ◌+◌, ◌-◌, ◌==◌, Bool, true, false, not, ◌&&◌, ◌||◌, Bytes, bytes_eq, List, [], ◌∷◌,
  ◌++◌, Option, none, some, length, slice, get_or, any, leb, ltb, if◌then◌else◌,
}
use alfa_hakaton.Common.Find.{contains}
use alfa_hakaton.Common.Sort.{SortSlice}
use alfa_hakaton.Pii.Types.{Span, cat_date, cat_birth_date, cat_passport_date, cat_passport_issuer}
use alfa_hakaton.Pii.Resolve.{resolve}
use alfa_hakaton.Pii.Detector.{Text, Detector}
use alfa_hakaton.Pii.Context.{
  has_any_context, has_any_context_after, has_word_context, nearest_context, window_before,
}
use alfa_hakaton.Pii.Keywords.{
  non_passport_contexts, non_passport_word_contexts, issue_contexts, birth_contexts, code_contexts,
  birth_header,
}

-- Some span of a passport issuer ends at most three bytes before `s`, which starts no earlier.
unfoldable pub follows_passport_issuer : List Span → Span → Bool
follows_passport_issuer spans s =
    any
      (λ j.
        bytes_eq j.category cat_passport_issuer && (leb j.start s.start && leb s.start (j.end + 3)))
      spans

-- The start and the end of the line around a position.
unfoldable pub line_start : Bytes → ℕ → ℕ
line_start raw zero = 0
line_start raw (suc i) =
    let earlier = line_start raw i in if get_or raw i 0 == 0x0A then suc i else earlier

unfoldable pub line_end : ℕ → Bytes → ℕ → ℕ
line_end zero raw i = i
line_end (suc fuel) raw i =
    let later = line_end fuel raw (i + 1) in
    if ltb i (length raw) && not (get_or raw i 0 == 0x0A) then later else i

-- A birth context is nearer than any issue context.
abbrev birth_is_nearer : Option ℕ → Option ℕ → Bool
birth_is_nearer none passport = false
birth_is_nearer (some b) none = true
birth_is_nearer (some b) (some p) = ltb b p

module _ (to_lower : Bytes → Bytes) (raw : Bytes) where
  unfoldable pub is_passport_date : Span → Bool
  unfolding has_any_context has_word_context has_any_context_after nearest_context
  is_passport_date s =
      if has_any_context to_lower raw s.start 160 non_passport_contexts
      then false
      else if has_word_context to_lower raw s.start 160 non_passport_word_contexts
      then false
      else if not (has_any_context to_lower raw s.start 160 issue_contexts)
          && not (has_any_context_after to_lower raw s.end 40 code_contexts)
      then false
      else if birth_is_nearer (nearest_context to_lower raw s.start 160 birth_contexts)
          (nearest_context to_lower raw s.start 160 issue_contexts)
      then false
      else true

  unfoldable pub is_table_birth_date : Span → Bool
  unfolding line_start line_end contains window_before
  is_table_birth_date s =
      contains (slice raw (line_start raw s.start) (line_end (length raw - s.end) raw s.end))
        (0x09 ∷ [])
      && contains (window_before to_lower raw s.start 200) birth_header

  -- The category of `s` among the spans `spans`.
  unfoldable pub reclassify_span : List Span → Span → Span
  reclassify_span spans s =
      if not (bytes_eq s.category cat_date) && not (bytes_eq s.category cat_birth_date)
      then s
      else if is_passport_date s
      then record s { category = cat_passport_date }
      else if not (bytes_eq s.category cat_date)
      then s
      else if is_table_birth_date s
      then record s { category = cat_birth_date }
      else if follows_passport_issuer spans s
      then record s { category = cat_passport_date }
      else s

  -- The loop over the spans, which are changed in place.
  unfoldable pub post_process_from : List Span → List Span → List Span
  post_process_from done [] = done
  post_process_from done (s ∷ rest) =
      post_process_from (done ++ reclassify_span (done ++ s ∷ rest) s ∷ []) rest

  unfoldable pub post_process : List Span → List Span
  unfolding post_process_from reclassify_span
  post_process spans = post_process_from [] spans

pub record Pipeline : Type 0 where
  pub detectors : List Detector
  pub to_lower : Bytes → Bytes

abbrev detect_one : Bytes → Text → Option (Text → List Span) → (Bytes → List Span) → List Span
detect_one text t none detect = detect text
detect_one text t (some detect_lower) detect = detect_lower t

unfoldable pub detect_all : Bytes → Text → List Detector → List Span
detect_all text t [] = []
detect_all text t (d ∷ ds) = detect_one text t d.detect_lower d.detect ++ detect_all text t ds

unfoldable pub run : SortSlice → Pipeline → Bytes → List Span
unfolding detect_all resolve post_process
run sort p text =
    post_process p.to_lower text
      (resolve sort (detect_all text (record { raw = text; lower = p.to_lower text }) p.detectors))
