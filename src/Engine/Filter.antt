-- ===== src/Engine/Filter.antt =====
-- `filterSpans` and `comboAllowed` of internal/engine/chunk.go, `counts` of internal/engine/engine.go
-- and `Counts` of internal/pii/types.go. A map from categories to true is a predicate.
pub mod Laws
use alfa_hakaton.Common.{
  ℕ, zero, suc, ◌+◌, Bool, true, false, not, ◌&&◌, Bytes, bytes_eq, List, [], ◌∷◌, any, length, ltb,
  if◌then◌else◌,
}
use alfa_hakaton.Common.Assoc
use alfa_hakaton.Mask.Doc.{or_zero, Replacement}
use alfa_hakaton.Pii.Types.{Category, Span}

pub record ComboRule : Type 0 where
  pub category : Category
  pub requires_any : List Category

abbrev pub has : List Category → Category → Bool
has cats c = any (λ d. bytes_eq d c) cats

-- The categories present in a list of spans.
abbrev pub present : List Span → Category → Bool
present spans c = any (λ s. bytes_eq s.category c) spans

-- The first rule for the category decides.
unfoldable pub combo_allowed : Category → (Category → Bool) → List ComboRule → Bool
combo_allowed cat here [] = true
combo_allowed cat here (r ∷ rules) =
    if not (bytes_eq r.category cat) then combo_allowed cat here rules else any here r.requires_any

-- Whether one span is kept.
unfoldable pub kept : (Category → Bool) → List Category → List ComboRule → Span → Bool
unfolding combo_allowed
kept here categories rules s =
    if ltb 0 (length categories) && not (has categories s.category)
    then false
    else if not (combo_allowed s.category here rules)
    then false
    else true

unfoldable pub filter_by : (Span → Bool) → List Span → List Span
filter_by p [] = []
filter_by p (s ∷ spans) = if p s then s ∷ filter_by p spans else filter_by p spans

unfoldable pub filter_spans : List Span → List Category → List ComboRule → List Span
unfolding kept filter_by
filter_spans spans categories rules = filter_by (kept (present spans) categories rules) spans

abbrev pub Counts : Type 0
Counts = List (Category × ℕ)

-- `m[c]++`.
unfoldable pub count_one : Counts → Category → Counts
count_one m c = Assoc.insert c (or_zero (Assoc.lookup c m) + 1) m

unfoldable pub counts_from : Counts → List Span → Counts
unfolding count_one
counts_from m [] = m
counts_from m (s ∷ spans) = counts_from (count_one m s.category) spans

unfoldable pub counts : List Span → Counts
unfolding counts_from
counts spans = counts_from [] spans

-- The same over a record's replacements, `countsFromRec`.
unfoldable pub counts_of_reps : Counts → List Replacement → Counts
unfolding count_one
counts_of_reps m [] = m
counts_of_reps m (r ∷ rs) = counts_of_reps (count_one m r.category) rs
