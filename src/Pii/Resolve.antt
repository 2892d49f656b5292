-- ===== src/Pii/Resolve.antt =====
-- internal/pii/resolve.go: spans are sorted, and of two that overlap the better one is kept.
pub mod Laws
pub mod Winner
use mathlib.Core.List.{reverse}
use alfa_hakaton.Common.{◌+◌, ◌==◌, Bool, List, [], ◌∷◌, foldl, ltb, leb, if◌then◌else◌}
use alfa_hakaton.Common.Sort.{SortSlice}
use alfa_hakaton.Pii.Types.{Span, span_less}

-- Whether `a` replaces `b` on overlap. The lengths `End - Start` may be negative, so they are compared
-- as sums.
unfoldable pub better : Span → Span → Bool
better a b =
    if a.confidence == b.confidence
    then ltb (b.end + a.start) (a.end + b.start)
    else ltb b.confidence a.confidence

-- One round. `out` is kept with its last element first.
unfoldable pub resolve_step : List Span → Span → List Span
unfolding better
resolve_step [] s = s ∷ []
resolve_step (last ∷ out) s =
    if leb last.end s.start then s ∷ last ∷ out else if better s last then s ∷ out else last ∷ out

unfoldable pub resolve : SortSlice → List Span → List Span
unfolding resolve_step span_less
resolve sort spans = reverse (foldl resolve_step [] (sort.sort Span span_less spans))
