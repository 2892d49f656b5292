-- ===== src/Pii/Pipeline/Laws.antt =====
-- What the pipeline returns, whatever its detectors report.
use alfa_hakaton.Common.{
  ℕ, subst, bytes_eq_iff, ◌≡◌, refl, sym, ap, ◌∙◌, Bytes, List, [], ◌∷◌, ◌++◌, All, arith,
  append_assoc, append-nil, ◌≤◌, ◌⊎◌,
}
use alfa_hakaton.Common.Sort.{SortSlice}
use alfa_hakaton.Pii.Types.{Span, cat_date, cat_birth_date, cat_passport_date}
use alfa_hakaton.Pii.Resolve.{resolve}
use alfa_hakaton.Pii.Resolve.Laws.{IsRange, IsDisjoint, resolve-IsDisjoint}
use alfa_hakaton.Pii.Pipeline.{
  Pipeline, reclassify_span, post_process_from, post_process, detect_all, run,
}

-- Where a span stands.
abbrev pub place : Span → ℕ × ℕ
place s = (s.start, s.end)

abbrev pub places : List Span → List (ℕ × ℕ)
places [] = []
places (s ∷ ss) = place s ∷ places ss

places-append : (xs ys : List Span) → places (xs ++ ys) ≡ places xs ++ places ys
places-append [] ys = refl
places-append (x ∷ xs) ys = ap (◌∷◌ (place x)) (places-append xs ys)

abbrev Apart : List (ℕ × ℕ) → Type 0
Apart [] = Unit
Apart (x ∷ xs) = All (λ y. x.1 ≤ y.0) xs × Apart xs

above-places :
    (x : Span) (xs : List Span) → All (λ y. x.end ≤ y.start) xs → All (λ y. x.end ≤ y.0) (places xs)
above-places x [] h = tt
above-places x (y ∷ xs) h = (h.0, above-places x xs h.1)

places_above :
    (x : Span) (xs : List Span) → All (λ y. x.end ≤ y.0) (places xs) → All (λ y. x.end ≤ y.start) xs
places_above x [] h = tt
places_above x (y ∷ xs) h = (h.0, places_above x xs h.1)

Apart-places : (xs : List Span) → IsDisjoint xs → Apart (places xs)
Apart-places [] h = tt
Apart-places (x ∷ xs) h = (above-places x xs h.0, Apart-places xs h.1)

IsDisjoint-places : (xs : List Span) → Apart (places xs) → IsDisjoint xs
IsDisjoint-places [] h = tt
IsDisjoint-places (x ∷ xs) h = (places_above x xs h.0, IsDisjoint-places xs h.1)

module _ (to_lower : Bytes → Bytes) (raw : Bytes) where
  place-reclassify_span :
      (spans : List Span) (s : Span) → place (reclassify_span to_lower raw spans s) ≡ place s
  unfolding reclassify_span
  place-reclassify_span spans s = ground arith

  places-post_process_from :
      (done rest : List Span)
      → places (post_process_from to_lower raw done rest) ≡ places done ++ places rest
  unfolding post_process_from
  places-post_process_from done [] = sym (append-nil (places done))
  places-post_process_from done (s ∷ rest) =
      let s' = reclassify_span to_lower raw (done ++ s ∷ rest) s in
      places-post_process_from (done ++ s' ∷ []) rest
      ∙ ap (λ z. z ++ places rest) (places-append done (s' ∷ []))
      ∙ append_assoc (places done) (place s' ∷ []) (places rest)
      ∙ ap (λ p. places done ++ p ∷ places rest) (place-reclassify_span (done ++ s ∷ rest) s)

  -- Reclassification moves no span: the places before and after are the same, in the same order.
  pub places-post_process :
      (spans : List Span) → places (post_process to_lower raw spans) ≡ places spans
  unfolding post_process
  places-post_process spans = places-post_process_from [] spans

  -- A span keeps its category, or a date or birth date becomes a passport date or a birth date.
  pub reclassify_span_cases :
      (spans : List Span) (s : Span)
      → let c = (reclassify_span to_lower raw spans s).category in
        (c ≡ s.category)
        ⊎ ((s.category ≡ cat_date) × ((c ≡ cat_passport_date) ⊎ (c ≡ cat_birth_date)))
        ⊎ ((s.category ≡ cat_birth_date) × (c ≡ cat_passport_date))
  unfolding reclassify_span
  reclassify_span_cases spans s =
      ground (arith, bytes_eq_iff s.category cat_date, bytes_eq_iff s.category cat_birth_date)

-- Whatever non-empty spans the detectors report, the spans of the pipeline's result are in order and
-- no two overlap.
pub run-IsDisjoint :
    (sort : SortSlice) (p : Pipeline) (text : Bytes)
    → All IsRange (detect_all text (record { raw = text; lower = p.to_lower text }) p.detectors)
    → IsDisjoint (run sort p text)
unfolding run
run-IsDisjoint sort p text h =
    let found = detect_all text (record { raw = text; lower = p.to_lower text }) p.detectors in
    IsDisjoint-places _ (
      subst Apart (sym (places-post_process p.to_lower text (resolve sort found)))
        (Apart-places (resolve sort found) (resolve-IsDisjoint sort found h)))
