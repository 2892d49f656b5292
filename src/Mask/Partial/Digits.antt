-- ===== src/Mask/Partial/Digits.antt =====
-- internal/mask/partial.go, `maskDigits`: how many digits are shown.
use mathlib.Core.List.{reverse}
use alfa_hakaton.Common.{
  ℕ, ◌+◌, ◌≤◌, ◌≡◌, refl, ◌==◌, true, false, Bytes, List, [], ◌∷◌, ◌++◌, length, length-append,
  length-take, take, leb, if◌then◌else◌, Bool-cases, inl, inr, arith,
}
use alfa_hakaton.Mask.Full.{Unicode}
use alfa_hakaton.Mask.Partial.{has, collect_digit_idx, keep_set, mask_digit_runs, mask_digits}

-- How many entries are `i` or more.
above : ℕ → List ℕ → ℕ
above i [] = 0
above i (j ∷ js) = (if leb i j then 1 else 0) + above i js

above_mono : (i : ℕ) (js : List ℕ) → above (i + 1) js ≤ above i js
unfolding above
above_mono i [] = omega arith
above_mono i (j ∷ js) = ground (arith, above_mono i js)

above-has : (i : ℕ) (js : List ℕ) → has js i ≡ true → above (i + 1) js + 1 ≤ above i js
unfolding above
above-has i [] h = cc
above-has i (j ∷ js) h = ground (arith, above-has i js, above_mono i js)

above-le-length : (i : ℕ) (js : List ℕ) → above i js ≤ length js
unfolding above
above-le-length i [] = omega arith
above-le-length i (j ∷ js) = ground (arith, above-le-length i js)

module _ (u : Unicode) (to_upper : Bytes → Bytes) where
  unfoldable pub count_digits : Bytes → ℕ
  count_digits [] = 0
  count_digits (c ∷ s) = (if u.is_digit c then 1 else 0) + count_digits s

  count_digits-append : (a b : Bytes) → count_digits (a ++ b) ≡ count_digits a + count_digits b
  unfolding count_digits
  count_digits-append [] b = omega arith
  count_digits-append (c ∷ a) b = omega (arith, count_digits-append a b)

  length-collect_digit_idx :
      (i : ℕ) (value : Bytes) → length (collect_digit_idx u to_upper i value) ≡ count_digits value
  unfolding count_digits collect_digit_idx
  length-collect_digit_idx i [] = refl
  length-collect_digit_idx i (c ∷ value) = ground (arith, length-collect_digit_idx (i + 1) value)

  length-keep_set : (idx : List ℕ) (h t : ℕ) → length (keep_set u to_upper idx h t) ≤ h + t
  unfolding keep_set
  length-keep_set idx h t = omega (
    arith,
    length-append (take h idx) (take t (reverse idx)),
    length-take h idx,
    length-take t (reverse idx),
  )

  -- The value with `ch` for each digit.
  pub form : ℕ → Bytes → Bytes
  form ch [] = []
  form ch (c ∷ s) = (if u.is_digit c then ch else c) ∷ form ch s

  module _ (ch : ℕ) (star : u.is_digit ch ≡ false) where
    runs_digits :
        (i : ℕ) (value : Bytes) (keep : List ℕ)
        → count_digits (mask_digit_runs u to_upper i value keep (ch ∷ [])) ≤ above i keep
    unfolding mask_digit_runs count_digits
    runs_digits i [] keep = omega arith
    runs_digits i (c ∷ value) keep =
        ground (arith, star, runs_digits (i + 1) value keep, above-has i keep, above_mono i keep)

    runs_form :
        (i : ℕ) (value : Bytes) (keep : List ℕ)
        → form ch (mask_digit_runs u to_upper i value keep (ch ∷ [])) ≡ form ch value
    unfolding mask_digit_runs form
    runs_form i [] keep = refl
    runs_form i (c ∷ value) keep = ground (arith, star, runs_form (i + 1) value keep)

    -- With at most `n` offsets to keep.
    kept :
        (value : Bytes) (keep : List ℕ) (n : ℕ)
        → length keep ≤ n
        → (count_digits (
              if count_digits value == 0
              then value
              else mask_digit_runs u to_upper 0 value keep (ch ∷ []))
            ≤ n)
          × (form ch (
                if count_digits value == 0
                then value
                else mask_digit_runs u to_upper 0 value keep (ch ∷ []))
              ≡ form ch value)
    kept value keep n h = elim (Bool-cases (count_digits value == 0)) [
      | inl e ↦ rw e (ground arith, refl)
      | inr e ↦
          rw e (
            omega (arith, runs_digits 0 value keep, above-le-length 0 keep),
            runs_form 0 value keep,
          )
    ]

    -- Masked by a character that is no digit, a value shows at most as many digits as its rule keeps, and
    -- none if it has only one more than these or fewer; every other byte stays in its place.
    pub mask_digits_shows :
        (value : Bytes) (head tail : ℕ)
        → (count_digits (mask_digits u to_upper value head tail (ch ∷ []))
            ≤ (if leb (count_digits value) (head + tail + 1) then 0 else head + tail))
          × (form ch (mask_digits u to_upper value head tail (ch ∷ [])) ≡ form ch value)
    unfolding mask_digits
    mask_digits_shows value head tail =
        let idx = collect_digit_idx u to_upper 0 value in
        let n = length-collect_digit_idx 0 value in
        rw n (elim (Bool-cases (leb (count_digits value) (head + tail + 1))) [
          | inl few ↦ rw few (kept value (keep_set u to_upper idx 0 0) 0 (length-keep_set idx 0 0))
          | inr many ↦ rw many (
              kept value (keep_set u to_upper idx head tail) (head + tail)
                (length-keep_set idx head tail))
        ])
