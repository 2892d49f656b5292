-- ===== src/Pii/Context.antt =====
-- The context lookups of internal/pii/pipeline.go: what stands near a span. `strings.ToLower` is the
-- parameter `to_lower`, since its tables are the Unicode library's.
use alfa_hakaton.Common.{
  ℕ, zero, suc, ◌+◌, ◌-◌, ◌==◌, Bool, true, false, ◌&&◌, ◌||◌, Bytes, List, [], ◌∷◌, Option, none,
  some, length, take, drop, slice, any, ltb, if◌then◌else◌,
}
use alfa_hakaton.Common.Find.{contains, last_index}
use alfa_hakaton.Pii.Utf8.{decode_rune, decode_last_rune, between}

-- A Latin or Cyrillic letter.
unfoldable pub is_letter_rune : ℕ → Bool
is_letter_rune r =
    between b'a' b'z' r
    || (between b'A' b'Z' r
        || (between 0x430 0x44F r || (between 0x410 0x42F r || (r == 0x451 || r == 0x401))))

-- `n` runes back from `start`.
unfoldable pub runes_back : ℕ → Bytes → ℕ → ℕ
unfolding decode_last_rune
runes_back zero raw start = start
runes_back (suc n) raw start =
    let earlier = runes_back n raw (start - (decode_last_rune (take start raw)).1) in
    if ltb 0 start then earlier else start

-- `n` runes on from `end`.
unfoldable pub runes_on : ℕ → Bytes → ℕ → ℕ
unfolding decode_rune
runes_on zero raw end = end
runes_on (suc n) raw end =
    let later = runes_on n raw (end + (decode_rune (drop end raw)).1) in
    if ltb end (length raw) then later else end

-- The number of runes of a string, `utf8.RuneCountInString`, counted with fuel for each byte.
unfoldable pub rune_count : ℕ → Bytes → ℕ
unfolding decode_rune
rune_count zero s = 0
rune_count (suc fuel) [] = 0
rune_count (suc fuel) (c ∷ s) = 1 + rune_count fuel (drop (decode_rune (c ∷ s)).1 (c ∷ s))

unfoldable pub rune_count_in_string : Bytes → ℕ
unfolding rune_count
rune_count_in_string s = rune_count (length s) s

-- The substring is not part of a longer word.
unfoldable pub keyword_at_boundary : Bytes → ℕ → ℕ → Bool
unfolding is_letter_rune decode_rune decode_last_rune
keyword_at_boundary s start end =
    if ltb 0 start && is_letter_rune (decode_last_rune (take start s)).0
    then false
    else if ltb end (length s) && is_letter_rune (decode_rune (drop end s)).0
    then false
    else true

-- The search for the last occurrence at a word boundary, with fuel for each place.
unfoldable pub last_keyword_from : ℕ → Bytes → Bytes → ℕ → Option ℕ
unfolding last_index keyword_at_boundary
last_keyword_from zero s kw search_from = none
last_keyword_from (suc fuel) s kw search_from = elim (last_index (take search_from s) kw) [
  | none ↦ none
  | some idx ↦
      let earlier = last_keyword_from fuel s kw idx in
      if keyword_at_boundary s idx (idx + length kw) then some idx else earlier
]

unfoldable pub last_keyword_index : Bytes → Bytes → Option ℕ
unfolding last_keyword_from
last_keyword_index s kw = last_keyword_from (length s + 1) s kw (length s)

abbrev is_some {ℓ} : {A : Type ℓ} → Option A → Bool
is_some none = false
is_some (some a) = true

module _ (to_lower : Bytes → Bytes) (raw : Bytes) where
  -- The last `n` runes before `pos`, and the first `n` after it, lowercased.
  unfoldable pub window_before : ℕ → ℕ → Bytes
  unfolding runes_back
  window_before pos n = to_lower (slice raw (runes_back n raw pos) pos)

  unfoldable pub window_after : ℕ → ℕ → Bytes
  unfolding runes_on
  window_after pos n = to_lower (slice raw pos (runes_on n raw pos))

  unfoldable pub has_any_context : ℕ → ℕ → List Bytes → Bool
  unfolding window_before contains
  has_any_context pos n keywords = any (contains (window_before pos n)) keywords

  unfoldable pub has_any_context_after : ℕ → ℕ → List Bytes → Bool
  unfolding window_after contains
  has_any_context_after pos n keywords = any (contains (window_after pos n)) keywords

  unfoldable pub has_word_context : ℕ → ℕ → List Bytes → Bool
  unfolding window_before last_keyword_index
  has_word_context pos n keywords =
      any (λ kw. is_some (last_keyword_index (window_before pos n) kw)) keywords

  abbrev nearer : Option ℕ → ℕ → ℕ
  nearer none d = d
  nearer (some best) d = if ltb d best then d else best

  unfoldable pub nearest : Bytes → Option ℕ → List Bytes → Option ℕ
  unfolding last_index rune_count_in_string
  nearest window best [] = best
  nearest window best (kw ∷ kws) =
      nearest window
        (elim (last_index window kw) [
          | none ↦ best
          | some idx ↦ some (nearer best (rune_count_in_string (drop idx window)))
        ])
        kws

  -- The distance in runes to the nearest keyword on the left; `none` stands for -1.
  unfoldable pub nearest_context : ℕ → ℕ → List Bytes → Option ℕ
  unfolding window_before nearest
  nearest_context pos n keywords = nearest (window_before pos n) none keywords
