-- ===== src/Detectors/Runes.antt =====
-- internal/pii/detectors/textutil.go: the letters and the windows of runes that the detectors look at.
-- `strings.ToLower` is the parameter `to_lower`.
use alfa_hakaton.Common.{
  ℕ, zero, suc, ◌+◌, ◌==◌, Bool, ◌||◌, Bytes, List, any, length, take, drop, get_or, leb, ltb,
  if◌then◌else◌,
}
use alfa_hakaton.Common.Find.{contains}
use alfa_hakaton.Pii.Utf8.{decode_rune, between}
use alfa_hakaton.Pii.Detector.{Text, lower_ok}

unfoldable pub is_lower_cyrillic_rune : ℕ → Bool
is_lower_cyrillic_rune r = between 0x430 0x44F r || r == 0x451

unfoldable pub is_upper_cyrillic_rune : ℕ → Bool
is_upper_cyrillic_rune r = between 0x410 0x42F r || r == 0x401

unfoldable pub is_cyrillic_rune : ℕ → Bool
unfolding is_lower_cyrillic_rune is_upper_cyrillic_rune
is_cyrillic_rune r = is_lower_cyrillic_rune r || is_upper_cyrillic_rune r

unfoldable pub is_latin_letter : ℕ → Bool
is_latin_letter r = between b'a' b'z' r || between b'A' b'Z' r

unfoldable pub is_letter : ℕ → Bool
unfolding is_latin_letter is_cyrillic_rune
is_letter r = is_latin_letter r || is_cyrillic_rune r

unfoldable pub is_upper_latin : ℕ → Bool
is_upper_latin r = between b'A' b'Z' r

unfoldable pub is_upper_rune : ℕ → Bool
unfolding is_upper_latin is_upper_cyrillic_rune
is_upper_rune r = is_upper_latin r || is_upper_cyrillic_rune r

-- A byte inside a rune, `b&0xC0 == 0x80`.
abbrev pub is_inner : ℕ → Bool
is_inner b = between 0x80 0xBF b

-- Back from `i` over the bytes inside a rune.
unfoldable pub rune_at : Bytes → ℕ → ℕ
rune_at s zero = zero
rune_at s (suc i) =
    let earlier = rune_at s i in if is_inner (get_or s (suc i) 0) then earlier else suc i

-- The rune that ends at a position.
unfoldable pub rune_before : Bytes → ℕ → ℕ
unfolding rune_at decode_rune
rune_before s zero = 0
rune_before s (suc i) = (decode_rune (drop (rune_at s i) s)).0

unfoldable pub decoded_rune : Bytes → ℕ → ℕ
unfolding decode_rune
decoded_rune s pos = (decode_rune (drop pos s)).0

-- The runes from `a` to `b`, counted up to the number of rounds.
unfoldable pub gap_from : ℕ → Bytes → ℕ → ℕ → ℕ
unfolding decode_rune
gap_from zero text a b = 0
gap_from (suc n) text a b =
    let rest = gap_from n text (a + (decode_rune (drop a text)).1) b in
    if ltb a b then 1 + rest else 0

unfoldable pub gap_runes : Bytes → ℕ → ℕ → ℕ
unfolding gap_from
gap_runes text a b = if leb b a then 0 else gap_from 4 text a b

-- `n` runes on from a position.
unfoldable pub rune_offset_after : Bytes → ℕ → ℕ → ℕ
unfolding decode_rune
rune_offset_after s end zero = end
rune_offset_after s end (suc n) =
    let later = rune_offset_after s (end + (decode_rune (drop end s)).1) n in
    if ltb end (length s) then later else end

-- `n` runes back from a position.
unfoldable pub rune_offset_before : Bytes → ℕ → ℕ → ℕ
unfolding rune_at
rune_offset_before s zero n = zero
rune_offset_before s (suc i) zero = suc i
rune_offset_before s (suc i) (suc n) = rune_offset_before s (rune_at s i) n

unfoldable pub last_n_runes : Bytes → ℕ → Bytes
unfolding rune_offset_before
last_n_runes s n = drop (rune_offset_before s (length s) n) s

unfoldable pub first_n_runes : Bytes → ℕ → Bytes
unfolding rune_offset_after
first_n_runes s n = take (rune_offset_after s 0 n) s

module _ (to_lower : Bytes → Bytes) (t : Text) where
  unfoldable pub rune_window_before : ℕ → ℕ → Bytes
  unfolding last_n_runes lower_ok
  rune_window_before pos n =
      if lower_ok t
      then last_n_runes (take pos t.lower) n
      else to_lower (last_n_runes (take pos t.raw) n)

  unfoldable pub rune_window_after : ℕ → ℕ → Bytes
  unfolding first_n_runes lower_ok
  rune_window_after pos n =
      if lower_ok t
      then first_n_runes (drop pos t.lower) n
      else to_lower (first_n_runes (drop pos t.raw) n)

  unfoldable pub has_left_context : ℕ → List Bytes → ℕ → Bool
  unfolding rune_window_before contains
  has_left_context pos keywords window = any (contains (rune_window_before pos window)) keywords

  unfoldable pub has_right_context : ℕ → List Bytes → ℕ → Bool
  unfolding rune_window_after contains
  has_right_context pos keywords window = any (contains (rune_window_after pos window)) keywords
