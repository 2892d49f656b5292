-- ===== src/Detectors/Tokens.antt =====
-- The tokens of internal/pii/detectors/names_tokens.go: words and initials, with their places.
-- `strings.TrimSpace` is the parameter `trim_space`.
pub mod Order
use alfa_hakaton.Common.{
  ℕ, zero, suc, ◌+◌, ◌==◌, Bool, ◌&&◌, Bytes, bytes_eq, List, [], ◌∷◌, length, drop, slice, get_or,
  ltb, if◌then◌else◌,
}
use alfa_hakaton.Pii.Utf8.{decode_rune}
use alfa_hakaton.Detectors.Runes.{is_letter}

pub record Token : Type 0 where
  pub start : ℕ
  pub end : ℕ
  pub text : Bytes

-- The letter or the hyphen before a letter at `i`: how many bytes to go on by, and how many letters to
-- count; no bytes where the word ends.
unfoldable pub word_step : Bytes → ℕ → ℕ × ℕ
unfolding decode_rune is_letter
word_step text i =
    let (r, size) = decode_rune (drop i text) in
    if is_letter r
    then (size, 1)
    else if r == b'-'
        && (ltb (i + size) (length text) && is_letter (decode_rune (drop (i + size) text)).0)
    then (size, 0)
    else (0, 0)

-- The end of the word at `i` and the letters up to there, with fuel for each byte.
unfoldable pub consume_word : ℕ → Bytes → ℕ → ℕ → ℕ × ℕ
unfolding word_step
consume_word zero text i rune_count = (i, rune_count)
consume_word (suc fuel) text i rune_count =
    let (size, letters) = word_step text i in
    let rest = consume_word fuel text (i + size) (rune_count + letters) in
    if ltb i (length text) && ltb 0 size then rest else (i, rune_count)

-- The end of the token at `i`: one letter takes a dot behind it along.
unfoldable pub token_end : Bytes → ℕ → ℕ
unfolding consume_word
token_end text i =
    let (end, letters) = consume_word (length text) text i 0 in
    if letters == 1 && (ltb end (length text) && get_or text end 0 == b'.') then suc end else end

-- The tokens from `i`, with fuel for each byte.
unfoldable pub tokenize_from : ℕ → Bytes → ℕ → List Token
unfolding token_end decode_rune is_letter
tokenize_from zero text i = []
tokenize_from (suc fuel) text i =
    let (r, size) = decode_rune (drop i text) in
    let end = token_end text i in
    let later = tokenize_from fuel text (if is_letter r then end else i + size) in
    if ltb i (length text)
    then (if is_letter r
        then record { start = i; end = end; text = slice text i end } ∷ later
        else later)
    else []

unfoldable pub tokenize : Bytes → List Token
unfolding tokenize_from
tokenize text = tokenize_from (length text) text 0

unfoldable pub only_whitespace : (Bytes → Bytes) → Bytes → ℕ → ℕ → Bool
only_whitespace trim_space text a b = bytes_eq (trim_space (slice text a b)) []
