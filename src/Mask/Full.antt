-- ===== src/Mask/Full.antt =====
-- internal/mask/full.go and servicewords.go: every letter and digit becomes a star, but service words
-- are kept. A value is read as its runes, each with the bytes it was read from. `unicode.IsLetter`,
-- `unicode.IsDigit` and `strings.ToLower` are parameters.
pub mod Laws
pub mod Fuel
pub mod Words
pub mod Hides
use alfa_hakaton.Common.{
  ℕ, zero, suc, ◌+◌, ◌-◌, ◌/◌, ◌%◌, ◌==◌, Bool, true, false, not, ◌&&◌, ◌||◌, Bytes, bytes_eq,
  codes, utf8, List, [], ◌∷◌, ◌++◌, any, length, take, drop, get_or, ltb, if◌then◌else◌,
}
use alfa_hakaton.Pii.Types.{Category}
use alfa_hakaton.Pii.Utf8.{decode_rune}
use alfa_hakaton.Mask.Doc.{DocState, Strategy, memo, remember}

pub record Unicode : Type 0 where
  pub is_letter : ℕ → Bool
  pub is_digit : ℕ → Bool
  pub to_lower : Bytes → Bytes

pub record Piece : Type 0 where
  pub rune : ℕ
  pub raw : Bytes

-- `utf8.DecodeRuneInString`, from one position to the next.
unfoldable pub pieces : ℕ → Bytes → List Piece
pieces zero s = []
pieces (suc fuel) [] = []
pieces (suc fuel) (c ∷ s) =
    let (r, size) = decode_rune (c ∷ s) in
    record { rune = r; raw = take size (c ∷ s) } ∷ pieces fuel (drop size (c ∷ s))

-- `WriteRune` of a rune.
unfoldable pub encode : ℕ → Bytes
encode r =
    if ltb r 0x80
    then r ∷ []
    else if ltb r 0x800
    then (0xC0 + r / 64) ∷ (0x80 + r % 64) ∷ []
    else if ltb r 0x10000
    then (0xE0 + r / 4096) ∷ (0x80 + (r / 64) % 64) ∷ (0x80 + r % 64) ∷ []
    else (0xF0 + r / 262144)
      ∷ (0x80 + (r / 4096) % 64)
      ∷ (0x80 + (r / 64) % 64)
      ∷ (0x80 + r % 64)
      ∷ []

abbrev pub service_words : List Bytes
service_words =
    utf8 "ул"
    ∷ utf8 "улица"
    ∷ utf8 "д"
    ∷ utf8 "дом"
    ∷ utf8 "кв"
    ∷ utf8 "г"
    ∷ utf8 "гор"
    ∷ utf8 "город"
    ∷ utf8 "обл"
    ∷ utf8 "область"
    ∷ utf8 "корп"
    ∷ utf8 "стр"
    ∷ utf8 "пр-т"
    ∷ utf8 "пер"
    ∷ utf8 "пл"
    ∷ utf8 "наб"
    ∷ utf8 "ш"
    ∷ utf8 "р-н"
    ∷ utf8 "район"
    ∷ utf8 "край"
    ∷ utf8 "серия"
    ∷ utf8 "номер"
    ∷ utf8 "№"
    ∷ utf8 "года"
    ∷ utf8 "год"
    ∷ utf8 "г.р."
    ∷ []

-- With the three that the full strategy adds.
abbrev pub full_service_words : List Bytes
full_service_words = service_words ++ utf8 "по" ∷ utf8 "в" ∷ utf8 "и" ∷ []

-- The word without a dot at its end.
abbrev pub without_dot : Bytes → Bytes
without_dot word =
    if not (length word == 0) && get_or word (length word - 1) 0 == b'.'
    then take (length word - 1) word
    else word

abbrev pub raw_of : List Piece → Bytes
raw_of [] = []
raw_of (p ∷ ps) = p.raw ++ raw_of ps

module _ (u : Unicode) where
  unfoldable pub is_word_rune : ℕ → Bool
  is_word_rune r = u.is_letter r || u.is_digit r

  unfoldable pub is_service_word : Bytes → Bool
  is_service_word word = any (λ w. bytes_eq w (u.to_lower (without_dot word))) full_service_words

  abbrev pub starts_word : List Piece → Bool
  starts_word [] = false
  starts_word (p ∷ ps) = is_word_rune p.rune

  -- A run of word runes, with single hyphens between them, and what follows it.
  unfoldable pub scan_word : List Piece → List Piece × List Piece
  scan_word [] = ([], [])
  scan_word (p ∷ ps) =
      let (word, rest) = scan_word ps in
      if is_word_rune p.rune || (p.rune == b'-' && starts_word ps)
      then (p ∷ word, rest)
      else ([], p ∷ ps)

  -- `writeMaskedWord`, and `maskAllLetters` of the whole value.
  unfoldable pub mask_all_letters : List Piece → Bytes
  unfolding is_word_rune encode
  mask_all_letters [] = []
  mask_all_letters (p ∷ ps) =
      (if is_word_rune p.rune then b'*' ∷ [] else encode p.rune) ++ mask_all_letters ps

  -- A word: kept or masked.
  unfoldable pub write_word : List Piece → Bytes
  write_word word = if is_service_word (raw_of word) then raw_of word else mask_all_letters word

  -- The loop of `maskFull`, with a round for each unit of fuel.
  unfoldable pub mask_words : ℕ → List Piece → Bytes
  mask_words zero ps = []
  mask_words (suc fuel) [] = []
  mask_words (suc fuel) (p ∷ ps) =
      let (word, rest) = scan_word (p ∷ ps) in
      let behind = mask_words fuel rest in
      let next = mask_words fuel ps in
      if not (is_word_rune p.rune) then encode p.rune ++ next else write_word word ++ behind

  -- The loop of `allServiceWords`.
  unfoldable pub all_service_from : ℕ → Bool → List Piece → Bool
  all_service_from zero found ps = found
  all_service_from (suc fuel) found [] = found
  all_service_from (suc fuel) found (p ∷ ps) =
      let (word, rest) = scan_word (p ∷ ps) in
      let behind = all_service_from fuel true rest in
      let next = all_service_from fuel found ps in
      if not (is_word_rune p.rune)
      then next
      else if not (is_service_word (raw_of word))
      then false
      else behind

  unfoldable pub all_service_words : List Piece → Bool
  unfolding all_service_from
  all_service_words ps = all_service_from (length ps) false ps

  unfoldable pub mask_pieces : List Piece → Bytes
  mask_pieces ps = if all_service_words ps then mask_all_letters ps else mask_words (length ps) ps

  unfoldable pub mask_full : Bytes → Bytes
  mask_full value = mask_pieces (pieces (length value) value)

  abbrev pub remembered : Bytes → DocState → Bytes → Bytes × DocState
  remembered value d [] = (mask_full value, remember d value (mask_full value))
  remembered value d (c ∷ m) = (c ∷ m, d)

  unfoldable pub new_full : Strategy
  new_full = record { name = codes "full"; mask = λ value c d. remembered value d (memo d value) }
