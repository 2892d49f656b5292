-- ===== src/Detectors/Cardholder.antt =====
-- internal/pii/detectors/cardholder.go: the names of card holders, in Latin letters. `strings.ToLower`,
-- `strings.ToUpper`, `strings.TrimSpace` and the matches of `cardNumRe` are parameters. Confidences are
-- ten thousandths.
pub mod Spans
use mathlib.Core.Option
use alfa_hakaton.Common.{
  ℕ, zero, suc, ◌+◌, ◌-◌, ◌==◌, Bool, true, false, not, ◌&&◌, ◌||◌, Bytes, bytes_eq, codes, utf8,
  List, [], ◌∷◌, length, take, drop, any, leb, ltb, if◌then◌else◌, Option, none, some,
}
use alfa_hakaton.Pii.Types.{Category, Span}
use alfa_hakaton.Pii.Utf8.{decode_rune}
use alfa_hakaton.Pii.Context.{rune_count_in_string}
use alfa_hakaton.Pii.Detector.{Text, Detector}
use alfa_hakaton.Detectors.Luhn.{luhn}
use alfa_hakaton.Detectors.Runes.{
  is_latin_letter, is_upper_latin, has_left_context, has_right_context,
}
use alfa_hakaton.Detectors.Tokens.{Token, tokenize, only_whitespace}

abbrev pub cat_card_holder : Category
cat_card_holder = codes "card_holder"

abbrev pub cardholder_stop : List Bytes
cardholder_stop =
    codes "VISA"
    ∷ codes "MASTERCARD"
    ∷ codes "MIR"
    ∷ codes "CVV"
    ∷ codes "CVC"
    ∷ codes "PIN"
    ∷ codes "LLC"
    ∷ codes "LTD"
    ∷ codes "OOO"
    ∷ codes "PAO"
    ∷ codes "AO"
    ∷ codes "INN"
    ∷ codes "USD"
    ∷ codes "EUR"
    ∷ codes "RUB"
    ∷ codes "CARD"
    ∷ codes "VALID"
    ∷ codes "THRU"
    ∷ codes "EXP"
    ∷ codes "NO"
    ∷ []

abbrev pub cardholder_context : List Bytes
cardholder_context =
    utf8 "держатель"
    ∷ utf8 "держателя"
    ∷ utf8 "держателю"
    ∷ utf8 "держателем"
    ∷ utf8 "владелец карты"
    ∷ codes "cardholder"
    ∷ codes "card holder"
    ∷ codes "name on card"
    ∷ utf8 "имя на карте"
    ∷ utf8 "имя держателя"
    ∷ utf8 "на имя"
    ∷ utf8 "эмбоссированное имя"
    ∷ codes "cardholder:"
    ∷ []

-- From byte `i` on only Latin letters, and hyphens that are neither first nor last; and how many
-- letters there are, with fuel for each byte.
unfoldable pub word_letters : ℕ → Bytes → ℕ → Option ℕ
unfolding decode_rune is_latin_letter
word_letters zero s i = some 0
word_letters (suc fuel) s i =
    let (r, size) = decode_rune (drop i s) in
    let rest = word_letters fuel s (i + size) in
    if leb (length s) i
    then some 0
    else if is_latin_letter r
    then Option.map suc rest
    else if r == b'-' && (ltb 0 i && ltb i (length s - 1))
    then rest
    else none

abbrev at_least_one : Option ℕ → Bool
at_least_one none = false
at_least_one (some n) = leb 1 n

unfoldable pub is_cardholder_word : (Bytes → Bytes) → Bytes → Bool
unfolding word_letters
is_cardholder_word to_upper s =
    if any (bytes_eq (to_upper s)) cardholder_stop
    then false
    else if length s == 0
    then false
    else at_least_one (word_letters (length s) s 0)

-- Every byte is an upper-case letter: what else a rune starts with is none.
unfoldable pub all_upper_from : Bytes → Bool
unfolding is_upper_latin
all_upper_from [] = true
all_upper_from (c ∷ s) = is_upper_latin c && all_upper_from s

unfoldable pub is_all_upper : Bytes → Bool
unfolding all_upper_from
is_all_upper s = if length s == 0 then false else all_upper_from s

-- Whether all the words are, and the last of the words behind `t`.
unfoldable pub all_upper : List Token → Bool
unfolding is_all_upper
all_upper [] = true
all_upper (t ∷ ts) = is_all_upper t.text && all_upper ts

unfoldable pub last_token : Token → List Token → Token
last_token t [] = t
last_token t (u ∷ us) = last_token u us

abbrev has_long : List Token → Bool
has_long seq = any (λ t. leb 2 (rune_count_in_string t.text)) seq

abbrev keep_words : (Bytes → Bytes) → List Token → List Token
keep_words to_upper [] = []
keep_words to_upper (t ∷ ts) =
    if is_cardholder_word to_upper t.text
    then t ∷ keep_words to_upper ts
    else keep_words to_upper ts

unfoldable pub has_card_number : (Bytes → List Bytes) → Bytes → Bool
unfolding luhn
has_card_number card_numbers text = any luhn (card_numbers text)

module _ (to_lower trim_space : Bytes → Bytes) (t : Text) (has_card : Bool) where
  unfoldable pub valid_cardholder : Token → List Token → Bool
  unfolding all_upper has_left_context has_right_context last_token rune_count_in_string
  valid_cardholder first others =
      if not (has_long (first ∷ others))
      then false
      else if all_upper (first ∷ others) && has_card
      then true
      else if has_left_context to_lower t first.start cardholder_context 30
      then true
      else has_right_context to_lower t (last_token first others).end cardholder_context 30

  unfoldable pub cardholder_confidence : Token → List Token → ℕ
  unfolding all_upper has_left_context
  cardholder_confidence first others =
      if all_upper (first ∷ others)
        && (has_card || has_left_context to_lower t first.start cardholder_context 30)
      then 9500
      else 8500

  -- Nothing but whitespace between each word and the next.
  unfoldable pub all_adjacent : Token → List Token → Bool
  unfolding only_whitespace
  all_adjacent first [] = true
  all_adjacent first (u ∷ us) =
      only_whitespace trim_space t.raw first.end u.start && all_adjacent u us

  unfoldable pub span_of : Token → List Token → Span
  unfolding last_token cardholder_confidence
  span_of first others = record {
    start = first.start;
    end = (last_token first others).end;
    category = cat_card_holder;
    detector = codes "cardholder";
    confidence = cardholder_confidence first others;
  }

  -- The span of `n` words, of which `first` is one and the others start the list `cands`.
  unfoldable pub try_n : Token → List Token → ℕ → Option Span
  unfolding all_adjacent valid_cardholder span_of
  try_n first cands n =
      let others = take (n - 1) cands in
      if ltb (length cands) (n - 1)
      then none
      else if not (all_adjacent first others)
      then none
      else if not (valid_cardholder first others)
      then none
      else some (span_of first others)

  -- The longest span of at most `n + 1` and at least two words, and the words that it leaves.
  unfoldable pub longest : ℕ → Token → List Token → Option (Span × List Token)
  unfolding try_n
  longest zero first cands = none
  longest (suc n) first cands = elim (try_n first cands (suc (suc n))) [
    | some s ↦ some (s, drop (suc n) cands)
    | none ↦ longest n first cands
  ]

  -- The loop over the candidates, with fuel for each.
  unfoldable pub spans_from : ℕ → List Token → List Span
  unfolding longest
  spans_from zero cands = []
  spans_from (suc fuel) [] = []
  spans_from (suc fuel) (first ∷ cands) = elim (longest 3 first cands) [
    | some found ↦ found.0 ∷ spans_from fuel found.1
    | none ↦ spans_from fuel cands
  ]

module _ (to_lower to_upper trim_space : Bytes → Bytes) (card_numbers : Bytes → List Bytes) where
  unfoldable pub detect_lower : Text → List Span
  unfolding tokenize has_card_number is_cardholder_word spans_from
  detect_lower t =
      let cands = keep_words to_upper (tokenize t.raw) in
      spans_from to_lower trim_space t (has_card_number card_numbers t.raw) (length cands) cands

  unfoldable pub detect : Bytes → List Span
  unfolding detect_lower
  detect text = detect_lower (record { raw = text; lower = to_lower text })

  unfoldable pub cardholder_detector : Detector
  unfolding detect detect_lower
  cardholder_detector = record {
    name = codes "cardholder";
    categories = cat_card_holder ∷ [];
    detect = detect;
    detect_lower = some detect_lower;
  }
