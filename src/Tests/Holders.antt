-- ===== src/Tests/Holders.antt =====
-- The detector of card holders at concrete texts. The texts are ASCII, so that the case of a letter is
-- shifted by 32, and a card number is a run of digits.
use alfa_hakaton.Common.{
  ◌+◌, ◌-◌, ◌≡◌, refl, Bytes, bytes_eq, codes, List, [], ◌∷◌, length, map, if◌then◌else◌,
}
use alfa_hakaton.Pii.Utf8.{between, decode_rune}
use alfa_hakaton.Pii.Detector.{Text}
use alfa_hakaton.Detectors.Tokens.{tokenize}
use alfa_hakaton.Detectors.Tokens.Order.{InOrder}
use alfa_hakaton.Detectors.Cardholder.{detect_lower}
use alfa_hakaton.Detectors.Cardholder.Spans.{span_at, detect_lower-InOrder}

abbrev lower : Bytes → Bytes
lower s = map (λ c. if between b'A' b'Z' c then c + 32 else c) s

abbrev upper : Bytes → Bytes
upper s = map (λ c. if between b'a' b'z' c then c - 32 else c) s

-- Without the spaces in front, which is all there is between two words.
abbrev trim : Bytes → Bytes
trim [] = []
trim (c ∷ s) = if between b' ' b' ' c then trim s else c ∷ s

abbrev numbers : Bytes → List Bytes
numbers s = codes "4111111111111111" ∷ []

abbrev holder_text : Text
holder_text = record {
  raw = codes "Card: JOHN Q PUBLIC, 4111";
  lower = codes "card: john q public, 4111";
}

tokens_example :
    map (λ t. t.text) (tokenize (codes "a-b- J. x.")) ≡ codes "a-b" ∷ codes "J." ∷ codes "x." ∷ []
unfolding tokenize decode_rune
tokens_example = refl

-- All three words are one span, and the label is none.
holder_example : map span_at (detect_lower lower upper trim numbers holder_text) ≡ (6, 19) ∷ []
unfolding detect_lower bytes_eq
holder_example = refl

detect_lower-InOrder_example :
    InOrder span_at (length holder_text.raw) 0 (detect_lower lower upper trim numbers holder_text)
detect_lower-InOrder_example = detect_lower-InOrder lower upper trim numbers holder_text
