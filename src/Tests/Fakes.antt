-- ===== src/Tests/Fakes.antt =====
-- Fake values, and values that are shown in part.
use alfa_hakaton.Common.{
  ℕ, zero, suc, ◌≡◌, ◌≤◌, ◌<◌, refl, true, Bytes, codes, List, [], ◌∷◌, drop, leb, if◌then◌else◌,
  arith,
}
use alfa_hakaton.Pii.Types.{cat_card_number}
use alfa_hakaton.Mask.Doc.{new_doc_state}
use alfa_hakaton.Mask.Full.{Unicode}
use alfa_hakaton.Mask.Partial.{mask_digits}
use alfa_hakaton.Mask.Partial.Digits.{count_digits, form, mask_digits_shows}
use alfa_hakaton.Mask.Synthetic.{synth_card}
use alfa_hakaton.Mask.Synthetic.Laws.{shape, synth_card-luhn, synth_card_keeps_tail}
use alfa_hakaton.Detectors.Digits.{is_digit, digits}
use alfa_hakaton.Detectors.Digits
use alfa_hakaton.Detectors.Luhn.{luhn}
use alfa_hakaton.Detectors.Control
use alfa_hakaton.Detectors.Dates.{valid_ymd}
use alfa_hakaton.Synth.Random.{Rng}
use alfa_hakaton.Synth.Names.{Words, Dict}
use alfa_hakaton.Synth.Calendar.{draw_day, draw_day-valid_ymd}
use alfa_hakaton.Synth.Accepted.{fakes-accepted}
use alfa_hakaton.Synth.{phone, card, inn, inn10, snils}

next_number : ℕ → ℕ → ℕ
next_number zero n = 0
next_number (suc s) n = if leb n (suc s) then 0 else suc s

next_number-lt : (s n : ℕ) → 0 < n → next_number s n < n
unfolding next_number
next_number-lt zero n h = h
next_number-lt (suc s) n h = ground arith

-- Counts, and starts again at each bound.
abbrev counter : Rng
counter = record {
  State = ℕ;
  intn = λ n s. (next_number s n, suc s);
  intn-lt = λ n s h. next_number-lt s n h;
}

abbrev words : Words
words = record { to_lower = λ s. s; to_upper = λ s. s }

abbrev no_names : Dict
no_names = record { names = []; surnames = []; patr_m = []; patr_f = [] }

abbrev fields : Bytes → List Bytes
fields s = s ∷ []

abbrev ascii : Unicode
ascii = record { is_letter = λ r. leb b'a' r; is_digit = is_digit; to_lower = λ s. s }

fakes-accepted_example :
    (luhn (card counter 3).0 ≡ true)
    × (Control.inn (inn counter 3).0 ≡ true)
    × (Control.inn (inn10 counter 3).0 ≡ true)
    × (Control.snils (snils counter 3).0 ≡ true)
    × (Digits.phone (phone counter 3).0 ≡ true)
fakes-accepted_example = fakes-accepted counter 3

draw_day-valid_ymd_example :
    (valid_ymd (draw_day counter 7).0.year (draw_day counter 7).0.month (draw_day counter 7).0.day
      ≡ true)
    × (1950 ≤ (draw_day counter 7).0.year)
    × ((draw_day counter 7).0.year ≤ 2005)
draw_day-valid_ymd_example = draw_day-valid_ymd counter 7

abbrev card16 : Bytes
card16 = codes "4276 3800 1234 5678"

abbrev card18 : Bytes
card18 = codes "4276 3800 1234 567890"

synth_card-luhn_example :
    (luhn (synth_card words fields no_names counter card16 cat_card_number 3 new_doc_state).0
      ≡ true)
    × (shape (synth_card words fields no_names counter card16 cat_card_number 3 new_doc_state).0
        ≡ shape card16)
unfolding digits
synth_card-luhn_example =
    synth_card-luhn words fields no_names counter card16 cat_card_number 3 new_doc_state refl

synth_card_keeps_tail_example :
    drop 16
      (digits (synth_card words fields no_names counter card18 cat_card_number 3 new_doc_state).0)
    ≡ drop 16 (digits card18)
unfolding digits
synth_card_keeps_tail_example =
    synth_card_keeps_tail words fields no_names counter card18 cat_card_number 3 new_doc_state
      (omega arith) (omega arith)

-- The tail of 18 digits is the end of the value in clear.
card18_tail : drop 16 (digits card18) ≡ codes "90"
unfolding digits
card18_tail = refl

mask_digits_shows_example :
    (count_digits ascii (λ s. s) (mask_digits ascii (λ s. s) card16 2 2 (b'*' ∷ [])) ≤ 4)
    × (form ascii (λ s. s) b'*' (mask_digits ascii (λ s. s) card16 2 2 (b'*' ∷ []))
        ≡ form ascii (λ s. s) b'*' card16)
unfolding count_digits
mask_digits_shows_example = mask_digits_shows ascii (λ s. s) b'*' refl card16 2 2
