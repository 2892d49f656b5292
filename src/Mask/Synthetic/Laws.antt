-- ===== src/Mask/Synthetic/Laws.antt =====
-- internal/mask/synthetic.go: what a replaced number looks like.
use mathlib.Core.Path.{ap₂}
use alfa_hakaton.Common.{
  ℕ, zero, suc, ◌≤◌, ◌<◌, ◌≡◌, refl, sym, ap, ◌∙◌, subst, Bool, true, Bytes, List, [], ◌∷◌, ◌++◌,
  append-nil, length, take, drop, take-length, drop-length, All, le→ltb_false, drop-append,
  if◌then◌else◌, arith, Bool-cases, inl, inr,
}
use alfa_hakaton.Pii.Types.{Category}
use alfa_hakaton.Mask.Doc.{DocState}
use alfa_hakaton.Detectors.Digits.{is_digit, digits}
use alfa_hakaton.Detectors.Digits
use alfa_hakaton.Detectors.Luhn.{luhn, luhn_digits}
use alfa_hakaton.Detectors.Control.{inn_digits, snils_digits}
use alfa_hakaton.Detectors.Control
use alfa_hakaton.Synth.Random.{Rng, IsDigit}
use alfa_hakaton.Synth.Accepted.{
  IsPassing, card-IsPassing, inn-IsPassing, snils-IsPassing, phone-IsPassing,
}
use alfa_hakaton.Synth.Names.{Words, Dict}
use alfa_hakaton.Synth.{phone, card, inn, snils}
use alfa_hakaton.Mask.Synthetic.{
  digits_only, apply_digits, synth_phone, synth_card, synth_inn, synth_snils,
}

digits_only-digits : (v : Bytes) → digits_only v ≡ digits v
unfolding digits_only digits
digits_only-digits [] = refl
digits_only-digits (c ∷ v) = ground (arith, digits_only-digits v)

apply_digits_none : (v : Bytes) → apply_digits v [] ≡ v
unfolding apply_digits
apply_digits_none [] = refl
apply_digits_none (c ∷ v) = ground (arith, apply_digits_none v)

take_none : (n : ℕ) → take {A = ℕ} n [] ≡ []
take_none zero = refl
take_none (suc n) = refl

-- The digits of a replaced value: the fake ones, cut at the number of digits there are, and behind
-- them the digits of the value for which there was no fake one.
pub digits-apply_digits :
    (v fake : Bytes)
    → All IsDigit fake
    → digits (apply_digits v fake) ≡ take (length (digits v)) fake ++ drop (length fake) (digits v)
unfolding apply_digits digits
digits-apply_digits [] [] h = refl
digits-apply_digits [] (x ∷ fake) h = refl
digits-apply_digits (c ∷ v) [] h =
    ap digits (apply_digits_none (c ∷ v))
    ∙ sym (ap (λ z. z ++ digits (c ∷ v)) (take_none (length (digits (c ∷ v)))))
digits-apply_digits (c ∷ v) (x ∷ fake) h = elim (Bool-cases (is_digit c)) [
  | inl e ↦ ground (arith, digits-apply_digits v fake h.1)
  | inr e ↦ ground (arith, digits-apply_digits v (x ∷ fake) h)
]

-- A value with every digit as `0`.
unfoldable pub shape : Bytes → Bytes
shape [] = []
shape (c ∷ v) = (if is_digit c then b'0' else c) ∷ shape v

-- A replaced value has digits where the value has, and every other byte of it in its place.
pub shape-apply_digits : (v fake : Bytes) → All IsDigit fake → shape (apply_digits v fake) ≡ shape v
unfolding shape apply_digits
shape-apply_digits [] fake h = refl
shape-apply_digits (c ∷ v) [] h = ap shape (apply_digits_none (c ∷ v))
shape-apply_digits (c ∷ v) (x ∷ fake) h = elim (Bool-cases (is_digit c)) [
  | inl e ↦ ground (arith, shape-apply_digits v fake h.1)
  | inr e ↦ ground (arith, shape-apply_digits v (x ∷ fake) h)
]

-- With a fake digit for each, all are replaced.
digits-apply_digits_whole :
    (v fake : Bytes)
    → All IsDigit fake
    → length (digits v) ≡ length fake
    → digits (apply_digits v fake) ≡ fake
digits-apply_digits_whole v fake h n =
    digits-apply_digits v fake h
    ∙ ap₂ (λ a b. take a fake ++ b) n (ap (λ k. drop k (digits v)) (sym n) ∙ drop-length (digits v))
    ∙ append-nil (take (length fake) fake)
    ∙ take-length fake

-- A value with as many digits as the fake that replaces them has the digits of the fake, and is
-- accepted like it.
passing_value :
    (valid : Bytes → Bool) (n : ℕ) (v fake : Bytes)
    → IsPassing n valid fake
    → length (digits v) ≡ n
    → valid (digits (apply_digits v fake)) ≡ true
passing_value valid n v fake p h =
    ap valid (digits-apply_digits_whole v fake p.0 (h ∙ sym p.1)) ∙ p.2

take_all : (n : ℕ) (v : Bytes) → length v ≤ n → take n v ≡ v
take_all zero [] h = refl
take_all zero (c ∷ v) h = absurd (omega arith)
take_all (suc n) [] h = refl
take_all (suc n) (c ∷ v) h = ap (◌∷◌ c) (take_all n v (omega arith))

-- The digits that have no fake one to replace them stay.
digits_tail :
    (v fake : Bytes)
    → All IsDigit fake
    → length fake ≤ length (digits v)
    → drop (length fake) (digits (apply_digits v fake)) ≡ drop (length fake) (digits v)
digits_tail v fake h k =
    ap (drop (length fake)) (
      digits-apply_digits v fake h
      ∙ ap (λ z. z ++ drop (length fake) (digits v)) (take_all (length (digits v)) fake k))
    ∙ drop-append (length fake) fake (drop (length fake) (digits v)) (omega arith)
    ∙ ap (λ z. z ++ drop (length fake) (digits v)) (drop-length fake)

module _ (w : Words) (fields : Bytes → List Bytes) (dict : Dict) (r : Rng) (value : Bytes)
    (cat : Category) (s : r.State) (d : DocState) where
  -- A card number of 16 digits is replaced by one that passes the Luhn test, in the same form.
  pub synth_card-luhn :
      length (digits value) ≡ 16
      → (luhn (synth_card w fields dict r value cat s d).0 ≡ true)
        × (shape (synth_card w fields dict r value cat s d).0 ≡ shape value)
  unfolding synth_card luhn
  synth_card-luhn h =
      let n = digits_only-digits value in
      let f = card-IsPassing r s in
      rw n (
        rw h (
          passing_value luhn_digits 16 value (card r s).0 f h,
          shape-apply_digits value (card r s).0 f.0,
        ))

  -- Of a card number of 17 to 19 digits the replacement shows those behind the sixteenth.
  pub synth_card_keeps_tail :
      16 < length (digits value)
      → length (digits value) ≤ 19
      → drop 16 (digits (synth_card w fields dict r value cat s d).0) ≡ drop 16 (digits value)
  unfolding synth_card
  synth_card_keeps_tail h k =
      let f = card-IsPassing r s in
      let fake = (card r s).0 in
      let tail : drop 16 (digits (apply_digits value fake)) ≡ drop 16 (digits value) =
        subst (λ n. drop n (digits (apply_digits value fake)) ≡ drop n (digits value)) f.1
          (digits_tail value fake f.0 (omega (arith, f.1))) in
      rw (digits_only-digits value) (
        rw (le→ltb_false 13 (length (digits value)) (omega arith))
          (rw (le→ltb_false (length (digits value)) 19 k) tail))

  -- A tax number of 12 digits is replaced by one with its control digits, in the same form.
  pub synth_inn-inn :
      length (digits value) ≡ 12
      → (Control.inn (synth_inn w fields dict r value cat s d).0 ≡ true)
        × (shape (synth_inn w fields dict r value cat s d).0 ≡ shape value)
  unfolding synth_inn Control.inn
  synth_inn-inn h =
      let n = digits_only-digits value in
      let f = inn-IsPassing r s in
      rw n (
        rw h (
          passing_value inn_digits 12 value (inn r s).0 f h,
          shape-apply_digits value (inn r s).0 f.0,
        ))

  -- An insurance number is replaced by one with its control number, in the same form.
  pub synth_snils-snils :
      length (digits value) ≡ 11
      → (Control.snils (synth_snils w fields dict r value cat s d).0 ≡ true)
        × (shape (synth_snils w fields dict r value cat s d).0 ≡ shape value)
  unfolding synth_snils Control.snils
  synth_snils-snils h =
      let n = digits_only-digits value in
      let f = snils-IsPassing r s in
      rw n (
        rw h (
          passing_value snils_digits 11 value (snils r s).0 f h,
          shape-apply_digits value (snils r s).0 f.0,
        ))

  -- A phone number of 11 digits is replaced by one that is a phone number, in the same form.
  pub synth_phone-phone :
      length (digits value) ≡ 11
      → (Digits.phone (synth_phone w fields dict r value cat s d).0 ≡ true)
        × (shape (synth_phone w fields dict r value cat s d).0 ≡ shape value)
  unfolding synth_phone Digits.phone
  synth_phone-phone h =
      let n = digits_only-digits value in
      let f = phone-IsPassing r s in
      rw n (
        rw h (
          passing_value Digits.phone_digits 11 value (phone r s).0 f h,
          shape-apply_digits value (phone r s).0 f.0,
        ))
