-- ===== src/Mask/Full/Fuel.antt =====
-- The fuel of the full strategy's loops is enough.
use alfa_hakaton.Common.{
  ℕ, zero, suc, ◌≤◌, ◌≡◌, refl, ap, ◌∙◌, inl, inr, Bool-cases, true, Bytes, List, [], ◌∷◌, ◌++◌,
  length, take, drop, length-drop, take-append-drop, arith,
}
use alfa_hakaton.Pii.Utf8.{decode_rune}
use alfa_hakaton.Mask.Full.{
  Unicode, Piece, pieces, encode, raw_of, is_word_rune, scan_word, write_word, mask_words,
}
use alfa_hakaton.Mask.Full.Laws.{decode_rune_size}

-- Reading loses nothing, with a round for each byte.
pub raw_of-pieces : (fuel : ℕ) (s : Bytes) → length s ≤ fuel → raw_of (pieces fuel s) ≡ s
unfolding pieces
raw_of-pieces zero [] h = refl
raw_of-pieces zero (c ∷ s) h = elim h [ ]
raw_of-pieces (suc fuel) [] h = refl
raw_of-pieces (suc fuel) (c ∷ s) h =
    let size = (decode_rune (c ∷ s)).1 in
    let shorter : length (drop size (c ∷ s)) ≤ fuel =
      omega (arith, length-drop size (c ∷ s), decode_rune_size c s) in
    ap (λ z. take size (c ∷ s) ++ z) (raw_of-pieces fuel (drop size (c ∷ s)) shorter)
    ∙ take-append-drop size (c ∷ s)

module _ (u : Unicode) where
  rest-le : (ps : List Piece) → length (scan_word u ps).1 ≤ length ps
  unfolding scan_word
  rest-le [] = omega arith
  rest-le (p ∷ ps) = ground (arith, rest-le ps)

  pub rest-lt :
      (p : Piece) (ps : List Piece)
      → is_word_rune u p.rune ≡ true
      → length (scan_word u (p ∷ ps)).1 ≤ length ps
  unfolding scan_word
  rest-lt p ps e = rw e (rest-le ps)

  mask_words_fuel :
      (f g : ℕ) (ps : List Piece)
      → length ps ≤ f
      → length ps ≤ g
      → mask_words u f ps ≡ mask_words u g ps
  unfolding mask_words
  mask_words_fuel zero zero ps h k = refl
  mask_words_fuel zero (suc g) [] h k = refl
  mask_words_fuel zero (suc g) (p ∷ ps) h k = elim h [ ]
  mask_words_fuel (suc f) zero [] h k = refl
  mask_words_fuel (suc f) zero (p ∷ ps) h k = elim k [ ]
  mask_words_fuel (suc f) (suc g) [] h k = refl
  mask_words_fuel (suc f) (suc g) (p ∷ ps) h k = elim (Bool-cases (is_word_rune u p.rune)) [
    | inl e ↦
        let rest = (scan_word u (p ∷ ps)).1 in
        let shorter = rest-lt p ps e in
        rw e (
          ap (λ z. write_word u (scan_word u (p ∷ ps)).0 ++ z)
            (mask_words_fuel f g rest (omega arith) (omega arith)))
    | inr e ↦
        rw e (ap (λ z. encode p.rune ++ z) (mask_words_fuel f g ps (omega arith) (omega arith)))
  ]

  -- The full strategy reads the whole of a value, and its loop over the words ends by its own test:
  -- with a round for each byte and each piece, more fuel changes nothing.
  pub mask_full_fuel :
      (value : Bytes) (f : ℕ)
      → length (pieces (length value) value) ≤ f
      → (raw_of (pieces (length value) value) ≡ value)
        × (mask_words u f (pieces (length value) value)
            ≡ mask_words u (length (pieces (length value) value)) (pieces (length value) value))
  mask_full_fuel value f h = (
    raw_of-pieces (length value) value (omega arith),
    mask_words_fuel f (length (pieces (length value) value)) (pieces (length value) value) h
        (omega arith),
  )
