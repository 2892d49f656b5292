-- ===== src/Mask/Full/Laws.antt =====
-- The full strategy leaves no value empty.
use alfa_hakaton.Common.{
  ℕ, zero, suc, ◌<◌, ◌≡◌, inl, inr, Bool-cases, true, Bytes, List, [], ◌∷◌, ◌++◌, length, take,
  length-append, arith,
}
use alfa_hakaton.Mask.Doc.{DocState, memo}
use alfa_hakaton.Mask.RoundTrip.{IsVisible}
use alfa_hakaton.Pii.Utf8.{decode_rune, two, three, four}
use alfa_hakaton.Mask.Full.{
  Unicode, Piece, pieces, encode, raw_of, is_word_rune, is_service_word, scan_word,
  mask_all_letters, write_word, mask_words, all_service_words, mask_pieces, mask_full, remembered,
  new_full,
}

encode_visible : (r : ℕ) → 0 < length (encode r)
unfolding encode
encode_visible r = ground arith

two_size : (c : ℕ) (s : Bytes) → 0 < (two c s).1
two_size c [] = omega arith
two_size c (d ∷ s) = ground arith

three_size : (lo hi c : ℕ) (s : Bytes) → 0 < (three lo hi c s).1
three_size lo hi c [] = omega arith
three_size lo hi c (d ∷ []) = omega arith
three_size lo hi c (d ∷ e ∷ s) = ground arith

four_size : (lo hi c : ℕ) (s : Bytes) → 0 < (four lo hi c s).1
four_size lo hi c [] = omega arith
four_size lo hi c (d ∷ []) = omega arith
four_size lo hi c (d ∷ e ∷ []) = omega arith
four_size lo hi c (d ∷ e ∷ f ∷ s) = ground arith

pub decode_rune_size : (c : ℕ) (s : Bytes) → 0 < (decode_rune (c ∷ s)).1
unfolding decode_rune
decode_rune_size c s = ground (
  arith,
  two_size c s,
  three_size 0xA0 0xBF c s,
  three_size 0x80 0x9F c s,
  three_size 0x80 0xBF c s,
  four_size 0x90 0xBF c s,
  four_size 0x80 0xBF c s,
  four_size 0x80 0x8F c s,
)

take_visible : (n c : ℕ) (s : Bytes) → 0 < n → 0 < length (take n (c ∷ s))
take_visible zero c s h = elim h [ ]
take_visible (suc n) c s h = omega arith

append_visible : (a b : Bytes) → 0 < length a → 0 < length (a ++ b)
append_visible a b h = omega (arith, length-append a b)

module _ (u : Unicode) where
  letters_visible : (p : Piece) (ps : List Piece) → 0 < length (mask_all_letters u (p ∷ ps))
  unfolding mask_all_letters
  letters_visible p ps = elim (Bool-cases (is_word_rune u p.rune)) [
    | inl e ↦ rw e (omega arith)
    | inr e ↦ rw e (append_visible (encode p.rune) (mask_all_letters u ps) (encode_visible p.rune))
  ]

  scanned :
      (p : Piece) (ps : List Piece)
      → is_word_rune u p.rune ≡ true
      → (scan_word u (p ∷ ps)).0 ≡ p ∷ (scan_word u ps).0
  unfolding scan_word
  scanned p ps e = rw e

  word_visible : (p : Piece) (w : List Piece) → 0 < length p.raw → 0 < length (write_word u (p ∷ w))
  unfolding write_word
  word_visible p w h = elim (Bool-cases (is_service_word u (raw_of (p ∷ w)))) [
    | inl e ↦ rw e (append_visible p.raw (raw_of w) h)
    | inr e ↦ rw e (letters_visible p w)
  ]

  words_visible :
      (fuel : ℕ) (p : Piece) (ps : List Piece)
      → 0 < length p.raw
      → 0 < length (mask_words u (suc fuel) (p ∷ ps))
  unfolding mask_words
  words_visible fuel p ps h = elim (Bool-cases (is_word_rune u p.rune)) [
    | inl e ↦ rw e (
        append_visible (write_word u (scan_word u (p ∷ ps)).0) _
          (rw (scanned p ps e) (word_visible p (scan_word u ps).0 h)))
    | inr e ↦ rw e (append_visible (encode p.rune) _ (encode_visible p.rune))
  ]

  pieces_visible :
      (p : Piece) (ps : List Piece) → 0 < length p.raw → 0 < length (mask_pieces u (p ∷ ps))
  unfolding mask_pieces
  pieces_visible p ps h = elim (Bool-cases (all_service_words u (p ∷ ps))) [
    | inl e ↦ rw e (letters_visible p ps)
    | inr e ↦ rw e (words_visible (length ps) p ps h)
  ]

  mask_full_visible : (value : Bytes) → 0 < length value → 0 < length (mask_full u value)
  unfolding mask_full pieces
  mask_full_visible [] h = elim h [ ]
  mask_full_visible (c ∷ s) h =
      pieces_visible _ _ (take_visible (decode_rune (c ∷ s)).1 c s (decode_rune_size c s))

  remembered_visible :
      (v m : Bytes) (d : DocState) → 0 < length v → 0 < length (remembered u v d m).0
  remembered_visible v [] d h = mask_full_visible v h
  remembered_visible v (c ∷ m) d h = omega arith

  -- The full strategy replaces every value by at least one byte, so that what it masks can be restored.
  pub new_full-IsVisible : IsVisible (new_full u)
  unfolding new_full
  new_full-IsVisible v c d h = remembered_visible v (memo d v) d h
