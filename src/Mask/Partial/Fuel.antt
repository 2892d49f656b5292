-- ===== src/Mask/Partial/Fuel.antt =====
-- internal/mask/partial.go: the fuel of the loops over a value is enough.
use alfa_hakaton.Common.{
  ℕ, zero, suc, ◌≤◌, ◌≡◌, refl, ap, inl, inr, Bool-cases, true, Bytes, List, [], ◌∷◌, ◌++◌, length,
  arith,
}
use alfa_hakaton.Mask.Full.{Unicode, Piece, encode, raw_of}
use alfa_hakaton.Mask.Partial.{scan_letters, mask_letters}

module _ (u : Unicode) (to_upper : Bytes → Bytes) where
  rest-le : (ps : List Piece) → length (scan_letters u to_upper ps).1 ≤ length ps
  unfolding scan_letters
  rest-le [] = omega arith
  rest-le (p ∷ ps) = ground (arith, rest-le ps)

  rest-lt :
      (p : Piece) (ps : List Piece)
      → u.is_letter p.rune ≡ true
      → length (scan_letters u to_upper (p ∷ ps)).1 ≤ length ps
  unfolding scan_letters
  rest-lt p ps e = rw e (rest-le ps)

  -- The loop of `maskDate` and `maskWords` ends by its own test: with a round for each rune, more fuel
  -- changes nothing, whatever is written for a word.
  pub mask_letters_fuel :
      (write : Bytes → Bytes) (char : Bytes) (f g : ℕ) (ps : List Piece)
      → length ps ≤ f
      → length ps ≤ g
      → mask_letters u to_upper write char f ps ≡ mask_letters u to_upper write char g ps
  unfolding mask_letters
  mask_letters_fuel write char zero zero ps h k = refl
  mask_letters_fuel write char zero (suc g) [] h k = refl
  mask_letters_fuel write char zero (suc g) (p ∷ ps) h k = elim h [ ]
  mask_letters_fuel write char (suc f) zero [] h k = refl
  mask_letters_fuel write char (suc f) zero (p ∷ ps) h k = elim k [ ]
  mask_letters_fuel write char (suc f) (suc g) [] h k = refl
  mask_letters_fuel write char (suc f) (suc g) (p ∷ ps) h k =
      elim (Bool-cases (u.is_digit p.rune)) [
        | inl e ↦
            rw e (
              ap (λ z. char ++ z) (mask_letters_fuel write char f g ps (omega arith) (omega arith)))
        | inr d ↦ rw d (elim (Bool-cases (u.is_letter p.rune)) [
          | inl e ↦
              let rest = (scan_letters u to_upper (p ∷ ps)).1 in
              let shorter = rest-lt p ps e in
              rw e (
                ap (λ z. write (raw_of (scan_letters u to_upper (p ∷ ps)).0) ++ z)
                  (mask_letters_fuel write char f g rest (omega arith) (omega arith)))
          | inr e ↦ rw e (
              ap (λ z. encode p.rune ++ z)
                (mask_letters_fuel write char f g ps (omega arith) (omega arith)))
        ])
      ]
