-- ===== src/Mask/Full/Words.antt =====
-- What a word is, by `unicode`'s tables alone, and that internal/mask/full.go scans whole words.
use alfa_hakaton.Common.{
  ◌≡◌, refl, sym, ap, subst, ◌∙◌, inl, inr, Bool, Bool-cases, true, false, ◌==◌, ◌&&◌, ◌||◌, List,
  [], ◌∷◌, ◌++◌,
}
use alfa_hakaton.Mask.Full.{Unicode, Piece, scan_word, is_word_rune, starts_word}

module _ (u : Unicode) where
  -- A letter or a digit.
  abbrev pub in_word : Piece → Bool
  in_word p = u.is_letter p.rune || u.is_digit p.rune

  abbrev starts : List Piece → Bool
  starts [] = false
  starts (p ∷ ps) = in_word p

  -- A piece that goes on with a word, before `ps`: a letter, a digit, or a hyphen before one.
  abbrev goes_on : Piece → List Piece → Bool
  goes_on p ps = in_word p || (p.rune == b'-' && starts ps)

  abbrev AllGoOn : List Piece → List Piece → Type 0
  AllGoOn [] rest = Unit
  AllGoOn (p ∷ w) rest = (goes_on p (w ++ rest) ≡ true) × AllGoOn w rest

  abbrev Stops : List Piece → Type 0
  Stops [] = Unit
  Stops (p ∷ ps) = goes_on p ps ≡ false

  -- `w`, before `rest`, is a word: it starts with a letter or a digit, and ends where it cannot go on.
  pub record IsWord (w rest : List Piece) : Type 0 where
    pub begins : starts w ≡ true
    pub goes : AllGoOn w rest
    pub stops : Stops rest

  go_on_code :
      (p : Piece) (ps : List Piece)
      → (is_word_rune u p.rune || (p.rune == b'-' && starts_word u ps)) ≡ goes_on p ps
  unfolding is_word_rune
  go_on_code p [] = refl
  go_on_code p (q ∷ ps) = refl

  scan_word_on :
      (p : Piece) (ps : List Piece)
      → goes_on p ps ≡ true
      → scan_word u (p ∷ ps) ≡ (p ∷ (scan_word u ps).0, (scan_word u ps).1)
  unfolding scan_word
  scan_word_on p ps e = rw (go_on_code p ps ∙ e) refl

  scan_word_off :
      (p : Piece) (ps : List Piece) → goes_on p ps ≡ false → scan_word u (p ∷ ps) ≡ ([], p ∷ ps)
  unfolding scan_word
  scan_word_off p ps e = rw (go_on_code p ps ∙ e) refl

  -- Scanning cuts in two.
  pub scan_word-append : (ps : List Piece) → (scan_word u ps).0 ++ (scan_word u ps).1 ≡ ps
  unfolding scan_word
  scan_word-append [] = refl
  scan_word-append (p ∷ ps) = elim (Bool-cases (goes_on p ps)) [
    | inl e ↦ rw (scan_word_on p ps e) (ap (◌∷◌ p) (scan_word-append ps))
    | inr e ↦ rw (scan_word_off p ps e) refl
  ]

  scan_word-AllGoOn : (ps : List Piece) → AllGoOn (scan_word u ps).0 (scan_word u ps).1
  unfolding scan_word
  scan_word-AllGoOn [] = tt
  scan_word-AllGoOn (p ∷ ps) = elim (Bool-cases (goes_on p ps)) [
    | inl e ↦
        rw (scan_word_on p ps e)
          (subst (λ z. goes_on p z ≡ true) (sym (scan_word-append ps)) e, scan_word-AllGoOn ps)
    | inr e ↦ rw (scan_word_off p ps e) tt
  ]

  scan_word-Stops : (ps : List Piece) → Stops (scan_word u ps).1
  unfolding scan_word
  scan_word-Stops [] = tt
  scan_word-Stops (p ∷ ps) = elim (Bool-cases (goes_on p ps)) [
    | inl e ↦ rw (scan_word_on p ps e) (scan_word-Stops ps)
    | inr e ↦ rw (scan_word_off p ps e) e
  ]

  in_word-goes_on : (p : Piece) (ps : List Piece) → in_word p ≡ true → goes_on p ps ≡ true
  in_word-goes_on p ps e = rw e refl

  -- What is scanned from a letter or a digit on is a word.
  pub scan_word-IsWord :
      (p : Piece) (ps : List Piece)
      → in_word p ≡ true
      → IsWord (scan_word u (p ∷ ps)).0 (scan_word u (p ∷ ps)).1
  scan_word-IsWord p ps e = record {
    begins = rw (scan_word_on p ps (in_word-goes_on p ps e)) e;
    goes = scan_word-AllGoOn (p ∷ ps);
    stops = scan_word-Stops (p ∷ ps);
  }
