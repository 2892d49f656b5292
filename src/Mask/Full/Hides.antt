-- ===== src/Mask/Full/Hides.antt =====
-- What the full strategy shows of a value: service words and what is neither letter nor digit.
use mathlib.Core.Bool.{false≢true}
use mathlib.Core.List.{Mem, mem-cons_self, mem-cons_of_mem}
use alfa_hakaton.Common.{
  ℕ, zero, suc, ◌-◌, ◌≤◌, ◌≡◌, ◌⊎◌, refl, sym, ap, ◌∙◌, subst, ◌==◌, ==_iff, inl, inr, Bool-cases,
  true, false, Bytes, bytes_eq, bytes_eq_sound, codes, List, [], ◌∷◌, ◌++◌, any, length, take,
  get_or, append_assoc, if◌then◌else◌, arith,
}
use alfa_hakaton.Mask.Full.{
  Unicode, Piece, pieces, encode, raw_of, is_word_rune, is_service_word, without_dot,
  full_service_words, scan_word, mask_all_letters, write_word, mask_words, all_service_words,
  mask_pieces, mask_full,
}
use alfa_hakaton.Mask.Full.Fuel.{raw_of-pieces, rest-lt}
use alfa_hakaton.Mask.Full.Words.{in_word, IsWord, scan_word-append, scan_word-IsWord}

module _ (u : Unicode) where
  -- Whatever the case, a word of the table, with or without a dot behind it.
  abbrev pub IsServiceWord : Bytes → Type 0
  IsServiceWord word =
      (stem : Bytes) × ((word ≡ stem) ⊎ (word ≡ stem ++ codes "."))
      × Mem (u.to_lower stem) full_service_words

  -- A star for each letter and each digit.
  abbrev pub stars : List Piece → Bytes
  stars [] = []
  stars (p ∷ ps) = (if in_word u p then b'*' ∷ [] else encode p.rune) ++ stars ps

  -- The text that is shown for a value: each of its words is hidden, or is a service word and shown as
  -- it is; other runes are shown.
  pub data Hides : List Piece → Bytes → Type 0 where
    nothing : Hides [] []
    other :
        (p : Piece) (ps : List Piece) (s : Bytes)
        → in_word u p ≡ false
        → Hides ps s
        → Hides (p ∷ ps) (encode p.rune ++ s)
    hidden :
        (w rest : List Piece) (s : Bytes)
        → IsWord u w rest
        → Hides rest s
        → Hides (w ++ rest) (stars w ++ s)
    service :
        (w rest : List Piece) (s : Bytes)
        → IsWord u w rest
        → IsServiceWord (raw_of w)
        → Hides rest s
        → Hides (w ++ rest) (raw_of w ++ s)

  stars_lem : (ps : List Piece) → mask_all_letters u ps ≡ stars ps
  unfolding mask_all_letters is_word_rune
  stars_lem [] = refl
  stars_lem (p ∷ ps) =
      ap (λ z. (if in_word u p then b'*' ∷ [] else encode p.rune) ++ z) (stars_lem ps)

  stars-append : (v w : List Piece) → stars (v ++ w) ≡ stars v ++ stars w
  stars-append [] w = refl
  stars-append (p ∷ v) w =
      ap (λ z. (if in_word u p then b'*' ∷ [] else encode p.rune) ++ z) (stars-append v w)
      ∙ sym (append_assoc (if in_word u p then b'*' ∷ [] else encode p.rune) (stars v) (stars w))

last_byte :
    (c : ℕ) (s : Bytes)
    → get_or (c ∷ s) (length s) 0 ≡ b'.'
    → c ∷ s ≡ take (length s) (c ∷ s) ++ codes "."
last_byte c [] h = ap (λ d. d ∷ []) h
last_byte c (d ∷ s) h = ap (◌∷◌ c) (last_byte d s h)

without_dot_lem :
    (c : ℕ) (s : Bytes)
    → without_dot (c ∷ s)
      ≡ (if get_or (c ∷ s) (length s) 0 == b'.' then take (length s) (c ∷ s) else c ∷ s)
without_dot_lem c s =
    let one_less : suc (length s) - 1 ≡ length s = omega arith in
    let longer : (suc (length s) == 0) ≡ false = ground arith in rw (longer, one_less) refl

-- A word is its part before the dot, or that with the dot.
dotted : (word : Bytes) → (word ≡ without_dot word) ⊎ (word ≡ without_dot word ++ codes ".")
dotted [] = inl refl
dotted (c ∷ s) = elim (Bool-cases (get_or (c ∷ s) (length s) 0 == b'.')) [
  | inl e ↦ inr (
      rw (without_dot_lem c s, e) (last_byte c s ((==_iff (get_or (c ∷ s) (length s) 0) b'.').0 e)))
  | inr e ↦ inl (rw (without_dot_lem c s, e) refl)
]

any-Mem : (x : Bytes) (ws : List Bytes) → any (λ w. bytes_eq w x) ws ≡ true → Mem x ws
any-Mem x [] h = absurd (false≢true h)
any-Mem x (w ∷ ws) h = elim (Bool-cases (bytes_eq w x)) [
  | inl e ↦ subst (λ z. Mem x (z ∷ ws)) (sym (bytes_eq_sound w x e)) mem-cons_self
  | inr e ↦ mem-cons_of_mem w (any-Mem x ws (sym (rw e refl) ∙ h))
]

module _ (u : Unicode) where
  service-IsServiceWord : (word : Bytes) → is_service_word u word ≡ true → IsServiceWord u word
  unfolding is_service_word
  service-IsServiceWord word h = (without_dot word, dotted word, any-Mem _ full_service_words h)

  write_word-Hides :
      (w rest : List Piece) (s : Bytes)
      → IsWord u w rest
      → Hides u rest s
      → Hides u (w ++ rest) (write_word u w ++ s)
  unfolding write_word
  write_word-Hides w rest s is h = elim (Bool-cases (is_service_word u (raw_of w))) [
    | inl e ↦ rw e (Hides.service w rest s is (service-IsServiceWord (raw_of w) e) h)
    | inr e ↦ rw (e, stars_lem u w) (Hides.hidden w rest s is h)
  ]

  -- What is scanned first is shorter by a piece at least.
  rest-shorter :
      (f : ℕ) (p : Piece) (ps : List Piece)
      → in_word u p ≡ true
      → length ps ≤ f
      → length (scan_word u (p ∷ ps)).1 ≤ f
  unfolding is_word_rune
  rest-shorter f p ps e h = omega (arith, rest-lt u p ps e)

  mask_words-Hides : (f : ℕ) (ps : List Piece) → length ps ≤ f → Hides u ps (mask_words u f ps)
  unfolding mask_words is_word_rune
  mask_words-Hides zero [] h = Hides.nothing
  mask_words-Hides zero (p ∷ ps) h = elim h [ ]
  mask_words-Hides (suc f) [] h = Hides.nothing
  mask_words-Hides (suc f) (p ∷ ps) h = elim (Bool-cases (in_word u p)) [
    | inl e ↦
        let word = (scan_word u (p ∷ ps)).0 in
        let rest = (scan_word u (p ∷ ps)).1 in
        rw e (
          subst (λ z. Hides u z (write_word u word ++ mask_words u f rest))
            (scan_word-append u (p ∷ ps))
            (write_word-Hides word rest _ (scan_word-IsWord u p ps e)
              (mask_words-Hides f rest (rest-shorter f p ps e (omega arith)))))
    | inr e ↦ rw e (Hides.other p ps _ e (mask_words-Hides f ps (omega arith)))
  ]

  stars-Hides : (f : ℕ) (ps : List Piece) → length ps ≤ f → Hides u ps (stars u ps)
  stars-Hides zero [] h = Hides.nothing
  stars-Hides zero (p ∷ ps) h = elim h [ ]
  stars-Hides (suc f) [] h = Hides.nothing
  stars-Hides (suc f) (p ∷ ps) h = elim (Bool-cases (in_word u p)) [
    | inl e ↦
        let word = (scan_word u (p ∷ ps)).0 in
        let rest = (scan_word u (p ∷ ps)).1 in
        let both =
          Hides.hidden word rest (stars u rest) (scan_word-IsWord u p ps e)
            (stars-Hides f rest (rest-shorter f p ps e (omega arith))) in
        subst (λ z. Hides u z (stars u z)) (scan_word-append u (p ∷ ps))
          (rw (stars-append u word rest) both)
    | inr e ↦ rw e (Hides.other p ps _ e (stars-Hides f ps (omega arith)))
  ]

  -- The full strategy reads the whole of a value, and what it writes shows of the value the runes that
  -- are neither letters nor digits, and of its words, each taken as far as it goes on, none but service
  -- words, with a star for each letter and each digit of the others.
  pub mask_full-Hides :
      (value : Bytes)
      → (raw_of (pieces (length value) value) ≡ value)
        × Hides u (pieces (length value) value) (mask_full u value)
  unfolding mask_full mask_pieces
  mask_full-Hides value =
      let ps = pieces (length value) value in
      (
        raw_of-pieces (length value) value (omega arith),
        elim (Bool-cases (all_service_words u ps)) [
          | inl e ↦ rw (e, stars_lem u ps) (stars-Hides (length ps) ps (omega arith))
          | inr e ↦ rw e (mask_words-Hides (length ps) ps (omega arith))
        ],
      )
