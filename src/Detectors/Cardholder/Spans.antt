-- ===== src/Detectors/Cardholder/Spans.antt =====
-- Where the spans of the card holders stand.
use alfa_hakaton.Common.{
  ℕ, zero, suc, ◌-◌, ◌≤◌, ◌<◌, ◌≡◌, refl, sym, ap, subst, Bool, true, false, not, Bool-cases,
  Option-cases, inl, inr, Bytes, List, [], ◌∷◌, length, take, drop, length-drop, ltb, if◌then◌else◌,
  Option, none, some, arith,
}
use alfa_hakaton.Pii.Types.{Span}
use alfa_hakaton.Pii.Detector.{Text}
use alfa_hakaton.Detectors.Tokens.{Token, tokenize}
use alfa_hakaton.Detectors.Tokens.Order.{InOrder, InOrder-earlier, token_at, tokenize-InOrder}
use alfa_hakaton.Detectors.Cardholder.{
  keep_words, is_cardholder_word, last_token, all_adjacent, valid_cardholder, span_of, try_n,
  longest, spans_from, has_card_number, detect_lower,
}

abbrev pub span_at : Span → ℕ × ℕ
span_at s = (s.start, s.end)

abbrev TokensFrom : ℕ → ℕ → List Token → Type 0
TokensFrom n lo ts = InOrder token_at n lo ts

keep_words-InOrder :
    (to_upper : Bytes → Bytes) (n lo : ℕ) (ts : List Token)
    → TokensFrom n lo ts
    → TokensFrom n lo (keep_words to_upper ts)
keep_words-InOrder to_upper n lo [] h = tt
keep_words-InOrder to_upper n lo (t ∷ ts) h =
    let rest = keep_words-InOrder to_upper n t.end ts h.1.1.1 in
    elim (Bool-cases (is_cardholder_word to_upper t.text)) [
      | inl e ↦ rw e (h.0, (h.1.0, (h.1.1.0, rest)))
      | inr e ↦ rw e (InOrder-earlier token_at n lo t.end _ (omega (arith, h.0, h.1.0)) rest)
    ]

-- The words behind the first `k` of `cands` are in order from the end of the last of these.
last_token_bounds :
    (n : ℕ) (first : Token) (k : ℕ) (cands : List Token)
    → first.end ≤ n
    → TokensFrom n first.end cands
    → (first.end ≤ (last_token first (take k cands)).end)
      × (((last_token first (take k cands)).end ≤ n)
          × TokensFrom n (last_token first (take k cands)).end (drop k cands))
unfolding last_token
last_token_bounds n first zero cands b h = (omega arith, (b, h))
last_token_bounds n first (suc k) [] b h = (omega arith, (b, tt))
last_token_bounds n first (suc k) (c ∷ cands) b h =
    let rest = last_token_bounds n c k cands h.1.1.0 h.1.1.1 in
    (omega (arith, h.0, h.1.0, rest.0), rest.1)

-- A span in the text, from `lo` on, and in order behind it the words that are left.
abbrev Leaves : ℕ → ℕ → Span × List Token → Type 0
Leaves n lo found =
    (lo ≤ found.0.start)
    × ((found.0.start < found.0.end) × ((found.0.end ≤ n) × TokensFrom n found.0.end found.1))

guarded :
    (P : Option Span → Type 0) (a b c : Bool) (s : Span)
    → P none
    → P (some s)
    → P (if a then none else if b then none else if c then none else some s)
guarded P true b c s h k = h
guarded P false true c s h k = h
guarded P false false true s h k = h
guarded P false false false s h k = k

-- The span that is tried starts with its first word and ends with its last.
IsOf : Token → List Token → Option Span → Type 0
IsOf first others none = Unit
IsOf first others (some s) = (s.start ≡ first.start) × (s.end ≡ (last_token first others).end)

AllLeave : ℕ → ℕ → Option (Span × List Token) → Type 0
AllLeave n lo none = Unit
AllLeave n lo (some found) = Leaves n lo found

NotLonger : ℕ → Option (Span × List Token) → Type 0
NotLonger k none = Unit
NotLonger k (some found) = length found.1 ≤ k

module _ (to_lower trim_space : Bytes → Bytes) (t : Text) (has_card : Bool) where
  abbrev attempt : Token → List Token → ℕ → Option Span
  attempt first cands k = try_n to_lower trim_space t has_card first cands k

  try_n-IsOf :
      (first : Token) (cands : List Token) (k : ℕ)
      → IsOf first (take (k - 1) cands) (attempt first cands k)
  unfolding try_n IsOf span_of
  try_n-IsOf first cands k =
      let others = take (k - 1) cands in
      guarded (IsOf first others) (ltb (length cands) (k - 1))
        (not (all_adjacent to_lower trim_space t has_card first others))
        (not (valid_cardholder to_lower trim_space t has_card first others))
        (span_of to_lower trim_space t has_card first others) tt (refl, refl)

  longest-AllLeave :
      (n lo m : ℕ) (first : Token) (cands : List Token)
      → TokensFrom n lo (first ∷ cands)
      → AllLeave n lo (longest to_lower trim_space t has_card m first cands)
  unfolding longest AllLeave IsOf
  longest-AllLeave n lo zero first cands h = tt
  longest-AllLeave n lo (suc m) first cands h =
      let one_less : suc (suc m) - 1 ≡ suc m = omega arith in
      let ended =
        subst (λ k. IsOf first (take k cands) (attempt first cands (suc (suc m)))) one_less
          (try_n-IsOf first cands (suc (suc m))) in
      let bounds = last_token_bounds n first (suc m) cands h.1.1.0 h.1.1.1 in
      elim (Option-cases (attempt first cands (suc (suc m)))) [
        | inl e ↦ rw (e, longest, AllLeave) (longest-AllLeave n lo m first cands h)
        | inr (s, e) ↦
            let ends = subst (λ o. IsOf first (take (suc m) cands) o) e ended in
            rw (e, longest, AllLeave)
              (
                omega (arith, h.0, ends.0),
                (
                  omega (arith, h.1.0, ends.0, ends.1, bounds.0),
                  (
                    omega (arith, ends.1, bounds.1.0),
                    subst (λ z. TokensFrom n z (drop (suc m) cands)) (sym ends.1) bounds.1.1,
                  ),
                ),
              )
      ]

  spans_from-InOrder :
      (n f lo : ℕ) (cands : List Token)
      → TokensFrom n lo cands
      → InOrder span_at n lo (spans_from to_lower trim_space t has_card f cands)
  unfolding spans_from AllLeave
  spans_from-InOrder n zero lo cands h = tt
  spans_from-InOrder n (suc f) lo [] h = tt
  spans_from-InOrder n (suc f) lo (first ∷ cands) h =
      let all = longest-AllLeave n lo 3 first cands h in
      elim (Option-cases (longest to_lower trim_space t has_card 3 first cands)) [
        | inl e ↦
            rw (e, spans_from, InOrder)
              (InOrder-earlier span_at n lo first.end _ (omega (arith, h.0, h.1.0))
                (spans_from-InOrder n f first.end cands h.1.1.1))
        | inr (found, e) ↦
            let left = subst (λ o. AllLeave n lo o) e all in
            rw (e, spans_from, InOrder)
              (
                left.0,
                (left.1.0, (left.1.1.0, spans_from-InOrder n f found.0.end found.1 left.1.1.1)),
              )
      ]

  longest-NotLonger :
      (m : ℕ) (first : Token) (cands : List Token)
      → NotLonger (length cands) (longest to_lower trim_space t has_card m first cands)
  unfolding longest NotLonger
  longest-NotLonger zero first cands = tt
  longest-NotLonger (suc m) first cands = elim (Option-cases (attempt first cands (suc (suc m)))) [
    | inl e ↦ rw (e, longest, NotLonger) (longest-NotLonger m first cands)
    | inr (s, e) ↦ rw (e, longest, NotLonger) (omega (arith, length-drop (suc m) cands))
  ]

  -- With a round for each candidate the loop ends at the end of the list: more fuel changes nothing.
  spans_from_fuel :
      (f g : ℕ) (cands : List Token)
      → length cands ≤ f
      → length cands ≤ g
      → spans_from to_lower trim_space t has_card f cands
        ≡ spans_from to_lower trim_space t has_card g cands
  unfolding spans_from NotLonger
  spans_from_fuel zero zero cands h k = refl
  spans_from_fuel zero (suc g) [] h k = refl
  spans_from_fuel zero (suc g) (first ∷ cands) h k = elim h [ ]
  spans_from_fuel (suc f) zero [] h k = refl
  spans_from_fuel (suc f) zero (first ∷ cands) h k = elim k [ ]
  spans_from_fuel (suc f) (suc g) [] h k = refl
  spans_from_fuel (suc f) (suc g) (first ∷ cands) h k =
      elim (Option-cases (longest to_lower trim_space t has_card 3 first cands)) [
        | inl e ↦ rw (e, spans_from) (spans_from_fuel f g cands (omega arith) (omega arith))
        | inr (found, e) ↦
            let shorter = subst (NotLonger (length cands)) e (longest-NotLonger 3 first cands) in
            rw (e, spans_from)
              (ap (λ ss. found.0 ∷ ss)
                (spans_from_fuel f g found.1 (omega (arith, shorter)) (omega (arith, shorter))))
      ]

module _ (to_lower to_upper trim_space : Bytes → Bytes) (card_numbers : Bytes → List Bytes) where
  -- The spans of card holders are in order, none is empty, no two overlap, and all lie in the text.
  pub detect_lower-InOrder :
      (t : Text)
      → InOrder span_at (length t.raw) 0 (detect_lower to_lower to_upper trim_space card_numbers t)
  unfolding detect_lower
  detect_lower-InOrder t =
      let words = tokenize-InOrder t.raw in
      spans_from-InOrder to_lower trim_space t (has_card_number card_numbers t.raw) (length t.raw) _
        0 _ (keep_words-InOrder to_upper (length t.raw) 0 (tokenize t.raw) words)
