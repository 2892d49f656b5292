-- ===== src/Mask/Token/Laws.antt =====
-- Tokens are visible, stable in a document, and different for different values.
use mathlib.Core.List.{tail-eq_of_cons-eq, append_cancel_left, append_cancel_right}
use alfa_hakaton.Common.{
  ℕ, zero, suc, ◌+◌, ◌-◌, ◌*◌, ◌/◌, ◌%◌, ◌<◌, ◌≡◌, ◌≢◌, refl, sym, ap, ◌∙◌, Bytes, bytes_eq_refl,
  bytes_eq_iff, [], ◌∷◌, ◌++◌, map, foldl, length, ltb, arith, Bool-cases, inl, inr,
}
use alfa_hakaton.Common.Assoc
use alfa_hakaton.Common.Assoc.{lookup-insert}
use alfa_hakaton.Pii.Types.{Category}
use alfa_hakaton.Mask.Doc.{DocState, memo, remember, next, or_empty, or_zero}
use alfa_hakaton.Mask.Token.{
  digits_before, decimal, token, numbered, mask_token, new_token, to_upper,
}
use alfa_hakaton.Mask.RoundTrip.{IsVisible}

-- The number that digits spell behind `n`.
abbrev spelled : ℕ → Bytes → ℕ
spelled = foldl (λ n c. n * 10 + (c - b'0'))

spelled-digits_before :
    (fuel n : ℕ) (out : Bytes) → n < fuel → spelled 0 (digits_before fuel n out) ≡ spelled n out
unfolding digits_before
spelled-digits_before zero n out h = elim h [ ]
spelled-digits_before (suc fuel) n out h = elim (Bool-cases (ltb n 10)) [
  | inl e ↦ let d : 0 + (b'0' + n - b'0') ≡ n = omega arith in rw e (ap (λ k. spelled k out) d)
  | inr e ↦
      let d : n / 10 * 10 + (b'0' + n % 10 - b'0') ≡ n = omega arith in
      rw e (spelled-digits_before fuel (n / 10) ((b'0' + n % 10) ∷ out) (ground arith) ∙ rw d)
]

-- Different numbers have different decimals.
decimal_injective : (m n : ℕ) → decimal m ≡ decimal n → m ≡ n
unfolding decimal
decimal_injective m n e =
    sym (spelled-digits_before (m + 1) m [] (omega arith))
    ∙ ap (spelled 0) e
    ∙ spelled-digits_before (n + 1) n [] (omega arith)

-- Tokens of one category with different numbers differ.
token_injective : (c : Category) (m n : ℕ) → token c m ≡ token c n → m ≡ n
unfolding token
token_injective c m n e = decimal_injective m n (
    tail-eq_of_cons-eq (
      append_cancel_left (map to_upper c) _ _ (
        append_cancel_right (map to_upper c ++ b'_' ∷ decimal m)
          (map to_upper c ++ b'_' ∷ decimal n) (b']' ∷ []) (tail-eq_of_cons-eq e))))

numbered-visible :
    (v : Bytes) (c : Category) (d : DocState) (m : Bytes) → 0 < length (numbered v c d m).0
unfolding token
numbered-visible v c d [] = omega arith
numbered-visible v c d (x ∷ m) = omega arith

-- `token` replaces every value by at least one byte.
pub new_token-IsVisible : IsVisible new_token
unfolding new_token mask_token
new_token-IsVisible v c d h = numbered-visible v c d (memo d v)

number : Category → DocState → ℕ
number c d = or_zero (Assoc.lookup c d.seq) + 1

-- The state after `v` got the next token of its category.
after_new : Bytes → Category → DocState → DocState
unfolding number
after_new v c d = remember (next d c).1 v (token c (number c d))

mask_token_new :
    (v : Bytes) (c : Category) (d : DocState)
    → memo d v ≡ []
    → mask_token v c d ≡ (token c (number c d), after_new v c d)
unfolding mask_token next number after_new
mask_token_new v c d e = ap (numbered v c d) e

memo-after_new :
    (v w : Bytes) (c : Category) (d : DocState) → v ≢ w → memo (after_new v c d) w ≡ memo d w
unfolding memo after_new remember next
memo-after_new v w c d differ =
    ap or_empty (Assoc.lookup-insert v w (token c (number c d)) d.memos)
    ∙ ground (arith, bytes_eq_iff v w)

memo-after_new_same :
    (v : Bytes) (c : Category) (d : DocState) → memo (after_new v c d) v ≡ token c (number c d)
unfolding memo after_new remember next
memo-after_new_same v c d =
    ap or_empty (Assoc.lookup-insert v v (token c (number c d)) d.memos)
    ∙ ground (arith, bytes_eq_refl v)

number-after_new :
    (v : Bytes) (c : Category) (d : DocState) → number c (after_new v c d) ≡ number c d + 1
unfolding number after_new remember next
number-after_new v c d =
    ap (λ o. or_zero o + 1) (Assoc.lookup-insert c c (number c d) d.seq)
    ∙ ground (arith, bytes_eq_refl c)

-- Two different values without a replacement, of one category and masked one after the other in one
-- document, get different tokens.
pub mask_token_differs :
    (v w : Bytes) (c : Category) (d : DocState)
    → v ≢ w
    → memo d v ≡ []
    → memo d w ≡ []
    → (mask_token v c d).0 ≢ (mask_token w c (mask_token v c d).1).0
mask_token_differs v w c d differ e f same =
    let first = mask_token_new v c d e in
    let second = mask_token_new w c (after_new v c d) (memo-after_new v w c d differ ∙ f) in
    let tokens : token c (number c d) ≡ token c (number c (after_new v c d)) =
      sym (ap (λ p. p.0) first)
      ∙ same
      ∙ ap (λ p. (mask_token w c p.1).0) first
      ∙ ap (λ p. p.0) second in
    omega (arith, token_injective c _ _ tokens, number-after_new v c d)

mask_token_known :
    (v : Bytes) (c : Category) (d : DocState) (x : ℕ) (m : Bytes)
    → memo d v ≡ x ∷ m
    → mask_token v c d ≡ (x ∷ m, d)
unfolding mask_token
mask_token_known v c d x m e = ap (numbered v c d) e

masked_again :
    (v : Bytes) (c k : Category) (d : DocState) (m : Bytes)
    → memo d v ≡ m
    → mask_token v k (mask_token v c d).1 ≡ mask_token v c d
unfolding token
masked_again v c k d [] e =
    ap (λ p. mask_token v k p.1) (mask_token_new v c d e)
    ∙ mask_token_known v k (after_new v c d) _ _ (memo-after_new_same v c d)
    ∙ sym (mask_token_new v c d e)
masked_again v c k d (x ∷ m) e =
    ap (λ p. mask_token v k p.1) (mask_token_known v c d x m e)
    ∙ mask_token_known v k d x m e
    ∙ sym (mask_token_known v c d x m e)

-- A value that got a token keeps it: masked again in the same document, under whatever category, it
-- gets the same token, and the document's state does not change.
pub mask_token_again :
    (v : Bytes) (c k : Category) (d : DocState)
    → mask_token v k (mask_token v c d).1 ≡ mask_token v c d
mask_token_again v c k d = masked_again v c k d (memo d v) refl
