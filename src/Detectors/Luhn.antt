-- ===== src/Detectors/Luhn.antt =====
-- `luhn` of internal/pii/detectors/validators.go.
use mathlib.Core.List.{reverse, reverse-append, reverse-cons}
use alfa_hakaton.Common.{
  ℕ, ◌+◌, ◌-◌, ◌*◌, ◌%◌, ◌≤◌, ◌≡◌, ◌≢◌, refl, ap, ◌∙◌, subst, ◌==◌, Bool, true, false, not, ◌||◌,
  Bool-cases, inl, inr, Bytes, [], ◌∷◌, ◌++◌, append_assoc, length, ltb, if◌then◌else◌, arith,
}
use alfa_hakaton.Detectors.Digits.{digits}

-- What a digit adds: doubled or not, less 9 where it would have two digits.
unfoldable pub luhn_term : Bool → ℕ → ℕ
luhn_term double c =
    let n = c - b'0' in if double then (if ltb 9 (n * 2) then n * 2 - 9 else n * 2) else n

-- The loop from the last digit to the first.
unfoldable pub luhn_sum : Bytes → Bool → ℕ → ℕ
unfolding luhn_term
luhn_sum [] double sum = sum
luhn_sum (c ∷ d) double sum = luhn_sum d (not double) (sum + luhn_term double c)

unfoldable pub luhn_digits : Bytes → Bool
unfolding luhn_sum
luhn_digits d =
    if ltb (length d) 13 || ltb 19 (length d) then false else luhn_sum (reverse d) false 0 % 10 == 0

unfoldable pub luhn : Bytes → Bool
unfolding digits luhn_digits
luhn match = luhn_digits (digits match)

-- The sum is that of the rest, shifted by what is there already.
pub luhn_sum_shift :
    (d : Bytes) (double : Bool) (sum : ℕ) → luhn_sum d double sum ≡ sum + luhn_sum d double 0
unfolding luhn_sum
luhn_sum_shift [] double sum = omega arith
luhn_sum_shift (c ∷ d) double sum = omega (
  arith,
  luhn_sum_shift d (not double) (sum + luhn_term double c),
  luhn_sum_shift d (not double) (0 + luhn_term double c),
)

-- Whether the digit behind `d` is doubled.
after : Bytes → Bool → Bool
after [] double = double
after (c ∷ d) double = after d (not double)

luhn_sum-append :
    (d r : Bytes) (double : Bool) (sum : ℕ)
    → luhn_sum (d ++ r) double sum ≡ luhn_sum r (after d double) (luhn_sum d double sum)
unfolding luhn_sum after
luhn_sum-append [] r double sum = refl
luhn_sum-append (c ∷ d) r double sum = luhn_sum-append d r (not double) (sum + luhn_term double c)

-- Two digits that add the same, up to tens, are the same.
luhn_term_injective :
    (double : Bool) (a b k m : ℕ)
    → b'0' ≤ a
    → a ≤ b'9'
    → b'0' ≤ b
    → b ≤ b'9'
    → (k + luhn_term double a + m) % 10 ≡ 0
    → (k + luhn_term double b + m) % 10 ≡ 0
    → a ≡ b
unfolding luhn_term
luhn_term_injective true a b k m h1 h2 h3 h4 e f = ground arith
luhn_term_injective false a b k m h1 h2 h3 h4 e f = omega arith

reversed_sum :
    (pre suf : Bytes) (a : ℕ)
    → luhn_sum (reverse (pre ++ a ∷ suf)) false 0
      ≡ luhn_sum (reverse suf) false 0
        + luhn_term (after (reverse suf) false) a
        + luhn_sum (reverse pre) (not (after (reverse suf) false)) 0
unfolding luhn_sum
reversed_sum pre suf a =
    ap (λ d. luhn_sum d false 0)
      (reverse-append pre (a ∷ suf)
        ∙ ap (λ z. z ++ reverse pre) (reverse-cons a suf)
        ∙ append_assoc (reverse suf) (a ∷ []) (reverse pre))
    ∙ luhn_sum-append (reverse suf) (a ∷ reverse pre) false 0
    ∙ luhn_sum_shift (reverse pre) _ _

luhn_digits_sum : (d : Bytes) → luhn_digits d ≡ true → luhn_sum (reverse d) false 0 % 10 ≡ 0
unfolding luhn_digits
luhn_digits_sum d ok = ground arith

-- A card number that passes the test fails it when any one digit is changed.
pub luhn_detects_change :
    (pre suf : Bytes) (a b : ℕ)
    → b'0' ≤ a
    → a ≤ b'9'
    → b'0' ≤ b
    → b ≤ b'9'
    → a ≢ b
    → luhn_digits (pre ++ a ∷ suf) ≡ true
    → luhn_digits (pre ++ b ∷ suf) ≡ false
luhn_detects_change pre suf a b h1 h2 h3 h4 differ ok =
    elim (Bool-cases (luhn_digits (pre ++ b ∷ suf))) [
      | inl e ↦
          elim (differ (
            luhn_term_injective (after (reverse suf) false) a b (luhn_sum (reverse suf) false 0)
              (luhn_sum (reverse pre) (not (after (reverse suf) false)) 0) h1 h2 h3 h4
              (subst (λ n. n % 10 ≡ 0) (reversed_sum pre suf a) (luhn_digits_sum _ ok))
              (subst (λ n. n % 10 ≡ 0) (reversed_sum pre suf b) (luhn_digits_sum _ e)))) [ ]
      | inr e ↦ e
    ]
