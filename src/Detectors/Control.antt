-- ===== src/Detectors/Control.antt =====
-- `inn` and `snils` of internal/pii/detectors/validators.go: numbers with control digits.
use alfa_hakaton.Common.{
  ℕ, ◌+◌, ◌-◌, ◌*◌, ◌%◌, ◌≤◌, ◌≡◌, refl, ap, subst, ◌==◌, Bool, true, false, not, ◌&&◌, ◌||◌, Bytes,
  List, [], ◌∷◌, ◌++◌, length, get_or, ltb, if◌then◌else◌, arith, ==_iff,
}
use alfa_hakaton.Detectors.Digits.{digits}

-- The loop over the weights: a digit for each.
unfoldable pub weighted : List ℕ → Bytes → ℕ
weighted [] d = 0
weighted (w ∷ ws) [] = 0
weighted (w ∷ ws) (c ∷ d) = (c - b'0') * w + weighted ws d

abbrev digit_at : Bytes → ℕ → ℕ
digit_at d i = get_or d i 0 - b'0'

abbrev inn10_weights : List ℕ
inn10_weights = 2 ∷ 4 ∷ 10 ∷ 3 ∷ 5 ∷ 9 ∷ 4 ∷ 6 ∷ 8 ∷ []

abbrev inn12_first : List ℕ
inn12_first = 7 ∷ 2 ∷ 4 ∷ 10 ∷ 3 ∷ 5 ∷ 9 ∷ 4 ∷ 6 ∷ 8 ∷ []

abbrev inn12_second : List ℕ
inn12_second = 3 ∷ 7 ∷ 2 ∷ 4 ∷ 10 ∷ 3 ∷ 5 ∷ 9 ∷ 4 ∷ 6 ∷ 8 ∷ []

abbrev snils_weights : List ℕ
snils_weights = 9 ∷ 8 ∷ 7 ∷ 6 ∷ 5 ∷ 4 ∷ 3 ∷ 2 ∷ 1 ∷ []

unfoldable pub inn10 : Bytes → Bool
unfolding weighted
inn10 d = weighted inn10_weights d % 11 % 10 == digit_at d 9

unfoldable pub inn12 : Bytes → Bool
unfolding weighted
inn12 d =
    weighted inn12_first d % 11 % 10 == digit_at d 10
    && weighted inn12_second d % 11 % 10 == digit_at d 11

unfoldable pub inn_digits : Bytes → Bool
unfolding inn10 inn12
inn_digits d = if length d == 10 then inn10 d else if length d == 12 then inn12 d else false

unfoldable pub inn : Bytes → Bool
unfolding digits inn10 inn12 inn_digits
inn match = inn_digits (digits match)

unfoldable pub snils_control : ℕ → ℕ
snils_control sum =
    if ltb sum 100
    then sum
    else if sum == 100 || sum == 101
    then 0
    else if sum % 101 == 100
    then 0
    else sum % 101

unfoldable pub snils_digits : Bytes → Bool
unfolding weighted snils_control
snils_digits d =
    if not (length d == 11)
    then false
    else snils_control (weighted snils_weights d) == digit_at d 9 * 10 + digit_at d 10

unfoldable pub snils : Bytes → Bool
unfolding digits snils_digits
snils match = snils_digits (digits match)

-- Digits behind the last weight do not count.
pub weighted-append :
    (ws : List ℕ) (d r : Bytes) → length ws ≤ length d → weighted ws (d ++ r) ≡ weighted ws d
unfolding weighted
weighted-append [] d r h = refl
weighted-append (w ∷ ws) [] r h = elim h [ ]
weighted-append (w ∷ ws) (c ∷ d) r h =
    ap (λ n. (c - b'0') * w + n) (weighted-append ws d r (omega arith))

pub get_or_last : (d : Bytes) (a : ℕ) → get_or (d ++ a ∷ []) (length d) 0 ≡ a
get_or_last [] a = refl
get_or_last (c ∷ d) a = get_or_last d a

-- Nine digits have one control digit at most: two ten-digit INNs that are both accepted and agree
-- there are the same.
pub inn10_control :
    (d : Bytes) (a b : ℕ)
    → length d ≡ 9
    → b'0' ≤ a
    → b'0' ≤ b
    → inn10 (d ++ a ∷ []) ≡ true
    → inn10 (d ++ b ∷ []) ≡ true
    → a ≡ b
unfolding inn10
inn10_control d a b n ha hb e f = omega (
  arith,
  n,
  (==_iff (weighted inn10_weights (d ++ a ∷ []) % 11 % 10) (get_or (d ++ a ∷ []) 9 0 - b'0')).0 e,
  (==_iff (weighted inn10_weights (d ++ b ∷ []) % 11 % 10) (get_or (d ++ b ∷ []) 9 0 - b'0')).0 f,
  weighted-append inn10_weights d (a ∷ []) (omega (arith, n)),
  weighted-append inn10_weights d (b ∷ []) (omega (arith, n)),
  subst (λ i. get_or (d ++ a ∷ []) i 0 ≡ a) n (get_or_last d a),
  subst (λ i. get_or (d ++ b ∷ []) i 0 ≡ b) n (get_or_last d b),
)
