-- ===== src/Synth/Valid.antt =====
-- The fake values pass the validators of internal/pii/detectors/validators.go.
use mathlib.Core.List.{reverse, reverse-append}
use alfa_hakaton.Common.{
  ℕ, zero, suc, ◌+◌, ◌-◌, ◌*◌, ◌%◌, ◌<◌, ◌≡◌, refl, sym, ap, ◌∙◌, subst, Bool, true, false, not,
  ◌&&◌, Bytes, List, [], ◌∷◌, ◌++◌, length, length-append, get_or, All, arith, ==_iff,
}
use alfa_hakaton.Detectors.Digits.{digits}
use alfa_hakaton.Detectors.Luhn.{luhn_term, luhn_sum, luhn_digits, luhn_sum_shift}
use alfa_hakaton.Detectors.Control.{
  weighted, weighted-append, get_or_last, snils_control, snils_digits, inn_digits,
}
use alfa_hakaton.Detectors.Control
use alfa_hakaton.Synth.Random.{IsDigit}
use alfa_hakaton.Synth.{
  control_sum, inn_control, check_sum, luhn_check_digit, two_digits, first_weights, second_weights,
  inn10_weights, snils_weights, with_check, with_controls, with_control, snils_number, with_number,
}

-- Of a string of digits nothing is dropped.
pub digits_whole : (d : Bytes) → All IsDigit d → digits d ≡ d
unfolding digits
digits_whole [] h = refl
digits_whole (c ∷ d) h = ground (arith, digits_whole d h.1)

check_sum-luhn_sum :
    (d : Bytes) (double : Bool) (sum : ℕ) → check_sum d double sum ≡ luhn_sum d double sum
unfolding check_sum luhn_sum luhn_term
check_sum-luhn_sum [] double sum = refl
check_sum-luhn_sum (c ∷ d) double sum = check_sum-luhn_sum d (not double) _

control_sum-weighted : (ws : List ℕ) (d : Bytes) → control_sum ws d ≡ weighted ws d
unfolding control_sum weighted
control_sum-weighted [] d = refl
control_sum-weighted (w ∷ ws) [] = refl
control_sum-weighted (w ∷ ws) (c ∷ d) = ap (λ n. (c - b'0') * w + n) (control_sum-weighted ws d)

sum-with_check : (body : Bytes) → luhn_sum (reverse (with_check body)) false 0 % 10 ≡ 0
unfolding with_check luhn_check_digit luhn_sum luhn_term
sum-with_check body = rw (reverse-append body (luhn_check_digit body ∷ [])) (
    omega (
      arith,
      check_sum-luhn_sum (reverse body) true 0,
      luhn_sum_shift (reverse body) true (0 + (luhn_check_digit body - b'0')),
    ))

-- A body of 15 digits and its check digit pass the Luhn test.
pub luhn-with_check : (body : Bytes) → length body ≡ 15 → luhn_digits (with_check body) ≡ true
unfolding luhn_digits with_check
luhn-with_check body n =
    ground (arith, sum-with_check body, length-append body (luhn_check_digit body ∷ []))

get_or-append_left : (d r : Bytes) (i : ℕ) → i < length d → get_or (d ++ r) i 0 ≡ get_or d i 0
get_or-append_left [] r i h = elim h [ ]
get_or-append_left (c ∷ d) r zero h = refl
get_or-append_left (c ∷ d) r (suc i) h = get_or-append_left d r i (omega arith)

get_or-append_right : (d r : Bytes) (i : ℕ) → get_or (d ++ r) (length d + i) 0 ≡ get_or r i 0
get_or-append_right [] r i = ap (λ k. get_or r k 0) (omega arith)
get_or-append_right (c ∷ d) r i =
    let next : suc (length d) + i ≡ suc (length d + i) = omega arith in
    ap (λ k. get_or (c ∷ (d ++ r)) k 0) next ∙ get_or-append_right d r i

pub length-snoc : (d : Bytes) (a : ℕ) → length (d ++ a ∷ []) ≡ length d + 1
length-snoc d a = omega (arith, length-append d (a ∷ []))

-- The last digit of `d ++ a ∷ []`, where `d` has `n` digits.
last_digit : (d : Bytes) (a n : ℕ) → length d ≡ n → get_or (d ++ a ∷ []) n 0 ≡ a
last_digit d a n h = subst (λ k. get_or (d ++ a ∷ []) k 0 ≡ a) h (get_or_last d a)

pub inn10-with_control : (base : Bytes) → length base ≡ 9 → Control.inn10 (with_control base) ≡ true
unfolding Control.inn10 with_control inn_control
inn10-with_control base n =
    let c = inn_control base inn10_weights in
    (==_iff (weighted inn10_weights (base ++ c ∷ []) % 11 % 10)
        (get_or (base ++ c ∷ []) 9 0 - b'0')).1
      (omega (
        arith,
        weighted-append inn10_weights base (c ∷ []) (omega (arith, n)),
        control_sum-weighted inn10_weights base,
        last_digit base c 9 n,
      ))

both : (a b : Bool) → a ≡ true → b ≡ true → (a && b) ≡ true
both true b h k = k
both false b h k = cc

pub inn12-with_controls :
    (base : Bytes) → length base ≡ 10 → Control.inn12 (with_controls base) ≡ true
unfolding Control.inn12 with_controls inn_control
inn12-with_controls base n =
    let a = inn_control base first_weights in
    let front = base ++ a ∷ [] in
    let b = inn_control front second_weights in
    let size : length front ≡ 11 = omega (arith, n, length-snoc base a) in
    both _ _
      ((==_iff (weighted first_weights (front ++ b ∷ []) % 11 % 10)
          (get_or (front ++ b ∷ []) 10 0 - b'0')).1
        (omega (
          arith,
          weighted-append first_weights front (b ∷ []) (omega (arith, size)),
          weighted-append first_weights base (a ∷ []) (omega (arith, n)),
          control_sum-weighted first_weights base,
          get_or-append_left front (b ∷ []) 10 (omega (arith, size)),
          last_digit base a 10 n,
        )))
      ((==_iff (weighted second_weights (front ++ b ∷ []) % 11 % 10)
          (get_or (front ++ b ∷ []) 11 0 - b'0')).1
        (omega (
          arith,
          weighted-append second_weights front (b ∷ []) (omega (arith, size)),
          control_sum-weighted second_weights front,
          last_digit front b 11 size,
        )))

-- Two digits of a number below 100 spell it.
two_digits-spell :
    (n : ℕ)
    → n < 100
    → (get_or (two_digits n) 0 0 - b'0') * 10 + (get_or (two_digits n) 1 0 - b'0') ≡ n
unfolding two_digits
two_digits-spell n h = ground arith

pub length-two_digits : (n : ℕ) → length (two_digits n) ≡ 2
unfolding two_digits
length-two_digits n = ground arith

snils_number-snils_control : (sum : ℕ) → snils_number sum ≡ snils_control sum
unfolding snils_number snils_control
snils_number-snils_control sum = ground arith

pub snils_number-lt : (sum : ℕ) → snils_number sum < 100
unfolding snils_number
snils_number-lt sum = ground arith

pub snils-with_number : (base : Bytes) → length base ≡ 9 → snils_digits (with_number base) ≡ true
unfolding snils_digits with_number
snils-with_number base n =
    let sum = control_sum snils_weights base in
    let t = two_digits (snils_number sum) in
    let size : length (base ++ t) ≡ 11 =
      omega (arith, n, length-append base t, length-two_digits (snils_number sum)) in
    let first : get_or (base ++ t) 9 0 ≡ get_or t 0 0 =
      subst (λ k. get_or (base ++ t) k 0 ≡ get_or t 0 0) (omega (arith, n))
        (get_or-append_right base t 0) in
    let second : get_or (base ++ t) 10 0 ≡ get_or t 1 0 =
      subst (λ k. get_or (base ++ t) k 0 ≡ get_or t 1 0) (omega (arith, n))
        (get_or-append_right base t 1) in
    let same : weighted snils_weights (base ++ t) ≡ sum =
      weighted-append snils_weights base t (omega (arith, n))
      ∙ sym (control_sum-weighted snils_weights base) in
    rw (size, same, first, second, sym (snils_number-snils_control sum))
      ((==_iff (snils_number sum) _).1
        (sym (two_digits-spell (snils_number sum) (snils_number-lt sum))))
