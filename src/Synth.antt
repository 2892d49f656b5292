-- ===== src/Synth.antt =====
-- internal/synth/synth.go: fake values with valid control digits. `math/rand` is a parameter.
pub mod Random
pub mod Valid
pub mod Accepted
pub mod Calendar
pub mod Names
use mathlib.Core.List.{reverse}
use alfa_hakaton.Common.{
  ℕ, zero, suc, ◌+◌, ◌-◌, ◌*◌, ◌/◌, ◌%◌, ◌==◌, Bool, true, false, not, ◌&&◌, ◌||◌, Bytes, codes,
  List, [], ◌∷◌, ◌++◌, get_or, ltb, if◌then◌else◌,
}
use Random.{Rng, rand_digits}

-- `innControl`, and the same sum in `SNILS`: a digit for each weight.
unfoldable pub control_sum : List ℕ → Bytes → ℕ
control_sum [] d = 0
control_sum (w ∷ ws) [] = 0
control_sum (w ∷ ws) (c ∷ d) = (c - b'0') * w + control_sum ws d

unfoldable pub inn_control : Bytes → List ℕ → ℕ
unfolding control_sum
inn_control d weights = b'0' + control_sum weights d % 11 % 10

-- The loop of `luhnCheckDigit`, from the last digit to the first.
unfoldable pub check_sum : Bytes → Bool → ℕ → ℕ
check_sum [] double sum = sum
check_sum (c ∷ d) double sum =
    let n = c - b'0' in
    let term = if double then (if ltb 9 (n * 2) then n * 2 - 9 else n * 2) else n in
    check_sum d (not double) (sum + term)

unfoldable pub luhn_check_digit : Bytes → ℕ
unfolding check_sum
luhn_check_digit d = b'0' + (10 - check_sum (reverse d) true 0 % 10) % 10

-- `twoDigits` of a number below 100.
unfoldable pub two_digits : ℕ → Bytes
two_digits n = if ltb n 10 then b'0' ∷ (b'0' + n) ∷ [] else (b'0' + n / 10) ∷ (b'0' + n % 10) ∷ []

abbrev pub first_weights : List ℕ
first_weights = 7 ∷ 2 ∷ 4 ∷ 10 ∷ 3 ∷ 5 ∷ 9 ∷ 4 ∷ 6 ∷ 8 ∷ []

abbrev pub second_weights : List ℕ
second_weights = 3 ∷ 7 ∷ 2 ∷ 4 ∷ 10 ∷ 3 ∷ 5 ∷ 9 ∷ 4 ∷ 6 ∷ 8 ∷ []

abbrev pub inn10_weights : List ℕ
inn10_weights = 2 ∷ 4 ∷ 10 ∷ 3 ∷ 5 ∷ 9 ∷ 4 ∷ 6 ∷ 8 ∷ []

abbrev pub snils_weights : List ℕ
snils_weights = 9 ∷ 8 ∷ 7 ∷ 6 ∷ 5 ∷ 4 ∷ 3 ∷ 2 ∷ 1 ∷ []

-- What the generators write behind the random digits.
unfoldable pub with_check : Bytes → Bytes
with_check body = body ++ luhn_check_digit body ∷ []

unfoldable pub with_controls : Bytes → Bytes
with_controls base =
    let n11 = inn_control base first_weights in
    let n12 = inn_control (base ++ n11 ∷ []) second_weights in (base ++ n11 ∷ []) ++ n12 ∷ []

unfoldable pub with_control : Bytes → Bytes
with_control base = base ++ inn_control base inn10_weights ∷ []

unfoldable pub snils_number : ℕ → ℕ
snils_number sum =
    if ltb sum 100
    then sum
    else if sum == 100 || sum == 101
    then 0
    else let control = sum % 101 in if control == 100 then 0 else control

unfoldable pub with_number : Bytes → Bytes
unfolding snils_number two_digits
with_number base = base ++ two_digits (snils_number (control_sum snils_weights base))

module _ (r : Rng) where
  unfoldable pub phone : r.State → Bytes × r.State
  phone s = let (d, s') = rand_digits r 9 s in (b'7' ∷ b'9' ∷ d, s')

  unfoldable pub card : r.State → Bytes × r.State
  card s =
      let (coin, s1) = r.intn 2 s in
      let (a, s2) = rand_digits r 2 s1 in
      let (b, s3) = rand_digits r 12 s2 in
      (with_check ((if coin == 0 then b'5' else b'4') ∷ (a ++ b)), s3)

  unfoldable pub inn : r.State → Bytes × r.State
  inn s = let (base, s') = rand_digits r 10 s in (with_controls base, s')

  unfoldable pub inn10 : r.State → Bytes × r.State
  inn10 s = let (base, s') = rand_digits r 9 s in (with_control base, s')

  unfoldable pub snils : r.State → Bytes × r.State
  snils s = let (base, s') = rand_digits r 9 s in (with_number base, s')

  unfoldable pub passport : r.State → Bytes × r.State
  passport s =
      let (a, s1) = rand_digits r 3 s in let (b, s2) = rand_digits r 6 s1 in (b'4' ∷ (a ++ b), s2)

  unfoldable pub foreign_passport : r.State → Bytes × r.State
  foreign_passport s =
      let (a, s1) = rand_digits r 1 s in let (b, s2) = rand_digits r 7 s1 in (b'7' ∷ (a ++ b), s2)

  unfoldable pub driver_license : r.State → Bytes × r.State
  unfolding two_digits
  driver_license s =
      let (a, s1) = r.intn 90 s in
      let (b, s2) = r.intn 90 s1 in
      let (c, s3) = rand_digits r 6 s2 in (two_digits (1 + a) ++ (two_digits (1 + b) ++ c), s3)

  unfoldable pub division_code : r.State → Bytes × r.State
  division_code s =
      let (a, s1) = rand_digits r 3 s in let (b, s2) = rand_digits r 3 s1 in (a ++ (b'-' ∷ b), s2)
