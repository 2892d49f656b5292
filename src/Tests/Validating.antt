-- ===== src/Tests/Validating.antt =====
-- The validators at concrete dates and addresses. `Atoi` reads digits only.
use alfa_hakaton.Common.{
  ℕ, ◌+◌, ◌-◌, ◌*◌, ◌≡◌, refl, Bytes, bytes_eq, codes, utf8, [], ◌∷◌, Option, some, none,
  if◌then◌else◌, true, false,
}
use alfa_hakaton.Detectors.Digits.{is_digit}
use alfa_hakaton.Detectors.Emails.{not_service_email}
use alfa_hakaton.Detectors.Written.{numeric_parts, date_parts, word_date, date_short_year}

abbrev read : ℕ → Bytes → Option ℕ
read n [] = some n
read n (c ∷ s) = if is_digit c then read (10 * n + (c - b'0')) s else none

abbrev same : Bytes → Bytes
same s = s

parts_example : numeric_parts (read 0) (codes "12.05.1990") ≡ some (12, (5, 1990))
unfolding numeric_parts
parts_example = refl

date_parts_example : date_parts (read 0) (numeric_parts (read 0) (codes "1990-12-31")) ≡ true
unfolding numeric_parts date_parts
date_parts_example = refl

word_date_example : word_date (read 0) (codes "29" ∷ utf8 "фев." ∷ codes "1900" ∷ []) ≡ false
unfolding word_date bytes_eq
word_date_example = refl

short_example : date_short_year (read 0) same (codes "05.03.85") ≡ true
unfolding date_short_year
short_example = refl

service_example : not_service_email same (codes "info@alfabank.ru") ≡ false
unfolding not_service_email bytes_eq
service_example = refl

personal_example : not_service_email same (codes "i.ivanov@alfabank.ru") ≡ true
unfolding not_service_email bytes_eq
personal_example = refl
