-- ===== src/Detectors/Dates.antt =====
-- `validYMD`, `inRange`, `isLeap`, `shortYearAsLast` and `shortYearAsFirst` of
-- internal/pii/detectors/validators.go. Their callers pass parts of a date that was split at dots, slashes
-- and dashes, or parsed from `\d`, so no part is negative.
use alfa_hakaton.Common.{
  ℕ, zero, suc, ◌+◌, ◌-◌, ◌%◌, ◌≤◌, ◌≡◌, ◌≢◌, ◌↔◌, ◌⊎◌, ◌==◌, Bool, true, false, not, ◌&&◌, ◌||◌,
  List, [], ◌∷◌, get_or, leb, ltb, if◌then◌else◌, arith,
}

unfoldable pub in_range : ℕ → ℕ → ℕ → Bool
in_range v lo hi = leb lo v && leb v hi

unfoldable pub is_leap : ℕ → Bool
is_leap y = y % 4 == 0 && (not (y % 100 == 0) || y % 400 == 0)

-- `daysInMonth`, with February's entry of the year.
abbrev days_in_month : Bool → List ℕ
days_in_month leap_february =
    31 ∷ (if leap_february then 29 else 28) ∷ 31 ∷ 30 ∷ 31 ∷ 30 ∷ 31 ∷ 31 ∷ 30 ∷ 31 ∷ 30 ∷ 31 ∷ []

unfoldable pub valid_ymd : ℕ → ℕ → ℕ → Bool
unfolding in_range is_leap
valid_ymd year month day =
    if not (in_range year 1900 2100) || (not (in_range month 1 12) || ltb day 1)
    then false
    else leb day (get_or (days_in_month (is_leap year && month == 2)) (month - 1) 0)

unfoldable pub short_year_as_last : ℕ → ℕ → ℕ → Bool
unfolding valid_ymd
short_year_as_last a b c =
    if ltb 99 c then false else valid_ymd (1900 + c) a b || valid_ymd (1900 + c) b a

unfoldable pub short_year_as_first : ℕ → ℕ → ℕ → Bool
unfolding valid_ymd
short_year_as_first a b c = if ltb 99 a then false else valid_ymd (1900 + a) b c

-- The Gregorian calendar: every fourth year is a leap year, but of the centuries every fourth only.
abbrev pub IsLeap : ℕ → Type 0
IsLeap y = (y % 400 ≡ 0) ⊎ ((y % 4 ≡ 0) × (y % 100 ≢ 0))

-- A month has 28 days at least, February 29 in a leap year, another month 30, and a month 31 where it
-- is odd up to July or even from August on.
abbrev pub IsDay : ℕ → ℕ → ℕ → Type 0
IsDay y m d =
    (d ≤ 28)
    ⊎ (((m ≡ 2) × ((d ≡ 29) × IsLeap y))
        ⊎ (((m ≢ 2) × (d ≤ 30)) ⊎ ((d ≡ 31) × (((m ≤ 7) × (m % 2 ≡ 1)) ⊎ ((8 ≤ m) × (m % 2 ≡ 0))))))

abbrev pub IsDate : ℕ → ℕ → ℕ → Type 0
IsDate y m d = ((1900 ≤ y) × (y ≤ 2100)) × (((1 ≤ m) × (m ≤ 12)) × ((1 ≤ d) × IsDay y m d))

is_leap_iff : (y : ℕ) → (is_leap y ≡ true) ↔ IsLeap y
unfolding is_leap
is_leap_iff y = ground arith

-- A date is accepted if and only if it is a day of the Gregorian calendar of the years 1900 to 2100.
pub valid_ymd_iff : (y m d : ℕ) → (valid_ymd y m d ≡ true) ↔ IsDate y m d
unfolding valid_ymd in_range
valid_ymd_iff y zero d = ground (arith, is_leap_iff y)
valid_ymd_iff y (suc zero) d = ground (arith, is_leap_iff y)
valid_ymd_iff y (suc (suc zero)) d = ground (arith, is_leap_iff y)
valid_ymd_iff y (suc (suc (suc zero))) d = ground (arith, is_leap_iff y)
valid_ymd_iff y (suc (suc (suc (suc zero)))) d = ground (arith, is_leap_iff y)
valid_ymd_iff y (suc (suc (suc (suc (suc zero))))) d = ground (arith, is_leap_iff y)
valid_ymd_iff y (suc (suc (suc (suc (suc (suc zero)))))) d = ground (arith, is_leap_iff y)
valid_ymd_iff y (suc (suc (suc (suc (suc (suc (suc zero))))))) d = ground (arith, is_leap_iff y)
valid_ymd_iff y (suc (suc (suc (suc (suc (suc (suc (suc zero)))))))) d =
    ground (arith, is_leap_iff y)
valid_ymd_iff y (suc (suc (suc (suc (suc (suc (suc (suc (suc zero))))))))) d =
    ground (arith, is_leap_iff y)
valid_ymd_iff y (suc (suc (suc (suc (suc (suc (suc (suc (suc (suc zero)))))))))) d =
    ground (arith, is_leap_iff y)
valid_ymd_iff y (suc (suc (suc (suc (suc (suc (suc (suc (suc (suc (suc zero))))))))))) d =
    ground (arith, is_leap_iff y)
valid_ymd_iff y (suc (suc (suc (suc (suc (suc (suc (suc (suc (suc (suc (suc zero)))))))))))) d =
    ground (arith, is_leap_iff y)
valid_ymd_iff y (suc (suc (suc (suc (suc (suc (suc (suc (suc (suc (suc (suc (suc m))))))))))))) d =
    ground arith
