-- ===== src/Detectors/Written.antt =====
-- The dates as they are written, of internal/pii/detectors/validators.go: `date`, `dateShortYear` and
-- `dateWordShortYear`. Parameters are `strings.TrimSpace`, `strings.ToLower`, the groups behind the
-- first of `wordDateRe`, `yearFirstDateRe` and `dateWordShortYearRe`, and `strconv.Atoi`, whose failure
-- is `none`; no part of a date has a sign in front, since a dash splits.
use alfa_hakaton.Common.{
  ℕ, ◌+◌, ◌==◌, ◌≡◌, refl, Bool, true, false, ◌||◌, Bytes, codes, utf8, List, [], ◌∷◌, ◌++◌, length,
  take, get_or, if◌then◌else◌, Option, none, some, ◌-◌,
}
use alfa_hakaton.Common.Find.{has_suffix}
use alfa_hakaton.Common.Assoc.{lookup}
use alfa_hakaton.Detectors.Dates.{valid_ymd, short_year_as_last, short_year_as_first}

abbrev pub month_names : List (Bytes × ℕ)
month_names =
    (utf8 "января", 1)
    ∷ (utf8 "февраля", 2)
    ∷ (utf8 "марта", 3)
    ∷ (utf8 "апреля", 4)
    ∷ (utf8 "мая", 5)
    ∷ (utf8 "июня", 6)
    ∷ (utf8 "июля", 7)
    ∷ (utf8 "августа", 8)
    ∷ (utf8 "сентября", 9)
    ∷ (utf8 "октября", 10)
    ∷ (utf8 "ноября", 11)
    ∷ (utf8 "декабря", 12)
    ∷ (utf8 "янв", 1)
    ∷ (utf8 "янв.", 1)
    ∷ (utf8 "фев", 2)
    ∷ (utf8 "фев.", 2)
    ∷ (utf8 "мар", 3)
    ∷ (utf8 "мар.", 3)
    ∷ (utf8 "апр", 4)
    ∷ (utf8 "апр.", 4)
    ∷ (utf8 "май", 5)
    ∷ (utf8 "май.", 5)
    ∷ (utf8 "июн", 6)
    ∷ (utf8 "июн.", 6)
    ∷ (utf8 "июл", 7)
    ∷ (utf8 "июл.", 7)
    ∷ (utf8 "авг", 8)
    ∷ (utf8 "авг.", 8)
    ∷ (utf8 "сен", 9)
    ∷ (utf8 "сен.", 9)
    ∷ (utf8 "сент", 9)
    ∷ (utf8 "сент.", 9)
    ∷ (utf8 "окт", 10)
    ∷ (utf8 "окт.", 10)
    ∷ (utf8 "ноя", 11)
    ∷ (utf8 "ноя.", 11)
    ∷ (utf8 "дек", 12)
    ∷ (utf8 "дек.", 12)
    ∷ (codes "january", 1)
    ∷ (codes "february", 2)
    ∷ (codes "march", 3)
    ∷ (codes "april", 4)
    ∷ (codes "may", 5)
    ∷ (codes "june", 6)
    ∷ (codes "july", 7)
    ∷ (codes "august", 8)
    ∷ (codes "september", 9)
    ∷ (codes "october", 10)
    ∷ (codes "november", 11)
    ∷ (codes "december", 12)
    ∷ []

abbrev pub is_separator : ℕ → Bool
is_separator c = c == b'.' || (c == b'/' || c == b'-')

-- `strings.FieldsFunc` with the separators: `field` is the part that is being read.
unfoldable pub fields_from : Bytes → Bytes → List Bytes
fields_from field [] = if length field == 0 then [] else field ∷ []
fields_from field (c ∷ s) =
    if is_separator c
    then (if length field == 0 then fields_from [] s else field ∷ fields_from [] s)
    else fields_from (field ++ c ∷ []) s

-- `strings.TrimSuffix(s, ".")`.
abbrev pub trim_dot : Bytes → Bytes
trim_dot s = if has_suffix s (codes ".") then take (length s - 1) s else s

abbrev pub or_zero : Option ℕ → ℕ
or_zero none = 0
or_zero (some n) = n

abbrev all_three : Option ℕ → Option ℕ → Option ℕ → Option (ℕ × (ℕ × ℕ))
all_three (some a) (some b) (some c) = some (a, (b, c))
all_three _ _ _ = none

module _ (atoi : Bytes → Option ℕ) where
  unfoldable pub three_parts : List Bytes → Option (ℕ × (ℕ × ℕ))
  three_parts (x ∷ y ∷ z ∷ []) = all_three (atoi x) (atoi y) (atoi z)
  three_parts _ = none

  unfoldable pub numeric_parts : Bytes → Option (ℕ × (ℕ × ℕ))
  unfolding fields_from three_parts
  numeric_parts s = three_parts (fields_from [] s)

  -- The parsed number of a group.
  abbrev group : List Bytes → ℕ → ℕ
  group m i = or_zero (atoi (get_or m i []))

  abbrev with_month : Option ℕ → ℕ → ℕ → Bool
  with_month none year day = false
  with_month (some month) year day = valid_ymd year month day

  -- The groups are a day, a month and a year.
  unfoldable pub word_date : List Bytes → Bool
  unfolding lookup valid_ymd has_suffix
  word_date m = with_month (lookup (trim_dot (get_or m 1 [])) month_names) (group m 2) (group m 0)

  -- The groups are a year, a day and a month.
  unfoldable pub year_first_date : List Bytes → Bool
  unfolding lookup valid_ymd has_suffix
  year_first_date m =
      with_month (lookup (trim_dot (get_or m 2 [])) month_names) (group m 0) (group m 1)

  -- Every order of the parts in which the year comes first or last.
  unfoldable pub date_parts : Option (ℕ × (ℕ × ℕ)) → Bool
  unfolding valid_ymd
  date_parts none = false
  date_parts (some (a, (b, c))) =
      valid_ymd a b c || (valid_ymd c a b || (valid_ymd c b a || valid_ymd a c b))

  unfoldable pub short_date_parts : Option (ℕ × (ℕ × ℕ)) → Bool
  unfolding short_year_as_last short_year_as_first
  short_date_parts none = false
  short_date_parts (some (a, (b, c))) = short_year_as_last a b c || short_year_as_first a b c

  module _ (trim_space to_lower : Bytes → Bytes)
      (word_date_re year_first_date_re : Bytes → Option (List Bytes)) where
    unfoldable pub date : Bytes → Bool
    unfolding word_date year_first_date numeric_parts date_parts
    date match =
        let s = trim_space match in
        elim (word_date_re (to_lower s)) [
          | some m ↦ word_date m
          | none ↦ elim (year_first_date_re (to_lower s)) [
            | some m ↦ year_first_date m
            | none ↦ date_parts (numeric_parts s)
          ]
        ]

  unfoldable pub date_short_year : (Bytes → Bytes) → Bytes → Bool
  unfolding numeric_parts short_date_parts
  date_short_year trim_space match = short_date_parts (numeric_parts (trim_space match))

  unfoldable pub date_word_short_year :
      (Bytes → Bytes) → (Bytes → Bytes) → (Bytes → Option (List Bytes)) → Bytes → Bool
  unfolding lookup valid_ymd
  date_word_short_year trim_space to_lower date_word_short_year_re match =
      elim (date_word_short_year_re (to_lower (trim_space match))) [
        | none ↦ false
        | some m ↦ with_month (lookup (get_or m 1 []) month_names) (1900 + group m 2) (group m 0)
      ]

  or_swapped : (a b c d : Bool) → (a || (b || (c || d))) ≡ (c || (d || (a || b)))
  or_swapped true b true d = refl
  or_swapped true b false true = refl
  or_swapped true b false false = refl
  or_swapped false true true d = refl
  or_swapped false true false true = refl
  or_swapped false true false false = refl
  or_swapped false false true d = refl
  or_swapped false false false true = refl
  or_swapped false false false false = refl

  -- A date in numbers is accepted if and only if it is accepted with its parts the other way round.
  date_parts_reversed : (a b c : ℕ) → date_parts (some (a, (b, c))) ≡ date_parts (some (c, (b, a)))
  unfolding date_parts
  date_parts_reversed a b c =
      or_swapped (valid_ymd a b c) (valid_ymd c a b) (valid_ymd c b a) (valid_ymd a c b)
