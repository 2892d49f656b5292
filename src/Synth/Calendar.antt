-- ===== src/Synth/Calendar.antt =====
-- The fake dates of internal/synth/synth.go.
use alfa_hakaton.Common.{
  ℕ, ◌+◌, ◌-◌, ◌%◌, zero, suc, ◌≤◌, ◌<◌, ◌≡◌, ◌==◌, Bool, true, not, ◌&&◌, ◌||◌, Bytes, utf8, List,
  [], ◌∷◌, ◌++◌, get_or, if◌then◌else◌, arith,
}
use alfa_hakaton.Mask.Token.{decimal}
use alfa_hakaton.Detectors.Dates.{valid_ymd, in_range, is_leap}
use alfa_hakaton.Synth.Random.{Rng}
use alfa_hakaton.Synth.{two_digits}

unfoldable pub is_leap_year : ℕ → Bool
is_leap_year y = y % 4 == 0 && (not (y % 100 == 0) || y % 400 == 0)

abbrev pub month_lengths : List ℕ
month_lengths = 31 ∷ 28 ∷ 31 ∷ 30 ∷ 31 ∷ 30 ∷ 31 ∷ 31 ∷ 30 ∷ 31 ∷ 30 ∷ 31 ∷ []

unfoldable pub days_in_month : ℕ → ℕ → ℕ
unfolding is_leap_year
days_in_month year month =
    if month == 2 && is_leap_year year then 29 else get_or month_lengths (month - 1) 0

abbrev pub month_words : List Bytes
month_words =
    utf8 "января"
    ∷ utf8 "февраля"
    ∷ utf8 "марта"
    ∷ utf8 "апреля"
    ∷ utf8 "мая"
    ∷ utf8 "июня"
    ∷ utf8 "июля"
    ∷ utf8 "августа"
    ∷ utf8 "сентября"
    ∷ utf8 "октября"
    ∷ utf8 "ноября"
    ∷ utf8 "декабря"
    ∷ []

pub record Day : Type 0 where
  pub year : ℕ
  pub month : ℕ
  pub day : ℕ

module _ (r : Rng) where
  -- The three draws of `Date` and `DateWord`.
  unfoldable pub draw_day : r.State → Day × r.State
  draw_day s =
      let (y, s1) = r.intn 56 s in
      let (m, s2) = r.intn 12 s1 in
      let (d, s3) = r.intn (days_in_month (1950 + y) (1 + m)) s2 in
      (record { year = 1950 + y; month = 1 + m; day = 1 + d }, s3)

  unfoldable pub date : r.State → Bytes × r.State
  date s =
      let (d, s') = draw_day s in
      (two_digits d.day ++ (b'.' ∷ (two_digits d.month ++ decimal d.year)), s')

  unfoldable pub date_word : r.State → Bytes × r.State
  date_word s =
      let (d, s') = draw_day s in
      (
        decimal d.day
            ++ (b' '
                ∷ (get_or month_words (d.month - 1) []
                    ++ (b' ' ∷ (decimal d.year ++ utf8 " года")))),
        s',
      )

month_positive : (y m : ℕ) → m < 12 → 0 < days_in_month y (1 + m)
unfolding days_in_month
month_positive y zero h = ground arith
month_positive y (suc zero) h = ground arith
month_positive y (suc (suc zero)) h = ground arith
month_positive y (suc (suc (suc zero))) h = ground arith
month_positive y (suc (suc (suc (suc zero)))) h = ground arith
month_positive y (suc (suc (suc (suc (suc zero))))) h = ground arith
month_positive y (suc (suc (suc (suc (suc (suc zero)))))) h = ground arith
month_positive y (suc (suc (suc (suc (suc (suc (suc zero))))))) h = ground arith
month_positive y (suc (suc (suc (suc (suc (suc (suc (suc zero)))))))) h = ground arith
month_positive y (suc (suc (suc (suc (suc (suc (suc (suc (suc zero))))))))) h = ground arith
month_positive y (suc (suc (suc (suc (suc (suc (suc (suc (suc (suc zero)))))))))) h = ground arith
month_positive y (suc (suc (suc (suc (suc (suc (suc (suc (suc (suc (suc zero))))))))))) h =
    ground arith
month_positive y (suc (suc (suc (suc (suc (suc (suc (suc (suc (suc (suc (suc m)))))))))))) h =
    absurd (omega (arith, h))

day-valid_ymd :
    (y m d : ℕ)
    → y < 56
    → m < 12
    → d < days_in_month (1950 + y) (1 + m)
    → valid_ymd (1950 + y) (1 + m) (1 + d) ≡ true
unfolding days_in_month is_leap_year valid_ymd in_range is_leap
day-valid_ymd y zero d hy hm hd = ground arith
day-valid_ymd y (suc zero) d hy hm hd = ground arith
day-valid_ymd y (suc (suc zero)) d hy hm hd = ground arith
day-valid_ymd y (suc (suc (suc zero))) d hy hm hd = ground arith
day-valid_ymd y (suc (suc (suc (suc zero)))) d hy hm hd = ground arith
day-valid_ymd y (suc (suc (suc (suc (suc zero))))) d hy hm hd = ground arith
day-valid_ymd y (suc (suc (suc (suc (suc (suc zero)))))) d hy hm hd = ground arith
day-valid_ymd y (suc (suc (suc (suc (suc (suc (suc zero))))))) d hy hm hd = ground arith
day-valid_ymd y (suc (suc (suc (suc (suc (suc (suc (suc zero)))))))) d hy hm hd = ground arith
day-valid_ymd y (suc (suc (suc (suc (suc (suc (suc (suc (suc zero))))))))) d hy hm hd = ground arith
day-valid_ymd y (suc (suc (suc (suc (suc (suc (suc (suc (suc (suc zero)))))))))) d hy hm hd =
    ground arith
day-valid_ymd y (suc (suc (suc (suc (suc (suc (suc (suc (suc (suc (suc zero))))))))))) d hy hm hd =
    ground arith
day-valid_ymd y (suc (suc (suc (suc (suc (suc (suc (suc (suc (suc (suc (suc m)))))))))))) d hy hm
      hd =
    absurd (omega (arith, hm))

-- The day that is drawn for a fake date is a day of the calendar, of the years 1950 to 2005, whatever
-- the random source draws.
pub draw_day-valid_ymd :
    (r : Rng) (s : r.State)
    → let d = (draw_day r s).0 in
      (valid_ymd d.year d.month d.day ≡ true) × (1950 ≤ d.year) × (d.year ≤ 2005)
unfolding draw_day
draw_day-valid_ymd r s =
    let (y, s1) = r.intn 56 s in
    let (m, s2) = r.intn 12 s1 in
    let year = r.intn-lt 56 s (omega arith) in
    let month = r.intn-lt 12 s1 (omega arith) in
    let day = r.intn-lt (days_in_month (1950 + y) (1 + m)) s2 (month_positive (1950 + y) m month) in
    (day-valid_ymd y m _ year month day, omega (arith, year), omega (arith, year))
