-- ===== src/Format/RuDate.antt =====
-- `formatDate` and `parseRuDate` of web/src/lib/format.ts. A date is the number of its local day,
-- counted from the first of January of the year 0 of the Gregorian calendar.
use ahmed_sila.Base.{
  ℕ, zero, suc, ◌+◌, ◌-◌, ◌*◌, ◌/◌, ◌%◌, ◌≤◌, ◌<◌, ◌≡◌, refl, ap, sym, ◌∙◌, Bool, false, ◌&&◌, ◌||◌,
  not, Option, none, some, [], ◌∷◌, ltb, ◌==◌, if◌then◌else◌, arith,
}
use native.Mathlib.Decide.{dec_lt}
use ahmed_sila.Text.{Text, is_digit, is_space, trim}

abbrev digit : ℕ → ℕ
digit c = c - b'0'

-- `/^(\d{2})\.(\d{2})\.(\d{4})$/`: the day, the month and the year of a text that matches
match_date : Text → Option (ℕ × ℕ × ℕ)
match_date (d ∷ e ∷ p ∷ m ∷ n ∷ q ∷ a ∷ b ∷ c ∷ f ∷ []) =
    if is_digit d
      && is_digit e
      && p == b'.'
      && is_digit m
      && is_digit n
      && q == b'.'
      && is_digit a
      && is_digit b
      && is_digit c
      && is_digit f
    then some (
      10 * digit d + digit e,
      10 * digit m + digit n,
      1000 * digit a + 100 * digit b + 10 * digit c + digit f,
    )
    else none
match_date _ = none

unfoldable pub is_leap : ℕ → Bool
is_leap y = y % 4 == 0 && (not (y % 100 == 0) || y % 400 == 0)

-- The days of the years before `y`, and of the months before the month `m` (from 0) of a year.
unfoldable pub days_before_year : ℕ → ℕ
days_before_year y = 365 * y + (y + 3) / 4 + (y + 399) / 400 - (y + 99) / 100

unfoldable pub days_before_month : Bool → ℕ → ℕ
days_before_month leap m =
    let extra : ℕ = if leap then 1 else 0 in
    if m == 0
    then 0
    else if m == 1
    then 31
    else if m == 2
    then 59 + extra
    else if m == 3
    then 90 + extra
    else if m == 4
    then 120 + extra
    else if m == 5
    then 151 + extra
    else if m == 6
    then 181 + extra
    else if m == 7
    then 212 + extra
    else if m == 8
    then 243 + extra
    else if m == 9
    then 273 + extra
    else if m == 10
    then 304 + extra
    else 334 + extra

-- The day `day` (from 1) of the month that is `months` months after the year 0 began.
unfoldable pub from_months : ℕ → ℕ → ℕ
from_months months day =
    days_before_year (months / 12)
    + days_before_month (is_leap (months / 12)) (months % 12)
    + day
    - 1

-- A `Date` takes a year below 100 for one of the 1900s.
abbrev pub full_year : ℕ → ℕ
full_year year = if ltb year 100 then 1900 + year else year

-- `new Date(year, month - 1, day)`: months and days out of range go on into the next year or month,
-- or back into the one before.
unfoldable pub make_date : ℕ → ℕ → ℕ → ℕ
make_date year month day = from_months (12 * full_year year + month - 1) day

abbrev dated : Option (ℕ × ℕ × ℕ) → Option ℕ
dated none = none
dated (some (day, month, year)) = some (make_date year month day)

-- A day, month and year of digits always make a date, so the test for an invalid one never fires.
unfoldable pub parse_ru_date : Text → Option ℕ
unfolding match_date
parse_ru_date value = dated (match_date (trim value))

abbrev two_digits : ℕ → Text → Text
two_digits n rest = (b'0' + n / 10 % 10) ∷ (b'0' + n % 10) ∷ rest

-- The text that `dateFmt` gives for a local date of a year of four digits.
unfoldable pub print_date : ℕ → ℕ → ℕ → Text
print_date day month year =
    two_digits day (b'.' ∷ two_digits month (b'.' ∷ two_digits (year / 100) (two_digits year [])))

digit-not-space : (k : ℕ) → k < 10 → is_space (b'0' + k) ≡ false
unfolding is_space
digit-not-space k h = ground arith

trim-print : (day month year : ℕ) → trim (print_date day month year) ≡ print_date day month year
unfolding trim print_date
trim-print d m y = ground (arith, digit-not-space (d / 10 % 10), digit-not-space (y % 10))

match-print :
    (day month year : ℕ)
    → day < 100
    → month < 100
    → year < 10000
    → match_date (print_date day month year) ≡ some (day, month, year)
unfolding match_date print_date
match-print d m y p q r = ground arith

parse-print :
    (day month year : ℕ)
    → day < 100
    → month < 100
    → year < 10000
    → parse_ru_date (print_date day month year) ≡ some (make_date year month day)
unfolding parse_ru_date
parse-print d m y p q r = rw (trim-print d m y, match-print d m y p q r) refl

-- The number of days of the month `m` (from 1) of a year that is leap or not.
abbrev month_days : Bool → ℕ → ℕ
month_days leap m =
    if m == 2
    then (if leap then 29 else 28)
    else if m == 4 || m == 6 || m == 9 || m == 11
    then 30
    else 31

unfoldable pub days_in_month : ℕ → ℕ → ℕ
days_in_month y m = month_days (is_leap y) m

year_step :
    (y : ℕ)
    → days_before_year (y + 1)
      ≡ days_before_year y + days_before_month (is_leap y) 11 + days_in_month y 12
unfolding days_before_year is_leap days_in_month days_before_month
year_step y = ground arith

month_step :
    (y j : ℕ)
    → j < 11
    → days_before_month (is_leap y) (j + 1)
      ≡ days_before_month (is_leap y) j + days_in_month y (j + 1)
unfolding days_before_month days_in_month
month_step y j h = ground arith

days_in_month-le : (y m : ℕ) → days_in_month y m ≤ 31
unfolding days_in_month
days_in_month-le y m = ground arith

days_in_month-ge : (y m : ℕ) → 1 ≤ days_in_month y m
unfolding days_in_month
days_in_month-ge y m = ground arith

january : (leap : Bool) → days_before_month leap 0 ≡ 0
unfolding days_before_month
january leap = refl

from_months-eq :
    (y j k : ℕ)
    → j < 12
    → from_months (12 * y + j) k ≡ days_before_year y + days_before_month (is_leap y) j + k - 1
unfolding from_months
from_months-eq y j k h =
    let e : (12 * y + j) / 12 ≡ y = omega arith in
    let f : (12 * y + j) % 12 ≡ j = omega arith in rw (e, f) refl

from_months-month :
    (y j k : ℕ)
    → j < 12
    → 1 ≤ k
    → from_months (12 * y + j) (days_in_month y (j + 1) + k) ≡ from_months (12 * y + j + 1) k
from_months-month y j k h p = elim (dec_lt j 11) [
  | yes q ↦
      let e : 12 * y + j + 1 ≡ 12 * y + (j + 1) = omega arith in
      rw
        (
          e,
          from_months-eq y j (days_in_month y (j + 1) + k) h,
          from_months-eq y (j + 1) k (omega arith),
        )
        (omega (arith, month_step y j q))
  | no q ↦
      let z : j ≡ 11 = omega arith in
      let e : 12 * y + j + 1 ≡ 12 * (y + 1) + 0 = omega arith in
      rw
        (
          e,
          z,
          from_months-eq y 11 (days_in_month y 12 + k) (omega arith),
          from_months-eq (y + 1) 0 k (omega arith),
          january (is_leap (y + 1)),
        )
        (omega (arith, year_step y))
]

make_date-month :
    (y m k : ℕ)
    → 100 ≤ y
    → 1 ≤ m
    → m ≤ 12
    → 1 ≤ k
    → make_date y m (days_in_month y m + k) ≡ make_date y (m + 1) k
unfolding make_date
make_date-month y m k a b c d =
    let f : full_year y ≡ y = ground arith in
    let e : 12 * y + m - 1 ≡ 12 * y + (m - 1) = omega arith in
    let g : 12 * y + (m + 1) - 1 ≡ 12 * y + (m - 1) + 1 = omega arith in
    let h : m ≡ m - 1 + 1 = omega arith in
    let days : days_in_month y m ≡ days_in_month y (m - 1 + 1) = ap (days_in_month y) h in
    rw (f, e, g, days) (from_months-month y (m - 1) k (omega arith) d)

-- The days before a year, and of a year before a month, counted one year and one month at a time.
unfoldable pub year_start : ℕ → ℕ
unfolding is_leap
year_start zero = 0
year_start (suc y) = year_start y + (if is_leap y then 366 else 365)

unfoldable pub month_start : (year : ℕ) → (months : ℕ) → ℕ
unfolding days_in_month
month_start y zero = 0
month_start y (suc j) = month_start y j + days_in_month y (j + 1)

-- The day `day` of a month, both from 1.
unfoldable pub nth_day : (year month day : ℕ) → ℕ
unfolding year_start month_start
nth_day y m d = year_start y + month_start y (m - 1) + (d - 1)

year_length :
    (y : ℕ)
    → days_before_month (is_leap y) 11 + days_in_month y 12 ≡ (if is_leap y then 366 else 365)
unfolding days_before_month days_in_month
year_length y = ground arith

year_start-days_before_year : (y : ℕ) → year_start y ≡ days_before_year y
unfolding year_start days_before_year
year_start-days_before_year zero = refl
year_start-days_before_year (suc y) =
    omega (arith, year_start-days_before_year y, year_step y, year_length y)

month_start-days_before_month :
    (y j : ℕ) → j < 12 → month_start y j ≡ days_before_month (is_leap y) j
unfolding month_start
month_start-days_before_month y zero h = sym (january (is_leap y))
month_start-days_before_month y (suc j) h =
    let next : suc j ≡ j + 1 = omega arith in
    rw next (
      omega (
        arith,
        month_start-days_before_month y j (omega (arith, h)),
        month_step y j (omega (arith, h)),
      ))

make_date-nth_day : (y m k : ℕ) → 100 ≤ y → 1 ≤ m → m ≤ 12 → 1 ≤ k → make_date y m k ≡ nth_day y m k
unfolding make_date nth_day
make_date-nth_day y m k a b c d =
    let f : full_year y ≡ y = ground arith in
    let e : 12 * y + m - 1 ≡ 12 * y + (m - 1) = omega arith in
    rw (f, e, from_months-eq y (m - 1) k (omega arith))
      (omega (
        arith,
        year_start-days_before_year y,
        month_start-days_before_month y (m - 1) (omega arith),
      ))

-- The text that the panel prints for a day of a year of four digits is read back as that day of the
-- calendar, counted from the days of each year and month.
pub parse_ru_date-print_date :
    (day month year : ℕ)
    → 1 ≤ day
    → day ≤ days_in_month year month
    → 1 ≤ month
    → month ≤ 12
    → 1000 ≤ year
    → year < 10000
    → parse_ru_date (print_date day month year) ≡ some (nth_day year month day)
parse_ru_date-print_date d m y p q b c z r =
    parse-print d m y (omega (arith, q, days_in_month-le y m)) (omega arith) r
    ∙ ap some (make_date-nth_day y m d (omega arith) b c p)

-- The k-th day past the end of its month is no parse error: it is read as the day of the calendar k days
-- after the last of the month, which is what the k-th of the next month is read as, where that is the
-- month 13 after December.
pub parse_ru_date_overflow :
    (k month year : ℕ)
    → 1 ≤ k
    → k < 69
    → 1 ≤ month
    → month ≤ 12
    → 1000 ≤ year
    → year < 10000
    → let last = nth_day year month (days_in_month year month) in
      (parse_ru_date (print_date (days_in_month year month + k) month year) ≡ some (last + k))
      × (parse_ru_date (print_date k (month + 1) year) ≡ some (last + k))
unfolding nth_day
parse_ru_date_overflow k m y a b c d e f =
    let n = days_in_month y m in
    let count : nth_day y m (n + k) ≡ nth_day y m n + k = omega (arith, days_in_month-ge y m) in
    let past : make_date y m (n + k) ≡ nth_day y m n + k =
      make_date-nth_day y m (n + k) (omega arith) c d (omega arith) ∙ count in
    (
      parse-print (n + k) m y (omega (arith, days_in_month-le y m)) (omega arith) f ∙ ap some past,
      parse-print k (m + 1) y (omega arith) (omega arith) f
          ∙ ap some (sym (make_date-month y m k (omega arith) c d a) ∙ past),
    )
