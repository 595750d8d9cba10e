-- ===== src/Format/Tests.antt =====
-- Instances of the laws of formatting, and runs of its functions.
use ahmed_sila.Base.{◌+◌, ◌≡◌, ◌≤◌, refl, some, arith}
use ahmed_sila.Base.Int.{negsuc}
use ahmed_sila.Text.{txt, trim}
use ahmed_sila.Text.Decimal.{show}
use ahmed_sila.Format.Plural.{format_delta}
use ahmed_sila.Format.Relative.{format_relative, ago, minute, Describes, format_relative-Describes}
use ahmed_sila.Format.RuDate.{
  parse_ru_date, print_date, make_date, nth_day, year_start, month_start, days_in_month, is_leap,
  days_before_year, days_before_month, from_months, parse_ru_date-print_date,
  parse_ru_date_overflow,
}

format_relative-Describes_example : Describes 1000000 2000000 (format_relative 1000000 2000000)
format_relative-Describes_example = format_relative-Describes 1000000 2000000

august : 14 ≤ days_in_month 2026 8
unfolding days_in_month is_leap
august = omega arith

parse_ru_date-print_date_example : parse_ru_date (print_date 14 8 2026) ≡ some (nth_day 2026 8 14)
parse_ru_date-print_date_example =
    parse_ru_date-print_date 14 8 2026 (omega arith) august (omega arith) (omega arith)
      (omega arith) (omega arith)

parse_ru_date_overflow_example :
    let last = nth_day 2026 2 (days_in_month 2026 2) in
    (parse_ru_date (print_date (days_in_month 2026 2 + 3) 2 2026) ≡ some (last + 3))
    × (parse_ru_date (print_date 3 3 2026) ≡ some (last + 3))
parse_ru_date_overflow_example =
    parse_ru_date_overflow 3 2 2026 (omega arith) (omega arith) (omega arith) (omega arith)
      (omega arith) (omega arith)

day_test : nth_day 2026 8 14 ≡ 740207
unfolding nth_day year_start month_start days_in_month is_leap
day_test = refl

delta_test : format_delta show (negsuc 2) ≡ txt "−3"
unfolding format_delta show
delta_test = refl

relative_test : format_relative 1000000 2000000 ≡ ago 17 minute
unfolding format_relative
relative_test = refl

date_test : parse_ru_date (txt " 14.08.2026 ") ≡ some 740207
unfolding parse_ru_date make_date from_months is_leap days_before_year days_before_month trim
date_test = refl
