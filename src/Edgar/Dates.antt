-- ===== src/Edgar/Dates.antt =====
-- `datetime.strptime(value, "%Y-%m-%d").date()` and `date.toordinal`, for `_parse_date` of
-- tradegraph/src/rag/ingestion/sec_edgar.py.
use juris_mind_ai.Base.{
  ℕ, zero, suc, ◌+◌, ◌-◌, ◌*◌, ◌/◌, ◌%◌, Bool, not, ◌&&◌, ◌||◌, Option, none, some, List, [], ◌∷◌,
  leb, if◌then◌else◌, ◌==◌, nat_eq, length,
}
use juris_mind_ai.Base.Text.{Str, split, read_ℕ}

unfoldable pub is_leap : ℕ → Bool
is_leap year = year % 4 == 0 && (not (year % 100 == 0) || year % 400 == 0)

unfoldable pub days_in_month : ℕ → ℕ → ℕ
unfolding is_leap
days_in_month year month =
    if month == 2
    then if is_leap year then 29 else 28
    else if month == 4 || month == 6 || month == 9 || month == 11
    then 30
    else 31

-- The days of the first `months` months.
days_before_month : ℕ → ℕ → ℕ
unfolding days_in_month
days_before_month year zero = 0
days_before_month year (suc months) =
    days_before_month year months + days_in_month year (suc months)

-- `date(year, month, day).toordinal()`
unfoldable pub to_ordinal : ℕ → ℕ → ℕ → ℕ
unfolding days_before_month
to_ordinal year month day =
    let y = year - 1 in
    y * 365 + y / 4 - y / 100 + y / 400 + days_before_month year (month - 1) + day

unfoldable pub is_date : ℕ → ℕ → ℕ → Bool
unfolding days_in_month
is_date year month day =
    leb 1 year && leb 1 month && leb month 12 && leb 1 day && leb day (days_in_month year month)

date_of : Option ℕ → Option ℕ → Option ℕ → Option ℕ
unfolding is_date to_ordinal
date_of (some year) (some month) (some day) =
    if is_date year month day then some (to_ordinal year month day) else none
date_of _ _ _ = none

-- Four digits, and one or two for the month and the day.
from_parts : List Str → Option ℕ
unfolding date_of read_ℕ
from_parts (y ∷ m ∷ d ∷ []) =
    if length y == 4 && leb (length m) 2 && leb (length d) 2
    then date_of (read_ℕ y) (read_ℕ m) (read_ℕ d)
    else none
from_parts _ = none

-- The ordinal of the date; `none` is the `ValueError`.
unfoldable pub parse_date : Str → Option ℕ
unfolding from_parts split
parse_date value = from_parts (split b'-' value)
