-- ===== src/Runtime/Time/Civil/Calendar.antt =====
-- runtime/cel_time.c: the civil date counts the days.
use cel_spec_wasm.Prelude.{
  ℕ, zero, suc, min, ◌+◌, ◌-◌, ◌*◌, ◌/◌, ◌%◌, ◌<◌, ◌≤◌, ◌≡◌, arith, ltb, leb, ◌==◌, if◌then◌else◌,
  Bool, true, not, ◌&&◌, ◌||◌,
}
use cel_spec_wasm.Prelude.Int.{pos, ◌+ℤ◌, ◌-ℤ◌, ◌*ℤ◌}
use cel_spec_wasm.Runtime.Time.Civil.{
  year_of_era, month_of, table_entry, is_leap_year, split_days, era_of,
}

-- The days of the years of an era before the year `yoe`, which begins in March.
abbrev pub days_before_year : ℕ → ℕ
days_before_year yoe = 365 * yoe + yoe / 4 - yoe / 100

pub no_wrap :
    (doe : ℕ)
    → doe < 146097
    → year_of_era doe ≡ (doe - doe / 1460 + doe / 36524 - doe / 146096) / 365
unfolding year_of_era
no_wrap doe h = omega arith

-- The estimate of the year, off by the leap days that `doe / 1460` and the others count.
pub bound :
    (doe y : ℕ) → doe < 146097 → y ≡ (doe - doe / 1460 + doe / 36524 - doe / 146096) / 365 → y < 400
bound doe y h e = omega arith

pub lower :
    (doe y : ℕ)
    → doe < 146097
    → y ≡ (doe - doe / 1460 + doe / 36524 - doe / 146096) / 365
    → 365 * y + y / 4 ≤ doe + y / 100
lower doe y h e = omega arith

pub upper :
    (doe y : ℕ)
    → doe < 146097
    → y ≡ (doe - doe / 1460 + doe / 36524 - doe / 146096) / 365
    → doe + y / 100 ≤ 365 * y + y / 4 + 365
upper doe y h e = omega arith

abbrev pub leap : ℕ → Bool
leap y = (y % 4 == 0) && (not (y % 100 == 0) || (y % 400 == 0))

pub leap_day :
    (doe y : ℕ)
    → doe < 146097
    → y ≡ (doe - doe / 1460 + doe / 36524 - doe / 146096) / 365
    → doe + y / 100 ≡ 365 * y + y / 4 + 365
    → leap (y + 1) ≡ true
leap_day doe y h e f = ground arith

pub split_lem :
    (t : ℕ)
    → split_days (pos t -ℤ pos 62135596800) ≡ (pos (t / 86400) -ℤ pos 719162, pos (t % 86400))
unfolding split_days ◌-ℤ◌ ◌*ℤ◌ ◌+ℤ◌
split_lem t = ground arith

pub era_lem :
    (k : ℕ) → era_of (pos k -ℤ pos 719162) ≡ (pos ((k + 306) / 146097), (k + 306) % 146097)
unfolding era_of ◌-ℤ◌ ◌*ℤ◌ ◌+ℤ◌
era_lem k = ground arith

-- The lengths of the months, January first.
abbrev pub month_length : Bool → ℕ → ℕ
month_length l m =
    if m == 1
    then (if l then 29 else 28)
    else if (m == 3) || (m == 5) || (m == 8) || (m == 10)
    then 30
    else 31

-- The date of day `doy` of a year that begins in March, as month and day of the month.
abbrev pub DateOf : Bool → ℕ → ℕ → ℕ → Type 0
DateOf l doy m d =
    (table_entry l (m - 1) + d
      ≡ (if leb m 2 then doy - 306 else doy + 59 + (if l then 1 else 0)) + 1)
    × (1 ≤ m)
    × (m ≤ 12)
    × (1 ≤ d)
    × (d ≤ (if doy == 365 then 29 else month_length l (m - 1)))
    × (ltb doy 306 ≡ not (leb m 2))

pub month_case :
    (l : Bool) (mp doy : ℕ)
    → (153 * mp + 2) / 5 ≤ doy
    → doy < min 366 ((153 * (mp + 1) + 2) / 5)
    → DateOf l doy (month_of mp) (doy - (153 * mp + 2) / 5 + 1)
unfolding month_of table_entry
month_case l zero doy h1 h2 = ground arith
month_case l (suc zero) doy h1 h2 = ground arith
month_case l (suc (suc zero)) doy h1 h2 = ground arith
month_case l (suc (suc (suc zero))) doy h1 h2 = ground arith
month_case l (suc (suc (suc (suc zero)))) doy h1 h2 = ground arith
month_case l (suc (suc (suc (suc (suc zero))))) doy h1 h2 = ground arith
month_case l (suc (suc (suc (suc (suc (suc zero)))))) doy h1 h2 = ground arith
month_case l (suc (suc (suc (suc (suc (suc (suc zero))))))) doy h1 h2 = ground arith
month_case l (suc (suc (suc (suc (suc (suc (suc (suc zero)))))))) doy h1 h2 = ground arith
month_case l (suc (suc (suc (suc (suc (suc (suc (suc (suc zero))))))))) doy h1 h2 = ground arith
month_case l (suc (suc (suc (suc (suc (suc (suc (suc (suc (suc zero)))))))))) doy h1 h2 =
    ground arith
month_case l (suc (suc (suc (suc (suc (suc (suc (suc (suc (suc (suc zero))))))))))) doy h1 h2 =
    ground arith
month_case l (suc (suc (suc (suc (suc (suc (suc (suc (suc (suc (suc (suc mp)))))))))))) doy h1 h2 =
    ground arith

pub is_leap_year-leap : (y : ℕ) → is_leap_year (pos y) ≡ leap y
unfolding is_leap_year
is_leap_year-leap y = ground arith

-- The days before year `y`, which is 1 or more, since the start of year 1.
abbrev pub days_before : ℕ → ℕ
days_before y = 365 * (y - 1) + (y - 1) / 4 - (y - 1) / 100 + (y - 1) / 400

-- The days of the year before month `m`, January 0.
abbrev pub months_before : Bool → ℕ → ℕ
months_before l zero = 0
months_before l (suc m) = months_before l m + month_length l m

pub table_entry-months_before : (l : Bool) (m : ℕ) → m < 12 → table_entry l m ≡ months_before l m
unfolding table_entry
table_entry-months_before l zero h = ground arith
table_entry-months_before l (suc zero) h = ground arith
table_entry-months_before l (suc (suc zero)) h = ground arith
table_entry-months_before l (suc (suc (suc zero))) h = ground arith
table_entry-months_before l (suc (suc (suc (suc zero)))) h = ground arith
table_entry-months_before l (suc (suc (suc (suc (suc zero))))) h = ground arith
table_entry-months_before l (suc (suc (suc (suc (suc (suc zero)))))) h = ground arith
table_entry-months_before l (suc (suc (suc (suc (suc (suc (suc zero))))))) h = ground arith
table_entry-months_before l (suc (suc (suc (suc (suc (suc (suc (suc zero)))))))) h = ground arith
table_entry-months_before l (suc (suc (suc (suc (suc (suc (suc (suc (suc zero))))))))) h =
    ground arith
table_entry-months_before l (suc (suc (suc (suc (suc (suc (suc (suc (suc (suc zero)))))))))) h =
    ground arith
table_entry-months_before l (suc (suc (suc (suc (suc (suc (suc (suc (suc (suc (suc zero)))))))))))
      h =
    ground arith
table_entry-months_before l
      (suc (suc (suc (suc (suc (suc (suc (suc (suc (suc (suc (suc m)))))))))))) h =
    ground arith

-- Day `k` since the start of year 1 is day `d` of month `m0` of year `y`, counted from 0 and 1.
abbrev pub IsDate : ℕ → ℕ → ℕ → ℕ → Type 0
IsDate k y m0 d =
    (1 ≤ y)
    × (m0 < 12)
    × (1 ≤ d)
    × (d ≤ month_length (leap y) m0)
    × (k + 1 ≡ days_before y + months_before (leap y) m0 + d)
