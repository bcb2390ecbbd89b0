-- ===== src/Runtime/Time/Civil.antt =====
-- runtime/cel_time.c: the civil calendar of an instant and the accessors of timestamps and
-- durations. The unsigned variables of the code are numbers below 2^32, with its wrap-around.
pub mod Calendar
pub mod Dates
use cel_spec_wasm.Prelude.{
  ℕ, ◌+◌, ◌-◌, ◌*◌, ◌/◌, ◌%◌, ◌^◌, ◌≡◌, Bool, true, false, ◌&&◌, ◌||◌, not, Option, none, some,
  List, [], ◌∷◌, ltb, leb, ◌==◌, if◌then◌else◌, get_elem?,
}
use cel_spec_wasm.Prelude.Int.{
  ℤ, pos, negsuc, ◌+ℤ◌, ◌-ℤ◌, ◌*ℤ◌, ltb_ℤ, eqb_ℤ, quot, rem, magnitude, pos_part, neg_part,
}
use cel_spec_wasm.Runtime.Value.{
  CelValue, int, duration, timestamp, Arena, Memory, payload_i, cel_int, err_overflow,
}
use cel_spec_wasm.Runtime.Arith.{Outcome, value, fails, unary}
use cel_spec_wasm.Runtime.Time.{
  payload_dur, cel_duration, cel_timestamp, timestamp_in_range, duration_in_range,
}

pub record CelCivil : Type 0 where
  pub year : ℤ
  pub month_0 : ℤ
  pub day_1 : ℤ
  pub day_0 : ℤ
  pub hour : ℤ
  pub minute : ℤ
  pub second : ℤ
  pub day_of_year : ℤ
  pub day_of_week : ℤ

abbrev pub days_before_month : List ℕ
days_before_month = 0 ∷ 31 ∷ 59 ∷ 90 ∷ 120 ∷ 151 ∷ 181 ∷ 212 ∷ 243 ∷ 273 ∷ 304 ∷ 334 ∷ []

abbrev pub days_before_month_leap : List ℕ
days_before_month_leap = 0 ∷ 31 ∷ 60 ∷ 91 ∷ 121 ∷ 152 ∷ 182 ∷ 213 ∷ 244 ∷ 274 ∷ 305 ∷ 335 ∷ []

pub is_leap_year : ℤ → Bool
is_leap_year year =
    if not (eqb_ℤ (rem year (pos 4)) (pos 0))
    then false
    else if not (eqb_ℤ (rem year (pos 100)) (pos 0))
    then true
    else eqb_ℤ (rem year (pos 400)) (pos 0)

-- Days and the seconds of the day, which are not negative.
pub split_days : ℤ → ℤ × ℤ
split_days epoch_seconds =
    let d = quot epoch_seconds (pos 86400) in
    let r = epoch_seconds -ℤ d *ℤ pos 86400 in
    if ltb_ℤ r (pos 0) then (d -ℤ pos 1, r +ℤ pos 86400) else (d, r)

abbrev pub u32_sub : ℕ → ℕ → ℕ
u32_sub a b = (a + 2 ^ 32 - b) % 2 ^ 32

-- The era, a period of 400 years from a March on, and the day within it.
pub era_of : ℤ → ℤ × ℕ
era_of days =
    let z = days +ℤ pos 719468 in
    let era = quot (if ltb_ℤ z (pos 0) then z -ℤ pos 146096 else z) (pos 146097) in
    (era, magnitude (z -ℤ era *ℤ pos 146097))

pub year_of_era : ℕ → ℕ
year_of_era doe = u32_sub (u32_sub doe (doe / 1460) + doe / 36524) (doe / 146096) / 365

pub day_of_march_year : ℕ → ℕ → ℕ
day_of_march_year doe yoe = u32_sub doe (u32_sub (365 * yoe + yoe / 4) (yoe / 100))

pub march_month : ℕ → ℕ
march_month doy = (5 * doy + 2) / 153

pub day_of_month : ℕ → ℕ → ℕ
day_of_month doy mp = u32_sub doy ((153 * mp + 2) / 5) + 1

pub month_of : ℕ → ℕ
month_of mp = if ltb mp 10 then mp + 3 else mp - 9

pub table_entry : Bool → ℕ → ℕ
table_entry leap m =
    elim (get_elem? (if leap then days_before_month_leap else days_before_month) m) [
      | none ↦ 0
      | some days ↦ days
    ]

-- The fields, from the era and its day, the day and the seconds of the day.
pub civil_of : ℤ × ℕ → ℤ × ℤ → CelCivil
civil_of (era, doe) (days, day_secs) =
    let yoe = year_of_era doe in
    let doy = day_of_march_year doe yoe in
    let mp = march_month doy in
    let d = day_of_month doy mp in
    let m = month_of mp in
    let y = pos yoe +ℤ era *ℤ pos 400 +ℤ (if leb m 2 then pos 1 else pos 0) in
    record {
      year = y;
      month_0 = pos (m - 1);
      day_1 = pos d;
      day_0 = pos (d - 1);
      hour = quot day_secs (pos 3600);
      minute = quot (rem day_secs (pos 3600)) (pos 60);
      second = rem day_secs (pos 60);
      day_of_year = pos (table_entry (is_leap_year y) (m - 1) + d - 1);
      day_of_week = rem (rem days (pos 7) +ℤ pos 4 +ℤ pos 7) (pos 7);
    }

pub cel_civil_from_seconds : ℤ → CelCivil
cel_civil_from_seconds epoch_seconds =
    let days = split_days epoch_seconds in civil_of (era_of (days.0)) days

module _ (ar : Arena) where
  pub ts_accessor : (CelCivil → ℤ) → Memory ar.State → ℕ → ℕ → Memory ar.State
  ts_accessor projection =
      unary ar cel_timestamp
        (λ v. value (int (projection (cel_civil_from_seconds (payload_dur v).seconds))))

  pub duration_accessor : (ℤ → ℤ → ℤ) → Memory ar.State → ℕ → ℕ → Memory ar.State
  duration_accessor projection =
      unary ar cel_duration
        (λ v. value (int (projection (payload_dur v).seconds (payload_dur v).nanos)))

  pub cel_ts_year_utc : Memory ar.State → ℕ → ℕ → Memory ar.State
  cel_ts_year_utc = ts_accessor (λ c. c.year)

  pub cel_ts_month_utc : Memory ar.State → ℕ → ℕ → Memory ar.State
  cel_ts_month_utc = ts_accessor (λ c. c.month_0)

  pub cel_ts_day_of_month_1_utc : Memory ar.State → ℕ → ℕ → Memory ar.State
  cel_ts_day_of_month_1_utc = ts_accessor (λ c. c.day_1)

  pub cel_ts_day_of_month_utc : Memory ar.State → ℕ → ℕ → Memory ar.State
  cel_ts_day_of_month_utc = ts_accessor (λ c. c.day_0)

  pub cel_ts_day_of_year_utc : Memory ar.State → ℕ → ℕ → Memory ar.State
  cel_ts_day_of_year_utc = ts_accessor (λ c. c.day_of_year)

  pub cel_ts_day_of_week_utc : Memory ar.State → ℕ → ℕ → Memory ar.State
  cel_ts_day_of_week_utc = ts_accessor (λ c. c.day_of_week)

  pub cel_ts_hours_utc : Memory ar.State → ℕ → ℕ → Memory ar.State
  cel_ts_hours_utc = ts_accessor (λ c. c.hour)

  pub cel_ts_minutes_utc : Memory ar.State → ℕ → ℕ → Memory ar.State
  cel_ts_minutes_utc = ts_accessor (λ c. c.minute)

  pub cel_ts_seconds_utc : Memory ar.State → ℕ → ℕ → Memory ar.State
  cel_ts_seconds_utc = ts_accessor (λ c. c.second)

  pub cel_ts_milliseconds_utc : Memory ar.State → ℕ → ℕ → Memory ar.State
  cel_ts_milliseconds_utc = unary ar cel_timestamp (λ v.
      let n = (payload_dur v).nanos in
      value (int (quot (if ltb_ℤ n (pos 0) then n +ℤ pos 1000000000 else n) (pos 1000000))))

  pub cel_dur_hours : Memory ar.State → ℕ → ℕ → Memory ar.State
  cel_dur_hours = duration_accessor (λ s _. quot s (pos 3600))

  pub cel_dur_minutes : Memory ar.State → ℕ → ℕ → Memory ar.State
  cel_dur_minutes = duration_accessor (λ s _. quot s (pos 60))

  pub cel_dur_seconds : Memory ar.State → ℕ → ℕ → Memory ar.State
  cel_dur_seconds = duration_accessor (λ s _. s)

  pub cel_dur_milliseconds : Memory ar.State → ℕ → ℕ → Memory ar.State
  cel_dur_milliseconds = duration_accessor (λ _ n. quot n (pos 1000000))

  pub cel_ts_to_int : Memory ar.State → ℕ → ℕ → Memory ar.State
  cel_ts_to_int = unary ar cel_timestamp (λ v. value (int (payload_dur v).seconds))

  pub cel_dur_to_int : Memory ar.State → ℕ → ℕ → Memory ar.State
  cel_dur_to_int = duration_accessor (λ s _. s)

  pub cel_int_to_ts : Memory ar.State → ℕ → ℕ → Memory ar.State
  cel_int_to_ts = unary ar cel_int (λ v.
      let s = payload_i v in
      if not (timestamp_in_range s (pos 0))
      then fails err_overflow
      else value (timestamp s (pos 0)))

  pub cel_int_to_dur : Memory ar.State → ℕ → ℕ → Memory ar.State
  cel_int_to_dur = unary ar cel_int (λ v.
      let s = payload_i v in
      if not (duration_in_range s (pos 0)) then fails err_overflow else value (duration s (pos 0)))
