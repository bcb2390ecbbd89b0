-- ===== src/Runtime/Time/Civil/Dates.antt =====
-- runtime/cel_time.c: the date and the clock of an instant.
use mathlib.Core.Path.{subst}
use cel_spec_wasm.Prelude.{
  ℕ, ◌+◌, ◌-◌, ◌*◌, ◌/◌, ◌%◌, ◌^◌, ◌<◌, ◌≤◌, ◌≡◌, arith, leb, ◌==◌, if◌then◌else◌, Bool, true,
  false, refl, ap, sym, ◌∙◌, Bool-cases, inl, inr,
}
use cel_spec_wasm.Prelude.Int.{pos, ◌+ℤ◌, ◌-ℤ◌, ◌*ℤ◌, quot, rem}
use cel_spec_wasm.Runtime.Time.Civil.{
  year_of_era, day_of_march_year, march_month, day_of_month, month_of, table_entry, is_leap_year,
  era_of, civil_of, cel_civil_from_seconds,
}
use cel_spec_wasm.Runtime.Time.Civil.Calendar.{
  leap, leap_day, no_wrap, bound, lower, upper, split_lem, era_lem, month_length, DateOf,
  month_case, is_leap_year-leap, days_before, months_before, table_entry-months_before, IsDate,
}

-- The date of day `k`, by the steps of the code.
module _ (k : ℕ) where
  abbrev doe : ℕ
  doe = (k + 306) % 146097

  abbrev yoe : ℕ
  yoe = year_of_era doe

  abbrev doy : ℕ
  doy = day_of_march_year doe yoe

  abbrev month : ℕ
  month = month_of (march_month doy)

  abbrev year_number : ℕ
  year_number = yoe + (k + 306) / 146097 * 400 + (if leb month 2 then 1 else 0)

  abbrev day : ℕ
  day = day_of_month doy (march_month doy)

  day_lem : (doy + (365 * yoe + yoe / 4) ≡ doe + yoe / 100) × (doy < 366) × (yoe < 400)
  unfolding day_of_march_year
  day_lem =
      let e = no_wrap doe (omega arith) in
      let lo = lower doe yoe (omega arith) e in
      let hi = upper doe yoe (omega arith) e in
      let y = bound doe yoe (omega arith) e in
      (omega (arith, lo, hi, y), omega (arith, lo, hi, y), y)

  date_lem : (l : Bool) → DateOf l doy month day
  unfolding day_of_month march_month
  date_lem l =
      let mp = (5 * doy + 2) / 153 in
      let (_, small, _) = day_lem in
      let e : (doy + 2 ^ 32 - (153 * mp + 2) / 5) % 2 ^ 32 + 1 ≡ doy - (153 * mp + 2) / 5 + 1 =
        omega (arith, small) in
      rw e (month_case l mp doy (omega (arith, small)) (omega (arith, small)))

  leap_date : doy ≡ 365 → leap (yoe + 1) ≡ true
  leap_date e =
      let (sum, _, _) = day_lem in
      leap_day doe yoe (omega arith) (no_wrap doe (omega arith)) (omega (arith, sum, e))

leap_era : (y e : ℕ) → leap (y + e * 400) ≡ leap y
leap_era y e =
    let by_4 : (y + e * 400) % 4 ≡ y % 4 = omega arith in
    let by_100 : (y + e * 400) % 100 ≡ y % 100 = omega arith in
    let by_400 : (y + e * 400) % 400 ≡ y % 400 = omega arith in rw (by_4, by_100, by_400) refl

-- From the day of a March year to the day since the start of year 1.
winter_days :
    (k y e doe doy rest : ℕ)
    → k + 306 ≡ e * 146097 + doe
    → doy + (365 * y + y / 4) ≡ doe + y / 100
    → y < 400
    → 306 ≤ doy
    → rest ≡ doy - 306 + 1
    → k + 1 ≡ days_before (y + e * 400 + 1) + rest
winter_days k y e doe doy rest h1 h2 h3 h4 h5 = omega arith

year_step :
    (z : ℕ)
    → 1 ≤ z
    → days_before z + (if leap z then 1 else 0) + 365 ≡ 365 * z + z / 4 - z / 100 + z / 400
year_step z h = ground arith

summer_days :
    (k y e doe doy rest : ℕ)
    → k + 306 ≡ e * 146097 + doe
    → doy + (365 * y + y / 4) ≡ doe + y / 100
    → y < 400
    → 1 ≤ y + e * 400
    → rest ≡ doy + 59 + (if leap (y + e * 400) then 1 else 0) + 1
    → k + 1 ≡ days_before (y + e * 400) + rest
summer_days k y e doe doy rest h1 h2 h3 h4 h5 = omega (arith, year_step (y + e * 400) h4)

winter_bound :
    (l : Bool) (doy m d : ℕ)
    → 1 ≤ m
    → leb m 2 ≡ true
    → d ≤ (if doy == 365 then 29 else month_length l (m - 1))
    → (doy ≡ 365 → l ≡ true)
    → d ≤ month_length l (m - 1)
winter_bound l doy m d h1 h2 h3 h4 = ground arith

summer_bound :
    (l : Bool) (doy m d : ℕ)
    → doy < 306
    → d ≤ (if doy == 365 then 29 else month_length l (m - 1))
    → d ≤ month_length l (m - 1)
summer_bound l doy m d h1 h2 = ground arith

-- The date of the code, for day `k` since the start of year 1.
winter-IsDate :
    (k : ℕ)
    → leb (month k) 2 ≡ true
    → IsDate k (yoe k + (k + 306) / 146097 * 400 + 1) (month k - 1) (day k)
winter-IsDate k winter =
    let e = (k + 306) / 146097 in
    let l = leap (yoe k + e * 400 + 1) in
    let (sum, small, y) = day_lem k in
    let (table, m1, m12, d1, dn, season) = date_lem k l in
    let named = table_entry-months_before l (month k - 1) (omega arith) in
    let enough : 306 ≤ doy k = ground (arith, season, winter) in
    let rest : months_before l (month k - 1) + day k ≡ doy k - 306 + 1 =
      ap (λ t. t + day k) (sym named) ∙ table ∙ rw winter refl in
    let days =
      winter_days k (yoe k) e (doe k) (doy k) (months_before l (month k - 1) + day k) (omega arith)
        sum y enough rest in
    let leaps : doy k ≡ 365 → l ≡ true = λ h.
      let e' : yoe k + e * 400 + 1 ≡ yoe k + 1 + e * 400 = omega arith in
      ap leap e' ∙ leap_era (yoe k + 1) e ∙ leap_date k h in
    (
      omega arith,
      omega arith,
      d1,
      winter_bound l (doy k) (month k) (day k) m1 winter dn leaps,
      omega (arith, days),
    )

summer-IsDate :
    (k : ℕ)
    → leb (month k) 2 ≡ false
    → IsDate k (yoe k + (k + 306) / 146097 * 400) (month k - 1) (day k)
summer-IsDate k summer =
    let e = (k + 306) / 146097 in
    let l = leap (yoe k + e * 400) in
    let (sum, small, y) = day_lem k in
    let (table, m1, m12, d1, dn, season) = date_lem k l in
    let named = table_entry-months_before l (month k - 1) (omega arith) in
    let early : doy k < 306 = ground (arith, season, summer) in
    let rest : months_before l (month k - 1) + day k ≡ doy k + 59 + (if l then 1 else 0) + 1 =
      ap (λ t. t + day k) (sym named) ∙ table ∙ rw summer refl in
    let positive : 1 ≤ yoe k + e * 400 = omega (arith, sum, early) in
    let days =
      summer_days k (yoe k) e (doe k) (doy k) (months_before l (month k - 1) + day k) (omega arith)
        sum y positive rest in
    (
      positive,
      omega arith,
      d1,
      summer_bound l (doy k) (month k) (day k) early dn,
      omega (arith, days),
    )

IsDate-exact : (k : ℕ) → IsDate k (year_number k) (month k - 1) (day k)
IsDate-exact k = elim (Bool-cases (leb (month k) 2)) [
  | inl winter ↦
      let e : year_number k ≡ yoe k + (k + 306) / 146097 * 400 + 1 = rw winter refl in
      subst (λ y. IsDate k y (month k - 1) (day k)) (sym e) (winter-IsDate k winter)
  | inr summer ↦
      let e : year_number k ≡ yoe k + (k + 306) / 146097 * 400 = ground (arith, summer) in
      subst (λ y. IsDate k y (month k - 1) (day k)) (sym e) (summer-IsDate k summer)
]

civil_lem :
    (t : ℕ)
    → cel_civil_from_seconds (pos t -ℤ pos 62135596800)
      ≡ civil_of
          (pos ((t / 86400 + 306) / 146097), (t / 86400 + 306) % 146097)
          (pos (t / 86400) -ℤ pos 719162, pos (t % 86400))
unfolding cel_civil_from_seconds
civil_lem t =
    ap (λ p. civil_of (era_of (p.0)) p) (split_lem t)
    ∙ ap (λ e. civil_of e (pos (t / 86400) -ℤ pos 719162, pos (t % 86400))) (era_lem (t / 86400))

year_field :
    (n e : ℕ) (b : Bool)
    → pos n +ℤ pos e *ℤ pos 400 +ℤ (if b then pos 1 else pos 0)
      ≡ pos (n + e * 400 + (if b then 1 else 0))
unfolding ◌+ℤ◌ ◌*ℤ◌
year_field n e true = ground arith
year_field n e false = ground arith

week_lem :
    (k : ℕ) → rem (rem (pos k -ℤ pos 719162) (pos 7) +ℤ pos 4 +ℤ pos 7) (pos 7) ≡ pos ((k + 1) % 7)
unfolding ◌+ℤ◌ ◌-ℤ◌
week_lem k = ground arith

clock_lem :
    (s : ℕ)
    → (quot (pos s) (pos 3600) ≡ pos (s / 3600))
      × (quot (rem (pos s) (pos 3600)) (pos 60) ≡ pos (s % 3600 / 60))
      × (rem (pos s) (pos 60) ≡ pos (s % 60))
clock_lem s = (refl, refl, refl)

-- An instant of the range of timestamps, `t` seconds after the start of year 1, gets the date of
-- its day in the proleptic Gregorian calendar, months and days of the year counted from 0.
pub civil-IsDate :
    (t : ℕ)
    → t < 315537897600
    → let c = cel_civil_from_seconds (pos t -ℤ pos 62135596800) in
      (y : ℕ) × (m0 : ℕ) × (d : ℕ) × (c.year ≡ pos y)
      × (c.month_0 ≡ pos m0)
      × (c.day_1 ≡ pos d)
      × (c.day_0 ≡ pos (d - 1))
      × (c.day_of_year ≡ pos (months_before (leap y) m0 + d - 1))
      × IsDate (t / 86400) y m0 d
unfolding civil_of
civil-IsDate t h =
    let k = t / 86400 in
    let y = year_number k in
    let year = year_field (yoe k) ((k + 306) / 146097) (leb (month k) 2) in
    let dated = IsDate-exact k in
    let named = table_entry-months_before (leap y) (month k - 1) (dated.1) in
    (
      y,
      month k - 1,
      day k,
      ap (λ c. c.year) (civil_lem t) ∙ year,
      ap (λ c. c.month_0) (civil_lem t),
      ap (λ c. c.day_1) (civil_lem t),
      ap (λ c. c.day_0) (civil_lem t),
      ap (λ c. c.day_of_year) (civil_lem t)
          ∙ ap (λ z. pos (table_entry (is_leap_year z) (month k - 1) + day k - 1)) year
          ∙ ap (λ l. pos (table_entry l (month k - 1) + day k - 1)) (is_leap_year-leap y)
          ∙ ap (λ n. pos (n + day k - 1)) named,
      dated,
    )

-- The same instant gets the hour, minute and second of its day, and the day of the week from
-- Sunday, counted on from the Monday that began year 1.
pub civil_clock :
    (t : ℕ)
    → t < 315537897600
    → let c = cel_civil_from_seconds (pos t -ℤ pos 62135596800) in
      (h : ℕ) × (mi : ℕ) × (s : ℕ) × (c.hour ≡ pos h)
      × (c.minute ≡ pos mi)
      × (c.second ≡ pos s)
      × (h < 24)
      × (mi < 60)
      × (s < 60)
      × (t % 86400 ≡ (h * 60 + mi) * 60 + s)
      × (c.day_of_week ≡ pos ((t / 86400 + 1) % 7))
unfolding civil_of
civil_clock t h =
    let k = t % 86400 in
    (
      k / 3600,
      k % 3600 / 60,
      k % 60,
      ap (λ c. c.hour) (civil_lem t),
      ap (λ c. c.minute) (civil_lem t),
      ap (λ c. c.second) (civil_lem t),
      omega arith,
      omega arith,
      omega arith,
      omega arith,
      ap (λ c. c.day_of_week) (civil_lem t) ∙ week_lem (t / 86400),
    )
