-- ===== src/Runtime/Time/Runs.antt =====
-- runtime/cel_time.c: the kernels and the calendar on concrete cells and instants.
use cel_spec_wasm.Prelude.{
  ℕ, ◌+◌, ◌*◌, ◌%◌, ◌-◌, ◌<◌, ◌≡◌, refl, true, false, some, arith, ltb, ◌==◌, if◌then◌else◌, not,
}
use cel_spec_wasm.Prelude.Int.{pos, negsuc, ◌-ℤ◌}
use cel_spec_wasm.Runtime.Value.{duration, timestamp, error, null, Memory, err_overflow}
use cel_spec_wasm.Runtime.Value.Runs.{bump}
use cel_spec_wasm.Runtime.Time.{
  CelDurTs, ArithSpec, of_kind, cel_timestamp, cel_duration, dur_combine, dur_compare_lex,
  run_arith, cel_ts_lt, cel_ts_le, cel_ts_gt, cel_ts_ge,
}
use cel_spec_wasm.Runtime.Time.Combine.{is_normal, IsSum, dur_combine_exact, dur_compare_lex_exact}
use cel_spec_wasm.Runtime.Time.Kernels.{
  in_range, left_instant, right_instant, bit, run_arith_exact, ts_compare_exact,
}
use cel_spec_wasm.Runtime.Time.Civil.{cel_civil_from_seconds}
use cel_spec_wasm.Runtime.Time.Civil.Calendar.{IsDate, months_before, leap}
use cel_spec_wasm.Runtime.Time.Civil.Dates.{civil-IsDate, civil_clock}

-- -1.5 seconds and 2.75 seconds.
abbrev before : CelDurTs
before = record { seconds = negsuc 0; nanos = negsuc 499999999 }

abbrev after : CelDurTs
after = record { seconds = pos 2; nanos = pos 750000000 }

dur_combine_exact_example :
    (r : CelDurTs) × (dur_combine before after false ≡ some r)
    × (is_normal r ≡ true)
    × IsSum r before after false
dur_combine_exact_example = dur_combine_exact before after false refl refl refl refl

dur_compare_lex_exact_example : dur_compare_lex before after ≡ negsuc 0
dur_compare_lex_exact_example = dur_compare_lex_exact before after refl refl

abbrev moments : Memory ℕ
moments = record {
  cell = λ x.
      if x == 1
      then timestamp (negsuc 0) (negsuc 499999999)
      else if x == 2
      then duration (pos 2) (pos 750000000)
      else if x == 3
      then timestamp (pos 9) (pos 0)
      else null;
  heap = record { word = λ _. 0; arena = 64 };
}

abbrev later : ArithSpec
later = record {
  want_a = cel_timestamp;
  want_b = cel_duration;
  subtract = false;
  result_kind = cel_timestamp;
}

run_arith_exact_example :
    (r : CelDurTs) × (is_normal r ≡ true)
    × IsSum r before after false
    × ((run_arith bump later moments 4 1 2).cell 4
        ≡ (if in_range cel_timestamp r then of_kind cel_timestamp r else error err_overflow))
run_arith_exact_example =
    run_arith_exact bump moments 4 1 2 later refl refl refl refl refl refl refl

ts_compare_exact_example :
    ((cel_ts_lt bump moments 4 1 3).cell 4
      ≡ bit bump moments 4 1 3
          (ltb (left_instant bump moments 4 1 3) (right_instant bump moments 4 1 3)))
    × ((cel_ts_le bump moments 4 1 3).cell 4
        ≡ bit bump moments 4 1 3
            (not (ltb (right_instant bump moments 4 1 3) (left_instant bump moments 4 1 3))))
    × ((cel_ts_gt bump moments 4 1 3).cell 4
        ≡ bit bump moments 4 1 3
            (ltb (right_instant bump moments 4 1 3) (left_instant bump moments 4 1 3)))
    × ((cel_ts_ge bump moments 4 1 3).cell 4
        ≡ bit bump moments 4 1 3
            (not (ltb (left_instant bump moments 4 1 3) (right_instant bump moments 4 1 3))))
ts_compare_exact_example = ts_compare_exact bump moments 4 1 3 refl refl refl refl

-- Noon of 29 February 2000.
abbrev noon : ℕ
noon = 62135596800 + 951825600

civil-IsDate_example :
    let c = cel_civil_from_seconds (pos noon -ℤ pos 62135596800) in
    (y : ℕ) × (m0 : ℕ) × (d : ℕ) × (c.year ≡ pos y)
    × (c.month_0 ≡ pos m0)
    × (c.day_1 ≡ pos d)
    × (c.day_0 ≡ pos (d - 1))
    × (c.day_of_year ≡ pos (months_before (leap y) m0 + d - 1))
    × IsDate 730178 y m0 d
civil-IsDate_example = civil-IsDate noon (omega arith)

civil_clock_example :
    let c = cel_civil_from_seconds (pos noon -ℤ pos 62135596800) in
    (h : ℕ) × (mi : ℕ) × (s : ℕ) × (c.hour ≡ pos h)
    × (c.minute ≡ pos mi)
    × (c.second ≡ pos s)
    × (h < 24)
    × (mi < 60)
    × (s < 60)
    × (noon % 86400 ≡ (h * 60 + mi) * 60 + s)
    × (c.day_of_week ≡ pos 2)
civil_clock_example = civil_clock noon (omega arith)
