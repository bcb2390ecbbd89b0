-- ===== src/Runtime/Time/Kernels.antt =====
-- runtime/cel_time.c: the arithmetic and comparison kernels of durations and timestamps.
use cel_spec_wasm.Prelude.{
  ℕ, ◌+◌, ◌≡◌, refl, ap, ◌∙◌, Bool, true, ◌&&◌, ◌||◌, not, none, some, arith, ltb, ◌==◌,
  if◌then◌else◌,
}
use cel_spec_wasm.Prelude.Int.{ℤ}
use cel_spec_wasm.Runtime.Value.{
  CelValue, bool, error, Arena, Memory, kind, err_overflow, absorb_3vl_binary, require_kinds,
}
use cel_spec_wasm.Runtime.Time.{
  CelDurTs, payload_dur, ArithSpec, of_kind, cel_duration, cel_timestamp, timestamp_in_range,
  arith_duration_in_range, run_arith, run_compare, require_kinds_2, arith_result, dur_compare_lex,
  pred_lt, pred_le, pred_gt, pred_ge, cel_ts_lt, cel_ts_le, cel_ts_gt, cel_ts_ge,
}
use cel_spec_wasm.Runtime.Time.Combine.{
  is_normal, small_seconds, plus_part, minus_part, IsSum, dur_combine_exact, dur_compare_lex_exact,
}

-- A duration or a timestamp.
abbrev pub is_time : ℕ → Bool
is_time k = (k == cel_duration) || (k == cel_timestamp)

-- The range that a result of this kind has to lie in.
abbrev pub in_range : ℕ → CelDurTs → Bool
in_range k r =
    if k == cel_timestamp
    then timestamp_in_range r.seconds r.nanos
    else if k == cel_duration
    then arith_duration_in_range r.seconds r.nanos
    else true

module _ (ar : Arena) (m : Memory ar.State) (out a b : ℕ) where
  no_absorption :
      (want_a want_b : ℕ)
      → kind (m.cell a) ≡ want_a
      → kind (m.cell b) ≡ want_b
      → (is_time want_a && is_time want_b) ≡ true
      → absorb_3vl_binary ar m out a b ≡ none
  unfolding absorb_3vl_binary
  no_absorption want_a want_b ea eb h = ground arith

  right_kinds :
      (want_a want_b : ℕ)
      → kind (m.cell a) ≡ want_a
      → kind (m.cell b) ≡ want_b
      → require_kinds_2 ar m out a b want_a want_b ≡ none
  unfolding require_kinds_2
  right_kinds want_a want_b ea eb = ground arith

  arith_result-cell :
      (spec : ArithSpec) (r : CelDurTs)
      → (arith_result ar m out spec (some r)).cell out
        ≡ (if in_range spec.result_kind r then of_kind spec.result_kind r else error err_overflow)
  unfolding arith_result
  arith_result-cell spec r = ground arith

  -- On a duration or timestamp in each operand, both normal and with seconds below 2^62, an
  -- arithmetic kernel writes the normal payload of the exact sum or difference in nanoseconds when
  -- it lies in the range of the result's kind, and the overflow error otherwise.
  pub run_arith_exact :
      (spec : ArithSpec)
      → kind (m.cell a) ≡ spec.want_a
      → kind (m.cell b) ≡ spec.want_b
      → (is_time spec.want_a && is_time spec.want_b) ≡ true
      → is_normal (payload_dur (m.cell a)) ≡ true
      → is_normal (payload_dur (m.cell b)) ≡ true
      → small_seconds (payload_dur (m.cell a)) ≡ true
      → small_seconds (payload_dur (m.cell b)) ≡ true
      → (r : CelDurTs) × (is_normal r ≡ true)
        × IsSum r (payload_dur (m.cell a)) (payload_dur (m.cell b)) spec.subtract
        × ((run_arith ar spec m out a b).cell out ≡ (
            if in_range spec.result_kind r then of_kind spec.result_kind r else error err_overflow))
  unfolding run_arith
  run_arith_exact spec ea eb times na nb sa sb =
      let free = no_absorption spec.want_a spec.want_b ea eb times in
      let right = right_kinds spec.want_a spec.want_b ea eb in
      let (r, e, normal, sum) = dur_combine_exact _ _ spec.subtract na nb sa sb in
      (r, normal, sum, rw (free, run_arith) (rw (right, e) (arith_result-cell spec r)))

  compare_cell :
      (want : ℕ) (pred : ℤ → Bool)
      → kind (m.cell a) ≡ want
      → kind (m.cell b) ≡ want
      → is_time want ≡ true
      → (run_compare ar want pred m out a b).cell out
        ≡ bool (
            if pred (dur_compare_lex (payload_dur (m.cell a)) (payload_dur (m.cell b)))
            then 1
            else 0)
  unfolding run_compare require_kinds absorb_3vl_binary
  compare_cell want pred ea eb h = ground arith

  -- The instants of the operands in nanoseconds, moved up so that both are natural numbers.
  abbrev pub left_instant : ℕ
  left_instant = plus_part (payload_dur (m.cell a)) + minus_part (payload_dur (m.cell b))

  abbrev pub right_instant : ℕ
  right_instant = plus_part (payload_dur (m.cell b)) + minus_part (payload_dur (m.cell a))

  abbrev pub bit : Bool → CelValue
  bit t = bool (if t then 1 else 0)

  -- On two timestamps with normal payloads the four comparison kernels write how their instants
  -- compare.
  pub ts_compare_exact :
      kind (m.cell a) ≡ cel_timestamp
      → kind (m.cell b) ≡ cel_timestamp
      → is_normal (payload_dur (m.cell a)) ≡ true
      → is_normal (payload_dur (m.cell b)) ≡ true
      → ((cel_ts_lt ar m out a b).cell out ≡ bit (ltb left_instant right_instant))
        × ((cel_ts_le ar m out a b).cell out ≡ bit (not (ltb right_instant left_instant)))
        × ((cel_ts_gt ar m out a b).cell out ≡ bit (ltb right_instant left_instant))
        × ((cel_ts_ge ar m out a b).cell out ≡ bit (not (ltb left_instant right_instant)))
  unfolding cel_ts_lt cel_ts_le cel_ts_gt cel_ts_ge
  ts_compare_exact ea eb na nb =
      let e = dur_compare_lex_exact (payload_dur (m.cell a)) (payload_dur (m.cell b)) na nb in
      (
        compare_cell cel_timestamp pred_lt ea eb refl ∙ ap (λ c. bit (pred_lt c)) e ∙ ground arith,
        compare_cell cel_timestamp pred_le ea eb refl ∙ ap (λ c. bit (pred_le c)) e ∙ ground arith,
        compare_cell cel_timestamp pred_gt ea eb refl ∙ ap (λ c. bit (pred_gt c)) e ∙ ground arith,
        compare_cell cel_timestamp pred_ge ea eb refl ∙ ap (λ c. bit (pred_ge c)) e ∙ ground arith,
      )
