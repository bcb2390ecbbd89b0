-- ===== src/Runtime/Time.antt =====
-- runtime/cel_time.c: arithmetic, order and accessors of durations and timestamps. A payload is a
-- pair of seconds (an int64_t) and nanoseconds (an int32_t) as integers in their ranges.
pub mod Combine
pub mod Kernels
pub mod Civil
mod Runs
use cel_spec_wasm.Prelude.{
  ℕ, ◌+◌, ◌-◌, ◌*◌, ◌^◌, ◌≡◌, Bool, true, false, ◌&&◌, ◌||◌, not, Option, none, some, ltb, leb,
  ◌==◌, if◌then◌else◌,
}
use cel_spec_wasm.Prelude.Int.{ℤ, pos, negsuc, ◌+ℤ◌, ◌-ℤ◌, ltb_ℤ, eqb_ℤ, quot, pos_part, neg_part}
use cel_spec_wasm.Runtime.Value.{
  CelValue, int, duration, timestamp, Arena, Memory, kind, cel_int, payload_i, write, write_bool,
  poison, err_type_mismatch, err_overflow, absorb_3vl_binary, absorb_3vl_unary, require_kinds,
}
use cel_spec_wasm.Runtime.Arith.{Outcome, value, fails, unary, add_i64, sub_i64}

abbrev pub cel_duration : ℕ
cel_duration = 12

abbrev pub cel_timestamp : ℕ
cel_timestamp = 13

pub record CelDurTs : Type 0 where
  pub seconds : ℤ
  pub nanos : ℤ

-- The `dur` and `ts` arms lie on the same bytes.
abbrev pub payload_dur : CelValue → CelDurTs
payload_dur (duration s n) = record { seconds = s; nanos = n }
payload_dur (timestamp s n) = record { seconds = s; nanos = n }
payload_dur _ = record { seconds = pos 0; nanos = pos 0 }

abbrev pub nanos_per_sec : ℤ
nanos_per_sec = pos 1000000000

abbrev timestamp_min_seconds : ℤ
timestamp_min_seconds = negsuc (62135596800 - 1)

abbrev timestamp_max_seconds : ℤ
timestamp_max_seconds = pos 253402300799

abbrev duration_min_seconds : ℤ
duration_min_seconds = negsuc (315576000000 - 1)

abbrev duration_max_seconds : ℤ
duration_max_seconds = pos 315576000000

pub payload_in_range : ℤ → ℤ → ℤ → ℤ → Bool
payload_in_range seconds nanos lo hi =
    if ltb_ℤ hi seconds || ltb_ℤ seconds lo
    then false
    else if eqb_ℤ seconds hi && ltb_ℤ (pos 0) nanos
    then false
    else if eqb_ℤ seconds lo && ltb_ℤ nanos (pos 0)
    then false
    else true

pub timestamp_in_range : ℤ → ℤ → Bool
timestamp_in_range seconds nanos =
    if ltb_ℤ timestamp_max_seconds seconds || ltb_ℤ seconds timestamp_min_seconds
    then false
    else if eqb_ℤ seconds timestamp_min_seconds && ltb_ℤ nanos (pos 0)
    then false
    else true

pub duration_in_range : ℤ → ℤ → Bool
unfolding payload_in_range
duration_in_range seconds nanos =
    payload_in_range seconds nanos duration_min_seconds duration_max_seconds

pub arith_duration_in_range : ℤ → ℤ → Bool
arith_duration_in_range seconds nanos =
    if ltb_ℤ (pos 9223372036) seconds || ltb_ℤ seconds (negsuc (9223372036 - 1))
    then false
    else if eqb_ℤ seconds (pos 9223372036) && ltb_ℤ (pos 854775807) nanos
    then false
    else if eqb_ℤ seconds (negsuc (9223372036 - 1)) && ltb_ℤ nanos (negsuc (854775807 - 1))
    then false
    else true

-- The last adjustment of `dur_combine`, which gives both parts the same sign.
pub correlate : ℤ → ℤ → CelDurTs
correlate s n =
    if ltb_ℤ (pos 0) s && ltb_ℤ n (pos 0)
    then record { seconds = s -ℤ pos 1; nanos = n +ℤ nanos_per_sec }
    else if ltb_ℤ s (pos 0) && ltb_ℤ (pos 0) n
    then record { seconds = s +ℤ pos 1; nanos = n -ℤ nanos_per_sec }
    else record { seconds = s; nanos = n }

-- The carry out of the nanoseconds, from the raw sums on.
pub carry_nanos : ℤ → ℤ → Option CelDurTs
unfolding correlate
carry_nanos raw_s raw_n =
    if not (ltb_ℤ raw_n nanos_per_sec)
    then elim (add_i64 raw_s (pos 1)) [
      | none ↦ none
      | some s ↦ some (correlate s (raw_n -ℤ nanos_per_sec))
    ]
    else if not (ltb_ℤ (negsuc (1000000000 - 1)) raw_n)
    then elim (add_i64 raw_s (negsuc 0)) [
      | none ↦ none
      | some s ↦ some (correlate s (raw_n +ℤ nanos_per_sec))
    ]
    else some (correlate raw_s raw_n)

-- `none` is the return value 1.
pub dur_combine : CelDurTs → CelDurTs → Bool → Option CelDurTs
unfolding carry_nanos
dur_combine a b subtract =
    elim (if subtract then sub_i64 a.seconds b.seconds else add_i64 a.seconds b.seconds) [
      | none ↦ none
      | some raw_s ↦ carry_nanos raw_s (if subtract then a.nanos -ℤ b.nanos else a.nanos +ℤ b.nanos)
    ]

pub dur_compare_lex : CelDurTs → CelDurTs → ℤ
dur_compare_lex a b =
    if not (eqb_ℤ a.seconds b.seconds)
    then (if ltb_ℤ a.seconds b.seconds then negsuc 0 else pos 1)
    else if not (eqb_ℤ a.nanos b.nanos)
    then (if ltb_ℤ a.nanos b.nanos then negsuc 0 else pos 1)
    else pos 0

pub record ArithSpec : Type 0 where
  pub want_a : ℕ
  pub want_b : ℕ
  pub subtract : Bool
  pub result_kind : ℕ

-- The value of a kind with this payload; the specs only name the two kinds.
abbrev pub of_kind : ℕ → CelDurTs → CelValue
of_kind k r = if k == cel_timestamp then timestamp r.seconds r.nanos else duration r.seconds r.nanos

abbrev pub pred_lt : ℤ → Bool
pred_lt cmp = ltb_ℤ cmp (pos 0)

abbrev pub pred_le : ℤ → Bool
pred_le cmp = not (ltb_ℤ (pos 0) cmp)

abbrev pub pred_gt : ℤ → Bool
pred_gt cmp = ltb_ℤ (pos 0) cmp

abbrev pub pred_ge : ℤ → Bool
pred_ge cmp = not (ltb_ℤ cmp (pos 0))

module _ (ar : Arena) where
  require_kinds_2 : Memory ar.State → ℕ → ℕ → ℕ → ℕ → ℕ → Option (Memory ar.State)
  require_kinds_2 m out a b want_a want_b =
      if not (kind (m.cell a) == want_a) || not (kind (m.cell b) == want_b)
      then some (poison m out err_type_mismatch)
      else none

  -- What is written once the kinds are right.
  arith_result : Memory ar.State → ℕ → ArithSpec → Option CelDurTs → Memory ar.State
  arith_result m out spec none = poison m out err_overflow
  arith_result m out spec (some r) =
      if (spec.result_kind == cel_timestamp) && not (timestamp_in_range r.seconds r.nanos)
      then poison m out err_overflow
      else if (spec.result_kind == cel_duration) && not (arith_duration_in_range r.seconds r.nanos)
      then poison m out err_overflow
      else write m out (of_kind spec.result_kind r)

  pub run_arith : ArithSpec → Memory ar.State → ℕ → ℕ → ℕ → Memory ar.State
  unfolding require_kinds_2 arith_result
  run_arith spec m out a b = elim (absorb_3vl_binary ar m out a b) [
    | some m' ↦ m'
    | none ↦ elim (require_kinds_2 m out a b spec.want_a spec.want_b) [
      | some m' ↦ m'
      | none ↦
          arith_result m out spec
            (dur_combine (payload_dur (m.cell a)) (payload_dur (m.cell b)) spec.subtract)
    ]
  ]

  pub run_compare : ℕ → (ℤ → Bool) → Memory ar.State → ℕ → ℕ → ℕ → Memory ar.State
  run_compare want pred m out a b = elim (absorb_3vl_binary ar m out a b) [
    | some m' ↦ m'
    | none ↦ elim (require_kinds ar m out a b want) [
      | some m' ↦ m'
      | none ↦
          write_bool m out
            (pred (dur_compare_lex (payload_dur (m.cell a)) (payload_dur (m.cell b))))
    ]
  ]

  pub cel_dur_add : Memory ar.State → ℕ → ℕ → ℕ → Memory ar.State
  cel_dur_add = run_arith (record {
    want_a = cel_duration;
    want_b = cel_duration;
    subtract = false;
    result_kind = cel_duration;
  })

  pub cel_dur_sub : Memory ar.State → ℕ → ℕ → ℕ → Memory ar.State
  cel_dur_sub = run_arith (record {
    want_a = cel_duration;
    want_b = cel_duration;
    subtract = true;
    result_kind = cel_duration;
  })

  pub cel_ts_dur_add : Memory ar.State → ℕ → ℕ → ℕ → Memory ar.State
  cel_ts_dur_add = run_arith (record {
    want_a = cel_timestamp;
    want_b = cel_duration;
    subtract = false;
    result_kind = cel_timestamp;
  })

  pub cel_dur_ts_add : Memory ar.State → ℕ → ℕ → ℕ → Memory ar.State
  cel_dur_ts_add = run_arith (record {
    want_a = cel_duration;
    want_b = cel_timestamp;
    subtract = false;
    result_kind = cel_timestamp;
  })

  pub cel_ts_dur_sub : Memory ar.State → ℕ → ℕ → ℕ → Memory ar.State
  cel_ts_dur_sub = run_arith (record {
    want_a = cel_timestamp;
    want_b = cel_duration;
    subtract = true;
    result_kind = cel_timestamp;
  })

  pub cel_ts_ts_sub : Memory ar.State → ℕ → ℕ → ℕ → Memory ar.State
  cel_ts_ts_sub = run_arith (record {
    want_a = cel_timestamp;
    want_b = cel_timestamp;
    subtract = true;
    result_kind = cel_duration;
  })

  pub cel_dur_lt : Memory ar.State → ℕ → ℕ → ℕ → Memory ar.State
  cel_dur_lt = run_compare cel_duration pred_lt

  pub cel_dur_le : Memory ar.State → ℕ → ℕ → ℕ → Memory ar.State
  cel_dur_le = run_compare cel_duration pred_le

  pub cel_dur_gt : Memory ar.State → ℕ → ℕ → ℕ → Memory ar.State
  cel_dur_gt = run_compare cel_duration pred_gt

  pub cel_dur_ge : Memory ar.State → ℕ → ℕ → ℕ → Memory ar.State
  cel_dur_ge = run_compare cel_duration pred_ge

  pub cel_ts_lt : Memory ar.State → ℕ → ℕ → ℕ → Memory ar.State
  cel_ts_lt = run_compare cel_timestamp pred_lt

  pub cel_ts_le : Memory ar.State → ℕ → ℕ → ℕ → Memory ar.State
  cel_ts_le = run_compare cel_timestamp pred_le

  pub cel_ts_gt : Memory ar.State → ℕ → ℕ → ℕ → Memory ar.State
  cel_ts_gt = run_compare cel_timestamp pred_gt

  pub cel_ts_ge : Memory ar.State → ℕ → ℕ → ℕ → Memory ar.State
  cel_ts_ge = run_compare cel_timestamp pred_ge
