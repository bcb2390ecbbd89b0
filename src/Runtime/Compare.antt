-- ===== src/Runtime/Compare.antt =====
-- runtime/cel_compare.c: comparison within a kind, the ladder over int, uint and double, and the
-- equality of map keys. Doubles are bit patterns; their comparisons and casts are parameters.
pub mod Ladder
pub mod Runs
use cel_spec_wasm.Prelude.{
  ℕ, ◌*◌, ◌+◌, ◌-◌, ◌^◌, ◌≡◌, Bool, true, false, ◌&&◌, ◌||◌, not, Option, none, some, ltb, leb,
  ◌==◌, if◌then◌else◌,
}
use cel_spec_wasm.Prelude.Int.{ℤ, pos, negsuc, ltb_ℤ, eqb_ℤ, is_neg, magnitude, pos_part, neg_part}
use cel_spec_wasm.Runtime.Value.{
  CelValue, bool, int, uint, double, Arena, Memory, kind, cel_bool, cel_int, cel_uint, cel_double,
  payload_b, payload_i, payload_u, payload_d, write_bool, poison, err_type_mismatch,
  absorb_3vl_binary,
}
use cel_spec_wasm.Runtime.Arith.{Outcome, value, binary, int64_min}

pub data CmpResult : Type 0 where
  less : CmpResult
  equal : CmpResult
  greater : CmpResult
  nan_inequal : CmpResult

-- What the hardware does with doubles: the comparisons, and the casts to and from integers.
pub record Doubles : Type 0 where
  pub eq : ℕ → ℕ → Bool
  pub lt : ℕ → ℕ → Bool
  pub le : ℕ → ℕ → Bool
  pub of_int : ℤ → ℕ
  pub of_uint : ℕ → ℕ
  pub to_int : ℕ → ℤ
  pub to_uint : ℕ → ℕ

abbrev outcome_of : Bool → Outcome
outcome_of t = value (bool (if t then 1 else 0))

abbrev pub is_numeric_kind : ℕ → Bool
is_numeric_kind k = (k == cel_int) || (k == cel_uint) || (k == cel_double)

pub cmp_i64 : ℤ → ℤ → CmpResult
cmp_i64 a b = if ltb_ℤ a b then less else if ltb_ℤ b a then greater else equal

pub cmp_u64 : ℕ → ℕ → CmpResult
cmp_u64 a b = if ltb a b then less else if ltb b a then greater else equal

pub cmp_int_vs_uint : ℤ → ℕ → CmpResult
unfolding cmp_u64
cmp_int_vs_uint a b = if is_neg a then less else cmp_u64 (magnitude a) b

pub cmp_flip : CmpResult → CmpResult
cmp_flip less = greater
cmp_flip greater = less
cmp_flip r = r

module _ (dbl : Doubles) where
  pub cmp_double : ℕ → ℕ → CmpResult
  cmp_double a b =
      if not (dbl.eq a a) || not (dbl.eq b b)
      then nan_inequal
      else if dbl.lt a b
      then less
      else if dbl.lt b a
      then greater
      else equal

  pub cmp_int_vs_double : ℤ → ℕ → CmpResult
  cmp_int_vs_double a b =
      if not (dbl.eq b b)
      then nan_inequal
      else if dbl.lt (dbl.of_int (pos (2 ^ 63 - 1))) b
      then less
      else if dbl.lt b (dbl.of_int int64_min)
      then greater
      else cmp_double (dbl.of_int a) b

  -- The bits of 0.0 are 0.
  pub cmp_uint_vs_double : ℕ → ℕ → CmpResult
  cmp_uint_vs_double a b =
      if not (dbl.eq b b)
      then nan_inequal
      else if dbl.lt (dbl.of_uint (2 ^ 64 - 1)) b
      then less
      else if dbl.lt b 0
      then greater
      else cmp_double (dbl.of_uint a) b

  pub numeric_compare_kernel : CelValue → CelValue → CmpResult
  numeric_compare_kernel (int a) (int b) = cmp_i64 a b
  numeric_compare_kernel (uint a) (uint b) = cmp_u64 a b
  numeric_compare_kernel (double a) (double b) = cmp_double a b
  numeric_compare_kernel (int a) (uint b) = cmp_int_vs_uint a b
  numeric_compare_kernel (uint a) (int b) = cmp_flip (cmp_int_vs_uint b a)
  numeric_compare_kernel (int a) (double b) = cmp_int_vs_double a b
  numeric_compare_kernel (double a) (int b) = cmp_flip (cmp_int_vs_double b a)
  numeric_compare_kernel (uint a) (double b) = cmp_uint_vs_double a b
  numeric_compare_kernel (double a) (uint b) = cmp_flip (cmp_uint_vs_double b a)
  numeric_compare_kernel _ _ = nan_inequal

  -- `double_as_int` and `double_as_uint`, with the windows of the lossless casts.
  unfoldable pub double_as_int : ℕ → Option ℤ
  double_as_int d =
      if not (dbl.le (dbl.of_int int64_min) d)
        || not (dbl.le d (dbl.of_int (pos (2 ^ 63 - 1 - 512))))
      then none
      else if not (dbl.eq (dbl.of_int (dbl.to_int d)) d)
      then none
      else some (dbl.to_int d)

  unfoldable pub double_as_uint : ℕ → Option ℕ
  double_as_uint d =
      if not (dbl.le 0 d) || not (dbl.le d (dbl.of_uint (2 ^ 64 - 1 - 1024)))
      then none
      else if not (dbl.eq (dbl.of_uint (dbl.to_uint d)) d)
      then none
      else some (dbl.to_uint d)

  unfoldable pub matches_int : Option ℤ → ℤ → Bool
  matches_int none i = false
  matches_int (some v) i = eqb_ℤ v i

  unfoldable pub matches_uint : Option ℕ → ℕ → Bool
  matches_uint none u = false
  matches_uint (some v) u = v == u

  unfoldable pub double_matches_integer : ℕ → CelValue → Bool
  unfolding matches_int matches_uint
  double_matches_integer d i =
      if kind i == cel_int
      then matches_int (double_as_int d) (payload_i i)
      else matches_uint (double_as_uint d) (payload_u i)

  abbrev pub is_equal : CmpResult → Bool
  is_equal equal = true
  is_equal _ = false

  abbrev is_less : CmpResult → Bool
  is_less less = true
  is_less _ = false

  abbrev is_greater : CmpResult → Bool
  is_greater greater = true
  is_greater _ = false

  unfoldable pub cel_numeric_key_eq : CelValue → CelValue → Bool
  cel_numeric_key_eq a b =
      if not (is_numeric_kind (kind a)) || not (is_numeric_kind (kind b))
      then false
      else if (kind a == cel_double) && (kind b == cel_double)
      then dbl.eq (payload_d a) (payload_d b)
      else if kind a == cel_double
      then double_matches_integer (payload_d a) b
      else if kind b == cel_double
      then double_matches_integer (payload_d b) a
      else is_equal (numeric_compare_kernel a b)

  module _ (ar : Arena) where
    -- The kernels over the ladder, which differ in the results that they take for true.
    numeric : (CmpResult → Bool) → Memory ar.State → ℕ → ℕ → ℕ → Memory ar.State
    numeric holds m out a b = elim (absorb_3vl_binary ar m out a b) [
      | some m' ↦ m'
      | none ↦
          if not (is_numeric_kind (kind (m.cell a))) || not (is_numeric_kind (kind (m.cell b)))
          then poison m out err_type_mismatch
          else write_bool m out (holds (numeric_compare_kernel (m.cell a) (m.cell b)))
    ]

    pub cel_numeric_eq : Memory ar.State → ℕ → ℕ → ℕ → Memory ar.State
    cel_numeric_eq = numeric is_equal

    pub cel_numeric_lt : Memory ar.State → ℕ → ℕ → ℕ → Memory ar.State
    cel_numeric_lt = numeric is_less

    pub cel_numeric_le : Memory ar.State → ℕ → ℕ → ℕ → Memory ar.State
    cel_numeric_le = numeric (λ r. is_less r || is_equal r)

    pub cel_numeric_gt : Memory ar.State → ℕ → ℕ → ℕ → Memory ar.State
    cel_numeric_gt = numeric is_greater

    pub cel_numeric_ge : Memory ar.State → ℕ → ℕ → ℕ → Memory ar.State
    cel_numeric_ge = numeric (λ r. is_greater r || is_equal r)

    pub cel_int_lt : Memory ar.State → ℕ → ℕ → ℕ → Memory ar.State
    cel_int_lt = binary ar cel_int (λ a b. outcome_of (ltb_ℤ (payload_i a) (payload_i b)))

    pub cel_int_le : Memory ar.State → ℕ → ℕ → ℕ → Memory ar.State
    cel_int_le = binary ar cel_int (λ a b. outcome_of (not (ltb_ℤ (payload_i b) (payload_i a))))

    pub cel_int_gt : Memory ar.State → ℕ → ℕ → ℕ → Memory ar.State
    cel_int_gt = binary ar cel_int (λ a b. outcome_of (ltb_ℤ (payload_i b) (payload_i a)))

    pub cel_int_ge : Memory ar.State → ℕ → ℕ → ℕ → Memory ar.State
    cel_int_ge = binary ar cel_int (λ a b. outcome_of (not (ltb_ℤ (payload_i a) (payload_i b))))

    pub cel_uint_lt : Memory ar.State → ℕ → ℕ → ℕ → Memory ar.State
    cel_uint_lt = binary ar cel_uint (λ a b. outcome_of (ltb (payload_u a) (payload_u b)))

    pub cel_uint_le : Memory ar.State → ℕ → ℕ → ℕ → Memory ar.State
    cel_uint_le = binary ar cel_uint (λ a b. outcome_of (not (ltb (payload_u b) (payload_u a))))

    pub cel_uint_gt : Memory ar.State → ℕ → ℕ → ℕ → Memory ar.State
    cel_uint_gt = binary ar cel_uint (λ a b. outcome_of (ltb (payload_u b) (payload_u a)))

    pub cel_uint_ge : Memory ar.State → ℕ → ℕ → ℕ → Memory ar.State
    cel_uint_ge = binary ar cel_uint (λ a b. outcome_of (not (ltb (payload_u a) (payload_u b))))

    pub cel_bool_lt : Memory ar.State → ℕ → ℕ → ℕ → Memory ar.State
    cel_bool_lt = binary ar cel_bool (λ a b. outcome_of (ltb (payload_b a) (payload_b b)))

    pub cel_bool_le : Memory ar.State → ℕ → ℕ → ℕ → Memory ar.State
    cel_bool_le = binary ar cel_bool (λ a b. outcome_of (not (ltb (payload_b b) (payload_b a))))

    pub cel_bool_gt : Memory ar.State → ℕ → ℕ → ℕ → Memory ar.State
    cel_bool_gt = binary ar cel_bool (λ a b. outcome_of (ltb (payload_b b) (payload_b a)))

    pub cel_bool_ge : Memory ar.State → ℕ → ℕ → ℕ → Memory ar.State
    cel_bool_ge = binary ar cel_bool (λ a b. outcome_of (not (ltb (payload_b a) (payload_b b))))

    pub cel_double_lt : Memory ar.State → ℕ → ℕ → ℕ → Memory ar.State
    cel_double_lt = binary ar cel_double (λ a b. outcome_of (dbl.lt (payload_d a) (payload_d b)))

    pub cel_double_le : Memory ar.State → ℕ → ℕ → ℕ → Memory ar.State
    cel_double_le = binary ar cel_double (λ a b. outcome_of (dbl.le (payload_d a) (payload_d b)))

    pub cel_double_gt : Memory ar.State → ℕ → ℕ → ℕ → Memory ar.State
    cel_double_gt = binary ar cel_double (λ a b. outcome_of (dbl.lt (payload_d b) (payload_d a)))

    pub cel_double_ge : Memory ar.State → ℕ → ℕ → ℕ → Memory ar.State
    cel_double_ge = binary ar cel_double (λ a b. outcome_of (dbl.le (payload_d b) (payload_d a)))

    pub cel_bool_eq : Memory ar.State → ℕ → ℕ → ℕ → Memory ar.State
    cel_bool_eq = binary ar cel_bool (λ a b. outcome_of (payload_b a == payload_b b))

    pub cel_null_eq : Memory ar.State → ℕ → ℕ → ℕ → Memory ar.State
    cel_null_eq = binary ar 0 (λ _ _. outcome_of true)
