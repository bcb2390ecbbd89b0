-- ===== src/Runtime/Compare/Ladder.antt =====
-- runtime/cel_compare.c: the ladder is the order of the integers on int and uint, and that of the
-- rounded operands when one of them is a double.
use cel_spec_wasm.Prelude.{
  ℕ, ◌-◌, ◌^◌, ◌<◌, ◌≤◌, ◌≡◌, refl, ap, ◌∙◌, ◌==◌, Bool, true, false, ◌&&◌, ◌||◌, not, arith,
  if◌then◌else◌,
}
use cel_spec_wasm.Prelude.Int.{ℤ, pos, ltb_ℤ}
use cel_spec_wasm.Runtime.Value.{
  CelValue, bool, int, uint, double, Arena, Memory, kind, absorb_3vl_binary,
}
use mathlib.Core.Path.{subst}
use cel_spec_wasm.Runtime.Arith.{in_i64, int64_min}
use cel_spec_wasm.Runtime.Compare.{
  cmp_int_vs_double, cmp_uint_vs_double, CmpResult, less, equal, greater, nan_inequal, Doubles,
  cmp_i64, cmp_u64, cmp_int_vs_uint, cmp_flip, cmp_double, numeric_compare_kernel, numeric,
  cel_numeric_eq, cel_numeric_lt, cel_numeric_le, cel_numeric_gt, cel_numeric_ge,
}

-- An integer value of either kind.
pub data Integral : CelValue → ℤ → Type 0 where
  signed : (i : ℤ) → Integral (int i) i
  unsigned : (u : ℕ) → Integral (uint u) (pos u)

abbrev pub order : ℤ → ℤ → CmpResult
order x y = if ltb_ℤ x y then less else if ltb_ℤ y x then greater else equal

Integral-kind : (v : CelValue) (x : ℤ) → Integral v x → ((kind v == 2) || (kind v == 3)) ≡ true
Integral-kind _ _ (signed i) = refl
Integral-kind _ _ (unsigned u) = refl

module _ (dbl : Doubles) where
  -- On int and uint operands, mixed or not, the ladder gives the order of the integers they stand
  -- for.
  pub kernel_order :
      (a b : CelValue) (x y : ℤ)
      → Integral a x
      → Integral b y
      → numeric_compare_kernel dbl a b ≡ order x y
  unfolding numeric_compare_kernel cmp_i64 cmp_u64 cmp_int_vs_uint cmp_flip
  kernel_order _ _ _ _ (signed i) (signed j) = refl
  kernel_order _ _ _ _ (signed i) (unsigned v) = ground arith
  kernel_order _ _ _ _ (unsigned u) (signed j) = ground arith
  kernel_order _ _ _ _ (unsigned u) (unsigned v) = ground arith

  abbrev pub bit : Bool → CelValue
  bit t = bool (if t then 1 else 0)

  numeric_free :
      (holds : CmpResult → Bool) (ar : Arena) (m : Memory ar.State) (out a b : ℕ)
      → ((kind (m.cell a) == 2) || (kind (m.cell a) == 3)) ≡ true
      → ((kind (m.cell b) == 2) || (kind (m.cell b) == 3)) ≡ true
      → (numeric dbl ar holds m out a b).cell out
        ≡ bit (holds (numeric_compare_kernel dbl (m.cell a) (m.cell b)))
  unfolding numeric absorb_3vl_binary
  numeric_free holds ar m out a b ha hb = ground arith

  numeric_cell :
      (holds : CmpResult → Bool) (ar : Arena) (m : Memory ar.State) (out a b : ℕ) (x y : ℤ)
      → Integral (m.cell a) x
      → Integral (m.cell b) y
      → (numeric dbl ar holds m out a b).cell out ≡ bit (holds (order x y))
  numeric_cell holds ar m out a b x y ha hb =
      numeric_free holds ar m out a b (Integral-kind _ x ha) (Integral-kind _ y hb)
      ∙ ap (λ r. bit (holds r)) (kernel_order _ _ x y ha hb)

  -- On int and uint operands, mixed or not, the five kernels write how the integers compare.
  pub numeric_kernels_exact :
      (ar : Arena) (m : Memory ar.State) (out a b : ℕ) (x y : ℤ)
      → Integral (m.cell a) x
      → Integral (m.cell b) y
      → ((cel_numeric_eq dbl ar m out a b).cell out ≡ bit (not (ltb_ℤ x y) && not (ltb_ℤ y x)))
        × ((cel_numeric_lt dbl ar m out a b).cell out ≡ bit (ltb_ℤ x y))
        × ((cel_numeric_le dbl ar m out a b).cell out ≡ bit (not (ltb_ℤ y x)))
        × ((cel_numeric_gt dbl ar m out a b).cell out ≡ bit (ltb_ℤ y x))
        × ((cel_numeric_ge dbl ar m out a b).cell out ≡ bit (not (ltb_ℤ x y)))
  unfolding cel_numeric_eq cel_numeric_lt cel_numeric_le cel_numeric_gt cel_numeric_ge
  numeric_kernels_exact ar m out a b x y ha hb = (
    numeric_cell _ ar m out a b x y ha hb ∙ ground arith,
    numeric_cell _ ar m out a b x y ha hb ∙ ground arith,
    numeric_cell _ ar m out a b x y ha hb ∙ ground arith,
    numeric_cell _ ar m out a b x y ha hb ∙ ground arith,
    numeric_cell _ ar m out a b x y ha hb ∙ ground arith,
  )

-- What the ladder relies on in the doubles: `<` is a strict weak order off the NaNs, the casts from
-- integers are monotone and give no NaN, and 0.0 has the bits 0.
pub record Rounds (dbl : Doubles) : Type 0 where
  pub asym : (p q : ℕ) → dbl.lt p q ≡ true → dbl.lt q p ≡ false
  pub between :
      (p q r : ℕ) → dbl.lt p q ≡ true → dbl.eq r r ≡ true → (dbl.lt p r || dbl.lt r q) ≡ true
  pub nan_lt : (p q : ℕ) → (dbl.eq p p && dbl.eq q q) ≡ false → (dbl.lt p q || dbl.lt q p) ≡ false
  pub int_number : (i : ℤ) → dbl.eq (dbl.of_int i) (dbl.of_int i) ≡ true
  pub uint_number : (u : ℕ) → dbl.eq (dbl.of_uint u) (dbl.of_uint u) ≡ true
  pub int_mono : (i j : ℤ) → ltb_ℤ j i ≡ false → dbl.lt (dbl.of_int j) (dbl.of_int i) ≡ false
  pub uint_mono : (u v : ℕ) → u ≤ v → dbl.lt (dbl.of_uint v) (dbl.of_uint u) ≡ false
  pub uint_zero : dbl.of_uint 0 ≡ 0

-- A numeric value as a double, when it is in the range of its kind.
pub data AsDouble (dbl : Doubles) : CelValue → ℕ → Type 0 where
  rounded : (i : ℤ) → in_i64 i ≡ true → AsDouble dbl (int i) (dbl.of_int i)
  rounded_up : (u : ℕ) → u < 2 ^ 64 → AsDouble dbl (uint u) (dbl.of_uint u)
  itself : (d : ℕ) → AsDouble dbl (double d) d

-- How two doubles compare, a NaN with nothing.
abbrev pub double_order : Doubles → ℕ → ℕ → CmpResult
double_order dbl p q =
    if dbl.lt q p
    then greater
    else if dbl.lt p q
    then less
    else if dbl.eq p p && dbl.eq q q
    then equal
    else nan_inequal

module _ (dbl : Doubles) (law : Rounds dbl) where
  double_order_lem : (p q : ℕ) → cmp_double dbl p q ≡ double_order dbl p q
  unfolding cmp_double
  double_order_lem p q = ground (arith, law.asym p q, law.asym q p, law.nan_lt p q)

  order_flip : (p q : ℕ) → cmp_flip (double_order dbl q p) ≡ double_order dbl p q
  unfolding cmp_flip
  order_flip p q = ground (arith, law.asym p q, law.asym q p)

  -- The guards of a cast: `x` between the casts `lo` and `hi` of the ends of the range.
  guarded :
      (x lo hi d : ℕ)
      → dbl.eq x x ≡ true
      → dbl.lt hi x ≡ false
      → dbl.lt x lo ≡ false
      → (if not (dbl.eq d d)
          then nan_inequal
          else if dbl.lt hi d
          then less
          else if dbl.lt d lo
          then greater
          else cmp_double dbl x d)
        ≡ double_order dbl x d
  guarded x lo hi d number below above = rw (double_order_lem x d) (
      ground
        (arith, law.asym x d, law.asym d x, law.between hi d x, law.between d lo x, law.nan_lt x d))

  int_double :
      (i : ℤ) (d : ℕ)
      → in_i64 i ≡ true
      → cmp_int_vs_double dbl i d ≡ double_order dbl (dbl.of_int i) d
  unfolding cmp_int_vs_double
  int_double i d h =
      guarded (dbl.of_int i) (dbl.of_int int64_min) (dbl.of_int (pos (2 ^ 63 - 1))) d
        (law.int_number i) (law.int_mono i (pos (2 ^ 63 - 1)) (ground arith))
        (law.int_mono int64_min i (ground arith))

  uint_double :
      (u d : ℕ) → u < 2 ^ 64 → cmp_uint_vs_double dbl u d ≡ double_order dbl (dbl.of_uint u) d
  unfolding cmp_uint_vs_double
  uint_double u d h =
      guarded (dbl.of_uint u) 0 (dbl.of_uint (2 ^ 64 - 1)) d (law.uint_number u)
        (law.uint_mono u (2 ^ 64 - 1) (omega arith))
        (subst (λ z. dbl.lt (dbl.of_uint u) z ≡ false) law.uint_zero
          (law.uint_mono 0 u (omega arith)))

  -- When one operand at least is a double, the ladder compares the operands as doubles, an integer
  -- rounded by the cast: by `<`, with equality for what is not ordered, and a NaN with nothing. The
  -- tests for the ends of the integer ranges do not change this. The doubles are lawful and the
  -- integers in their ranges.
  pub kernel_rounds :
      (a b : CelValue) (p q : ℕ)
      → AsDouble dbl a p
      → AsDouble dbl b q
      → ((kind a == 4) || (kind b == 4)) ≡ true
      → numeric_compare_kernel dbl a b ≡ double_order dbl p q
  unfolding numeric_compare_kernel
  kernel_rounds _ _ _ _ (itself x) (itself y) h = double_order_lem x y
  kernel_rounds _ _ _ _ (rounded i hi) (itself y) h = int_double i y hi
  kernel_rounds _ _ _ _ (rounded_up u hu) (itself y) h = uint_double u y hu
  kernel_rounds _ _ _ _ (itself x) (rounded j hj) h =
      ap cmp_flip (int_double j x hj) ∙ order_flip x (dbl.of_int j)
  kernel_rounds _ _ _ _ (itself x) (rounded_up v hv) h =
      ap cmp_flip (uint_double v x hv) ∙ order_flip x (dbl.of_uint v)
  kernel_rounds _ _ _ _ (rounded _ _) (rounded _ _) h = cc
  kernel_rounds _ _ _ _ (rounded _ _) (rounded_up _ _) h = cc
  kernel_rounds _ _ _ _ (rounded_up _ _) (rounded _ _) h = cc
  kernel_rounds _ _ _ _ (rounded_up _ _) (rounded_up _ _) h = cc
