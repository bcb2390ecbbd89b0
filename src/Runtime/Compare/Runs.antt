-- ===== src/Runtime/Compare/Runs.antt =====
-- runtime/cel_compare.c: the ladder on concrete values.
use cel_spec_wasm.Prelude.{ℕ, ◌+◌, ◌^◌, ◌≡◌, refl, ◌&&◌, ◌==◌, ltb, leb, if◌then◌else◌, arith}
use cel_spec_wasm.Prelude.Int.{pos, negsuc, magnitude, is_neg}
use cel_spec_wasm.Runtime.Value.{int, uint, double, null, bool, Memory}
use cel_spec_wasm.Runtime.Value.Runs.{bump}
use cel_spec_wasm.Runtime.Compare.{
  Doubles, greater, numeric_compare_kernel, cel_numeric_eq, cel_numeric_lt, cel_numeric_le,
  cel_numeric_gt, cel_numeric_ge,
}
use cel_spec_wasm.Runtime.Compare.Ladder.{
  signed, unsigned, Rounds, rounded, itself, numeric_kernels_exact, kernel_rounds,
}

-- Doubles that are the numbers below 2^64, with the bits of the number.
abbrev naturals : Doubles
naturals = record {
  eq = ◌==◌;
  lt = ltb;
  le = leb;
  of_int = magnitude;
  of_uint = λ u. u;
  to_int = pos;
  to_uint = λ d. d;
}

abbrev mixed : Memory ℕ
mixed = record {
  cell = λ x. if x == 1 then int (negsuc 0) else if x == 2 then uint 3 else null;
  heap = record { word = λ _. 0; arena = 64 };
}

numeric_kernels_exact_example :
    ((cel_numeric_eq naturals bump mixed 4 1 2).cell 4 ≡ bool 0)
    × ((cel_numeric_lt naturals bump mixed 4 1 2).cell 4 ≡ bool 1)
    × ((cel_numeric_le naturals bump mixed 4 1 2).cell 4 ≡ bool 1)
    × ((cel_numeric_gt naturals bump mixed 4 1 2).cell 4 ≡ bool 0)
    × ((cel_numeric_ge naturals bump mixed 4 1 2).cell 4 ≡ bool 0)
numeric_kernels_exact_example =
    numeric_kernels_exact naturals bump mixed 4 1 2 (negsuc 0) (pos 3) (signed (negsuc 0))
      (unsigned 3)

-- Doubles that are numbers below 2 ^ 65, and NaNs above; the negative integers round to 0.
abbrev rounding : Doubles
rounding = record {
  eq = λ a b. (a == b) && ltb a (2 ^ 65);
  lt = λ a b. ltb a b && ltb b (2 ^ 65);
  le = λ a b. leb a b && ltb b (2 ^ 65);
  of_int = λ i. if is_neg i then 0 else if ltb (magnitude i) (2 ^ 64) then magnitude i else 2 ^ 64;
  of_uint = λ u. if ltb u (2 ^ 64) then u else 2 ^ 64;
  to_int = pos;
  to_uint = λ d. d;
}

rounding-Rounds : Rounds rounding
rounding-Rounds = record {
  asym = λ p q h. ground arith;
  between = λ p q r h n. ground arith;
  nan_lt = λ p q h. ground arith;
  int_number = λ i. ground arith;
  uint_number = λ u. ground arith;
  int_mono = λ i j h. ground arith;
  uint_mono = λ u v h. ground arith;
  uint_zero = refl;
}

kernel_rounds_example :
    numeric_compare_kernel rounding (double (2 ^ 63 + 8)) (int (pos 5)) ≡ greater
kernel_rounds_example =
    kernel_rounds rounding rounding-Rounds (double (2 ^ 63 + 8)) (int (pos 5)) (2 ^ 63 + 8) 5
      (itself (2 ^ 63 + 8)) (rounded (pos 5) refl) refl
