-- ===== src/Runtime/Arith/Runs.antt =====
-- runtime/cel_arith.c: the kernels on concrete cells.
use cel_spec_wasm.Prelude.{ℕ, ◌+◌, ◌-◌, ◌^◌, ◌<◌, ◌≡◌, refl, true, some, arith, ◌==◌, if◌then◌else◌}
use cel_spec_wasm.Prelude.Int.{ℤ, pos, negsuc, ◌+ℤ◌, ◌-ℤ◌, ◌*ℤ◌, magnitude, with_sign}
use cel_spec_wasm.Runtime.Value.{
  absorb_3vl_binary, require_kinds, kind, CelValue, int, uint, error, null, Memory,
}
use cel_spec_wasm.Runtime.Value.Runs.{bump}
use cel_spec_wasm.Runtime.Arith.{
  Machine, binary, in_i64, int64_min, int64_mul_overflows, cel_int_add, cel_int_sub, cel_int_mul,
  cel_int_div, cel_int_mod, cel_uint_add, cel_uint_sub, cel_uint_mul,
}
use cel_spec_wasm.Runtime.Arith.Overflow.{int64_mul_overflows_exact}
use cel_spec_wasm.Runtime.Arith.Exact.{
  exact_int, int_kernels_exact, uint_kernels_exact, int_division_exact,
}
use cel_spec_wasm.Runtime.Arith.Strict.{operand_kind, run_kernel, kernel-cell, kernel-kinds}
use cel_spec_wasm.Runtime.Arith.Strict.Kernel.{int_add}

abbrev cells : CelValue → CelValue → Memory ℕ
cells v w = record {
  cell = λ x. if x == 1 then v else if x == 2 then w else null;
  heap = record { word = λ _. 0; arena = 64 };
}

-- Arithmetic on doubles that returns its first operand; `-INT64_MIN` wraps round.
abbrev fp : Machine
fp = record {
  add = λ a _. a;
  sub = λ a _. a;
  mul = λ a _. a;
  div = λ a _. a;
  neg = λ a. a;
  neg_int64_min = int64_min;
}

int64_mul_overflows_exact_example :
    int64_mul_overflows int64_min (negsuc (2 ^ 32)) (pos (2 ^ 30))
    ≡ some (negsuc (2 ^ 62 + 2 ^ 30 - 1))
unfolding ◌*ℤ◌
int64_mul_overflows_exact_example =
    int64_mul_overflows_exact int64_min (negsuc (2 ^ 32)) (pos (2 ^ 30)) refl refl

abbrev two_ints : Memory ℕ
two_ints = cells (int (negsuc 6)) (int (pos 2))

int_kernels_exact_example :
    ((cel_int_add bump two_ints 3 1 2).cell 3 ≡ exact_int (negsuc 6 +ℤ pos 2))
    × ((cel_int_sub bump two_ints 3 1 2).cell 3 ≡ exact_int (negsuc 6 -ℤ pos 2))
    × ((cel_int_mul bump fp two_ints 3 1 2).cell 3 ≡ int (negsuc 13))
unfolding ◌*ℤ◌
int_kernels_exact_example =
    int_kernels_exact bump two_ints 3 1 2 fp (negsuc 6) (pos 2) refl refl refl refl

abbrev two_uints : Memory ℕ
two_uints = cells (uint 7) (uint 9)

uint_kernels_exact_example :
    ((cel_uint_add bump two_uints 3 1 2).cell 3 ≡ uint 16)
    × ((cel_uint_sub bump two_uints 3 1 2).cell 3 ≡ error 10)
    × ((cel_uint_mul bump two_uints 3 1 2).cell 3 ≡ uint 63)
uint_kernels_exact_example =
    uint_kernels_exact bump two_uints 3 1 2 7 9 (omega arith) (omega arith) refl refl

int_division_exact_example :
    (q : ℤ) × (r : ℤ) × ((cel_int_div bump two_ints 3 1 2).cell 3 ≡ int q)
    × ((cel_int_mod bump two_ints 3 1 2).cell 3 ≡ int r)
    × (in_i64 q ≡ true)
    × (in_i64 r ≡ true)
    × (q *ℤ pos 2 +ℤ r ≡ negsuc 6)
    × (magnitude r < 2)
    × (r ≡ with_sign true (magnitude r))
int_division_exact_example =
    int_division_exact bump two_ints 3 1 2 (negsuc 6) (pos 2) refl refl refl refl refl

kernel-cell_example : (run_kernel bump fp int_add two_ints 3 1 2).cell 2 ≡ int (pos 2)
kernel-cell_example = kernel-cell bump fp two_ints 3 1 2 int_add 2 refl

kernel-kinds_example :
    (kind (int (negsuc 6)) ≡ operand_kind int_add) × (kind (int (pos 2)) ≡ operand_kind int_add)
unfolding binary cel_int_add absorb_3vl_binary require_kinds ◌+ℤ◌
kernel-kinds_example = kernel-kinds bump fp two_ints 3 1 2 int_add refl
