-- ===== src/Runtime/Arith.antt =====
-- runtime/cel_arith.c: checked arithmetic on int, uint and double cells. An int64_t is an integer in
-- its range, a uint64_t a number below 2^64. The operations on doubles are parameters.
pub mod Overflow
pub mod Strict
pub mod Exact
mod Runs
use cel_spec_wasm.Prelude.{
  ℕ, ◌+◌, ◌-◌, ◌*◌, ◌/◌, ◌%◌, ◌^◌, ◌≡◌, Bool, true, false, ◌&&◌, ◌||◌, not, Option, none, some, ltb,
  leb, ◌==◌, if◌then◌else◌,
}
use cel_spec_wasm.Prelude.Int.{
  ℤ, pos, negsuc, ◌+ℤ◌, ◌-ℤ◌, is_neg, magnitude, negate, neg_ℕ, quot, rem, eqb_ℤ,
}
use cel_spec_wasm.Runtime.Value.{
  CelValue, int, uint, double, Arena, Memory, kind, cel_int, cel_uint, cel_double, payload_i,
  payload_u, payload_d, write, poison, err_type_mismatch, err_overflow, err_divide_by_zero,
  err_modulus_by_zero, absorb_3vl_binary, absorb_3vl_unary, require_kinds,
}

abbrev pub int64_min : ℤ
int64_min = negsuc (2 ^ 63 - 1)

abbrev pub in_i64 : ℤ → Bool
in_i64 (pos n) = ltb n (2 ^ 63)
in_i64 (negsuc n) = ltb n (2 ^ 63)

-- __builtin_add_overflow and __builtin_sub_overflow on int64_t and uint64_t: none on overflow.
abbrev pub add_i64 : ℤ → ℤ → Option ℤ
add_i64 a b = let r = a +ℤ b in if in_i64 r then some r else none

abbrev pub sub_i64 : ℤ → ℤ → Option ℤ
sub_i64 a b = let r = a -ℤ b in if in_i64 r then some r else none

abbrev pub add_u64 : ℕ → ℕ → Option ℕ
add_u64 a b = if ltb (a + b) (2 ^ 64) then some (a + b) else none

abbrev pub sub_u64 : ℕ → ℕ → Option ℕ
sub_u64 a b = if leb b a then some (a - b) else none

abbrev u64 : ℕ → ℕ
u64 n = n % 2 ^ 64

-- The product by 32-bit halves; `none` is the return value 1.
pub uint64_mul_overflows : ℕ → ℕ → Option ℕ
uint64_mul_overflows a b =
    let ah = a / 2 ^ 32 in
    let al = a % 2 ^ 32 in
    let bh = b / 2 ^ 32 in
    let bl = b % 2 ^ 32 in
    let mid = u64 (u64 (ah * bl) + u64 (al * bh)) in
    let lo = u64 (al * bl) in
    let result = u64 (lo + u64 (mid * 2 ^ 32)) in
    if not (ah == 0) && not (bh == 0)
    then none
    else if not (mid / 2 ^ 32 == 0)
    then none
    else if ltb result lo
    then none
    else some result

-- The cast of a uint64_t to int64_t, which wraps round.
abbrev pub to_i64 : ℕ → ℤ
to_i64 n = if ltb n (2 ^ 63) then pos n else neg_ℕ (2 ^ 64 - n)

-- `-v` on int64_t. C leaves `-INT64_MIN` undefined: `neg_min` is what the machine makes of it.
abbrev pub neg_i64 : ℤ → ℤ → ℤ
neg_i64 neg_min v = if eqb_ℤ v int64_min then neg_min else negate v

-- The signed product from the unsigned one of the magnitudes.
signed_product : ℤ → Bool → Option ℕ → Option ℤ
signed_product neg_min negative none = none
signed_product neg_min true (some up) =
    if ltb (2 ^ 63 - 1 + 1) up then none else some (neg_i64 neg_min (to_i64 up))
signed_product neg_min false (some up) = if ltb (2 ^ 63 - 1) up then none else some (to_i64 up)

pub int64_mul_overflows : ℤ → ℤ → ℤ → Option ℤ
unfolding signed_product
int64_mul_overflows neg_min a b =
    if eqb_ℤ a (pos 0) || eqb_ℤ b (pos 0)
    then some (pos 0)
    else if eqb_ℤ a int64_min
    then (if eqb_ℤ b (pos 1) then some int64_min else none)
    else if eqb_ℤ b int64_min
    then (if eqb_ℤ a (pos 1) then some int64_min else none)
    else signed_product neg_min (if is_neg a then not (is_neg b) else is_neg b)
        (uint64_mul_overflows (magnitude a) (magnitude b))

-- What an operation gives: a value, or the code of the error that is written.
pub data Outcome : Type 0 where
  value : CelValue → Outcome
  fails : ℕ → Outcome

abbrev pub or_overflow_int : Option ℤ → Outcome
or_overflow_int (some r) = value (int r)
or_overflow_int none = fails err_overflow

abbrev pub or_overflow_uint : Option ℕ → Outcome
or_overflow_uint (some r) = value (uint r)
or_overflow_uint none = fails err_overflow

int_div : ℤ → ℤ → Outcome
int_div a b =
    if eqb_ℤ b (pos 0)
    then fails err_divide_by_zero
    else if eqb_ℤ a int64_min && eqb_ℤ b (negsuc 0)
    then fails err_overflow
    else value (int (quot a b))

int_mod : ℤ → ℤ → Outcome
int_mod a b =
    if eqb_ℤ b (pos 0)
    then fails err_modulus_by_zero
    else if eqb_ℤ a int64_min && eqb_ℤ b (negsuc 0)
    then fails err_overflow
    else value (int (rem a b))

uint_div : ℕ → ℕ → Outcome
uint_div a b = if b == 0 then fails err_divide_by_zero else value (uint (a / b))

uint_mod : ℕ → ℕ → Outcome
uint_mod a b = if b == 0 then fails err_modulus_by_zero else value (uint (a % b))

-- What the machine does: IEEE 754 arithmetic on bit patterns, and the negation of INT64_MIN that C
-- leaves undefined.
pub record Machine : Type 0 where
  pub add : ℕ → ℕ → ℕ
  pub sub : ℕ → ℕ → ℕ
  pub mul : ℕ → ℕ → ℕ
  pub div : ℕ → ℕ → ℕ
  pub neg : ℕ → ℕ
  pub neg_int64_min : ℤ

module _ (ar : Arena) where
  abbrev pub finish : Memory ar.State → ℕ → Outcome → Memory ar.State
  finish m out (value v) = write m out v
  finish m out (fails code) = poison m out code

  -- The frame that the binary kernels share: absorb, test the kinds, compute, write.
  pub binary : ℕ → (CelValue → CelValue → Outcome) → Memory ar.State → ℕ → ℕ → ℕ → Memory ar.State
  binary want op m out a b = elim (absorb_3vl_binary ar m out a b) [
    | some m' ↦ m'
    | none ↦ elim (require_kinds ar m out a b want) [
      | some m' ↦ m'
      | none ↦ finish m out (op (m.cell a) (m.cell b))
    ]
  ]

  pub unary : ℕ → (CelValue → Outcome) → Memory ar.State → ℕ → ℕ → Memory ar.State
  unary want op m out v = elim (absorb_3vl_unary ar m out v) [
    | some m' ↦ m'
    | none ↦
        if not (kind (m.cell v) == want)
        then poison m out err_type_mismatch
        else finish m out (op (m.cell v))
  ]

  pub cel_int_add : Memory ar.State → ℕ → ℕ → ℕ → Memory ar.State
  cel_int_add = binary cel_int (λ a b. or_overflow_int (add_i64 (payload_i a) (payload_i b)))

  pub cel_int_sub : Memory ar.State → ℕ → ℕ → ℕ → Memory ar.State
  cel_int_sub = binary cel_int (λ a b. or_overflow_int (sub_i64 (payload_i a) (payload_i b)))

  pub cel_int_mul : Machine → Memory ar.State → ℕ → ℕ → ℕ → Memory ar.State
  cel_int_mul fp =
      binary cel_int
        (λ a b. or_overflow_int (int64_mul_overflows fp.neg_int64_min (payload_i a) (payload_i b)))

  pub cel_int_div : Memory ar.State → ℕ → ℕ → ℕ → Memory ar.State
  unfolding int_div
  cel_int_div = binary cel_int (λ a b. int_div (payload_i a) (payload_i b))

  pub cel_int_mod : Memory ar.State → ℕ → ℕ → ℕ → Memory ar.State
  unfolding int_mod
  cel_int_mod = binary cel_int (λ a b. int_mod (payload_i a) (payload_i b))

  pub cel_int_neg : Memory ar.State → ℕ → ℕ → Memory ar.State
  cel_int_neg = unary cel_int (λ v.
      if eqb_ℤ (payload_i v) int64_min
      then fails err_overflow
      else value (int (negate (payload_i v))))

  pub cel_uint_add : Memory ar.State → ℕ → ℕ → ℕ → Memory ar.State
  cel_uint_add = binary cel_uint (λ a b. or_overflow_uint (add_u64 (payload_u a) (payload_u b)))

  pub cel_uint_sub : Memory ar.State → ℕ → ℕ → ℕ → Memory ar.State
  cel_uint_sub = binary cel_uint (λ a b. or_overflow_uint (sub_u64 (payload_u a) (payload_u b)))

  pub cel_uint_mul : Memory ar.State → ℕ → ℕ → ℕ → Memory ar.State
  cel_uint_mul =
      binary cel_uint (λ a b. or_overflow_uint (uint64_mul_overflows (payload_u a) (payload_u b)))

  pub cel_uint_div : Memory ar.State → ℕ → ℕ → ℕ → Memory ar.State
  unfolding uint_div
  cel_uint_div = binary cel_uint (λ a b. uint_div (payload_u a) (payload_u b))

  pub cel_uint_mod : Memory ar.State → ℕ → ℕ → ℕ → Memory ar.State
  unfolding uint_mod
  cel_uint_mod = binary cel_uint (λ a b. uint_mod (payload_u a) (payload_u b))

  module _ (fp : Machine) where
    pub cel_double_add : Memory ar.State → ℕ → ℕ → ℕ → Memory ar.State
    cel_double_add = binary cel_double (λ a b. value (double (fp.add (payload_d a) (payload_d b))))

    pub cel_double_sub : Memory ar.State → ℕ → ℕ → ℕ → Memory ar.State
    cel_double_sub = binary cel_double (λ a b. value (double (fp.sub (payload_d a) (payload_d b))))

    pub cel_double_mul : Memory ar.State → ℕ → ℕ → ℕ → Memory ar.State
    cel_double_mul = binary cel_double (λ a b. value (double (fp.mul (payload_d a) (payload_d b))))

    pub cel_double_div : Memory ar.State → ℕ → ℕ → ℕ → Memory ar.State
    cel_double_div = binary cel_double (λ a b. value (double (fp.div (payload_d a) (payload_d b))))

    pub cel_double_neg : Memory ar.State → ℕ → ℕ → Memory ar.State
    cel_double_neg = unary cel_double (λ v. value (double (fp.neg (payload_d v))))
