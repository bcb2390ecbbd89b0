-- ===== src/Runtime/Arith/Exact.antt =====
-- runtime/cel_arith.c: what the int and uint kernels write for operands of the right kind.
use native.Mathlib.Nat.{div-add-mod, mod-lt}
use cel_spec_wasm.Prelude.{
  ℕ, zero, suc, ◌+◌, ◌-◌, ◌*◌, ◌/◌, ◌%◌, ◌^◌, ◌≤◌, ◌<◌, ◌≡◌, refl, ap, sym, ◌∙◌, Bool, true, false,
  ◌&&◌, not, none, some, arith, ltb, leb, if◌then◌else◌,
}
use cel_spec_wasm.Prelude.Int.{
  ℤ, pos, negsuc, ◌+ℤ◌, ◌-ℤ◌, ◌*ℤ◌, is_neg, magnitude, with_sign, quot, rem, eqb_ℤ,
}
use cel_spec_wasm.Runtime.Value.{
  CelValue, int, uint, error, Arena, Memory, cel_int, cel_uint, err_overflow, absorb_3vl_binary,
  require_kinds,
}
use cel_spec_wasm.Runtime.Arith.{
  Machine, binary, Outcome, value, fails, in_i64, int64_min, cel_int_add, cel_int_sub, cel_int_mul,
  cel_int_div, cel_int_mod, cel_uint_add, cel_uint_sub, cel_uint_mul, int_div, int_mod,
  or_overflow_int, or_overflow_uint,
}
use cel_spec_wasm.Runtime.Arith.Overflow.{
  hits_min, int64_mul_overflows_exact, uint64_mul_overflows_exact,
}

-- The exact result, or the overflow error.
abbrev pub exact_int : ℤ → CelValue
exact_int r = if in_i64 r then int r else error err_overflow

abbrev pub exact_uint : ℕ → CelValue
exact_uint r = if ltb r (2 ^ 64) then uint r else error err_overflow

written : Outcome → CelValue
written (value v) = v
written (fails code) = error code

magnitude-with_sign : (s : Bool) (n : ℕ) → magnitude (with_sign s n) ≡ n
magnitude-with_sign true n = ground arith
magnitude-with_sign false n = refl

-- An integer by its sign and magnitude.
signed : (x : ℤ) → with_sign (is_neg x) (magnitude x) ≡ x
signed x = ground arith

signed_mul :
    (s t : Bool) (k n : ℕ)
    → with_sign (if s then not t else t) k *ℤ with_sign t n ≡ with_sign s (k * n)
unfolding ◌*ℤ◌
signed_mul true true zero zero = ground arith
signed_mul true true zero (suc n) = ground arith
signed_mul true true (suc k) zero = ground arith
signed_mul true true (suc k) (suc n) = ground arith
signed_mul true false zero zero = ground arith
signed_mul true false zero (suc n) = ground arith
signed_mul true false (suc k) zero = ground arith
signed_mul true false (suc k) (suc n) = ground arith
signed_mul false true zero zero = ground arith
signed_mul false true zero (suc n) = ground arith
signed_mul false true (suc k) zero = ground arith
signed_mul false true (suc k) (suc n) = ground arith
signed_mul false false zero zero = ground arith
signed_mul false false zero (suc n) = ground arith
signed_mul false false (suc k) zero = ground arith
signed_mul false false (suc k) (suc n) = ground arith

signed_add : (s : Bool) (m r : ℕ) → with_sign s m +ℤ with_sign s r ≡ with_sign s (m + r)
unfolding ◌+ℤ◌
signed_add true m r = ground arith
signed_add false m r = ground arith

divide_lem :
    (x y : ℤ)
    → eqb_ℤ y (pos 0) ≡ false
    → (quot x y *ℤ y +ℤ rem x y ≡ x) × (magnitude (rem x y) < magnitude y)
divide_lem x y hy =
    let k = magnitude x / magnitude y in
    let r = magnitude x % magnitude y in
    let positive : 0 < magnitude y = ground arith in
    let product : quot x y *ℤ y ≡ with_sign (is_neg x) (k * magnitude y) =
      ap (λ z. quot x y *ℤ z) (sym (signed y)) ∙ signed_mul (is_neg x) (is_neg y) k (magnitude y) in
    (
      ap (λ z. z +ℤ rem x y) product
          ∙ signed_add (is_neg x) (k * magnitude y) r
          ∙ ap (with_sign (is_neg x)) (omega (arith, div-add-mod (magnitude x) (magnitude y)))
          ∙ signed x,
      rw (magnitude-with_sign (is_neg x) r) (mod-lt (magnitude x) positive),
    )

rem_sign : (x y : ℤ) → rem x y ≡ with_sign (is_neg x) (magnitude (rem x y))
rem_sign x y = ap (with_sign (is_neg x)) (sym (magnitude-with_sign (is_neg x) _))

halved_lem : (k n m : ℕ) → k * n ≤ m → 2 ≤ n → k * 2 ≤ m
halved_lem k n m h1 h2 = grind arith

whole_lem : (k n m : ℕ) → k * n ≤ m → 1 ≤ n → k ≤ m
whole_lem k n m h1 h2 = grind arith

-- The quotient of two int64_t fits, unless it is the least one by -1; so does the remainder.
quotient_fits :
    (x y : ℤ)
    → in_i64 x ≡ true
    → eqb_ℤ y (pos 0) ≡ false
    → (eqb_ℤ x int64_min && eqb_ℤ y (negsuc 0)) ≡ false
    → (in_i64 (quot x y) ≡ true) × (in_i64 (rem x y) ≡ true)
quotient_fits x y hx hy hmin =
    let k = magnitude x / magnitude y in
    let positive : 0 < magnitude y = ground arith in
    let below : magnitude x % magnitude y < magnitude y = mod-lt (magnitude x) positive in
    let divided : magnitude y * k + magnitude x % magnitude y ≡ magnitude x =
      div-add-mod (magnitude x) (magnitude y) in
    let halved = halved_lem k (magnitude y) (magnitude x) (omega (arith, divided)) in
    let whole = whole_lem k (magnitude y) (magnitude x) (omega (arith, divided)) in
    (ground (arith, halved, whole, divided, below), ground (arith, divided, below))

module _ (ar : Arena) (m : Memory ar.State) (out a b : ℕ) where
  -- With operands of the wanted kind, `binary` writes what `op` gives.
  binary-int :
      (op : CelValue → CelValue → Outcome) (x y : ℤ)
      → m.cell a ≡ int x
      → m.cell b ≡ int y
      → (binary ar cel_int op m out a b).cell out ≡ written (op (int x) (int y))
  unfolding binary absorb_3vl_binary require_kinds written
  binary-int op x y ea eb = ground arith

  binary-uint :
      (op : CelValue → CelValue → Outcome) (x y : ℕ)
      → m.cell a ≡ uint x
      → m.cell b ≡ uint y
      → (binary ar cel_uint op m out a b).cell out ≡ written (op (uint x) (uint y))
  unfolding binary absorb_3vl_binary require_kinds written
  binary-uint op x y ea eb = ground arith

  exact_of_int :
      (r : ℤ) → written (or_overflow_int (if in_i64 r then some r else none)) ≡ exact_int r
  unfolding written
  exact_of_int r = ground arith

  exact_of_product :
      (neg_min x y r : ℤ)
      → written (
          or_overflow_int (if in_i64 r then some (if hits_min x y r then neg_min else r) else none))
        ≡ (if hits_min x y r then int neg_min else exact_int r)
  unfolding written
  exact_of_product neg_min x y r = ground arith

  exact_of_uint :
      (r : ℕ) → written (or_overflow_uint (if ltb r (2 ^ 64) then some r else none)) ≡ exact_uint r
  unfolding written
  exact_of_uint r = ground arith

  -- On two int64_t, the int kernels for +, - and * write the exact integer result when it is an
  -- int64_t, and the overflow error otherwise; but for a product of INT64_MIN whose operands are both
  -- larger the one for * writes what the machine makes of `-INT64_MIN`, which C leaves undefined.
  pub int_kernels_exact :
      (fp : Machine) (x y : ℤ)
      → in_i64 x ≡ true
      → in_i64 y ≡ true
      → m.cell a ≡ int x
      → m.cell b ≡ int y
      → ((cel_int_add ar m out a b).cell out ≡ exact_int (x +ℤ y))
        × ((cel_int_sub ar m out a b).cell out ≡ exact_int (x -ℤ y))
        × ((cel_int_mul ar fp m out a b).cell out
            ≡ (if hits_min x y (x *ℤ y) then int fp.neg_int64_min else exact_int (x *ℤ y)))
  unfolding cel_int_add cel_int_sub cel_int_mul
  int_kernels_exact fp x y hx hy ea eb = (
    binary-int _ x y ea eb ∙ exact_of_int (x +ℤ y),
    binary-int _ x y ea eb ∙ exact_of_int (x -ℤ y),
    binary-int _ x y ea eb
        ∙ ap (λ r. written (or_overflow_int r))
            (int64_mul_overflows_exact fp.neg_int64_min x y hx hy)
        ∙ exact_of_product fp.neg_int64_min x y (x *ℤ y),
  )

  -- On two uint64_t, the uint kernels for + and * write the exact result when it is below 2^64 and
  -- the overflow error otherwise; the one for - writes the overflow error when the difference is
  -- negative.
  pub uint_kernels_exact :
      (x y : ℕ)
      → x < 2 ^ 64
      → y < 2 ^ 64
      → m.cell a ≡ uint x
      → m.cell b ≡ uint y
      → ((cel_uint_add ar m out a b).cell out ≡ exact_uint (x + y))
        × ((cel_uint_sub ar m out a b).cell out
            ≡ (if leb y x then uint (x - y) else error err_overflow))
        × ((cel_uint_mul ar m out a b).cell out ≡ exact_uint (x * y))
  unfolding cel_uint_add cel_uint_sub cel_uint_mul written
  uint_kernels_exact x y hx hy ea eb = (
    binary-uint _ x y ea eb ∙ exact_of_uint (x + y),
    binary-uint _ x y ea eb ∙ ground arith,
    binary-uint _ x y ea eb
        ∙ ap (λ r. written (or_overflow_uint r)) (uint64_mul_overflows_exact x y hx hy)
        ∙ exact_of_uint (x * y),
  )

  -- On two int64_t, with a divisor other than 0 and not the least int64_t by -1, the kernels for /
  -- and % write int64_t q and r with q * y + r = x and |r| < |y|, where r is 0 or has the sign of x.
  pub int_division_exact :
      (x y : ℤ)
      → in_i64 x ≡ true
      → eqb_ℤ y (pos 0) ≡ false
      → (eqb_ℤ x int64_min && eqb_ℤ y (negsuc 0)) ≡ false
      → m.cell a ≡ int x
      → m.cell b ≡ int y
      → (q : ℤ) × (r : ℤ) × ((cel_int_div ar m out a b).cell out ≡ int q)
        × ((cel_int_mod ar m out a b).cell out ≡ int r)
        × (in_i64 q ≡ true)
        × (in_i64 r ≡ true)
        × (q *ℤ y +ℤ r ≡ x)
        × (magnitude r < magnitude y)
        × (r ≡ with_sign (is_neg x) (magnitude r))
  unfolding cel_int_div cel_int_mod int_div int_mod written
  int_division_exact x y hx hy hmin ea eb =
      let (fits_q, fits_r) = quotient_fits x y hx hy hmin in
      let (divided, below) = divide_lem x y hy in
      (
        quot x y,
        rem x y,
        binary-int _ x y ea eb ∙ rw (hy, hmin) refl,
        binary-int _ x y ea eb ∙ rw (hy, hmin) refl,
        fits_q,
        fits_r,
        divided,
        below,
        rem_sign x y,
      )
