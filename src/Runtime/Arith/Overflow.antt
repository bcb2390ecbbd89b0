-- ===== src/Runtime/Arith/Overflow.antt =====
-- runtime/cel_arith.c: the two overflow checks of a product, which avoid 128-bit arithmetic, decide
-- whether the exact product fits.
use cel_spec_wasm.Prelude.{
  ℕ, zero, suc, ◌+◌, ◌*◌, ◌/◌, ◌%◌, ◌^◌, ◌≤◌, ◌<◌, ◌≡◌, ap₂, sym, ◌∙◌, ◌≢◌, ◌⊎◌, inl, inr,
  ℕ_discrete, Bool, true, false, ◌||◌, not, Option, none, some, arith, ltb, ◌&&◌, ◌==◌,
  if◌then◌else◌, Bool-cases,
}
use native.Mathlib.Nat.{div-add-mod, mul-pos}
use cel_spec_wasm.Prelude.Int.{ℤ, pos, negsuc, ◌*ℤ◌, is_neg, magnitude, eqb_ℤ, with_sign}
use cel_spec_wasm.Runtime.Arith.{
  uint64_mul_overflows, int64_mul_overflows, signed_product, in_i64, int64_min, u64,
}

-- The tests behind the first: `mid` is the sum of the cross products and `lo` the low product.
abbrev rest : ℕ → ℕ → Option ℕ
rest mid lo =
    let result = u64 (lo + u64 (mid * 2 ^ 32)) in
    if not (mid / 2 ^ 32 == 0) then none else if ltb result lo then none else some result

rest_lem :
    (mid lo : ℕ)
    → lo < 2 ^ 64
    → rest mid lo ≡ (if ltb (mid * 2 ^ 32 + lo) (2 ^ 64) then some (mid * 2 ^ 32 + lo) else none)
rest_lem mid lo h = ground arith

expand :
    (ah al bh bl : ℕ)
    → (2 ^ 32 * ah + al) * (2 ^ 32 * bh + bl)
      ≡ ah * bh * 2 ^ 64 + (ah * bl + al * bh) * 2 ^ 32 + al * bl
expand ah al bh bl = omega arith

halves_product :
    (a b : ℕ)
    → a * b
      ≡ a / 2 ^ 32 * (b / 2 ^ 32) * 2 ^ 64
        + (a / 2 ^ 32 * (b % 2 ^ 32) + a % 2 ^ 32 * (b / 2 ^ 32)) * 2 ^ 32
        + a % 2 ^ 32 * (b % 2 ^ 32)
halves_product a b =
    ap₂ ◌*◌ (sym (div-add-mod a (2 ^ 32))) (sym (div-add-mod b (2 ^ 32)))
    ∙ expand (a / 2 ^ 32) (a % 2 ^ 32) (b / 2 ^ 32) (b % 2 ^ 32)

mul-lt : (a b m n : ℕ) → a < m → b < n → a * b < m * n
mul-lt a b m n p q = grind arith

-- With one upper half 0, the cross products do not wrap.
cross_sum :
    (ah al bh bl : ℕ)
    → ah < 2 ^ 32
    → al < 2 ^ 32
    → bh < 2 ^ 32
    → bl < 2 ^ 32
    → (ah ≡ 0) ⊎ (bh ≡ 0)
    → (u64 (u64 (ah * bl) + u64 (al * bh)) ≡ ah * bl + al * bh) × (ah * bh ≡ 0)
cross_sum ah al bh bl h1 h2 h3 h4 (inl e) =
    rw e (omega (arith, mul-lt al bh (2 ^ 32) (2 ^ 32) h2 h3))
cross_sum ah al bh bl h1 h2 h3 h4 (inr e) =
    rw e (omega (arith, mul-lt ah bl (2 ^ 32) (2 ^ 32) h1 h4))

high_product : (ah bh : ℕ) → ah ≢ 0 → bh ≢ 0 → 1 ≤ ah * bh
high_product ah bh ha hb = mul-pos (omega arith) (omega arith)

module _ (a b : ℕ) (ha : a < 2 ^ 64) (hb : b < 2 ^ 64) where
  abbrev exact : Option ℕ
  exact = if ltb (a * b) (2 ^ 64) then some (a * b) else none

  one_half :
      (a / 2 ^ 32 ≡ 0) ⊎ (b / 2 ^ 32 ≡ 0)
      → rest
          (u64 (u64 (a / 2 ^ 32 * (b % 2 ^ 32)) + u64 (a % 2 ^ 32 * (b / 2 ^ 32))))
          (u64 (a % 2 ^ 32 * (b % 2 ^ 32)))
        ≡ exact
  one_half zero_half =
      let (sum, none_above) =
        cross_sum (a / 2 ^ 32) (a % 2 ^ 32) (b / 2 ^ 32) (b % 2 ^ 32) (omega arith) (omega arith)
          (omega arith) (omega arith) zero_half in
      let low = mul-lt (a % 2 ^ 32) (b % 2 ^ 32) (2 ^ 32) (2 ^ 32) (omega arith) (omega arith) in
      let lo : u64 (a % 2 ^ 32 * (b % 2 ^ 32)) ≡ a % 2 ^ 32 * (b % 2 ^ 32) = omega arith in
      let product : (a / 2 ^ 32 * (b % 2 ^ 32) + a % 2 ^ 32 * (b / 2 ^ 32)) * 2 ^ 32
            + a % 2 ^ 32 * (b % 2 ^ 32)
          ≡ a * b =
        omega (arith, halves_product a b) in
      rw (sum, lo) (rest_lem _ (a % 2 ^ 32 * (b % 2 ^ 32)) (omega arith) ∙ rw product)

-- On two uint64_t the check gives the exact product if it is below 2^64, and reports any other.
pub uint64_mul_overflows_exact :
    (a b : ℕ)
    → a < 2 ^ 64
    → b < 2 ^ 64
    → uint64_mul_overflows a b ≡ (if ltb (a * b) (2 ^ 64) then some (a * b) else none)
unfolding uint64_mul_overflows
uint64_mul_overflows_exact a b ha hb = elim (ℕ_discrete (a / 2 ^ 32) 0) [
  | yes e ↦ ground (arith, one_half a b ha hb (inl e))
  | no na ↦ elim (ℕ_discrete (b / 2 ^ 32) 0) [
    | yes e ↦ ground (arith, one_half a b ha hb (inr e))
    | no nb ↦ ground (arith, halves_product a b, high_product (a / 2 ^ 32) (b / 2 ^ 32) na nb)
  ]
]

-- The exact product by sign and magnitude.
abbrev differ : ℤ → ℤ → Bool
differ a b = if is_neg a then not (is_neg b) else is_neg b

*ℤ-magnitude : (a b : ℤ) → a *ℤ b ≡ with_sign (differ a b) (magnitude a * magnitude b)
unfolding ◌*ℤ◌
*ℤ-magnitude (pos m) (pos n) = ground arith
*ℤ-magnitude (pos zero) (negsuc n) = ground arith
*ℤ-magnitude (pos (suc m)) (negsuc n) = ground arith
*ℤ-magnitude (negsuc m) (pos n) = ground arith
*ℤ-magnitude (negsuc m) (negsuc n) = ground arith

abbrev fitting : ℤ → Option ℤ
fitting r = if in_i64 r then some r else none

-- The product of two int64_t that are not INT64_MIN themselves.
abbrev guarded : ℤ → ℤ → Option ℤ
guarded neg_min r = if in_i64 r then some (if eqb_ℤ r int64_min then neg_min else r) else none

signed_product_lem :
    (neg_min : ℤ) (negative : Bool) (p : ℕ)
    → signed_product neg_min negative (if ltb p (2 ^ 64) then some p else none)
      ≡ guarded neg_min (with_sign negative p)
unfolding signed_product
signed_product_lem neg_min true p = ground arith
signed_product_lem neg_min false p = ground arith

-- The special cases, in terms of the magnitudes `m` and `n` and their product.
abbrev by_magnitude : ℤ → ℤ → Option ℤ
by_magnitude a b = fitting (with_sign (differ a b) (magnitude a * magnitude b))

zero_product : (m n : ℕ) → (m ≡ 0) ⊎ (n ≡ 0) → m * n ≡ 0
zero_product m n (inl e) = rw e (omega arith)
zero_product m n (inr e) = rw e (omega arith)

zero_case :
    (a b : ℤ) → (eqb_ℤ a (pos 0) || eqb_ℤ b (pos 0)) ≡ true → by_magnitude a b ≡ some (pos 0)
zero_case a b e = rw (zero_product (magnitude a) (magnitude b) (ground arith)) (ground arith)

min_left :
    (b : ℤ)
    → eqb_ℤ b (pos 0) ≡ false
    → by_magnitude int64_min b ≡ (if eqb_ℤ b (pos 1) then some int64_min else none)
min_left b e = ground arith

min_right :
    (a : ℤ)
    → eqb_ℤ a (pos 0) ≡ false
    → by_magnitude a int64_min ≡ (if eqb_ℤ a (pos 1) then some int64_min else none)
min_right a e = ground arith

eqb_ℤ→eq : (a b : ℤ) → eqb_ℤ a b ≡ true → a ≡ b
eqb_ℤ→eq a b e = ground arith

-- The product is INT64_MIN and no operand is: here the code negates INT64_MIN.
abbrev pub hits_min : ℤ → ℤ → ℤ → Bool
hits_min a b product = not (eqb_ℤ a int64_min) && not (eqb_ℤ b int64_min) && eqb_ℤ product int64_min

-- On two int64_t the check gives the exact product if it is an int64_t and reports any other, but
-- for a product of INT64_MIN whose operands are both larger: there it gives what the machine makes
-- of `-INT64_MIN`.
pub int64_mul_overflows_exact :
    (neg_min a b : ℤ)
    → in_i64 a ≡ true
    → in_i64 b ≡ true
    → int64_mul_overflows neg_min a b
      ≡ (if in_i64 (a *ℤ b) then some (if hits_min a b (a *ℤ b) then neg_min else a *ℤ b) else none)
unfolding int64_mul_overflows
int64_mul_overflows_exact neg_min a b ha hb =
    rw (*ℤ-magnitude a b) (elim (Bool-cases (eqb_ℤ a (pos 0) || eqb_ℤ b (pos 0))) [
      | inl zeros ↦
          rw (zeros, zero_product (magnitude a) (magnitude b) (ground arith)) (ground arith)
      | inr nonzero ↦ elim (Bool-cases (eqb_ℤ a int64_min)) [
        | inl least ↦
            rw (nonzero, least, eqb_ℤ→eq a int64_min least) (sym (min_left b (ground arith)))
        | inr more ↦ elim (Bool-cases (eqb_ℤ b int64_min)) [
          | inl least ↦
              rw (nonzero, more, least, eqb_ℤ→eq b int64_min least)
                (sym (min_right a (ground arith)))
          | inr larger ↦
              rw (nonzero, more, larger)
                (rw
                  (uint64_mul_overflows_exact (magnitude a) (magnitude b) (ground arith)
                    (ground arith))
                  (signed_product_lem neg_min (differ a b) (magnitude a * magnitude b)))
        ]
      ]
    ])
