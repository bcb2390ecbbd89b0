-- ===== src/Runtime/MapKey/Euclid.antt =====
-- runtime/cel_compare.c: two stored keys that equal the same looked-up key equal each other. A
-- double is looked up but never stored.
use cel_spec_wasm.Prelude.{
  ℕ, zero, suc, ◌+◌, ◌-◌, ◌^◌, ◌/◌, ◌%◌, ◌≡◌, refl, sym, ap, ◌∙◌, true, arith,
}
use mathlib.Core.Path.{subst}
use cel_spec_wasm.Prelude.Int.{ℤ, pos, negsuc}
use cel_spec_wasm.Runtime.Value.{CelValue, bool, int, uint, double, string, bytes}
use cel_spec_wasm.Runtime.Arith.{int64_min}
use cel_spec_wasm.Runtime.Compare.{
  Doubles, is_equal, numeric_compare_kernel, cel_numeric_key_eq, double_as_int, double_as_uint,
  double_matches_integer,
}
use cel_spec_wasm.Runtime.Compare.Ladder.{Integral, signed, unsigned, order, kernel_order}
use cel_spec_wasm.Runtime.MapKey.{
  bytes_equal, words_equal, cel_byteptr_equal, spans_equal, cel_value_eq, cel_map_key_eq, two_63,
}
use cel_spec_wasm.Runtime.MapKey.Hash.{
  Lawful, IsKey, a_bool, an_int, a_uint, a_double, a_string, a_bytes, order-equal, guards_int,
  guards_uint,
}

-- The kinds that `is_valid_map_key_kind` lets into a map.
pub data Stored : CelValue → Type 0 where
  bool_key : (b : ℕ) → Stored (bool b)
  int_key : (i : ℤ) → Stored (int i)
  uint_key : (u : ℕ) → Stored (uint u)
  string_key : (p n : ℕ) → Stored (string p n)

pub Stored-IsKey : (v : CelValue) → Stored v → IsKey v
Stored-IsKey _ (bool_key b) = a_bool b
Stored-IsKey _ (int_key i) = an_int i
Stored-IsKey _ (uint_key u) = a_uint u
Stored-IsKey _ (string_key p n) = a_string p n

-- Keys of different classes are never equal.
abbrev class : CelValue → ℕ
class (bool b) = 1
class (string p n) = 2
class (bytes p n) = 3
class _ = 0

module _ (byte : ℕ → ℕ) where
  bytes_join :
      (n p q r : ℕ)
      → bytes_equal byte p r n ≡ true
      → bytes_equal byte q r n ≡ true
      → bytes_equal byte p q n ≡ true
  unfolding bytes_equal
  bytes_join zero p q r h k = refl
  bytes_join (suc n) p q r h k = ground (arith, bytes_join n (p + 1) (q + 1) (r + 1))

  words_join :
      (n rest p q r : ℕ)
      → words_equal byte p r n rest ≡ true
      → words_equal byte q r n rest ≡ true
      → words_equal byte p q n rest ≡ true
  unfolding words_equal
  words_join zero rest p q r h k = bytes_join rest p q r h k
  words_join (suc n) rest p q r h k = ground (arith, words_join n rest (p + 8) (q + 8) (r + 8))

  spans_len :
      (p n q r : ℕ)
      → spans_equal byte p n r n ≡ true
      → spans_equal byte q n r n ≡ true
      → spans_equal byte p n q n ≡ true
  unfolding spans_equal cel_byteptr_equal
  spans_len p zero q r h g = refl
  spans_len p (suc n) q r h g = ground (arith, words_join (suc n / 8) (suc n % 8) p q r)

  spans_join :
      (p n q k r j : ℕ)
      → spans_equal byte p n r j ≡ true
      → spans_equal byte q k r j ≡ true
      → spans_equal byte p n q k ≡ true
  unfolding spans_equal
  spans_join p n q k r j h g =
      let en : n ≡ j = ground arith in
      let ek : k ≡ j = ground arith in rw (en, ek) (spans_len p j q r (rw en at h) (rw ek at g))

module _ (dbl : Doubles) (law : Lawful dbl) where
  -- The integer that a looked-up key stands for when it equals a stored one.
  data Means : CelValue → ℤ → Type 0 where
    exact : {v : CelValue} {x : ℤ} → Integral v x → Means v x
    as_int : {d : ℕ} {x : ℤ} → dbl.lt d two_63 ≡ true → dbl.to_int d ≡ x → Means (double d) x
    as_uint : {d : ℕ} {x : ℤ} → dbl.le 0 d ≡ true → pos (dbl.to_uint d) ≡ x → Means (double d) x

  Means-unique : (k : CelValue) (x y : ℤ) → Means k x → Means k y → x ≡ y
  Means-unique _ _ _ (exact (signed i)) (exact (signed _)) = refl
  Means-unique _ _ _ (exact (unsigned u)) (exact (unsigned _)) = refl
  Means-unique _ x y (as_int below e) (exact none) = elim none [ ]
  Means-unique _ x y (as_uint low e) (exact none) = elim none [ ]
  Means-unique _ x y (as_int below e) (as_int below' e') = sym e ∙ e'
  Means-unique _ x y (as_uint low e) (as_uint low' e') = sym e ∙ e'
  Means-unique (double d) x y (as_int below e) (as_uint low e') = sym e ∙ law.casts d low below ∙ e'
  Means-unique (double d) x y (as_uint low e) (as_int below e') =
      sym e ∙ sym (law.casts d low below) ∙ e'

  meets_Integral :
      (a k : CelValue) (x y : ℤ)
      → Integral a x
      → Integral k y
      → is_equal dbl (numeric_compare_kernel dbl a k) ≡ true
      → Means k x
  meets_Integral a k x y ha hk h =
      let same : x ≡ y = order-equal dbl law x y (rw (kernel_order dbl a k x y ha hk) at h) in
      subst (Means k) (sym same) (exact hk)

  meets_double :
      (a : CelValue) (d : ℕ) (x : ℤ)
      → Integral a x
      → double_matches_integer dbl d a ≡ true
      → Means (double d) x
  unfolding double_matches_integer double_as_int double_as_uint
  meets_double _ d _ (signed i) h =
      let (low, high, back, value) =
        guards_int dbl law (dbl.le (dbl.of_int int64_min) d)
          (dbl.le d (dbl.of_int (pos (2 ^ 63 - 1 - 512)))) (dbl.eq (dbl.of_int (dbl.to_int d)) d)
          (dbl.to_int d) i h in
      as_int (law.below_63 d high) value
  meets_double _ d _ (unsigned u) h =
      let (low, high, back, value) =
        guards_uint dbl law (dbl.le 0 d) (dbl.le d (dbl.of_uint (2 ^ 64 - 1 - 1024)))
          (dbl.eq (dbl.of_uint (dbl.to_uint d)) d) (dbl.to_uint d) u h in
      as_uint low (ap pos value)

  meets :
      (byte : ℕ → ℕ) (a k : CelValue) (x : ℤ)
      → Integral a x
      → IsKey k
      → cel_map_key_eq dbl byte a k ≡ true
      → Means k x
  unfolding cel_map_key_eq cel_value_eq cel_numeric_key_eq
  meets byte _ _ _ (signed i) (an_int j) h =
      meets_Integral (int i) (int j) i j (signed i) (signed j) h
  meets byte _ _ _ (signed i) (a_uint v) h =
      meets_Integral (int i) (uint v) i (pos v) (signed i) (unsigned v) h
  meets byte _ _ _ (signed i) (a_double d) h = meets_double (int i) d i (signed i) h
  meets byte _ _ _ (unsigned u) (an_int j) h =
      meets_Integral (uint u) (int j) (pos u) j (unsigned u) (signed j) h
  meets byte _ _ _ (unsigned u) (a_uint v) h =
      meets_Integral (uint u) (uint v) (pos u) (pos v) (unsigned u) (unsigned v) h
  meets byte _ _ _ (unsigned u) (a_double d) h = meets_double (uint u) d (pos u) (unsigned u) h
  meets byte _ _ _ (signed i) (a_bool b) h = cc
  meets byte _ _ _ (signed i) (a_string p n) h = cc
  meets byte _ _ _ (signed i) (a_bytes p n) h = cc
  meets byte _ _ _ (unsigned u) (a_bool b) h = cc
  meets byte _ _ _ (unsigned u) (a_string p n) h = cc
  meets byte _ _ _ (unsigned u) (a_bytes p n) h = cc

  order_self : (x : ℤ) → is_equal dbl (order x x) ≡ true
  order_self (pos n) = ground arith
  order_self (negsuc n) = ground arith

  same_integer :
      (byte : ℕ → ℕ) (a b : CelValue) (x : ℤ)
      → Integral a x
      → Integral b x
      → cel_map_key_eq dbl byte a b ≡ true
  unfolding cel_map_key_eq cel_numeric_key_eq
  same_integer byte _ _ x (signed _) (signed _) =
      rw (kernel_order dbl (int x) (int x) x x (signed x) (signed x)) (order_self x)
  same_integer byte _ _ _ (signed _) (unsigned u) =
      rw (kernel_order dbl (int (pos u)) (uint u) (pos u) (pos u) (signed (pos u)) (unsigned u))
        (order_self (pos u))
  same_integer byte _ _ _ (unsigned u) (signed _) =
      rw (kernel_order dbl (uint u) (int (pos u)) (pos u) (pos u) (unsigned u) (signed (pos u)))
        (order_self (pos u))
  same_integer byte _ _ _ (unsigned u) (unsigned _) =
      rw (kernel_order dbl (uint u) (uint u) (pos u) (pos u) (unsigned u) (unsigned u))
        (order_self (pos u))

  integers_join :
      (byte : ℕ → ℕ) (a b k : CelValue) (x y : ℤ)
      → Integral a x
      → Integral b y
      → IsKey k
      → cel_map_key_eq dbl byte a k ≡ true
      → cel_map_key_eq dbl byte b k ≡ true
      → cel_map_key_eq dbl byte a b ≡ true
  integers_join byte a b k x y ha hb key h g =
      let same : x ≡ y =
        Means-unique k x y (meets byte a k x ha key h) (meets byte b k y hb key g) in
      same_integer byte a b y (subst (Integral a) same ha) hb

  class_eq :
      (byte : ℕ → ℕ) (a k : CelValue)
      → Stored a
      → IsKey k
      → cel_map_key_eq dbl byte a k ≡ true
      → class a ≡ class k
  unfolding cel_map_key_eq cel_value_eq
  class_eq byte _ _ (int_key i) (an_int j) h = refl
  class_eq byte _ _ (int_key i) (a_uint v) h = refl
  class_eq byte _ _ (int_key i) (a_double d) h = refl
  class_eq byte _ _ (uint_key u) (an_int j) h = refl
  class_eq byte _ _ (uint_key u) (a_uint v) h = refl
  class_eq byte _ _ (uint_key u) (a_double d) h = refl
  class_eq byte _ _ (bool_key x) (a_bool y) h = refl
  class_eq byte _ _ (string_key p n) (a_string q k) h = refl
  class_eq byte _ _ _ _ h = cc

  -- Two stored keys that equal the same looked-up key equal each other.
  pub key_eq-join :
      (byte : ℕ → ℕ) (a b k : CelValue)
      → Stored a
      → Stored b
      → IsKey k
      → cel_map_key_eq dbl byte a k ≡ true
      → cel_map_key_eq dbl byte b k ≡ true
      → cel_map_key_eq dbl byte a b ≡ true
  unfolding cel_map_key_eq cel_value_eq
  key_eq-join byte _ _ k (int_key i) (int_key j) key h g =
      integers_join byte (int i) (int j) k i j (signed i) (signed j) key h g
  key_eq-join byte _ _ k (int_key i) (uint_key v) key h g =
      integers_join byte (int i) (uint v) k i (pos v) (signed i) (unsigned v) key h g
  key_eq-join byte _ _ k (uint_key u) (int_key j) key h g =
      integers_join byte (uint u) (int j) k (pos u) j (unsigned u) (signed j) key h g
  key_eq-join byte _ _ k (uint_key u) (uint_key v) key h g =
      integers_join byte (uint u) (uint v) k (pos u) (pos v) (unsigned u) (unsigned v) key h g
  key_eq-join byte _ _ _ (bool_key x) (bool_key y) (a_bool z) h g = ground arith
  key_eq-join byte _ _ _ (string_key p n) (string_key q k) (a_string r j) h g =
      spans_join byte p n q k r j h g
  key_eq-join byte _ _ _ (bool_key x) (bool_key y) _ h g = cc
  key_eq-join byte _ _ _ (string_key p n) (string_key q k) _ h g = cc
  key_eq-join byte a b k sa sb key h g =
      let ea = class_eq byte a k sa key h in
      let eb = class_eq byte b k sb key g in absurd (omega arith)
