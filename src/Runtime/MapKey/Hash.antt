-- ===== src/Runtime/MapKey/Hash.antt =====
-- runtime/cel_map_hash.h: keys that compare equal have the same hash.
use cel_spec_wasm.Prelude.{
  ℕ, zero, suc, ◌+◌, ◌-◌, ◌*◌, ◌/◌, ◌%◌, ◌^◌, ◌≡◌, ◌<◌, refl, sym, ap, ◌∙◌, Bool, true, false, ◌||◌,
  not, none, some, ◌==◌, ==_iff, if◌then◌else◌, arith, inl, inr, Bool-cases,
}
use Prim.Native.Nat.{bit_xor}
use mathlib.Core.Path.{subst}
use native.Mathlib.Nat.{zero-add, add-zero, suc-add}
use cel_spec_wasm.Prelude.Int.{ℤ, pos, eq_of_parts}
use cel_spec_wasm.Runtime.Value.{CelValue, bool, int, uint, double, string, bytes}
use cel_spec_wasm.Runtime.Arith.{int64_min}
use cel_spec_wasm.Runtime.Compare.{
  Doubles, is_equal, numeric_compare_kernel, cel_numeric_key_eq, double_as_int, double_as_uint,
  matches_int, matches_uint, double_matches_integer,
}
use cel_spec_wasm.Runtime.Compare.Ladder.{Integral, signed, unsigned, order, kernel_order}
use cel_spec_wasm.Runtime.MapKey.{
  u64, cel_mix64, hash_salt_bool, load, bytes_equal, words_equal, cel_byteptr_equal, spans_equal,
  same_truth, cel_value_eq, cel_map_key_eq, two_63, two_64, cel_hash_integer,
  cel_hash_nonneg_integer, fnv_loop, cel_hash_bytes, cel_hash_double_key, cel_map_key_hash,
}

-- What the hash takes of doubles: equal doubles compare and cast alike, a double that passes a
-- comparison is no NaN, the windows of the casts lie in one another, and the casts of a double
-- that both types hold agree.
pub record Lawful (dbl : Doubles) : Type 0 where
  pub same_self : (a b : ℕ) → dbl.eq a b ≡ true → dbl.eq a a ≡ dbl.eq b b
  pub same_le : (a b c : ℕ) → dbl.eq a b ≡ true → dbl.le c a ≡ dbl.le c b
  pub same_lt : (a b c : ℕ) → dbl.eq a b ≡ true → dbl.lt a c ≡ dbl.lt b c
  pub same_eq : (a b c : ℕ) → dbl.eq a b ≡ true → dbl.eq c a ≡ dbl.eq c b
  pub same_int : (a b : ℕ) → dbl.eq a b ≡ true → dbl.to_int a ≡ dbl.to_int b
  pub same_uint : (a b : ℕ) → dbl.eq a b ≡ true → dbl.to_uint a ≡ dbl.to_uint b
  pub le_self : (c d : ℕ) → dbl.le c d ≡ true → dbl.eq d d ≡ true
  pub below_63 :
      (d : ℕ) → dbl.le d (dbl.of_int (pos (2 ^ 63 - 1 - 512))) ≡ true → dbl.lt d two_63 ≡ true
  pub below_64 :
      (d : ℕ) → dbl.le d (dbl.of_uint (2 ^ 64 - 1 - 1024)) ≡ true → dbl.lt d two_64 ≡ true
  pub above_min : (d : ℕ) → dbl.le 0 d ≡ true → dbl.le (dbl.of_int int64_min) d ≡ true
  pub casts :
      (d : ℕ) → dbl.le 0 d ≡ true → dbl.lt d two_63 ≡ true → dbl.to_int d ≡ pos (dbl.to_uint d)
  pub casts_back : (u : ℕ) → u < 2 ^ 63 → dbl.of_int (pos u) ≡ dbl.of_uint u
  pub small : (d : ℕ) → dbl.le 0 d ≡ true → dbl.lt d two_63 ≡ true → dbl.to_uint d < 2 ^ 63

-- A kind of key.
pub data IsKey : CelValue → Type 0 where
  a_bool : (b : ℕ) → IsKey (bool b)
  an_int : (i : ℤ) → IsKey (int i)
  a_uint : (u : ℕ) → IsKey (uint u)
  a_double : (d : ℕ) → IsKey (double d)
  a_string : (p n : ℕ) → IsKey (string p n)
  a_bytes : (p n : ℕ) → IsKey (bytes p n)

add_one_assoc : (p n : ℕ) → p + 1 + n ≡ p + suc n
add_one_assoc p n = omega arith

zero_words : (rest : ℕ) → 8 * 0 + rest ≡ rest
zero_words rest = omega arith

module _ (byte : ℕ → ℕ) (small : (q : ℕ) → byte q < 256) where
  -- Words that agree have bytes that agree.
  load-bytes :
      (n p q k : ℕ)
      → load byte n p ≡ load byte n q
      → bytes_equal byte (p + n) (q + n) k ≡ true
      → bytes_equal byte p q (n + k) ≡ true
  unfolding load bytes_equal
  load-bytes zero p q k e h = rw (zero-add, ← add-zero p, ← add-zero q) h
  load-bytes (suc n) p q k e h =
      let bp = small p in
      let bq = small q in
      let same : byte p ≡ byte q = omega arith in
      let rest : load byte n (p + 1) ≡ load byte n (q + 1) = omega arith in
      rw (suc-add, same, (==_iff (byte q) (byte q)).1 refl)
        (load-bytes n (p + 1) (q + 1) k rest (rw (add_one_assoc p n, add_one_assoc q n) h))

  words-bytes :
      (n p q rest : ℕ)
      → words_equal byte p q n rest ≡ true
      → bytes_equal byte p q (8 * n + rest) ≡ true
  unfolding words_equal
  words-bytes zero p q rest h = rw (zero_words rest) h
  words-bytes (suc n) p q rest h =
      let e : load byte 8 p ≡ load byte 8 q = ground arith in
      let more : 8 * suc n + rest ≡ 8 + (8 * n + rest) = omega arith in
      rw more
        (load-bytes 8 p q (8 * n + rest) e (words-bytes n (p + 8) (q + 8) rest (ground arith)))

  spans-bytes :
      (p n q k : ℕ) → spans_equal byte p n q k ≡ true → (n ≡ k) × (bytes_equal byte p q n ≡ true)
  unfolding spans_equal cel_byteptr_equal bytes_equal
  spans-bytes p zero q k h = (ground arith, refl)
  spans-bytes p (suc n) q k h =
      let whole : 8 * (suc n / 8) + suc n % 8 ≡ suc n = omega arith in
      (
        ground arith,
        subst (λ m. bytes_equal byte p q m ≡ true) whole
            (words-bytes (suc n / 8) p q (suc n % 8) (ground arith)),
      )

  fnv_same :
      (n p q h : ℕ) → bytes_equal byte p q n ≡ true → fnv_loop byte h p n ≡ fnv_loop byte h q n
  unfolding fnv_loop bytes_equal
  fnv_same zero p q h e = refl
  fnv_same (suc n) p q h e =
      let same : byte p ≡ byte q = ground arith in
      rw same (fnv_same n (p + 1) (q + 1) _ (ground arith))

  span_hash :
      (p n q k salt : ℕ)
      → spans_equal byte p n q k ≡ true
      → cel_hash_bytes byte p n salt ≡ cel_hash_bytes byte q k salt
  unfolding cel_hash_bytes
  span_hash p n q k salt h =
      let (e, same) = spans-bytes p n q k h in
      rw (← e) (ap (λ t. cel_mix64 (bit_xor t (u64 (n * 2)))) (fnv_same n p q _ same))

module _ (dbl : Doubles) (law : Lawful dbl) where
  truth :
      (x y : ℕ)
      → same_truth x y ≡ true
      → ◌≡◌ {A = ℕ} (if x == 0 then 0 else 1) (if y == 0 then 0 else 1)
  truth x y h = ground arith

  pub order-equal : (x y : ℤ) → is_equal dbl (order x y) ≡ true → x ≡ y
  order-equal x y h = eq_of_parts x y (ground arith)

  hash-Integral :
      (byte : ℕ → ℕ) (v : CelValue) (x : ℤ)
      → Integral v x
      → cel_map_key_hash dbl byte v ≡ cel_hash_integer x
  unfolding cel_map_key_hash cel_hash_integer
  hash-Integral byte _ _ (signed i) = refl
  hash-Integral byte _ _ (unsigned u) = refl

  pub guards_int :
      (low high back : Bool) (v i : ℤ)
      → matches_int dbl (if not low || not high then none else if not back then none else some v) i
        ≡ true
      → (low ≡ true) × (high ≡ true) × (back ≡ true) × (v ≡ i)
  unfolding matches_int
  guards_int true true true v i h = (refl, refl, refl, eq_of_parts v i (ground arith))
  guards_int true true false v i h = cc
  guards_int true false back v i h = cc
  guards_int false high back v i h = cc

  pub guards_uint :
      (low high back : Bool) (v u : ℕ)
      → matches_uint dbl (if not low || not high then none else if not back then none else some v) u
        ≡ true
      → (low ≡ true) × (high ≡ true) × (back ≡ true) × (v ≡ u)
  unfolding matches_uint
  guards_uint true true true v u h = (refl, refl, refl, ground arith)
  guards_uint true true false v u h = cc
  guards_uint true false back v u h = cc
  guards_uint false high back v u h = cc

  -- A double that the lossless cast takes to an integer has the hash of that integer.
  double_int :
      (d : ℕ) (i : ℤ)
      → double_matches_integer dbl d (int i) ≡ true
      → cel_hash_double_key dbl d ≡ cel_hash_integer i
  unfolding double_matches_integer double_as_int cel_hash_double_key
  double_int d i h =
      let (low, high, back, value) =
        guards_int (dbl.le (dbl.of_int int64_min) d)
          (dbl.le d (dbl.of_int (pos (2 ^ 63 - 1 - 512)))) (dbl.eq (dbl.of_int (dbl.to_int d)) d)
          (dbl.to_int d) i h in
      rw (law.le_self _ d low, low, law.below_63 d high, back, value) refl

  double_uint :
      (d u : ℕ)
      → double_matches_integer dbl d (uint u) ≡ true
      → cel_hash_double_key dbl d ≡ cel_hash_nonneg_integer u
  unfolding double_matches_integer double_as_uint cel_hash_double_key cel_hash_integer
  double_uint d u h =
      let (low, high, back, value) =
        guards_uint (dbl.le 0 d) (dbl.le d (dbl.of_uint (2 ^ 64 - 1 - 1024)))
          (dbl.eq (dbl.of_uint (dbl.to_uint d)) d) (dbl.to_uint d) u h in
      elim (Bool-cases (dbl.lt d two_63)) [
        | inl below ↦
            let back' : dbl.eq (dbl.of_int (dbl.to_int d)) d ≡ true =
              rw (law.casts d low below, law.casts_back (dbl.to_uint d) (law.small d low below))
                back in
            rw
              (law.le_self 0 d low, law.above_min d low, below, back', law.casts d low below, value)
              refl
        | inr above ↦
            rw
              (
                law.le_self 0 d low,
                law.above_min d low,
                above,
                low,
                law.below_64 d high,
                back,
                value,
              )
              refl
      ]

  double_double :
      (a b : ℕ) → dbl.eq a b ≡ true → cel_hash_double_key dbl a ≡ cel_hash_double_key dbl b
  unfolding cel_hash_double_key
  double_double a b e =
      rw
        (
          law.same_self a b e,
          law.same_le a b (dbl.of_int int64_min) e,
          law.same_le a b 0 e,
          law.same_lt a b two_63 e,
          law.same_lt a b two_64 e,
          law.same_int a b e,
          law.same_uint a b e,
          law.same_eq a b (dbl.of_int (dbl.to_int b)) e,
          law.same_eq a b (dbl.of_uint (dbl.to_uint b)) e,
        )
        refl

  double_Integral :
      (byte : ℕ → ℕ) (d : ℕ) (v : CelValue) (x : ℤ)
      → Integral v x
      → double_matches_integer dbl d v ≡ true
      → cel_hash_double_key dbl d ≡ cel_map_key_hash dbl byte v
  unfolding cel_map_key_hash
  double_Integral byte d _ _ (signed i) h = double_int d i h
  double_Integral byte d _ _ (unsigned u) h = double_uint d u h

  Integral-hash :
      (byte : ℕ → ℕ) (a b : CelValue) (x y : ℤ)
      → Integral a x
      → Integral b y
      → is_equal dbl (numeric_compare_kernel dbl a b) ≡ true
      → cel_map_key_hash dbl byte a ≡ cel_map_key_hash dbl byte b
  Integral-hash byte a b x y ha hb h =
      let same : x ≡ y = order-equal x y (rw (kernel_order dbl a b x y ha hb) at h) in
      hash-Integral byte a x ha ∙ ap cel_hash_integer same ∙ sym (hash-Integral byte b y hb)

  -- Keys that compare equal, of the same kind or of two, have the same hash, when memory holds
  -- bytes and the doubles are lawful. The probe of the index rests on this.
  pub hash-key_eq :
      (byte : ℕ → ℕ) (a b : CelValue)
      → ((q : ℕ) → byte q < 256)
      → IsKey a
      → IsKey b
      → cel_map_key_eq dbl byte a b ≡ true
      → cel_map_key_hash dbl byte a ≡ cel_map_key_hash dbl byte b
  unfolding cel_map_key_eq cel_value_eq cel_numeric_key_eq cel_map_key_hash
  hash-key_eq byte _ _ small (an_int i) (an_int j) h =
      Integral-hash byte (int i) (int j) i j (signed i) (signed j) h
  hash-key_eq byte _ _ small (an_int i) (a_uint v) h =
      Integral-hash byte (int i) (uint v) i (pos v) (signed i) (unsigned v) h
  hash-key_eq byte _ _ small (a_uint u) (an_int j) h =
      Integral-hash byte (uint u) (int j) (pos u) j (unsigned u) (signed j) h
  hash-key_eq byte _ _ small (a_uint u) (a_uint v) h =
      Integral-hash byte (uint u) (uint v) (pos u) (pos v) (unsigned u) (unsigned v) h
  hash-key_eq byte _ _ small (a_double d) (an_int j) h =
      double_Integral byte d (int j) j (signed j) h
  hash-key_eq byte _ _ small (a_double d) (a_uint v) h =
      double_Integral byte d (uint v) (pos v) (unsigned v) h
  hash-key_eq byte _ _ small (an_int i) (a_double d) h =
      sym (double_Integral byte d (int i) i (signed i) h)
  hash-key_eq byte _ _ small (a_uint u) (a_double d) h =
      sym (double_Integral byte d (uint u) (pos u) (unsigned u) h)
  hash-key_eq byte _ _ small (a_double d) (a_double e) h = double_double d e h
  hash-key_eq byte _ _ small (a_bool x) (a_bool y) h =
      ap (λ t. cel_mix64 (bit_xor hash_salt_bool t)) (truth x y h)
  hash-key_eq byte _ _ small (a_string p n) (a_string q k) h = span_hash byte small p n q k _ h
  hash-key_eq byte _ _ small (a_bytes p n) (a_bytes q k) h = span_hash byte small p n q k _ h
  hash-key_eq byte _ _ small _ _ h = cc
