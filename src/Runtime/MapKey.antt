-- ===== src/Runtime/MapKey.antt =====
-- runtime/cel_runtime.c, cel_compare.c, cel_internal.h and cel_map_hash.h: the equality of scalar
-- values, the equality of map keys and their hash. The bytes of strings are a map `byte` of the
-- linear memory; comparisons and casts of doubles are the parameter of Runtime.Compare.
pub mod Hash
pub mod Euclid
pub mod Runs
use Prim.Native.Nat.{bit_xor}
use cel_spec_wasm.Prelude.{
  ℕ, zero, suc, ◌+◌, ◌-◌, ◌*◌, ◌/◌, ◌%◌, ◌^◌, ◌≡◌, Bool, true, false, ◌&&◌, ◌||◌, not, Option, none,
  some, ltb, leb, ◌==◌, if◌then◌else◌, bit_and,
}
use cel_spec_wasm.Prelude.Int.{ℤ, pos, negsuc, ltb_ℤ, eqb_ℤ, is_neg, magnitude}
use cel_spec_wasm.Runtime.Value.{
  CelValue, null, bool, int, uint, double, string, bytes, duration, timestamp, ip, cidr, kind,
  cel_bool, cel_int, cel_uint, cel_double,
}
use cel_spec_wasm.Runtime.Arith.{int64_min}
use cel_spec_wasm.Runtime.Compare.{
  Doubles, CmpResult, is_equal, is_numeric_kind, numeric_compare_kernel, cel_numeric_key_eq,
}

abbrev pub u64 : ℕ → ℕ
u64 n = n % 2 ^ 64

-- A number of `n` little-endian bytes at `p`.
unfoldable pub load : (ℕ → ℕ) → ℕ → ℕ → ℕ
load byte zero p = 0
load byte (suc n) p = byte p + 256 * load byte n (p + 1)

-- The loop over single bytes, and the one over words of eight, with what is left for the other.
unfoldable pub bytes_equal : (ℕ → ℕ) → ℕ → ℕ → ℕ → Bool
bytes_equal byte p q zero = true
bytes_equal byte p q (suc n) = (byte p == byte q) && bytes_equal byte (p + 1) (q + 1) n

unfoldable pub words_equal : (ℕ → ℕ) → ℕ → ℕ → ℕ → ℕ → Bool
unfolding load
words_equal byte p q zero rest = bytes_equal byte p q rest
words_equal byte p q (suc n) rest =
    (load byte 8 p == load byte 8 q) && words_equal byte (p + 8) (q + 8) n rest

unfoldable pub cel_byteptr_equal : (ℕ → ℕ) → ℕ → ℕ → ℕ → Bool
cel_byteptr_equal byte pa pb n = words_equal byte pa pb (n / 8) (n % 8)

unfoldable pub spans_equal : (ℕ → ℕ) → ℕ → ℕ → ℕ → ℕ → Bool
spans_equal byte pa la pb lb = (la == lb) && ((la == 0) || cel_byteptr_equal byte pa pb la)

-- `NetIp` and `NetCidr`: a family, a prefix length for the second, and 16 bytes.
net_ip_eq : (ℕ → ℕ) → ℕ → ℕ → Bool
unfolding bytes_equal load
net_ip_eq byte a b = (load byte 4 a == load byte 4 b) && bytes_equal byte (a + 4) (b + 4) 16

net_cidr_eq : (ℕ → ℕ) → ℕ → ℕ → Bool
unfolding bytes_equal load
net_cidr_eq byte a b =
    (load byte 4 a == load byte 4 b)
    && (load byte 4 (a + 4) == load byte 4 (b + 4))
    && bytes_equal byte (a + 8) (b + 8) 16

-- `(x != 0) == (y != 0)`
abbrev pub same_truth : ℕ → ℕ → Bool
same_truth x y = if x == 0 then y == 0 else not (y == 0)

module _ (dbl : Doubles) (byte : ℕ → ℕ) where
  -- A pair of numbers first, then each kind with itself.
  unfoldable pub cel_value_eq : CelValue → CelValue → Bool
  unfolding net_ip_eq net_cidr_eq
  cel_value_eq (string p n) (string q k) = spans_equal byte p n q k
  cel_value_eq (bool x) (bool y) = same_truth x y
  cel_value_eq (bytes p n) (bytes q k) = spans_equal byte p n q k
  cel_value_eq null null = true
  cel_value_eq (duration s n) (duration t k) = eqb_ℤ s t && eqb_ℤ n k
  cel_value_eq (timestamp s n) (timestamp t k) = eqb_ℤ s t && eqb_ℤ n k
  cel_value_eq (ip a) (ip b) = net_ip_eq byte a b
  cel_value_eq (cidr a) (cidr b) = net_cidr_eq byte a b
  cel_value_eq a b =
      if is_numeric_kind (kind a) && is_numeric_kind (kind b)
      then is_equal dbl (numeric_compare_kernel dbl a b)
      else false

  unfoldable pub cel_map_key_eq : CelValue → CelValue → Bool
  cel_map_key_eq a b =
      if is_numeric_kind (kind a) && is_numeric_kind (kind b)
      then cel_numeric_key_eq dbl a b
      else cel_value_eq a b

unfoldable pub cel_h1 : ℕ → ℕ
cel_h1 h = h / 2 ^ 7

unfoldable pub cel_h2 : ℕ → ℕ
cel_h2 h = bit_and h 0x7F

-- The bit patterns of 2 ^ 63 and 2 ^ 64 as doubles.
abbrev pub two_63 : ℕ
two_63 = 0x43E0000000000000

abbrev pub two_64 : ℕ
two_64 = 0x43F0000000000000

unfoldable pub cel_mix64 : ℕ → ℕ
cel_mix64 x =
    let x1 = u64 (x + 0x9E3779B97F4A7C15) in
    let x2 = u64 (bit_xor x1 (x1 / 2 ^ 30) * 0xBF58476D1CE4E5B9) in
    let x3 = u64 (bit_xor x2 (x2 / 2 ^ 27) * 0x94D049BB133111EB) in bit_xor x3 (x3 / 2 ^ 31)

abbrev pub hash_salt_bool : ℕ
hash_salt_bool = 0x00B001B001B001B0

abbrev pub hash_salt_str : ℕ
hash_salt_str = 0x0057812345678900

abbrev pub hash_salt_bytes : ℕ
hash_salt_bytes = 0x00B47E5678901234

pub cel_hash_double_sentinel : ℕ
unfolding cel_mix64
cel_hash_double_sentinel = cel_mix64 0xDEADD0D0FFFFFFFF

-- `cel_hash_int_token` and `cel_hash_uint_high_token`
unfoldable pub cel_hash_nonneg_integer : ℕ → ℕ
cel_hash_nonneg_integer v =
    if leb v (2 ^ 63 - 1) then cel_mix64 v else cel_mix64 (bit_xor v 0x4000000000000000)

unfoldable pub cel_hash_neg_int_token : ℤ → ℕ
cel_hash_neg_int_token v = cel_mix64 (bit_xor (magnitude v) 0x8000000000000000)

unfoldable pub cel_hash_integer : ℤ → ℕ
cel_hash_integer v =
    if is_neg v then cel_hash_neg_int_token v else cel_hash_nonneg_integer (magnitude v)

-- The loop of `cel_hash_bytes`, over the bytes from `p` on.
unfoldable pub fnv_loop : (ℕ → ℕ) → ℕ → ℕ → ℕ → ℕ
fnv_loop byte h p zero = h
fnv_loop byte h p (suc n) = fnv_loop byte (u64 (bit_xor h (byte p) * 0x00000100000001B3)) (p + 1) n

unfoldable pub cel_hash_bytes : (ℕ → ℕ) → ℕ → ℕ → ℕ → ℕ
cel_hash_bytes byte ptr len salt =
    cel_mix64 (bit_xor (fnv_loop byte (bit_xor salt 0xCBF29CE484222325) ptr len) (u64 (len * 2)))

module _ (dbl : Doubles) where
  unfoldable pub cel_hash_double_key : ℕ → ℕ
  cel_hash_double_key d =
      let i = dbl.to_int d in
      let u = dbl.to_uint d in
      if not (dbl.eq d d)
      then cel_hash_double_sentinel
      else if dbl.le (dbl.of_int int64_min) d && dbl.lt d two_63
      then (if dbl.eq (dbl.of_int i) d then cel_hash_integer i else cel_hash_double_sentinel)
      else if dbl.le 0 d && dbl.lt d two_64
      then (if dbl.eq (dbl.of_uint u) d
          then cel_hash_nonneg_integer u
          else cel_hash_double_sentinel)
      else cel_hash_double_sentinel

  unfoldable pub cel_map_key_hash : (ℕ → ℕ) → CelValue → ℕ
  cel_map_key_hash byte (bool b) = cel_mix64 (bit_xor hash_salt_bool (if b == 0 then 0 else 1))
  cel_map_key_hash byte (int v) = cel_hash_integer v
  cel_map_key_hash byte (uint u) = cel_hash_nonneg_integer u
  cel_map_key_hash byte (double d) = cel_hash_double_key d
  cel_map_key_hash byte (string p n) = cel_hash_bytes byte p n hash_salt_str
  cel_map_key_hash byte (bytes p n) = cel_hash_bytes byte p n hash_salt_bytes
  cel_map_key_hash byte _ = cel_hash_double_sentinel
