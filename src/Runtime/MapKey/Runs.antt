-- ===== src/Runtime/MapKey/Runs.antt =====
-- runtime/cel_map_hash.h: an int, a uint and a double of one value share a hash.
use cel_spec_wasm.Prelude.{◌≡◌, refl, ◌==◌, leb, ltb, if◌then◌else◌, arith, ◌&&◌}
use cel_spec_wasm.Prelude.Int.{pos, magnitude, is_neg}
use cel_spec_wasm.Runtime.Value.{int, double}
use cel_spec_wasm.Runtime.Compare.{
  Doubles, cel_numeric_key_eq, double_matches_integer, double_as_int, matches_int,
}
use cel_spec_wasm.Runtime.MapKey.{cel_map_key_eq, cel_map_key_hash}
use cel_spec_wasm.Runtime.MapKey.Hash.{Lawful, an_int, a_double, hash-key_eq}

-- A few doubles: the patterns 0 to 8 stand for themselves and 9 for a number that is larger, to
-- which the larger integers round; every other pattern is a NaN or a bound.
abbrev pub tiny : Doubles
tiny = record {
  eq = λ a b. (a == b) && leb a 9;
  lt = λ a b. leb a 9 && ltb a b;
  le = λ a b. leb a b && leb b 9;
  of_int = λ i. if is_neg i then 0 else if leb (magnitude i) 8 then magnitude i else 9;
  of_uint = λ u. if leb u 8 then u else 9;
  to_int = λ d. if leb d 9 then pos d else pos 0;
  to_uint = λ d. if leb d 9 then d else 0;
}

pub tiny-Lawful : Lawful tiny
tiny-Lawful = record {
  same_self = λ a b h. ground arith;
  same_le = λ a b c h. ground arith;
  same_lt = λ a b c h. ground arith;
  same_eq = λ a b c h. ground arith;
  same_int = λ a b h. ground arith;
  same_uint = λ a b h. ground arith;
  le_self = λ c d h. ground arith;
  below_63 = λ d h. ground arith;
  below_64 = λ d h. ground arith;
  above_min = λ d h. ground arith;
  casts = λ d h k. ground arith;
  casts_back = λ u h. ground arith;
  small = λ d h k. ground arith;
}

hash-key_eq_example :
    cel_map_key_hash tiny (λ q. 0) (double 5) ≡ cel_map_key_hash tiny (λ q. 0) (int (pos 5))
unfolding cel_map_key_eq cel_numeric_key_eq double_matches_integer double_as_int matches_int
hash-key_eq_example =
    hash-key_eq tiny tiny-Lawful (λ q. 0) (double 5) (int (pos 5)) (λ q. omega arith) (a_double 5)
      (an_int (pos 5)) refl
