-- ===== src/Runtime/MapIndex/Runs.antt =====
-- runtime/cel_map_index.c: a map with eight integer keys, and one whose last key repeats the first.
use cel_spec_wasm.Prelude.{ℕ, ◌≡◌, ◌<◌, refl, false, arith, ◌%◌}
use cel_spec_wasm.Prelude.Int.{pos}
use cel_spec_wasm.Runtime.Value.{CelValue, int, double}
use cel_spec_wasm.Runtime.Compare.{cel_numeric_key_eq}
use cel_spec_wasm.Runtime.Compare.Ladder.{signed, kernel_order}
use cel_spec_wasm.Runtime.MapKey.{cel_map_key_eq, cel_map_key_hash}
use cel_spec_wasm.Runtime.MapKey.Hash.{a_double}
use cel_spec_wasm.Runtime.MapKey.Euclid.{int_key}
use cel_spec_wasm.Runtime.MapKey.Runs.{tiny, tiny-Lawful}
use cel_spec_wasm.Runtime.MapIndex.{
  Index, indexed, cel_map_index_build, cel_map_index_find, cel_map_index_num_slots, slots_loop,
}
use cel_spec_wasm.Runtime.MapIndex.Find.{scan_entries}
use cel_spec_wasm.Runtime.MapIndex.Keys.{map_index-scan}

abbrev zeros : ℕ → ℕ
zeros q = 0

-- The keys 0, 1, 2, ...
abbrev counting : ℕ → CelValue
counting e = int (pos e)

-- The keys 0 to 6, over and over.
abbrev wrapping : ℕ → CelValue
wrapping e = int (pos (e % 7))

-- The worked boundaries of the header: 8, 14, 15, 56 and 64 entries.
slots_boundaries :
    (cel_map_index_num_slots 8 ≡ 16)
    × (cel_map_index_num_slots 14 ≡ 16)
    × (cel_map_index_num_slots 15 ≡ 32)
    × (cel_map_index_num_slots 56 ≡ 64)
    × (cel_map_index_num_slots 64 ≡ 128)
unfolding cel_map_index_num_slots slots_loop
slots_boundaries = (refl, refl, refl, refl, refl)

ints_differ : (e i : ℕ) → e < i → cel_map_key_eq tiny zeros (int (pos e)) (int (pos i)) ≡ false
unfolding cel_map_key_eq cel_numeric_key_eq
ints_differ e i h =
    rw
      (kernel_order tiny (int (pos e)) (int (pos i)) (pos e) (pos i) (signed (pos e))
        (signed (pos i)))
      (ground arith)

map_index-scan_example :
    (idx : Index) × (cel_map_index_build
        (cel_map_key_eq tiny zeros)
        (cel_map_key_hash tiny zeros)
        counting
        8
        64
      ≡ indexed 64 idx)
    × (cel_map_index_find
          (cel_map_key_eq tiny zeros)
          (cel_map_key_hash tiny zeros)
          counting
          idx
          (double 5)
        ≡ scan_entries
            (cel_map_key_eq tiny zeros)
            (cel_map_key_hash tiny zeros)
            counting
            (double 5)
            0
            8)
map_index-scan_example =
    map_index-scan tiny tiny-Lawful zeros (λ q. omega arith) counting 8 64 (double 5) (omega arith)
      (omega arith) (λ h. omega arith) (λ e h. int_key (pos e)) (λ i hi e he. ints_differ e i he)
      (a_double 5)
