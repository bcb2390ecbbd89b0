-- ===== src/Runtime/MapIndex/Keys.antt =====
-- runtime/cel_map_index.c over the keys of CEL: the equality and the hash of cel_map_hash.h are what
-- the index asks for.
use cel_spec_wasm.Prelude.{ℕ, ◌^◌, ◌≡◌, ◌≢◌, ◌≤◌, ◌<◌, Bool}
use cel_spec_wasm.Runtime.Value.{CelValue}
use cel_spec_wasm.Runtime.Compare.{Doubles}
use cel_spec_wasm.Runtime.MapKey.{cel_map_key_eq, cel_map_key_hash}
use cel_spec_wasm.Runtime.MapKey.Hash
use cel_spec_wasm.Runtime.MapKey.Hash.{IsKey, hash-key_eq}
use cel_spec_wasm.Runtime.MapKey.Euclid.{Stored, Stored-IsKey, key_eq-join}
use cel_spec_wasm.Runtime.MapIndex.{Index, indexed, cel_map_index_build, cel_map_index_find}
use cel_spec_wasm.Runtime.MapIndex.Find
use cel_spec_wasm.Runtime.MapIndex.Find.{scan_entries, Distinct}
use cel_spec_wasm.Runtime.MapIndex.Answers.{index-scan}

module _ (dbl : Doubles) (law : Hash.Lawful dbl) (byte : ℕ → ℕ) (small : (q : ℕ) → byte q < 256)
    (entry_key : ℕ → CelValue) where
  abbrev key_eq : CelValue → CelValue → Bool
  key_eq = cel_map_key_eq dbl byte

  abbrev key_hash : CelValue → ℕ
  key_hash = cel_map_key_hash dbl byte

  pub IsKey-Lawful :
      (count : ℕ) (key : CelValue)
      → ((e : ℕ) → e < count → Stored (entry_key e))
      → IsKey key
      → Find.Lawful key_eq key_hash entry_key count key
  IsKey-Lawful count key stored k = record {
    same_hash = λ e he match.
        hash-key_eq dbl law byte (entry_key e) key small (Stored-IsKey (entry_key e) (stored e he))
          k match;
    euclid = λ e e' he he' match match'.
        key_eq-join dbl law byte (entry_key e) (entry_key e') key (stored e he) (stored e' he') k
          match match';
  }

  -- A map of 8 to 2 ^ 30 entries, with keys of the kinds that maps hold and no two of them equal,
  -- gets an index when there is a block for it, and `cel_map_index_find` on the index answers for
  -- a key, a double included, as the scan over the entries does. In particular the probe ends
  -- within one visit of each group. The doubles are lawful and memory holds bytes.
  pub map_index-scan :
      (count block_off : ℕ) (key : CelValue)
      → 8 ≤ count
      → count ≤ 2 ^ 30
      → block_off ≢ 0
      → ((e : ℕ) → e < count → Stored (entry_key e))
      → Distinct key_eq key_hash entry_key count
      → IsKey key
      → (idx : Index) × (cel_map_index_build key_eq key_hash entry_key count block_off
          ≡ indexed block_off idx)
        × (cel_map_index_find key_eq key_hash entry_key idx key
            ≡ scan_entries key_eq key_hash entry_key key 0 count)
  map_index-scan count block_off key large few got stored distinct k =
      let (idx, built, same) =
        index-scan key_eq key_hash entry_key count block_off large few got distinct in
      (idx, built, same key (IsKey-Lawful count key stored k))
