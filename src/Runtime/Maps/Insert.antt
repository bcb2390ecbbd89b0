-- ===== src/Runtime/Maps/Insert.antt =====
-- runtime/cel_runtime.c: `cel_map_insert` against a list of entries.
use cel_spec_wasm.Prelude.{
  ℕ, ◌+◌, ◌≡◌, ◌≤◌, refl, true, false, leb, Bool-cases, Option, none, some, List, [], ◌∷◌, ◌++◌,
  length, inl, inr, if◌then◌else◌, arith, ◌==◌,
}
use cel_spec_wasm.Runtime.Value.{
  CelValue, error, kind, Arena, Memory, write, err_type_mismatch, err_overflow, poison,
}
use cel_spec_wasm.Runtime.Value.Laws.{Lawful}
use cel_spec_wasm.Runtime.MapIndex.{KeyEq, Probe, found, absent, lost}
use cel_spec_wasm.Runtime.MapIndex.Find.{scan_entries, Scanned, missing, scan-Scanned}
use cel_spec_wasm.Runtime.Maps.{
  cel_map_insert, push_entry, entry_key, is_poisoned, is_valid_map_key_kind, err_duplicate_key,
  cel_map_arena, arena_map_header, header_ptr,
}
use cel_spec_wasm.Runtime.Maps.Entries.{Entry, assoc, answer, scan-assoc}
use cel_spec_wasm.Runtime.Maps.Push.{
  View, broken, holds, insert_view, Room, IsMap, IsShown, push-IsMap,
}

module _ (ar : Arena) (key_eq : KeyEq) (key_hash : CelValue → ℕ) (low : ℕ)
    (law : Lawful ar low) where
  -- A cell that is no map.
  write-broken :
      (m : Memory ar.State) (map_slot size : ℕ) (w : CelValue)
      → is_poisoned w ≡ true
      → IsShown ar key_eq key_hash low law (write m map_slot w) map_slot size (broken w)
  write-broken m map_slot size w h = (ground arith, h)

  poisoned-kind : (w : CelValue) → is_poisoned w ≡ true → (kind w == cel_map_arena) ≡ false
  poisoned-kind w h = ground arith

  -- What follows the loop over the entries, given what that found.
  searched-IsShown :
      (m : Memory ar.State) (map_slot size ks vs : ℕ) (es : List Entry)
      (im : IsMap ar key_eq key_hash low law m map_slot size es)
      → length es + 1 ≤ size
      → map_slot + 24 ≤ low
      → vs + 24 ≤ low
      → is_valid_map_key_kind (kind (m.cell ks)) ≡ true
      → (r : Probe) (o : Option CelValue) → answer key_eq key_hash m.cell im.e r ≡ some o
      → Scanned key_eq key_hash (entry_key m im.e) (m.cell ks) 0 (length es) r
      → IsShown ar key_eq key_hash low law
          (elim r [
            | found i ↦ write m map_slot (error err_duplicate_key)
            | absent ↦
                if leb
                  (arena_map_header m.heap.word (header_ptr (m.cell map_slot))).capacity
                  (arena_map_header m.heap.word (header_ptr (m.cell map_slot))).count
                then poison m map_slot err_overflow
                else push_entry m (header_ptr (m.cell map_slot)) ks vs
            | lost ↦ m
          ])
          map_slot
          size
          (elim o [
            | some _ ↦ broken (error err_duplicate_key)
            | none ↦ holds (es ++ ((m.cell ks, m.cell vs) ∷ []))
          ])
  searched-IsShown m map_slot size ks vs es im more hm hv valid (found i) (some v) a h =
      write-broken m map_slot size (error err_duplicate_key) refl
  searched-IsShown m map_slot size ks vs es im more hm hv valid absent none a (missing new) =
      let more_room : leb size (length es) ≡ false = ground arith in
      rw (im.cell, im.capacity, im.count, more_room)
        (push-IsMap ar key_eq key_hash low law m map_slot size ks vs es im more hm hv valid
          (λ j lt. new j (omega arith) (omega arith)))
  searched-IsShown m map_slot size ks vs es im more hm hv valid (found i) none a h = cc
  searched-IsShown m map_slot size ks vs es im more hm hv valid absent (some v) a h = cc
  searched-IsShown m map_slot size ks vs es im more hm hv valid lost o a h = cc

  -- `cel_map_insert` on a map with room for one more entry does what the view says.
  pub insert-IsShown :
      (m : Memory ar.State) (map_slot size ks vs : ℕ) (w : View)
      → IsShown ar key_eq key_hash low law m map_slot size w
      → Room w size 1
      → map_slot + 24 ≤ low
      → vs + 24 ≤ low
      → IsShown ar key_eq key_hash low law
          (cel_map_insert ar key_eq key_hash m map_slot ks vs)
          map_slot
          size
          (insert_view key_eq key_hash w (m.cell ks) (m.cell vs))
  unfolding cel_map_insert insert_view
  insert-IsShown m map_slot size ks vs (broken w) (at_slot, h) more hm hv =
      rw (at_slot, poisoned-kind w h) (at_slot, h)
  insert-IsShown m map_slot size ks vs (holds es) im more hm hv =
      elim (Bool-cases (is_poisoned (m.cell ks))) [
        | inl bad ↦ rw (im.cell, bad) (write-broken m map_slot size (m.cell ks) bad)
        | inr good ↦ elim (Bool-cases (is_poisoned (m.cell vs))) [
          | inl bad ↦ rw (im.cell, good, bad) (write-broken m map_slot size (m.cell vs) bad)
          | inr fine ↦ elim (Bool-cases (is_valid_map_key_kind (kind (m.cell ks)))) [
            | inr other ↦
                rw (im.cell, good, fine, other)
                  (write-broken m map_slot size (error err_type_mismatch) refl)
            | inl valid ↦
                rw (im.cell, good, fine, valid)
                  (rw (im.entries, im.count)
                    (searched-IsShown m map_slot size ks vs es im more hm hv valid
                      (scan_entries key_eq key_hash (entry_key m im.e) (m.cell ks) 0 (length es))
                      (assoc key_eq key_hash (m.cell ks) es)
                      (scan-assoc key_eq key_hash m.cell im.e 0 es (m.cell ks) im.shows)
                      (scan-Scanned key_eq key_hash (entry_key m im.e) (m.cell ks) 0 (length es))))
          ]
        ]
      ]
