-- ===== src/Runtime/Maps/Lookup.antt =====
-- runtime/cel_runtime.c and cel_map_index.c: after `cel_map_index_build`, whether it made an index or
-- not, a key is located as the list of entries has it.
use cel_spec_wasm.Prelude.{
  ℕ, ◌+◌, ◌*◌, ◌^◌, ◌≡◌, ◌<◌, ◌≤◌, ◌∙◌, true, false, Bool-cases, some, List, length, inl, inr,
  if◌then◌else◌, arith, ◌==◌, ltb,
}
use cel_spec_wasm.Runtime.Value.{CelValue, map_arena, Arena, Memory}
use cel_spec_wasm.Runtime.MapKey.Euclid.{Stored}
use cel_spec_wasm.Runtime.Value.Laws.{Lawful}
use cel_spec_wasm.Runtime.MapIndex.{
  KeyEq, Index, cel_map_index_build, cel_map_index_find, cel_map_index_num_slots, index_block_bytes,
}
use cel_spec_wasm.Runtime.MapIndex.Find
use cel_spec_wasm.Runtime.MapIndex.Find.{scan_entries, Distinct}
use cel_spec_wasm.Runtime.MapIndex.Answers.{index-scan}
use cel_spec_wasm.Runtime.Maps.{
  index_map, verdict, locate, request, set_word, arena_map_header, entry_key, entry_key_at,
  entry_val_at,
}
use cel_spec_wasm.Runtime.Maps.Entries.{
  Entry, SameEntry, Shows, Shows-same, key_at, val_at, assoc, answer, scan-assoc, Distinct-same,
}
use cel_spec_wasm.Runtime.Maps.Push.{IsMap}
use cel_spec_wasm.Runtime.Maps.Room.{IsGiven, request-IsGiven}

module _ (ar : Arena) (key_eq : KeyEq) (key_hash : CelValue → ℕ) where
  -- A key is located in the map of the cell as the list has it.
  pub record IsReady (m : Memory ar.State) (index : ℕ → Index) (map_slot : ℕ) (es : List Entry)
      (key : CelValue) : Type 0 where
    pub p : ℕ
    pub e : ℕ
    pub cell : m.cell map_slot ≡ map_arena p
    pub entries : m.heap.word (p + 8) ≡ e
    pub finds :
        answer key_eq key_hash m.cell e
          (locate ar key_eq key_hash m index (arena_map_header m.heap.word p) key)
        ≡ some (assoc key_eq key_hash key es)

  -- The entries of a map with header at `p` and run at `e`.
  pub record IsLaid (m : Memory ar.State) (map_slot p e : ℕ) (es : List Entry) : Type 0 where
    pub cell : m.cell map_slot ≡ map_arena p
    pub count : m.heap.word p ≡ length es
    pub entries : m.heap.word (p + 8) ≡ e
    pub shows : Shows m.cell e 0 es

  -- Without an index the loop answers.
  linear-IsReady :
      (m : Memory ar.State) (index : ℕ → Index) (map_slot p e : ℕ) (es : List Entry)
      (key : CelValue)
      → IsLaid m map_slot p e es
      → IsReady (set_word m (p + 12) 0) index map_slot es key
  unfolding locate
  linear-IsReady m index map_slot p e es key laid =
      let w0 : (p == p + 12) ≡ false = ground arith in
      let w8 : (p + 8 == p + 12) ≡ false = ground arith in
      let w12 : (p + 12 == p + 12) ≡ true = ground arith in
      record {
        p = p;
        e = e;
        cell = laid.cell;
        entries = rw w8 laid.entries;
        finds =
            rw (w12, w0, w8, laid.count, laid.entries)
              (scan-assoc key_eq key_hash m.cell e 0 es key laid.shows);
      }

  indexed-IsReady :
      (m : Memory ar.State) (index : ℕ → Index) (map_slot p e b : ℕ) (es : List Entry)
      (key : CelValue) (idx : Index)
      → IsLaid m map_slot p e es
      → (b == 0) ≡ false
      → cel_map_index_find key_eq key_hash (entry_key m e) idx key
        ≡ scan_entries key_eq key_hash (entry_key m e) key 0 (length es)
      → IsReady (set_word m (p + 12) b) (λ q. if q == b then idx else index q) map_slot es key
  unfolding locate
  indexed-IsReady m index map_slot p e b es key idx laid some_block same =
      let w0 : (p == p + 12) ≡ false = ground arith in
      let w8 : (p + 8 == p + 12) ≡ false = ground arith in
      let w12 : (p + 12 == p + 12) ≡ true = ground arith in
      let here : (b == b) ≡ true = ground arith in
      record {
        p = p;
        e = e;
        cell = laid.cell;
        entries = rw w8 laid.entries;
        finds =
            rw (w12, w8, some_block, here, laid.entries, same)
              (scan-assoc key_eq key_hash m.cell e 0 es key laid.shows);
      }

module _ (ar : Arena) (key_eq : KeyEq) (key_hash : CelValue → ℕ) (low : ℕ)
    (law : Lawful ar low) where
  IsLaid-here :
      (m : Memory ar.State) (map_slot size : ℕ) (es : List Entry)
      → (im : IsMap ar key_eq key_hash low law m map_slot size es)
      → IsLaid ar key_eq key_hash m map_slot im.p im.e es
  IsLaid-here m map_slot size es im = record {
    cell = im.cell;
    count = im.count;
    entries = im.entries;
    shows = im.shows;
  }

  -- A request leaves the entries of a map where they are.
  same_entry :
      (m m1 : Memory ar.State) (map_slot size n b : ℕ) (es : List Entry)
      → (im : IsMap ar key_eq key_hash low law m map_slot size es)
      → IsGiven ar key_eq key_hash low law m n b m1
      → (j : ℕ) → j < length es
      → SameEntry m.cell m1.cell im.e j
  same_entry m m1 map_slot size n b es im given j hj =
      let room = im.room in
      let fits = im.fits in
      let run = im.run_live (omega arith) in
      let kj : entry_key_at im.e j ≡ im.e + 48 * j = key_at im.e size j fits (omega arith) in
      let vj : entry_val_at im.e j ≡ im.e + 48 * j + 24 = val_at im.e size j fits (omega arith) in
      (
        given.cells im.e (48 * size) (entry_key_at im.e j) run (omega arith) (ground arith),
        given.cells im.e (48 * size) (entry_val_at im.e j) run (omega arith) (ground arith),
      )

  IsLaid-IsGiven :
      (m m1 : Memory ar.State) (map_slot size n b : ℕ) (es : List Entry)
      → (im : IsMap ar key_eq key_hash low law m map_slot size es) → map_slot + 24 ≤ low
      → IsGiven ar key_eq key_hash low law m n b m1
      → IsLaid ar key_eq key_hash m1 map_slot im.p im.e es
  IsLaid-IsGiven m m1 map_slot size n b es im hm given = record {
    cell = given.low_cells map_slot hm ∙ im.cell;
    count = given.words im.p 16 im.p im.header_live (omega arith) (omega arith) ∙ im.count;
    entries =
        given.words im.p 16 (im.p + 8) im.header_live (omega arith) (omega arith) ∙ im.entries;
    shows =
        Shows-same m.cell m1.cell im.e 0 es
          (λ j hj. same_entry m m1 map_slot size n b es im given j (omega arith)) im.shows;
  }

  -- After the build a key is located as the list of the entries has it.
  pub index-IsReady :
      (m : Memory ar.State) (index : ℕ → Index) (map_slot size : ℕ) (es : List Entry)
      (key : CelValue)
      → IsMap ar key_eq key_hash low law m map_slot size es
      → map_slot + 24 ≤ low
      → length es ≤ 2 ^ 30
      → ((f : ℕ → CelValue)
          → ((j : ℕ) → j < length es → Stored (f j))
          → Find.Lawful key_eq key_hash f (length es) key)
      → IsReady ar key_eq key_hash
          (index_map ar key_eq key_hash m index map_slot).0
          (index_map ar key_eq key_hash m index map_slot).1
          map_slot
          es
          key
  unfolding index_map verdict cel_map_index_build
  index-IsReady m index map_slot size es key im hm few agrees =
      elim (Bool-cases (ltb (length es) 8)) [
        | inl small ↦
            rw (im.cell, im.count, small, im.cell, im.count, small)
              (linear-IsReady ar key_eq key_hash m index map_slot im.p im.e es key
                (IsLaid-here m map_slot size es im))
        | inr large ↦
            let bytes = index_block_bytes (cel_map_index_num_slots (length es)) in
            let b = (request ar key_eq key_hash m bytes).0 in
            let m1 = (request ar key_eq key_hash m bytes).1 in
            let given = request-IsGiven ar key_eq key_hash low law m bytes in
            let laid = IsLaid-IsGiven m m1 map_slot size bytes b es im hm given in
            elim (Bool-cases (b == 0)) [
              | inl nothing ↦
                  rw (im.cell, im.count, large, laid.cell, laid.count, large, nothing)
                    (linear-IsReady ar key_eq key_hash m1 index map_slot im.p im.e es key laid)
              | inr some_block ↦
                  let same : (j : ℕ) → j < length es → entry_key m1 im.e j ≡ entry_key m im.e j =
                    λ j hj. (same_entry m m1 map_slot size bytes b es im given j hj).0 in
                  let (idx, built, finds) =
                    index-scan key_eq key_hash (entry_key m1 im.e) (length es) b (ground arith) few
                      (λ z. ground arith)
                      (Distinct-same key_eq key_hash (entry_key m im.e) (entry_key m1 im.e)
                        (length es) same im.distinct) in
                  rw (im.cell, im.count, large, laid.cell, laid.count, laid.entries, built)
                    (indexed-IsReady ar key_eq key_hash m1 index map_slot im.p im.e b es key idx
                      laid some_block
                      (finds key
                        (agrees (entry_key m1 im.e) (λ j hj. rw (same j hj) (im.stored j hj)))))
            ]
      ]
