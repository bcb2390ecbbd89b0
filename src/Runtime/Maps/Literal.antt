-- ===== src/Runtime/Maps/Literal.antt =====
-- compiler/codegen/expr_lower.cc and runtime/cel_runtime.c: a map literal, that is a map that is
-- created, filled by one insertion for each entry and then indexed, and a lookup in it.
use cel_spec_wasm.Prelude.{
  ℕ, ◌+◌, ◌*◌, ◌^◌, ◌≡◌, ◌≢◌, ◌<◌, ◌≤◌, sym, false, List, [], ◌∷◌, length, arith, ◌==◌, ◌∙◌, All,
}
use mathlib.Core.Path.{subst}
use cel_spec_wasm.Runtime.Value.{CelValue, Arena, Memory, kind, align_up_8}
use cel_spec_wasm.Runtime.Compare.{Doubles}
use cel_spec_wasm.Runtime.MapKey.{cel_map_key_eq, cel_map_key_hash}
use cel_spec_wasm.Runtime.MapKey.Euclid.{Stored}
use cel_spec_wasm.Runtime.MapKey.Hash
use cel_spec_wasm.Runtime.MapKey.Hash.{IsKey, a_bool, an_int, a_uint, a_double, a_string, a_bytes}
use cel_spec_wasm.Runtime.Value.Laws.{Lawful}
use cel_spec_wasm.Runtime.BumpArena.{Allocator, Behaves}
use cel_spec_wasm.Runtime.BumpArena.Serves.{bump_arena, bump_arena-Lawful}
use cel_spec_wasm.Runtime.MapIndex.{KeyEq, Index}
use cel_spec_wasm.Runtime.MapIndex.Find
use cel_spec_wasm.Runtime.MapIndex.Find.{Distinct}
use cel_spec_wasm.Runtime.MapIndex.Keys.{IsKey-Lawful}
use cel_spec_wasm.Runtime.Maps.{
  index_map, entry_key, entry_key_at, entry_val_at, cel_map_create, cel_map_insert, cel_map_lookup,
  cel_map_lookup_arena, cel_map_arena,
}
use cel_spec_wasm.Runtime.Maps.Entries.{SameEntry, Shows-same, key_at, val_at, Distinct-same}
use cel_spec_wasm.Runtime.Maps.Push.{View, broken, holds, insert_view, Room, IsShown}
use cel_spec_wasm.Runtime.Maps.Insert.{insert-IsShown}
use cel_spec_wasm.Runtime.Maps.Room.{create-IsMap}
use cel_spec_wasm.Runtime.Maps.Lookup.{IsReady, index-IsReady}
use cel_spec_wasm.Runtime.Maps.Views.{
  literal_view, lookup_view, Code, evaluated, insert-Room, one_more, fill_literal, literal,
  IsKey-good, lookup-IsReady,
}

module _ (ar : Arena) (key_eq : KeyEq) (key_hash : CelValue → ℕ) (low : ℕ)
    (law : Lawful ar low) where
  -- What the code of an expression leaves alone: the cell of the map, and the regions in use.
  pub record Leaves (map_slot : ℕ) (m m1 : Memory ar.State) : Type 0 where
    pub cell : m1.cell map_slot ≡ m.cell map_slot
    pub still : (q k : ℕ) → law.Live m.heap.arena q k → law.Live m1.heap.arena q k
    pub words :
        (q k x : ℕ)
        → law.Live m.heap.arena q k
        → q ≤ x
        → x < q + align_up_8 k
        → m1.heap.word x ≡ m.heap.word x
    pub cells :
        (q k x : ℕ)
        → law.Live m.heap.arena q k
        → q ≤ x
        → x + 24 ≤ q + align_up_8 k
        → m1.cell x ≡ m.cell x

  -- The code of the key and that of the value change nothing that is in use, and the value is left
  -- below the arena.
  pub record IsEntry (map_slot : ℕ) (c : Code ar key_eq key_hash × Code ar key_eq key_hash)
      : Type 0 where
    pub key_pure : (m : Memory ar.State) → Leaves map_slot m (c.0 m).1
    pub value_pure : (m : Memory ar.State) → Leaves map_slot m (c.1 m).1
    pub value_low : (m : Memory ar.State) → (c.1 m).0 + 24 ≤ low

  Leaves-IsShown :
      (m m1 : Memory ar.State) (map_slot size : ℕ) (w : View)
      → IsShown ar key_eq key_hash low law m map_slot size w
      → Leaves map_slot m m1
      → IsShown ar key_eq key_hash low law m1 map_slot size w
  Leaves-IsShown m m1 map_slot size (broken w) (at_slot, h) l = (l.cell ∙ at_slot, h)
  Leaves-IsShown m m1 map_slot size (holds es) im l =
      let room = im.room in
      let fits = im.fits in
      let same : (j : ℕ) → j < length es → SameEntry m.cell m1.cell im.e j = λ j hj.
        let run = im.run_live (omega arith) in
        let kj : entry_key_at im.e j ≡ im.e + 48 * j = key_at im.e size j fits (omega arith) in
        let vj : entry_val_at im.e j ≡ im.e + 48 * j + 24 = val_at im.e size j fits (omega arith) in
        (
          l.cells im.e (48 * size) (entry_key_at im.e j) run (omega arith) (ground arith),
          l.cells im.e (48 * size) (entry_val_at im.e j) run (omega arith) (ground arith),
        ) in
      let word : (x : ℕ) → im.p ≤ x → x < im.p + 16 → m1.heap.word x ≡ m.heap.word x =
        λ x lo hi. l.words im.p 16 x im.header_live lo (omega arith) in
      record {
        p = im.p;
        e = im.e;
        cell = l.cell ∙ im.cell;
        count = word im.p (omega arith) (omega arith) ∙ im.count;
        capacity = word (im.p + 4) (omega arith) (omega arith) ∙ im.capacity;
        entries = word (im.p + 8) (omega arith) (omega arith) ∙ im.entries;
        no_index = word (im.p + 12) (omega arith) (omega arith) ∙ im.no_index;
        room = room;
        fits = fits;
        above = im.above;
        header_live = l.still im.p 16 im.header_live;
        run_live = λ some_room. l.still im.e (48 * size) (im.run_live some_room);
        shows = Shows-same m.cell m1.cell im.e 0 es (λ j hj. same j (omega arith)) im.shows;
        distinct =
            Distinct-same key_eq key_hash (entry_key m im.e) (entry_key m1 im.e) (length es)
              (λ j hj. (same j hj).0) im.distinct;
        stored = λ j hj. rw (same j hj).0 (im.stored j hj);
      }

  fill-IsShown :
      (m : Memory ar.State) (map_slot size : ℕ) (w : View)
      (cs : List (Code ar key_eq key_hash × Code ar key_eq key_hash))
      → IsShown ar key_eq key_hash low law m map_slot size w
      → Room w size (length cs)
      → map_slot + 24 ≤ low
      → All (IsEntry map_slot) cs
      → IsShown ar key_eq key_hash low law
          (fill_literal ar key_eq key_hash m map_slot cs)
          map_slot
          size
          (literal_view key_eq key_hash w (evaluated ar key_eq key_hash m map_slot cs))
  fill-IsShown m map_slot size w [] shown room hm pure = shown
  fill-IsShown m map_slot size w ((key, value) ∷ cs) shown room hm (entry, entries) =
      let m1 = (key m).1 in
      let m2 = (value m1).1 in
      let ks = (key m).0 in
      let vs = (value m1).0 in
      let ready =
        Leaves-IsShown m1 m2 map_slot size w
          (Leaves-IsShown m m1 map_slot size w shown (entry.key_pure m)) (entry.value_pure m1) in
      fill-IsShown (cel_map_insert ar key_eq key_hash m2 map_slot ks vs) map_slot size
        (insert_view key_eq key_hash w (m2.cell ks) (m2.cell vs)) cs
        (insert-IsShown ar key_eq key_hash low law m2 map_slot size ks vs w ready
          (one_more key_eq key_hash w size (length cs) room) hm (entry.value_low m1))
        (insert-Room key_eq key_hash w (m2.cell ks) (m2.cell vs) size (length cs) room) hm entries

  -- A lookup in what the insertions left, after the build.
  lookup-view :
      (host : Memory ar.State → ℕ → ℕ → ℕ → Memory ar.State) (m : Memory ar.State)
      (index : ℕ → Index) (map_slot size q out : ℕ) (w : View)
      → IsShown ar key_eq key_hash low law m map_slot size w
      → map_slot + 24 ≤ low
      → size ≤ 2 ^ 30
      → IsKey ((index_map ar key_eq key_hash m index map_slot).0.cell q)
      → ((f : ℕ → CelValue) (n : ℕ) (key : CelValue)
          → ((j : ℕ) → j < n → Stored (f j))
          → IsKey key
          → Find.Lawful key_eq key_hash f n key)
      → (cel_map_lookup ar key_eq key_hash host
            (index_map ar key_eq key_hash m index map_slot).0
            (index_map ar key_eq key_hash m index map_slot).1
            out
            map_slot
            q).cell
          out
        ≡ lookup_view key_eq key_hash w ((index_map ar key_eq key_hash m index map_slot).0.cell q)
  unfolding cel_map_lookup cel_map_lookup_arena index_map
  lookup-view host m index map_slot size q out (broken w) (at_slot, bad) hm few is_key agrees =
      let no_map : (kind w == cel_map_arena) ≡ false = ground arith in
      rw (at_slot, no_map, at_slot, bad) (ground arith)
  lookup-view host m index map_slot size q out (holds es) im hm few is_key agrees =
      let m' = (index_map ar key_eq key_hash m index map_slot).0 in
      let index' = (index_map ar key_eq key_hash m index map_slot).1 in
      let key = m'.cell q in
      let room = im.room in
      let ready : IsReady ar key_eq key_hash m' index' map_slot es key =
        index-IsReady ar key_eq key_hash low law m index map_slot size es key im hm (omega arith)
          (λ f stored. agrees f (length es) key stored is_key) in
      lookup-IsReady ar key_eq key_hash host m' index' map_slot q out es ready
        (IsKey-good ar key_eq key_hash key is_key)

-- The arena is that of cel_arena.c over a malloc that behaves and hands out above `low`; the keys are
-- those of CEL.
module _ {al : Allocator} (be : Behaves al) (low : ℕ)
    (high : (s : al.State) (n : ℕ) → (al.malloc s n).0 ≢ 0 → low ≤ (al.malloc s n).0)
    (dbl : Doubles) (doubles : Hash.Lawful dbl) (byte : ℕ → ℕ)
    (small : (q : ℕ) → byte q < 256) where
  abbrev pub heap : Arena
  heap = bump_arena be low high

  abbrev pub key_eq : KeyEq
  key_eq = cel_map_key_eq dbl byte

  abbrev pub key_hash : CelValue → ℕ
  key_hash = cel_map_key_hash dbl byte

  -- A map literal of at most 2 ^ 30 entries, none optional, created, filled and indexed in memory,
  -- answers a lookup as the list of the keys and values that the code of its entries leaves does:
  -- with the value of the entry that has an equal key, with NO_SUCH_KEY, or with the first error or
  -- unknown among the entries, TYPE_MISMATCH for a key of another kind and DUPLICATE_KEY for a
  -- repeated one included. The arena is the bump arena over a malloc that behaves, with room for
  -- the map; malloc hands out above the cell of the map and the values; the code of an entry leaves
  -- the cell of the map and the regions in use alone; the doubles are lawful, memory holds bytes,
  -- and the key looked up is of a kind that keys have.
  pub lookup-literal :
      (host : Memory heap.State → ℕ → ℕ → ℕ → Memory heap.State) (m : Memory heap.State)
      (index : ℕ → Index) (map_slot q out : ℕ)
      (cs : List (Code heap key_eq key_hash × Code heap key_eq key_hash)) (key : CelValue)
      → map_slot + 24 ≤ low
      → All (IsEntry heap key_eq key_hash low (bump_arena-Lawful be low high) map_slot) cs
      → length cs ≤ 2 ^ 30
      → kind ((cel_map_create heap key_eq key_hash m map_slot (length cs)).cell map_slot)
        ≡ cel_map_arena
      → (literal heap key_eq key_hash m index map_slot cs).0.cell q ≡ key
      → IsKey key
      → (cel_map_lookup heap key_eq key_hash host
            (literal heap key_eq key_hash m index map_slot cs).0
            (literal heap key_eq key_hash m index map_slot cs).1
            out
            map_slot
            q).cell
          out
        ≡ lookup_view key_eq key_hash
            (literal_view key_eq key_hash (holds []) (
              evaluated heap key_eq key_hash
                (cel_map_create heap key_eq key_hash m map_slot (length cs))
                map_slot
                cs))
            key
  lookup-literal host m index map_slot q out cs key hm pure few made at_q is_key =
      let law = bump_arena-Lawful be low high in
      let c = cel_map_create heap key_eq key_hash m map_slot (length cs) in
      let w =
        literal_view key_eq key_hash (holds []) (evaluated heap key_eq key_hash c map_slot cs) in
      let shown =
        fill-IsShown heap key_eq key_hash low law c map_slot (length cs) (holds []) cs
          (create-IsMap heap key_eq key_hash low law m map_slot (length cs) (ground arith))
          (omega arith) hm pure in
      subst
        (λ k.
          (cel_map_lookup heap key_eq key_hash host
              (literal heap key_eq key_hash m index map_slot cs).0
              (literal heap key_eq key_hash m index map_slot cs).1 out map_slot q).cell
            out
          ≡ lookup_view key_eq key_hash w k)
        at_q
        (lookup-view heap key_eq key_hash low law host
          (fill_literal heap key_eq key_hash c map_slot cs) index map_slot (length cs) q out w shown
          hm few (subst (λ k. IsKey k) (sym at_q) is_key)
          (λ f n k stored k_key. IsKey-Lawful dbl doubles byte small f n k stored k_key))
