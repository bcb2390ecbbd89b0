-- ===== src/Runtime/Maps/Push.antt =====
-- runtime/cel_runtime.c: a map as a list of entries, and the entry that an insertion puts behind it.
use cel_spec_wasm.Prelude.{
  ℕ, ◌+◌, ◌*◌, ◌^◌, ◌≡◌, ◌<◌, ◌≤◌, refl, sym, ◌∙◌, true, false, not, Bool-cases, none, some, List,
  [], ◌∷◌, ◌++◌, length, inl, inr, if◌then◌else◌, arith, ==_iff, ◌==◌, length-append,
}
use mathlib.Core.Path.{subst}
use cel_spec_wasm.Runtime.Value.{CelValue, error, map_arena, kind, Arena, Memory, err_type_mismatch}
use cel_spec_wasm.Runtime.Value.Laws.{Lawful}
use cel_spec_wasm.Runtime.MapKey.Euclid.{Stored}
use cel_spec_wasm.Runtime.MapIndex.{KeyEq}
use cel_spec_wasm.Runtime.MapIndex.Find.{Distinct, Unmatched}
use cel_spec_wasm.Runtime.Maps.{
  push_entry, entry_key, entry_key_at, entry_val_at, is_poisoned, is_valid_map_key_kind,
  err_duplicate_key,
}
use cel_spec_wasm.Runtime.Maps.Entries.{
  Entry, SameEntry, Shows, Shows-same, Shows-append_first, key_at, val_at, valid-Stored, assoc,
  Distinct-same, Distinct-more,
}

-- What a map literal comes to: an error or an unknown that took the place of the map, or the
-- entries in their order.
pub data View : Type 0 where
  broken : CelValue → View
  holds : List Entry → View

-- One more entry, by the rules of the language.
module _ (key_eq : KeyEq) (key_hash : CelValue → ℕ) where
  unfoldable pub insert_view : View → CelValue → CelValue → View
  insert_view (broken w) k v = broken w
  insert_view (holds es) k v =
      if is_poisoned k
      then broken k
      else if is_poisoned v
      then broken v
      else if not (is_valid_map_key_kind (kind k))
      then broken (error err_type_mismatch)
      else elim (assoc key_eq key_hash k es) [
        | some _ ↦ broken (error err_duplicate_key)
        | none ↦ holds (es ++ ((k, v) ∷ []))
      ]

-- How many more entries fit.
abbrev pub Room : View → ℕ → ℕ → Type 0
Room (broken w) size n = Unit {0}
Room (holds es) size n = length es + n ≤ size

module _ (ar : Arena) (key_eq : KeyEq) (key_hash : CelValue → ℕ) (low : ℕ)
    (law : Lawful ar low) where
  -- The map of the cell `map_slot` has a run for `size` entries, at `e`, and holds those of the list.
  pub record IsMap (m : Memory ar.State) (map_slot size : ℕ) (es : List Entry) : Type 0 where
    pub p : ℕ
    pub e : ℕ
    pub cell : m.cell map_slot ≡ map_arena p
    pub count : m.heap.word p ≡ length es
    pub capacity : m.heap.word (p + 4) ≡ size
    pub entries : m.heap.word (p + 8) ≡ e
    pub no_index : m.heap.word (p + 12) ≡ 0
    pub room : length es ≤ size
    pub fits : e + 48 * size ≤ 2 ^ 32
    pub above : 0 < size → low ≤ e
    pub header_live : law.Live m.heap.arena p 16
    pub run_live : 0 < size → law.Live m.heap.arena e (48 * size)
    pub shows : Shows m.cell e 0 es
    pub distinct : Distinct key_eq key_hash (entry_key m e) (length es)
    pub stored : (j : ℕ) → j < length es → Stored (entry_key m e j)

  abbrev pub IsShown : Memory ar.State → ℕ → ℕ → View → Type 0
  IsShown m map_slot size (broken w) = (m.cell map_slot ≡ w) × (is_poisoned w ≡ true)
  IsShown m map_slot size (holds es) = IsMap m map_slot size es

  -- The cells that `push_entry` writes, and those it leaves.
  push_cells :
      (m : Memory ar.State) (p e n ks vs : ℕ)
      → m.heap.word p ≡ n
      → m.heap.word (p + 8) ≡ e
      → (entry_val_at e n == entry_key_at e n) ≡ false
      → (entry_key_at e n == entry_val_at e n) ≡ false
      → (vs == entry_key_at e n) ≡ false
      → ((push_entry m p ks vs).cell (entry_key_at e n) ≡ m.cell ks)
        × ((push_entry m p ks vs).cell (entry_val_at e n) ≡ m.cell vs)
        × ((x : ℕ)
            → (x == entry_key_at e n) ≡ false
            → (x == entry_val_at e n) ≡ false
            → (push_entry m p ks vs).cell x ≡ m.cell x)
  unfolding push_entry
  push_cells m p e n ks vs hn he ne en hv =
      (rw (hn, he) (ground arith), rw (hn, he) (ground arith), λ x a b. rw (hn, he, b, a) refl)

  push_words :
      (m : Memory ar.State) (p ks vs n : ℕ)
      → m.heap.word p ≡ n
      → n + 1 < 2 ^ 32
      → ((push_entry m p ks vs).heap.word p ≡ n + 1)
        × ((push_entry m p ks vs).heap.word (p + 4) ≡ m.heap.word (p + 4))
        × ((push_entry m p ks vs).heap.word (p + 8) ≡ m.heap.word (p + 8))
        × ((push_entry m p ks vs).heap.word (p + 12) ≡ m.heap.word (p + 12))
  unfolding push_entry
  push_words m p ks vs n hn small = (ground arith, ground arith, ground arith, ground arith)

  push_arena :
      (m : Memory ar.State) (p ks vs : ℕ) → (push_entry m p ks vs).heap.arena ≡ m.heap.arena
  unfolding push_entry
  push_arena m p ks vs = refl

  length_more : (es : List Entry) (x : Entry) → length (es ++ (x ∷ [])) ≡ length es + 1
  length_more es x = length-append es (x ∷ [])

  -- The entry that the kernel writes goes to the end of the list.
  pub push-IsMap :
      (m : Memory ar.State) (map_slot size ks vs : ℕ) (es : List Entry)
      → (im : IsMap m map_slot size es) → length es + 1 ≤ size
      → map_slot + 24 ≤ low
      → vs + 24 ≤ low
      → is_valid_map_key_kind (kind (m.cell ks)) ≡ true
      → Unmatched key_eq key_hash (entry_key m im.e) (m.cell ks) (length es)
      → IsMap (push_entry m im.p ks vs) map_slot size (es ++ ((m.cell ks, m.cell vs) ∷ []))
  push-IsMap m map_slot size ks vs es im more hm hv valid new =
      let e = im.e in
      let n = length es in
      let m' = push_entry m im.p ks vs in
      let fits = im.fits in
      let base : low ≤ e = im.above (omega arith) in
      let ka : entry_key_at e n ≡ e + 48 * n = key_at e size n fits (omega arith) in
      let va : entry_val_at e n ≡ e + 48 * n + 24 = val_at e size n fits (omega arith) in
      let (put_key, put_val, other) =
        push_cells m im.p e n ks vs im.count im.entries (ground arith) (ground arith)
          (ground arith) in
      let (w0, w4, w8, w12) = push_words m im.p ks vs n im.count (omega arith) in
      let same : (j : ℕ) → j < n → SameEntry m.cell m'.cell e j = λ j hj.
        let kj : entry_key_at e j ≡ e + 48 * j = key_at e size j fits (omega arith) in
        let vj : entry_val_at e j ≡ e + 48 * j + 24 = val_at e size j fits (omega arith) in
        (
          other (entry_key_at e j) (ground arith) (ground arith),
          other (entry_val_at e j) (ground arith) (ground arith),
        ) in
      record {
        p = im.p;
        e = e;
        cell = other map_slot (ground arith) (ground arith) ∙ im.cell;
        count = w0 ∙ sym (length_more es (m.cell ks, m.cell vs));
        capacity = w4 ∙ im.capacity;
        entries = w8 ∙ im.entries;
        no_index = w12 ∙ im.no_index;
        room = rw (length_more es (m.cell ks, m.cell vs)) more;
        fits = fits;
        above = im.above;
        header_live =
            subst (λ s. law.Live s im.p 16) (sym (push_arena m im.p ks vs)) im.header_live;
        run_live = λ some_room.
            subst (λ s. law.Live s e (48 * size)) (sym (push_arena m im.p ks vs))
              (im.run_live some_room);
        shows =
            Shows-append_first m'.cell e es (m.cell ks) (m.cell vs)
              (Shows-same m.cell m'.cell e 0 es (λ j lt. same j (omega arith)) im.shows) put_key
              put_val;
        distinct = rw (length_more es (m.cell ks, m.cell vs)) (
            Distinct-more key_eq key_hash (entry_key m' e) n
              (Distinct-same key_eq key_hash (entry_key m e) (entry_key m' e) n
                (λ j hj. (same j hj).0) im.distinct)
              (λ j hj. rw ((same j hj).0, put_key) (new j hj)));
        stored = λ j hj. elim (Bool-cases (j == n)) [
          | inl here ↦
              let at_n : j ≡ n = (==_iff j n).0 here in
              rw (at_n, put_key) (valid-Stored (m.cell ks) valid)
          | inr before ↦
              let lt : j < n =
                (let all : j < n + 1 =
                    subst (λ x. j < x) (length_more es (m.cell ks, m.cell vs)) hj in
                  ground arith) in
              rw (same j lt).0 (im.stored j lt)
        ];
      }
