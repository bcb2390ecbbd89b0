-- ===== src/Runtime/Maps.antt =====
-- runtime/cel_runtime.c: maps in the arena. A header of four words tells where the run of entries is,
-- each a cell for the key with the cell of the value behind it, and where the index of
-- cel_map_index.c is, if one is built. The equality and the hash of keys are parameters.
pub mod Entries
pub mod Push
pub mod Insert
pub mod Room
pub mod Lookup
pub mod Views
pub mod Literal
mod Runs
use cel_spec_wasm.Prelude.{
  ℕ, zero, suc, ◌+◌, ◌-◌, ◌*◌, ◌^◌, Bool, true, false, ◌&&◌, ◌||◌, not, Option, none, some, ltb,
  leb, ◌==◌, if◌then◌else◌,
}
use cel_spec_wasm.Prelude.Int.{pos}
use cel_spec_wasm.Runtime.Value.{
  CelValue, int, map_arena, kind, cel_bool, cel_int, cel_uint, cel_error, cel_unknown, payload_b,
  err_overflow, err_type_mismatch, Arena, Memory, write, write_bool, poison, u32, align_up_8,
  arena_alloc, absorb_3vl_unary, absorb_3vl_binary, null,
}
use cel_spec_wasm.Runtime.BumpArena.{Run, ok, trap}
use cel_spec_wasm.Runtime.MapIndex.{
  KeyEq, Index, Probe, found, absent, lost, Built, unindexed, indexed, duplicate_key, unfinished,
  cel_map_index_num_slots, index_block_bytes, cel_map_index_build, cel_map_index_find,
}
use cel_spec_wasm.Runtime.MapIndex.Find.{scan_entries}

abbrev pub cel_map_arena : ℕ
cel_map_arena = 8

abbrev pub cel_map_host : ℕ
cel_map_host = 9

abbrev pub err_no_such_key : ℕ
err_no_such_key = 15

abbrev pub err_duplicate_key : ℕ
err_duplicate_key = 16

abbrev pub entry_stride : ℕ
entry_stride = 48

abbrev pub cell_bytes : ℕ
cell_bytes = 24

abbrev pub header_bytes : ℕ
header_bytes = 16

abbrev pub is_valid_map_key_kind : ℕ → Bool
is_valid_map_key_kind k = (k == cel_bool) || (k == cel_int) || (k == cel_uint) || (k == 5)

-- An error or an unknown.
abbrev pub is_poisoned : CelValue → Bool
is_poisoned v = (kind v == cel_error) || (kind v == cel_unknown)

pub record ArenaMapHeader : Type 0 where
  pub count : ℕ
  pub capacity : ℕ
  pub entries_offset : ℕ
  pub index_offset : ℕ

abbrev pub header_ptr : CelValue → ℕ
header_ptr (map_arena p) = p
header_ptr _ = 0

-- The header as its words stand at `p`.
abbrev pub arena_map_header : (ℕ → ℕ) → ℕ → ArenaMapHeader
arena_map_header word p = record {
  count = word p;
  capacity = word (p + 4);
  entries_offset = word (p + 8);
  index_offset = word (p + 12);
}

abbrev pub set_word : {S : Type 0} → Memory S → ℕ → ℕ → Memory S
set_word m p w = record m {
  heap = record m.heap { word = λ q. if q == p then w else m.heap.word q };
}

abbrev pub set_header : {S : Type 0} → Memory S → ℕ → ArenaMapHeader → Memory S
set_header m p hdr =
    set_word
      (set_word (set_word (set_word m p hdr.count) (p + 4) hdr.capacity) (p + 8) hdr.entries_offset)
      (p + 12) hdr.index_offset

pub entries_bytes_checked : ℕ → ℕ → ℕ
entries_bytes_checked stride count = if ltb (2 ^ 32 - 8) (stride * count) then 0 else stride * count

abbrev pub entry_key_at : ℕ → ℕ → ℕ
entry_key_at entries_offset i = u32 (entries_offset + entry_stride * i)

abbrev pub entry_val_at : ℕ → ℕ → ℕ
entry_val_at entries_offset i = u32 (entries_offset + entry_stride * i + cell_bytes)

-- The keys of a run of entries.
abbrev pub entry_key : {S : Type 0} → Memory S → ℕ → ℕ → CelValue
entry_key m entries_offset i = m.cell (entry_key_at entries_offset i)

-- The loop `while (new_cap < want) new_cap *= 2`, in at most 64 rounds.
pub grown_capacity : ℕ → ℕ → ℕ → ℕ
grown_capacity zero new_cap want = new_cap
grown_capacity (suc fuel) new_cap want =
    if ltb new_cap want then grown_capacity fuel (new_cap * 2) want else new_cap

-- The copy of `n` entries from the `i`-th on.
pub copy_entries : {S : Type 0} → Memory S → ℕ → ℕ → ℕ → ℕ → Memory S
copy_entries m off entries_offset i zero = m
copy_entries m off entries_offset i (suc n) =
    let m1 = write m (entry_key_at off i) (m.cell (entry_key_at entries_offset i)) in
    copy_entries (write m1 (entry_val_at off i) (m1.cell (entry_val_at entries_offset i))) off
      entries_offset (i + 1) n

-- The entry `*key`, `*val` behind the last one, and `hdr->count++`.
unfoldable pub push_entry : {S : Type 0} → Memory S → ℕ → ℕ → ℕ → Memory S
push_entry m p key_slot val_slot =
    let hdr = arena_map_header m.heap.word p in
    let m1 = write m (entry_key_at hdr.entries_offset hdr.count) (m.cell key_slot) in
    set_word (write m1 (entry_val_at hdr.entries_offset hdr.count) (m1.cell val_slot)) p
      (u32 (hdr.count + 1))

module _ (ar : Arena) (key_eq : KeyEq) (key_hash : CelValue → ℕ) where
  -- `arena_alloc` with the cells that it clears.
  unfoldable pub request : Memory ar.State → ℕ → ℕ × Memory ar.State
  unfolding arena_alloc
  request m n =
      let (p, h) = arena_alloc ar m.heap n in
      (
        p,
        record {
          cell = λ x.
              if not (p == 0) && ltb p (x + cell_bytes) && ltb x (p + align_up_8 n)
              then null
              else m.cell x;
          heap = h;
        },
      )

  -- The run for `count` entries, 0 when there is none.
  unfoldable pub entries_block : Memory ar.State → ℕ → ℕ × Memory ar.State
  unfolding entries_bytes_checked
  entries_block m count =
      let bytes = entries_bytes_checked entry_stride count in
      if bytes == 0 then (0, m) else request m bytes

  unfoldable pub cel_map_create : Memory ar.State → ℕ → ℕ → Memory ar.State
  cel_map_create m out_slot initial_capacity =
      let (hdr_off, m1) = request m header_bytes in
      let (entries_off, m2) =
        if initial_capacity == 0 then (0, m1) else entries_block m1 initial_capacity in
      if hdr_off == 0
      then poison m1 out_slot err_overflow
      else if not (initial_capacity == 0) && (entries_off == 0)
      then poison m2 out_slot err_overflow
      else write
          (set_header m2 hdr_off (record {
            count = 0;
            capacity = initial_capacity;
            entries_offset = entries_off;
            index_offset = 0;
          }))
          out_slot (map_arena hdr_off)

  -- The loop over the entries of a header.
  abbrev pub find_entry : Memory ar.State → ArenaMapHeader → CelValue → Probe
  find_entry m hdr key =
      scan_entries key_eq key_hash (entry_key m hdr.entries_offset) key 0 hdr.count

  unfoldable pub cel_map_insert : Memory ar.State → ℕ → ℕ → ℕ → Memory ar.State
  cel_map_insert m map_slot key_slot value_slot =
      let p = header_ptr (m.cell map_slot) in
      let hdr = arena_map_header m.heap.word p in
      let key = m.cell key_slot in
      let val = m.cell value_slot in
      if not (kind (m.cell map_slot) == cel_map_arena)
      then m
      else if is_poisoned key
      then write m map_slot key
      else if is_poisoned val
      then write m map_slot val
      else if not (is_valid_map_key_kind (kind key))
      then poison m map_slot err_type_mismatch
      else elim (find_entry m hdr key) [
        | found i ↦ poison m map_slot err_duplicate_key
        | absent ↦
            if leb hdr.capacity hdr.count
            then poison m map_slot err_overflow
            else push_entry m p key_slot value_slot
        | lost ↦ m
      ]

  -- The Boolean is the result of the call.
  unfoldable pub arena_map_grow_one : Memory ar.State → ℕ → Bool × Memory ar.State
  unfolding grown_capacity copy_entries
  arena_map_grow_one m p =
      let hdr = arena_map_header m.heap.word p in
      let new_cap =
        grown_capacity 64 (if hdr.capacity == 0 then 4 else hdr.capacity * 2) (hdr.count + 1) in
      if ltb (2 ^ 32 - 1) new_cap
      then (false, m)
      else (let (off, m1) = entries_block m new_cap in
          if off == 0 then (false, m1) else (
            true,
            set_header (copy_entries m1 off hdr.entries_offset 0 hdr.count) p (record {
              count = hdr.count;
              capacity = new_cap;
              entries_offset = off;
              index_offset = 0;
            }),
          ))

  -- The end of `map_insert_at_kernel`, for a key that no entry has.
  unfoldable pub insert_new : Memory ar.State → ℕ → ℕ → ℕ → Bool → Run (Memory ar.State)
  insert_new m map_slot key_slot val_slot allow_grow =
      let p = header_ptr (m.cell map_slot) in
      let hdr = arena_map_header m.heap.word p in
      let (grown, m1) = arena_map_grow_one m p in
      if not (leb hdr.capacity hdr.count)
      then ok (push_entry m p key_slot val_slot)
      else if not allow_grow
      then trap
      else if not grown
      then ok (poison m1 map_slot err_overflow)
      else ok (push_entry m1 p key_slot val_slot)

  unfoldable pub map_insert_at_kernel : Memory ar.State → ℕ → ℕ → ℕ → Bool → Run (Memory ar.State)
  map_insert_at_kernel m map_slot key_slot val_slot allow_grow =
      let hdr = arena_map_header m.heap.word (header_ptr (m.cell map_slot)) in
      let key = m.cell key_slot in
      let val = m.cell val_slot in
      if is_poisoned key
      then ok (write m map_slot key)
      else if is_poisoned val
      then ok (write m map_slot val)
      else if not (is_valid_map_key_kind (kind key))
      then ok (poison m map_slot err_type_mismatch)
      else elim (find_entry m hdr key) [
        | found i ↦ ok (write m (entry_val_at hdr.entries_offset i) val)
        | absent ↦ insert_new m map_slot key_slot val_slot allow_grow
        | lost ↦ trap
      ]

  pub cel_map_insert_at : Memory ar.State → ℕ → ℕ → ℕ → Run (Memory ar.State)
  unfolding map_insert_at_kernel
  cel_map_insert_at m map_slot key_slot value_slot =
      if not (kind (m.cell map_slot) == cel_map_arena)
      then ok m
      else map_insert_at_kernel m map_slot key_slot value_slot false

  pub cel_map_insert_at_if_bool : Memory ar.State → ℕ → ℕ → ℕ → ℕ → Run (Memory ar.State)
  unfolding cel_map_insert_at
  cel_map_insert_at_if_bool m map_slot pred_slot key_slot value_slot =
      let p = m.cell pred_slot in
      if not (kind (m.cell map_slot) == cel_map_arena)
      then ok m
      else if is_poisoned p
      then ok (write m map_slot p)
      else if not (kind p == cel_bool)
      then ok (poison m map_slot err_type_mismatch)
      else if payload_b p == 0
      then ok m
      else cel_map_insert_at m map_slot key_slot value_slot

  -- The verdict of the build is written to the header at `p`, or poisons the cell of the map. The
  -- index blocks stand by their offset.
  unfoldable pub verdict :
      Memory ar.State → (ℕ → Index) → ℕ → ℕ → Built → Memory ar.State × (ℕ → Index)
  verdict m index map_slot p unindexed = (set_word m (p + 12) 0, index)
  verdict m index map_slot p (indexed b idx) =
      (set_word m (p + 12) b, λ q. if q == b then idx else index q)
  verdict m index map_slot p duplicate_key =
      (poison (set_word m (p + 12) 0) map_slot err_duplicate_key, index)
  verdict m index map_slot p unfinished = (m, index)

  -- `cel_map_index_build` on the cell of a map.
  unfoldable pub index_map : Memory ar.State → (ℕ → Index) → ℕ → Memory ar.State × (ℕ → Index)
  index_map m index map_slot =
      let count = (arena_map_header m.heap.word (header_ptr (m.cell map_slot))).count in
      let (block_off, m1) =
        if ltb count 8
        then (0, m)
        else request m (index_block_bytes (cel_map_index_num_slots count)) in
      let p = header_ptr (m1.cell map_slot) in
      let hdr = arena_map_header m1.heap.word p in
      if not (kind (m.cell map_slot) == cel_map_arena)
      then (m, index)
      else verdict m1 index map_slot p (
          cel_map_index_build key_eq key_hash (entry_key m1 hdr.entries_offset) hdr.count block_off)

  -- Where a key is: by the index of the header when it has one, else by the loop.
  unfoldable pub locate : Memory ar.State → (ℕ → Index) → ArenaMapHeader → CelValue → Probe
  locate m index hdr key =
      if not (hdr.index_offset == 0)
      then cel_map_index_find key_eq key_hash (entry_key m hdr.entries_offset)
          (index hdr.index_offset) key
      else find_entry m hdr key

  -- What a lookup writes, given where the key is in the run at `e`.
  unfoldable pub hand_out : Memory ar.State → ℕ → ℕ → Probe → Memory ar.State
  hand_out m out_slot e (found i) = write m out_slot (m.cell (entry_val_at e i))
  hand_out m out_slot e absent = poison m out_slot err_no_such_key
  hand_out m out_slot e lost = m

  unfoldable pub cel_map_lookup_arena : Memory ar.State → (ℕ → Index) → ℕ → ℕ → ℕ → Memory ar.State
  cel_map_lookup_arena m index out_slot map_slot key_slot =
      let key = m.cell key_slot in
      let mv = m.cell map_slot in
      let hdr = arena_map_header m.heap.word (header_ptr mv) in
      if is_poisoned key
      then write m out_slot key
      else if is_poisoned mv
      then write m out_slot mv
      else hand_out m out_slot hdr.entries_offset (locate m index hdr key)

  -- `host` is the import `cel_host_cel_map_lookup`.
  unfoldable pub cel_map_lookup :
      (Memory ar.State → ℕ → ℕ → ℕ → Memory ar.State)
      → Memory ar.State
      → (ℕ → Index)
      → ℕ
      → ℕ
      → ℕ
      → Memory ar.State
  cel_map_lookup host m index out_slot map_slot key_slot =
      let mv = m.cell map_slot in
      if is_poisoned mv
      then write m out_slot mv
      else if kind mv == cel_map_arena
      then cel_map_lookup_arena m index out_slot map_slot key_slot
      else if kind mv == cel_map_host
      then host m out_slot map_slot key_slot
      else poison m out_slot err_type_mismatch

  unfoldable pub cel_map_in_arena : Memory ar.State → (ℕ → Index) → ℕ → ℕ → ℕ → Memory ar.State
  cel_map_in_arena m index out_slot key_slot map_slot =
      let mv = m.cell map_slot in
      let hdr = arena_map_header m.heap.word (header_ptr mv) in
      elim (absorb_3vl_binary ar m out_slot key_slot map_slot) [
        | some m' ↦ m'
        | none ↦
            if not (kind mv == cel_map_arena)
            then poison m out_slot err_type_mismatch
            else elim (locate m index hdr (m.cell key_slot)) [
              | found i ↦ write_bool m out_slot true
              | absent ↦ write_bool m out_slot false
              | lost ↦ m
            ]
      ]

  pub cel_map_size_arena : Memory ar.State → ℕ → ℕ → Memory ar.State
  cel_map_size_arena m out_slot map_slot =
      let mv = m.cell map_slot in
      elim (absorb_3vl_unary ar m out_slot map_slot) [
        | some m' ↦ m'
        | none ↦
            if not (kind mv == cel_map_arena)
            then poison m out_slot err_type_mismatch
            else write m out_slot (int (pos (arena_map_header m.heap.word (header_ptr mv)).count))
      ]
