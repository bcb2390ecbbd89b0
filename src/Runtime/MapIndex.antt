-- ===== src/Runtime/MapIndex.antt =====
-- runtime/cel_map_index.c and the probing half of cel_map_hash.h: the hash index over the entries
-- of a map, built once and probed by groups of eight control bytes. The control bytes and the slot
-- array of an index block are two maps from positions.
pub mod Words
pub mod Swar
pub mod Lanes
pub mod Group
pub mod Triangle
pub mod Path
pub mod Walk
pub mod Ends
pub mod Build
pub mod Find
pub mod Answers
pub mod Keys
mod Runs
use Prim.Native.Nat.{bit_xor}
use cel_spec_wasm.Prelude.{
  ℕ, zero, suc, ◌+◌, ◌-◌, ◌*◌, ◌/◌, ◌%◌, ◌^◌, Bool, true, false, Option, none, some, ltb, leb, ◌==◌,
  not, if◌then◌else◌, bit_and,
}
use cel_spec_wasm.Runtime.Value.{CelValue, u32}
use cel_spec_wasm.Runtime.MapKey.{u64, load, cel_h1, cel_h2}

abbrev pub group_width : ℕ
group_width = 8

-- The control byte of an empty slot.
abbrev pub empty : ℕ
empty = 0x80

abbrev pub lsbs : ℕ
lsbs = 0x0101010101010101

abbrev pub msbs : ℕ
msbs = 0x8080808080808080

-- `~x` on 64 bits
abbrev pub not_64 : ℕ → ℕ
not_64 x = 2 ^ 64 - 1 - x

unfoldable pub group_match : ℕ → ℕ → ℕ
group_match ctrl h2 =
    let x = bit_xor ctrl (lsbs * h2) in
    bit_and (bit_and (u64 (x + (2 ^ 64 - lsbs))) (not_64 x)) msbs

unfoldable pub group_match_empty : ℕ → ℕ
group_match_empty ctrl = bit_and (bit_and ctrl (u64 (not_64 ctrl * 2 ^ 6))) msbs

-- `__builtin_ctzll` of a number that is not 0
unfoldable pub ctz_loop : ℕ → ℕ → ℕ
ctz_loop zero n = 64
ctz_loop (suc fuel) n = if n % 2 == 1 then 0 else suc (ctz_loop fuel (n / 2))

unfoldable pub ctz : ℕ → ℕ
ctz n = ctz_loop 64 n

unfoldable pub lowest_lane : ℕ → ℕ
lowest_lane mask = ctz mask / 8

pub ctrl_total_bytes : ℕ → ℕ
ctrl_total_bytes num_slots = u32 (num_slots + (group_width - 1))

pub align_up_4 : ℕ → ℕ
align_up_4 n = u32 (n + 3) / 4 * 4

pub slot_array_offset_from_ctrl : ℕ → ℕ
unfolding ctrl_total_bytes align_up_4
slot_array_offset_from_ctrl num_slots = align_up_4 (ctrl_total_bytes num_slots)

pub index_block_bytes : ℕ → ℕ
unfolding slot_array_offset_from_ctrl
index_block_bytes num_slots = u32 (slot_array_offset_from_ctrl num_slots + u32 (num_slots * 4))

-- The doubling loop: 32 rounds are more than a `uint32_t` allows.
unfoldable pub slots_loop : ℕ → ℕ → ℕ → ℕ
slots_loop zero slots needed = slots
slots_loop (suc fuel) slots needed =
    if ltb slots needed then slots_loop fuel (u32 (slots * 2)) needed else slots

unfoldable pub cel_map_index_num_slots : ℕ → ℕ
cel_map_index_num_slots count =
    let needed = (count * 8 + 6) / 7 in
    slots_loop 32 group_width (if ltb needed group_width then group_width else needed)

-- An index block.
pub record Index : Type 0 where
  pub num_slots : ℕ
  pub ctrl : ℕ → ℕ
  pub slots : ℕ → ℕ

pub data Probe : Type 0 where
  found : ℕ → Probe
  absent : Probe
  lost : Probe

pub data Placed : Type 0 where
  placed : Index → Placed
  duplicate : Placed
  unplaced : Placed

pub data Built : Type 0 where
  unindexed : Built
  indexed : ℕ → Index → Built
  duplicate_key : Built
  unfinished : Built

-- `ctrl[slot] = h2` with its mirror, and `slots[slot] = i`
abbrev pub fill : Index → ℕ → ℕ → ℕ → Index
fill idx slot h2 i = record {
  num_slots = idx.num_slots;
  ctrl = λ b.
      if (if b == slot
        then true
        else if ltb slot (group_width - 1)
        then b == slot + idx.num_slots
        else false)
      then h2
      else idx.ctrl b;
  slots = λ s. if s == slot then i else idx.slots s;
}

unfoldable pub slot_at : Index → ℕ → ℕ → ℕ
slot_at idx seq lane = bit_and (u32 (seq + lane)) (idx.num_slots - 1)

unfoldable pub next_seq : Index → ℕ → ℕ → ℕ
next_seq idx seq step = bit_and (u32 (seq + step)) (idx.num_slots - 1)

unfoldable pub fresh_index : ℕ → Index
fresh_index num_slots = record { num_slots = num_slots; ctrl = λ b. empty; slots = λ s. 0 }

unfoldable pub first_seq : (CelValue → ℕ) → Index → CelValue → ℕ
first_seq key_hash idx key = bit_and (cel_h1 (key_hash key)) (idx.num_slots - 1)

abbrev pub KeyEq : Type 0
KeyEq = CelValue → CelValue → Bool

-- Over any equality and hash of keys: the parameters are `cel_map_key_eq` and `cel_map_key_hash`.
module _ (key_eq : KeyEq) (key_hash : CelValue → ℕ) (entry_key : ℕ → CelValue) where
  -- The loop over the lanes of a mask; a mask has at most eight.
  unfoldable pub confirm : ℕ → Index → CelValue → ℕ → ℕ → Option ℕ
  confirm zero idx key seq mask = none
  confirm (suc fuel) idx key seq mask =
      let entry = idx.slots (slot_at idx seq (lowest_lane mask)) in
      if mask == 0
      then none
      else if key_eq (entry_key entry) key
      then some entry
      else confirm fuel idx key seq (bit_and mask (mask - 1))

  -- The candidates of the group at `seq`.
  unfoldable pub candidates : Index → CelValue → ℕ → Option ℕ
  candidates idx key seq =
      confirm 8 idx key seq (group_match (load idx.ctrl 8 seq) (cel_h2 (key_hash key)))

  unfoldable pub find_loop : ℕ → Index → CelValue → ℕ → ℕ → Probe
  find_loop zero idx key seq step = lost
  find_loop (suc fuel) idx key seq step = elim (candidates idx key seq) [
    | some entry ↦ found entry
    | none ↦
        if not (group_match_empty (load idx.ctrl 8 seq) == 0)
        then absent
        else find_loop fuel idx key (next_seq idx seq step) (u32 (step + group_width))
  ]

  -- There are `num_slots / 8` groups to visit.
  unfoldable pub cel_map_index_find : Index → CelValue → Probe
  cel_map_index_find idx key =
      find_loop (idx.num_slots / group_width) idx key (first_seq key_hash idx key) group_width

  unfoldable pub place_loop : ℕ → Index → ℕ → ℕ → ℕ → Placed
  place_loop zero idx i seq step = unplaced
  place_loop (suc fuel) idx i seq step = elim (candidates idx (entry_key i) seq) [
    | some entry ↦ duplicate
    | none ↦
        let empties = group_match_empty (load idx.ctrl 8 seq) in
        if not (empties == 0)
        then placed
            (fill idx (slot_at idx seq (lowest_lane empties)) (cel_h2 (key_hash (entry_key i))) i)
        else place_loop fuel idx i (next_seq idx seq step) (u32 (step + group_width))
  ]

  unfoldable pub index_place_entry : Index → ℕ → Placed
  index_place_entry idx i =
      place_loop (idx.num_slots / group_width) idx i (first_seq key_hash idx (entry_key i))
        group_width

  -- The entries from `i` on, `n` of them.
  unfoldable pub build_loop : ℕ → Index → ℕ → ℕ → Built
  build_loop block_off idx i zero = indexed block_off idx
  build_loop block_off idx i (suc n) = elim (index_place_entry idx i) [
    | placed idx' ↦ build_loop block_off idx' (i + 1) n
    | duplicate ↦ duplicate_key
    | unplaced ↦ unfinished
  ]

  -- `block_off` is what `arena_alloc` gives for the block, 0 when nothing is left.
  unfoldable pub cel_map_index_build : ℕ → ℕ → Built
  cel_map_index_build count block_off =
      if ltb count 8
      then unindexed
      else if block_off == 0
      then unindexed
      else build_loop block_off (fresh_index (cel_map_index_num_slots count)) 0 count
