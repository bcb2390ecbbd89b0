-- ===== src/Runtime/MapIndex/Walk.antt =====
-- runtime/cel_map_index.c: the walk over groups that the search and the placement share, and where
-- it ends.
use cel_spec_wasm.Prelude.{
  ℕ, zero, suc, ◌+◌, ◌%◌, ◌^◌, ◌≡◌, ◌<◌, ◌≤◌, refl, not, none, some, ◌==◌, Bool-cases, Option-cases,
  inl, inr, if◌then◌else◌,
}
use cel_spec_wasm.Runtime.Value.{CelValue, u32}
use cel_spec_wasm.Runtime.MapKey.{load, cel_h1, cel_h2}
use cel_spec_wasm.Runtime.MapIndex.{
  KeyEq, Index, Probe, found, absent, lost, Placed, placed, duplicate, unplaced, group_match_empty,
  slot_at, next_seq, candidates, find_loop, place_loop, fill, lowest_lane, empty,
}
use cel_spec_wasm.Runtime.MapIndex.Path.{slots_of, seq_at}

-- The entry that is found, or the group that has none and an empty slot.
pub data Walk : Type 0 where
  hit : ℕ → Walk
  stop : ℕ → Walk
  astray : Walk

abbrev pub searched : Walk → Probe
searched (hit entry) = found entry
searched (stop seq) = absent
searched astray = lost

module _ (key_eq : KeyEq) (key_hash : CelValue → ℕ) (entry_key : ℕ → CelValue) where
  unfoldable pub walk : ℕ → Index → CelValue → ℕ → ℕ → Walk
  walk zero idx key seq step = astray
  walk (suc fuel) idx key seq step = elim (candidates key_eq key_hash entry_key idx key seq) [
    | some entry ↦ hit entry
    | none ↦
        if not (group_match_empty (load idx.ctrl 8 seq) == 0)
        then stop seq
        else walk fuel idx key (next_seq idx seq step) (u32 (step + 8))
  ]

  abbrev pub put : Index → ℕ → Walk → Placed
  put idx i (hit entry) = duplicate
  put idx i (stop seq) = placed (
      fill idx (slot_at idx seq (lowest_lane (group_match_empty (load idx.ctrl 8 seq))))
        (cel_h2 (key_hash (entry_key i))) i)
  put idx i astray = unplaced

  pub find_loop-walk :
      (fuel : ℕ) (idx : Index) (key : CelValue) (seq step : ℕ)
      → find_loop key_eq key_hash entry_key fuel idx key seq step
        ≡ searched (walk fuel idx key seq step)
  unfolding find_loop walk
  find_loop-walk zero idx key seq step = refl
  find_loop-walk (suc fuel) idx key seq step =
      elim (Option-cases (candidates key_eq key_hash entry_key idx key seq)) [
        | inr (e, eq) ↦ rw (eq, find_loop, walk) refl
        | inl eq ↦ elim (Bool-cases (group_match_empty (load idx.ctrl 8 seq) == 0)) [
          | inl full ↦
              rw (eq, find_loop, walk, full)
                (find_loop-walk fuel idx key (next_seq idx seq step) (u32 (step + 8)))
          | inr room ↦ rw (eq, find_loop, walk, room) refl
        ]
      ]

  pub place_loop-walk :
      (fuel : ℕ) (idx : Index) (i seq step : ℕ)
      → place_loop key_eq key_hash entry_key fuel idx i seq step
        ≡ put idx i (walk fuel idx (entry_key i) seq step)
  unfolding place_loop walk
  place_loop-walk zero idx i seq step = refl
  place_loop-walk (suc fuel) idx i seq step =
      elim (Option-cases (candidates key_eq key_hash entry_key idx (entry_key i) seq)) [
        | inr (e, eq) ↦ rw (eq, place_loop, walk) refl
        | inl eq ↦ elim (Bool-cases (group_match_empty (load idx.ctrl 8 seq) == 0)) [
          | inl full ↦
              rw (eq, place_loop, walk, full)
                (place_loop-walk fuel idx i (next_seq idx seq step) (u32 (step + 8)))
          | inr room ↦ rw (eq, place_loop, walk, room) refl
        ]
      ]

  -- A table of 2 ^ (m + 3) slots whose full slots hold the first `n` entries: each stands with its
  -- hash byte where its probe comes to, behind groups that are full.
  pub record IsTable (idx : Index) (m n : ℕ) : Type 0 where
    pub size : idx.num_slots ≡ slots_of m
    pub small : m + 3 ≤ 32
    pub ok : (b : ℕ) → idx.ctrl b ≤ 128
    pub mirror : (l : ℕ) → l < 7 → idx.ctrl (slots_of m + l) ≡ idx.ctrl l
    pub held : (s : ℕ) → s < slots_of m → idx.ctrl s < 128 → idx.slots s < n
    pub reach :
        (e : ℕ)
        → e < n
        → (t : ℕ) × (l : ℕ) × (t < 2 ^ m)
          × (l < 8)
          × (idx.slots ((seq_at m (cel_h1 (key_hash (entry_key e))) t + l) % slots_of m) ≡ e)
          × (idx.ctrl ((seq_at m (cel_h1 (key_hash (entry_key e))) t + l) % slots_of m)
              ≡ cel_h2 (key_hash (entry_key e)))
          × ((t' l' : ℕ)
              → t' < t
              → l' < 8
              → idx.ctrl ((seq_at m (cel_h1 (key_hash (entry_key e))) t' + l') % slots_of m) < 128)
    pub room : (s : ℕ) × (s < slots_of m) × (idx.ctrl s ≡ empty)
