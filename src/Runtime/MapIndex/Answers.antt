-- ===== src/Runtime/MapIndex/Answers.antt =====
-- runtime/cel_map_index.c: the index that `cel_map_index_build` makes answers every look-up as the
-- linear scan does, and a map with two equal keys gets none.
use cel_spec_wasm.Prelude.{
  ℕ, zero, suc, ◌+◌, ◌-◌, ◌*◌, ◌/◌, ◌%◌, ◌^◌, ◌≡◌, ◌≢◌, ◌<◌, ◌≤◌, refl, sym, ap, ◌∙◌, Bool, true,
  false, ltb, ◌==◌, ==_iff, Bool-cases, inl, inr, if◌then◌else◌, arith,
}
use native.Mathlib.Nat.{pow-suc, add-zero, zero-add, suc-add}
use mathlib.Core.Path.{subst}
use cel_spec_wasm.Runtime.Value.{CelValue, u32}
use cel_spec_wasm.Runtime.MapKey.{load, cel_h1, cel_h2}
use cel_spec_wasm.Runtime.MapIndex.{
  KeyEq, Index, Probe, placed, duplicate, indexed, duplicate_key, group_match_empty, slot_at,
  lowest_lane, fill, first_seq, index_place_entry, build_loop, fresh_index, slots_loop,
  cel_map_index_num_slots, cel_map_index_build, cel_map_index_find,
}
use cel_spec_wasm.Runtime.MapIndex.Group.{empty_lane}
use cel_spec_wasm.Runtime.MapIndex.Path.{slots_of, seq_at, slots_pos, slot_at-mod}
use cel_spec_wasm.Runtime.MapIndex.Walk.{walk, searched, put, find_loop-walk, place_loop-walk}
use cel_spec_wasm.Runtime.MapIndex.Ends.{lane_ctrl, seq-lt}
use cel_spec_wasm.Runtime.MapIndex.Build.{full_slots, Filled, fill-Filled}
use cel_spec_wasm.Runtime.MapIndex.Find.{
  scan_entries, Unmatched, Distinct, Lawful, Scanned, missing, present, scan-Scanned, walk_from,
  stops, hits,
}

pow_le : (a b : ℕ) → a ≤ b → 2 ^ a ≤ 2 ^ b
pow_le a zero h = let e : a ≡ 0 = omega arith in rw e (omega arith)
pow_le a (suc b) h = elim (Bool-cases (ltb a (suc b))) [
  | inl less ↦ omega (arith, pow-suc 2 b, pow_le a b (ground arith))
  | inr same ↦ let e : a ≡ suc b = ground arith in rw e (omega arith)
]

-- A power that is below 2 ^ 31 has a smaller exponent.
not_last : (a : ℕ) → a ≤ 31 → 2 ^ a < 2 ^ 31 → a < 31
not_last a top less = elim (Bool-cases (ltb a 31)) [
  | inl e ↦ ground arith
  | inr e ↦ let last : a ≡ 31 = ground arith in absurd (omega (arith, ap (λ (n : ℕ). 2 ^ n) last))
]

clash : {b : Bool} → b ≡ true → b ≡ false → ⊥
clash e e' = let wrong : true ≡ false = sym e ∙ e' in cc

-- The doubling reaches the first power of two that is large enough.
slots_loop-pow :
    (fuel a needed : ℕ)
    → a ≤ 31
    → 31 ≤ a + fuel
    → needed ≤ 2 ^ 31
    → (b : ℕ) × (slots_loop fuel (2 ^ a) needed ≡ 2 ^ b) × (a ≤ b) × (b ≤ 31) × (needed ≤ 2 ^ b)
unfolding slots_loop
slots_loop-pow zero a needed top bottom limit =
    let e : a ≡ 31 = omega arith in (a, refl, omega arith, omega arith, rw e limit)
slots_loop-pow (suc fuel) a needed top bottom limit = elim (Bool-cases (ltb (2 ^ a) needed)) [
  | inr enough ↦ (a, rw enough refl, omega arith, top, ground arith)
  | inl less ↦
      let below : a < 31 = not_last a top (ground arith) in
      let double : u32 (2 ^ a * 2) ≡ 2 ^ suc a =
        omega (arith, pow-suc 2 a, pow_le (suc a) 31 (omega arith)) in
      let (b, e, le, hb, big) =
        slots_loop-pow fuel (suc a) needed (omega arith) (omega arith) limit in
      (b, rw (less, double) e, omega arith, hb, big)
]

-- A map has more slots than entries.
num_slots_lem :
    (count : ℕ)
    → 8 ≤ count
    → count ≤ 2 ^ 30
    → (m : ℕ) × (cel_map_index_num_slots count ≡ slots_of m) × (m + 3 ≤ 32) × (count < slots_of m)
unfolding cel_map_index_num_slots
num_slots_lem count large small =
    let needed = (count * 8 + 6) / 7 in
    let wanted = if ltb needed 8 then 8 else needed in
    let enough : count < wanted = ground arith in
    let (b, e, le, hb, big) =
      slots_loop-pow 32 3 wanted (omega arith) (omega arith) (ground arith) in
    let exponent : b ≡ b - 3 + 3 = omega arith in
    (
      b - 3,
      e ∙ ap (λ n. 2 ^ n) exponent,
      omega arith,
      subst (λ n. count < 2 ^ n) exponent (omega arith),
    )

module _ (key_eq : KeyEq) (key_hash : CelValue → ℕ) (entry_key : ℕ → CelValue) where
  module _ (idx : Index) (m n : ℕ) (f : Filled key_eq key_hash entry_key idx m n) where
    -- Of the entries with pairwise different keys at most one has a given key.
    only_one :
        (key : CelValue) (e e' : ℕ)
        → Distinct key_eq key_hash entry_key n
        → Lawful key_eq key_hash entry_key n key
        → e < n
        → e' < n
        → key_eq (entry_key e) key ≡ true
        → key_eq (entry_key e') key ≡ true
        → e' ≡ e
    only_one key e e' distinct law he he' match match' = elim (Bool-cases (e' == e)) [
      | inl same ↦ (==_iff e' e).0 same
      | inr other ↦ elim (Bool-cases (ltb e' e)) [
        | inl before ↦
            absurd (clash (law.euclid e' e he' he match' match) (distinct e he e' (ground arith)))
        | inr behind ↦
            absurd (clash (law.euclid e e' he he' match match') (distinct e' he' e (ground arith)))
      ]
    ]

    find-walk :
        (key : CelValue)
        → cel_map_index_find key_eq key_hash entry_key idx key
          ≡ searched (
              walk key_eq key_hash entry_key
                (2 ^ m)
                idx
                key
                (seq_at m (cel_h1 (key_hash key)) 0)
                (u32 (8 * 1)))
    unfolding cel_map_index_find
    find-walk key =
        find_loop-walk key_eq key_hash entry_key (idx.num_slots / 8) idx key
          (first_seq key_hash idx key) 8
        ∙ ap searched (walk_from key_eq key_hash entry_key idx m n f key)

    find-Scanned :
        (key : CelValue) (r : Probe)
        → Distinct key_eq key_hash entry_key n
        → Lawful key_eq key_hash entry_key n key
        → Scanned key_eq key_hash entry_key key 0 n r
        → cel_map_index_find key_eq key_hash entry_key idx key ≡ r
    find-Scanned key r distinct law (missing none_match) =
        let (u, w, hu, full, before) =
          stops key_eq key_hash entry_key idx m n f key
            (λ e he. none_match e (omega arith) (omega arith)) in
        find-walk key ∙ ap searched w
    find-Scanned key r distinct law (present {e} le lt match first) =
        find-walk key
        ∙ ap searched (
            hits key_eq key_hash entry_key idx m n f key e (omega arith) match
              (law.same_hash e (omega arith) match)
              (λ e' he' match'. only_one key e e' distinct law (omega arith) he' match match'))

    place-put :
        index_place_entry key_eq key_hash entry_key idx n
        ≡ put key_eq key_hash entry_key idx n (
            walk key_eq key_hash entry_key
              (2 ^ m)
              idx
              (entry_key n)
              (seq_at m (cel_h1 (key_hash (entry_key n))) 0)
              (u32 (8 * 1)))
    unfolding index_place_entry
    place-put =
        place_loop-walk key_eq key_hash entry_key (idx.num_slots / 8) idx n
          (first_seq key_hash idx (entry_key n)) 8
        ∙ ap (put key_eq key_hash entry_key idx n)
            (walk_from key_eq key_hash entry_key idx m n f (entry_key n))

    -- An entry with a new key is placed, and the table stays well formed.
    place-Filled :
        Unmatched key_eq key_hash entry_key (entry_key n) n
        → n + 1 < slots_of m
        → (next : Index) × (index_place_entry key_eq key_hash entry_key idx n ≡ placed next)
          × Filled key_eq key_hash entry_key next m (n + 1)
    place-Filled new few =
        let h = cel_h1 (key_hash (entry_key n)) in
        let (u, w, hu, room, before) =
          stops key_eq key_hash entry_key idx m n f (entry_key n) new in
        let l = lowest_lane (group_match_empty (load idx.ctrl 8 (seq_at m h u))) in
        let (hl, was) = empty_lane idx f.table.ok (seq_at m h u) room in
        let place : slot_at idx (seq_at m h u) l ≡ (seq_at m h u + l) % slots_of m =
          slot_at-mod idx m f.table.size f.table.small (seq_at m h u) l in
        (
          fill idx ((seq_at m h u + l) % slots_of m) (cel_h2 (key_hash (entry_key n))) n,
          place-put
              ∙ ap (put key_eq key_hash entry_key idx n) w
              ∙ ap (λ s. placed (fill idx s (cel_h2 (key_hash (entry_key n))) n)) place,
          fill-Filled key_eq key_hash entry_key idx m n u l f hl (omega arith)
              (sym (
                  lane_ctrl key_eq key_hash entry_key idx m n f.table (seq_at m h u) l
                    (seq-lt key_eq key_hash entry_key idx m n f.table h u) hl)
                ∙ was)
              before few,
        )

    -- An entry whose key one of the others has is refused.
    place-duplicate :
        (e : ℕ)
        → e < n
        → Distinct key_eq key_hash entry_key n
        → Lawful key_eq key_hash entry_key n (entry_key n)
        → key_eq (entry_key e) (entry_key n) ≡ true
        → index_place_entry key_eq key_hash entry_key idx n ≡ duplicate
    place-duplicate e he distinct law match =
        place-put
        ∙ ap (put key_eq key_hash entry_key idx n) (
            hits key_eq key_hash entry_key idx m n f (entry_key n) e he match
              (law.same_hash e he match)
              (λ e' he' match'. only_one (entry_key n) e e' distinct law he he' match match'))

  build_loop-Filled :
      (block_off m : ℕ) (k : ℕ) (idx : Index) (i : ℕ)
      → Filled key_eq key_hash entry_key idx m i
      → Distinct key_eq key_hash entry_key (i + k)
      → i + k < slots_of m
      → (last : Index) × (build_loop key_eq key_hash entry_key block_off idx i k
          ≡ indexed block_off last)
        × Filled key_eq key_hash entry_key last m (i + k)
  unfolding build_loop
  build_loop-Filled block_off m zero idx i f distinct few = (idx, refl, rw add-zero f)
  build_loop-Filled block_off m (suc k) idx i f distinct few =
      let (next, e, f') = place-Filled idx m i f (distinct i (omega arith)) (omega arith) in
      let more : i + 1 + k ≡ i + suc k = omega arith in
      let (last, e', f'') =
        build_loop-Filled block_off m k next (i + 1) f' (rw more distinct) (omega arith) in
      (last, rw (e, build_loop) e', rw (← more) f'')

  full_slots-none : (k : ℕ) → full_slots (λ b. 128) k ≡ 0
  unfolding full_slots
  full_slots-none zero = refl
  full_slots-none (suc k) = omega (arith, full_slots-none k)

  fresh-Filled :
      (m : ℕ) → m + 3 ≤ 32 → Filled key_eq key_hash entry_key (fresh_index (slots_of m)) m 0
  unfolding fresh_index
  fresh-Filled m small = record {
    table = record {
      size = refl;
      small = small;
      ok = λ b. omega arith;
      mirror = λ l h. refl;
      held = λ x hx full. absurd (omega arith);
      reach = λ e he. absurd (omega arith);
      room = (0, omega (arith, slots_pos m), refl);
    };
    count = full_slots-none (slots_of m);
  }

  build_loop-duplicate :
      (block_off m j k : ℕ) (idx : Index) (i e : ℕ)
      → Filled key_eq key_hash entry_key idx m i
      → Distinct key_eq key_hash entry_key (i + j)
      → i + j < slots_of m
      → Lawful key_eq key_hash entry_key (i + j) (entry_key (i + j))
      → e < i + j
      → key_eq (entry_key e) (entry_key (i + j)) ≡ true
      → build_loop key_eq key_hash entry_key block_off idx i (j + suc k) ≡ duplicate_key
  unfolding build_loop
  build_loop-duplicate block_off m zero k idx i e f distinct few law he match =
      let here : i + 0 ≡ i = add-zero i in
      let refused =
        place-duplicate idx m i f e (rw here at he)
          (subst (Distinct key_eq key_hash entry_key) here distinct)
          (subst (λ x. Lawful key_eq key_hash entry_key x (entry_key x)) here law)
          (subst (λ x. key_eq (entry_key e) (entry_key x) ≡ true) here match) in
      rw (zero-add, refused, build_loop) refl
  build_loop-duplicate block_off m (suc j) k idx i e f distinct few law he match =
      let (next, placed_i, f') = place-Filled idx m i f (distinct i (omega arith)) (omega arith) in
      let more : i + suc j ≡ i + 1 + j = omega arith in
      rw (suc-add, placed_i, build_loop)
        (build_loop-duplicate block_off m j k next (i + 1) e f'
          (subst (Distinct key_eq key_hash entry_key) more distinct) (omega arith)
          (subst (λ x. Lawful key_eq key_hash entry_key x (entry_key x)) more law) (omega arith)
          (subst (λ x. key_eq (entry_key e) (entry_key x) ≡ true) more match))

  build-loop_of :
      (count block_off m : ℕ)
      → 8 ≤ count
      → block_off ≢ 0
      → cel_map_index_num_slots count ≡ slots_of m
      → cel_map_index_build key_eq key_hash entry_key count block_off
        ≡ build_loop key_eq key_hash entry_key block_off (fresh_index (slots_of m)) 0 count
  unfolding cel_map_index_build
  build-loop_of count block_off m large got slots =
      let indexes : ltb count 8 ≡ false = ground arith in
      let block : (block_off == 0) ≡ false = ground arith in rw (indexes, block, slots) refl

  -- For a map of 8 to 2 ^ 30 entries with pairwise different keys and a block for the index,
  -- `cel_map_index_build` ends in an index, and `cel_map_index_find` on that index answers for
  -- every lawful key, present or not, as the scan over the entries does; in particular the probe
  -- ends within one visit of each group.
  pub index-scan :
      (count block_off : ℕ)
      → 8 ≤ count
      → count ≤ 2 ^ 30
      → block_off ≢ 0
      → Distinct key_eq key_hash entry_key count
      → (idx : Index) × (cel_map_index_build key_eq key_hash entry_key count block_off
          ≡ indexed block_off idx)
        × ((key : CelValue)
            → Lawful key_eq key_hash entry_key count key
            → cel_map_index_find key_eq key_hash entry_key idx key
              ≡ scan_entries key_eq key_hash entry_key key 0 count)
  index-scan count block_off large small got distinct =
      let (m, slots, small_m, few) = num_slots_lem count large small in
      let (idx, built, f) =
        build_loop-Filled block_off m count (fresh_index (slots_of m)) 0 (fresh-Filled m small_m)
          (rw (zero-add count) distinct) (rw zero-add few) in
      (
        idx,
        build-loop_of count block_off m large got slots ∙ built,
        λ key law.
            find-Scanned idx m count (rw zero-add at f) key
              (scan_entries key_eq key_hash entry_key key 0 count) distinct law
              (scan-Scanned key_eq key_hash entry_key key 0 count),
      )

  -- When entry `i` is the first with the key of an earlier one, the build reports a duplicate.
  pub build-duplicate :
      (count block_off i e : ℕ)
      → 8 ≤ count
      → count ≤ 2 ^ 30
      → block_off ≢ 0
      → i < count
      → Distinct key_eq key_hash entry_key i
      → Lawful key_eq key_hash entry_key i (entry_key i)
      → e < i
      → key_eq (entry_key e) (entry_key i) ≡ true
      → cel_map_index_build key_eq key_hash entry_key count block_off ≡ duplicate_key
  build-duplicate count block_off i e large small got hi distinct law he match =
      let (m, slots, small_m, few) = num_slots_lem count large small in
      let split : i + suc (count - i - 1) ≡ count = omega arith in
      build-loop_of count block_off m large got slots
      ∙ subst
          (λ k.
            build_loop key_eq key_hash entry_key block_off (fresh_index (slots_of m)) 0 k
            ≡ duplicate_key)
          split
          (build_loop-duplicate block_off m i (count - i - 1) (fresh_index (slots_of m)) 0 e
            (fresh-Filled m small_m) (rw zero-add distinct) (omega arith) (rw zero-add law)
            (omega arith) (rw zero-add match))
