-- ===== src/Runtime/MapIndex/Ends.antt =====
-- runtime/cel_map_index.c: where the walk ends in a well-formed table.
use cel_spec_wasm.Prelude.{
  ℕ, zero, suc, ◌+◌, ◌-◌, ◌*◌, ◌%◌, ◌≡◌, ◌<◌, ◌≤◌, refl, sym, ap, ap₂, ◌∙◌, true, false, ltb, none,
  some, ◌==◌, Bool-cases, Option-cases, inl, inr, arith,
}
use native.Mathlib.Nat.{mod-lt, mod-eq_of_lt, add-mod_left}
use mathlib.Core.Path.{subst}
use cel_spec_wasm.Runtime.Value.{CelValue, u32}
use cel_spec_wasm.Runtime.MapKey.{load, cel_h2}
use cel_spec_wasm.Runtime.MapIndex.{
  KeyEq, Index, group_match_empty, slot_at, candidates, lowest_lane,
}
use cel_spec_wasm.Runtime.MapIndex.Group.{candidates-some, candidates-none, full_group, empty_lane}
use cel_spec_wasm.Runtime.MapIndex.Triangle.{tri}
use cel_spec_wasm.Runtime.MapIndex.Path.{slots_of, seq_at, slots_pos, slot_at-mod, next_seq-seq_at}
use cel_spec_wasm.Runtime.MapIndex.Walk.{hit, stop, walk, IsTable}

module _ (key_eq : KeyEq) (key_hash : CelValue → ℕ) (entry_key : ℕ → CelValue) where
  module _ (idx : Index) (m n : ℕ) (tb : IsTable key_eq key_hash entry_key idx m n) where
    pub seq-lt : (h t : ℕ) → seq_at m h t < slots_of m
    unfolding seq_at
    seq-lt h t = mod-lt (h + 8 * tri t) (omega (arith, slots_pos m))

    -- A lane behind the last slot reads the mirror of the first ones.
    pub lane_ctrl :
        (seq l : ℕ)
        → seq < slots_of m
        → l < 8
        → idx.ctrl (seq + l) ≡ idx.ctrl ((seq + l) % slots_of m)
    lane_ctrl seq l hs hl = elim (Bool-cases (ltb (seq + l) (slots_of m))) [
      | inl within ↦
          let lt : seq + l < slots_of m = ground arith in ap idx.ctrl (sym (mod-eq_of_lt lt))
      | inr past ↦
          let k = seq + l - slots_of m in
          let e : seq + l ≡ slots_of m + k = ground arith in
          let k_small : k < 7 = ground arith in
          let k_in : k < slots_of m = omega (arith, slots_pos m) in
          ap idx.ctrl e
          ∙ tb.mirror k k_small
          ∙ ap idx.ctrl
              (sym (ap (λ x. x % slots_of m) e ∙ add-mod_left (slots_of m) k ∙ mod-eq_of_lt k_in))
    ]

    abbrev pub pos : ℕ → ℕ → ℕ → ℕ
    pos h t l = (seq_at m h t + l) % slots_of m

    abbrev pub Before : ℕ → ℕ → Type 0
    Before h t = (t' l' : ℕ) → t' < t → l' < 8 → idx.ctrl (pos h t' l') < 128

    -- The group after `t` others has no empty slot.
    full-Before :
        (h t : ℕ)
        → (group_match_empty (load idx.ctrl 8 (seq_at m h t)) == 0) ≡ true
        → Before h t
        → Before h (suc t)
    full-Before h t full before t' l' ht hl = elim (Bool-cases (ltb t' t)) [
      | inl earlier ↦ before t' l' (ground arith) hl
      | inr here ↦
          let e : t' ≡ t = ground arith in
          let ctrl_eq = lane_ctrl (seq_at m h t) l' (seq-lt h t) hl in
          let not_empty = full_group idx tb.ok (seq_at m h t) l' full hl in
          let bound = tb.ok (seq_at m h t + l') in rw e (ground arith)
    ]

    -- A candidate of a group is an entry of the table with the key.
    candidate_entry :
        (h t e : ℕ) (key : CelValue)
        → candidates key_eq key_hash entry_key idx key (seq_at m h t) ≡ some e
        → (e < n) × (key_eq (entry_key e) key ≡ true)
    candidate_entry h t e key c =
        let (l, hl, slot, confirmed, full) =
          candidates-some key_eq key_hash entry_key idx (seq_at m h t) e key tb.ok c in
        let place : slot_at idx (seq_at m h t) l ≡ pos h t l =
          slot_at-mod idx m tb.size tb.small (seq_at m h t) l in
        let ctrl_eq = lane_ctrl (seq_at m h t) l (seq-lt h t) hl in
        let in_table =
          tb.held (pos h t l) (mod-lt (seq_at m h t + l) (omega (arith, slots_pos m)))
            (omega arith) in
        (omega (arith, ap idx.slots place), confirmed)

    walk_next :
        (key : CelValue) (h fuel t : ℕ)
        → candidates key_eq key_hash entry_key idx key (seq_at m h t) ≡ none
        → (group_match_empty (load idx.ctrl 8 (seq_at m h t)) == 0) ≡ true
        → walk key_eq key_hash entry_key (suc fuel) idx key (seq_at m h t) (u32 (8 * suc t))
          ≡ walk key_eq key_hash entry_key fuel idx key (seq_at m h (suc t)) (u32 (8 * suc (suc t)))
    unfolding walk
    walk_next key h fuel t c full =
        let step : u32 (u32 (8 * suc t) + 8) ≡ u32 (8 * suc (suc t)) = omega arith in
        rw (c, walk, full)
          (ap₂ (walk key_eq key_hash entry_key fuel idx key)
            (next_seq-seq_at idx m tb.size tb.small h t) step)

    in_room : (t u : ℕ) → (u < suc t → ⊥) → t < u
    in_room t u h = elim (Bool-cases (ltb t u)) [
      | inl e ↦ ground arith
      | inr e ↦ absurd (h (ground arith))
    ]

    -- No entry has the key: the walk stops at a group with an empty slot, behind full ones.
    pub walk-stop :
        (key : CelValue) (h t_room l_room fuel t : ℕ)
        → ((e : ℕ) → e < n → key_eq (entry_key e) key ≡ false)
        → idx.ctrl (pos h t_room l_room) ≡ 0x80
        → l_room < 8
        → t ≤ t_room
        → t_room < t + fuel
        → Before h t
        → (u : ℕ) × (walk key_eq key_hash entry_key fuel idx key (seq_at m h t) (u32 (8 * suc t))
            ≡ stop (seq_at m h u))
          × (u < t + fuel)
          × ((group_match_empty (load idx.ctrl 8 (seq_at m h u)) == 0) ≡ false)
          × Before h u
    unfolding walk
    walk-stop key h t_room l_room zero t none_match room hl le lt before = absurd (omega arith)
    walk-stop key h t_room l_room (suc fuel) t none_match room hl le lt before =
        elim (Option-cases (candidates key_eq key_hash entry_key idx key (seq_at m h t))) [
          | inr (e, c) ↦
              let (e_in, confirmed) = candidate_entry h t e key c in
              absurd (ground (arith, none_match e e_in))
          | inl c ↦ elim (Bool-cases (group_match_empty (load idx.ctrl 8 (seq_at m h t)) == 0)) [
            | inr room_here ↦ (t, rw (c, walk, room_here) refl, omega arith, room_here, before)
            | inl full ↦
                let before' = full-Before h t full before in
                let further : t < t_room =
                  in_room t t_room (λ here. ground (arith, before' t_room l_room here hl)) in
                let (u, w, bound, empty_u, before_u) =
                  walk-stop key h t_room l_room fuel (suc t) none_match room hl (omega arith)
                    (omega arith) before' in
                (u, walk_next key h fuel t c full ∙ w, omega arith, empty_u, before_u)
          ]
        ]

    no_miss :
        (key : CelValue) (h t l e : ℕ)
        → key_eq (entry_key e) key ≡ true
        → idx.slots (pos h t l) ≡ e
        → idx.ctrl (pos h t l) ≡ cel_h2 (key_hash key)
        → l < 8
        → candidates key_eq key_hash entry_key idx key (seq_at m h t) ≡ none
        → ⊥
    no_miss key h t l e match slot byte hl c =
        let place : slot_at idx (seq_at m h t) l ≡ pos h t l =
          slot_at-mod idx m tb.size tb.small (seq_at m h t) l in
        let other : key_eq (entry_key (idx.slots (slot_at idx (seq_at m h t) l))) key ≡ false =
          candidates-none key_eq key_hash entry_key idx (seq_at m h t) l key tb.ok c hl
            (lane_ctrl (seq_at m h t) l (seq-lt h t) hl ∙ byte) in
        let same : idx.slots (slot_at idx (seq_at m h t) l) ≡ e = ap idx.slots place ∙ slot in
        let clash : true ≡ false =
          sym match ∙ sym (ap (λ x. key_eq (entry_key x) key) same) ∙ other in
        cc

    no_room :
        (h t : ℕ)
        → (group_match_empty (load idx.ctrl 8 (seq_at m h t)) == 0) ≡ false
        → ((l : ℕ) → l < 8 → idx.ctrl (pos h t l) < 128)
        → ⊥
    no_room h t room full =
        let l = lowest_lane (group_match_empty (load idx.ctrl 8 (seq_at m h t))) in
        let (hl, eq) = empty_lane idx tb.ok (seq_at m h t) room in
        omega (arith, full l hl, lane_ctrl (seq_at m h t) l (seq-lt h t) hl, eq)

    -- The entry `e` alone has the key, and its hash: the walk finds it.
    pub walk-hit :
        (key : CelValue) (h t_entry l_entry e fuel t : ℕ)
        → ((e' : ℕ) → e' < n → key_eq (entry_key e') key ≡ true → e' ≡ e)
        → key_eq (entry_key e) key ≡ true
        → idx.slots (pos h t_entry l_entry) ≡ e
        → idx.ctrl (pos h t_entry l_entry) ≡ cel_h2 (key_hash key)
        → Before h t_entry
        → l_entry < 8
        → t ≤ t_entry
        → t_entry < t + fuel
        → walk key_eq key_hash entry_key fuel idx key (seq_at m h t) (u32 (8 * suc t)) ≡ hit e
    unfolding walk
    walk-hit key h t_entry l_entry e zero t only match slot byte before hl le lt =
        absurd (omega arith)
    walk-hit key h t_entry l_entry e (suc fuel) t only match slot byte before hl le lt =
        elim (Option-cases (candidates key_eq key_hash entry_key idx key (seq_at m h t))) [
          | inr (e', c) ↦
              let (e_in, confirmed) = candidate_entry h t e' key c in
              rw (c, walk) (ap hit (only e' e_in confirmed))
          | inl c ↦
              let further : t < t_entry = in_room t t_entry (λ here.
                let here_it : t_entry ≡ t = omega arith in
                no_miss key h t l_entry e match
                  (subst (λ x. idx.slots (pos h x l_entry) ≡ e) here_it slot)
                  (subst (λ x. idx.ctrl (pos h x l_entry) ≡ cel_h2 (key_hash key)) here_it byte) hl
                  c) in
              elim (Bool-cases (group_match_empty (load idx.ctrl 8 (seq_at m h t)) == 0)) [
                | inr room_here ↦ absurd (no_room h t room_here (λ l hl. before t l further hl))
                | inl full ↦
                    walk_next key h fuel t c full
                    ∙ walk-hit key h t_entry l_entry e fuel (suc t) only match slot byte before hl
                        (omega arith) (omega arith)
              ]
        ]
