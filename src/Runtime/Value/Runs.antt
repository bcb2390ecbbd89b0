-- ===== src/Runtime/Value/Runs.antt =====
-- runtime/cel_3vl.c: an arena that only grows, and the merge of two concrete sets.
use cel_spec_wasm.Prelude.{ℕ, ◌+◌, ◌≤◌, ◌≡◌, refl, ◌||◌, true, [], ◌∷◌, length}
use cel_spec_wasm.Runtime.Value.{Arena, merge_sorted_id_arrays}
use cel_spec_wasm.Runtime.Value.Merge.{ascending, contains, merge-union}

-- An arena that hands out its top.
abbrev pub bump : Arena
bump = record { State = ℕ; alloc = λ top n. (top, top + n) }

merge-union_example :
    (ascending 0 (merge_sorted_id_arrays (1 ∷ 4 ∷ []) (2 ∷ 4 ∷ [])) ≡ true)
    × (contains 4 (merge_sorted_id_arrays (1 ∷ 4 ∷ []) (2 ∷ 4 ∷ []))
        ≡ (contains 4 (1 ∷ 4 ∷ []) || contains 4 (2 ∷ 4 ∷ [])))
    × (length (merge_sorted_id_arrays (1 ∷ 4 ∷ []) (2 ∷ 4 ∷ [])) ≤ 4)
merge-union_example = merge-union (1 ∷ 4 ∷ []) (2 ∷ 4 ∷ []) 4 refl refl
