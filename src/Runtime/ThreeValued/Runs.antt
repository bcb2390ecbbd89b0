-- ===== src/Runtime/ThreeValued/Runs.antt =====
-- runtime/cel_3vl.c: `&&` and `||` on concrete cells.
use cel_spec_wasm.Prelude.{ℕ, ◌==◌, ◌≡◌, refl, true, if◌then◌else◌}
use cel_spec_wasm.Runtime.Value.{
  unknown, null, Memory, cel_unknown_merge, merge_sets, merge_unknown_descriptors, arena_alloc,
  alloc_unknown_descriptor, merge_sorted_id_arrays, read_words, write_words,
}
use cel_spec_wasm.Runtime.Value.Runs.{bump}
use cel_spec_wasm.Runtime.ThreeValued.{cel_and, cel_or, cel_not, logic_unknown_error_tail}
use cel_spec_wasm.Runtime.ThreeValued.Tables.{logic_tables}

-- Two unknowns: the sets {3} and {5}, with descriptors at 64 and 72.
abbrev memory : Memory ℕ
memory = record {
  cell = λ x. if x == 1 then unknown 64 else if x == 2 then unknown 72 else null;
  heap = record {
    word = λ q.
        if q == 64
        then 80
        else if q == 72
        then 84
        else if q == 80
        then 3
        else if q == 84
        then 5
        else 1;
    arena = 128;
  };
}

-- The merged set is {3, 5}, at 128, with its descriptor at 136.
two_unknowns :
    ((cel_and bump memory 3 1 2).cell 3 ≡ unknown 136)
    × ((cel_and bump memory 3 1 2).heap.word 128 ≡ 3)
    × ((cel_and bump memory 3 1 2).heap.word 132 ≡ 5)
    × ((cel_and bump memory 3 1 2).heap.word 140 ≡ 2)
unfolding cel_and logic_unknown_error_tail cel_unknown_merge merge_sets merge_unknown_descriptors
    arena_alloc alloc_unknown_descriptor merge_sorted_id_arrays read_words write_words
two_unknowns = (refl, refl, refl, refl)

logic_tables_example :
    ((cel_and bump memory 3 1 2).cell 3 ≡ unknown 136)
    × ((cel_or bump memory 3 1 2).cell 3 ≡ unknown 136)
    × ((cel_not bump memory 3 1).cell 3 ≡ unknown 64)
    × (true ≡ true)
unfolding cel_unknown_merge merge_sets merge_unknown_descriptors arena_alloc
    alloc_unknown_descriptor merge_sorted_id_arrays read_words write_words
logic_tables_example = logic_tables bump memory 3 1 2
