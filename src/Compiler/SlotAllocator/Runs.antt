-- ===== src/Compiler/SlotAllocator/Runs.antt =====
-- compiler/codegen/slot_allocator.cc: the trace of the header's comment, and the theorems at
-- concrete inputs.
use cel_spec_wasm.Prelude.{◌+◌, ◌≤◌, ◌%◌, ◌≡◌, refl, true, false, some, [], ◌∷◌, arith}
use cel_spec_wasm.Compiler.SlotAllocator.{
  SlotAllocator, create, acquire, release, total_bytes, slot_stride,
}
use cel_spec_wasm.Compiler.SlotAllocator.World.{
  Reach, here, next, acquires, releases, start, count, IsValid, create-Reach-IsValid, acquire_fresh,
}
use cel_spec_wasm.Compiler.SlotAllocator.Debug
use cel_spec_wasm.Compiler.SlotAllocator.Debug.{Request, run, cells_from, run-cells_from}

-- `(a + b) + (c + d)` at base 128: two cells, and the first released one is handed out again.
abbrev fresh : SlotAllocator
fresh = record {
  base_offset = 128;
  debug_mode = false;
  bump = 0;
  live_slots = 0;
  peak_slots = 0;
  free_list = [];
}

abbrev full : SlotAllocator
full = record {
  base_offset = 128;
  debug_mode = false;
  bump = 2;
  live_slots = 2;
  peak_slots = 2;
  free_list = [];
}

abbrev freed : SlotAllocator
freed = record {
  base_offset = 128;
  debug_mode = false;
  bump = 2;
  live_slots = 1;
  peak_slots = 2;
  free_list = 160 ∷ [];
}

abbrev in_debug : SlotAllocator
in_debug = record fresh { debug_mode = true }

two_live : Reach (start fresh) (record { alloc = full; live = 160 ∷ 128 ∷ []; most = 2 })
unfolding acquire
two_live = next (next here (acquires _ (omega arith))) (acquires _ (omega arith))

one_freed : Reach (start fresh) (record { alloc = freed; live = 128 ∷ []; most = 2 })
unfolding release
one_freed = next two_live (releases _ 160 freed (omega arith) refl)

created : create 128 false ≡ some fresh
unfolding create
created = refl

create-Reach-IsValid_example : IsValid (record { alloc = freed; live = 128 ∷ []; most = 2 })
create-Reach-IsValid_example = create-Reach-IsValid 128 fresh _ (omega arith) created one_freed

acquire_fresh_example :
    let (x, a) = acquire freed in
    (count x (128 ∷ []) ≡ 0) × (x % 16 ≡ 0) × (128 ≤ x) × (x + slot_stride ≤ 128 + total_bytes a)
acquire_fresh_example =
    acquire_fresh (record { alloc = freed; live = 128 ∷ []; most = 2 }) create-Reach-IsValid_example
      (omega arith) (omega arith)

run-cells_from_example :
    run (Debug.acquires ∷ Debug.releases 128 ∷ Debug.acquires ∷ []) in_debug
    ≡ some (128 ∷ 160 ∷ [], record in_debug { bump = 2; peak_slots = 2 })
run-cells_from_example =
    run-cells_from (Debug.acquires ∷ Debug.releases 128 ∷ Debug.acquires ∷ []) in_debug refl refl
      (omega arith)
