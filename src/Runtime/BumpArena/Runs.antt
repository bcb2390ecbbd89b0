-- ===== src/Runtime/BumpArena/Runs.antt =====
-- runtime/cel_arena.c: a malloc that hands out multiples of 8 upwards and never takes a block back,
-- an arena with a first chunk of 16 bytes, and the theorems there.
use cel_spec_wasm.Prelude.{
  ℕ, ◌+◌, ◌*◌, ◌/◌, ◌^◌, ◌≡◌, ◌<◌, refl, true, false, List, [], ◌∷◌, leb, ltb, ◌&&◌, Option, none,
  some, if◌then◌else◌, arith,
}
use cel_spec_wasm.Runtime.BumpArena.{
  Allocator, Behaves, Run, ok, trap, CelArena, arena_init, arena_alloc, alloc_chunk, initial,
  pick_grow_size, need_of, bump, grow, chained, arena_reset, free_after_head, free_chunk,
}
use cel_spec_wasm.Runtime.BumpArena.Steps.{alloc, reset}
use cel_spec_wasm.Runtime.BumpArena.Refine.{calls}
use cel_spec_wasm.Runtime.BumpArena.Traces.{Refines, arena-Refines}

-- The state `s` has handed out what lies below `8 * (s + 1)`.
abbrev upwards : Allocator
upwards = record {
  State = ℕ;
  malloc = λ s n. if leb (8 * (s + 1) + n) (2 ^ 32) then (8 * (s + 1), s + 1 + n / 8) else (0, s);
  free = λ s p. s;
}

upwards_Behaves : Behaves upwards
upwards_Behaves = record {
  Live = λ s p n. p + n < 8 * (s + 1);
  gives = λ s n got. ground arith;
  fits = λ s n got. ground arith;
  aligned = λ s n. ground arith;
  fresh = λ s n q k got live. (ground arith, ground arith);
  malloc_keeps = λ s n q k live. ground arith;
  free_keeps = λ s p q k live ne. live;
}

abbrev blank : CelArena upwards
blank = record {
  chain = [];
  total_used = 0;
  total_cap = 0;
  initialized = false;
  oom_block = 0;
  heap = 0;
  byte = λ q. 7;
}

abbrev ready : CelArena upwards
ready = record {
  chain = record { self = 8; base = 32; capacity = 16; cursor = 0 } ∷ [];
  total_used = 0;
  total_cap = 16;
  initialized = true;
  oom_block = 56;
  heap = 23;
  byte = λ q. if leb 56 q && ltb q 184 then 0 else 7;
}

-- What the calls return, and nothing after a trap.
results : Run (List ℕ × CelArena upwards) → Option (List ℕ)
results (ok (outs, a)) = some outs
results trap = none

-- Two requests fill the first chunk, a third makes another; after the reset the first is used again.
chained_run :
    results (calls upwards ready (alloc 5 ∷ alloc 0 ∷ alloc 9 ∷ reset ∷ alloc 16 ∷ []))
    ≡ some (32 ∷ 40 ∷ 216 ∷ 0 ∷ 32 ∷ [])
unfolding results arena_alloc alloc_chunk pick_grow_size need_of bump grow chained arena_reset
    free_after_head free_chunk
chained_run = refl

arena-Refines_example :
    Refines upwards_Behaves ready (alloc 5 ∷ alloc 0 ∷ alloc 9 ∷ reset ∷ alloc 16 ∷ [])
unfolding arena_init alloc_chunk initial
arena-Refines_example =
    arena-Refines upwards_Behaves blank ready 16
      (alloc 5 ∷ alloc 0 ∷ alloc 9 ∷ reset ∷ alloc 16 ∷ []) refl refl refl
