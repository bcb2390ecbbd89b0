-- ===== src/Runtime/Maps/Runs.antt =====
-- runtime/cel_runtime.c and cel_arena.c: the literal {true: 10, 2: true} in the bump arena, over a
-- malloc that hands out multiples of 8 upwards, and a lookup in it with the double 2.0.
use cel_spec_wasm.Prelude.{
  ℕ, ◌+◌, ◌*◌, ◌/◌, ◌^◌, ◌≡◌, ◌≢◌, ◌≤◌, ◌<◌, refl, List, [], ◌∷◌, leb, ◌==◌, if◌then◌else◌, arith,
  true, false,
}
use cel_spec_wasm.Prelude.Int.{pos}
use cel_spec_wasm.Runtime.Value.{CelValue, int, bool, double, null, Memory, arena_alloc, write}
use cel_spec_wasm.Runtime.Compare.{
  cel_numeric_key_eq, double_matches_integer, double_as_int, matches_int,
}
use cel_spec_wasm.Runtime.BumpArena
use cel_spec_wasm.Runtime.BumpArena.{
  Allocator, Behaves, CelArena, ok, arena_init, alloc_chunk, initial, pick_grow_size, need_of, bump,
  grow, chained, clear,
}
use cel_spec_wasm.Runtime.BumpArena.Reset.{init-Holds}
use cel_spec_wasm.Runtime.BumpArena.Serves.{bounded, Served, bump_arena, bump_arena-Lawful}
use cel_spec_wasm.Runtime.MapKey.{cel_map_key_eq, cel_map_key_hash, cel_value_eq}
use cel_spec_wasm.Runtime.MapKey.Hash.{a_double}
use cel_spec_wasm.Runtime.MapKey.Runs.{tiny, tiny-Lawful}
use cel_spec_wasm.Runtime.MapIndex.{Index, cel_map_index_build}
use cel_spec_wasm.Runtime.MapIndex.Find.{scan_entries}
use cel_spec_wasm.Runtime.Maps.{
  cel_map_create, cel_map_insert, cel_map_lookup, request, entries_block, entries_bytes_checked,
  push_entry, index_map, verdict,
}
use cel_spec_wasm.Runtime.Maps.Entries.{assoc}
use cel_spec_wasm.Runtime.Maps.Push.{insert_view}
use cel_spec_wasm.Runtime.Maps.Room.{request-IsGiven}
use cel_spec_wasm.Runtime.Maps.Views.{Code, literal}
use cel_spec_wasm.Runtime.Maps.Literal.{Leaves, lookup-literal}

-- The state `s` has handed out what lies below `1024 + 8 * s`.
abbrev upwards : Allocator
upwards = record {
  State = ℕ;
  malloc = λ s n. if leb (1024 + 8 * s + n) (2 ^ 32) then (1024 + 8 * s, s + 1 + n / 8) else (0, s);
  free = λ s p. s;
}

upwards_Behaves : Behaves upwards
upwards_Behaves = record {
  Live = λ s p n. p + n < 1024 + 8 * s;
  gives = λ s n got. ground arith;
  fits = λ s n got. ground arith;
  aligned = λ s n. ground arith;
  fresh = λ s n q k got live. (ground arith, ground arith);
  malloc_keeps = λ s n q k live. ground arith;
  free_keeps = λ s p q k live ne. live;
}

upwards_high : (s n : ℕ) → (upwards.malloc s n).0 ≢ 0 → 1024 ≤ (upwards.malloc s n).0
upwards_high s n got = ground arith

abbrev empty : CelArena upwards
empty = record {
  chain = [];
  total_used = 0;
  total_cap = 0;
  initialized = false;
  oom_block = 0;
  heap = 0;
  byte = λ q. 7;
}

-- After `arena_init(256)`.
abbrev ready : CelArena upwards
ready = record {
  chain = record { self = 1024; base = 1048; capacity = 256; cursor = 0 } ∷ [];
  total_used = 0;
  total_cap = 256;
  initialized = true;
  oom_block = 1312;
  heap = 53;
  byte = clear (λ q. 7) 1312 128;
}

served : Served upwards_Behaves 1024 upwards_high
unfolding arena_init alloc_chunk initial
served = record {
  arena = ready;
  spec = record { regions = []; byte = ready.byte };
  held = init-Holds (bounded upwards_Behaves 1024 upwards_high) empty ready 256 refl refl refl;
}

abbrev State : Type 0
State = Served upwards_Behaves 1024 upwards_high

abbrev LiteralCode : Type 0
LiteralCode =
    Code (bump_arena upwards_Behaves 1024 upwards_high) (cel_map_key_eq tiny (λ q. 0))
      (cel_map_key_hash tiny (λ q. 0))

-- The cells 72 and 96 hold constants.
abbrev blank : Memory State
blank = record {
  cell = λ x. if x == 72 then double 2 else if x == 96 then bool 1 else null;
  heap = record { word = λ q. 0; arena = served };
}

-- A constant, and code that takes 40 bytes of the arena and leaves a value in a workspace cell.
constant : ℕ → LiteralCode
constant off m = (off, m)

work : ℕ → CelValue → LiteralCode
work off v m = (
  off,
  write
      (request (bump_arena upwards_Behaves 1024 upwards_high) (cel_map_key_eq tiny (λ q. 0))
        (cel_map_key_hash tiny (λ q. 0)) m 40).1
      off v,
)

module _ (off : ℕ) (v : CelValue) (low_off : off + 24 ≤ 1024) (other : (0 == off) ≡ false)
    (m : Memory State) where
  constant-Leaves :
      Leaves
        (bump_arena upwards_Behaves 1024 upwards_high)
        (cel_map_key_eq tiny (λ q. 0))
        (cel_map_key_hash tiny (λ q. 0))
        1024
        (bump_arena-Lawful upwards_Behaves 1024 upwards_high)
        0
        m
        (constant off m).1
  unfolding constant
  constant-Leaves = record {
    cell = refl;
    still = λ q k live. live;
    words = λ q k x live lo hi. refl;
    cells = λ q k x live lo hi. refl;
  }

  work-Leaves :
      Leaves
        (bump_arena upwards_Behaves 1024 upwards_high)
        (cel_map_key_eq tiny (λ q. 0))
        (cel_map_key_hash tiny (λ q. 0))
        1024
        (bump_arena-Lawful upwards_Behaves 1024 upwards_high)
        0
        m
        (work off v m).1
  unfolding work
  work-Leaves =
      let law = bump_arena-Lawful upwards_Behaves 1024 upwards_high in
      let given =
        request-IsGiven (bump_arena upwards_Behaves 1024 upwards_high)
          (cel_map_key_eq tiny (λ q. 0)) (cel_map_key_hash tiny (λ q. 0)) 1024 law m 40 in
      record {
        cell = rw other (given.low_cells 0 (omega arith));
        still = given.still;
        words = given.words;
        cells = λ q k x live lo hi.
            let above : 1024 ≤ q = law.high m.heap.arena q k live in
            let apart : (x == off) ≡ false = ground arith in
            rw apart (given.cells q k x live lo hi);
      }

abbrev two_entries : List (LiteralCode × LiteralCode)
two_entries = (constant 96, work 48 (int (pos 10))) ∷ (work 24 (int (pos 2)), work 48 (bool 1)) ∷ []

abbrev no_index : ℕ → Index
no_index b = record { num_slots = 8; ctrl = λ x. 128; slots = λ x. 0 }

lookup-literal_example :
    (cel_map_lookup
        (bump_arena upwards_Behaves 1024 upwards_high)
        (cel_map_key_eq tiny (λ q. 0))
        (cel_map_key_hash tiny (λ q. 0))
        (λ m out a b. m)
        (literal
          (bump_arena upwards_Behaves 1024 upwards_high)
          (cel_map_key_eq tiny (λ q. 0))
          (cel_map_key_hash tiny (λ q. 0))
          blank
          no_index
          0
          two_entries).0
        (literal
          (bump_arena upwards_Behaves 1024 upwards_high)
          (cel_map_key_eq tiny (λ q. 0))
          (cel_map_key_hash tiny (λ q. 0))
          blank
          no_index
          0
          two_entries).1
        48
        0
        72).cell
      48
    ≡ bool 1
unfolding cel_map_create cel_map_insert request entries_block entries_bytes_checked push_entry
    index_map verdict arena_alloc scan_entries cel_map_key_eq cel_value_eq cel_numeric_key_eq
    double_matches_integer double_as_int matches_int cel_map_index_build assoc insert_view
    BumpArena.arena_alloc alloc_chunk pick_grow_size need_of bump grow chained served constant work
lookup-literal_example =
    lookup-literal upwards_Behaves 1024 upwards_high tiny tiny-Lawful (λ q. 0) (λ q. omega arith)
      (λ m out a b. m) blank no_index 0 72 48 two_entries (double 2) (omega arith)
      (
        record {
          key_pure = λ m. constant-Leaves 96 null (omega arith) refl m;
          value_pure = λ m. work-Leaves 48 (int (pos 10)) (omega arith) refl m;
          value_low = λ m. omega arith;
        },
        (
          record {
            key_pure = λ m. work-Leaves 24 (int (pos 2)) (omega arith) refl m;
            value_pure = λ m. work-Leaves 48 (bool 1) (omega arith) refl m;
            value_low = λ m. omega arith;
          },
          tt,
        ),
      )
      (omega arith) refl refl (a_double 2)
