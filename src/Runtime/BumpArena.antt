-- ===== src/Runtime/BumpArena.antt =====
-- runtime/cel_arena.c, the build for wasm: a bump arena over a chain of chunks from malloc. The
-- chain is a list from the youngest chunk, `tail`, to the oldest, `head`; a chunk keeps the
-- address of its own struct, which is freed with it.
pub mod Chain
pub mod Steps
pub mod Refine
pub mod Reset
pub mod Traces
pub mod Serves
pub mod Runs
use cel_spec_wasm.Prelude.{
  ℕ, ◌+◌, ◌-◌, ◌*◌, ◌^◌, ◌≡◌, ◌≢◌, ◌≤◌, ◌%◌, ◌⊎◌, Bool, true, false, not, ◌&&◌, Option, none, some,
  List, [], ◌∷◌, ltb, leb, ◌==◌, if◌then◌else◌,
}
use cel_spec_wasm.Runtime.Value.{u32, align_up_8}

-- malloc and free of the C library: 0 is the null pointer.
pub record Allocator : Type 1 where
  pub State : Type 0
  pub malloc : State → ℕ → ℕ × State
  pub free : State → ℕ → State

-- The blocks `[p, p + n)` and `[q, q + k)` have different addresses and no byte in common.
abbrev pub Apart : ℕ → ℕ → ℕ → ℕ → Type 0
Apart p n q k = (p ≢ q) × ((p + n ≤ q) ⊎ (q + k ≤ p))

-- What the standard says of the two: `Live s p n` when malloc returned `p` for `n` bytes and
-- nothing freed it since.
pub record Behaves (al : Allocator) : Type 1 where
  pub Live : al.State → ℕ → ℕ → Type 0
  pub gives :
      (s : al.State) (n : ℕ) → (al.malloc s n).0 ≢ 0 → Live (al.malloc s n).1 (al.malloc s n).0 n
  pub fits : (s : al.State) (n : ℕ) → (al.malloc s n).0 ≢ 0 → (al.malloc s n).0 + n ≤ 2 ^ 32
  pub aligned : (s : al.State) (n : ℕ) → (al.malloc s n).0 % 8 ≡ 0
  pub fresh :
      (s : al.State) (n q k : ℕ)
      → (al.malloc s n).0 ≢ 0
      → Live s q k
      → Apart (al.malloc s n).0 n q k
  pub malloc_keeps : (s : al.State) (n q k : ℕ) → Live s q k → Live (al.malloc s n).1 q k
  pub free_keeps : (s : al.State) (p q k : ℕ) → Live s q k → p ≢ q → Live (al.free s p) q k

-- A CelArenaChunk at `self`.
pub record Chunk : Type 0 where
  pub self : ℕ
  pub base : ℕ
  pub capacity : ℕ
  pub cursor : ℕ

-- The result of a call that may trap.
pub data Run (A : Type 0) : Type 0 where
  ok : A → Run A
  trap : Run A

abbrev pub min_grow_bytes : ℕ
min_grow_bytes = 4096

abbrev pub max_grow_bytes : ℕ
max_grow_bytes = 2 ^ 20

abbrev pub oom_block_bytes : ℕ
oom_block_bytes = 128

abbrev pub chunk_bytes : ℕ
chunk_bytes = 16

-- `memset(p, 0, n)`
abbrev pub clear : (ℕ → ℕ) → ℕ → ℕ → ℕ → ℕ
clear byte p n q = if leb p q && ltb q (p + n) then 0 else byte q

unfoldable pub pick_grow_size : ℕ → ℕ → ℕ
pick_grow_size prev_capacity at_least_bytes =
    let doubled = u32 (prev_capacity * 2) in
    let raised = if ltb doubled min_grow_bytes then min_grow_bytes else doubled in
    let want = if ltb max_grow_bytes raised then max_grow_bytes else raised in
    if ltb want at_least_bytes then at_least_bytes else want

-- What a request of `n` bytes takes.
unfoldable pub need_of : ℕ → ℕ
need_of n = if align_up_8 n == 0 then 8 else align_up_8 n

-- The last chunk of the list is the head of the chain.
abbrev pub head_of : List Chunk → Option Chunk
head_of [] = none
head_of (c ∷ []) = some c
head_of (c ∷ d ∷ cs) = head_of (d ∷ cs)

module _ (al : Allocator) where
  -- `g_arena` and `g_oom_block`, with the linear memory and the state of malloc.
  pub record CelArena : Type 0 where
    pub chain : List Chunk
    pub total_used : ℕ
    pub total_cap : ℕ
    pub initialized : Bool
    pub oom_block : ℕ
    pub heap : al.State
    pub byte : ℕ → ℕ

  unfoldable pub alloc_chunk : al.State → ℕ → Option Chunk × al.State
  alloc_chunk s want_bytes =
      let (c, s1) = al.malloc s chunk_bytes in
      if c == 0
      then (none, s1)
      else (let (p, s2) = al.malloc s1 want_bytes in
          if p == 0
          then (none, al.free s2 c)
          else (some (record { self = c; base = p; capacity = want_bytes; cursor = 0 }), s2))

  unfoldable pub free_chunk : al.State → Chunk → al.State
  free_chunk s c = al.free (al.free s c.base) c.self

  -- What follows the call of `alloc_chunk`, given what that returned.
  unfoldable pub initial : CelArena → ℕ → Option Chunk × al.State → CelArena
  initial a cap_bytes (none, s) = record a { heap = s }
  initial a cap_bytes (some c, s) =
      let (oom, s') = al.malloc s oom_block_bytes in
      record {
        chain = c ∷ [];
        total_used = 0;
        total_cap = cap_bytes;
        initialized = true;
        oom_block = oom;
        heap = s';
        byte = if oom == 0 then a.byte else clear a.byte oom oom_block_bytes;
      }

  unfoldable pub arena_init : CelArena → ℕ → Run CelArena
  arena_init a cap_bytes =
      if a.initialized
      then elim (head_of a.chain) [
        | none ↦ ok a
        | some h ↦ if not (h.capacity == cap_bytes) then trap else ok a
      ]
      else ok (initial a cap_bytes (alloc_chunk a.heap cap_bytes))

  -- The bump in the chunk `c`, the youngest of the chain `c ∷ cs`.
  unfoldable pub bump : CelArena → Chunk → List Chunk → ℕ → ℕ × CelArena
  bump a c cs need =
      let p = c.base + c.cursor in
      (
        p,
        record a {
          chain = record c { cursor = c.cursor + need } ∷ cs;
          total_used = u32 (a.total_used + need);
          byte = clear a.byte p need;
        },
      )

  -- What follows the call of `alloc_chunk`, given what that returned.
  unfoldable pub chained :
      CelArena → Chunk → List Chunk → ℕ → ℕ → Option Chunk × al.State → ℕ × CelArena
  chained a c cs need grow_bytes (none, s) = (0, record a { heap = s })
  chained a c cs need grow_bytes (some nc, s) =
      bump (record a { heap = s; total_cap = u32 (a.total_cap + grow_bytes) }) nc (c ∷ cs) need

  unfoldable pub grow : CelArena → Chunk → List Chunk → ℕ → ℕ × CelArena
  grow a c cs need =
      let grow_bytes = pick_grow_size c.capacity need in
      chained a c cs need grow_bytes (alloc_chunk a.heap grow_bytes)

  -- A chain is empty only before `arena_init`, where the call traps.
  unfoldable pub arena_alloc : CelArena → ℕ → Run (ℕ × CelArena)
  arena_alloc a n =
      if ltb (2 ^ 32 - 8) n then ok (0, a) else if not a.initialized then trap else elim a.chain [
        | [] ↦ trap
        | c ∷ cs ↦
            if ltb (c.capacity - c.cursor) (need_of n)
            then ok (grow a c cs (need_of n))
            else ok (bump a c cs (need_of n))
      ]

  pub arena_oom_block : CelArena → ℕ
  arena_oom_block a = a.oom_block

  -- The loop frees the chunks after the head, from the oldest to the youngest.
  unfoldable pub free_after_head : al.State → List Chunk → al.State
  free_after_head s [] = s
  free_after_head s (c ∷ []) = s
  free_after_head s (c ∷ d ∷ cs) = free_chunk (free_after_head s (d ∷ cs)) c

  unfoldable pub arena_reset : CelArena → CelArena
  arena_reset a = elim (head_of a.chain) [
    | none ↦ a
    | some h ↦ record a {
      heap = free_after_head a.heap a.chain;
      chain = record h { cursor = 0 } ∷ [];
      total_used = 0;
      total_cap = h.capacity;
    }
  ]

  unfoldable pub arena_cursor : CelArena → ℕ
  arena_cursor a = elim (head_of a.chain) [ none ↦ 0 | some h ↦ h.cursor ]

  pub arena_capacity : CelArena → ℕ
  arena_capacity a = a.total_cap
