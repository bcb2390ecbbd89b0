-- ===== src/Runtime/BumpArena/Refine.antt =====
-- runtime/cel_arena.c: each call of the arena is a step of the specification, so a sequence of
-- calls is a trace of it.
use cel_spec_wasm.Prelude.{
  ℕ, ◌+◌, ◌-◌, ◌^◌, ◌≡◌, ◌≤◌, ◌⊎◌, inl, inr, refl, Option, none, some, List, [], ◌∷◌, ltb,
  if◌then◌else◌, arith, Bool-cases,
}
use mathlib.Core.Path.{subst}
use cel_spec_wasm.Runtime.Value.{u32}
use cel_spec_wasm.Runtime.BumpArena.{
  Allocator, Behaves, Chunk, Run, ok, trap, CelArena, clear, need_of, pick_grow_size, alloc_chunk,
  bump, grow, chained, arena_alloc, arena_reset,
}
use cel_spec_wasm.Runtime.BumpArena.Chain.{
  Keeps, IsChain-Keeps, Made, Result, failed, made, alloc_chunk-Result, All-Separate,
}
use cel_spec_wasm.Runtime.BumpArena.Steps.{
  Spec, Op, alloc, reset, Step, refused, given, here, there, Holds, need_of_lem,
  pick_grow_size-enough, All-imp, Disjoint-new, Inside-later,
}

module _ (al : Allocator) where
  abbrev pub call : CelArena al → Op → Run (ℕ × CelArena al)
  call a (alloc n) = arena_alloc al a n
  call a reset = ok (0, arena_reset al a)

  -- A sequence of calls, with what each returns; it ends at a trap.
  abbrev pub prepend : ℕ → Run (List ℕ × CelArena al) → Run (List ℕ × CelArena al)
  prepend out trap = trap
  prepend out (ok (outs, a)) = ok (out ∷ outs, a)

  abbrev pub followed :
      Run (ℕ × CelArena al)
      → (CelArena al → Run (List ℕ × CelArena al))
      → Run (List ℕ × CelArena al)
  followed trap rest = trap
  followed (ok (out, a)) rest = prepend out (rest a)

  abbrev pub calls : CelArena al → List Op → Run (List ℕ × CelArena al)
  calls a [] = ok ([], a)
  calls a (op ∷ ops) = followed (call a op) (λ b. calls b ops)

pub chain-cases : (cs : List Chunk) → (cs ≡ []) ⊎ ((c : Chunk) × (ds : List Chunk) × (cs ≡ c ∷ ds))
chain-cases [] = inl refl
chain-cases (c ∷ ds) = inr (c, ds, refl)

module _ {al : Allocator} (be : Behaves al) where
  -- The call does not trap, and it is a step of the specification.
  pub data Simulates (s : Spec) (op : Op) : Run (ℕ × CelArena al) → Type 0 where
    simulates :
        {out : ℕ} {a : CelArena al} {t : Spec}
        → Step s op out t
        → Holds be a t
        → Simulates s op (ok (out, a))

  bump-Simulates :
      (a : CelArena al) (c : Chunk) (cs : List Chunk) (n : ℕ) (s : Spec)
      → n ≤ 2 ^ 32 - 8
      → c.cursor + need_of n ≤ c.capacity
      → Holds be (record a { chain = c ∷ cs }) s
      → Simulates s (alloc n) (ok (bump al a c cs (need_of n)))
  unfolding bump
  bump-Simulates a c cs n s small fits h =
      let (enough, positive, multiple) = need_of_lem n small in
      let (held, apart, rest) = h.chunks in
      let aligned = held.aligned in
      let in_memory = held.in_memory in
      let step = held.step in
      let used = h.used in
      simulates
        {t = record {
          regions = (c.base + c.cursor, need_of n) ∷ s.regions;
          byte = clear s.byte (c.base + c.cursor) (need_of n);
        }}
        (given (λ e. held.not_null (omega arith)) (omega arith) enough positive multiple
          (omega arith)
          (All-imp s.regions (λ r i. Disjoint-new be a.heap c cs (need_of n) r fits h.chunks i)
            h.regions))
        (record {
          ready = h.ready;
          occupied = λ e. cc;
          chunks = (
            record {
              struct = held.struct;
              buffer = held.buffer;
              not_null = held.not_null;
              aligned = held.aligned;
              in_memory = held.in_memory;
              room = fits;
              step = omega arith;
            },
            All-imp cs
                (λ d sep. record {
                  structs = sep.structs;
                  buffers = sep.buffers;
                  struct_buffer = sep.struct_buffer;
                  buffer_struct = sep.buffer_struct;
                })
                apart,
            rest,
          );
          regions = (
            here (omega arith) (omega arith),
            All-imp s.regions (λ r i. Inside-later be c cs (need_of n) r i) h.regions,
          );
          used = omega arith;
          capacity = h.capacity;
          bytes = rw h.bytes refl;
        })

  Holds-Keeps :
      (a : CelArena al) (t : al.State) (s : Spec)
      → Keeps be a.heap t
      → Holds be a s
      → Holds be (record a { heap = t }) s
  Holds-Keeps a t s keeps h = record {
    ready = h.ready;
    occupied = h.occupied;
    chunks = IsChain-Keeps be a.heap t a.chain keeps h.chunks;
    regions = h.regions;
    used = h.used;
    capacity = h.capacity;
    bytes = h.bytes;
  }

  -- The chain with the new chunk in front, before the bump in it.
  Holds-Made :
      (a : CelArena al) (cs : List Chunk) (nc : Chunk) (t : al.State) (size : ℕ) (s : Spec)
      → Made be a.heap t size nc
      → Holds be (record a { chain = cs }) s
      → Holds be (record a { heap = t; total_cap = u32 (a.total_cap + size); chain = nc ∷ cs }) s
  Holds-Made a cs nc t size s m h =
      let cursor_eq = m.cursor_eq in
      let capacity_eq = m.capacity_eq in
      let used = h.used in
      let capacity = h.capacity in
      record {
        ready = h.ready;
        occupied = λ e. cc;
        chunks = (
          m.held,
          All-Separate be a.heap nc cs m.separate h.chunks,
          IsChain-Keeps be a.heap t cs m.keeps h.chunks,
        );
        regions = All-imp s.regions (λ r i. there i) h.regions;
        used = omega arith;
        capacity = omega arith;
        bytes = h.bytes;
      }

  chained-Simulates :
      (a : CelArena al) (c : Chunk) (cs : List Chunk) (n size : ℕ) (s : Spec)
      (r : Option Chunk × al.State)
      → n ≤ 2 ^ 32 - 8
      → need_of n ≤ size
      → a.chain ≡ c ∷ cs
      → Result be a.heap size r
      → Holds be a s
      → Simulates s (alloc n) (ok (chained al a c cs (need_of n) size r))
  unfolding chained
  chained-Simulates a c cs n size s (none, t) small fits e (failed keeps) h =
      simulates refused (Holds-Keeps a t s keeps h)
  chained-Simulates a c cs n size s (some nc, t) small fits e (made m) h =
      let cursor_eq = m.cursor_eq in
      let capacity_eq = m.capacity_eq in
      bump-Simulates (record a { heap = t; total_cap = u32 (a.total_cap + size) }) nc (c ∷ cs) n s
        small (omega arith)
        (Holds-Made a (c ∷ cs) nc t size s m
          (subst (λ ch. Holds be (record a { chain = ch }) s) e h))

  -- With the chain written out.
  in_chain :
      (a : CelArena al) (c : Chunk) (cs : List Chunk) (n : ℕ) (s : Spec)
      → n ≤ 2 ^ 32 - 8
      → a.chain ≡ c ∷ cs
      → Holds be a s
      → Simulates s (alloc n) (
          if ltb (c.capacity - c.cursor) (need_of n)
          then ok (grow al a c cs (need_of n))
          else ok (bump al a c cs (need_of n)))
  unfolding grow
  in_chain a c cs n s small e h =
      let h' : Holds be (record a { chain = c ∷ cs }) s =
        subst (λ ch. Holds be (record a { chain = ch }) s) e h in
      let size = pick_grow_size c.capacity (need_of n) in
      elim (Bool-cases (ltb (c.capacity - c.cursor) (need_of n))) [
        | inl full ↦ rw full (
            chained-Simulates a c cs n size s (alloc_chunk al a.heap size) small
              (pick_grow_size-enough c.capacity (need_of n)) e (alloc_chunk-Result be a.heap size)
              h)
        | inr room ↦
            let in_buffer = h'.chunks.0.room in
            rw room (bump-Simulates a c cs n s small (ground arith) h')
      ]

  pub alloc-Simulates :
      (a : CelArena al) (n : ℕ) (s : Spec)
      → Holds be a s
      → Simulates s (alloc n) (arena_alloc al a n)
  unfolding arena_alloc
  alloc-Simulates a n s h = elim (Bool-cases (ltb (2 ^ 32 - 8) n)) [
    | inl large ↦ rw large (simulates refused h)
    | inr small ↦ elim (chain-cases a.chain) [
      | inl e ↦ absurd (h.occupied e)
      | inr (c, cs, e) ↦ rw (small, h.ready, e) (in_chain a c cs n s (ground arith) e h)
    ]
  ]
