-- ===== src/Runtime/BumpArena/Chain.antt =====
-- runtime/cel_arena.c: the chunks of a chain are live blocks of malloc, apart from one another, and
-- stay so when another chunk is made and when the chunks after the head are freed.
use cel_spec_wasm.Prelude.{
  ℕ, ◌+◌, ◌^◌, ◌≡◌, ◌≢◌, ◌≤◌, ◌%◌, inl, inr, refl, Option, none, some, List, [], ◌∷◌, ◌==◌, arith,
  All, Bool-cases,
}
use cel_spec_wasm.Runtime.BumpArena.{Allocator, Behaves, Apart, Chunk, chunk_bytes, alloc_chunk}

pub Apart-sym : (p n q k : ℕ) → Apart p n q k → Apart q k p n
Apart-sym p n q k (ne, inl h) = (λ e. ne (omega arith), inr h)
Apart-sym p n q k (ne, inr h) = (λ e. ne (omega arith), inl h)

-- The two blocks of `c` are apart from those of `d`.
pub record Separate (c d : Chunk) : Type 0 where
  pub structs : Apart c.self chunk_bytes d.self chunk_bytes
  pub buffers : Apart c.base c.capacity d.base d.capacity
  pub struct_buffer : Apart c.self chunk_bytes d.base d.capacity
  pub buffer_struct : Apart c.base c.capacity d.self chunk_bytes

module _ {al : Allocator} (be : Behaves al) where
  -- `c` stands in two live blocks, and its cursor in its buffer.
  pub record Held (s : al.State) (c : Chunk) : Type 0 where
    pub struct : be.Live s c.self chunk_bytes
    pub buffer : be.Live s c.base c.capacity
    pub not_null : c.base ≢ 0
    pub aligned : c.base % 8 ≡ 0
    pub in_memory : c.base + c.capacity ≤ 2 ^ 32
    pub room : c.cursor ≤ c.capacity
    pub step : c.cursor % 8 ≡ 0

  abbrev pub Keeps : al.State → al.State → Type 0
  Keeps s t = (q k : ℕ) → be.Live s q k → be.Live t q k

  abbrev pub IsChain : al.State → List Chunk → Type 0
  IsChain s [] = Unit {0}
  IsChain s (c ∷ cs) = Held s c × All (Separate c) cs × IsChain s cs

  pub Held-Keeps : (s t : al.State) (c : Chunk) → Keeps s t → Held s c → Held t c
  Held-Keeps s t c keeps h = record {
    struct = keeps c.self chunk_bytes h.struct;
    buffer = keeps c.base c.capacity h.buffer;
    not_null = h.not_null;
    aligned = h.aligned;
    in_memory = h.in_memory;
    room = h.room;
    step = h.step;
  }

  pub IsChain-Keeps : (s t : al.State) (cs : List Chunk) → Keeps s t → IsChain s cs → IsChain t cs
  IsChain-Keeps s t [] keeps h = tt
  IsChain-Keeps s t (c ∷ cs) keeps (held, apart, rest) =
      (Held-Keeps s t c keeps held, apart, IsChain-Keeps s t cs keeps rest)

  -- What `alloc_chunk` promises.
  pub record Made (s t : al.State) (n : ℕ) (c : Chunk) : Type 0 where
    pub held : Held t c
    pub capacity_eq : c.capacity ≡ n
    pub cursor_eq : c.cursor ≡ 0
    pub separate : (d : Chunk) → Held s d → Separate c d
    pub keeps : Keeps s t

  pub data Result (s : al.State) (n : ℕ) : Option Chunk × al.State → Type 0 where
    failed : {t : al.State} → Keeps s t → Result s n (none, t)
    made : {t : al.State} {c : Chunk} → Made s t n c → Result s n (some c, t)

  module _ (s : al.State) (n : ℕ) where
    abbrev first : ℕ
    first = (al.malloc s chunk_bytes).0

    abbrev mid : al.State
    mid = (al.malloc s chunk_bytes).1

    abbrev buffer_at : ℕ
    buffer_at = (al.malloc mid n).0

    abbrev last : al.State
    last = (al.malloc mid n).1

    Keeps-both : Keeps s last
    Keeps-both q k live = be.malloc_keeps mid n q k (be.malloc_keeps s chunk_bytes q k live)

    undo : first ≢ 0 → Keeps s (al.free last first)
    undo got q k live =
        be.free_keeps last first q k (Keeps-both q k live) (be.fresh s chunk_bytes q k got live).0

    chunk_Made :
        first ≢ 0
        → buffer_at ≢ 0
        → Made s last n (record { self = first; base = buffer_at; capacity = n; cursor = 0 })
    chunk_Made got got' =
        let struct_live = be.gives s chunk_bytes got in
        record {
          held = record {
            struct = be.malloc_keeps mid n first chunk_bytes struct_live;
            buffer = be.gives mid n got';
            not_null = got';
            aligned = be.aligned mid n;
            in_memory = be.fits mid n got';
            room = omega arith;
            step = refl;
          };
          capacity_eq = refl;
          cursor_eq = refl;
          separate = λ d h. record {
            structs = be.fresh s chunk_bytes d.self chunk_bytes got h.struct;
            buffers =
                be.fresh mid n d.base d.capacity got'
                  (be.malloc_keeps s chunk_bytes d.base d.capacity h.buffer);
            struct_buffer = be.fresh s chunk_bytes d.base d.capacity got h.buffer;
            buffer_struct =
                be.fresh mid n d.self chunk_bytes got'
                  (be.malloc_keeps s chunk_bytes d.self chunk_bytes h.struct);
          };
          keeps = Keeps-both;
        }

    pub alloc_chunk-Result : Result s n (alloc_chunk al s n)
    unfolding alloc_chunk
    alloc_chunk-Result = elim (Bool-cases (first == 0)) [
      | inl e ↦ rw e (failed λ q k live. be.malloc_keeps s chunk_bytes q k live)
      | inr e ↦ elim (Bool-cases (buffer_at == 0)) [
        | inl e' ↦ rw (e, e') (failed (undo (ground arith)))
        | inr e' ↦ rw (e, e') (made (chunk_Made (ground arith) (ground arith)))
      ]
    ]

  pub All-Separate :
      (s : al.State) (c : Chunk) (ds : List Chunk)
      → ((d : Chunk) → Held s d → Separate c d)
      → IsChain s ds
      → All (Separate c) ds
  All-Separate s c [] sep h = tt
  All-Separate s c (d ∷ ds) sep (held, apart, rest) = (sep d held, All-Separate s c ds sep rest)
