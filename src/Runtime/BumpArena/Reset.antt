-- ===== src/Runtime/BumpArena/Reset.antt =====
-- runtime/cel_arena.c: the arena after `arena_init` and after `arena_reset`, and every sequence of
-- calls in between.
use cel_spec_wasm.Prelude.{
  sym, ap, not, ℕ, ◌≡◌, inl, inr, refl, true, false, Option, none, some, List, [], ◌∷◌, ◌==◌,
  if◌then◌else◌, arith, All,
}
use mathlib.Core.Option.{some-injective}
use mathlib.Core.Path.{subst}
use cel_spec_wasm.Runtime.BumpArena.{
  Allocator, Behaves, Chunk, Run, ok, trap, CelArena, alloc_chunk, free_chunk, free_after_head,
  head_of, arena_reset, arena_init, oom_block_bytes, initial,
}
use cel_spec_wasm.Runtime.BumpArena.Chain.{
  Separate, Held, IsChain, Held-Keeps, Result, failed, made, alloc_chunk-Result,
}
use cel_spec_wasm.Runtime.BumpArena.Steps.{Spec, Op, alloc, reset, taken_back, Holds}
use cel_spec_wasm.Runtime.BumpArena.Refine.{
  Simulates, simulates, alloc-Simulates, call, chain-cases,
}

All-head : (P : Chunk → Type 0) (cs : List Chunk) (h : Chunk) → head_of cs ≡ some h → All P cs → P h
All-head P [] h e ps = cc
All-head P (c ∷ []) h e (p, _) = subst P (some-injective c h e) p
All-head P (c ∷ d ∷ cs) h e (_, ps) = All-head P (d ∷ cs) h e ps

head_of-some : (c : Chunk) (cs : List Chunk) → (h : Chunk) × (head_of (c ∷ cs) ≡ some h)
head_of-some c [] = (c, refl)
head_of-some c (d ∷ cs) = head_of-some d cs

unwrap : {A : Type 0} → A → Run A → A
unwrap a (ok b) = b
unwrap a trap = a

ok-injective : {A : Type 0} (a b : A) → ok a ≡ ok b → a ≡ b
unfolding unwrap
ok-injective a b e = ap (unwrap a) e

module _ {al : Allocator} (be : Behaves al) where
  free_chunk-Held :
      (s : al.State) (c h : Chunk) → Separate c h → Held be s h → Held be (free_chunk al s c) h
  unfolding free_chunk
  free_chunk-Held s c h sep held = record {
    struct =
        be.free_keeps (al.free s c.base) c.self h.self _
          (be.free_keeps s c.base h.self _ held.struct sep.buffer_struct.0) sep.structs.0;
    buffer =
        be.free_keeps (al.free s c.base) c.self h.base _
          (be.free_keeps s c.base h.base _ held.buffer sep.buffers.0) sep.struct_buffer.0;
    not_null = held.not_null;
    aligned = held.aligned;
    in_memory = held.in_memory;
    room = held.room;
    step = held.step;
  }

  -- The head of the chain, when the chunks after it are freed.
  head-Held :
      (s : al.State) (cs : List Chunk) (h : Chunk)
      → head_of cs ≡ some h
      → IsChain be s cs
      → Held be (free_after_head al s cs) h
  unfolding free_after_head
  head-Held s [] h e chain = cc
  head-Held s (c ∷ []) h e (held, apart, rest) =
      subst (λ x. Held be s x) (some-injective c h e) held
  head-Held s (c ∷ d ∷ cs) h e (held, apart, rest) =
      free_chunk-Held (free_after_head al s (d ∷ cs)) c h (All-head (Separate c) (d ∷ cs) h e apart)
        (head-Held s (d ∷ cs) h e rest)

  -- A chain of one unused chunk.
  single-Holds :
      (a : CelArena al) (h : Chunk) (m : ℕ → ℕ)
      → a.initialized ≡ true
      → a.chain ≡ h ∷ []
      → h.cursor ≡ 0
      → a.total_used ≡ 0
      → a.total_cap ≡ h.capacity
      → a.byte ≡ m
      → Held be a.heap h
      → Holds be a (record { regions = []; byte = m })
  single-Holds a h m ready e empty used cap bytes held =
      let in_memory = held.in_memory in
      let not_null = held.not_null in
      record {
        ready = ready;
        occupied = λ e'. cc;
        chunks = rw e (held, tt, tt);
        regions = tt;
        used = rw e (omega arith);
        capacity = rw (e, cap) (omega arith);
        bytes = bytes;
      }

  reset-Holds :
      (a : CelArena al) (s : Spec)
      → Holds be a s
      → Holds be (arena_reset al a) (record { regions = []; byte = s.byte })
  unfolding arena_reset
  reset-Holds a s holds = elim (chain-cases a.chain) [
    | inl e ↦ absurd (holds.occupied e)
    | inr (c, cs, e) ↦
        let (h, first) = head_of-some c cs in
        let e' : head_of a.chain ≡ some h = rw e first in
        let held = head-Held a.heap a.chain h e' holds.chunks in
        rw (e', arena_reset)
          (single-Holds
            (record a {
              heap = free_after_head al a.heap a.chain;
              chain = record h { cursor = 0 } ∷ [];
              total_used = 0;
              total_cap = h.capacity;
            })
            (record h { cursor = 0 }) s.byte holds.ready refl refl refl refl holds.bytes
            (record {
              struct = held.struct;
              buffer = held.buffer;
              not_null = held.not_null;
              aligned = held.aligned;
              in_memory = held.in_memory;
              room = omega arith;
              step = refl;
            }))
  ]

  initial-Holds :
      (a : CelArena al) (cap_bytes : ℕ) (r : Option Chunk × al.State)
      → a.initialized ≡ false
      → Result be a.heap cap_bytes r
      → (initial al a cap_bytes r).initialized ≡ true
      → Holds be
          (initial al a cap_bytes r)
          (record { regions = []; byte = (initial al a cap_bytes r).byte })
  unfolding initial
  initial-Holds a cap_bytes (none, t) e (failed keeps) ready = cc
  initial-Holds a cap_bytes (some c, t) e (made m) ready =
      single-Holds (initial al a cap_bytes (some c, t)) c
        ((initial al a cap_bytes (some c, t)).byte) refl refl m.cursor_eq refl (sym m.capacity_eq)
        refl
        (Held-Keeps be t ((al.malloc t oom_block_bytes).1) c
          (λ q k live. be.malloc_keeps t oom_block_bytes q k live) m.held)

  -- The first `arena_init` does not trap, and leaves an empty arena when malloc had a chunk.
  pub init-Holds :
      (a b : CelArena al) (cap_bytes : ℕ)
      → a.initialized ≡ false
      → arena_init al a cap_bytes ≡ ok b
      → b.initialized ≡ true
      → Holds be b (record { regions = []; byte = b.byte })
  unfolding arena_init
  init-Holds a b cap_bytes e h ready =
      subst (λ x. x.initialized ≡ true → Holds be x (record { regions = []; byte = x.byte }))
        (ok-injective (initial al a cap_bytes (alloc_chunk al a.heap cap_bytes)) b (
          subst
            (λ i.
              (if i
                then elim (head_of a.chain) [
                  | none ↦ ok a
                  | some x ↦ if not (x.capacity == cap_bytes) then trap else ok a
                ]
                else ok (initial al a cap_bytes (alloc_chunk al a.heap cap_bytes)))
              ≡ ok b)
            e h))
        (initial-Holds a cap_bytes (alloc_chunk al a.heap cap_bytes) e
          (alloc_chunk-Result be a.heap cap_bytes))
        ready

  pub call-Simulates :
      (a : CelArena al) (op : Op) (s : Spec) → Holds be a s → Simulates be s op (call al a op)
  call-Simulates a (alloc n) s h = alloc-Simulates be a n s h
  call-Simulates a reset s h = simulates taken_back (reset-Holds a s h)
