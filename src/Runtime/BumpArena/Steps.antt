-- ===== src/Runtime/BumpArena/Steps.antt =====
-- runtime/cel_arena.c against a specification without chunks: regions that are handed out, and a
-- memory that is cleared where a region is.
use cel_spec_wasm.Prelude.{
  ℕ, ◌+◌, ◌-◌, ◌^◌, ◌≡◌, ◌≢◌, ◌≤◌, ◌<◌, ◌%◌, ◌⊎◌, inl, inr, true, List, [], ◌∷◌, arith, All,
}
use cel_spec_wasm.Runtime.Value.{u32}
use cel_spec_wasm.Runtime.BumpArena.{
  Allocator, Behaves, Chunk, CelArena, clear, need_of, pick_grow_size,
}
use cel_spec_wasm.Runtime.BumpArena.Chain.{Separate, IsChain}

-- An offset and a number of bytes.
abbrev pub Region : Type 0
Region = ℕ × ℕ

abbrev pub Disjoint : Region → Region → Type 0
Disjoint (p, n) (q, k) = (p + n ≤ q) ⊎ (q + k ≤ p)

pub record Spec : Type 0 where
  pub regions : List Region
  pub byte : ℕ → ℕ

pub data Op : Type 0 where
  alloc : ℕ → Op
  reset : Op

-- One call: a request is refused with 0, or it gets a region of at least its size that starts at a
-- multiple of 8, has a multiple of 8 bytes, lies in the memory, meets no other region and is
-- cleared; a reset takes all back.
pub data Step (s : Spec) : Op → ℕ → Spec → Type 0 where
  refused : {n : ℕ} → Step s (alloc n) 0 s
  given :
      {n p size : ℕ}
      → p ≢ 0
      → p % 8 ≡ 0
      → n ≤ size
      → 0 < size
      → size % 8 ≡ 0
      → p + size ≤ 2 ^ 32
      → All (Disjoint (p, size)) s.regions
      → Step s (alloc n) p (record { regions = (p, size) ∷ s.regions; byte = clear s.byte p size })
  taken_back : Step s reset 0 (record s { regions = [] })

pub data Trace : Spec → List Op → List ℕ → Spec → Type 0 where
  done : {s : Spec} → Trace s [] [] s
  next :
      {s : Spec} {op : Op} {out : ℕ} {t u : Spec} {ops : List Op} {outs : List ℕ}
      → Step s op out t
      → Trace t ops outs u
      → Trace s (op ∷ ops) (out ∷ outs) u

-- The region lies in the used part of one of the chunks.
pub data Inside (r : Region) : List Chunk → Type 0 where
  here :
      {c : Chunk} {cs : List Chunk}
      → c.base ≤ r.0
      → r.0 + r.1 ≤ c.base + c.cursor
      → Inside r (c ∷ cs)
  there : {c : Chunk} {cs : List Chunk} → Inside r cs → Inside r (c ∷ cs)

abbrev pub sum_cursors : List Chunk → ℕ
sum_cursors [] = 0
sum_cursors (c ∷ cs) = c.cursor + sum_cursors cs

abbrev pub sum_capacities : List Chunk → ℕ
sum_capacities [] = 0
sum_capacities (c ∷ cs) = c.capacity + sum_capacities cs

pub need_of_lem : (n : ℕ) → n ≤ 2 ^ 32 - 8 → (n ≤ need_of n) × (0 < need_of n) × (need_of n % 8 ≡ 0)
unfolding need_of
need_of_lem n h = (ground arith, ground arith, ground arith)

pub pick_grow_size-enough : (prev need : ℕ) → need ≤ pick_grow_size prev need
unfolding pick_grow_size
pick_grow_size-enough prev need = ground arith

pub All-imp :
    {A : Type 0} {P Q : A → Type 0} (xs : List A) → ((x : A) → P x → Q x) → All P xs → All Q xs
All-imp [] f h = tt
All-imp (x ∷ xs) f (p, ps) = (f x p, All-imp xs f ps)

module _ {al : Allocator} (be : Behaves al) where
  -- An arena with a chain stands for the regions and the memory.
  pub record Holds (a : CelArena al) (s : Spec) : Type 0 where
    pub ready : a.initialized ≡ true
    pub occupied : a.chain ≢ []
    pub chunks : IsChain be a.heap a.chain
    pub regions : All (λ r. Inside r a.chain) s.regions
    pub used : a.total_used ≡ u32 (sum_cursors a.chain)
    pub capacity : a.total_cap ≡ u32 (sum_capacities a.chain)
    pub bytes : a.byte ≡ s.byte

  Disjoint-older :
      (s : al.State) (c : Chunk) (cs : List Chunk) (size : ℕ) (r : Region)
      → c.cursor + size ≤ c.capacity
      → All (Separate c) cs
      → IsChain be s cs
      → Inside r cs
      → Disjoint (c.base + c.cursor, size) r
  Disjoint-older s c [] size r fits apart chain i = elim i [ ]
  Disjoint-older s c (d ∷ cs) size (q, k) fits (sep, seps) (held, apart, rest) (here lo hi) =
      let room = held.room in
      elim sep.buffers.1 [ inl h ↦ inl (omega arith) | inr h ↦ inr (omega arith) ]
  Disjoint-older s c (d ∷ cs) size r fits (sep, seps) (held, apart, rest) (there i) =
      Disjoint-older s c cs size r fits seps rest i

  pub Disjoint-new :
      (s : al.State) (c : Chunk) (cs : List Chunk) (size : ℕ) (r : Region)
      → c.cursor + size ≤ c.capacity
      → IsChain be s (c ∷ cs)
      → Inside r (c ∷ cs)
      → Disjoint (c.base + c.cursor, size) r
  Disjoint-new s c cs size (q, k) fits chain (here lo hi) = inr (omega arith)
  Disjoint-new s c cs size r fits (held, apart, rest) (there i) =
      Disjoint-older s c cs size r fits apart rest i

  pub Inside-later :
      (c : Chunk) (cs : List Chunk) (size : ℕ) (r : Region)
      → Inside r (c ∷ cs)
      → Inside r (record c { cursor = c.cursor + size } ∷ cs)
  Inside-later c cs size (q, k) (here lo hi) = here lo (omega arith)
  Inside-later c cs size r (there i) = there i
