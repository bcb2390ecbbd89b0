-- ===== src/Runtime/BumpArena/Serves.antt =====
-- runtime/cel_arena.c as the arena of the kernels: over a malloc that behaves, `arena_alloc` has the
-- laws that they rely on.
use cel_spec_wasm.Prelude.{ℕ, ◌+◌, ◌^◌, ◌≢◌, ◌≤◌, ◌⊎◌, inl, inr, refl, List, [], ◌∷◌, arith, All}
use cel_spec_wasm.Runtime.Value.{Arena, align_up_8}
use cel_spec_wasm.Runtime.Value.Laws.{Lawful}
use cel_spec_wasm.Runtime.BumpArena.{
  Allocator, Behaves, Chunk, Run, ok, trap, CelArena, arena_alloc,
}
use cel_spec_wasm.Runtime.BumpArena.Chain.{IsChain}
use cel_spec_wasm.Runtime.BumpArena.Steps.{
  Region, Disjoint, Spec, alloc, Step, refused, given, Inside, here, there, Holds,
}
use cel_spec_wasm.Runtime.BumpArena.Refine.{Simulates, simulates, alloc-Simulates}

-- One of the regions starts at `q` and has room for `k` bytes.
pub data Has (q k : ℕ) : List Region → Type 0 where
  first :
      {size : ℕ} {rs : List Region}
      → align_up_8 k ≤ size
      → q + size ≤ 2 ^ 32
      → Has q k ((q, size) ∷ rs)
  later : {r : Region} {rs : List Region} → Has q k rs → Has q k (r ∷ rs)

-- The number that a call returns, and the arena that it leaves.
abbrev pub returned : {al : Allocator} → Run (ℕ × CelArena al) → ℕ
returned (ok (out, b)) = out
returned trap = 0

abbrev pub left : {al : Allocator} → CelArena al → Run (ℕ × CelArena al) → CelArena al
left a (ok (out, b)) = b
left a trap = a

Has-new : (t u : Spec) (n p : ℕ) → Step t (alloc n) p u → p ≢ 0 → Has p n u.regions
Has-new t u n p refused ne = absurd (ne refl)
Has-new t u n p (given nz mult enough pos eight fits apart) ne = first (omega arith) fits

Has-old : (t u : Spec) (n p q k : ℕ) → Step t (alloc n) p u → Has q k t.regions → Has q k u.regions
Has-old t u n p q k refused h = h
Has-old t u n p q k (given _ _ _ _ _ _ _) h = later h

Has-Disjoint :
    (p size q k : ℕ) (rs : List Region)
    → All (Disjoint (p, size)) rs
    → Has q k rs
    → (p + size ≤ q) ⊎ (q + align_up_8 k ≤ p)
Has-Disjoint p size q k [] d h = elim h [ ]
Has-Disjoint p size q k (_ ∷ rs) (inl before, rest) (first enough fits) = inl before
Has-Disjoint p size q k (_ ∷ rs) (inr behind, rest) (first enough fits) = inr (omega arith)
Has-Disjoint p size q k (_ ∷ rs) (d, rest) (later h) = Has-Disjoint p size q k rs rest h

Has-apart :
    (t u : Spec) (n p q k : ℕ)
    → Step t (alloc n) p u
    → p ≢ 0
    → Has q k t.regions
    → (p + align_up_8 n ≤ q) ⊎ (q + align_up_8 k ≤ p)
Has-apart t u n p q k refused ne h = absurd (ne refl)
Has-apart t u n p q k (given {size = size} nz mult enough pos eight fits apart) ne h =
    elim (Has-Disjoint p size q k t.regions apart h) [
      | inl before ↦ inl (omega arith)
      | inr behind ↦ inr behind
    ]

Has-fits : (q k : ℕ) (rs : List Region) → Has q k rs → q + align_up_8 k ≤ 2 ^ 32
Has-fits q k [] h = elim h [ ]
Has-fits q k (_ ∷ rs) (first enough fits) = omega arith
Has-fits q k (_ ∷ rs) (later h) = Has-fits q k rs h

module _ {al : Allocator} (be : Behaves al) (low : ℕ)
    (high : (s : al.State) (n : ℕ) → (al.malloc s n).0 ≢ 0 → low ≤ (al.malloc s n).0) where
  -- The blocks of malloc start above `low`, where the static data ends.
  abbrev pub bounded : Behaves al
  bounded = record {
    Live = λ s p n. be.Live s p n × (low ≤ p);
    gives = λ s n got. (be.gives s n got, high s n got);
    fits = be.fits;
    aligned = be.aligned;
    fresh = λ s n q k got live. be.fresh s n q k got live.0;
    malloc_keeps = λ s n q k live. (be.malloc_keeps s n q k live.0, live.1);
    free_keeps = λ s p q k live ne. (be.free_keeps s p q k live.0 ne, live.1);
  }

  Inside-low :
      (s : al.State) (cs : List Chunk) (r : Region) → IsChain bounded s cs → Inside r cs → low ≤ r.0
  Inside-low s [] r chain i = elim i [ ]
  Inside-low s (c ∷ cs) (q, k) (held, apart, rest) (here lo hi) =
      let base : low ≤ c.base = held.buffer.1 in omega arith
  Inside-low s (c ∷ cs) r (held, apart, rest) (there i) = Inside-low s cs r rest i

  Has-low :
      (s : al.State) (cs : List Chunk) (q k : ℕ) (rs : List Region)
      → IsChain bounded s cs
      → All (λ r. Inside r cs) rs
      → Has q k rs
      → low ≤ q
  Has-low s cs q k [] chain d h = elim h [ ]
  Has-low s cs q k (r ∷ rs) chain (i, is) (first enough fits) = Inside-low s cs _ chain i
  Has-low s cs q k (r ∷ rs) chain (i, is) (later h) = Has-low s cs q k rs chain is h

  -- The arena with the regions that it has handed out.
  pub record Served : Type 0 where
    pub arena : CelArena al
    pub spec : Spec
    pub held : Holds bounded arena spec

  pub record Settled (t : Spec) (n p : ℕ) (b : CelArena al) : Type 0 where
    pub after : Spec
    pub step : Step t (alloc n) p after
    pub held : Holds bounded b after

  settle :
      (a : CelArena al) (t : Spec) (n : ℕ) (r : Run (ℕ × CelArena al))
      → Simulates bounded t (alloc n) r
      → Settled t n (returned r) (left a r)
  settle a t n trap h = elim h [ ]
  settle a t n (ok (out, b)) (simulates {t = u} step held) = record {
    after = u;
    step = step;
    held = held;
  }

  pub settled :
      (s : Served) (n : ℕ)
      → Settled s.spec n
          (returned (arena_alloc al s.arena n))
          (left s.arena (arena_alloc al s.arena n))
  settled s n =
      settle s.arena s.spec n (arena_alloc al s.arena n)
        (alloc-Simulates bounded s.arena n s.spec s.held)

  -- `arena_alloc` as the arena of the kernels.
  abbrev pub bump_arena : Arena
  bump_arena = record {
    State = Served;
    alloc = λ s n. (
      returned (arena_alloc al s.arena n),
      record {
        arena = left s.arena (arena_alloc al s.arena n);
        spec = (settled s n).after;
        held = (settled s n).held;
      },
    );
  }

  abbrev pub InUse : Served → ℕ → ℕ → Type 0
  InUse s q k = Has q k s.spec.regions

  pub bump_arena-Lawful : Lawful bump_arena low
  bump_arena-Lawful = record {
    Live = InUse;
    gives = λ s n got. Has-new s.spec (settled s n).after n _ (settled s n).step got;
    keeps = λ s n q k live. Has-old s.spec (settled s n).after n _ q k (settled s n).step live;
    apart = λ s n q k got live.
        Has-apart s.spec (settled s n).after n _ q k (settled s n).step got live;
    fits = λ s n got.
        Has-fits _ n (settled s n).after.regions
          (Has-new s.spec (settled s n).after n _ (settled s n).step got);
    high = λ s q k live.
        Has-low s.arena.heap s.arena.chain q k s.spec.regions s.held.chunks s.held.regions live;
  }
