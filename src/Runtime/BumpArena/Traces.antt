-- ===== src/Runtime/BumpArena/Traces.antt =====
-- runtime/cel_arena.c: every sequence of requests and resets after `arena_init` is a trace of the
-- specification.
use cel_spec_wasm.Prelude.{sym, ℕ, ◌≡◌, refl, true, false, List, [], ◌∷◌, All}
use cel_spec_wasm.Runtime.BumpArena.{Allocator, Behaves, Run, ok, trap, CelArena, arena_init}
use cel_spec_wasm.Runtime.BumpArena.Steps.{
  Region, Disjoint, Spec, Op, Step, refused, given, taken_back, Trace, done, next, Holds,
}
use cel_spec_wasm.Runtime.BumpArena.Refine.{Simulates, simulates, call, prepend, followed, calls}
use cel_spec_wasm.Runtime.BumpArena.Reset.{call-Simulates, init-Holds}

-- No two of the regions meet.
abbrev pub Pairwise : List Region → Type 0
Pairwise [] = Unit {0}
Pairwise (r ∷ rs) = All (Disjoint r) rs × Pairwise rs

Step-Pairwise :
    (s t : Spec) (op : Op) (out : ℕ) → Step s op out t → Pairwise s.regions → Pairwise t.regions
Step-Pairwise s t op out refused h = h
Step-Pairwise s t op out (given _ _ _ _ _ _ apart) h = (apart, h)
Step-Pairwise s t op out taken_back h = tt

Trace-Pairwise :
    (s t : Spec) (ops : List Op) (outs : List ℕ)
    → Trace s ops outs t
    → Pairwise s.regions
    → Pairwise t.regions
Trace-Pairwise s t ops outs done h = h
Trace-Pairwise s t (op ∷ ops) (out ∷ outs) (next {t = u} first rest) h =
    Trace-Pairwise u t ops outs rest (Step-Pairwise s u op out first h)

module _ {al : Allocator} (be : Behaves al) where
  -- The calls go through, and they are a trace of the specification.
  data Simulated (s : Spec) (ops : List Op) : Run (List ℕ × CelArena al) → Type 0 where
    simulated :
        {outs : List ℕ} {a : CelArena al} {t : Spec}
        → Trace s ops outs t
        → Holds be a t
        → Simulated s ops (ok (outs, a))

  prepend-Simulated :
      (s t : Spec) (op : Op) (ops : List Op) (out : ℕ) (r : Run (List ℕ × CelArena al))
      → Step s op out t
      → Simulated t ops r
      → Simulated s (op ∷ ops) (prepend al out r)
  prepend-Simulated s t op ops out trap first h = elim h [ ]
  prepend-Simulated s t op ops out (ok (outs, a)) first (simulated rest h) =
      simulated (next first rest) h

  followed-Simulated :
      (s : Spec) (op : Op) (ops : List Op) (r : Run (ℕ × CelArena al))
      (rest : CelArena al → Run (List ℕ × CelArena al))
      → ((a : CelArena al) (t : Spec) → Holds be a t → Simulated t ops (rest a))
      → Simulates be s op r
      → Simulated s (op ∷ ops) (followed al r rest)
  followed-Simulated s op ops trap rest go h = elim h [ ]
  followed-Simulated s op ops (ok (out, a)) rest go (simulates {t} first h) =
      prepend-Simulated s t op ops out (rest a) first (go a t h)

  calls-Simulated :
      (a : CelArena al) (ops : List Op) (s : Spec) → Holds be a s → Simulated s ops (calls al a ops)
  calls-Simulated a [] s h = simulated done h
  calls-Simulated a (op ∷ ops) s h =
      followed-Simulated s op ops (call al a op) (λ b. calls al b ops)
        (λ b t h'. calls-Simulated b ops t h') (call-Simulates be a op s h)

  -- What a sequence of calls shows: it does not trap, its results are a trace of the
  -- specification, the regions handed out since the last reset do not meet, and the arena holds
  -- them, with its totals the sums over its chunks modulo 2 ^ 32.
  abbrev pub Refines : CelArena al → List Op → Type 0
  Refines b ops =
      (outs : List ℕ) × (c : CelArena al) × (t : Spec) × (calls al b ops ≡ ok (outs, c))
      × Trace (record { regions = []; byte = b.byte }) ops outs t
      × Pairwise t.regions
      × Holds be c t

  Simulated-Refines :
      (b : CelArena al) (ops : List Op) (r : Run (List ℕ × CelArena al))
      → r ≡ calls al b ops
      → Simulated (record { regions = []; byte = b.byte }) ops r
      → Refines b ops
  Simulated-Refines b ops trap e h = elim h [ ]
  Simulated-Refines b ops (ok (outs, c)) e (simulated {t} trace h) = (
    outs,
    c,
    t,
    sym e,
    trace,
    Trace-Pairwise (record { regions = []; byte = b.byte }) t ops outs trace tt,
    h,
  )

  -- When malloc behaves and the first `arena_init` gets its chunk, every sequence of `arena_alloc`
  -- and `arena_reset` goes through without a trap and refines the specification: an answer other
  -- than 0 is a cleared region of at least the size asked for, at a multiple of 8, in the memory,
  -- that meets no region handed out since the last reset; nothing else of the memory changes; and
  -- the totals of the arena are the sums over its chunks modulo 2 ^ 32.
  pub arena-Refines :
      (a b : CelArena al) (cap_bytes : ℕ) (ops : List Op)
      → a.initialized ≡ false
      → arena_init al a cap_bytes ≡ ok b
      → b.initialized ≡ true
      → Refines b ops
  arena-Refines a b cap_bytes ops new made ready = Simulated-Refines b ops (calls al b ops) refl (
      calls-Simulated b ops (record { regions = []; byte = b.byte })
        (init-Holds be a b cap_bytes new made ready))
