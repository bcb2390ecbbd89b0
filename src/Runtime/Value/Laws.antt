-- ===== src/Runtime/Value/Laws.antt =====
-- runtime/cel_arena.h: what the kernels rely on in `arena_alloc`.
use cel_spec_wasm.Prelude.{ℕ, ◌+◌, ◌^◌, ◌≢◌, ◌≤◌, ◌⊎◌}
use cel_spec_wasm.Runtime.Value.{Arena, align_up_8}

-- A request that is met is a region in the memory that meets no region handed out before, and no
-- region starts below `low`.
pub record Lawful (ar : Arena) (low : ℕ) : Type 1 where
  pub Live : ar.State → ℕ → ℕ → Type 0
  pub gives :
      (s : ar.State) (n : ℕ) → (ar.alloc s n).0 ≢ 0 → Live (ar.alloc s n).1 (ar.alloc s n).0 n
  pub keeps : (s : ar.State) (n q k : ℕ) → Live s q k → Live (ar.alloc s n).1 q k
  pub apart :
      (s : ar.State) (n q k : ℕ)
      → (ar.alloc s n).0 ≢ 0
      → Live s q k
      → ((ar.alloc s n).0 + align_up_8 n ≤ q) ⊎ (q + align_up_8 k ≤ (ar.alloc s n).0)
  pub fits :
      (s : ar.State) (n : ℕ) → (ar.alloc s n).0 ≢ 0 → (ar.alloc s n).0 + align_up_8 n ≤ 2 ^ 32
  pub high : (s : ar.State) (q k : ℕ) → Live s q k → low ≤ q
