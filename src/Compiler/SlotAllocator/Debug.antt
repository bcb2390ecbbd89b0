-- ===== src/Compiler/SlotAllocator/Debug.antt =====
-- compiler/codegen/slot_allocator.cc in debug mode: no cell is handed out twice.
use cel_spec_wasm.Prelude.{
  ℕ, zero, suc, ◌+◌, ◌*◌, ◌^◌, ◌≤◌, ◌≡◌, refl, ap, ◌∙◌, true, Option, none, some, List, [], ◌∷◌,
  arith,
}
use cel_spec_wasm.Compiler.SlotAllocator.{SlotAllocator, acquire, release, slot_stride}

-- What a client asks for, and the cells that it is given; `none` where a release aborts.
pub data Request : Type 0 where
  acquires : Request
  releases : ℕ → Request

pub run : List Request → SlotAllocator → Option (List ℕ × SlotAllocator)
run [] a = some ([], a)
run (acquires ∷ rs) a = elim (run rs (acquire a).1) [
  | none ↦ none
  | some (xs, b) ↦ some ((acquire a).0 ∷ xs, b)
]
run (releases x ∷ rs) a = elim (release a x) [ none ↦ none | some b ↦ run rs b ]

abbrev pub acquire_count : List Request → ℕ
acquire_count [] = 0
acquire_count (acquires ∷ rs) = suc (acquire_count rs)
acquire_count (releases x ∷ rs) = acquire_count rs

-- Successive cells from an index on.
abbrev pub cells_from : ℕ → ℕ → ℕ → List ℕ
cells_from base i zero = []
cells_from base i (suc n) = (base + i * slot_stride) ∷ cells_from base (i + 1) n

acquire_debug_lem :
    (a : SlotAllocator)
    → a.debug_mode ≡ true
    → a.peak_slots ≡ a.bump
    → a.base_offset + (a.bump + 1) * slot_stride ≤ 2 ^ 32
    → acquire a ≡ (
      a.base_offset + a.bump * slot_stride,
      record a { bump = a.bump + 1; peak_slots = a.bump + 1 },
    )
unfolding acquire
acquire_debug_lem a debug peaked room = ground arith

release_debug_lem : (a : SlotAllocator) (x : ℕ) → a.debug_mode ≡ true → release a x ≡ some a
unfolding release
release_debug_lem a x debug = ground arith

run-acquires :
    (rs : List Request) (a c b : SlotAllocator) (y : ℕ) (ys : List ℕ)
    → acquire a ≡ (y, c)
    → run rs c ≡ some (ys, b)
    → run (acquires ∷ rs) a ≡ some (y ∷ ys, b)
unfolding run
run-acquires rs a c b y ys step rest =
    ground (arith, ap (λ (t : ℕ × SlotAllocator). run rs t.1) step)

run-releases :
    (rs : List Request) (x : ℕ) (a : SlotAllocator)
    → release a x ≡ some a
    → run (releases x ∷ rs) a ≡ run rs a
unfolding run
run-releases rs x a e = rw (e, run)

-- In debug mode, whatever is released in between, the acquired cells are the successive cells from
-- the bump index on, no request aborts, and the peak counts the cells.
pub run-cells_from :
    (rs : List Request) (a : SlotAllocator)
    → a.debug_mode ≡ true
    → a.peak_slots ≡ a.bump
    → a.base_offset + (a.bump + acquire_count rs) * slot_stride ≤ 2 ^ 32
    → run rs a
      ≡ some (
        cells_from a.base_offset a.bump (acquire_count rs),
        record a { bump = a.bump + acquire_count rs; peak_slots = a.bump + acquire_count rs },
      )
run-cells_from [] a debug peaked room = unfold run in ground arith
run-cells_from (acquires ∷ rs) a debug peaked room =
    let c = record a { bump = a.bump + 1; peak_slots = a.bump + 1 } in
    let n = a.bump + 1 + acquire_count rs in
    let sums : a.bump + suc (acquire_count rs) ≡ n = omega arith in
    rw sums (
      run-acquires rs a c (record a { bump = n; peak_slots = n }) _ _
        (acquire_debug_lem a debug peaked (omega arith))
        (run-cells_from rs c debug refl (omega arith)))
run-cells_from (releases x ∷ rs) a debug peaked room =
    run-releases rs x a (release_debug_lem a x debug) ∙ run-cells_from rs a debug peaked room
