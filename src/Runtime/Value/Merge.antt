-- ===== src/Runtime/Value/Merge.antt =====
-- runtime/cel_3vl.c: the merge of two unknown sets is the union of two ascending arrays.
use cel_spec_wasm.Prelude.{
  ℕ, suc, ◌+◌, ◌≤◌, ◌≡◌, refl, Bool, true, false, ◌&&◌, ◌||◌, not, arith, List, [], ◌∷◌, leb, ◌==◌,
  length,
}
use cel_spec_wasm.Runtime.Value.{
  CelValue, unknown, error, err_overflow, Arena, Memory, kind, cel_unknown, cel_error,
  merge_sorted_id_arrays, cel_unknown_merge, merge_sets,
}

-- Strictly ascending, from `lo` on.
abbrev pub ascending : ℕ → List ℕ → Bool
ascending lo [] = true
ascending lo (x ∷ xs) = leb lo x && ascending (suc x) xs

abbrev pub contains : ℕ → List ℕ → Bool
contains q [] = false
contains q (x ∷ xs) = (q == x) || contains q xs

ascending-weaken :
    (lo hi : ℕ) (xs : List ℕ) → lo ≤ hi → ascending hi xs ≡ true → ascending lo xs ≡ true
ascending-weaken lo hi [] p h = refl
ascending-weaken lo hi (x ∷ xs) p h = ground arith

merge-ascending :
    (lo : ℕ) (xs ys : List ℕ)
    → ascending lo xs ≡ true
    → ascending lo ys ≡ true
    → ascending lo (merge_sorted_id_arrays xs ys) ≡ true
unfolding merge_sorted_id_arrays
merge-ascending lo [] ys hx hy = hy
merge-ascending lo (x ∷ xs) [] hx hy = hx
merge-ascending lo (x ∷ xs) (y ∷ ys) hx hy = ground (
  arith,
  merge-ascending (suc x) xs (y ∷ ys),
  merge-ascending (suc y) (x ∷ xs) ys,
  merge-ascending (suc x) xs ys,
)

merge-contains :
    (q : ℕ) (xs ys : List ℕ)
    → contains q (merge_sorted_id_arrays xs ys) ≡ (contains q xs || contains q ys)
unfolding merge_sorted_id_arrays
merge-contains q [] ys = refl
merge-contains q (x ∷ xs) [] = ground arith
merge-contains q (x ∷ xs) (y ∷ ys) =
    ground
      (arith, merge-contains q xs (y ∷ ys), merge-contains q (x ∷ xs) ys, merge-contains q xs ys)

merge-length : (xs ys : List ℕ) → length (merge_sorted_id_arrays xs ys) ≤ length xs + length ys
unfolding merge_sorted_id_arrays
merge-length [] ys = ground arith
merge-length (x ∷ xs) [] = ground arith
merge-length (x ∷ xs) (y ∷ ys) =
    ground (arith, merge-length xs (y ∷ ys), merge-length (x ∷ xs) ys, merge-length xs ys)

-- The merge of two strictly ascending arrays is strictly ascending, holds exactly the numbers of the
-- two, and is no longer than both together, the room that the caller asks the arena for.
pub merge-union :
    (xs ys : List ℕ) (q : ℕ)
    → ascending 0 xs ≡ true
    → ascending 0 ys ≡ true
    → (ascending 0 (merge_sorted_id_arrays xs ys) ≡ true)
      × (contains q (merge_sorted_id_arrays xs ys) ≡ (contains q xs || contains q ys))
      × (length (merge_sorted_id_arrays xs ys) ≤ length xs + length ys)
merge-union xs ys q hx hy =
    (merge-ascending 0 xs ys hx hy, merge-contains q xs ys, merge-length xs ys)

-- An error or an unknown.
abbrev pub special : CelValue → Bool
special v = (kind v == cel_error) || (kind v == cel_unknown)

-- An unknown, or the error for want of memory.
abbrev pub is_merge : CelValue → Bool
is_merge (unknown u) = true
is_merge (error c) = c == err_overflow
is_merge _ = false

module _ (ar : Arena) (m : Memory ar.State) (out a b : ℕ) where
  pub cel_unknown_merge-cell :
      (x : ℕ) → (x == out) ≡ false → (cel_unknown_merge ar m out a b).cell x ≡ m.cell x
  unfolding cel_unknown_merge merge_sets
  cel_unknown_merge-cell x h = ground arith

  pub cel_unknown_merge-special : special ((cel_unknown_merge ar m out a b).cell out) ≡ true
  unfolding cel_unknown_merge merge_sets
  cel_unknown_merge-special = ground arith

  -- Two unknowns give an unknown, or an error for want of memory.
  pub cel_unknown_merge-is_merge :
      not ((kind (m.cell a) == cel_unknown) && (kind (m.cell b) == cel_unknown))
        || is_merge ((cel_unknown_merge ar m out a b).cell out)
      ≡ true
  unfolding cel_unknown_merge merge_sets
  cel_unknown_merge-is_merge = ground arith
