-- ===== src/Runtime/Value.antt =====
-- runtime/cel_data.h, runtime/cel_internal.h and runtime/cel_3vl.c: values in cells of the linear
-- memory, the rules by which errors and unknowns pass through an operation, and the merge of two
-- sets of unknown attributes. A double is its 64-bit pattern, an int64_t an integer. Cells and the
-- words of unknown sets stand in two maps: no kernel reads one as the other.
pub mod Merge
pub mod Laws
pub mod Runs
use Prim.Native.Nat.{compare, Ordering}
use cel_spec_wasm.Prelude.{
  ℕ, zero, suc, ◌+◌, ◌-◌, ◌*◌, ◌/◌, ◌%◌, ◌^◌, ◌≡◌, Bool, true, false, ◌&&◌, ◌||◌, not, Option, none,
  some, List, [], ◌∷◌, ltb, leb, ◌==◌, if◌then◌else◌, length,
}
use cel_spec_wasm.Prelude.Int.{ℤ, pos, negsuc}

-- A CelValue: the kind, with the arm of the union that the kind selects.
pub data CelValue : Type 0 where
  null : CelValue
  bool : ℕ → CelValue
  int : ℤ → CelValue
  uint : ℕ → CelValue
  double : ℕ → CelValue
  string : ℕ → ℕ → CelValue
  bytes : ℕ → ℕ → CelValue
  list_arena : ℕ → CelValue
  map_arena : ℕ → CelValue
  map_host : ℕ → CelValue
  message : ℕ → CelValue
  type_value : ℕ → ℕ → CelValue
  duration : ℤ → ℤ → CelValue
  timestamp : ℤ → ℤ → CelValue
  optional : ℕ → CelValue
  unknown : ℕ → CelValue
  error : ℕ → CelValue
  list_host : ℕ → CelValue
  ip : ℕ → CelValue
  cidr : ℕ → CelValue

-- The wire numbers of the kinds.
abbrev pub cel_bool : ℕ
cel_bool = 1

abbrev pub cel_int : ℕ
cel_int = 2

abbrev pub cel_uint : ℕ
cel_uint = 3

abbrev pub cel_double : ℕ
cel_double = 4

abbrev pub cel_unknown : ℕ
cel_unknown = 15

abbrev pub cel_error : ℕ
cel_error = 16

abbrev pub kind : CelValue → ℕ
kind null = 0
kind (bool _) = cel_bool
kind (int _) = cel_int
kind (uint _) = cel_uint
kind (double _) = cel_double
kind (string _ _) = 5
kind (bytes _ _) = 6
kind (list_arena _) = 7
kind (map_arena _) = 8
kind (map_host _) = 9
kind (message _) = 10
kind (type_value _ _) = 11
kind (duration _ _) = 12
kind (timestamp _ _) = 13
kind (optional _) = 14
kind (unknown _) = cel_unknown
kind (error _) = cel_error
kind (list_host _) = 17
kind (ip _) = 18
kind (cidr _) = 19

abbrev pub err_overflow : ℕ
err_overflow = 10

abbrev pub err_divide_by_zero : ℕ
err_divide_by_zero = 11

abbrev pub err_modulus_by_zero : ℕ
err_modulus_by_zero = 12

abbrev pub err_type_mismatch : ℕ
err_type_mismatch = 13

-- The arms of the union that the kernels read, once the kind is tested.
abbrev pub payload_b : CelValue → ℕ
payload_b (bool b) = b
payload_b _ = 0

abbrev pub payload_i : CelValue → ℤ
payload_i (int i) = i
payload_i _ = pos 0

abbrev pub payload_u : CelValue → ℕ
payload_u (uint u) = u
payload_u _ = 0

abbrev pub payload_d : CelValue → ℕ
payload_d (double d) = d
payload_d _ = 0

abbrev pub payload_unk : CelValue → ℕ
payload_unk (unknown u) = u
payload_unk _ = 0

-- What the merge needs of the arena: a request in bytes gives an offset, 0 when nothing is left.
pub record Arena : Type 1 where
  pub State : Type 0
  pub alloc : State → ℕ → ℕ × State

-- The words of the arena region, by byte offset, with the arena's own state.
pub record Heap (S : Type 0) : Type 0 where
  pub word : ℕ → ℕ
  pub arena : S

pub record Memory (S : Type 0) : Type 0 where
  pub cell : ℕ → CelValue
  pub heap : Heap S

abbrev pub write : {S : Type 0} → Memory S → ℕ → CelValue → Memory S
write m out v = record m { cell = λ x. if x == out then v else m.cell x }

abbrev pub poison : {S : Type 0} → Memory S → ℕ → ℕ → Memory S
poison m out err_code = write m out (error err_code)

abbrev pub write_bool : {S : Type 0} → Memory S → ℕ → Bool → Memory S
write_bool m out b = write m out (bool (if b then 1 else 0))

-- The array of `len` words at `off`, and a list written to such an array.
unfoldable pub read_words : (ℕ → ℕ) → ℕ → ℕ → List ℕ
read_words word off zero = []
read_words word off (suc len) = word off ∷ read_words word (off + 4) len

unfoldable pub write_words : (ℕ → ℕ) → ℕ → List ℕ → ℕ → ℕ
write_words word off [] = word
write_words word off (x ∷ xs) = write_words (λ q. if q == off then x else word q) (off + 4) xs

-- The walk over two sorted arrays, with their tails at the end.
unfoldable pub merge_sorted_id_arrays : List ℕ → List ℕ → List ℕ
merge_sorted_id_arrays [] ys = ys
merge_sorted_id_arrays (x ∷ xs) [] = x ∷ xs
merge_sorted_id_arrays (x ∷ xs) (y ∷ ys) = elim (compare x y) [
  | Ordering.lt ↦ x ∷ merge_sorted_id_arrays xs (y ∷ ys)
  | Ordering.gt ↦ y ∷ merge_sorted_id_arrays (x ∷ xs) ys
  | Ordering.eq ↦ x ∷ merge_sorted_id_arrays xs ys
]

abbrev pub u32 : ℕ → ℕ
u32 n = n % 2 ^ 32

abbrev pub align_up_8 : ℕ → ℕ
align_up_8 n = u32 (n + 7) / 8 * 8

module _ (ar : Arena) where
  -- `arena_alloc`, which clears what it hands out.
  unfoldable pub arena_alloc : Heap ar.State → ℕ → ℕ × Heap ar.State
  arena_alloc h n =
      let (p, s) = ar.alloc h.arena n in
      if p == 0 then (0, record h { arena = s }) else (
        p,
        record {
          word = λ q. if leb p q && ltb q (p + align_up_8 n) then 0 else h.word q;
          arena = s;
        },
      )

  -- A descriptor of two words, `{ids_off, len}`.
  unfoldable pub alloc_unknown_descriptor : Heap ar.State → ℕ → ℕ → ℕ × Heap ar.State
  unfolding arena_alloc
  alloc_unknown_descriptor h ids_off len =
      let (desc_off, h') = arena_alloc h 8 in
      if desc_off == 0
      then (0, h')
      else (desc_off, record h' { word = write_words h'.word desc_off (ids_off ∷ len ∷ []) })

  unfoldable pub merge_unknown_descriptors : Heap ar.State → ℕ → ℕ → ℕ × Heap ar.State
  unfolding arena_alloc alloc_unknown_descriptor
  merge_unknown_descriptors h set_a set_b =
      let ids_a_off = h.word set_a in
      let len_a = h.word (set_a + 4) in
      let ids_b_off = h.word set_b in
      let len_b = h.word (set_b + 4) in
      let bytes = u32 (u32 (len_a + len_b) * 4) in
      let (out_ids, h') = arena_alloc h (if bytes == 0 then 4 else bytes) in
      if out_ids == 0
      then (0, h')
      else (let merged =
            merge_sorted_id_arrays (read_words h'.word ids_a_off len_a)
              (read_words h'.word ids_b_off len_b) in
          alloc_unknown_descriptor (record h' { word = write_words h'.word out_ids merged }) out_ids
            (length merged))

  abbrev pub write_unknown_at : Memory ar.State → ℕ → ℕ → Memory ar.State
  write_unknown_at m out desc_off = write m out (unknown desc_off)

  -- The last step of the merge of two non-empty sets.
  unfoldable pub merge_sets : Memory ar.State → ℕ → ℕ → ℕ → Memory ar.State
  unfolding merge_unknown_descriptors
  merge_sets m out set_a set_b =
      let (desc_off, h) = merge_unknown_descriptors m.heap set_a set_b in
      let m' = record m { heap = h } in
      if desc_off == 0 then poison m' out err_overflow else write_unknown_at m' out desc_off

  unfoldable pub cel_unknown_merge : Memory ar.State → ℕ → ℕ → ℕ → Memory ar.State
  unfolding merge_sets
  cel_unknown_merge m out a b =
      let set_a = payload_unk (m.cell a) in
      let set_b = payload_unk (m.cell b) in
      if not (kind (m.cell a) == cel_unknown) || not (kind (m.cell b) == cel_unknown)
      then poison m out err_type_mismatch
      else if (set_a == 0) && (set_b == 0)
      then write_unknown_at m out 0
      else if set_a == 0
      then write_unknown_at m out set_b
      else if set_b == 0
      then write_unknown_at m out set_a
      else merge_sets m out set_a set_b

  -- Strict operations: an error passes before an unknown, the left one first, and two unknowns
  -- merge. `some` means that the result is written.
  unfoldable pub absorb_3vl_binary : Memory ar.State → ℕ → ℕ → ℕ → Option (Memory ar.State)
  absorb_3vl_binary m out a b =
      let va = m.cell a in
      let vb = m.cell b in
      if kind va == cel_error
      then some (write m out va)
      else if kind vb == cel_error
      then some (write m out vb)
      else if kind va == cel_unknown
      then (if kind vb == cel_unknown
          then some (cel_unknown_merge m out a b)
          else some (write m out va))
      else if kind vb == cel_unknown
      then some (write m out vb)
      else none

  unfoldable pub absorb_3vl_unary : Memory ar.State → ℕ → ℕ → Option (Memory ar.State)
  absorb_3vl_unary m out a =
      let va = m.cell a in
      if (kind va == cel_error) || (kind va == cel_unknown) then some (write m out va) else none

  unfoldable pub require_kinds : Memory ar.State → ℕ → ℕ → ℕ → ℕ → Option (Memory ar.State)
  require_kinds m out a b want =
      if not (kind (m.cell a) == want) || not (kind (m.cell b) == want)
      then some (poison m out err_type_mismatch)
      else none
