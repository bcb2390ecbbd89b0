-- ===== src/Abi/WasmBinary/Leb.antt =====
-- abi/wasm_binary.cc: what AppendLeb128U32 writes, and that ReadLeb128U32 reads it back.
use mathlib.Core.WellFounded.{Acc}
use native.Mathlib.Nat.{div-add-mod, zero-add, mul-one}
use native.Mathlib.Numerals.{towards_suc}
use cel_spec_wasm.Prelude.{
  ℕ, zero, suc, ◌+◌, ◌*◌, ◌/◌, ◌%◌, ◌^◌, ◌≤◌, ◌<◌, bit_and, bit_or, ◌≡◌, ap, ◌∙◌, true, some, List,
  [], ◌∷◌, ◌++◌, append_assoc, arith, ltb, if◌then◌else◌, length, length-append, dec_lt, get_elem?,
  HasAt, HasAt-middle,
}
use cel_spec_wasm.Prelude.Bits.{bit_and-low, bit_and-high, bit_or-above}
use cel_spec_wasm.Abi.WasmBinary.{
  read_leb_loop, read_leb128_u32, append_leb_loop, append_leb128_u32,
}

-- The groups of seven bits of `v`, lowest first, where at most `k` more follow the first.
pub groups : ℕ → ℕ → List ℕ
groups zero v = v ∷ []
groups (suc k) v =
    let rest = groups k (v / 128) in if ltb v 128 then v ∷ [] else (v % 128 + 128) ∷ rest

continued : (v : ℕ) → bit_or (bit_and v 0x7f) 0x80 ≡ v % 128 + 128
continued v = rw bit_and-low (bit_or-above 7 (v % 128) 1 (omega arith))

append_leb_loop-groups :
    (k : ℕ) (out : List ℕ) (v : ℕ) (w : Acc ◌<◌ v)
    → v < 128 ^ suc k
    → append_leb_loop out v w ≡ out ++ groups k v
unfolding append_leb_loop groups
append_leb_loop-groups zero out v (Acc.intro _ smaller) h = ground (arith, bit_and-low v)
append_leb_loop-groups (suc k) out v (Acc.intro _ smaller) h =
    let head : List ℕ = (v % 128 + 128) ∷ [] in
    grind (
      arith,
      bit_and-low v,
      continued v,
      λ (w : Acc ◌<◌ (v / 128)). append_leb_loop-groups k (out ++ head) (v / 128) w (omega arith),
      append_assoc out head (groups k (v / 128)),
    )

-- On a uint32_t the encoder appends its groups of seven bits, five at most.
pub append_leb128_u32-groups :
    (out : List ℕ) (v : ℕ) → v < 2 ^ 32 → append_leb128_u32 out v ≡ out ++ groups 4 v
unfolding append_leb128_u32
append_leb128_u32-groups out v h = append_leb_loop-groups 4 out v _ (omega arith)

pub length-groups : (k v : ℕ) → (1 ≤ length (groups k v)) × (length (groups k v) ≤ k + 1)
unfolding groups
length-groups zero v = omega arith
length-groups (suc k) v = ground (arith, length-groups k (v / 128))

shift_seven : (s : ℕ) → 2 ^ (s + 7) ≡ 128 * 2 ^ s
shift_seven s = simp towards_suc (omega arith)

-- One round on a byte: the group joins the bits below it, and fits.
join_group :
    (out g shift : ℕ)
    → out < 2 ^ shift
    → g * 2 ^ shift < 2 ^ 32
    → bit_or out (g * 2 ^ shift % 2 ^ 32) ≡ out + g * 2 ^ shift
join_group out g shift below fits =
    let whole : g * 2 ^ shift % 2 ^ 32 ≡ g * 2 ^ shift = omega arith in
    rw whole (bit_or-above shift out g below)

split_group : (v s : ℕ) → v * 2 ^ s ≡ v % 128 * 2 ^ s + v / 128 * 2 ^ (s + 7)
split_group v s = omega (
  arith,
  ap (λ (t : ℕ). t * 2 ^ s) (div-add-mod v 128),
  ap (λ (t : ℕ). v / 128 * t) (shift_seven s),
)

last_round :
    (n v out shift : ℕ) (bytes : List ℕ) (pos : ℕ)
    → get_elem? bytes pos ≡ some v
    → v < 128
    → out < 2 ^ shift
    → v * 2 ^ shift < 2 ^ 32
    → read_leb_loop (suc n) bytes pos out shift
      ≡ record { success = true; pos = pos + 1; out = out + v * 2 ^ shift }
unfolding read_leb_loop
last_round n v out shift bytes pos at hv below fits =
    rw (at, read_leb_loop) (ground (arith, bit_and-low v, bit_and-high v, join_group out v shift))

inner_round :
    (n g out shift : ℕ) (bytes : List ℕ) (pos : ℕ)
    → get_elem? bytes pos ≡ some (g + 128)
    → g < 128
    → out < 2 ^ shift
    → g * 2 ^ shift < 2 ^ 32
    → read_leb_loop (suc n) bytes pos out shift
      ≡ read_leb_loop n bytes (pos + 1) (out + g * 2 ^ shift) (shift + 7)
unfolding read_leb_loop
inner_round n g out shift bytes pos at hg below fits =
    let low : bit_and (g + 128) 0x7f ≡ g = omega (arith, bit_and-low (g + 128)) in
    let high : bit_and (g + 128) 0x80 ≡ 128 = omega (arith, bit_and-high (g + 128)) in
    rw (at, read_leb_loop, low, high, join_group out g shift below fits)

groups_short : (k v : ℕ) → v < 128 → groups (suc k) v ≡ v ∷ []
unfolding groups
groups_short k v h = ground arith

groups_long : (k v : ℕ) → ¬ (v < 128) → groups (suc k) v ≡ (v % 128 + 128) ∷ groups k (v / 128)
unfolding groups
groups_long k v h = ground arith

join_below : (out g s : ℕ) → out < 2 ^ s → g < 128 → out + g * 2 ^ s < 2 ^ (s + 7)
join_below out g s below hg = grind (arith, shift_seven s)

pub read_leb_loop-groups :
    (k n v out shift : ℕ) (bytes : List ℕ) (pos : ℕ)
    → k < n
    → v < 128 ^ suc k
    → out < 2 ^ shift
    → out + v * 2 ^ shift < 2 ^ 32
    → HasAt bytes pos (groups k v)
    → read_leb_loop n bytes pos out shift
      ≡ record { success = true; pos = pos + length (groups k v); out = out + v * 2 ^ shift }
unfolding groups
read_leb_loop-groups k zero v out shift bytes pos hk hv below fits at = elim hk [ ]
read_leb_loop-groups zero (suc n) v out shift bytes pos hk hv below fits at =
    last_round n v out shift bytes pos at.0 (omega arith) below (omega arith)
read_leb_loop-groups (suc k) (suc n) v out shift bytes pos hk hv below fits at =
    elim (dec_lt v 128) [
      | yes short ↦ rw (groups_short k v short) (
          last_round n v out shift bytes pos (rw (groups_short k v short) at at).0 short below
            (omega arith))
      | no long ↦
          let here = rw (groups_long k v long) at at in
          rw (groups_long k v long) (
            inner_round n (v % 128) out shift bytes pos here.0 (omega arith) below
              (omega (arith, split_group v shift))
            ∙ read_leb_loop-groups k n (v / 128) (out + v % 128 * 2 ^ shift) (shift + 7) bytes
                (pos + 1) (omega arith) (omega arith)
                (join_below out (v % 128) shift below (omega arith))
                (omega (arith, split_group v shift)) here.1
            ∙ ground (arith, split_group v shift))
    ]

-- ReadLeb128U32 reads back what AppendLeb128U32 wrote, wherever it stands, and stops behind it.
pub read_leb128_u32-append :
    (before rest : List ℕ) (v : ℕ)
    → v < 2 ^ 32
    → read_leb128_u32 (append_leb128_u32 before v ++ rest) (length before)
      ≡ record { success = true; pos = length (append_leb128_u32 before v); out = v }
unfolding read_leb128_u32
read_leb128_u32-append before rest v h =
    rw (append_leb128_u32-groups before v h, append_assoc, length-append)
      (read_leb_loop-groups 4 5 v 0 0 _ (length before) (omega arith) (omega arith) (omega arith)
          (omega arith) (HasAt-middle before (groups 4 v) rest)
        ∙ rw (zero-add, mul-one))
