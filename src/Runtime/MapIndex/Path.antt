-- ===== src/Runtime/MapIndex/Path.antt =====
-- runtime/cel_map_index.c: the groups that a probe visits in a table of 2 ^ (m + 3) slots, and the
-- walk over them that the search and the placement of an entry share.
use cel_spec_wasm.Prelude.{
  ℕ, zero, suc, ◌+◌, ◌-◌, ◌*◌, ◌/◌, ◌%◌, ◌^◌, ◌≡◌, ◌<◌, ◌≤◌, sym, ap, ◌∙◌, leb, Bool-cases, inl,
  inr, bit_and, arith,
}
use native.Mathlib.Nat.{
  pow-suc, mod-mod_of_dvd, dvd-mul_right, mod-add-mod, add-mod-mod, mod-lt, mul_assoc, add-zero,
  add-mul-mod_self_right, mod-eq_of_lt, mod-add-div,
}
use cel_spec_wasm.Prelude.Bits.{bit_and-mask}
use cel_spec_wasm.Runtime.Value.{u32}
use cel_spec_wasm.Runtime.MapIndex.{Index, slot_at, next_seq}
use cel_spec_wasm.Runtime.MapIndex.Triangle.{tri, tri_hits}

abbrev pub slots_of : ℕ → ℕ
slots_of m = 2 ^ (m + 3)

-- The start of the group that a probe from `h` visits after `t` others.
unfoldable pub seq_at : ℕ → ℕ → ℕ → ℕ
seq_at m h t = (h + 8 * tri t) % slots_of m

pow_sum : (a b : ℕ) → 2 ^ (a + b) ≡ 2 ^ a * 2 ^ b
pow_sum a zero = rw add-zero (omega arith)
pow_sum a (suc b) =
    let e : a + suc b ≡ suc (a + b) = omega arith in
    rw e (
      omega (
        arith,
        pow-suc 2 (a + b),
        pow_sum a b,
        ap (λ (x : ℕ). 2 ^ a * x) (pow-suc 2 b),
        mul_assoc (2 ^ a) (2 ^ b) 2,
      ))

pub slots_eq : (m : ℕ) → slots_of m ≡ 2 ^ m * 8
slots_eq m = pow_sum m 3

pow_pos : (m : ℕ) → 1 ≤ 2 ^ m
pow_pos zero = omega arith
pow_pos (suc m) = omega (arith, pow-suc 2 m, pow_pos m)

pub slots_pos : (m : ℕ) → 8 ≤ slots_of m
slots_pos m = omega (arith, slots_eq m, pow_pos m)

-- The wrap of 32 bits does not show below a smaller power of two.
wrap : (m x : ℕ) → m + 3 ≤ 32 → u32 x % slots_of m ≡ x % slots_of m
wrap m x h =
    let e : 2 ^ 32 ≡ slots_of m * 2 ^ (32 - (m + 3)) =
      ap (λ n. 2 ^ n) (split m h) ∙ pow_sum (m + 3) (32 - (m + 3)) in
    rw e (mod-mod_of_dvd (slots_of m) x (dvd-mul_right (slots_of m) (2 ^ (32 - (m + 3)))))
  where
    split : (m : ℕ) → m + 3 ≤ 32 → 32 ≡ m + 3 + (32 - (m + 3))
    split m h = omega arith

step_sum : (h x t : ℕ) → h + 8 * x + 8 * suc t ≡ h + 8 * (x + suc t)
step_sum h x t = omega arith

module _ (idx : Index) (m : ℕ) (size : idx.num_slots ≡ slots_of m) (small : m + 3 ≤ 32) where
  masked : (x : ℕ) → bit_and (u32 x) (idx.num_slots - 1) ≡ x % slots_of m
  masked x = ap (λ n. bit_and (u32 x) (n - 1)) size ∙ bit_and-mask (m + 3) (u32 x) ∙ wrap m x small

  pub slot_at-mod : (seq lane : ℕ) → slot_at idx seq lane ≡ (seq + lane) % slots_of m
  unfolding slot_at
  slot_at-mod seq lane = masked (seq + lane)

  pub next_seq-seq_at :
      (h t : ℕ) → next_seq idx (seq_at m h t) (u32 (8 * suc t)) ≡ seq_at m h (suc t)
  unfolding next_seq seq_at tri
  next_seq-seq_at h t =
      masked ((h + 8 * tri t) % slots_of m + u32 (8 * suc t))
      ∙ mod-add-mod (h + 8 * tri t) (slots_of m) (u32 (8 * suc t))
      ∙ sym (add-mod-mod (h + 8 * tri t) (u32 (8 * suc t)) (slots_of m))
      ∙ ap (λ x. (h + 8 * tri t + x) % slots_of m) (wrap m (8 * suc t) small)
      ∙ add-mod-mod (h + 8 * tri t) (8 * suc t) (slots_of m)
      ∙ ap (λ x. x % slots_of m) (step_sum h (tri t) t)

-- The distance from `h` forward to the slot `s`.
distance : (n h s : ℕ) → s < n → (d : ℕ) × (c : ℕ) × (d < n) × (h % n + d ≡ s + c * n)
distance n h s lt =
    let r = h % n in
    let small : r < n = mod-lt h (omega arith) in
    elim (Bool-cases (leb r s)) [
      | inl after ↦ (s - r, 0, omega arith, ground arith)
      | inr before ↦
          let one : 1 * n ≡ n = omega arith in
          let e : r + (s + n - r) ≡ s + n = ground arith in
          (s + n - r, 1, ground arith, omega arith)
    ]

-- Every slot lies in one of the first `2 ^ m` groups.
pub visits :
    (m h s : ℕ)
    → s < slots_of m
    → (t : ℕ) × (l : ℕ) × (t < 2 ^ m) × (l < 8) × ((seq_at m h t + l) % slots_of m ≡ s)
unfolding seq_at
visits m h s lt =
    let n = slots_of m in
    let (d, c, below_n, around) = distance n h s lt in
    let (t, below, e) = tri_hits m (d / 8) in
    let j = tri t / 2 ^ m in
    let q_small : d / 8 < 2 ^ m = omega (arith, slots_eq m) in
    let hit : tri t ≡ d / 8 + 2 ^ m * j =
      omega (arith, mod-add-div (tri t) (2 ^ m), mod-eq_of_lt q_small) in
    let whole : h ≡ h % n + n * (h / n) = omega (arith, mod-add-div h n) in
    let total : h + 8 * tri t + d % 8 ≡ s + (c + h / n + j) * n =
      grind (arith, slots_eq m, ap (λ (x : ℕ). x * j) (slots_eq m)) in
    (
      t,
      d % 8,
      below,
      omega arith,
      mod-add-mod (h + 8 * tri t) n (d % 8)
          ∙ ap (λ x. x % n) total
          ∙ add-mul-mod_self_right s (c + h / n + j) n
          ∙ mod-eq_of_lt lt,
    )
