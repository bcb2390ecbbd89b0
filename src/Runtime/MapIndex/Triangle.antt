-- ===== src/Runtime/MapIndex/Triangle.antt =====
-- runtime/cel_map_index.c: the triangular probe visits every slot. The numbers 0, 1, 3, 6, ... below
-- position 2 ^ m are every remainder modulo 2 ^ m.
use cel_spec_wasm.Prelude.{
  ℕ, zero, suc, ◌+◌, ◌-◌, ◌*◌, ◌/◌, ◌%◌, ◌^◌, ◌≡◌, ◌<◌, refl, sym, ap, ◌∙◌, ◌==◌, ==_iff,
  Bool-cases, inl, inr, ◌⊎◌, arith,
}
use native.Mathlib.Nat.{pow-suc, add-mul-mod_self_right, mod-eq_of_lt, mod-lt, mod-add-div}

unfoldable pub tri : ℕ → ℕ
tri zero = 0
tri (suc t) = tri t + suc t

tri-twice : (t : ℕ) → 2 * tri t ≡ t * (t + 1)
unfolding tri
tri-twice zero = refl
tri-twice (suc t) = grind (arith, tri-twice t)

tri-reflect : (r t p : ℕ) → r + t + 1 ≡ 2 * p → tri r + p * (2 * t + 1) ≡ tri t + 2 * p * p
tri-reflect r t p e = grind (
  arith,
  tri-twice r,
  tri-twice t,
  ap (λ (x : ℕ). x * r) e,
  ap (λ (x : ℕ). x * t) e,
  ap (λ (x : ℕ). x * p) e,
)

parity : (c : ℕ) → (c % 2 ≡ 0) ⊎ (c % 2 ≡ 1)
parity c = elim (Bool-cases (c % 2 == 0)) [
  | inl e ↦ inl (ground arith)
  | inr e ↦ inr (ground arith)
]

-- A number below `p`, and a multiple of `p`, modulo `2 * p`.
mod-twice : (p r c : ℕ) → r < p → (r + p * c) % (2 * p) ≡ r + p * (c % 2)
mod-twice p r c h =
    let parts : c ≡ c % 2 + c / 2 * 2 = omega arith in
    let whole : r + p * c ≡ r + p * (c % 2) + c / 2 * (2 * p) =
      grind (arith, ap (λ (x : ℕ). p * x) parts) in
    let digit : (c % 2 ≡ 0) ⊎ (c % 2 ≡ 1) = parity c in
    rw (whole, add-mul-mod_self_right)
      (mod-eq_of_lt (elim digit [ inl e ↦ rw e (omega arith) | inr e ↦ rw e (omega arith) ]))

-- The same remainder, twice over: the number itself or its mirror image hits.
mirror :
    (p q t : ℕ)
    → t < p
    → tri t % p ≡ q % p
    → (u : ℕ) × (u < 2 * p) × (tri u % (2 * p) ≡ q % (2 * p))
mirror p q t lt e =
    let r = q % p in
    let a = tri t / p in
    let b = q / p in
    let small : r < p = mod-lt q (omega arith) in
    let eq_q : q ≡ r + p * b = omega (arith, mod-add-div q p) in
    let eq_t : tri t ≡ r + p * a = omega (arith, mod-add-div (tri t) p) in
    let goal_q : q % (2 * p) ≡ r + p * (b % 2) =
      ap (λ x. x % (2 * p)) eq_q ∙ mod-twice p r b small in
    elim (Bool-cases (a % 2 == b % 2)) [
      | inl same ↦
          let same' : a % 2 ≡ b % 2 = (==_iff (a % 2) (b % 2)).0 same in
          (
            t,
            omega arith,
            ap (λ x. x % (2 * p)) eq_t
                ∙ mod-twice p r a small
                ∙ ap (λ (x : ℕ). r + p * x) same'
                ∙ sym goal_q,
          )
      | inr other ↦
          let u = 2 * p - 1 - t in
          let c = a + 2 * p - (2 * t + 1) in
          let image = tri-reflect u t p (omega arith) in
          let odd : c + (2 * t + 1) ≡ a + 2 * p = omega arith in
          let eq_u : tri u ≡ r + p * c = grind (arith, ap (λ (x : ℕ). p * x) odd) in
          let flips : c % 2 ≡ b % 2 = ground arith in
          (
            u,
            omega arith,
            ap (λ x. x % (2 * p)) eq_u
                ∙ mod-twice p r c small
                ∙ ap (λ (x : ℕ). r + p * x) flips
                ∙ sym goal_q,
          )
    ]

-- Each remainder is met below `2 ^ m`.
pub tri_hits : (m q : ℕ) → (t : ℕ) × (t < 2 ^ m) × (tri t % 2 ^ m ≡ q % 2 ^ m)
tri_hits zero q = (0, omega arith, omega arith)
tri_hits (suc m) q =
    let (t, lt, e) = tri_hits m q in
    let double : 2 ^ suc m ≡ 2 * 2 ^ m = omega (arith, pow-suc 2 m) in
    rw double (mirror (2 ^ m) q t lt e)
