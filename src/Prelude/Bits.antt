-- ===== src/Prelude/Bits.antt =====
-- Masks and unions of bits as arithmetic.
use Prim.Native.Nat.{
  ℕ, zero, suc, ◌+◌, ◌-◌, ◌*◌, ◌/◌, ◌%◌, ◌^◌, ◌≤◌, ◌<◌, min, max, bit_and, bit_or, digits,
  bit_and-bitwise, bit_or-bitwise, bit_xor, bit_xor-bitwise, differ,
}
use mathlib.Core.Path.{◌≡◌, refl, sym, ap, ap₂, ◌∙◌}
use native.Mathlib.Nat.{pow-suc, zero-add, suc-add}
use mathlib.Core.Bool.{Bool, true, ◌&&◌}
use native.Mathlib.Omega.{arith}
use cel_spec_wasm.Prelude.Tests.{◌==◌}

-- Over a small range, check every value by evaluation.
module _ (f g : ℕ → ℕ) where
  unfoldable pub agree : ℕ → Bool
  agree zero = true
  agree (suc n) = (f n == g n) && agree n

  pub agree-eq : (n x : ℕ) → agree n ≡ true → x < n → f x ≡ g x
  unfolding agree
  agree-eq zero x h small = absurd (omega arith)
  agree-eq (suc n) x h small = ground (arith, agree-eq n x)

-- The top bit of a byte.
pub bit_and-high : (b : ℕ) → b < 256 → bit_and b 0x80 ≡ b / 128 * 128
unfolding agree
bit_and-high b h = agree-eq (λ x. bit_and x 0x80) (λ x. x / 128 * 128) 256 b refl h

-- `digits` counts down a bound on the digits of its first number. A larger bound is as good.
module _ (rest : ℕ → ℕ) (pair : ℕ → ℕ → ℕ) where
  digits-suc : (n a b : ℕ) → a ≤ n → digits rest pair (suc n) a b ≡ digits rest pair n a b
  digits-suc zero zero b small = refl
  digits-suc zero (suc a) b small = absurd (omega arith)
  digits-suc (suc n) zero b small = refl
  digits-suc (suc n) (suc a) b small = omega (arith, digits-suc n (suc a / 2) (b / 2) (omega arith))

  digits-add : (k n a b : ℕ) → a ≤ n → digits rest pair (k + n) a b ≡ digits rest pair n a b
  digits-add zero n a b small = rw zero-add
  digits-add (suc k) n a b small =
      rw suc-add (digits-suc (k + n) a b (omega arith) ∙ digits-add k n a b small)

  -- The lowest digit of the result, and the result on the others.
  lowest :
      (a b : ℕ)
      → digits rest pair (suc a) (suc a) b
        ≡ digits rest pair (suc a / 2) (suc a / 2) (b / 2) * 2 + pair (suc a % 2) (b % 2)
  lowest a b =
      let spare : a - suc a / 2 + suc a / 2 ≡ a = omega arith in
      omega (
        arith,
        digits-add (a - suc a / 2) (suc a / 2) (suc a / 2) (b / 2) (omega arith),
        ap (λ (t : ℕ). digits rest pair t (suc a / 2) (b / 2)) spare,
      )

zero-bit_or : (b : ℕ) → bit_or 0 b ≡ b
zero-bit_or = bit_or-bitwise 0

bit_or-lowest : (a b : ℕ) → bit_or a b ≡ bit_or (a / 2) (b / 2) * 2 + max (a % 2) (b % 2)
bit_or-lowest zero b = rw zero-bit_or (omega (arith, zero-bit_or (b / 2)))
bit_or-lowest (suc a) b = simp bit_or-bitwise (lowest (λ y. y) max a b)

bit_and-lowest : (a b : ℕ) → bit_and a b ≡ bit_and (a / 2) (b / 2) * 2 + min (a % 2) (b % 2)
bit_and-lowest zero b = simp bit_and-bitwise (omega arith)
bit_and-lowest (suc a) b = simp bit_and-bitwise (lowest (λ y. 0) min a b)

bit_xor-lowest : (a b : ℕ) → bit_xor a b ≡ bit_xor (a / 2) (b / 2) * 2 + differ (a % 2) (b % 2)
bit_xor-lowest zero b = simp bit_xor-bitwise (omega arith)
bit_xor-lowest (suc a) b = simp bit_xor-bitwise (lowest (λ y. y) differ a b)

-- An operation on single bits takes the bits below position `k` and those above it apart.
module _ (op pair : ℕ → ℕ → ℕ)
    (law : (a b : ℕ) → op a b ≡ op (a / 2) (b / 2) * 2 + pair (a % 2) (b % 2))
    (nothing : op 0 0 ≡ 0) where
  op-split :
      (k a c b d : ℕ)
      → a < 2 ^ k
      → b < 2 ^ k
      → op (a + c * 2 ^ k) (b + d * 2 ^ k) ≡ op a b + op c d * 2 ^ k
  op-split zero a c b d ha hb =
      let ea : a ≡ 0 = omega arith in
      let eb : b ≡ 0 = omega arith in
      let alone : (x : ℕ) → 0 + x * 2 ^ 0 ≡ x = λ x. omega arith in
      rw (ea, eb, nothing) (ap₂ op (alone c) (alone d) ∙ sym (alone (op c d)))
  op-split (suc k) a c b d ha hb =
      let double : (u : ℕ) → u * 2 ^ suc k ≡ u * 2 ^ k * 2 =
        λ u. omega (arith, ap (λ (t : ℕ). u * t) (pow-suc 2 k)) in
      let half : (t u : ℕ) → (t + u * 2 ^ suc k) / 2 ≡ t / 2 + u * 2 ^ k =
        λ t u. omega (arith, double u) in
      let digit : (t u : ℕ) → (t + u * 2 ^ suc k) % 2 ≡ t % 2 = λ t u. omega (arith, double u) in
      omega (
        arith,
        law (a + c * 2 ^ suc k) (b + d * 2 ^ suc k),
        law a b,
        ap₂ op (half a c) (half b d),
        ap₂ pair (digit a c) (digit b d),
        op-split k (a / 2) c (b / 2) d (omega (arith, pow-suc 2 k)) (omega (arith, pow-suc 2 k)),
        double (op c d),
      )

pub bit_and-split :
    (k a c b d : ℕ)
    → a < 2 ^ k
    → b < 2 ^ k
    → bit_and (a + c * 2 ^ k) (b + d * 2 ^ k) ≡ bit_and a b + bit_and c d * 2 ^ k
bit_and-split = op-split bit_and min bit_and-lowest refl

pub bit_xor-split :
    (k a c b d : ℕ)
    → a < 2 ^ k
    → b < 2 ^ k
    → bit_xor (a + c * 2 ^ k) (b + d * 2 ^ k) ≡ bit_xor a b + bit_xor c d * 2 ^ k
bit_xor-split = op-split bit_xor differ bit_xor-lowest refl

pub bit_and-le : (n a b : ℕ) → a ≤ n → bit_and a b ≤ a
bit_and-le n zero b h = simp bit_and-bitwise (omega arith)
bit_and-le zero (suc a) b h = absurd (omega arith)
bit_and-le (suc n) (suc a) b h =
    omega (arith, bit_and-lowest (suc a) b, bit_and-le n (suc a / 2) (b / 2) (omega arith))

small_differ : (x y : ℕ) → x < 2 → y < 2 → differ x y < 2
small_differ zero y hx hy = hy
small_differ (suc zero) zero hx hy = hx
small_differ (suc zero) (suc y) hx hy = omega arith
small_differ (suc (suc x)) y hx hy = absurd (omega arith)

pub bit_xor-lt : (k a b : ℕ) → a < 2 ^ k → b < 2 ^ k → bit_xor a b < 2 ^ k
bit_xor-lt zero a b ha hb =
    let ea : a ≡ 0 = omega arith in let eb : b ≡ 0 = omega arith in rw (ea, eb) (omega arith)
bit_xor-lt (suc k) a b ha hb = omega (
  arith,
  bit_xor-lowest a b,
  pow-suc 2 k,
  small_differ (a % 2) (b % 2) (omega arith) (omega arith),
  bit_xor-lt k (a / 2) (b / 2) (omega (arith, pow-suc 2 k)) (omega (arith, pow-suc 2 k)),
)

-- A union with bits that all lie above position `k` is a sum.
pub bit_or-above : (k a c : ℕ) → a < 2 ^ k → bit_or a (c * 2 ^ k) ≡ a + c * 2 ^ k
bit_or-above zero a c h =
    let e : a ≡ 0 = omega arith in rw e (omega (arith, zero-bit_or (c * 2 ^ 0)))
bit_or-above (suc k) a c h =
    let double : c * 2 ^ suc k ≡ c * 2 ^ k * 2 =
      omega (arith, ap (λ (t : ℕ). c * t) (pow-suc 2 k)) in
    let half : c * 2 ^ suc k / 2 ≡ c * 2 ^ k = omega arith in
    omega (
      arith,
      bit_or-lowest a (c * 2 ^ suc k),
      ap (λ (t : ℕ). bit_or (a / 2) t) half,
      bit_or-above k (a / 2) c (omega (arith, pow-suc 2 k)),
    )

-- A mask of `k` ones keeps the `k` lowest bits.
ones : ℕ → ℕ
ones zero = 0
ones (suc k) = suc (2 * ones k)

mod_double : (a m : ℕ) → a % (m * 2) ≡ a / 2 % m * 2 + a % 2
mod_double a m = grind arith

and_nothing : (n a : ℕ) → a ≤ n → bit_and a 0 ≡ a % 1
and_nothing n zero h = omega arith
and_nothing zero (suc a) h = absurd (omega arith)
and_nothing (suc n) (suc a) h =
    omega (arith, and_nothing n (suc a / 2) (omega arith), bit_and-lowest (suc a) 0)

bit_and-ones : (k a : ℕ) → bit_and a (ones k) ≡ a % 2 ^ k
unfolding ones
bit_and-ones zero a = and_nothing a a (omega arith)
bit_and-ones (suc k) a =
    let half : suc (2 * ones k) / 2 ≡ ones k = omega arith in
    omega (
      arith,
      bit_and-lowest a (suc (2 * ones k)),
      ap (λ (t : ℕ). bit_and (a / 2) t) half,
      bit_and-ones k (a / 2),
      mod_double a (2 ^ k),
      ap (λ (t : ℕ). a % t) (pow-suc 2 k),
    )

pow_pos : (k : ℕ) → 1 ≤ 2 ^ k
pow_pos zero = omega arith
pow_pos (suc k) = omega (arith, pow-suc 2 k, pow_pos k)

ones-pow : (k : ℕ) → 2 ^ k - 1 ≡ ones k
unfolding ones
ones-pow zero = refl
ones-pow (suc k) = omega (arith, pow-suc 2 k, ones-pow k, pow_pos k)

-- The mask of a power of two.
pub bit_and-mask : (k a : ℕ) → bit_and a (2 ^ k - 1) ≡ a % 2 ^ k
bit_and-mask k a = ap (λ t. bit_and a t) (ones-pow k) ∙ bit_and-ones k a

-- The low seven bits of a number.
pub bit_and-low : (a : ℕ) → bit_and a 0x7f ≡ a % 128
unfolding ones
bit_and-low a = bit_and-ones 7 a

-- The union of two numbers of `k` bits has `k` bits.
pub bit_or-lt : (k a b : ℕ) → a < 2 ^ k → b < 2 ^ k → bit_or a b < 2 ^ k
bit_or-lt zero a b ha hb = let e : a ≡ 0 = omega arith in rw e (omega (arith, zero-bit_or b))
bit_or-lt (suc k) a b ha hb = omega (
  arith,
  bit_or-lowest a b,
  pow-suc 2 k,
  bit_or-lt k (a / 2) (b / 2) (omega (arith, pow-suc 2 k)) (omega (arith, pow-suc 2 k)),
)
