-- ===== src/Runtime/MapIndex/Words.antt =====
-- runtime/cel_map_hash.h: a word is the value of its eight bytes, and the steps of the two mask
-- formulas are steps on the bytes, with a carry.
use Prim.Native.Nat.{bit_xor}
use cel_spec_wasm.Prelude.{
  ℕ, zero, suc, ◌+◌, ◌-◌, ◌*◌, ◌/◌, ◌%◌, ◌≡◌, ◌<◌, ◌≤◌, refl, ap, ap₂, ◌∙◌, List, [], ◌∷◌, leb,
  if◌then◌else◌, bit_and, arith, All, length,
}
use native.Mathlib.Nat.{mul_assoc}
use cel_spec_wasm.Prelude.Bits.{bit_and-split, bit_xor-split, bit_and-le, agree, agree-eq}
use cel_spec_wasm.Runtime.MapKey.{load}
use cel_spec_wasm.Runtime.MapIndex.{msbs}

abbrev pub value : List ℕ → ℕ
value [] = 0
value (b ∷ bs) = b + 256 * value bs

abbrev pub window : (ℕ → ℕ) → ℕ → ℕ → List ℕ
window f zero p = []
window f (suc n) p = f p ∷ window f n (p + 1)

abbrev pub Bytes : List ℕ → Type 0
Bytes = All (λ b. b < 256)

pub load-window : (f : ℕ → ℕ) (n p : ℕ) → load f n p ≡ value (window f n p)
unfolding load
load-window f zero p = refl
load-window f (suc n) p = ap (λ t. f p + 256 * t) (load-window f n (p + 1))

-- A bit operation on two words works on their bytes.
unfoldable pub zip : (ℕ → ℕ → ℕ) → List ℕ → List ℕ → List ℕ
zip f [] ys = []
zip f (x ∷ xs) [] = []
zip f (x ∷ xs) (y ∷ ys) = f x y ∷ zip f xs ys

module _ (op : ℕ → ℕ → ℕ)
    (split : (a c b d : ℕ)
      → a < 256
      → b < 256
      → op (a + c * 256) (b + d * 256) ≡ op a b + op c d * 256)
    (nothing : op 0 0 ≡ 0) where
  op-value :
      (xs ys : List ℕ)
      → Bytes xs
      → Bytes ys
      → length xs ≡ length ys
      → op (value xs) (value ys) ≡ value (zip op xs ys)
  unfolding zip
  op-value [] [] hx hy e = nothing
  op-value (x ∷ xs) (y ∷ ys) (hx, hxs) (hy, hys) e = omega (
    arith,
    split x (value xs) y (value ys) hx hy,
    op-value xs ys hxs hys (omega arith),
    ap₂ op (turn x (value xs)) (turn y (value ys)),
  )
    where
      turn : (t u : ℕ) → t + 256 * u ≡ t + u * 256
      turn t u = omega arith
  op-value [] (y ∷ ys) hx hy e = absurd (omega arith)
  op-value (x ∷ xs) [] hx hy e = absurd (omega arith)

pub and-value :
    (xs ys : List ℕ)
    → Bytes xs
    → Bytes ys
    → length xs ≡ length ys
    → bit_and (value xs) (value ys) ≡ value (zip bit_and xs ys)
and-value = op-value bit_and (bit_and-split 8) refl

pub xor-value :
    (xs ys : List ℕ)
    → Bytes xs
    → Bytes ys
    → length xs ≡ length ys
    → bit_xor (value xs) (value ys) ≡ value (zip bit_xor xs ys)
xor-value = op-value bit_xor (bit_xor-split 8) refl

-- The complement of each byte, and the subtraction of 1 from each with a borrow.
unfoldable pub complement : List ℕ → List ℕ
complement [] = []
complement (x ∷ xs) = (255 - x) ∷ complement xs

unfoldable pub minus_ones : ℕ → List ℕ → List ℕ
minus_ones borrow [] = []
minus_ones borrow (x ∷ xs) =
    (x + 255 - borrow) % 256 ∷ minus_ones (if leb x borrow then 1 else 0) xs

-- The bytes of `x * 64`, with a carry.
unfoldable pub times_64 : ℕ → List ℕ → List ℕ
times_64 carry [] = []
times_64 carry (x ∷ xs) = (64 * x + carry) % 256 ∷ times_64 (x / 4) xs

unfoldable pub repeated : ℕ → ℕ → List ℕ
repeated zero b = []
repeated (suc n) b = b ∷ repeated n b

unfoldable pub size : ℕ → ℕ
size zero = 1
size (suc n) = 256 * size n

unfoldable pub last_borrow : ℕ → List ℕ → ℕ
last_borrow borrow [] = borrow
last_borrow borrow (x ∷ xs) = last_borrow (if leb x borrow then 1 else 0) xs

pub minus_step :
    (x b : ℕ) → x < 256 → b ≤ 1 → (x + 255 - b) % 256 + 1 + b ≡ x + 256 * (if leb x b then 1 else 0)
minus_step x b hx hb = ground arith

pub minus_digit : (x b : ℕ) → x < 256 → b ≤ 1 → (x + 255 - b) % 256 < 256
minus_digit x b hx hb = omega arith

pub small_borrow : (x b : ℕ) → (if leb x b then 1 else 0) ≤ 1
small_borrow x b = ground arith

pub minus-value :
    (b : ℕ) (xs : List ℕ)
    → Bytes xs
    → b ≤ 1
    → value (minus_ones b xs) + value (repeated (length xs) 1) + b
      ≡ value xs + size (length xs) * last_borrow b xs
unfolding minus_ones repeated size last_borrow
minus-value b [] hx hb = omega arith
minus-value b (x ∷ xs) (hx, hxs) hb = omega (
  arith,
  minus_step x b hx hb,
  minus-value (if leb x b then 1 else 0) xs hxs (small_borrow x b),
  assoc,
)
  where
    assoc :
        256 * size (length xs) * last_borrow (if leb x b then 1 else 0) xs
        ≡ 256 * (size (length xs) * last_borrow (if leb x b then 1 else 0) xs)
    assoc = mul_assoc 256 (size (length xs)) (last_borrow (if leb x b then 1 else 0) xs)

pub value-lt : (xs : List ℕ) → Bytes xs → value xs < size (length xs)
unfolding size
value-lt [] h = omega arith
value-lt (x ∷ xs) (h, hs) = omega (arith, value-lt xs hs)

-- The flags: a lane is marked if its byte is 0, or 1 next to a marked lane.
unfoldable pub flags : ℕ → List ℕ → List ℕ
flags b [] = []
flags b (x ∷ xs) = (if leb x b then 0x80 else 0) ∷ flags (if leb x b then 1 else 0) xs

pub flag_digit :
    (x b : ℕ)
    → x < 256
    → b ≤ 1
    → bit_and (bit_and ((x + 255 - b) % 256) (255 - x)) 0x80 ≡ (if leb x b then 0x80 else 0)
unfolding agree
flag_digit x zero hx hb =
    agree-eq (λ t. bit_and (bit_and ((t + 255 - 0) % 256) (255 - t)) 0x80)
      (λ t. if leb t 0 then 0x80 else 0) 256 x refl hx
flag_digit x (suc zero) hx hb =
    agree-eq (λ t. bit_and (bit_and ((t + 255 - 1) % 256) (255 - t)) 0x80)
      (λ t. if leb t 1 then 0x80 else 0) 256 x refl hx
flag_digit x (suc (suc b)) hx hb = absurd (omega arith)

pub zip-flags :
    (b : ℕ) (xs : List ℕ)
    → Bytes xs
    → b ≤ 1
    → zip bit_and (zip bit_and (minus_ones b xs) (complement xs)) (repeated (length xs) 0x80)
      ≡ flags b xs
unfolding zip minus_ones complement repeated flags
zip-flags b [] hx hb = refl
zip-flags b (x ∷ xs) (hx, hxs) hb =
    ap₂ (λ y ys. y ∷ ys) (flag_digit x b hx hb)
      (zip-flags (if leb x b then 1 else 0) xs hxs (small_borrow x b))

pub Bytes-zip :
    (f : ℕ → ℕ → ℕ) (xs ys : List ℕ)
    → ((x y : ℕ) → x < 256 → y < 256 → f x y < 256)
    → Bytes xs
    → Bytes ys
    → Bytes (zip f xs ys)
unfolding zip
Bytes-zip f [] ys small hx hy = tt
Bytes-zip f (x ∷ xs) [] small hx hy = tt
Bytes-zip f (x ∷ xs) (y ∷ ys) small (hx, hxs) (hy, hys) =
    (small x y hx hy, Bytes-zip f xs ys small hxs hys)

pub length-zip :
    (f : ℕ → ℕ → ℕ) (xs ys : List ℕ) → length xs ≡ length ys → length (zip f xs ys) ≡ length xs
unfolding zip
length-zip f [] ys e = refl
length-zip f (x ∷ xs) [] e = absurd (omega arith)
length-zip f (x ∷ xs) (y ∷ ys) e = omega (arith, length-zip f xs ys (omega arith))

pub Bytes-repeated : (n b : ℕ) → b < 256 → Bytes (repeated n b)
unfolding repeated
Bytes-repeated zero b h = tt
Bytes-repeated (suc n) b h = (h, Bytes-repeated n b h)

pub length-repeated : (n b : ℕ) → length (repeated n b) ≡ n
unfolding repeated
length-repeated zero b = refl
length-repeated (suc n) b = ap suc (length-repeated n b)

pub Bytes-complement : (xs : List ℕ) → Bytes (complement xs)
unfolding complement
Bytes-complement [] = tt
Bytes-complement (x ∷ xs) = (omega arith, Bytes-complement xs)

pub length-complement : (xs : List ℕ) → length (complement xs) ≡ length xs
unfolding complement
length-complement [] = refl
length-complement (x ∷ xs) = ap suc (length-complement xs)

pub complement-value :
    (xs : List ℕ) → Bytes xs → value (complement xs) + value xs + 1 ≡ size (length xs)
unfolding complement size
complement-value [] h = refl
complement-value (x ∷ xs) (h, hs) = omega (arith, complement-value xs hs)

pub Bytes-minus : (b : ℕ) (xs : List ℕ) → Bytes (minus_ones b xs)
unfolding minus_ones
Bytes-minus b [] = tt
Bytes-minus b (x ∷ xs) = (omega arith, Bytes-minus (if leb x b then 1 else 0) xs)

pub length-minus : (b : ℕ) (xs : List ℕ) → length (minus_ones b xs) ≡ length xs
unfolding minus_ones
length-minus b [] = refl
length-minus b (x ∷ xs) = ap suc (length-minus (if leb x b then 1 else 0) xs)

unfoldable pub last_carry : ℕ → List ℕ → ℕ
last_carry carry [] = carry
last_carry carry (x ∷ xs) = last_carry (x / 4) xs

pub times-value :
    (carry : ℕ) (xs : List ℕ)
    → carry < 64
    → Bytes xs
    → value (times_64 carry xs) + size (length xs) * last_carry carry xs ≡ 64 * value xs + carry
unfolding times_64 size last_carry
times-value carry [] h hx = omega arith
times-value carry (x ∷ xs) h (hx, hxs) = omega (
  arith,
  times-value (x / 4) xs (omega arith) hxs,
  mul_assoc 256 (size (length xs)) (last_carry (x / 4) xs),
)

pub Bytes-times : (carry : ℕ) (xs : List ℕ) → Bytes (times_64 carry xs)
unfolding times_64
Bytes-times carry [] = tt
Bytes-times carry (x ∷ xs) = (omega arith, Bytes-times (x / 4) xs)

pub length-times : (carry : ℕ) (xs : List ℕ) → length (times_64 carry xs) ≡ length xs
unfolding times_64
length-times carry [] = refl
length-times carry (x ∷ xs) = ap suc (length-times (x / 4) xs)

pub and-byte : (x y : ℕ) → x < 256 → y < 256 → bit_and x y < 256
and-byte x y hx hy = omega (arith, bit_and-le x x y (omega arith))

-- The last step of both masks.
pub masked :
    (us vs : List ℕ)
    → Bytes us
    → Bytes vs
    → length us ≡ 8
    → length vs ≡ 8
    → bit_and (bit_and (value us) (value vs)) msbs
      ≡ value (zip bit_and (zip bit_and us vs) (repeated 8 0x80))
unfolding repeated
masked us vs hu hv eu ev =
    let same : length us ≡ length vs = omega arith in
    ap (λ t. bit_and t msbs) (and-value us vs hu hv same)
    ∙ and-value (zip bit_and us vs) (repeated 8 0x80) (Bytes-zip bit_and us vs and-byte hu hv)
        (Bytes-repeated 8 0x80 (omega arith))
        (omega (arith, length-zip bit_and us vs same, length-repeated 8 0x80))

pub last_borrow-le : (b : ℕ) (xs : List ℕ) → b ≤ 1 → last_borrow b xs ≤ 1
unfolding last_borrow
last_borrow-le b [] h = h
last_borrow-le b (x ∷ xs) h = last_borrow-le (if leb x b then 1 else 0) xs (small_borrow x b)
