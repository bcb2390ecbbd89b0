-- ===== src/Runtime/MapIndex/Swar.antt =====
-- runtime/cel_map_hash.h: the two masks of a group, lane by lane.
use Prim.Native.Nat.{bit_xor}
use mathlib.Core.Path.{subst}
use cel_spec_wasm.Prelude.{
  ℕ, suc, ◌+◌, ◌-◌, ◌*◌, ◌/◌, ◌%◌, ◌^◌, ◌≡◌, ◌<◌, ◌≤◌, refl, sym, ap, ap₂, ◌∙◌, List, [], ◌∷◌, ◌==◌,
  ==_iff, Bool-cases, inl, inr, if◌then◌else◌, bit_and, arith, All, length,
}
use cel_spec_wasm.Prelude.Bits.{bit_xor-lt, bit_and-high, bit_and-le, agree, agree-eq}
use cel_spec_wasm.Runtime.MapKey.{u64}
use cel_spec_wasm.Runtime.MapIndex.{lsbs, msbs, not_64, group_match, group_match_empty}
use cel_spec_wasm.Runtime.MapIndex.Words.{
  value, Bytes, zip, complement, minus_ones, times_64, repeated, size, last_borrow, minus-value,
  value-lt, flags, zip-flags, xor-value, Bytes-repeated, length-repeated, Bytes-complement,
  length-complement, complement-value, Bytes-minus, length-minus, masked, last_borrow-le,
  times-value, Bytes-times, length-times, last_carry,
}

-- The match mask of eight bytes, once they are combined with the hash byte.
match_mask :
    (xs : List ℕ)
    → Bytes xs
    → length xs ≡ 8
    → bit_and (bit_and (u64 (value xs + (2 ^ 64 - lsbs))) (not_64 (value xs))) msbs
      ≡ value (flags 0 xs)
unfolding size repeated
match_mask xs hx e =
    let ones : value (repeated (length xs) 1) ≡ lsbs = ap (λ n. value (repeated n 1)) e in
    let whole : size (length xs) ≡ 2 ^ 64 = ap size e in
    let sum : value (minus_ones 0 xs) + lsbs + 0 ≡ value xs + 2 ^ 64 * last_borrow 0 xs =
      rw (ones, whole) at (minus-value 0 xs hx (omega arith)) in
    let bound : value (minus_ones 0 xs) < 2 ^ 64 =
      rw (ap size (length-minus 0 xs) ∙ whole) at (value-lt (minus_ones 0 xs) (Bytes-minus 0 xs)) in
    let small : value xs < 2 ^ 64 = rw whole at (value-lt xs hx) in
    let carry = last_borrow-le 0 xs (omega arith) in
    let difference : u64 (value xs + (2 ^ 64 - lsbs)) ≡ value (minus_ones 0 xs) = omega arith in
    let total : value (complement xs) + value xs + 1 ≡ 2 ^ 64 =
      rw whole at (complement-value xs hx) in
    let rest : not_64 (value xs) ≡ value (complement xs) = omega arith in
    rw (difference, rest)
      (masked (minus_ones 0 xs) (complement xs) (Bytes-minus 0 xs) (Bytes-complement xs)
          (length-minus 0 xs ∙ e) (length-complement xs ∙ e)
        ∙ subst
            (λ n.
              value (zip bit_and (zip bit_and (minus_ones 0 xs) (complement xs)) (repeated n 0x80))
              ≡ value (flags 0 xs))
            e (ap value (zip-flags 0 xs hx (omega arith))))

-- The control bytes, each combined with the hash byte.
unfoldable pub xors : ℕ → List ℕ → List ℕ
xors h2 [] = []
xors h2 (c ∷ cs) = bit_xor c h2 ∷ xors h2 cs

zip-xors : (h2 : ℕ) (cs : List ℕ) → zip bit_xor cs (repeated (length cs) h2) ≡ xors h2 cs
unfolding zip repeated xors
zip-xors h2 [] = refl
zip-xors h2 (c ∷ cs) = ap (λ t. bit_xor c h2 ∷ t) (zip-xors h2 cs)

Bytes-xors : (h2 : ℕ) (cs : List ℕ) → h2 < 256 → Bytes cs → Bytes (xors h2 cs)
unfolding xors
Bytes-xors h2 [] h hc = tt
Bytes-xors h2 (c ∷ cs) h (hc, hcs) = (bit_xor-lt 8 c h2 hc h, Bytes-xors h2 cs h hcs)

pub length-xors : (h2 : ℕ) (cs : List ℕ) → length (xors h2 cs) ≡ length cs
unfolding xors
length-xors h2 [] = refl
length-xors h2 (c ∷ cs) = ap suc (length-xors h2 cs)

eight : (h2 : ℕ) → lsbs * h2 ≡ value (repeated 8 h2)
unfolding repeated
eight h2 = omega arith

-- The match mask of a group marks the lanes by `flags`.
pub group_match-flags :
    (h2 : ℕ) (cs : List ℕ)
    → h2 < 256
    → Bytes cs
    → length cs ≡ 8
    → group_match (value cs) h2 ≡ value (flags 0 (xors h2 cs))
unfolding group_match
group_match-flags h2 cs h hc e =
    let broadcast : lsbs * h2 ≡ value (repeated (length cs) h2) =
      eight h2 ∙ ap (λ n. value (repeated n h2)) (sym e) in
    let x : bit_xor (value cs) (lsbs * h2) ≡ value (xors h2 cs) =
      ap (bit_xor (value cs)) broadcast
      ∙ xor-value cs (repeated (length cs) h2) hc (Bytes-repeated (length cs) h2 h)
          (sym (length-repeated (length cs) h2))
      ∙ ap value (zip-xors h2 cs) in
    ap (λ t. bit_and (bit_and (u64 (t + (2 ^ 64 - lsbs))) (not_64 t)) msbs) x
    ∙ match_mask (xors h2 cs) (Bytes-xors h2 cs h hc) (length-xors h2 cs ∙ e)

-- The lanes of the empty slots.
unfoldable pub marks : List ℕ → List ℕ
marks [] = []
marks (c ∷ cs) = (if c == 0x80 then 0x80 else 0) ∷ marks cs

top_table : (carry : ℕ) → carry < 64 → bit_and (bit_and 128 ((64 * 127 + carry) % 256)) 0x80 ≡ 0x80
unfolding agree
top_table carry h =
    agree-eq (λ t. bit_and (bit_and 128 ((64 * 127 + t) % 256)) 0x80) (λ t. 0x80) 64 carry refl h

mark_digit :
    (c carry : ℕ)
    → c ≤ 128
    → carry < 64
    → bit_and (bit_and c ((64 * (255 - c) + carry) % 256)) 0x80 ≡ (if c == 0x80 then 0x80 else 0)
mark_digit c carry hc hy = elim (Bool-cases (c == 0x80)) [
  | inl e ↦ let e' : c ≡ 0x80 = (==_iff c 0x80).0 e in rw e' (top_table carry hy)
  | inr e ↦
      let low = bit_and-le c c ((64 * (255 - c) + carry) % 256) (omega arith) in
      let below : c < 128 = ground arith in
      rw e (omega (arith, bit_and-high (bit_and c ((64 * (255 - c) + carry) % 256)) (omega arith)))
]

zip-marks :
    (carry : ℕ) (cs : List ℕ)
    → All (λ c. c ≤ 128) cs
    → carry < 64
    → zip bit_and (zip bit_and cs (times_64 carry (complement cs))) (repeated (length cs) 0x80)
      ≡ marks cs
unfolding zip times_64 complement repeated marks
zip-marks carry [] hc hy = refl
zip-marks carry (c ∷ cs) (hc, hcs) hy =
    ap₂ (λ y ys. y ∷ ys) (mark_digit c carry hc hy) (zip-marks ((255 - c) / 4) cs hcs (omega arith))

Bytes-ctrl : (cs : List ℕ) → All (λ c. c ≤ 128) cs → Bytes cs
Bytes-ctrl [] h = tt
Bytes-ctrl (c ∷ cs) (h, hs) = (omega arith, Bytes-ctrl cs hs)

-- The empty mask of a group of control bytes marks the bytes that are empty, exactly.
pub group_match_empty-marks :
    (cs : List ℕ)
    → All (λ c. c ≤ 128) cs
    → length cs ≡ 8
    → group_match_empty (value cs) ≡ value (marks cs)
unfolding group_match_empty size
group_match_empty-marks cs hc e =
    let hb = Bytes-ctrl cs hc in
    let ns = complement cs in
    let whole : size (length cs) ≡ 2 ^ 64 = ap size e in
    let total : value ns + value cs + 1 ≡ 2 ^ 64 = rw whole at (complement-value cs hb) in
    let sum : value (times_64 0 ns) + 2 ^ 64 * last_carry 0 ns ≡ 64 * value ns + 0 =
      rw (ap size (length-complement cs) ∙ whole) at
        (times-value 0 ns (omega arith) (Bytes-complement cs)) in
    let bound : value (times_64 0 ns) < 2 ^ 64 =
      rw (ap size (length-times 0 ns ∙ length-complement cs) ∙ whole) at
        (value-lt (times_64 0 ns) (Bytes-times 0 ns)) in
    let shifted : u64 (not_64 (value cs) * 2 ^ 6) ≡ value (times_64 0 ns) = omega arith in
    rw shifted (
      masked cs (times_64 0 ns) hb (Bytes-times 0 ns) e
        (length-times 0 ns ∙ length-complement cs ∙ e)
      ∙ subst
          (λ n.
            value (zip bit_and (zip bit_and cs (times_64 0 ns)) (repeated n 0x80))
            ≡ value (marks cs))
          e (ap value (zip-marks 0 cs hc (omega arith))))
