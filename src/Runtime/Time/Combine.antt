-- ===== src/Runtime/Time/Combine.antt =====
-- runtime/cel_time.c: `dur_combine` adds exactly and keeps both parts of one sign, and the order
-- of the pairs is the order of the instants.
use cel_spec_wasm.Prelude.{
  ℕ, ◌+◌, ◌-◌, ◌*◌, ◌^◌, ◌<◌, ◌≡◌, refl, Bool, true, false, ◌&&◌, not, some, arith, ltb,
  if◌then◌else◌, Bool-cases, inl, inr,
}
use cel_spec_wasm.Prelude.Int.{
  ℤ, pos, negsuc, ◌+ℤ◌, ◌-ℤ◌, ltb_ℤ, eqb_ℤ, pos_part, neg_part, +ℤ_parts, -ℤ_parts,
}
use cel_spec_wasm.Runtime.Arith.{add_i64, sub_i64}
use cel_spec_wasm.Runtime.Time.{
  CelDurTs, nanos_per_sec, correlate, carry_nanos, dur_combine, dur_compare_lex,
}

-- Both parts have one sign, and the nanoseconds are below a second.
abbrev pub is_normal : CelDurTs → Bool
is_normal d =
    ltb_ℤ (negsuc (1000000000 - 1)) d.nanos
    && ltb_ℤ d.nanos nanos_per_sec
    && not (ltb_ℤ (pos 0) d.seconds && ltb_ℤ d.nanos (pos 0))
    && not (ltb_ℤ d.seconds (pos 0) && ltb_ℤ (pos 0) d.nanos)

-- The instant in nanoseconds, as the difference of two numbers.
abbrev pub plus_part : CelDurTs → ℕ
plus_part d = pos_part d.seconds * 1000000000 + pos_part d.nanos

abbrev pub minus_part : CelDurTs → ℕ
minus_part d = neg_part d.seconds * 1000000000 + neg_part d.nanos

correlate_lem :
    (s n : ℤ)
    → ltb_ℤ (negsuc (1000000000 - 1)) n ≡ true
    → ltb_ℤ n nanos_per_sec ≡ true
    → (is_normal (correlate s n) ≡ true)
      × (plus_part (correlate s n) + (neg_part s * 1000000000 + neg_part n)
          ≡ minus_part (correlate s n) + (pos_part s * 1000000000 + pos_part n))
unfolding correlate ◌+ℤ◌ ◌-ℤ◌
correlate_lem s n h k = (ground arith, ground arith)

abbrev small : ℤ → Bool
small s = ltb_ℤ s (pos (2 ^ 62)) && ltb_ℤ (negsuc (2 ^ 62)) s

-- A sum of nanoseconds below two seconds.
abbrev two_seconds : ℤ → Bool
two_seconds n = ltb_ℤ n (pos 2000000000) && ltb_ℤ (negsuc (2000000000 - 1)) n

-- The instant `s` seconds and `n` nanoseconds from the epoch.
abbrev Denotes : CelDurTs → ℤ → ℤ → Type 0
Denotes r s n =
    plus_part r + (neg_part s * 1000000000 + neg_part n)
    ≡ minus_part r + (pos_part s * 1000000000 + pos_part n)

add_one :
    (s : ℤ)
    → ltb_ℤ s (pos (2 ^ 63 - 1)) ≡ true
    → ltb_ℤ (negsuc (2 ^ 63 - 1)) s ≡ true
    → (add_i64 s (pos 1) ≡ some (s +ℤ pos 1)) × (add_i64 s (negsuc 0) ≡ some (s +ℤ negsuc 0))
unfolding ◌+ℤ◌
add_one s h k = (ground arith, ground arith)

-- A second moved between the parts, either way.
move_up :
    (p m : ℕ) (s n : ℤ)
    → p + (neg_part (s +ℤ pos 1) * 1000000000 + neg_part (n -ℤ nanos_per_sec))
      ≡ m + (pos_part (s +ℤ pos 1) * 1000000000 + pos_part (n -ℤ nanos_per_sec))
    → p + (neg_part s * 1000000000 + neg_part n) ≡ m + (pos_part s * 1000000000 + pos_part n)
move_up p m s n h = omega (arith, +ℤ_parts s (pos 1), -ℤ_parts n nanos_per_sec)

move_down :
    (p m : ℕ) (s n : ℤ)
    → p + (neg_part (s +ℤ negsuc 0) * 1000000000 + neg_part (n +ℤ nanos_per_sec))
      ≡ m + (pos_part (s +ℤ negsuc 0) * 1000000000 + pos_part (n +ℤ nanos_per_sec))
    → p + (neg_part s * 1000000000 + neg_part n) ≡ m + (pos_part s * 1000000000 + pos_part n)
move_down p m s n h = omega (arith, +ℤ_parts s (negsuc 0), +ℤ_parts n nanos_per_sec)

after_up :
    (n : ℤ)
    → two_seconds n ≡ true
    → ltb_ℤ n nanos_per_sec ≡ false
    → (ltb_ℤ (negsuc (1000000000 - 1)) (n -ℤ nanos_per_sec) ≡ true)
      × (ltb_ℤ (n -ℤ nanos_per_sec) nanos_per_sec ≡ true)
unfolding ◌-ℤ◌
after_up n h k = (ground arith, ground arith)

after_down :
    (n : ℤ)
    → two_seconds n ≡ true
    → ltb_ℤ (negsuc (1000000000 - 1)) n ≡ false
    → (ltb_ℤ (negsuc (1000000000 - 1)) (n +ℤ nanos_per_sec) ≡ true)
      × (ltb_ℤ (n +ℤ nanos_per_sec) nanos_per_sec ≡ true)
unfolding ◌+ℤ◌
after_down n h k = (ground arith, ground arith)

carry_nanos_lem :
    (s n : ℤ)
    → ltb_ℤ s (pos (2 ^ 63 - 1)) ≡ true
    → ltb_ℤ (negsuc (2 ^ 63 - 1)) s ≡ true
    → two_seconds n ≡ true
    → (r : CelDurTs) × (carry_nanos s n ≡ some r) × (is_normal r ≡ true) × Denotes r s n
unfolding carry_nanos
carry_nanos_lem s n h k hn = elim (Bool-cases (ltb_ℤ n nanos_per_sec)) [
  | inr large ↦
      let (up, _) = add_one s h k in
      let (low, high) = after_up n hn large in
      let (normal, exact) = correlate_lem (s +ℤ pos 1) (n -ℤ nanos_per_sec) low high in
      (
        correlate (s +ℤ pos 1) (n -ℤ nanos_per_sec),
        rw (large, up) refl,
        normal,
        move_up _ _ s n exact,
      )
  | inl below ↦ elim (Bool-cases (ltb_ℤ (negsuc (1000000000 - 1)) n)) [
    | inr small ↦
        let (_, down) = add_one s h k in
        let (low, high) = after_down n hn small in
        let (normal, exact) = correlate_lem (s +ℤ negsuc 0) (n +ℤ nanos_per_sec) low high in
        (
          correlate (s +ℤ negsuc 0) (n +ℤ nanos_per_sec),
          rw (below, small, down) refl,
          normal,
          move_down _ _ s n exact,
        )
    | inl above ↦
        let (normal, exact) = correlate_lem s n above below in
        (correlate s n, rw (below, above) refl, normal, exact)
  ]
]

-- Seconds that cannot overflow in a sum.
abbrev pub small_seconds : CelDurTs → Bool
small_seconds d = ltb_ℤ d.seconds (pos (2 ^ 62)) && ltb_ℤ (negsuc (2 ^ 62 - 1)) d.seconds

raw_sum :
    (x y : ℤ)
    → ltb_ℤ x (pos (2 ^ 62)) ≡ true
    → ltb_ℤ (negsuc (2 ^ 62 - 1)) x ≡ true
    → ltb_ℤ y (pos (2 ^ 62)) ≡ true
    → ltb_ℤ (negsuc (2 ^ 62 - 1)) y ≡ true
    → (add_i64 x y ≡ some (x +ℤ y))
      × (sub_i64 x y ≡ some (x -ℤ y))
      × (ltb_ℤ (x +ℤ y) (pos (2 ^ 63 - 1)) ≡ true)
      × (ltb_ℤ (negsuc (2 ^ 63 - 1)) (x +ℤ y) ≡ true)
      × (ltb_ℤ (x -ℤ y) (pos (2 ^ 63 - 1)) ≡ true)
      × (ltb_ℤ (negsuc (2 ^ 63 - 1)) (x -ℤ y) ≡ true)
unfolding ◌+ℤ◌ ◌-ℤ◌
raw_sum x y h1 h2 h3 h4 =
    (ground arith, ground arith, ground arith, ground arith, ground arith, ground arith)

raw_nanos :
    (x y : ℤ)
    → ltb_ℤ x nanos_per_sec ≡ true
    → ltb_ℤ (negsuc (1000000000 - 1)) x ≡ true
    → ltb_ℤ y nanos_per_sec ≡ true
    → ltb_ℤ (negsuc (1000000000 - 1)) y ≡ true
    → (two_seconds (x +ℤ y) ≡ true) × (two_seconds (x -ℤ y) ≡ true)
unfolding ◌+ℤ◌ ◌-ℤ◌
raw_nanos x y h1 h2 h3 h4 = (ground arith, ground arith)

-- `r` is the sum, or the difference, of `a` and `b` in nanoseconds.
abbrev pub IsSum : CelDurTs → CelDurTs → CelDurTs → Bool → Type 0
IsSum r a b true =
    plus_part r + minus_part a + plus_part b ≡ minus_part r + plus_part a + minus_part b
IsSum r a b false =
    plus_part r + minus_part a + minus_part b ≡ minus_part r + plus_part a + plus_part b

parts :
    (d : CelDurTs)
    → is_normal d ≡ true
    → (ltb_ℤ d.nanos nanos_per_sec ≡ true) × (ltb_ℤ (negsuc (1000000000 - 1)) d.nanos ≡ true)
parts d h = (ground arith, ground arith)

bounds :
    (d : CelDurTs)
    → small_seconds d ≡ true
    → (ltb_ℤ d.seconds (pos (2 ^ 62)) ≡ true) × (ltb_ℤ (negsuc (2 ^ 62 - 1)) d.seconds ≡ true)
bounds d h = (ground arith, ground arith)

-- Two normal payloads whose seconds are below 2^62 combine without overflow to a normal payload,
-- which is their exact sum or difference in nanoseconds.
pub dur_combine_exact :
    (a b : CelDurTs) (subtract : Bool)
    → is_normal a ≡ true
    → is_normal b ≡ true
    → small_seconds a ≡ true
    → small_seconds b ≡ true
    → (r : CelDurTs) × (dur_combine a b subtract ≡ some r)
      × (is_normal r ≡ true)
      × IsSum r a b subtract
unfolding dur_combine
dur_combine_exact a b true na nb sa sb =
    let (a1, a2) = parts a na in
    let (b1, b2) = parts b nb in
    let (c1, c2) = bounds a sa in
    let (d1, d2) = bounds b sb in
    let (_, run, _, _, h, k) = raw_sum a.seconds b.seconds c1 c2 d1 d2 in
    let (_, n) = raw_nanos a.nanos b.nanos a1 a2 b1 b2 in
    let (r, e, normal, exact) =
      carry_nanos_lem (a.seconds -ℤ b.seconds) (a.nanos -ℤ b.nanos) h k n in
    (
      r,
      rw (run, dur_combine) e,
      normal,
      omega (arith, exact, -ℤ_parts a.seconds b.seconds, -ℤ_parts a.nanos b.nanos),
    )
dur_combine_exact a b false na nb sa sb =
    let (a1, a2) = parts a na in
    let (b1, b2) = parts b nb in
    let (c1, c2) = bounds a sa in
    let (d1, d2) = bounds b sb in
    let (run, _, h, k, _, _) = raw_sum a.seconds b.seconds c1 c2 d1 d2 in
    let (n, _) = raw_nanos a.nanos b.nanos a1 a2 b1 b2 in
    let (r, e, normal, exact) =
      carry_nanos_lem (a.seconds +ℤ b.seconds) (a.nanos +ℤ b.nanos) h k n in
    (
      r,
      rw (run, dur_combine) e,
      normal,
      omega (arith, exact, +ℤ_parts a.seconds b.seconds, +ℤ_parts a.nanos b.nanos),
    )

-- A smaller count of seconds is an earlier instant.
earlier :
    (s t n k : ℤ)
    → ltb_ℤ s t ≡ true
    → is_normal (record { seconds = s; nanos = n }) ≡ true
    → is_normal (record { seconds = t; nanos = k }) ≡ true
    → pos_part s * 1000000000 + pos_part n + (neg_part t * 1000000000 + neg_part k)
      < pos_part t * 1000000000 + pos_part k + (neg_part s * 1000000000 + neg_part n)
earlier (pos s) (pos t) n k h hn hk = ground arith
earlier (pos s) (negsuc t) n k h hn hk = ground arith
earlier (negsuc s) (pos t) n k h hn hk = ground arith
earlier (negsuc s) (negsuc t) n k h hn hk = ground arith

by_seconds :
    (x y : ℕ) (less : Bool)
    → (if less then x < y else y < x)
    → (if less then negsuc 0 else pos 1)
      ≡ (if ltb x y then negsuc 0 else if ltb y x then pos 1 else pos 0)
by_seconds x y true h = ground arith
by_seconds x y false h = ground arith

not_later : (s t : ℤ) → eqb_ℤ s t ≡ false → ltb_ℤ s t ≡ false → ltb_ℤ t s ≡ true
not_later s t h k = ground arith

same_seconds :
    (s t n k : ℤ)
    → eqb_ℤ s t ≡ true
    → (if not (eqb_ℤ n k) then (if ltb_ℤ n k then negsuc 0 else pos 1) else pos 0) ≡ (
        if ltb
          (pos_part s * 1000000000 + pos_part n + (neg_part t * 1000000000 + neg_part k))
          (pos_part t * 1000000000 + pos_part k + (neg_part s * 1000000000 + neg_part n))
        then negsuc 0
        else if ltb
            (pos_part t * 1000000000 + pos_part k + (neg_part s * 1000000000 + neg_part n))
            (pos_part s * 1000000000 + pos_part n + (neg_part t * 1000000000 + neg_part k))
        then pos 1
        else pos 0)
same_seconds s t n k h = ground arith

-- On normal payloads the lexicographic comparison is that of the instants.
pub dur_compare_lex_exact :
    (a b : CelDurTs)
    → is_normal a ≡ true
    → is_normal b ≡ true
    → dur_compare_lex a b ≡ (
        if ltb (plus_part a + minus_part b) (plus_part b + minus_part a)
        then negsuc 0
        else if ltb (plus_part b + minus_part a) (plus_part a + minus_part b)
        then pos 1
        else pos 0)
unfolding dur_compare_lex
dur_compare_lex_exact a b na nb = elim (Bool-cases (eqb_ℤ a.seconds b.seconds)) [
  | inl e ↦ rw e (same_seconds a.seconds b.seconds a.nanos b.nanos e)
  | inr e ↦ elim (Bool-cases (ltb_ℤ a.seconds b.seconds)) [
    | inl h ↦ rw (e, h) (by_seconds _ _ true (earlier a.seconds b.seconds a.nanos b.nanos h na nb))
    | inr h ↦
        rw (e, h)
          (by_seconds _ _ false
            (earlier b.seconds a.seconds b.nanos a.nanos (not_later a.seconds b.seconds e h) nb na))
  ]
]
