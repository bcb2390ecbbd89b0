-- ===== src/Runtime/MapIndex/Group.antt =====
-- runtime/cel_map_index.c: what one group of the probe tells. A candidate is a full slot whose key
-- is confirmed, a group without candidates holds no slot with the hash byte and the key, and the
-- empty mask finds an empty slot if there is one.
use cel_spec_wasm.Prelude.{
  ℕ, zero, suc, ◌+◌, ◌≡◌, ◌<◌, ◌≤◌, refl, sym, ap, ◌∙◌, Bool, true, false, List, [], ◌∷◌, Option,
  none, some, leb, ◌==◌, ==_iff, Bool-cases, inl, inr, ◌⊎◌, if◌then◌else◌, arith, All, length,
}
use Prim.Native.Nat.{bit_xor}
use native.Mathlib.Nat.{add-zero, zero-add}
use mathlib.Core.Option.{some-injective}
use cel_spec_wasm.Prelude.Bits.{bit_and-low, agree, agree-eq}
use cel_spec_wasm.Runtime.Value.{CelValue}
use cel_spec_wasm.Runtime.MapKey.{load, cel_h2}
use cel_spec_wasm.Runtime.MapIndex.{
  KeyEq, Index, group_match, group_match_empty, lowest_lane, slot_at, candidates,
}
use cel_spec_wasm.Runtime.MapIndex.Words.{value, window, load-window, flags}
use cel_spec_wasm.Runtime.MapIndex.Swar.{
  xors, length-xors, marks, group_match-flags, group_match_empty-marks,
}
use cel_spec_wasm.Runtime.MapIndex.Lanes.{
  marked, any, lowest, marks_in, mask_zero, mask_lem, or_else, scan, test, confirm-scan,
}

abbrev flag_lanes : ℕ → List ℕ → List Bool
flag_lanes b [] = []
flag_lanes b (x ∷ xs) = leb x b ∷ flag_lanes (if leb x b then 1 else 0) xs

abbrev empty_lanes : List ℕ → List Bool
empty_lanes [] = []
empty_lanes (c ∷ cs) = (c == 0x80) ∷ empty_lanes cs

flags-marked : (b : ℕ) (xs : List ℕ) → flags b xs ≡ marked (flag_lanes b xs)
unfolding flags
flags-marked b [] = refl
flags-marked b (x ∷ xs) =
    ap (λ t. (if leb x b then 0x80 else 0) ∷ t) (flags-marked (if leb x b then 1 else 0) xs)

marks-marked : (cs : List ℕ) → marks cs ≡ marked (empty_lanes cs)
unfolding marks
marks-marked [] = refl
marks-marked (c ∷ cs) = ap (λ t. (if c == 0x80 then 0x80 else 0) ∷ t) (marks-marked cs)

length-flag_lanes : (b : ℕ) (xs : List ℕ) → length (flag_lanes b xs) ≡ length xs
length-flag_lanes b [] = refl
length-flag_lanes b (x ∷ xs) = ap suc (length-flag_lanes (if leb x b then 1 else 0) xs)

length-empty_lanes : (cs : List ℕ) → length (empty_lanes cs) ≡ length cs
length-empty_lanes [] = refl
length-empty_lanes (c ∷ cs) = ap suc (length-empty_lanes cs)

length-window : (f : ℕ → ℕ) (n p : ℕ) → length (window f n p) ≡ n
length-window f zero p = refl
length-window f (suc n) p = ap suc (length-window f n (p + 1))

All-window : (P : ℕ → Type 0) (f : ℕ → ℕ) (n p : ℕ) → ((q : ℕ) → P (f q)) → All P (window f n p)
All-window P f zero p h = tt
All-window P f (suc n) p h = (h p, All-window P f n (p + 1) h)

marks_in-le : (bs : List Bool) → marks_in bs ≤ length bs
marks_in-le [] = omega arith
marks_in-le (true ∷ bs) = omega (arith, marks_in-le bs)
marks_in-le (false ∷ bs) = omega (arith, marks_in-le bs)

top_set : (h2 : ℕ) → h2 < 128 → bit_xor 128 h2 ≡ 128 + h2
unfolding agree
top_set h2 h = agree-eq (λ t. bit_xor 128 t) (λ t. 128 + t) 128 h2 refl h

-- A byte of a hash differs from every empty byte in its top bit, and agrees with itself.
xor-full : (c h2 : ℕ) → h2 < 128 → bit_xor c h2 ≤ 1 → c ≤ 128 → c < 128
xor-full c h2 hh hx hc = elim (Bool-cases (c == 128)) [
  | inl e ↦
      let e' : c ≡ 128 = (==_iff c 128).0 e in
      absurd (omega (arith, top_set h2 hh, ap (λ (t : ℕ). bit_xor t h2) e'))
  | inr e ↦ ground arith
]

xor_self : (h2 : ℕ) → h2 < 128 → bit_xor h2 h2 ≡ 0
unfolding agree
xor_self h2 h = agree-eq (λ t. bit_xor t t) (λ t. 0) 128 h2 refl h

small_flag : (x b : ℕ) → (if leb x b then 1 else 0) ≤ 1
small_flag x b = ground arith

shift_lane : (i l : ℕ) → i + 1 + l ≡ i + suc l
shift_lane i l = omega arith

either :
    (t : Bool) (o rest : Option ℕ) (e : ℕ)
    → or_else (if t then o else none) rest ≡ some e
    → ((t ≡ true) × (o ≡ some e)) ⊎ (rest ≡ some e)
either true none rest e h = inr h
either true (some x) rest e h = inl (refl, h)
either false o rest e h = inr h

neither :
    (t : Bool) (o rest : Option ℕ)
    → or_else (if t then o else none) rest ≡ none
    → (t ≡ true → o ≡ none) × (rest ≡ none)
neither true none rest h = (λ _. refl, h)
neither true (some x) rest h = cc
neither false o rest h = (λ e. cc, h)

module _ (ctrl : ℕ → ℕ) (h2 : ℕ) (tst : ℕ → Option ℕ) where
  scan-some :
      (n b p i e : ℕ)
      → b ≤ 1
      → scan tst i (flag_lanes b (xors h2 (window ctrl n p))) ≡ some e
      → (l : ℕ) × (l < n) × (tst (i + l) ≡ some e) × (bit_xor (ctrl (p + l)) h2 ≤ 1)
  unfolding xors
  scan-some zero b p i e hb h = cc
  scan-some (suc n) b p i e hb h =
      let flag = leb (bit_xor (ctrl p) h2) b in
      let rest =
        scan tst (i + 1) (flag_lanes (if flag then 1 else 0) (xors h2 (window ctrl n (p + 1)))) in
      elim (either flag (tst i) rest e h) [
        | inl (marked_here, hit) ↦ (0, omega arith, rw add-zero hit, rw add-zero (ground arith))
        | inr later ↦
            let (l, lt, hit, small) =
              scan-some n (if flag then 1 else 0) (p + 1) (i + 1) e
                (small_flag (bit_xor (ctrl p) h2) b) later in
            (suc l, omega arith, rw shift_lane at hit, rw shift_lane at small)
      ]

  scan-none :
      (n b p i l : ℕ)
      → h2 < 128
      → scan tst i (flag_lanes b (xors h2 (window ctrl n p))) ≡ none
      → l < n
      → ctrl (p + l) ≡ h2
      → tst (i + l) ≡ none
  unfolding xors
  scan-none zero b p i l hh h lt e = absurd (omega arith)
  scan-none (suc n) b p i zero hh h lt e =
      let flag = leb (bit_xor (ctrl p) h2) b in
      let rest =
        scan tst (i + 1) (flag_lanes (if flag then 1 else 0) (xors h2 (window ctrl n (p + 1)))) in
      let here : ctrl p ≡ h2 = rw add-zero at e in
      let same : bit_xor (ctrl p) h2 ≡ 0 = ap (λ t. bit_xor t h2) here ∙ xor_self h2 hh in
      rw add-zero ((neither flag (tst i) rest h).0 (ground arith))
  scan-none (suc n) b p i (suc l) hh h lt e =
      let flag = leb (bit_xor (ctrl p) h2) b in
      let rest =
        scan tst (i + 1) (flag_lanes (if flag then 1 else 0) (xors h2 (window ctrl n (p + 1)))) in
      rw (← shift_lane i l) (
        scan-none n (if flag then 1 else 0) (p + 1) (i + 1) l hh ((neither flag (tst i) rest h).1)
          (omega arith) (rw (shift_lane p l) e))

pub h2-lt : (h : ℕ) → cel_h2 h < 128
unfolding cel_h2
h2-lt h = omega (arith, bit_and-low h)

lowest_step :
    (ctrl : ℕ → ℕ) (n p : ℕ) (bs : List Bool) (t : Bool)
    → (ctrl p == 0x80) ≡ t
    → (any bs ≡ true → (lowest bs < n) × (ctrl (p + 1 + lowest bs) ≡ 0x80))
    → any (t ∷ bs) ≡ true
    → (lowest (t ∷ bs) < suc n) × (ctrl (p + lowest (t ∷ bs)) ≡ 0x80)
lowest_step ctrl n p bs true e later h = (omega arith, rw add-zero ((==_iff (ctrl p) 0x80).0 e))
lowest_step ctrl n p bs false e later h =
    let (lt, eq) = later h in (omega arith, rw (← shift_lane p (lowest bs)) eq)

lowest-empty :
    (ctrl : ℕ → ℕ) (n p : ℕ)
    → any (empty_lanes (window ctrl n p)) ≡ true
    → (lowest (empty_lanes (window ctrl n p)) < n)
      × (ctrl (p + lowest (empty_lanes (window ctrl n p))) ≡ 0x80)
lowest-empty ctrl zero p h = cc
lowest-empty ctrl (suc n) p h =
    lowest_step ctrl n p (empty_lanes (window ctrl n (p + 1))) (ctrl p == 0x80) refl
      (lowest-empty ctrl n (p + 1)) h

none-empty :
    (ctrl : ℕ → ℕ) (n p l : ℕ)
    → any (empty_lanes (window ctrl n p)) ≡ false
    → l < n
    → (ctrl (p + l) == 0x80) ≡ false
none-empty ctrl zero p l h lt = absurd (omega arith)
none-empty ctrl (suc n) p zero h lt = rw add-zero (ground arith)
none-empty ctrl (suc n) p (suc l) h lt =
    rw (← shift_lane p l) (none-empty ctrl n (p + 1) l (ground arith) (omega arith))

module _ (idx : Index) (ok : (b : ℕ) → idx.ctrl b ≤ 128) (seq : ℕ) where
  abbrev bytes : List ℕ
  bytes = window idx.ctrl 8 seq

  empty_mask : group_match_empty (load idx.ctrl 8 seq) ≡ value (marked (empty_lanes bytes))
  empty_mask =
      ap group_match_empty (load-window idx.ctrl 8 seq)
      ∙ group_match_empty-marks bytes (All-window (λ c. c ≤ 128) idx.ctrl 8 seq ok)
          (length-window idx.ctrl 8 seq)
      ∙ ap value (marks-marked bytes)

  -- A group without an empty mask has no empty slot.
  pub full_group :
      (l : ℕ)
      → (group_match_empty (load idx.ctrl 8 seq) == 0) ≡ true
      → l < 8
      → (idx.ctrl (seq + l) == 0x80) ≡ false
  full_group l h lt =
      none-empty idx.ctrl 8 seq l
        (ground (arith, rw empty_mask at h, mask_zero (empty_lanes bytes))) lt

  -- The lowest lane of the empty mask is an empty slot.
  pub empty_lane :
      (group_match_empty (load idx.ctrl 8 seq) == 0) ≡ false
      → (lowest_lane (group_match_empty (load idx.ctrl 8 seq)) < 8)
        × (idx.ctrl (seq + lowest_lane (group_match_empty (load idx.ctrl 8 seq))) ≡ 0x80)
  empty_lane h =
      let some_empty : any (empty_lanes bytes) ≡ true =
        ground (arith, rw empty_mask at h, mask_zero (empty_lanes bytes)) in
      let low =
        (mask_lem (empty_lanes bytes) (length-empty_lanes bytes ∙ length-window idx.ctrl 8 seq)
          some_empty).0 in
      rw (empty_mask, low) (lowest-empty idx.ctrl 8 seq some_empty)

passes : (t : Bool) (x e : ℕ) → (if t then some x else none) ≡ some e → (t ≡ true) × (x ≡ e)
passes true x e h = (refl, some-injective x e h)
passes false x e h = cc

fails : (t : Bool) (x : ℕ) → (if t then some x else none) ≡ none → t ≡ false
fails true x h = cc
fails false x h = refl

module _ (key_eq : KeyEq) (key_hash : CelValue → ℕ) (entry_key : ℕ → CelValue) where
  abbrev found_in : Index → ℕ → CelValue → Option ℕ
  found_in idx seq key =
      scan (test key_eq key_hash entry_key idx key seq) 0
        (flag_lanes 0 (xors (cel_h2 (key_hash key)) (window idx.ctrl 8 seq)))

  candidates-scan :
      (idx : Index) (seq : ℕ) (key : CelValue)
      → ((b : ℕ) → idx.ctrl b ≤ 128)
      → candidates key_eq key_hash entry_key idx key seq ≡ found_in idx seq key
  unfolding candidates
  candidates-scan idx seq key ok =
      let h2 = cel_h2 (key_hash key) in
      let bs = flag_lanes 0 (xors h2 (window idx.ctrl 8 seq)) in
      let eight : length bs ≡ 8 =
        length-flag_lanes 0 (xors h2 (window idx.ctrl 8 seq))
        ∙ length-xors h2 (window idx.ctrl 8 seq)
        ∙ length-window idx.ctrl 8 seq in
      let mask : group_match (load idx.ctrl 8 seq) h2 ≡ value (marked bs) =
        ap (λ t. group_match t h2) (load-window idx.ctrl 8 seq)
        ∙ group_match-flags h2 (window idx.ctrl 8 seq) (omega (arith, h2-lt (key_hash key)))
            (All-window (λ c. c < 256) idx.ctrl 8 seq (λ q. omega (arith, ok q)))
            (length-window idx.ctrl 8 seq)
        ∙ ap value (flags-marked 0 (xors h2 (window idx.ctrl 8 seq))) in
      rw mask (
        confirm-scan key_eq key_hash entry_key 8 idx key seq bs eight
          (omega (arith, marks_in-le bs)))

  -- A candidate is the entry of a full slot of the group, and its key is confirmed.
  pub candidates-some :
      (idx : Index) (seq e : ℕ) (key : CelValue)
      → ((b : ℕ) → idx.ctrl b ≤ 128)
      → candidates key_eq key_hash entry_key idx key seq ≡ some e
      → (l : ℕ) × (l < 8)
        × (idx.slots (slot_at idx seq l) ≡ e)
        × (key_eq (entry_key e) key ≡ true)
        × (idx.ctrl (seq + l) < 128)
  candidates-some idx seq e key ok h =
      let h2 = cel_h2 (key_hash key) in
      let (l, lt, hit, small) =
        scan-some idx.ctrl h2 (test key_eq key_hash entry_key idx key seq) 8 0 seq 0 e (omega arith)
          (sym (candidates-scan idx seq key ok) ∙ h) in
      let entry = idx.slots (slot_at idx seq l) in
      let (confirmed, same) = passes (key_eq (entry_key entry) key) entry e (rw zero-add at hit) in
      (
        l,
        lt,
        same,
        rw (← same) confirmed,
        xor-full (idx.ctrl (seq + l)) h2 (h2-lt (key_hash key)) small (ok (seq + l)),
      )

  -- When a group has no candidate, its slots with the hash byte have other keys.
  pub candidates-none :
      (idx : Index) (seq l : ℕ) (key : CelValue)
      → ((b : ℕ) → idx.ctrl b ≤ 128)
      → candidates key_eq key_hash entry_key idx key seq ≡ none
      → l < 8
      → idx.ctrl (seq + l) ≡ cel_h2 (key_hash key)
      → key_eq (entry_key (idx.slots (slot_at idx seq l))) key ≡ false
  candidates-none idx seq l key ok h lt e =
      let h2 = cel_h2 (key_hash key) in
      fails (key_eq (entry_key (idx.slots (slot_at idx seq l))) key) (idx.slots (slot_at idx seq l))
        (rw zero-add at (
          scan-none idx.ctrl h2 (test key_eq key_hash entry_key idx key seq) 8 0 seq 0 l
            (h2-lt (key_hash key)) (sym (candidates-scan idx seq key ok) ∙ h) lt e))
