-- ===== src/Runtime/MapIndex/Lanes.antt =====
-- runtime/cel_map_index.c: the loop over a mask visits the marked lanes from the lowest, and what it
-- finds in a group of control bytes.
use cel_spec_wasm.Prelude.{
  ℕ, zero, suc, ◌+◌, ◌-◌, ◌≡◌, ◌≤◌, refl, sym, ap, ◌∙◌, Bool, true, false, ◌&&◌, ◌||◌, not, List,
  [], ◌∷◌, Option, none, some, ◌==◌, Bool-cases, inl, inr, if◌then◌else◌, bit_and, arith, length,
}
use native.Mathlib.Nat.{add-zero, zero-add}
use cel_spec_wasm.Runtime.Value.{CelValue}
use cel_spec_wasm.Runtime.MapIndex.{KeyEq, Index, ctz, ctz_loop, lowest_lane, slot_at, confirm}
use cel_spec_wasm.Runtime.MapIndex.Words.{value}

-- The mask of marked lanes.
abbrev pub marked : List Bool → List ℕ
marked [] = []
marked (b ∷ bs) = (if b then 0x80 else 0) ∷ marked bs

abbrev pub any : List Bool → Bool
any [] = false
any (b ∷ bs) = b || any bs

-- The lowest marked lane, and the lanes without it.
abbrev pub lowest : List Bool → ℕ
lowest [] = 0
lowest (true ∷ bs) = 0
lowest (false ∷ bs) = suc (lowest bs)

abbrev without_lowest : List Bool → List Bool
without_lowest [] = []
without_lowest (true ∷ bs) = false ∷ bs
without_lowest (false ∷ bs) = false ∷ without_lowest bs

-- Every list of `n` Booleans in front of `tail` passes a test.
every : ℕ → (List Bool → Bool) → Bool
every zero p = p []
every (suc n) p = every n (λ bs. p (true ∷ bs)) && every n (λ bs. p (false ∷ bs))

every_sound :
    (n : ℕ) (p : List Bool → Bool) (bs : List Bool) → every n p ≡ true → length bs ≡ n → p bs ≡ true
unfolding every
every_sound zero p [] h e = h
every_sound zero p (b ∷ bs) h e = absurd (omega arith)
every_sound (suc n) p [] h e = absurd (omega arith)
every_sound (suc n) p (true ∷ bs) h e =
    every_sound n (λ cs. p (true ∷ cs)) bs (ground arith) (omega arith)
every_sound (suc n) p (false ∷ bs) h e =
    every_sound n (λ cs. p (false ∷ cs)) bs (ground arith) (omega arith)

mask_law : List Bool → Bool
mask_law bs =
    let mask = value (marked bs) in
    not (any bs)
    || ((lowest_lane mask == lowest bs)
        && (bit_and mask (mask - 1) == value (marked (without_lowest bs))))

mask_table : every 8 mask_law ≡ true
unfolding every mask_law lowest_lane ctz ctz_loop
mask_table = refl

pub mask_lem :
    (bs : List Bool)
    → length bs ≡ 8
    → any bs ≡ true
    → (lowest_lane (value (marked bs)) ≡ lowest bs)
      × (bit_and (value (marked bs)) (value (marked bs) - 1) ≡ value (marked (without_lowest bs)))
unfolding mask_law
mask_lem bs e h =
    let t : mask_law bs ≡ true = every_sound 8 mask_law bs mask_table e in
    (ground arith, ground arith)

pub mask_zero : (bs : List Bool) → (value (marked bs) == 0) ≡ not (any bs)
mask_zero [] = refl
mask_zero (true ∷ bs) = ground arith
mask_zero (false ∷ bs) = ground (arith, mask_zero bs)

abbrev pub marks_in : List Bool → ℕ
marks_in [] = 0
marks_in (b ∷ bs) = (if b then 1 else 0) + marks_in bs

abbrev pub or_else : Option ℕ → Option ℕ → Option ℕ
or_else (some e) o = some e
or_else none o = o

-- The first marked lane that passes a test, from lane `i` on.
abbrev pub scan : (ℕ → Option ℕ) → ℕ → List Bool → Option ℕ
scan test i [] = none
scan test i (b ∷ bs) = or_else (if b then test i else none) (scan test (i + 1) bs)

scan-none : (test : ℕ → Option ℕ) (i : ℕ) (bs : List Bool) → any bs ≡ false → scan test i bs ≡ none
scan-none test i [] h = refl
scan-none test i (true ∷ bs) h = cc
scan-none test i (false ∷ bs) h = scan-none test (i + 1) bs h

scan-lowest :
    (test : ℕ → Option ℕ) (i : ℕ) (bs : List Bool)
    → any bs ≡ true
    → scan test i bs ≡ or_else (test (i + lowest bs)) (scan test i (without_lowest bs))
scan-lowest test i [] h = cc
scan-lowest test i (true ∷ bs) h = rw add-zero refl
scan-lowest test i (false ∷ bs) h =
    scan-lowest test (i + 1) bs h
    ∙ ap (λ t. or_else (test t) (scan test (i + 1) (without_lowest bs))) (next i (lowest bs))
  where
    next : (i k : ℕ) → i + 1 + k ≡ i + suc k
    next i k = omega arith

length-without : (bs : List Bool) → length (without_lowest bs) ≡ length bs
length-without [] = refl
length-without (true ∷ bs) = refl
length-without (false ∷ bs) = ap suc (length-without bs)

marks_in-without :
    (bs : List Bool) → any bs ≡ true → marks_in bs ≡ suc (marks_in (without_lowest bs))
marks_in-without [] h = cc
marks_in-without (true ∷ bs) h = omega arith
marks_in-without (false ∷ bs) h = omega (arith, marks_in-without bs h)

no_marks : (bs : List Bool) → marks_in bs ≡ 0 → any bs ≡ false
no_marks [] h = refl
no_marks (true ∷ bs) h = absurd (omega arith)
no_marks (false ∷ bs) h = no_marks bs (omega arith)

pick :
    (t : Bool) (e : ℕ) (o : Option ℕ)
    → (if t then some e else o) ≡ or_else (if t then some e else none) o
pick true e o = refl
pick false e o = refl

module _ (key_eq : KeyEq) (key_hash : CelValue → ℕ) (entry_key : ℕ → CelValue) where
  -- The entry that the slot at the lane holds, when its key is the one looked for.
  abbrev pub test : Index → CelValue → ℕ → ℕ → Option ℕ
  test idx key seq lane =
      let entry = idx.slots (slot_at idx seq lane) in
      if key_eq (entry_key entry) key then some entry else none

  confirm_step :
      (fuel : ℕ) (idx : Index) (key : CelValue) (seq mask lane rest : ℕ)
      → (mask == 0) ≡ false
      → lowest_lane mask ≡ lane
      → bit_and mask (mask - 1) ≡ rest
      → confirm key_eq key_hash entry_key (suc fuel) idx key seq mask
        ≡ or_else (test idx key seq lane) (confirm key_eq key_hash entry_key fuel idx key seq rest)
  unfolding confirm
  confirm_step fuel idx key seq mask lane rest full low more =
      rw (full, low, more) (pick (key_eq (entry_key (idx.slots (slot_at idx seq lane))) key) _ _)

  pub confirm-scan :
      (fuel : ℕ) (idx : Index) (key : CelValue) (seq : ℕ) (bs : List Bool)
      → length bs ≡ 8
      → marks_in bs ≤ fuel
      → confirm key_eq key_hash entry_key fuel idx key seq (value (marked bs))
        ≡ scan (test idx key seq) 0 bs
  unfolding confirm
  confirm-scan zero idx key seq bs e few =
      sym (scan-none (test idx key seq) 0 bs (no_marks bs (omega arith)))
  confirm-scan (suc fuel) idx key seq bs e few = elim (Bool-cases (any bs)) [
    | inl h ↦
        let (low, more) = mask_lem bs e h in
        let full : (value (marked bs) == 0) ≡ false = mask_zero bs ∙ ap not h in
        let tail =
          confirm-scan fuel idx key seq (without_lowest bs) (length-without bs ∙ e)
            (omega (arith, marks_in-without bs h)) in
        confirm_step fuel idx key seq (value (marked bs)) (lowest bs)
          (value (marked (without_lowest bs))) full low more
        ∙ ap (or_else (test idx key seq (lowest bs))) tail
        ∙ sym (rw zero-add at (scan-lowest (test idx key seq) 0 bs h))
    | inr h ↦
        let clear : (value (marked bs) == 0) ≡ true = mask_zero bs ∙ ap not h in
        rw clear (sym (scan-none (test idx key seq) 0 bs h))
  ]
