-- ===== src/Runtime/MapIndex/Build.antt =====
-- runtime/cel_map_index.c: an entry that is placed keeps the table well formed.
use cel_spec_wasm.Prelude.{
  ℕ, zero, suc, ◌+◌, ◌%◌, ◌^◌, ◌≡◌, ◌<◌, ◌≤◌, refl, sym, ap, ap₂, ◌∙◌, true, false, ltb, ◌==◌,
  ==_iff, Bool-cases, inl, inr, if◌then◌else◌, arith,
}
use native.Mathlib.Nat.{mod-lt}
use mathlib.Core.Path.{subst}
use cel_spec_wasm.Runtime.Value.{CelValue}
use cel_spec_wasm.Runtime.MapKey.{cel_h1, cel_h2}
use cel_spec_wasm.Runtime.MapIndex.{KeyEq, Index, fill, empty}
use cel_spec_wasm.Runtime.MapIndex.Group.{h2-lt}
use cel_spec_wasm.Runtime.MapIndex.Path.{slots_of, seq_at, slots_pos}
use cel_spec_wasm.Runtime.MapIndex.Walk.{IsTable}

-- How many of the first `k` slots are full.
unfoldable pub full_slots : (ℕ → ℕ) → ℕ → ℕ
full_slots ctrl zero = 0
full_slots ctrl (suc k) = (if ltb (ctrl k) 128 then 1 else 0) + full_slots ctrl k

full_slots-room :
    (ctrl : ℕ → ℕ) (k : ℕ)
    → ((b : ℕ) → ctrl b ≤ 128)
    → full_slots ctrl k < k
    → (s : ℕ) × (s < k) × (ctrl s ≡ empty)
unfolding full_slots
full_slots-room ctrl zero ok h = absurd (omega arith)
full_slots-room ctrl (suc k) ok h = elim (Bool-cases (ltb (ctrl k) 128)) [
  | inr e ↦ (k, omega arith, ground (arith, ok k))
  | inl e ↦ let (s, lt, eq) = full_slots-room ctrl k ok (ground arith) in (s, omega arith, eq)
]

full_slots-same :
    (f g : ℕ → ℕ) (k : ℕ) → ((s : ℕ) → s < k → f s ≡ g s) → full_slots f k ≡ full_slots g k
unfolding full_slots
full_slots-same f g zero same = refl
full_slots-same f g (suc k) same =
    ap₂ (λ x y. (if ltb x 128 then 1 else 0) + y) (same k (omega arith))
      (full_slots-same f g k (λ s lt. same s (omega arith)))

-- One slot that was empty is full.
full_slots-fill :
    (f g : ℕ → ℕ) (k s : ℕ)
    → s < k
    → f s ≡ 128
    → g s < 128
    → ((x : ℕ) → x < k → (x == s) ≡ false → g x ≡ f x)
    → full_slots g k ≡ suc (full_slots f k)
unfolding full_slots
full_slots-fill f g zero s lt was now same = absurd (omega arith)
full_slots-fill f g (suc k) s lt was now same = elim (Bool-cases (k == s)) [
  | inl e ↦
      let here : k ≡ s = (==_iff k s).0 e in
      let rest = full_slots-same g f k (λ x below. same x (omega arith) (ground arith)) in
      let was' : f k ≡ 128 = ap f here ∙ was in
      let now' : g k < 128 = subst (λ x. g x < 128) (sym here) now in ground arith
  | inr e ↦
      let rest =
        full_slots-fill f g k s (ground arith) was now (λ x below ne. same x (omega arith) ne) in
      let at_k = same k (omega arith) e in ground arith
]

module _ (key_eq : KeyEq) (key_hash : CelValue → ℕ) (entry_key : ℕ → CelValue) where
  fill_ctrl :
      (idx : Index) (m s h2 i x : ℕ)
      → idx.num_slots ≡ slots_of m
      → s < slots_of m
      → x < slots_of m
      → (fill idx s h2 i).ctrl x ≡ (if x == s then h2 else idx.ctrl x)
  fill_ctrl idx m s h2 i x size hs hx = ground arith

  fill_mirror :
      (idx : Index) (m s h2 i l : ℕ)
      → idx.num_slots ≡ slots_of m
      → s < slots_of m
      → l < 7
      → 8 ≤ slots_of m
      → idx.ctrl (slots_of m + l) ≡ idx.ctrl l
      → (fill idx s h2 i).ctrl (slots_of m + l) ≡ (fill idx s h2 i).ctrl l
  fill_mirror idx m s h2 i l size hs hl big old = ground arith

  -- A table, with the number of its full slots.
  pub record Filled (idx : Index) (m n : ℕ) : Type 0 where
    pub table : IsTable key_eq key_hash entry_key idx m n
    pub count : full_slots idx.ctrl (slots_of m) ≡ n

  module _ (idx : Index) (m n u l : ℕ) (f : Filled idx m n) where
    abbrev tb : IsTable key_eq key_hash entry_key idx m n
    tb = f.table

    abbrev h : ℕ
    h = cel_h1 (key_hash (entry_key n))

    abbrev h2 : ℕ
    h2 = cel_h2 (key_hash (entry_key n))

    abbrev s : ℕ
    s = (seq_at m h u + l) % slots_of m

    abbrev next : Index
    next = fill idx s h2 n

    s-lt : s < slots_of m
    s-lt = mod-lt (seq_at m h u + l) (omega (arith, slots_pos m))

    spot-lt : (g t k : ℕ) → (seq_at m g t + k) % slots_of m < slots_of m
    spot-lt g t k = mod-lt (seq_at m g t + k) (omega (arith, slots_pos m))

    next_ctrl : (x : ℕ) → x < slots_of m → next.ctrl x ≡ (if x == s then h2 else idx.ctrl x)
    next_ctrl x hx = fill_ctrl idx m s h2 n x tb.size s-lt hx

    stays_full : (x : ℕ) → x < slots_of m → idx.ctrl x < 128 → next.ctrl x < 128
    stays_full x hx full =
        let now = next_ctrl x hx in let byte = h2-lt (key_hash (entry_key n)) in ground arith

    -- A full slot is not the one that was empty.
    apart : (x : ℕ) → idx.ctrl s ≡ 128 → idx.ctrl x < 128 → (x == s) ≡ false
    apart x was full = elim (Bool-cases (x == s)) [
      | inr e ↦ e
      | inl e ↦ let here : x ≡ s = (==_iff x s).0 e in absurd (omega (arith, ap idx.ctrl here))
    ]

    fill_count : idx.ctrl s ≡ 128 → full_slots next.ctrl (slots_of m) ≡ suc n
    fill_count was =
        let now = next_ctrl s s-lt in
        let byte = h2-lt (key_hash (entry_key n)) in
        full_slots-fill idx.ctrl next.ctrl (slots_of m) s s-lt was (ground arith)
          (λ x hx ne. let now_x = next_ctrl x hx in ground arith)
        ∙ ap suc f.count

    fill_ok : (b : ℕ) → next.ctrl b ≤ 128
    fill_ok b = let byte = h2-lt (key_hash (entry_key n)) in let old = tb.ok b in ground arith

    -- Where the probe for the entry `e` comes to, in the table `i`.
    abbrev Reached : Index → ℕ → Type 0
    Reached i e =
        (t : ℕ) × (k : ℕ) × (t < 2 ^ m)
        × (k < 8)
        × (i.slots ((seq_at m (cel_h1 (key_hash (entry_key e))) t + k) % slots_of m) ≡ e)
        × (i.ctrl ((seq_at m (cel_h1 (key_hash (entry_key e))) t + k) % slots_of m)
            ≡ cel_h2 (key_hash (entry_key e)))
        × ((t' k' : ℕ)
            → t' < t
            → k' < 8
            → i.ctrl ((seq_at m (cel_h1 (key_hash (entry_key e))) t' + k') % slots_of m) < 128)

    old_reach : (e : ℕ) → idx.ctrl s ≡ 128 → e < n → Reached next e
    old_reach e was he =
        let g = cel_h1 (key_hash (entry_key e)) in
        let (t, k, ht, hk, slot, byte, full) = tb.reach e he in
        let x = (seq_at m g t + k) % slots_of m in
        let byte_small = h2-lt (key_hash (entry_key e)) in
        let other : (x == s) ≡ false = apart x was (omega arith) in
        (
          t,
          k,
          ht,
          hk,
          rw other slot,
          next_ctrl x (spot-lt g t k) ∙ ap (λ b. if b then h2 else idx.ctrl x) other ∙ byte,
          λ t' k' ht' hk'.
              stays_full ((seq_at m g t' + k') % slots_of m) (spot-lt g t' k') (full t' k' ht' hk'),
        )

    new_reach :
        l < 8
        → u < 2 ^ m
        → ((t' l' : ℕ) → t' < u → l' < 8 → idx.ctrl ((seq_at m h t' + l') % slots_of m) < 128)
        → Reached next n
    new_reach hl hu before =
        let self : (s == s) ≡ true = (==_iff s s).1 refl in
        (
          u,
          l,
          hu,
          hl,
          rw self refl,
          next_ctrl s s-lt ∙ ap (λ b. if b then h2 else idx.ctrl s) self,
          λ t' k' ht' hk'.
              stays_full ((seq_at m h t' + k') % slots_of m) (spot-lt h t' k')
                (before t' k' ht' hk'),
        )

    fill_reach :
        l < 8
        → u < 2 ^ m
        → idx.ctrl s ≡ 128
        → ((t' l' : ℕ) → t' < u → l' < 8 → idx.ctrl ((seq_at m h t' + l') % slots_of m) < 128)
        → (e : ℕ) → e < n + 1
        → Reached next e
    fill_reach hl hu was before e he = elim (Bool-cases (ltb e n)) [
      | inl old ↦ old_reach e was (ground arith)
      | inr new ↦
          let here : n ≡ e = ground arith in subst (Reached next) here (new_reach hl hu before)
    ]

    pub fill-Filled :
        l < 8
        → u < 2 ^ m
        → idx.ctrl s ≡ 128
        → ((t' l' : ℕ) → t' < u → l' < 8 → idx.ctrl ((seq_at m h t' + l') % slots_of m) < 128)
        → n + 1 < slots_of m
        → Filled next m (n + 1)
    fill-Filled hl hu was before few =
        let counted : full_slots next.ctrl (slots_of m) ≡ n + 1 = omega (arith, fill_count was) in
        record {
          table = record {
            size = tb.size;
            small = tb.small;
            ok = fill_ok;
            mirror =
                λ k hk. fill_mirror idx m s h2 n k tb.size s-lt hk (slots_pos m) (tb.mirror k hk);
            held = λ x hx full.
                let now = next_ctrl x hx in
                elim (Bool-cases (x == s)) [
                  | inl e ↦ ground arith
                  | inr e ↦ let old = tb.held x hx (ground arith) in ground arith
                ];
            reach = fill_reach hl hu was before;
            room = full_slots-room next.ctrl (slots_of m) fill_ok (omega arith);
          };
          count = counted;
        }
