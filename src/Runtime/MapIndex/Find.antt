-- ===== src/Runtime/MapIndex/Find.antt =====
-- runtime/cel_map_index.c: a table that is filled with entries of different keys answers as the
-- linear scan over the entries does.
use cel_spec_wasm.Prelude.{
  ℕ, zero, suc, ◌+◌, ◌-◌, ◌*◌, ◌/◌, ◌%◌, ◌^◌, ◌≡◌, ◌<◌, ◌≤◌, sym, ap, ap₂, ◌∙◌, true, false, ◌==◌,
  ==_iff, Bool-cases, inl, inr, if◌then◌else◌, bit_and, arith,
}
use mathlib.Core.Path.{subst}
use cel_spec_wasm.Prelude.Bits.{bit_and-mask}
use cel_spec_wasm.Runtime.Value.{CelValue, u32}
use cel_spec_wasm.Runtime.MapKey.{load, cel_h1, cel_h2}
use cel_spec_wasm.Runtime.MapIndex.{
  KeyEq, Index, Probe, found, absent, group_match_empty, first_seq,
}
use cel_spec_wasm.Runtime.MapIndex.Triangle.{tri}
use cel_spec_wasm.Runtime.MapIndex.Path.{slots_of, seq_at, slots_eq, visits}
use cel_spec_wasm.Runtime.MapIndex.Walk.{hit, stop, walk, IsTable}
use cel_spec_wasm.Runtime.MapIndex.Ends.{walk-stop, walk-hit}
use cel_spec_wasm.Runtime.MapIndex.Build.{Filled}

no_step : (x : ℕ) → x ≡ x + 8 * 0
no_step x = omega arith

module _ (key_eq : KeyEq) (key_hash : CelValue → ℕ) (entry_key : ℕ → CelValue) where
  -- The scan that a map without an index is given: `n` entries from `i` on.
  unfoldable pub scan_entries : CelValue → ℕ → ℕ → Probe
  scan_entries key i zero = absent
  scan_entries key i (suc n) =
      if key_eq (entry_key i) key then found i else scan_entries key (i + 1) n

  -- None of the first `n` entries has the key.
  abbrev pub Unmatched : CelValue → ℕ → Type 0
  Unmatched key n = (e : ℕ) → e < n → key_eq (entry_key e) key ≡ false

  -- No two entries have the same key.
  abbrev pub Distinct : ℕ → Type 0
  Distinct count = (i : ℕ) → i < count → Unmatched (entry_key i) i

  -- What a key and the entries it may equal satisfy.
  pub record Lawful (count : ℕ) (key : CelValue) : Type 0 where
    pub same_hash :
        (e : ℕ)
        → e < count
        → key_eq (entry_key e) key ≡ true
        → key_hash (entry_key e) ≡ key_hash key
    pub euclid :
        (e e' : ℕ)
        → e < count
        → e' < count
        → key_eq (entry_key e) key ≡ true
        → key_eq (entry_key e') key ≡ true
        → key_eq (entry_key e) (entry_key e') ≡ true

  pub data Scanned (key : CelValue) (i n : ℕ) : Probe → Type 0 where
    missing :
        ((e : ℕ) → i ≤ e → e < i + n → key_eq (entry_key e) key ≡ false) → Scanned key i n absent
    present :
        {e : ℕ}
        → i ≤ e
        → e < i + n
        → key_eq (entry_key e) key ≡ true
        → ((e' : ℕ) → i ≤ e' → e' < e → key_eq (entry_key e') key ≡ false)
        → Scanned key i n (found e)

  at_or_later :
      (key : CelValue) (i e : ℕ)
      → i ≤ e
      → key_eq (entry_key i) key ≡ false
      → (i + 1 ≤ e → key_eq (entry_key e) key ≡ false)
      → key_eq (entry_key e) key ≡ false
  at_or_later key i e le miss later = elim (Bool-cases (e == i)) [
    | inl same ↦
        let here : i ≡ e = sym ((==_iff e i).0 same) in
        subst (λ x. key_eq (entry_key x) key ≡ false) here miss
    | inr other ↦ later (ground arith)
  ]

  Scanned-step :
      (key : CelValue) (i n : ℕ) (r : Probe)
      → key_eq (entry_key i) key ≡ false
      → Scanned key (i + 1) n r
      → Scanned key i (suc n) r
  Scanned-step key i n r miss (missing none_match) =
      missing λ e le lt. at_or_later key i e le miss (λ next. none_match e next (omega arith))
  Scanned-step key i n r miss (present le lt match first) =
      present (omega arith) (omega arith) match
        λ e' le' lt'. at_or_later key i e' le' miss (λ next. first e' next lt')

  pub scan-Scanned : (key : CelValue) (i n : ℕ) → Scanned key i n (scan_entries key i n)
  unfolding scan_entries
  scan-Scanned key i zero = missing (λ e le lt. absurd (omega arith))
  scan-Scanned key i (suc n) = elim (Bool-cases (key_eq (entry_key i) key)) [
    | inl e ↦ rw e (present (omega arith) (omega arith) e (λ e' le lt. absurd (omega arith)))
    | inr e ↦
        rw e (Scanned-step key i n (scan_entries key (i + 1) n) e (scan-Scanned key (i + 1) n))
  ]

  module _ (idx : Index) (m n : ℕ) (f : Filled key_eq key_hash entry_key idx m n) where
    abbrev tb : IsTable key_eq key_hash entry_key idx m n
    tb = f.table

    first_seq-seq_at :
        (key : CelValue) → first_seq key_hash idx key ≡ seq_at m (cel_h1 (key_hash key)) 0
    unfolding first_seq seq_at tri
    first_seq-seq_at key =
        ap (λ n. bit_and (cel_h1 (key_hash key)) (n - 1)) tb.size
        ∙ bit_and-mask (m + 3) (cel_h1 (key_hash key))
        ∙ ap (λ x. x % slots_of m) (no_step (cel_h1 (key_hash key)))

    groups : idx.num_slots / 8 ≡ 2 ^ m
    groups = omega (arith, tb.size, slots_eq m)

    pub walk_from :
        (key : CelValue)
        → walk key_eq key_hash entry_key (idx.num_slots / 8) idx key (first_seq key_hash idx key) 8
          ≡ walk key_eq key_hash entry_key
              (2 ^ m)
              idx
              key
              (seq_at m (cel_h1 (key_hash key)) 0)
              (u32 (8 * 1))
    walk_from key =
        ap₂ (λ fuel seq. walk key_eq key_hash entry_key fuel idx key seq 8) groups
          (first_seq-seq_at key)

    -- The walk for a key that no entry has.
    pub stops :
        (key : CelValue)
        → Unmatched key n
        → (u : ℕ) × (walk key_eq key_hash entry_key
              (2 ^ m)
              idx
              key
              (seq_at m (cel_h1 (key_hash key)) 0)
              (u32 (8 * 1))
            ≡ stop (seq_at m (cel_h1 (key_hash key)) u))
          × (u < 0 + 2 ^ m)
          × ((group_match_empty (load idx.ctrl 8 (seq_at m (cel_h1 (key_hash key)) u)) == 0)
              ≡ false)
          × ((t' l' : ℕ)
              → t' < u
              → l' < 8
              → idx.ctrl ((seq_at m (cel_h1 (key_hash key)) t' + l') % slots_of m) < 128)
    stops key none_match =
        let (s, hs, was) = tb.room in
        let (t, l, ht, hl, here) = visits m (cel_h1 (key_hash key)) s hs in
        walk-stop key_eq key_hash entry_key idx m n tb key (cel_h1 (key_hash key)) t l (2 ^ m) 0
          none_match (ap idx.ctrl here ∙ was) hl (omega arith) (omega arith)
          (λ t' l' ht' hl'. absurd (omega arith))

    -- The walk for a key that one entry has.
    pub hits :
        (key : CelValue) (e : ℕ)
        → e < n
        → key_eq (entry_key e) key ≡ true
        → key_hash (entry_key e) ≡ key_hash key
        → ((e' : ℕ) → e' < n → key_eq (entry_key e') key ≡ true → e' ≡ e)
        → walk key_eq key_hash entry_key
            (2 ^ m)
            idx
            key
            (seq_at m (cel_h1 (key_hash key)) 0)
            (u32 (8 * 1))
          ≡ hit e
    hits key e he match same only =
        let (t, l, ht, hl, slot, byte, before) = tb.reach e he in
        subst
          (λ x.
            walk key_eq key_hash entry_key (2 ^ m) idx key (seq_at m (cel_h1 x) 0) (u32 (8 * 1))
            ≡ hit e)
          same
          (walk-hit key_eq key_hash entry_key idx m n tb key (cel_h1 (key_hash (entry_key e))) t l e
            (2 ^ m) 0 only match slot (byte ∙ ap cel_h2 same) before hl (omega arith) (omega arith))
