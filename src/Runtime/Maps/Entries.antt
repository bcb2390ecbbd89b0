-- ===== src/Runtime/Maps/Entries.antt =====
-- runtime/cel_runtime.c: the entries of a map as a list, and what the loop over them finds.
use cel_spec_wasm.Prelude.{
  ℕ, suc, ◌+◌, ◌*◌, ◌^◌, ◌≡◌, ◌<◌, ◌≤◌, refl, sym, ap, ◌∙◌, true, false, Bool-cases, Option, none,
  some, List, [], ◌∷◌, ◌++◌, length, inl, inr, if◌then◌else◌, arith, ==_iff, ◌==◌,
}
use mathlib.Core.Path.{subst}
use cel_spec_wasm.Runtime.Value.{CelValue, bool, int, uint, string, kind}
use cel_spec_wasm.Runtime.MapKey.Euclid.{Stored, bool_key, int_key, uint_key, string_key}
use cel_spec_wasm.Runtime.MapIndex.{KeyEq, Probe, found, absent, lost}
use cel_spec_wasm.Runtime.MapIndex.Find.{scan_entries, Distinct}
use cel_spec_wasm.Runtime.Maps.{entry_key_at, entry_val_at, is_valid_map_key_kind}

abbrev pub Entry : Type 0
Entry = CelValue × CelValue

abbrev pub Cells : Type 0
Cells = ℕ → CelValue

-- The cells of the run at `e`, from the `i`-th entry on, hold the entries of the list.
abbrev pub Shows : Cells → ℕ → ℕ → List Entry → Type 0
Shows cell e i [] = Unit {0}
Shows cell e i ((k, v) ∷ es) =
    (cell (entry_key_at e i) ≡ k) × (cell (entry_val_at e i) ≡ v) × Shows cell e (i + 1) es

-- Two memories hold the same entry at `j`.
abbrev pub SameEntry : Cells → Cells → ℕ → ℕ → Type 0
SameEntry c d e j =
    (d (entry_key_at e j) ≡ c (entry_key_at e j)) × (d (entry_val_at e j) ≡ c (entry_val_at e j))

pub Shows-same :
    (c d : Cells) (e i : ℕ) (es : List Entry)
    → ((j : ℕ) → j < i + length es → SameEntry c d e j)
    → Shows c e i es
    → Shows d e i es
Shows-same c d e i [] same h = tt
Shows-same c d e i ((k, v) ∷ es) same (hk, hv, rest) =
    let (sk, sv) = same i (omega arith) in
    (sk ∙ hk, sv ∙ hv, Shows-same c d e (i + 1) es (λ j lt. same j (omega arith)) rest)

pub Shows-append :
    (c : Cells) (e i : ℕ) (es : List Entry) (k v : CelValue)
    → Shows c e i es
    → c (entry_key_at e (i + length es)) ≡ k
    → c (entry_val_at e (i + length es)) ≡ v
    → Shows c e i (es ++ ((k, v) ∷ []))
Shows-append c e i [] k v h hk hv =
    let none_yet : i + 0 ≡ i = omega arith in
    (
      ap (λ x. c (entry_key_at e x)) (sym none_yet) ∙ hk,
      ap (λ x. c (entry_val_at e x)) (sym none_yet) ∙ hv,
      tt,
    )
Shows-append c e i ((k', v') ∷ es) k v (hk', hv', rest) hk hv =
    let next : i + 1 + length es ≡ i + suc (length es) = omega arith in
    (
      hk',
      hv',
      Shows-append c e (i + 1) es k v rest (ap (λ x. c (entry_key_at e x)) next ∙ hk)
          (ap (λ x. c (entry_val_at e x)) next ∙ hv),
    )

pub Shows-append_first :
    (c : Cells) (e : ℕ) (es : List Entry) (k v : CelValue)
    → Shows c e 0 es
    → c (entry_key_at e (length es)) ≡ k
    → c (entry_val_at e (length es)) ≡ v
    → Shows c e 0 (es ++ ((k, v) ∷ []))
Shows-append_first c e es k v h hk hv =
    let start : 0 + length es ≡ length es = omega arith in
    Shows-append c e 0 es k v h (ap (λ x. c (entry_key_at e x)) start ∙ hk)
      (ap (λ x. c (entry_val_at e x)) start ∙ hv)

-- Where the entries of a run of `size` stand.
pub key_at : (e size i : ℕ) → e + 48 * size ≤ 2 ^ 32 → i < size → entry_key_at e i ≡ e + 48 * i
key_at e size i fits lt = omega arith

pub val_at : (e size i : ℕ) → e + 48 * size ≤ 2 ^ 32 → i < size → entry_val_at e i ≡ e + 48 * i + 24
val_at e size i fits lt = omega arith

-- `is_valid_map_key_kind` lets the stored kinds in.
pub valid-Stored : (v : CelValue) → is_valid_map_key_kind (kind v) ≡ true → Stored v
valid-Stored (bool b) h = bool_key b
valid-Stored (int i) h = int_key i
valid-Stored (uint u) h = uint_key u
valid-Stored (string p n) h = string_key p n
valid-Stored _ h = cc

module _ (key_eq : KeyEq) (key_hash : CelValue → ℕ) where
  -- The value of the first entry with the key.
  unfoldable pub assoc : CelValue → List Entry → Option CelValue
  assoc key [] = none
  assoc key ((k, v) ∷ es) = if key_eq k key then some v else assoc key es

  -- What a probe says of the key, read from the cells; a probe that does not end says nothing.
  abbrev pub answer : Cells → ℕ → Probe → Option (Option CelValue)
  answer cell e (found i) = some (some (cell (entry_val_at e i)))
  answer cell e absent = some none
  answer cell e lost = none

  abbrev pub key_of : Cells → ℕ → ℕ → CelValue
  key_of cell e j = cell (entry_key_at e j)

  -- The loop over the entries finds what the list has.
  pub scan-assoc :
      (cell : Cells) (e i : ℕ) (es : List Entry) (key : CelValue)
      → Shows cell e i es
      → answer cell e (scan_entries key_eq key_hash (key_of cell e) key i (length es))
        ≡ some (assoc key es)
  unfolding scan_entries assoc
  scan-assoc cell e i [] key h = refl
  scan-assoc cell e i ((k, v) ∷ es) key (hk, hv, rest) = elim (Bool-cases (key_eq k key)) [
    | inl same ↦ rw (hk, same, hv) refl
    | inr other ↦ rw (hk, other) (scan-assoc cell e (i + 1) es key rest)
  ]

  pub Distinct-same :
      (f g : ℕ → CelValue) (n : ℕ)
      → ((j : ℕ) → j < n → g j ≡ f j)
      → Distinct key_eq key_hash f n
      → Distinct key_eq key_hash g n
  Distinct-same f g n same h i hi j hj = rw (same i hi, same j (omega arith)) (h i hi j hj)

  -- One more key, different from those before it.
  pub Distinct-more :
      (f : ℕ → CelValue) (n : ℕ)
      → Distinct key_eq key_hash f n
      → ((j : ℕ) → j < n → key_eq (f j) (f n) ≡ false)
      → Distinct key_eq key_hash f (n + 1)
  Distinct-more f n h new i hi j hj = elim (Bool-cases (i == n)) [
    | inl same ↦
        let here : i ≡ n = (==_iff i n).0 same in rw here (new j (subst (λ x. j < x) here hj))
    | inr other ↦ h i (ground arith) j hj
  ]
