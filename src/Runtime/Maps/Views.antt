-- ===== src/Runtime/Maps/Views.antt =====
-- compiler/codegen/expr_lower.cc: the calls that the code of a map literal makes, and what the
-- literal and a lookup in it come to.
use cel_spec_wasm.Prelude.{
  ℕ, ◌+◌, ◌≡◌, refl, sym, false, Bool-cases, Option, none, some, Option-cases, List, [], ◌∷◌,
  length, length-append, inl, inr, arith, suc,
}
use mathlib.Core.Path.{subst}
use cel_spec_wasm.Runtime.Value.{CelValue, Arena, Memory, error, kind}
use cel_spec_wasm.Runtime.MapKey.Hash.{IsKey, a_bool, an_int, a_uint, a_double, a_string, a_bytes}
use cel_spec_wasm.Runtime.MapIndex.{KeyEq, Index, Probe, found, absent, lost}
use cel_spec_wasm.Runtime.Maps.{
  index_map, locate, arena_map_header, cel_map_create, cel_map_insert, cel_map_lookup,
  cel_map_lookup_arena, is_poisoned, is_valid_map_key_kind, err_no_such_key, hand_out,
}
use cel_spec_wasm.Runtime.Maps.Entries.{Entry, assoc, answer}
use cel_spec_wasm.Runtime.Maps.Push.{View, broken, holds, insert_view, Room}
use cel_spec_wasm.Runtime.Maps.Lookup.{IsReady}

module _ (key_eq : KeyEq) (key_hash : CelValue → ℕ) where
  -- What the entries of a literal come to, from the view of those before.
  abbrev pub literal_view : View → List Entry → View
  literal_view w [] = w
  literal_view w ((k, v) ∷ es) = literal_view (insert_view key_eq key_hash w k v) es

  abbrev pub lookup_view : View → CelValue → CelValue
  lookup_view (broken w) key = w
  lookup_view (holds es) key = elim (assoc key_eq key_hash key es) [
    | some v ↦ v
    | none ↦ error err_no_such_key
  ]

  pub one_more : (w : View) (size n : ℕ) → Room w size (suc n) → Room w size 1
  one_more (broken w) size n h = tt
  one_more (holds es) size n h = omega arith

  pub insert-Room :
      (w : View) (k v : CelValue) (size n : ℕ)
      → Room w size (suc n)
      → Room (insert_view key_eq key_hash w k v) size n
  unfolding insert_view
  insert-Room (broken w) k v size n h = tt
  insert-Room (holds es) k v size n h = elim (Bool-cases (is_poisoned k)) [
    | inl bad ↦ rw bad tt
    | inr good ↦ elim (Bool-cases (is_poisoned v)) [
      | inl bad ↦ rw (good, bad) tt
      | inr fine ↦ elim (Bool-cases (is_valid_map_key_kind (kind k))) [
        | inr other ↦ rw (good, fine, other) tt
        | inl valid ↦ elim (Option-cases (assoc key_eq key_hash k es)) [
          | inr (w, known) ↦ rw (good, fine, valid, known) tt
          | inl new ↦
              rw (good, fine, valid, new) (rw (length-append es ((k, v) ∷ [])) (omega arith))
        ]
      ]
    ]
  ]

module _ (ar : Arena) (key_eq : KeyEq) (key_hash : CelValue → ℕ) where
  -- The code of an expression: it leaves the offset of its value, and a memory.
  abbrev pub Code : Type 0
  Code = Memory ar.State → ℕ × Memory ar.State

  -- One entry after the other: the code of its key and that of its value run, and what they leave is
  -- inserted. No entry is optional.
  abbrev pub fill_literal : Memory ar.State → ℕ → List (Code × Code) → Memory ar.State
  fill_literal m map_slot [] = m
  fill_literal m map_slot ((key, value) ∷ cs) =
      let (key_off, m1) = key m in
      let (val_off, m2) = value m1 in
      fill_literal (cel_map_insert ar key_eq key_hash m2 map_slot key_off val_off) map_slot cs

  -- The keys and values that the code leaves for the insertions.
  abbrev pub evaluated : Memory ar.State → ℕ → List (Code × Code) → List Entry
  evaluated m map_slot [] = []
  evaluated m map_slot ((key, value) ∷ cs) =
      let (key_off, m1) = key m in
      let (val_off, m2) = value m1 in
      (m2.cell key_off, m2.cell val_off)
      ∷ evaluated (cel_map_insert ar key_eq key_hash m2 map_slot key_off val_off) map_slot cs

  -- The map with the entries of the code, in the cell `map_slot`.
  abbrev pub literal :
      Memory ar.State → (ℕ → Index) → ℕ → List (Code × Code) → Memory ar.State × (ℕ → Index)
  literal m index map_slot cs =
      index_map ar key_eq key_hash
        (fill_literal (cel_map_create ar key_eq key_hash m map_slot (length cs)) map_slot cs) index
        map_slot

  pub IsKey-good : (key : CelValue) → IsKey key → is_poisoned key ≡ false
  IsKey-good _ (a_bool b) = refl
  IsKey-good _ (an_int i) = refl
  IsKey-good _ (a_uint u) = refl
  IsKey-good _ (a_double d) = refl
  IsKey-good _ (a_string p n) = refl
  IsKey-good _ (a_bytes p n) = refl

  -- What is written, given where the key was located.
  answered :
      (m : Memory ar.State) (out e : ℕ) (r : Probe) (o : Option CelValue)
      → answer key_eq key_hash m.cell e r ≡ some o
      → (hand_out ar key_eq key_hash m out e r).cell out
        ≡ (elim o as (λ x. CelValue) [ some v ↦ v | none ↦ error err_no_such_key ])
  unfolding hand_out
  answered m out e (found i) (some v) h = ground arith
  answered m out e absent none h = ground arith
  answered m out e (found i) none h = cc
  answered m out e absent (some v) h = cc
  answered m out e lost o h = cc

  pub lookup-IsReady :
      (host : Memory ar.State → ℕ → ℕ → ℕ → Memory ar.State) (m : Memory ar.State)
      (index : ℕ → Index) (map_slot q out : ℕ) (es : List Entry)
      → IsReady ar key_eq key_hash m index map_slot es (m.cell q)
      → is_poisoned (m.cell q) ≡ false
      → (cel_map_lookup ar key_eq key_hash host m index out map_slot q).cell out
        ≡ lookup_view key_eq key_hash (holds es) (m.cell q)
  unfolding cel_map_lookup cel_map_lookup_arena
  lookup-IsReady host m index map_slot q out es ready good =
      let where_at =
        locate ar key_eq key_hash m index (arena_map_header m.heap.word ready.p) (m.cell q) in
      let o = assoc key_eq key_hash (m.cell q) es in
      rw (ready.cell, good)
        (answered m out (m.heap.word (ready.p + 8)) where_at o (
          subst (λ x. answer key_eq key_hash m.cell x where_at ≡ some o) (sym ready.entries)
            ready.finds))
