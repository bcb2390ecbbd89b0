-- ===== src/Abi/WasmBinary/Extend.antt =====
-- abi/wasm_binary.cc: the section walk over a binary to which bytes are appended.
use native.Mathlib.Nat.{zero-add, mul-one}
use Prim.Native.Nat.add
use cel_spec_wasm.Prelude.{
  ℕ, zero, suc, ◌+◌, ◌^◌, ◌≤◌, ◌<◌, ◌≡◌, sym, ◌∙◌, inl, inr, true, Option, none, some, List, ◌++◌,
  arith, Option-cases, length, length-append, get_elem?, get_elem?-lt, get_elem?-append_left,
  get_elem?-none, take-append_left, window-append_left, HasAt,
}
use cel_spec_wasm.Abi.WasmBinary.{
  ok, stuck, is_core_module, read_leb128_u32, read_framing_leb, walk_sections,
}
use cel_spec_wasm.Abi.WasmBinary.Leb.{groups, read_leb_loop-groups}
use cel_spec_wasm.Abi.WasmBinary.Walk.{
  visit_section-eq-ok, visit_section_cases, walk_end, walk_error, walk_on, walk_out,
}

walk_stuck :
    (bytes name : List ℕ) (pos : ℕ) (found : Option (List ℕ)) {id : ℕ}
    → get_elem? bytes pos ≡ some id
    → walk_sections zero bytes name pos found ≡ stuck
unfolding walk_sections
walk_stuck bytes name pos found at = rw (at, walk_sections)

-- More fuel does not change a walk that ends.
walk_sections-suc :
    (fuel : ℕ) (bytes name : List ℕ) (pos : ℕ) (found : Option (List ℕ)) {r : Option (List ℕ)}
    → walk_sections fuel bytes name pos found ≡ ok r
    → walk_sections (suc fuel) bytes name pos found ≡ ok r
walk_sections-suc zero bytes name pos found e = elim (Option-cases (get_elem? bytes pos)) [
  | inl at ↦ walk_end zero bytes name pos found at ∙ sym (walk_out zero bytes name pos found at) ∙ e
  | inr (id, at) ↦ cc (e, walk_stuck bytes name pos found at)
]
walk_sections-suc (suc fuel) bytes name pos found e = elim (Option-cases (get_elem? bytes pos)) [
  | inl at ↦
      walk_end (suc fuel) bytes name pos found at ∙ sym (walk_end fuel bytes name pos found at) ∙ e
  | inr (id, at) ↦ elim (visit_section_cases bytes name id pos found) [
    | inr (x, visited) ↦ cc (e, walk_error fuel bytes name pos found at visited)
    | inl (a, visited) ↦
        walk_on (suc fuel) bytes name pos found at visited
        ∙ walk_sections-suc fuel bytes name a.0 a.1
            (sym (walk_on fuel bytes name pos found at visited) ∙ e)
  ]
]

walk_sections-add :
    (k fuel : ℕ) (bytes name : List ℕ) (pos : ℕ) (found : Option (List ℕ)) {r : Option (List ℕ)}
    → walk_sections fuel bytes name pos found ≡ ok r
    → walk_sections (k + fuel) bytes name pos found ≡ ok r
walk_sections-add zero fuel bytes name pos found e = rw zero-add e
walk_sections-add (suc k) fuel bytes name pos found e = rw add.suc (
    walk_sections-suc (k + fuel) bytes name pos found
      (walk_sections-add k fuel bytes name pos found e))

-- Where the walk over `bytes` stops, the walk over more goes on.
walk_sections-arrived :
    (f g : ℕ) (bytes more name : List ℕ) (pos : ℕ) (found : Option (List ℕ))
    {found' r : Option (List ℕ)}
    → pos ≤ length bytes
    → get_elem? bytes pos ≡ none
    → ok found ≡ ok found'
    → walk_sections g (bytes ++ more) name (length bytes) found' ≡ ok r
    → walk_sections (f + g) (bytes ++ more) name pos found ≡ ok r
walk_sections-arrived f g bytes more name pos found inside at same rest =
    let here : pos ≡ length bytes = omega (arith, get_elem?-none bytes pos at) in
    let kept : found ≡ _ = cc in
    rw (here, kept) (walk_sections-add f g (bytes ++ more) name (length bytes) _ rest)

-- A walk over the whole of `bytes` goes on into what is appended.
pub walk_sections-append :
    (f g : ℕ) (bytes more name : List ℕ) (pos : ℕ) (found : Option (List ℕ))
    {found' r : Option (List ℕ)}
    → pos ≤ length bytes
    → walk_sections f bytes name pos found ≡ ok found'
    → walk_sections g (bytes ++ more) name (length bytes) found' ≡ ok r
    → walk_sections (f + g) (bytes ++ more) name pos found ≡ ok r
walk_sections-append zero g bytes more name pos found inside e rest =
    elim (Option-cases (get_elem? bytes pos)) [
      | inl at ↦
          walk_sections-arrived zero g bytes more name pos found inside at
            (sym (walk_out zero bytes name pos found at) ∙ e) rest
      | inr (id, at) ↦ cc (e, walk_stuck bytes name pos found at)
    ]
walk_sections-append (suc f) g bytes more name pos found inside e rest =
    elim (Option-cases (get_elem? bytes pos)) [
      | inl at ↦
          walk_sections-arrived (suc f) g bytes more name pos found inside at
            (sym (walk_end f bytes name pos found at) ∙ e) rest
      | inr (id, at) ↦ elim (visit_section_cases bytes name id pos found) [
        | inr (x, visited) ↦ cc (e, walk_error f bytes name pos found at visited)
        | inl (a, visited) ↦
            let (_, within, same) = visit_section-eq-ok bytes name id pos found visited in
            let at' = get_elem?-append_left bytes more pos (get_elem?-lt bytes pos at) ∙ at in
            rw add.suc (
              walk_on (f + g) (bytes ++ more) name pos found at' (same more)
              ∙ walk_sections-append f g bytes more name a.0 a.1 within
                  (sym (walk_on f bytes name pos found at visited) ∙ e) rest)
      ]
    ]

pub is_core_module-append :
    (bytes more : List ℕ) → is_core_module bytes ≡ true → is_core_module (bytes ++ more) ≡ true
unfolding is_core_module
is_core_module-append bytes more e = ground (
  arith,
  length-append bytes more,
  take-append_left bytes more 4,
  window-append_left bytes more 4 4,
)

pub read_framing_leb-groups :
    (bytes : List ℕ) (pos v : ℕ)
    → v < 2 ^ 32
    → HasAt bytes pos (groups 4 v)
    → read_framing_leb bytes pos ≡ ok (v, pos + length (groups 4 v))
unfolding read_framing_leb read_leb128_u32
read_framing_leb-groups bytes pos v h at =
    rw
      (read_leb_loop-groups 4 5 v 0 0 bytes pos (omega arith) (omega arith) (omega arith)
        (omega arith) at)
      (rw (zero-add, mul-one))
