-- ===== src/Abi/WasmBinary/Walk.antt =====
-- abi/wasm_binary.cc: the section walk of FindCustomSection ends, and only looks at what it visits.
use cel_spec_wasm.Prelude.{
  ℕ, zero, suc, ◌+◌, ◌-◌, ◌≤◌, ◌<◌, ◌≡◌, refl, ap, ◌≢◌, ◌∙◌, ◌⊎◌, inl, inr, true, Option, none,
  some, List, ◌++◌, arith, ltb, ◌==◌, if◌then◌else◌, Option-cases, Bool-cases, length,
  length-append, get_elem?, get_elem?-past, window-append_left,
}
use cel_spec_wasm.Abi.WasmBinary.{
  StatusOr, Status, ok, err, stuck, ◌>>=◌, read_framing_leb, read_section_name, visit_custom,
  visit_section, walk_sections, find_custom_section, is_core_module, custom_section_id,
  section_overruns_binary, not_found, preamble_size,
}
use cel_spec_wasm.Abi.WasmBinary.Reads.{read_framing_leb-eq-ok}

err-injective {κ} :
    {B : Type κ} {e e' : Status} → ◌≡◌ {A = StatusOr B} (err e) (err e') → ◌≡◌ {A = Status} e e'
err-injective p = cc

module _ {ℓ κ} {A : Type ℓ} {B : Type κ} where
  -- A chain that succeeds: its first step did, and the rest on what that gave.
  pub >>=-eq-ok :
      (r : StatusOr A) (rest : A → StatusOr B) {b : B}
      → (r >>= rest) ≡ ok b
      → (a : A) × (r ≡ ok a) × (rest a ≡ ok b)
  >>=-eq-ok (ok a) rest e = (a, refl, e)
  >>=-eq-ok (err x) rest e = cc
  >>=-eq-ok stuck rest e = cc

read_section_name-eq-ok :
    (bytes : List ℕ) (pos section_end : ℕ) {name : List ℕ} {p : ℕ}
    → section_end ≤ length bytes
    → read_section_name bytes pos section_end ≡ ok (name, p)
    → (p ≤ section_end)
      × ((more : List ℕ) → read_section_name (bytes ++ more) pos section_end ≡ ok (name, p))
unfolding read_section_name
read_section_name-eq-ok bytes pos section_end {name} {p} inside e =
    let (a, read, checked) = >>=-eq-ok (read_framing_leb bytes pos) _ e in
    (
      ground (arith, checked),
      λ more.
          rw ((read_framing_leb-eq-ok bytes pos read).2 more)
            (ground (arith, checked, window-append_left bytes more a.1 a.0)),
    )

visit_custom-eq-ok :
    (bytes name : List ℕ) (pos section_end : ℕ) (found : Option (List ℕ)) {r : Option (List ℕ)}
    → section_end ≤ length bytes
    → visit_custom bytes name pos section_end found ≡ ok r
    → (more : List ℕ) → visit_custom (bytes ++ more) name pos section_end found ≡ ok r
unfolding visit_custom
visit_custom-eq-ok bytes name pos section_end found {r} inside e more =
    let (a, read, checked) = >>=-eq-ok (read_section_name bytes pos section_end) _ e in
    let (before, same) = read_section_name-eq-ok bytes pos section_end inside read in
    rw (same more) (ground (arith, checked, window-append_left bytes more a.1 (section_end - a.1)))

-- The rest of a round, once the section's size is read.
abbrev enter_section :
    List ℕ → List ℕ → ℕ → ℕ → ℕ → Option (List ℕ) → StatusOr (ℕ × Option (List ℕ))
enter_section bytes name id q size found =
    if ltb (length bytes) (q + size)
    then err section_overruns_binary
    else if id == custom_section_id
    then (visit_custom bytes name q (q + size) found >>= λ found'. ok (q + size, found'))
    else ok (q + size, found)

section_fits :
    (bytes name : List ℕ) (id q size : ℕ) (found : Option (List ℕ)) {p : ℕ} {r : Option (List ℕ)}
    → enter_section bytes name id q size found ≡ ok (p, r)
    → ((q ≤ p) × (p ≤ length bytes))
      × ((more : List ℕ) → enter_section (bytes ++ more) name id q size found ≡ ok (p, r))
section_fits bytes name id q size found {p} {r} e =
    elim (Bool-cases (ltb (length bytes) (q + size))) [
      | inl over ↦ cc (e, over)
      | inr within ↦ elim (Bool-cases (id == custom_section_id)) [
        | inl custom ↦
            let (f, visited, out) =
              >>=-eq-ok (visit_custom bytes name q (q + size) found) _ (rw (within, custom) at e) in
            (
              ground (arith, out),
              λ more. ground (
                arith,
                out,
                length-append bytes more,
                visit_custom-eq-ok bytes name q (q + size) found (ground arith) visited more,
              ),
            )
        | inr other ↦ (ground arith, λ more. ground (arith, length-append bytes more))
      ]
    ]

pub visit_section-eq-ok :
    (bytes name : List ℕ) (id pos : ℕ) (found : Option (List ℕ)) {p : ℕ} {r : Option (List ℕ)}
    → visit_section bytes name id pos found ≡ ok (p, r)
    → (pos + 1 < p)
      × (p ≤ length bytes)
      × ((more : List ℕ) → visit_section (bytes ++ more) name id pos found ≡ ok (p, r))
unfolding visit_section
visit_section-eq-ok bytes name id pos found {p} {r} e =
    let (a, read, checked) = >>=-eq-ok (read_framing_leb bytes (pos + 1)) _ e in
    let (after, inside, same) = read_framing_leb-eq-ok bytes (pos + 1) read in
    let (fits, rest) = section_fits bytes name id a.1 a.0 found checked in
    (omega arith, omega arith, λ more. rw (same more) (rest more))

-- An outcome of the reads: a result, or an error other than NotFound.
abbrev Settled {ℓ} : {A : Type ℓ} → StatusOr A → Type ℓ
Settled r = (r ≢ stuck) × (r ≢ err not_found)

>>=-Settled {ℓ κ} :
    {A : Type ℓ} {B : Type κ} (m : StatusOr A) (f : A → StatusOr B)
    → Settled m
    → ((a : A) → Settled (f a))
    → Settled (m >>= f)
>>=-Settled (ok a) f hm hf = hf a
>>=-Settled (err e) f hm hf = ((λ p. cc), (λ p. hm.1 (ap err (err-injective p))))
>>=-Settled stuck f hm hf = absurd (hm.0 refl)

read_framing_leb-Settled : (bytes : List ℕ) (pos : ℕ) → Settled (read_framing_leb bytes pos)
unfolding read_framing_leb
read_framing_leb-Settled bytes pos = ((λ e. ground arith), (λ e. ground arith))

read_section_name-Settled :
    (bytes : List ℕ) (pos section_end : ℕ) → Settled (read_section_name bytes pos section_end)
unfolding read_section_name
read_section_name-Settled bytes pos section_end =
    >>=-Settled (read_framing_leb bytes pos) _ (read_framing_leb-Settled bytes pos)
      λ a. ((λ e. ground arith), (λ e. ground arith))

visit_custom-Settled :
    (bytes name : List ℕ) (pos section_end : ℕ) (found : Option (List ℕ))
    → Settled (visit_custom bytes name pos section_end found)
unfolding visit_custom
visit_custom-Settled bytes name pos section_end found =
    >>=-Settled (read_section_name bytes pos section_end) _
      (read_section_name-Settled bytes pos section_end)
      λ a. ((λ e. ground arith), (λ e. ground arith))

visit_section-Settled :
    (bytes name : List ℕ) (id pos : ℕ) (found : Option (List ℕ))
    → Settled (visit_section bytes name id pos found)
unfolding visit_section
visit_section-Settled bytes name id pos found =
    >>=-Settled (read_framing_leb bytes (pos + 1)) _ (read_framing_leb-Settled bytes (pos + 1)) λ a.
      (
        (λ e. ground (arith, (visit_custom-Settled bytes name a.1 (a.1 + a.0) found).0)),
        (λ e. ground (arith, (visit_custom-Settled bytes name a.1 (a.1 + a.0) found).1)),
      )

StatusOr-cases {ℓ} :
    {A : Type ℓ} (r : StatusOr A)
    → Settled r
    → ((a : A) × (r ≡ ok a)) ⊎ ((e : Status) × (r ≡ err e))
StatusOr-cases (ok a) h = inl (a, refl)
StatusOr-cases (err e) h = inr (e, refl)
StatusOr-cases stuck h = absurd (h.0 refl)

pub visit_section_cases :
    (bytes name : List ℕ) (id pos : ℕ) (found : Option (List ℕ))
    → ((a : ℕ × Option (List ℕ)) × (visit_section bytes name id pos found ≡ ok a))
      ⊎ ((e : Status) × (visit_section bytes name id pos found ≡ err e))
visit_section_cases bytes name id pos found =
    StatusOr-cases _ (visit_section-Settled bytes name id pos found)

-- The three ways in which a round ends.
module _ (fuel : ℕ) (bytes name : List ℕ) (pos : ℕ) (found : Option (List ℕ)) where
  pub walk_end :
      get_elem? bytes pos ≡ none → walk_sections (suc fuel) bytes name pos found ≡ ok found
  unfolding walk_sections
  walk_end at = rw (at, walk_sections)

  pub walk_error :
      {id : ℕ} {e : Status}
      → get_elem? bytes pos ≡ some id
      → visit_section bytes name id pos found ≡ err e
      → walk_sections (suc fuel) bytes name pos found ≡ err e
  unfolding walk_sections
  walk_error at visited = rw (at, walk_sections, visited)

  pub walk_on :
      {id p : ℕ} {found' : Option (List ℕ)}
      → get_elem? bytes pos ≡ some id
      → visit_section bytes name id pos found ≡ ok (p, found')
      → walk_sections (suc fuel) bytes name pos found ≡ walk_sections fuel bytes name p found'
  unfolding walk_sections
  walk_on at visited = rw (at, walk_sections, visited)

pub walk_out :
    (fuel : ℕ) (bytes name : List ℕ) (pos : ℕ) (found : Option (List ℕ))
    → get_elem? bytes pos ≡ none
    → walk_sections fuel bytes name pos found ≡ ok found
unfolding walk_sections
walk_out zero bytes name pos found at = rw (at, walk_sections)
walk_out (suc fuel) bytes name pos found at = walk_end fuel bytes name pos found at

-- With a round for each byte that is left, the walk ends.
walk_sections-Settled :
    (fuel : ℕ) (bytes name : List ℕ) (pos : ℕ) (found : Option (List ℕ))
    → length bytes ≤ pos + fuel
    → Settled (walk_sections fuel bytes name pos found)
walk_sections-Settled zero bytes name pos found enough =
    rw (walk_out zero bytes name pos found (get_elem?-past bytes pos (omega arith)))
      ((λ e. cc), (λ e. cc))
walk_sections-Settled (suc fuel) bytes name pos found enough =
    elim (Option-cases (get_elem? bytes pos)) [
      | inl at ↦ rw (walk_end fuel bytes name pos found at) ((λ e. cc), (λ e. cc))
      | inr (id, at) ↦ elim (visit_section_cases bytes name id pos found) [
        | inr (e, visited) ↦ rw (walk_error fuel bytes name pos found at visited) (
          (λ p. cc),
          (λ p.
              (visit_section-Settled bytes name id pos found).1
                (visited ∙ ap err (err-injective p))),
        )
        | inl (a, visited) ↦
            let (after, _, _) = visit_section-eq-ok bytes name id pos found visited in
            rw (walk_on fuel bytes name pos found at visited)
              (walk_sections-Settled fuel bytes name a.0 a.1 (omega arith))
      ]
    ]

-- A module without a section of that name: the walk meets none.
pub find_custom_section-eq-not_found :
    (bytes name : List ℕ)
    → find_custom_section bytes name ≡ err not_found
    → (is_core_module bytes ≡ true)
      × (walk_sections (length bytes) bytes name preamble_size none ≡ ok none)
unfolding find_custom_section
find_custom_section-eq-not_found bytes name e =
    let (_, known) =
      walk_sections-Settled (length bytes) bytes name preamble_size none (omega arith) in
    (ground (arith, known), ground (arith, known))

-- The section walk of FindCustomSection ends on every input.
pub find_custom_section-ne-stuck : (bytes name : List ℕ) → find_custom_section bytes name ≢ stuck
unfolding find_custom_section
find_custom_section-ne-stuck bytes name e =
    let (ends, _) =
      walk_sections-Settled (length bytes) bytes name preamble_size none (omega arith) in
    ground (arith, ends)
