-- ===== src/Abi/WasmBinary/Sections.antt =====
-- abi/wasm_binary.cc: what FindCustomSection answers after AppendCustomSection.
use cel_spec_wasm.Prelude.{
  ℕ, ◌+◌, ◌-◌, ◌%◌, ◌^◌, ◌≤◌, ◌<◌, ◌≡◌, ◌≢◌, ◌∙◌, true, Option, none, some, List, [], ◌∷◌, ◌++◌,
  arith, if◌then◌else◌, bytes_eq, bytes_eq_refl, bytes_eq→eq, get_elem?-past, length, length-append,
  take, drop, HasAt, HasAt-append, HasAt-end, HasAt-window,
}
use cel_spec_wasm.Abi.WasmBinary.{
  ok, err, not_found, duplicate_section, is_core_module, preamble_size, custom_section_id,
  read_section_name, visit_custom, visit_section, walk_sections, report, find_custom_section,
  build_custom_section, append_custom_section,
}
use cel_spec_wasm.Abi.WasmBinary.Leb.{groups, length-groups, append_leb128_u32-groups}
use cel_spec_wasm.Abi.WasmBinary.Walk.{walk_on, walk_out, find_custom_section-eq-not_found}
use cel_spec_wasm.Abi.WasmBinary.Extend.{
  walk_sections-append, is_core_module-append, read_framing_leb-groups,
}

-- The contents of a section, and the section with its frame.
abbrev body_of : List ℕ → List ℕ → List ℕ
body_of name payload = groups 4 (length name) ++ (name ++ payload)

abbrev framed : List ℕ → List ℕ → List ℕ
framed name payload =
    custom_section_id ∷ (groups 4 (length (body_of name payload)) ++ body_of name payload)

-- A section whose framing numbers fit the format's 32 bits.
abbrev pub Fits : List ℕ → List ℕ → Type 0
Fits name payload = 5 + length name + length payload < 2 ^ 32

length-body_of :
    (name payload : List ℕ)
    → length (body_of name payload) ≡ length (groups 4 (length name)) + length name + length payload
length-body_of name payload =
    omega
      (arith, length-append (groups 4 (length name)) (name ++ payload), length-append name payload)

build_custom_section-framed :
    (name payload : List ℕ)
    → Fits name payload
    → build_custom_section name payload ≡ framed name payload
unfolding build_custom_section
build_custom_section-framed name payload fits =
    let name_len : length name % 2 ^ 32 ≡ length name = omega arith in
    let body_len : length (body_of name payload) % 2 ^ 32 ≡ length (body_of name payload) =
      omega (arith, length-body_of name payload, length-groups 4 (length name)) in
    rw (name_len, append_leb128_u32-groups [] (length name) (omega arith), body_len)
      (rw (
        append_leb128_u32-groups (custom_section_id ∷ []) (length (body_of name payload))
          (omega (arith, length-body_of name payload, length-groups 4 (length name)))))

module _ (all name payload : List ℕ) (pos : ℕ) (fits : Fits name payload)
    (at : HasAt all pos (body_of name payload)) where
  -- Where the payload begins.
  abbrev behind_name : ℕ
  behind_name = pos + length (groups 4 (length name)) + length name

  parts :
      HasAt all pos (groups 4 (length name))
      × HasAt all (pos + length (groups 4 (length name))) name
      × HasAt all behind_name payload
  parts =
      let (a, b) = HasAt-append all pos (groups 4 (length name)) (name ++ payload) at in
      let (c, d) = HasAt-append all (pos + length (groups 4 (length name))) name payload b in
      (a, c, d)

  read_section_name-framed :
      read_section_name all pos (pos + length (body_of name payload)) ≡ ok (name, behind_name)
  unfolding read_section_name
  read_section_name-framed =
      rw (read_framing_leb-groups all pos (length name) (omega arith) parts.0) (
        ground (
          arith,
          length-body_of name payload,
          HasAt-window all (pos + length (groups 4 (length name))) name parts.1,
        ))

  payload_window :
      take (pos + length (body_of name payload) - behind_name) (drop behind_name all) ≡ payload
  payload_window =
      let e : pos + length (body_of name payload) - behind_name ≡ length payload =
        omega (arith, length-body_of name payload) in
      rw e (HasAt-window all behind_name payload parts.2)

visit_custom-framed :
    (all name payload want : List ℕ) (pos : ℕ) (found : Option (List ℕ))
    → Fits name payload
    → HasAt all pos (body_of name payload)
    → visit_custom all want pos (pos + length (body_of name payload)) found ≡ (
        if bytes_eq name want
        then (elim found [ none ↦ ok (some payload) | some _ ↦ err duplicate_section ])
        else ok found)
unfolding visit_custom
visit_custom-framed all name payload want pos found fits at =
    rw (read_section_name-framed all name payload pos fits at)
      (ground (arith, payload_window all name payload pos fits at))

visit_section-framed :
    (all name payload want : List ℕ) (pos : ℕ) (found : Option (List ℕ)) {r : Option (List ℕ)}
    → Fits name payload
    → HasAt all pos (framed name payload)
    → length all ≡ pos + length (framed name payload)
    → (if bytes_eq name want
        then (elim found [ none ↦ ok (some payload) | some _ ↦ err duplicate_section ])
        else ok found)
      ≡ ok r
    → visit_section all want custom_section_id pos found ≡ ok (length all, r)
unfolding visit_section
visit_section-framed all name payload want pos found {r} fits at ends e =
    let size = length (body_of name payload) in
    let (a, b) = HasAt-append all (pos + 1) (groups 4 size) (body_of name payload) at.1 in
    let small : size < 2 ^ 32 =
      omega (arith, length-body_of name payload, length-groups 4 (length name)) in
    let whole : pos + 1 + length (groups 4 size) + size ≡ length all =
      omega (arith, length-append (groups 4 size) (body_of name payload)) in
    rw (read_framing_leb-groups all (pos + 1) size small a) (
      ground (
        arith,
        whole,
        visit_custom-framed all name payload want (pos + 1 + length (groups 4 size)) found fits b,
      ))

-- A successful append: the module had no such section, and the framed section follows it.
append_custom_section-eq-ok :
    (bytes name payload : List ℕ) {out : List ℕ}
    → append_custom_section bytes name payload ≡ ok out
    → (find_custom_section bytes name ≡ err not_found)
      × (out ≡ bytes ++ build_custom_section name payload)
unfolding append_custom_section
append_custom_section-eq-ok bytes name payload {out} e = ground arith

find_custom_section-walk :
    (bytes more name : List ℕ) {r : Option (List ℕ)}
    → is_core_module bytes ≡ true
    → walk_sections (length bytes + length more) (bytes ++ more) name preamble_size none ≡ ok r
    → find_custom_section (bytes ++ more) name ≡ report r
unfolding find_custom_section
find_custom_section-walk bytes more name core e =
    rw (is_core_module-append bytes more core, length-append bytes more, e)

is_core_module-length :
    (bytes : List ℕ) → is_core_module bytes ≡ true → preamble_size ≤ length bytes
unfolding is_core_module
is_core_module-length bytes core = ground arith

find_custom_section-eq-ok :
    (bytes want s : List ℕ)
    → find_custom_section bytes want ≡ ok s
    → walk_sections (length bytes) bytes want preamble_size none ≡ ok (some s)
unfolding find_custom_section
find_custom_section-eq-ok bytes want s e = ground arith

find_custom_section-eq-report :
    (bytes want : List ℕ) (found : Option (List ℕ))
    → is_core_module bytes ≡ true
    → find_custom_section bytes want ≡ report found
    → walk_sections (length bytes) bytes want preamble_size none ≡ ok found
find_custom_section-eq-report bytes want none core e =
    (find_custom_section-eq-not_found bytes want e).1
find_custom_section-eq-report bytes want (some s) core e = find_custom_section-eq-ok bytes want s e

-- One section behind a module that the walk for `want` passes.
find-framed :
    (bytes name payload want : List ℕ) (found : Option (List ℕ)) {r : Option (List ℕ)}
    → Fits name payload
    → is_core_module bytes ≡ true
    → walk_sections (length bytes) bytes want preamble_size none ≡ ok found
    → (if bytes_eq name want
        then (elim found [ none ↦ ok (some payload) | some _ ↦ err duplicate_section ])
        else ok found)
      ≡ ok r
    → find_custom_section (bytes ++ framed name payload) want ≡ report r
find-framed bytes name payload want found {r} fits core walked e =
    let sec = framed name payload in
    let rounds = length (groups 4 (length (body_of name payload)) ++ body_of name payload) in
    let all = bytes ++ sec in
    let at : HasAt all (length bytes) sec = HasAt-end bytes sec in
    let visited =
      visit_section-framed all name payload want (length bytes) found fits at
        (length-append bytes sec) e in
    let rest : walk_sections (length sec) all want (length bytes) found ≡ ok r =
      walk_on rounds all want (length bytes) found at.0 visited
      ∙ walk_out rounds all want (length all) r (get_elem?-past all (length all) (omega arith)) in
    find_custom_section-walk bytes sec want core (
      walk_sections-append (length bytes) (length sec) bytes sec want preamble_size none
        (is_core_module-length bytes core) walked rest)

-- After a successful append the new section is found, with its payload, whatever the module holds.
pub find-append_custom_section :
    (bytes name payload : List ℕ) {out : List ℕ}
    → Fits name payload
    → append_custom_section bytes name payload ≡ ok out
    → find_custom_section out name ≡ ok payload
find-append_custom_section bytes name payload {out} fits e =
    let (absent, built) = append_custom_section-eq-ok bytes name payload e in
    let (core, walked) = find_custom_section-eq-not_found bytes name absent in
    rw (built, build_custom_section-framed name payload fits)
      (find-framed bytes name payload name none {r = some payload} fits core walked
        (rw (bytes_eq_refl name)))

-- And every other name has the answer that it had before: its section, or none.
pub find-append_other :
    (bytes name payload want : List ℕ) (found : Option (List ℕ)) {out : List ℕ}
    → Fits name payload
    → want ≢ name
    → append_custom_section bytes name payload ≡ ok out
    → find_custom_section bytes want ≡ report found
    → find_custom_section out want ≡ report found
find-append_other bytes name payload want found {out} fits other e answered =
    let (absent, built) = append_custom_section-eq-ok bytes name payload e in
    let (core, _) = find_custom_section-eq-not_found bytes name absent in
    rw (built, build_custom_section-framed name payload fits)
      (find-framed bytes name payload want found fits core
        (find_custom_section-eq-report bytes want found core answered)
        (ground (arith, bytes_eq→eq name want)))
