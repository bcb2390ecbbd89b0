-- ===== src/Abi/WasmBinary/Runs.antt =====
-- abi/wasm_binary.cc: runs on small inputs, and the theorems at concrete inputs.
use cel_spec_wasm.Prelude.{
  ℕ, ◌≡◌, refl, ◌≢◌, true, none, List, [], ◌∷◌, ◌++◌, arith, length, bytes_eq, dec_lt,
}
use cel_spec_wasm.Prelude.Order.{lt_wf}
use cel_spec_wasm.Abi.WasmBinary.{
  ok, err, stuck, not_found, is_core_module, read_leb128_u32, read_leb_loop, append_leb128_u32,
  append_leb_loop, read_framing_leb, read_section_name, visit_custom, visit_section, walk_sections,
  find_custom_section, build_custom_section, append_custom_section,
}
use cel_spec_wasm.Abi.WasmBinary.Leb.{read_leb128_u32-append}
use cel_spec_wasm.Abi.WasmBinary.Reads.{LebBounds, read_leb128_u32-LebBounds}
use cel_spec_wasm.Abi.WasmBinary.Walk.{find_custom_section-ne-stuck}
use cel_spec_wasm.Abi.WasmBinary.Sections.{find-append_custom_section, find-append_other}

-- The smallest module, and the same with a type section of two bytes.
abbrev empty_module : List ℕ
empty_module = 0x00 ∷ 0x61 ∷ 0x73 ∷ 0x6d ∷ 0x01 ∷ 0x00 ∷ 0x00 ∷ 0x00 ∷ []

abbrev typed_module : List ℕ
typed_module = empty_module ++ (0x01 ∷ 0x02 ∷ 0x07 ∷ 0x08 ∷ [])

abbrev name_ab : List ℕ
name_ab = 0x61 ∷ 0x62 ∷ []

abbrev section_ab : List ℕ
section_ab = 0x00 ∷ 0x04 ∷ 0x02 ∷ 0x61 ∷ 0x62 ∷ 0x09 ∷ []

put_300 : append_leb128_u32 [] 300 ≡ 0xac ∷ 0x02 ∷ []
unfolding append_leb128_u32 append_leb_loop lt_wf dec_lt
put_300 = refl

-- Bits above the 32nd of a fifth byte are dropped.
read_wide :
    read_leb128_u32 (0x80 ∷ 0x80 ∷ 0x80 ∷ 0x80 ∷ 0x7f ∷ []) 0
    ≡ record { success = true; pos = 5; out = 0xf000_0000 }
unfolding read_leb128_u32 read_leb_loop
read_wide = refl

append_ab : append_custom_section typed_module name_ab (0x09 ∷ []) ≡ ok (typed_module ++ section_ab)
unfolding append_custom_section find_custom_section is_core_module walk_sections visit_section
    visit_custom read_section_name read_framing_leb read_leb128_u32 read_leb_loop
    build_custom_section append_leb128_u32 append_leb_loop lt_wf dec_lt bytes_eq
append_ab = refl

find_other : find_custom_section typed_module (0x63 ∷ []) ≡ err not_found
unfolding find_custom_section is_core_module walk_sections visit_section visit_custom
    read_section_name read_framing_leb read_leb128_u32 read_leb_loop bytes_eq
find_other = refl

read_leb128_u32-append_example :
    read_leb128_u32 (append_leb128_u32 (7 ∷ []) 300 ++ (9 ∷ [])) 1
    ≡ record { success = true; pos = length (append_leb128_u32 (7 ∷ []) 300); out = 300 }
read_leb128_u32-append_example = read_leb128_u32-append (7 ∷ []) (9 ∷ []) 300 (omega arith)

read_leb128_u32-LebBounds_example :
    LebBounds 5
      (0x80 ∷ 0x80 ∷ 0x80 ∷ 0x80 ∷ 0x7f ∷ [])
      0
      (read_leb128_u32 (0x80 ∷ 0x80 ∷ 0x80 ∷ 0x80 ∷ 0x7f ∷ []) 0)
unfolding read_leb128_u32 read_leb_loop
read_leb128_u32-LebBounds_example =
    read_leb128_u32-LebBounds (0x80 ∷ 0x80 ∷ 0x80 ∷ 0x80 ∷ 0x7f ∷ []) 0 refl

find_custom_section-ne-stuck_example : find_custom_section typed_module name_ab ≢ stuck
find_custom_section-ne-stuck_example = find_custom_section-ne-stuck typed_module name_ab

find-append_custom_section_example :
    find_custom_section (typed_module ++ section_ab) name_ab ≡ ok (0x09 ∷ [])
find-append_custom_section_example =
    find-append_custom_section typed_module name_ab (0x09 ∷ []) (omega arith) append_ab

find-append_other_example :
    find_custom_section (typed_module ++ section_ab) (0x63 ∷ []) ≡ err not_found
find-append_other_example =
    find-append_other typed_module name_ab (0x09 ∷ []) (0x63 ∷ []) none (omega arith) (λ e. cc)
      append_ab find_other
