-- ===== src/Eval/Attribute/Parser/Runs.antt =====
-- eval/attribute.cc: the parser on a concrete text.
use cel_spec_wasm.Prelude.{ℕ, ◌≡◌, refl, true, List, [], ◌∷◌}
use cel_spec_wasm.Eval.Attribute.{wildcard, AttributePattern, of_string}
use cel_spec_wasm.Eval.Attribute.Parser.{
  ok, parse, is_ident_start, is_ident_cont, run_from, run_loop, initial, step, step_seg_start,
  step_in_ident, step_after_star, commit, finish, is_after_star,
}
use cel_spec_wasm.Eval.Attribute.Parser.Grammar.{render, is_pattern, parse-render}
use cel_spec_wasm.Eval.Attribute.Parser.Sound.{parse_sound}

-- `c.*.n`
abbrev pattern_c : AttributePattern
pattern_c = record { variable = 0x63 ∷ []; path = wildcard ∷ of_string (0x6e ∷ []) ∷ [] }

abbrev text_c : List ℕ
text_c = 0x63 ∷ 0x2e ∷ 0x2a ∷ 0x2e ∷ 0x6e ∷ []

parse-render_example : parse text_c ≡ ok pattern_c
unfolding is_ident_start is_ident_cont
parse-render_example = parse-render pattern_c refl

parse_sound_example : (render pattern_c ≡ text_c) × (is_pattern pattern_c ≡ true)
unfolding parse run_from run_loop initial step step_seg_start step_in_ident step_after_star commit
    finish is_after_star is_ident_start is_ident_cont
parse_sound_example = parse_sound text_c pattern_c refl
