-- ===== src/Eval/Attribute/Runs.antt =====
-- eval/attribute.cc: the parser, the matcher and the order on concrete attributes.
use cel_spec_wasm.Prelude.{ℕ, ◌≡◌, refl, ◌&&◌, not, List, [], ◌∷◌, bytes_eq}
use cel_spec_wasm.Eval.Attribute.{
  AttributeQualifier, wildcard, Attribute, AttributePattern, full, of_string, is_match, matches_to,
  attribute_eq, attribute_lt,
}
use cel_spec_wasm.Eval.Attribute.Match.{
  extend, is_match-match_path, is_match-extend, is_match-partial,
}
use cel_spec_wasm.Eval.Attribute.Order.{attribute_eq-lt}

-- `c.*.n`
abbrev pattern_c : AttributePattern
pattern_c = record { variable = 0x63 ∷ []; path = wildcard ∷ of_string (0x6e ∷ []) ∷ [] }

abbrev key : ℕ → AttributeQualifier
key c = record { value = c ∷ [] }

-- `c` and `c.x.n`
abbrev bare : Attribute
bare = record { variable_name = 0x63 ∷ []; qualifier_path = [] }

abbrev deep : Attribute
deep = record { variable_name = 0x63 ∷ []; qualifier_path = key 0x78 ∷ key 0x6e ∷ [] }

is_match-match_path_example : is_match pattern_c deep ≡ full
unfolding bytes_eq
is_match-match_path_example = is_match-match_path pattern_c deep

is_match-extend_example : is_match pattern_c (extend deep (key 0x79 ∷ [])) ≡ is_match pattern_c deep
unfolding is_match matches_to bytes_eq
is_match-extend_example = is_match-extend pattern_c deep (key 0x79 ∷ []) (λ e. cc)

is_match-partial_example :
    (qs : List AttributeQualifier) × (is_match pattern_c (extend bare qs) ≡ full)
unfolding is_match matches_to bytes_eq
is_match-partial_example = is_match-partial pattern_c bare refl

attribute_eq-lt_example :
    attribute_eq bare deep ≡ (not (attribute_lt bare deep) && not (attribute_lt deep bare))
attribute_eq-lt_example = attribute_eq-lt bare deep
