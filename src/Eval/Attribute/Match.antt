-- ===== src/Eval/Attribute/Match.antt =====
-- eval/attribute.cc: `AttributePattern::IsMatch` against a recursion on both paths.
use cel_spec_wasm.Prelude.{
  ◌≡◌, refl, sym, ◌∙◌, not, List, [], ◌∷◌, ◌++◌, arith, ltb, if◌then◌else◌, bytes_eq, bytes_eq_refl,
  length, Bool-cases, inl, inr, ◌≢◌,
}
use cel_spec_wasm.Eval.Attribute.{
  AttributeQualifier, AttributeQualifierPattern, wildcard, exact, Attribute, AttributePattern,
  MatchType, none_match, partial, full, qualifier_is_match, matches_to, is_match,
}

-- Qualifier by qualifier, until one of the paths ends.
abbrev pub match_path : List AttributeQualifierPattern → List AttributeQualifier → MatchType
match_path [] qs = full
match_path (p ∷ ps) [] = partial
match_path (p ∷ ps) (q ∷ qs) =
    let rest = match_path ps qs in if qualifier_is_match p q then rest else none_match

abbrev by_length : List AttributeQualifierPattern → List AttributeQualifier → MatchType
by_length ps qs =
    let longer = ltb (length qs) (length ps) in
    let max_index = if longer then length qs else length ps in
    if not (matches_to max_index ps qs) then none_match else if longer then partial else full

by_length_lem :
    (ps : List AttributeQualifierPattern) (qs : List AttributeQualifier)
    → by_length ps qs ≡ match_path ps qs
unfolding matches_to
by_length_lem [] [] = refl
by_length_lem [] (q ∷ qs) = ground arith
by_length_lem (p ∷ ps) [] = ground arith
by_length_lem (p ∷ ps) (q ∷ qs) = ground (arith, by_length_lem ps qs)

abbrev pub spec : AttributePattern → Attribute → MatchType
spec p a =
    if bytes_eq a.variable_name p.variable then match_path p.path a.qualifier_path else none_match

-- `IsMatch` compares the names and then the paths qualifier by qualifier: none at the first
-- difference, else full when the pattern ends first or with the attribute, and partial when the
-- attribute ends first.
pub is_match-match_path : (p : AttributePattern) (a : Attribute) → is_match p a ≡ spec p a
unfolding is_match
is_match-match_path p a =
    let paths = by_length_lem p.path a.qualifier_path in
    elim (Bool-cases (bytes_eq a.variable_name p.variable)) [
      | inl e ↦ rw e paths
      | inr e ↦ rw e refl
    ]

abbrev pub extend : Attribute → List AttributeQualifier → Attribute
extend a qs = record a { qualifier_path = a.qualifier_path ++ qs }

match_path-extend :
    (ps : List AttributeQualifierPattern) (qs more : List AttributeQualifier)
    → (match_path ps qs ≡ full → match_path ps (qs ++ more) ≡ full)
      × (match_path ps qs ≡ none_match → match_path ps (qs ++ more) ≡ none_match)
match_path-extend [] qs more = ((λ _. refl), (λ h. absurd cc))
match_path-extend (p ∷ ps) [] more = ((λ h. absurd cc), (λ h. absurd cc))
match_path-extend (p ∷ ps) (q ∷ qs) more =
    let (f, n) = match_path-extend ps qs more in
    elim (Bool-cases (qualifier_is_match p q)) [
      | inl e ↦ rw e (f, n)
      | inr e ↦ rw e ((λ h. absurd cc), (λ _. refl))
    ]

-- The qualifiers that a pattern still asks for; a wildcard gets the empty key.
abbrev pub witness_path : List AttributeQualifierPattern → List AttributeQualifier
witness_path [] = []
witness_path (wildcard ∷ ps) = record { value = [] } ∷ witness_path ps
witness_path (exact q ∷ ps) = q ∷ witness_path ps

match_path-witness : (ps : List AttributeQualifierPattern) → match_path ps (witness_path ps) ≡ full
match_path-witness [] = refl
match_path-witness (wildcard ∷ ps) = match_path-witness ps
match_path-witness (exact q ∷ ps) = rw (bytes_eq_refl q.value) (match_path-witness ps)

match_path-partial :
    (ps : List AttributeQualifierPattern) (qs : List AttributeQualifier)
    → match_path ps qs ≡ partial
    → (more : List AttributeQualifier) × (match_path ps (qs ++ more) ≡ full)
match_path-partial [] qs h = absurd cc
match_path-partial (p ∷ ps) [] h = (witness_path (p ∷ ps), match_path-witness (p ∷ ps))
match_path-partial (p ∷ ps) (q ∷ qs) h = elim (Bool-cases (qualifier_is_match p q)) [
  | inl e ↦ rw e (match_path-partial ps qs (rw e at h))
  | inr e ↦ absurd (ground (arith, h, e))
]

settled :
    (before after : MatchType)
    → before ≢ partial
    → (before ≡ full → after ≡ full)
    → (before ≡ none_match → after ≡ none_match)
    → after ≡ before
settled none_match after h f n = n refl
settled partial after h f n = absurd (h refl)
settled full after h f n = f refl

spec-extend :
    (p : AttributePattern) (a : Attribute) (qs : List AttributeQualifier)
    → spec p a ≢ partial
    → spec p (extend a qs) ≡ spec p a
spec-extend p a qs = elim (Bool-cases (bytes_eq a.variable_name p.variable)) [
  | inl e ↦
      rw e (λ h. let (f, n) = match_path-extend p.path a.qualifier_path qs in settled _ _ h f n)
  | inr e ↦ rw e (λ _. refl)
]

spec-partial :
    (p : AttributePattern) (a : Attribute)
    → spec p a ≡ partial
    → (qs : List AttributeQualifier) × (spec p (extend a qs) ≡ full)
spec-partial p a = elim (Bool-cases (bytes_eq a.variable_name p.variable)) [
  | inl e ↦ rw e (match_path-partial p.path a.qualifier_path)
  | inr e ↦ rw e (λ h. absurd cc)
]

-- An answer of `IsMatch` other than partial is final: every attribute below this one gets it too.
pub is_match-extend :
    (p : AttributePattern) (a : Attribute) (qs : List AttributeQualifier)
    → is_match p a ≢ partial
    → is_match p (extend a qs) ≡ is_match p a
is_match-extend p a qs h =
    is_match-match_path p (extend a qs)
    ∙ spec-extend p a qs (λ e. h (is_match-match_path p a ∙ e))
    ∙ sym (is_match-match_path p a)

-- A partial answer means that the pattern fully matches some attribute below this one.
pub is_match-partial :
    (p : AttributePattern) (a : Attribute)
    → is_match p a ≡ partial
    → (qs : List AttributeQualifier) × (is_match p (extend a qs) ≡ full)
is_match-partial p a h =
    let (qs, e) = spec-partial p a (sym (is_match-match_path p a) ∙ h) in
    (qs, is_match-match_path p (extend a qs) ∙ e)
