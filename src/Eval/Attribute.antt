-- ===== src/Eval/Attribute.antt =====
-- eval/attribute.h and eval/attribute.cc: resolved attribute paths, patterns over them and the
-- parser of patterns. A string is the list of its bytes.
pub mod Parser
pub mod Match
pub mod Order
mod Runs
use cel_spec_wasm.Prelude.{
  ℕ, zero, suc, ◌+◌, ◌-◌, ◌≡◌, Bool, true, false, ◌&&◌, ◌||◌, not, Option, none, some, List, [],
  ◌∷◌, ◌++◌, ltb, leb, ◌==◌, if◌then◌else◌, bytes_eq, length,
}

pub record AttributeQualifier : Type 0 where
  pub value : List ℕ

-- A qualifier of a pattern: `std::nullopt` is the wildcard.
pub data AttributeQualifierPattern : Type 0 where
  wildcard : AttributeQualifierPattern
  exact : AttributeQualifier → AttributeQualifierPattern

pub record Attribute : Type 0 where
  pub variable_name : List ℕ
  pub qualifier_path : List AttributeQualifier

pub record AttributePattern : Type 0 where
  pub variable : List ℕ
  pub path : List AttributeQualifierPattern

pub data MatchType : Type 0 where
  none_match : MatchType
  partial : MatchType
  full : MatchType

abbrev pub of_string : List ℕ → AttributeQualifierPattern
of_string value = exact (record { value = value })

-- The comparison of strings by unsigned bytes.
pub bytes_lt : List ℕ → List ℕ → Bool
bytes_lt [] [] = false
bytes_lt [] (_ ∷ _) = true
bytes_lt (_ ∷ _) [] = false
bytes_lt (a ∷ xs) (b ∷ ys) =
    let rest = bytes_lt xs ys in if ltb a b then true else if ltb b a then false else rest

abbrev pub qualifier_eq : AttributeQualifier → AttributeQualifier → Bool
qualifier_eq a b = bytes_eq a.value b.value

abbrev pub qualifier_lt : AttributeQualifier → AttributeQualifier → Bool
qualifier_lt a b = bytes_lt a.value b.value

pub path_eq : List AttributeQualifier → List AttributeQualifier → Bool
path_eq [] [] = true
path_eq [] (_ ∷ _) = false
path_eq (_ ∷ _) [] = false
path_eq (a ∷ xs) (b ∷ ys) = qualifier_eq a b && path_eq xs ys

-- The loop over the common length, with the comparison of the sizes at its end.
pub path_lt : List AttributeQualifier → List AttributeQualifier → Bool → Bool
path_lt [] _ shorter = shorter
path_lt (_ ∷ _) [] shorter = shorter
path_lt (a ∷ xs) (b ∷ ys) shorter =
    let rest = path_lt xs ys shorter in
    if qualifier_lt a b then true else if qualifier_lt b a then false else rest

pub attribute_eq : Attribute → Attribute → Bool
attribute_eq a b =
    bytes_eq a.variable_name b.variable_name && path_eq a.qualifier_path b.qualifier_path

pub attribute_lt : Attribute → Attribute → Bool
attribute_lt a b =
    if not (bytes_eq a.variable_name b.variable_name)
    then bytes_lt a.variable_name b.variable_name
    else path_lt a.qualifier_path b.qualifier_path
        (ltb (length a.qualifier_path) (length b.qualifier_path))

-- Whether a byte of a qualifier is refused in diagnostics; the answer for a byte from 128 on is
-- that of the platform's `char`.
abbrev unrenderable : Bool → ℕ → Bool
unrenderable char_is_signed c = ltb c 0x20 || (char_is_signed && leb 128 c) || (c == 0x22)

any_unrenderable : Bool → List ℕ → Bool
any_unrenderable char_is_signed [] = false
any_unrenderable char_is_signed (c ∷ cs) =
    unrenderable char_is_signed c || any_unrenderable char_is_signed cs

pub as_canonical_string : Bool → AttributeQualifier → Option (List ℕ)
unfolding any_unrenderable
as_canonical_string char_is_signed q =
    if any_unrenderable char_is_signed q.value
    then none
    else some ((0x5b ∷ 0x22 ∷ []) ++ q.value ++ (0x22 ∷ 0x5d ∷ []))

join_pieces : Bool → List AttributeQualifier → Option (List ℕ)
unfolding as_canonical_string
join_pieces char_is_signed [] = some []
join_pieces char_is_signed (q ∷ qs) = elim (as_canonical_string char_is_signed q) [
  | none ↦ none
  | some _ ↦ elim (join_pieces char_is_signed qs) [
    | none ↦ none
    | some rest ↦ some ((0x2e ∷ q.value) ++ rest)
  ]
]

pub as_string : Bool → Attribute → Option (List ℕ)
unfolding join_pieces
as_string char_is_signed a = elim (join_pieces char_is_signed a.qualifier_path) [
  | none ↦ none
  | some pieces ↦ some (a.variable_name ++ pieces)
]

-- `AttributeQualifierPattern::IsMatch` and `AttributePattern::IsMatch`.
abbrev pub qualifier_is_match : AttributeQualifierPattern → AttributeQualifier → Bool
qualifier_is_match wildcard q = true
qualifier_is_match (exact v) q = qualifier_eq v q

pub matches_to : ℕ → List AttributeQualifierPattern → List AttributeQualifier → Bool
matches_to zero ps qs = true
matches_to (suc n) (p ∷ ps) (q ∷ qs) = qualifier_is_match p q && matches_to n ps qs
matches_to (suc n) _ _ = true

pub is_match : AttributePattern → Attribute → MatchType
is_match p a =
    if not (bytes_eq a.variable_name p.variable)
    then none_match
    else (let longer = ltb (length a.qualifier_path) (length p.path) in
        let max_index = if longer then length a.qualifier_path else length p.path in
        if not (matches_to max_index p.path a.qualifier_path)
        then none_match
        else if longer
        then partial
        else full)
