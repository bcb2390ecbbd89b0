-- ===== src/Abi/CelfnWire/Equality.antt =====
-- abi/celfn_wire.cc: a type and its message say the same.
use cel_spec_wasm.Prelude.{
  ℕ, ◌↔◌, if◌then◌else◌, ◌≡◌, refl, sym, ap, ap₂, ◌∙◌, Bool, true, false, ◌&&◌, ◌||◌, not, Option,
  none, some, List, arith, ◌==◌, bytes_eq, bytes_eq_refl, bytes_eq→eq,
}
use cel_spec_wasm.Shared.StaticType.{
  CelType, unknown, bool, int, uint, double, string, bytes, list, map, message, duration, timestamp,
  type_type, null, optional,
}
use cel_spec_wasm.Abi.CelfnWire.{
  WireType, wire, WireParams, no_params, param, type_from_cel_type, type_equals, params_equal,
  params_size, with_one, with_two, wire_list, wire_map, wire_optional,
}

both_true : (a b : Bool) → (a && b) ≡ true → (a ≡ true) × (b ≡ true)
both_true a b h = ground arith

all_true :
    (a b c d : Bool) → (a && b && c && d) ≡ true → (a ≡ true) × (b ≡ true) × (c ≡ true) × (d ≡ true)
all_true a b c d h = ground arith

equal : (a b : ℕ) → (a == b) ≡ true → a ≡ b
equal a b h = ground arith

mutual
  unfolding type_equals params_size

  type_equals→eq : (a b : WireType) → type_equals a b ≡ true → a ≡ b
  type_equals→eq (wire k n ps) (wire k' n' ps') h =
      let (hk, hn, hs, hp) =
        all_true (k == k') (bytes_eq n n') (params_size ps == params_size ps') (params_equal ps ps')
          h in
      ap (λ x. wire x n ps) (equal k k' hk)
      ∙ ap (λ x. wire k' x ps) (bytes_eq→eq n n' hn)
      ∙ ap (wire k' n') (params_equal→eq ps ps' (equal _ _ hs) hp)

  params_equal→eq :
      (ps qs : WireParams) → params_size ps ≡ params_size qs → params_equal ps qs ≡ true → ps ≡ qs
  params_equal→eq no_params no_params s h = refl
  params_equal→eq no_params (param b qs) s h = ground arith
  params_equal→eq (param a ps) no_params s h = ground arith
  params_equal→eq (param a ps) (param b qs) s h =
      let (first, rest) = both_true (type_equals a b) (params_equal ps qs) h in
      ap₂ param (type_equals→eq a b first) (params_equal→eq ps qs (omega arith) rest)

mutual
  unfolding type_equals

  type_equals_refl : (a : WireType) → type_equals a a ≡ true
  type_equals_refl (wire k n ps) =
      let rest = params_equal_refl ps in ground (arith, bytes_eq_refl n, rest)

  params_equal_refl : (ps : WireParams) → params_equal ps ps ≡ true
  params_equal_refl no_params = refl
  params_equal_refl (param a ps) = ground (arith, type_equals_refl a, params_equal_refl ps)

-- The type that a message was made from.
scalar_of : ℕ → List ℕ → CelType
scalar_of k n =
    if k == 1
    then bool
    else if k == 2
    then int
    else if k == 3
    then uint
    else if k == 4
    then double
    else if k == 5
    then string
    else if k == 6
    then bytes
    else if k == 7
    then duration
    else if k == 8
    then timestamp
    else if k == 9
    then message n
    else if k == 12
    then type_type
    else null

type_of : WireType → CelType
unfolding scalar_of
type_of (wire k n no_params) = scalar_of k n
type_of (wire k n (param e no_params)) =
    let inner = type_of e in if k == 10 then list inner else optional inner
type_of (wire k n (param a (param b ps))) = map (type_of a) (type_of b)

some-injective : (a b : WireType) → some a ≡ some b → a ≡ b
some-injective a b h = ground arith

one_lem :
    (f : WireType → WireType) (o : Option WireType) (t : WireType)
    → with_one f o ≡ some t
    → (e : WireType) × (o ≡ some e) × (f e ≡ t)
one_lem f none t h = cc
one_lem f (some e) t h = (e, refl, some-injective _ _ h)

two_lem :
    (f : WireType → WireType → WireType) (o o' : Option WireType) (t : WireType)
    → with_two f o o' ≡ some t
    → (a : WireType) × (b : WireType) × (o ≡ some a) × (o' ≡ some b) × (f a b ≡ t)
two_lem f none o' t h = cc
two_lem f (some a) none t h = cc
two_lem f (some a) (some b) t h = (a, b, refl, refl, some-injective _ _ h)

type_of-from : (a : CelType) (t : WireType) → type_from_cel_type a ≡ some t → type_of t ≡ a
unfolding type_from_cel_type type_of
type_of-from unknown t h = cc
type_of-from bool t h = ap type_of (sym (some-injective _ t h))
type_of-from int t h = ap type_of (sym (some-injective _ t h))
type_of-from uint t h = ap type_of (sym (some-injective _ t h))
type_of-from double t h = ap type_of (sym (some-injective _ t h))
type_of-from string t h = ap type_of (sym (some-injective _ t h))
type_of-from bytes t h = ap type_of (sym (some-injective _ t h))
type_of-from duration t h = ap type_of (sym (some-injective _ t h))
type_of-from timestamp t h = ap type_of (sym (some-injective _ t h))
type_of-from type_type t h = ap type_of (sym (some-injective _ t h))
type_of-from null t h = ap type_of (sym (some-injective _ t h))
type_of-from (message n) t h = ap type_of (sym (some-injective _ t h))
type_of-from (list a) t h =
    let (e, he, ht) = one_lem wire_list (type_from_cel_type a) t h in
    ap type_of (sym ht) ∙ ap list (type_of-from a e he)
type_of-from (optional a) t h =
    let (e, he, ht) = one_lem wire_optional (type_from_cel_type a) t h in
    ap type_of (sym ht) ∙ ap optional (type_of-from a e he)
type_of-from (map a b) t h =
    let (e, f, he, hf, ht) = two_lem wire_map (type_from_cel_type a) (type_from_cel_type b) t h in
    ap type_of (sym ht) ∙ ap₂ map (type_of-from a e he) (type_of-from b f hf)

-- Of two types that have messages, `TypeEquals` finds the messages equal exactly when the types are
-- the same.
pub type_equals_iff :
    (a b : CelType) (t u : WireType)
    → type_from_cel_type a ≡ some t
    → type_from_cel_type b ≡ some u
    → (type_equals t u ≡ true) ↔ (a ≡ b)
type_equals_iff a b t u ha hb = (
  (λ h. sym (type_of-from a t ha) ∙ ap type_of (type_equals→eq t u h) ∙ type_of-from b u hb),
  (λ e.
      let same : t ≡ u = some-injective t u (sym ha ∙ ap type_from_cel_type e ∙ hb) in
      ap (type_equals t) (sym same) ∙ type_equals_refl t),
)

-- Whether a type mentions the sentinel of a type that was never set.
abbrev pub mentions_unknown : CelType → Bool
mentions_unknown unknown = true
mentions_unknown (list a) = mentions_unknown a
mentions_unknown (optional a) = mentions_unknown a
mentions_unknown (map a b) = mentions_unknown a || mentions_unknown b
mentions_unknown _ = false

abbrev pub is_some : Option WireType → Bool
is_some none = false
is_some (some _) = true

with_one-is_some :
    (f : WireType → WireType) (o : Option WireType) → is_some (with_one f o) ≡ is_some o
with_one-is_some f none = refl
with_one-is_some f (some a) = refl

with_two-is_some :
    (f : WireType → WireType → WireType) (o o' : Option WireType)
    → is_some (with_two f o o') ≡ (is_some o && is_some o')
with_two-is_some f none o' = refl
with_two-is_some f (some a) none = refl
with_two-is_some f (some a) (some b) = refl

-- `TypeFromCelType` aborts exactly on a type that mentions the sentinel.
pub type_from_cel_type-is_some :
    (a : CelType) → is_some (type_from_cel_type a) ≡ not (mentions_unknown a)
unfolding type_from_cel_type
type_from_cel_type-is_some unknown = refl
type_from_cel_type-is_some bool = refl
type_from_cel_type-is_some int = refl
type_from_cel_type-is_some uint = refl
type_from_cel_type-is_some double = refl
type_from_cel_type-is_some string = refl
type_from_cel_type-is_some bytes = refl
type_from_cel_type-is_some duration = refl
type_from_cel_type-is_some timestamp = refl
type_from_cel_type-is_some type_type = refl
type_from_cel_type-is_some null = refl
type_from_cel_type-is_some (message n) = refl
type_from_cel_type-is_some (list a) =
    with_one-is_some wire_list (type_from_cel_type a) ∙ type_from_cel_type-is_some a
type_from_cel_type-is_some (optional a) =
    with_one-is_some wire_optional (type_from_cel_type a) ∙ type_from_cel_type-is_some a
type_from_cel_type-is_some (map a b) =
    with_two-is_some wire_map (type_from_cel_type a) (type_from_cel_type b)
    ∙ ground (arith, type_from_cel_type-is_some a, type_from_cel_type-is_some b)
