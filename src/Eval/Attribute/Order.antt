-- ===== src/Eval/Attribute/Order.antt =====
-- eval/attribute.cc: `Attribute::operator<` is a strict total order, and `operator==` equality.
use cel_spec_wasm.Prelude.{
  ℕ, suc, ◌≡◌, refl, sym, ap, ap₂, ◌∙◌, Bool, true, false, ◌&&◌, not, List, [], ◌∷◌, arith, ltb,
  if◌then◌else◌, bytes_eq, bytes_eq_refl, bytes_eq→eq, length, Bool-cases, ◌⊎◌, inl, inr,
}
use cel_spec_wasm.Eval.Attribute.{
  AttributeQualifier, Attribute, bytes_lt, qualifier_lt, path_eq, path_lt, attribute_eq,
  attribute_lt,
}

-- A strict total order, as tests.
pub record StrictOrder (A : Type 0) (lt : A → A → Bool) : Type 0 where
  pub irreflexive : (a : A) → lt a a ≡ false
  pub transitive : (a b c : A) → lt a b ≡ true → lt b c ≡ true → lt a c ≡ true
  pub total : (a b : A) → lt a b ≡ false → lt b a ≡ false → a ≡ b

-- Lists in the order of the dictionary.
abbrev pub lex : {A : Type 0} → (A → A → Bool) → List A → List A → Bool
lex lt [] [] = false
lex lt [] (_ ∷ _) = true
lex lt (_ ∷ _) [] = false
lex lt (a ∷ xs) (b ∷ ys) =
    let rest = lex lt xs ys in if lt a b then true else if lt b a then false else rest

both_true : (a b : Bool) → (a && b) ≡ true → (a ≡ true) × (b ≡ true)
both_true a b h = ground arith

module _ {A : Type 0} (lt : A → A → Bool) (order : StrictOrder A lt) where
  lex-irreflexive : (xs : List A) → lex lt xs xs ≡ false
  lex-irreflexive [] = refl
  lex-irreflexive (x ∷ xs) = rw (order.irreflexive x) (lex-irreflexive xs)

  lex-total : (xs ys : List A) → lex lt xs ys ≡ false → lex lt ys xs ≡ false → xs ≡ ys
  lex-total [] [] h k = refl
  lex-total [] (y ∷ ys) h k = cc
  lex-total (x ∷ xs) [] h k = cc
  lex-total (x ∷ xs) (y ∷ ys) h k =
      ap₂ ◌∷◌ (order.total x y (ground arith) (ground arith))
        (lex-total xs ys (ground (arith, h)) (ground (arith, k)))

  -- A list comes first by its head, or has the same head.
  by_head :
      (x y : A) (rest : Bool)
      → (if lt x y then true else if lt y x then false else rest) ≡ true
      → (lt x y ≡ true) ⊎ ((x ≡ y) × (rest ≡ true))
  by_head x y rest h = elim (Bool-cases (lt x y)) [
    | inl e ↦ inl e
    | inr e ↦ elim (Bool-cases (lt y x)) [
      | inl e' ↦ absurd (ground (arith, h, e, e'))
      | inr e' ↦ inr (order.total x y e e', ground (arith, h, e, e'))
    ]
  ]

  same_head :
      (x z : A) (rest : Bool)
      → x ≡ z
      → rest ≡ true
      → (if lt x z then true else if lt z x then false else rest) ≡ true
  same_head x z rest e h = rw (e, order.irreflexive z) h

  earlier_head :
      (x z : A) (rest : Bool)
      → lt x z ≡ true
      → (if lt x z then true else if lt z x then false else rest) ≡ true
  earlier_head x z rest h = rw h refl

  lex-transitive :
      (xs ys zs : List A) → lex lt xs ys ≡ true → lex lt ys zs ≡ true → lex lt xs zs ≡ true
  lex-transitive [] [] zs h k = cc
  lex-transitive [] (y ∷ ys) [] h k = cc
  lex-transitive [] (y ∷ ys) (z ∷ zs) h k = refl
  lex-transitive (x ∷ xs) [] zs h k = cc
  lex-transitive (x ∷ xs) (y ∷ ys) [] h k = cc
  lex-transitive (x ∷ xs) (y ∷ ys) (z ∷ zs) h k = elim (by_head x y (lex lt xs ys) h) [
    | inl a ↦ elim (by_head y z (lex lt ys zs) k) [
      | inl b ↦ earlier_head x z _ (order.transitive x y z a b)
      | inr (e, _) ↦ earlier_head x z _ (rw e at a)
    ]
    | inr (e, a) ↦ elim (by_head y z (lex lt ys zs) k) [
      | inl b ↦ earlier_head x z _ (rw e b)
      | inr (e', b) ↦ same_head x z _ (e ∙ e') (lex-transitive xs ys zs a b)
    ]
  ]

lex-StrictOrder :
    {A : Type 0} (lt : A → A → Bool) → StrictOrder A lt → StrictOrder (List A) (lex lt)
lex-StrictOrder lt order = record {
  irreflexive = lex-irreflexive lt order;
  transitive = lex-transitive lt order;
  total = lex-total lt order;
}

ltb-StrictOrder : StrictOrder ℕ ltb
ltb-StrictOrder = record {
  irreflexive = λ a. ground arith;
  transitive = λ a b c h k. ground arith;
  total = λ a b h k. ground arith;
}

-- A strict order pulled back along a map that loses nothing.
bytes_lt-lex : (xs ys : List ℕ) → bytes_lt xs ys ≡ lex ltb xs ys
unfolding bytes_lt
bytes_lt-lex [] [] = refl
bytes_lt-lex [] (y ∷ ys) = refl
bytes_lt-lex (x ∷ xs) [] = refl
bytes_lt-lex (x ∷ xs) (y ∷ ys) = rw (bytes_lt-lex xs ys) refl

path_lt-lex :
    (xs ys : List AttributeQualifier)
    → path_lt xs ys (ltb (length xs) (length ys)) ≡ lex qualifier_lt xs ys
unfolding path_lt
path_lt-lex [] [] = refl
path_lt-lex [] (y ∷ ys) = ground arith
path_lt-lex (x ∷ xs) [] = ground arith
path_lt-lex (x ∷ xs) (y ∷ ys) =
    let shorter : ltb (suc (length xs)) (suc (length ys)) ≡ ltb (length xs) (length ys) =
      ground arith in
    rw shorter (rw (path_lt-lex xs ys) refl)

-- A test that agrees with a strict order on the images of a map that loses nothing is one.
along :
    {A B : Type 0} (f : A → B) (lt : A → A → Bool) (order : B → B → Bool)
    → ((a b : A) → lt a b ≡ order (f a) (f b))
    → ((a b : A) → f a ≡ f b → a ≡ b)
    → StrictOrder B order
    → StrictOrder A lt
along f lt order agrees injective strict = record {
  irreflexive = λ a. agrees a a ∙ strict.irreflexive (f a);
  transitive = λ a b c h k.
      agrees a c
      ∙ strict.transitive (f a) (f b) (f c) (sym (agrees a b) ∙ h) (sym (agrees b c) ∙ k);
  total = λ a b h k.
      injective a b (strict.total (f a) (f b) (sym (agrees a b) ∙ h) (sym (agrees b a) ∙ k));
}

bytes_lt-StrictOrder : StrictOrder (List ℕ) bytes_lt
bytes_lt-StrictOrder =
    along (λ xs. xs) bytes_lt (lex ltb) bytes_lt-lex (λ a b e. e)
      (lex-StrictOrder ltb ltb-StrictOrder)

path-StrictOrder :
    StrictOrder (List AttributeQualifier) (λ xs ys. path_lt xs ys (ltb (length xs) (length ys)))
path-StrictOrder =
    along (λ xs. xs) _ (lex qualifier_lt) path_lt-lex (λ a b e. e)
      (lex-StrictOrder qualifier_lt (
        along (λ q. q.value) qualifier_lt bytes_lt (λ a b. refl)
          (λ a b e. ap (λ v. record { value = v }) e) bytes_lt-StrictOrder))

names_lem :
    (x y : List ℕ) (rest : Bool)
    → (if not (bytes_eq x y) then bytes_lt x y else rest)
      ≡ (if bytes_lt x y then true else if bytes_lt y x then false else rest)
names_lem x y rest = elim (Bool-cases (bytes_eq x y)) [
  | inl e ↦ rw (e, bytes_eq→eq x y e, bytes_lt-StrictOrder.irreflexive y) refl
  | inr e ↦ elim (Bool-cases (bytes_lt x y)) [
    | inl h ↦ rw (e, h) refl
    | inr h ↦ elim (Bool-cases (bytes_lt y x)) [
      | inl k ↦ rw (e, h, k) refl
      | inr k ↦
          let same : bytes_eq x y ≡ true =
            rw (bytes_lt-StrictOrder.total x y h k) (bytes_eq_refl y) in
          absurd cc
    ]
  ]
]

-- By name first, then by path.
abbrev name_then_path : List ℕ × List AttributeQualifier → List ℕ × List AttributeQualifier → Bool
name_then_path a b =
    if bytes_lt a.0 b.0
    then true
    else if bytes_lt b.0 a.0
    then false
    else path_lt a.1 b.1 (ltb (length a.1) (length b.1))

all_false :
    (p q r s : Bool)
    → (if p then true else if q then false else r) ≡ false
    → (if q then true else if p then false else s) ≡ false
    → (p ≡ false) × (q ≡ false) × (r ≡ false) × (s ≡ false)
all_false p q r s h k = ground arith

name_then_path-StrictOrder : StrictOrder (List ℕ × List AttributeQualifier) name_then_path
name_then_path-StrictOrder = record {
  irreflexive =
      λ a. rw (bytes_lt-StrictOrder.irreflexive (a.0)) (path-StrictOrder.irreflexive (a.1));
  transitive = λ a b c h k. elim (by_head bytes_lt bytes_lt-StrictOrder (a.0) (b.0) _ h) [
    | inl p ↦ elim (by_head bytes_lt bytes_lt-StrictOrder (b.0) (c.0) _ k) [
      | inl q ↦
          earlier_head bytes_lt bytes_lt-StrictOrder (a.0) (c.0) _
            (bytes_lt-StrictOrder.transitive (a.0) (b.0) (c.0) p q)
      | inr (e, _) ↦ earlier_head bytes_lt bytes_lt-StrictOrder (a.0) (c.0) _ (rw (← e) p)
    ]
    | inr (e, p) ↦ elim (by_head bytes_lt bytes_lt-StrictOrder (b.0) (c.0) _ k) [
      | inl q ↦ earlier_head bytes_lt bytes_lt-StrictOrder (a.0) (c.0) _ (rw e q)
      | inr (e', q) ↦
          same_head bytes_lt bytes_lt-StrictOrder (a.0) (c.0) _ (e ∙ e')
            (path-StrictOrder.transitive (a.1) (b.1) (c.1) p q)
    ]
  ];
  total = λ a b h k.
      let (p, q, r, s) = all_false _ _ _ _ h k in
      ap₂ (λ x y. (x, y)) (bytes_lt-StrictOrder.total (a.0) (b.0) p q)
        (path-StrictOrder.total (a.1) (b.1) r s);
}

-- `operator<` on attributes is irreflexive, transitive and total: two attributes neither of which
-- is less than the other are the same attribute.
pub attribute_lt-StrictOrder : StrictOrder Attribute attribute_lt
unfolding attribute_lt
attribute_lt-StrictOrder =
    along (λ a. (a.variable_name, a.qualifier_path)) attribute_lt name_then_path
      (λ a b. names_lem a.variable_name b.variable_name _)
      (λ a b e. ap (λ t. record { variable_name = t.0; qualifier_path = t.1 }) e)
      name_then_path-StrictOrder

path_eq_refl : (xs : List AttributeQualifier) → path_eq xs xs ≡ true
unfolding path_eq
path_eq_refl [] = refl
path_eq_refl (x ∷ xs) = rw (bytes_eq_refl x.value) (path_eq_refl xs)

path_eq→eq : (xs ys : List AttributeQualifier) → path_eq xs ys ≡ true → xs ≡ ys
unfolding path_eq
path_eq→eq [] [] h = refl
path_eq→eq [] (y ∷ ys) h = cc
path_eq→eq (x ∷ xs) [] h = cc
path_eq→eq (x ∷ xs) (y ∷ ys) h =
    let (head, tail) = both_true (bytes_eq x.value y.value) (path_eq xs ys) h in
    ap₂ ◌∷◌ (ap (λ v. record { value = v }) (bytes_eq→eq x.value y.value head))
      (path_eq→eq xs ys tail)

attribute_eq_refl : (a : Attribute) → attribute_eq a a ≡ true
unfolding attribute_eq
attribute_eq_refl a = rw (bytes_eq_refl a.variable_name) (path_eq_refl a.qualifier_path)

attribute_eq→eq : (a b : Attribute) → attribute_eq a b ≡ true → a ≡ b
unfolding attribute_eq
attribute_eq→eq a b h =
    let (name, path) = both_true (bytes_eq a.variable_name b.variable_name) _ h in
    ap₂ (λ v q. record { variable_name = v; qualifier_path = q })
      (bytes_eq→eq a.variable_name b.variable_name name)
      (path_eq→eq a.qualifier_path b.qualifier_path path)

-- `operator==` holds exactly when `operator<` holds in neither direction.
pub attribute_eq-lt :
    (a b : Attribute) → attribute_eq a b ≡ (not (attribute_lt a b) && not (attribute_lt b a))
attribute_eq-lt a b = elim (Bool-cases (attribute_eq a b)) [
  | inl e ↦
      let same = attribute_eq→eq a b e in
      rw (same, attribute_eq_refl b, attribute_lt-StrictOrder.irreflexive b) refl
  | inr e ↦ elim (Bool-cases (attribute_lt a b)) [
    | inl h ↦ rw (e, h) refl
    | inr h ↦ elim (Bool-cases (attribute_lt b a)) [
      | inl k ↦ rw (e, h, k) refl
      | inr k ↦
          let clash : attribute_eq a b ≡ true =
            rw (attribute_lt-StrictOrder.total a b h k) (attribute_eq_refl b) in
          absurd cc
    ]
  ]
]
