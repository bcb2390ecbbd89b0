-- ===== src/Eval/Attribute/Parser/Sound.antt =====
-- eval/attribute.cc: what the parser accepts is a text of the grammar.
use cel_spec_wasm.Prelude.{
  ℕ, ◌≡◌, refl, sym, ap, ◌∙◌, ◌⊎◌, inl, inr, true, false, ◌&&◌, List, [], ◌∷◌, ◌++◌, append-nil,
  append_assoc, arith, ◌==◌, length, take, drop, ◌-◌, length-append, Bool-cases,
}
use cel_spec_wasm.Eval.Attribute.{AttributeQualifierPattern, wildcard, AttributePattern, of_string}
use cel_spec_wasm.Eval.Attribute.Parser.{
  dot, star, is_ident_start, is_ident_cont, PatternParser, StatusOr, ok, invalid_argument, Message,
  star_as_root, empty_segment, adjacent_star, bad_char_reason, initial, commit, step,
  step_seg_start, step_in_ident, step_after_star, run_loop, run_from, finish, parse, is_after_star,
}
use cel_spec_wasm.Eval.Attribute.Parser.Grammar.{
  all_cont, is_ident, all_qualifiers, is_pattern, render_qualifier, render_path, render, pattern_of,
  inside, starred, between, run_from-step, run_from-nil, segment, take_all,
}

-- The parser that has read `pre`.
data HasRead : List ℕ → PatternParser → Type 0 where
  at_root : HasRead [] (between [] [] false 0)
  at_segment :
      (r : AttributePattern) (b : ℕ)
      → is_pattern r ≡ true
      → HasRead (render r ++ (dot ∷ [])) (between r.variable r.path true b)
  in_root : (seg : List ℕ) → is_ident seg ≡ true → HasRead seg (inside (between [] [] false 0) 0)
  in_segment :
      (r : AttributePattern) (b : ℕ) (seg : List ℕ)
      → is_pattern r ≡ true
      → is_ident seg ≡ true
      → HasRead
          ((render r ++ (dot ∷ [])) ++ seg)
          (inside (between r.variable r.path true b) (length (render r ++ (dot ∷ []))))
  behind_star :
      (r : AttributePattern) (b : ℕ)
      → is_pattern r ≡ true
      → HasRead
          ((render r ++ (dot ∷ [])) ++ (star ∷ []))
          (starred (between r.variable r.path true b) (length (render r ++ (dot ∷ []))))

-- What one step gives: an error, or the parser that has read one byte more.
abbrev Advances : List ℕ → PatternParser → List ℕ → ℕ → Type 0
Advances dotted p pre c =
    ((e : Message) × (step dotted p (length pre) c ≡ invalid_argument e))
    ⊎ ((p' : PatternParser) × (step dotted p (length pre) c ≡ ok p') × HasRead (pre ++ (c ∷ [])) p')

render_path-append :
    (qs : List AttributeQualifierPattern) (q : AttributeQualifierPattern)
    → render_path (qs ++ (q ∷ [])) ≡ render_path qs ++ (dot ∷ render_qualifier q)
render_path-append [] q = append-nil (dot ∷ render_qualifier q)
render_path-append (p ∷ qs) q =
    ap (λ t. (dot ∷ render_qualifier p) ++ t) (render_path-append qs q)
    ∙ sym (append_assoc (dot ∷ render_qualifier p) (render_path qs) (dot ∷ render_qualifier q))

extend_path :
    (r : AttributePattern) (q : AttributeQualifierPattern)
    → render (pattern_of r.variable (r.path ++ (q ∷ [])))
      ≡ (render r ++ (dot ∷ [])) ++ render_qualifier q
extend_path r q =
    ap (λ t. r.variable ++ t) (render_path-append r.path q)
    ∙ sym (append_assoc r.variable (render_path r.path) (dot ∷ render_qualifier q))
    ∙ sym (append_assoc (render r) (dot ∷ []) (render_qualifier q))

extend_valid :
    (qs : List AttributeQualifierPattern) (q : AttributeQualifierPattern)
    → all_qualifiers qs ≡ true
    → all_qualifiers (q ∷ []) ≡ true
    → all_qualifiers (qs ++ (q ∷ [])) ≡ true
extend_valid [] q h hq = hq
extend_valid (p ∷ qs) q h hq = ground (arith, extend_valid qs q)

extend_pattern :
    (r : AttributePattern) (q : AttributeQualifierPattern)
    → is_pattern r ≡ true
    → all_qualifiers (q ∷ []) ≡ true
    → is_pattern (pattern_of r.variable (r.path ++ (q ∷ []))) ≡ true
extend_pattern r q h hq = ground (arith, extend_valid r.path q)

extend_cont :
    (cs : List ℕ) (c : ℕ)
    → all_cont cs ≡ true
    → is_ident_cont c ≡ true
    → all_cont (cs ++ (c ∷ [])) ≡ true
extend_cont [] c h hc = ground arith
extend_cont (d ∷ cs) c h hc = ground (arith, extend_cont cs c)

extend_ident :
    (seg : List ℕ) (c : ℕ)
    → is_ident seg ≡ true
    → is_ident_cont c ≡ true
    → is_ident (seg ++ (c ∷ [])) ≡ true
extend_ident [] c h hc = ground arith
extend_ident (d ∷ cs) c h hc = ground (arith, extend_cont cs c)

equal : (a b : ℕ) → (a == b) ≡ true → a ≡ b
equal a b h = ground arith

-- The steps, test by test.
step-ident :
    (p : PatternParser) (i c : ℕ) → is_ident_start c ≡ true → step_seg_start p i c ≡ ok (inside p i)
unfolding step_seg_start
step-ident p i c h = rw h refl

step-star :
    (p : PatternParser) (i c : ℕ)
    → is_ident_start c ≡ false
    → ((c == star) && p.have_root) ≡ true
    → step_seg_start p i c ≡ ok (starred p i)
unfolding step_seg_start
step-star p i c h e = rw (h, e) refl

step-start_error :
    (p : PatternParser) (i c : ℕ)
    → is_ident_start c ≡ false
    → ((c == star) && p.have_root) ≡ false
    → (e : Message) × (step_seg_start p i c ≡ invalid_argument e)
unfolding step_seg_start
step-start_error p i c h1 h2 = elim (Bool-cases (c == star)) [
  | inl e ↦ (star_as_root, rw (h1, h2, e) refl)
  | inr e ↦ elim (Bool-cases (c == dot)) [
    | inl e' ↦ (empty_segment, rw (h1, h2, e, e') refl)
    | inr e' ↦ (bad_char_reason c, rw (h1, h2, e, e') refl)
  ]
]

advance-root : (dotted : List ℕ) (c : ℕ) → Advances dotted (between [] [] false 0) [] c
unfolding step
advance-root dotted c = elim (Bool-cases (is_ident_start c)) [
  | inl e ↦
      inr (inside (between [] [] false 0) 0, step-ident _ 0 c e, in_root (c ∷ []) (ground arith))
  | inr e ↦ inl (step-start_error (between [] [] false 0) 0 c e (ground arith))
]

advance-segment :
    (dotted : List ℕ) (r : AttributePattern) (b c : ℕ)
    → is_pattern r ≡ true
    → Advances dotted (between r.variable r.path true b) (render r ++ (dot ∷ [])) c
unfolding step
advance-segment dotted r b c h =
    let p = between r.variable r.path true b in
    let i = length (render r ++ (dot ∷ [])) in
    elim (Bool-cases (is_ident_start c)) [
      | inl e ↦ inr (inside p i, step-ident p i c e, in_segment r b (c ∷ []) h (ground arith))
      | inr e ↦ elim (Bool-cases ((c == star) && true)) [
        | inl e' ↦ inr (
          starred p i,
          step-star p i c e e',
          rw (equal c star (ground arith)) (behind_star r b h),
        )
        | inr e' ↦ inl (step-start_error p i c e e')
      ]
    ]

-- Inside an identifier that began at `b`, when the commit at its end gives the pattern `r`.
advance-ident :
    (dotted pre : List ℕ) (q : PatternParser) (b : ℕ) (r : AttributePattern) (c : ℕ)
    → (is_ident_cont c ≡ true → HasRead (pre ++ (c ∷ [])) (inside q b))
    → is_pattern r ≡ true
    → pre ≡ render r
    → commit dotted (inside q b) (length pre) false ≡ inside (between r.variable r.path true b) b
    → Advances dotted (inside q b) pre c
unfolding step step_in_ident
advance-ident dotted pre q b r c cont h hpre hc = elim (Bool-cases (is_ident_cont c)) [
  | inl e ↦ inr (inside q b, rw e refl, cont e)
  | inr e ↦ elim (Bool-cases (c == dot)) [
    | inl e' ↦ inr (
      between r.variable r.path true b,
      rw (e, e', hc) refl,
      rw (hpre, equal c dot e') (at_segment r b h),
    )
    | inr e' ↦ inl (bad_char_reason c, rw (e, e') refl)
  ]
]

commit-root :
    (seg rest : List ℕ)
    → commit (seg ++ rest) (inside (between [] [] false 0) 0) (length seg) false
      ≡ inside (between seg [] true 0) 0
unfolding commit
commit-root seg rest = rw (take_all seg rest) refl

commit-segment :
    (r : AttributePattern) (b : ℕ) (pre seg rest : List ℕ)
    → commit
        (pre ++ (seg ++ rest))
        (inside (between r.variable r.path true b) (length pre))
        (length (pre ++ seg))
        false
      ≡ inside (between r.variable (r.path ++ (of_string seg ∷ [])) true b) (length pre)
unfolding commit
commit-segment r b pre seg rest = rw (segment pre seg rest) refl

advance :
    (dotted pre : List ℕ) (c : ℕ) (rest : List ℕ) (p : PatternParser)
    → HasRead pre p
    → dotted ≡ pre ++ (c ∷ rest)
    → Advances dotted p pre c
unfolding step step_after_star commit
advance dotted _ c rest _ at_root e = advance-root dotted c
advance dotted _ c rest _ (at_segment r b h) e = advance-segment dotted r b c h
advance dotted _ c rest _ (in_root seg hs) e =
    advance-ident dotted seg (between [] [] false 0) 0 (pattern_of seg []) c
      (λ hc. in_root (seg ++ (c ∷ [])) (extend_ident seg c hs hc)) (ground (arith, hs))
      (sym (append-nil seg)) (rw e (commit-root seg (c ∷ rest)))
advance dotted _ c rest _ (in_segment r b seg h hs) e =
    let pre = render r ++ (dot ∷ []) in
    advance-ident dotted (pre ++ seg) (between r.variable r.path true b) (length pre)
      (pattern_of r.variable (r.path ++ (of_string seg ∷ []))) c
      (λ hc.
        rw (append_assoc pre seg (c ∷ []))
          (in_segment r b (seg ++ (c ∷ [])) h (extend_ident seg c hs hc)))
      (extend_pattern r (of_string seg) h (ground (arith, hs)))
      (sym (extend_path r (of_string seg)))
      (rw (e ∙ append_assoc pre seg (c ∷ rest)) (commit-segment r b pre seg (c ∷ rest)))
advance dotted _ c rest _ (behind_star r b h) e = elim (Bool-cases (c == dot)) [
  | inl e' ↦ inr (
    between r.variable (r.path ++ (wildcard ∷ [])) true (length (render r ++ (dot ∷ []))),
    rw e' refl,
    rw (equal c dot e', sym (extend_path r wildcard))
        (at_segment (pattern_of r.variable (r.path ++ (wildcard ∷ []))) _
          (extend_pattern r wildcard h refl)),
  )
  | inr e' ↦ inl (adjacent_star, rw e' refl)
]

result : AttributePattern → StatusOr AttributePattern → AttributePattern
result r (ok r') = r'
result r (invalid_argument _) = r

-- A parse that gives `r'` gives a text and a pattern of the grammar.
parsed :
    (text : List ℕ) (out : StatusOr AttributePattern) (r' r : AttributePattern)
    → out ≡ ok r'
    → render r' ≡ text
    → is_pattern r' ≡ true
    → out ≡ ok r
    → (render r ≡ text) × (is_pattern r ≡ true)
unfolding result
parsed text out r' r e' ht h e =
    let same : r' ≡ r = ap (result r) (sym e' ∙ e) in
    (ap render (sym same) ∙ ht, ap is_pattern (sym same) ∙ h)

take_whole : (seg : List ℕ) → take (length seg - 0) seg ≡ seg
take_whole seg = ap (take (length seg - 0)) (sym (append-nil seg)) ∙ take_all seg []

segment_end :
    (pre seg : List ℕ)
    → take (length (pre ++ seg) - length pre) (drop (length pre) (pre ++ seg)) ≡ seg
segment_end pre seg =
    ap (λ t. take (length (pre ++ seg) - length pre) (drop (length pre) (pre ++ t)))
      (sym (append-nil seg))
    ∙ segment pre seg []

-- At the end of the text.
ends :
    (dotted : List ℕ) (p : PatternParser) (r : AttributePattern)
    → HasRead dotted p
    → finish dotted p ≡ ok r
    → (render r ≡ dotted) × (is_pattern r ≡ true)
unfolding finish is_after_star commit
ends _ _ r at_root e = cc
ends _ _ r (at_segment r' b h) e = cc
ends _ _ r (in_root seg hs) e =
    parsed seg _ (pattern_of seg []) r (rw (take_whole seg) refl) (append-nil seg)
      (ground (arith, hs)) e
ends _ _ r (in_segment r' b seg h hs) e =
    let pre = render r' ++ (dot ∷ []) in
    parsed (pre ++ seg) _ (pattern_of r'.variable (r'.path ++ (of_string seg ∷ []))) r
      (rw (segment_end pre seg) refl) (extend_path r' (of_string seg))
      (extend_pattern r' (of_string seg) h (ground (arith, hs))) e
ends _ _ r (behind_star r' b h) e =
    parsed _ _ (pattern_of r'.variable (r'.path ++ (wildcard ∷ []))) r refl
      (extend_path r' wildcard) (extend_pattern r' wildcard h refl) e

run_from-stop :
    (dotted : List ℕ) (i c : ℕ) (rest : List ℕ) (p : PatternParser) (m : Message)
    → step dotted p i c ≡ invalid_argument m
    → run_from dotted i (c ∷ rest) p ≡ invalid_argument m
unfolding run_from run_loop
run_from-stop dotted i c rest p m h = rw (h, run_from, run_loop) refl

run_from_sound :
    (dotted pre rest : List ℕ) (p : PatternParser) (r : AttributePattern)
    → HasRead pre p
    → dotted ≡ pre ++ rest
    → run_from dotted (length pre) rest p ≡ ok r
    → (render r ≡ dotted) × (is_pattern r ≡ true)
run_from_sound dotted pre [] p r hp e h =
    let whole : pre ≡ dotted = sym (e ∙ append-nil pre) in
    ends dotted p r (rw whole at hp) (sym (run_from-nil dotted (length pre) p) ∙ h)
run_from_sound dotted pre (c ∷ rest) p r hp e h = elim (advance dotted pre c rest p hp e) [
  | inl (m, stops) ↦
      let clash : invalid_argument m ≡ ok r =
        sym (run_from-stop dotted (length pre) c rest p m stops) ∙ h in
      absurd cc
  | inr (p', goes, hp') ↦
      run_from_sound dotted (pre ++ (c ∷ [])) rest p' r hp'
        (e ∙ sym (append_assoc pre (c ∷ []) rest))
        (ap (λ i. run_from dotted i rest p') (length-append pre (c ∷ []))
          ∙ sym (run_from-step dotted (length pre) c rest p p' goes)
          ∙ h)
]

-- Whatever the parser accepts is a pattern of the grammar, and the text is exactly that pattern
-- written out.
pub parse_sound :
    (dotted : List ℕ) (r : AttributePattern)
    → parse dotted ≡ ok r
    → (render r ≡ dotted) × (is_pattern r ≡ true)
unfolding parse initial
parse_sound dotted r h = run_from_sound dotted [] dotted (between [] [] false 0) r at_root refl h
