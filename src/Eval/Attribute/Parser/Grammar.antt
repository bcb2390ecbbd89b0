-- ===== src/Eval/Attribute/Parser/Grammar.antt =====
-- eval/attribute.cc: the grammar of patterns, and that the parser accepts exactly its texts.
use cel_spec_wasm.Prelude.{
  ℕ, ◌+◌, ◌-◌, ◌≡◌, refl, sym, ap, ◌∙◌, Bool, true, false, ◌&&◌, List, [], ◌∷◌, ◌++◌, append-nil,
  append_assoc, arith, length, take, drop, length-append, take-length, drop-length,
}
use cel_spec_wasm.Eval.Attribute.{
  AttributeQualifierPattern, wildcard, exact, AttributePattern, of_string,
}
use cel_spec_wasm.Eval.Attribute.Parser.{
  dot, star, is_ident_start, is_ident_cont, PatternParser, ok, initial, commit, step,
  step_seg_start, step_in_ident, step_after_star, run_loop, run_from, finish, parse, seg_start,
  in_ident, after_star, is_after_star,
}

-- pattern := root ('.' qualifier)*, root := ident, qualifier := '*' | ident
abbrev pub all_cont : List ℕ → Bool
all_cont [] = true
all_cont (c ∷ cs) = is_ident_cont c && all_cont cs

abbrev pub is_ident : List ℕ → Bool
is_ident [] = false
is_ident (c ∷ cs) = is_ident_start c && all_cont cs

abbrev pub is_qualifier : AttributeQualifierPattern → Bool
is_qualifier wildcard = true
is_qualifier (exact q) = is_ident q.value

abbrev pub all_qualifiers : List AttributeQualifierPattern → Bool
all_qualifiers [] = true
all_qualifiers (q ∷ qs) = is_qualifier q && all_qualifiers qs

abbrev pub is_pattern : AttributePattern → Bool
is_pattern p = is_ident p.variable && all_qualifiers p.path

abbrev pub render_qualifier : AttributeQualifierPattern → List ℕ
render_qualifier wildcard = star ∷ []
render_qualifier (exact q) = q.value

abbrev pub render_path : List AttributeQualifierPattern → List ℕ
render_path [] = []
render_path (q ∷ qs) = (dot ∷ render_qualifier q) ++ render_path qs

abbrev pub render : AttributePattern → List ℕ
render p = p.variable ++ render_path p.path

-- The substring that `commit` takes, when the segment stands behind `pre`.
pub segment :
    (pre seg rest : List ℕ)
    → take (length (pre ++ seg) - length pre) (drop (length pre) (pre ++ (seg ++ rest))) ≡ seg
segment pre seg rest =
    let e : length (pre ++ seg) - length pre ≡ length seg = omega (arith, length-append pre seg) in
    rw (e, drop-length pre (seg ++ rest)) (take-length seg rest)

pub take_all : (seg rest : List ℕ) → take (length seg - 0) (seg ++ rest) ≡ seg
take_all seg rest = let e : length seg - 0 ≡ length seg = omega arith in rw e (take-length seg rest)

pub start_is_cont : (c : ℕ) → is_ident_start c ≡ true → is_ident_cont c ≡ true
unfolding is_ident_start is_ident_cont
start_is_cont c h = ground arith

pub dot_is_no_cont : is_ident_cont dot ≡ false
unfolding is_ident_cont
dot_is_no_cont = refl

pub run_from-step :
    (dotted : List ℕ) (i c : ℕ) (rest : List ℕ) (p p' : PatternParser)
    → step dotted p i c ≡ ok p'
    → run_from dotted i (c ∷ rest) p ≡ run_from dotted (i + 1) rest p'
unfolding run_from run_loop
run_from-step dotted i c rest p p' h = rw (h, run_from, run_loop) refl

pub run_from-nil :
    (dotted : List ℕ) (i : ℕ) (p : PatternParser) → run_from dotted i [] p ≡ finish dotted p
unfolding run_from run_loop
run_from-nil dotted i p = refl

pub both_true : (a b : Bool) → (a && b) ≡ true → (a ≡ true) × (b ≡ true)
both_true a b h = ground arith

-- The parser inside an identifier that began at `b`, and behind a `*`.
abbrev pub inside : PatternParser → ℕ → PatternParser
inside p b = record p { seg_begin = b; state = in_ident }

abbrev pub starred : PatternParser → ℕ → PatternParser
starred p b = record p { seg_begin = b; state = after_star }

step-cont :
    (dotted : List ℕ) (i b c : ℕ) (p : PatternParser)
    → is_ident_cont c ≡ true
    → step dotted (inside p b) i c ≡ ok (inside p b)
unfolding step step_in_ident
step-cont dotted i b c p h = rw h refl

step-ident :
    (dotted : List ℕ) (i c : ℕ) (p : PatternParser)
    → p.state ≡ seg_start
    → is_ident_start c ≡ true
    → step dotted p i c ≡ ok (inside p i)
unfolding step step_seg_start
step-ident dotted i c p hp h = rw (hp, h) refl

run_from-cont :
    (dotted : List ℕ) (i b : ℕ) (cs rest : List ℕ) (p : PatternParser)
    → all_cont cs ≡ true
    → run_from dotted i (cs ++ rest) (inside p b)
      ≡ run_from dotted (i + length cs) rest (inside p b)
run_from-cont dotted i b [] rest p h = ap (λ j. run_from dotted j rest (inside p b)) (omega arith)
run_from-cont dotted i b (c ∷ cs) rest p h =
    run_from-step dotted i c (cs ++ rest) (inside p b) (inside p b)
      (step-cont dotted i b c p (ground arith))
    ∙ run_from-cont dotted (i + 1) b cs rest p (ground arith)
    ∙ ap (λ j. run_from dotted j rest (inside p b)) (omega arith)

run_from-ident :
    (dotted : List ℕ) (i : ℕ) (seg rest : List ℕ) (p : PatternParser)
    → p.state ≡ seg_start
    → is_ident seg ≡ true
    → run_from dotted i (seg ++ rest) p ≡ run_from dotted (i + length seg) rest (inside p i)
run_from-ident dotted i [] rest p hp h = ground arith
run_from-ident dotted i (c ∷ cs) rest p hp h =
    run_from-step dotted i c (cs ++ rest) p (inside p i) (step-ident dotted i c p hp (ground arith))
    ∙ run_from-cont dotted (i + 1) i cs rest p (ground arith)
    ∙ ap (λ j. run_from dotted j rest (inside p i)) (omega arith)

-- Between two segments.
abbrev pub between : List ℕ → List AttributeQualifierPattern → Bool → ℕ → PatternParser
between v path root b = record {
  variable = v;
  path = path;
  have_root = root;
  seg_begin = b;
  state = seg_start;
}

-- At position `i` a segment may end: a dot commits it, and so does the end of the text.
abbrev Ready : List ℕ → PatternParser → ℕ → List ℕ → List AttributeQualifierPattern → Type 0
Ready dotted p i v path =
    (step dotted p i dot ≡ ok (between v path true p.seg_begin))
    × (length dotted ≡ i → finish dotted p ≡ ok (record { variable = v; path = path }))

module _ (dotted : List ℕ) (v : List ℕ) (path : List AttributeQualifierPattern) (b : ℕ) where
  Ready-root :
      (seg rest : List ℕ)
      → dotted ≡ seg ++ rest
      → Ready dotted (inside (between v path false b) 0) (length seg) seg path
  unfolding step step_in_ident commit finish is_after_star
  Ready-root seg rest e = (
    rw dot_is_no_cont (rw e (rw (take_all seg rest) refl)),
    λ h. rw h (rw e (rw (take_all seg rest) refl)),
  )

  Ready-ident :
      (pre seg rest : List ℕ)
      → dotted ≡ pre ++ (seg ++ rest)
      → Ready dotted
          (inside (between v path true b) (length pre))
          (length (pre ++ seg))
          v
          (path ++ (of_string seg ∷ []))
  unfolding step step_in_ident commit finish is_after_star
  Ready-ident pre seg rest e = (
    rw dot_is_no_cont (rw e (rw (segment pre seg rest) refl)),
    λ h. rw h (rw e (rw (segment pre seg rest) refl)),
  )

  Ready-star :
      (pre : List ℕ)
      → Ready dotted
          (starred (between v path true b) (length pre))
          (length (pre ++ (star ∷ [])))
          v
          (path ++ (wildcard ∷ []))
  unfolding step step_after_star commit finish is_after_star
  Ready-star pre = (refl, λ _. refl)

  run_from-dot :
      (pre rest : List ℕ) (p : PatternParser)
      → Ready dotted p (length pre) v path
      → run_from dotted (length pre) (dot ∷ rest) p
        ≡ run_from dotted (length (pre ++ (dot ∷ []))) rest (between v path true p.seg_begin)
  run_from-dot pre rest p ready =
      run_from-step dotted (length pre) dot rest p _ ready.0
      ∙ ap (λ i. run_from dotted i rest (between v path true p.seg_begin))
          (sym (length-append pre (dot ∷ [])))

  run_from-star :
      (pre rest : List ℕ)
      → run_from dotted (length pre) (star ∷ rest) (between v path true b)
        ≡ run_from dotted
            (length (pre ++ (star ∷ [])))
            rest
            (starred (between v path true b) (length pre))
  unfolding step step_seg_start is_ident_start
  run_from-star pre rest =
      run_from-step dotted (length pre) star rest (between v path true b) _ refl
      ∙ ap (λ i. run_from dotted i rest (starred (between v path true b) (length pre)))
          (sym (length-append pre (star ∷ [])))

  run_from-segment :
      (pre seg rest : List ℕ)
      → is_ident seg ≡ true
      → run_from dotted (length pre) (seg ++ rest) (between v path true b)
        ≡ run_from dotted (length (pre ++ seg)) rest (inside (between v path true b) (length pre))
  run_from-segment pre seg rest h =
      run_from-ident dotted (length pre) seg rest (between v path true b) refl h
      ∙ ap (λ i. run_from dotted i rest (inside (between v path true b) (length pre)))
          (sym (length-append pre seg))

abbrev pub pattern_of : List ℕ → List AttributeQualifierPattern → AttributePattern
pattern_of v path = record { variable = v; path = path }

run_from-path :
    (dotted pre : List ℕ) (qs : List AttributeQualifierPattern) (p : PatternParser) (v : List ℕ)
    (path : List AttributeQualifierPattern)
    → dotted ≡ pre ++ render_path qs
    → all_qualifiers qs ≡ true
    → Ready dotted p (length pre) v path
    → run_from dotted (length pre) (render_path qs) p ≡ ok (pattern_of v (path ++ qs))
run_from-path dotted pre [] p v path e hq ready =
    run_from-nil dotted (length pre) p
    ∙ ready.1 (ap length (e ∙ append-nil pre))
    ∙ ap (λ t. ok (pattern_of v t)) (sym (append-nil path))
run_from-path dotted pre (wildcard ∷ qs) p v path e hq ready =
    let here = pre ++ (dot ∷ []) in
    let next = here ++ (star ∷ []) in
    let e' : dotted ≡ next ++ render_path qs =
      e
      ∙ sym (
          ap (λ t. t ++ render_path qs) (append_assoc pre (dot ∷ []) (star ∷ []))
          ∙ append_assoc pre _ (render_path qs)) in
    run_from-dot dotted v path 0 pre (star ∷ render_path qs) p ready
    ∙ run_from-star dotted v path p.seg_begin here (render_path qs)
    ∙ run_from-path dotted next qs _ v (path ++ (wildcard ∷ [])) e' hq
        (Ready-star dotted v path p.seg_begin here)
    ∙ ap (λ t. ok (pattern_of v t)) (append_assoc path (wildcard ∷ []) qs)
run_from-path dotted pre (exact q ∷ qs) p v path e hq ready =
    let here = pre ++ (dot ∷ []) in
    let next = here ++ q.value in
    let (valid, valids) = both_true (is_ident q.value) (all_qualifiers qs) hq in
    let e' : dotted ≡ here ++ (q.value ++ render_path qs) =
      e ∙ sym (append_assoc pre (dot ∷ []) (q.value ++ render_path qs)) in
    run_from-dot dotted v path 0 pre (q.value ++ render_path qs) p ready
    ∙ run_from-segment dotted v path p.seg_begin here q.value (render_path qs) valid
    ∙ run_from-path dotted next qs _ v (path ++ (exact q ∷ []))
        (e' ∙ sym (append_assoc here q.value (render_path qs))) valids
        (Ready-ident dotted v path p.seg_begin here q.value (render_path qs) e')
    ∙ ap (λ t. ok (pattern_of v t)) (append_assoc path (exact q ∷ []) qs)

-- The parser reads every pattern of the grammar back from its text.
pub parse-render : (p : AttributePattern) → is_pattern p ≡ true → parse (render p) ≡ ok p
unfolding parse initial
parse-render p h =
    let (valid, valids) = both_true (is_ident p.variable) (all_qualifiers p.path) h in
    let text = render p in
    run_from-ident text 0 p.variable (render_path p.path) initial refl valid
    ∙ ap (λ i. run_from text i (render_path p.path) (inside initial 0)) (omega arith)
    ∙ run_from-path text p.variable p.path (inside initial 0) p.variable [] refl valids
        (Ready-root text [] [] 0 p.variable (render_path p.path) refl)
