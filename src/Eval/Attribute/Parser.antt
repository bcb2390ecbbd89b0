-- ===== src/Eval/Attribute/Parser.antt =====
-- eval/attribute.cc: the state machine behind `AttributePattern::Parse`. The message of an error
-- is kept as a constructor; `absl::ascii_isalpha` and its kin are those of the C locale.
pub mod Grammar
pub mod Sound
mod Runs
use cel_spec_wasm.Prelude.{
  ℕ, ◌+◌, ◌-◌, ◌≡◌, Bool, true, false, ◌&&◌, ◌||◌, not, List, [], ◌∷◌, ◌++◌, ltb, leb, ◌==◌,
  if◌then◌else◌, length, take, drop,
}
use cel_spec_wasm.Eval.Attribute.{AttributeQualifierPattern, wildcard, AttributePattern, of_string}

abbrev pub dot : ℕ
dot = 0x2e

abbrev pub star : ℕ
star = 0x2a

abbrev pub ascii_isalpha : ℕ → Bool
ascii_isalpha c = (leb 0x41 c && leb c 0x5a) || (leb 0x61 c && leb c 0x7a)

abbrev pub ascii_isdigit : ℕ → Bool
ascii_isdigit c = leb 0x30 c && leb c 0x39

abbrev pub ascii_isspace : ℕ → Bool
ascii_isspace c = (leb 0x09 c && leb c 0x0d) || (c == 0x20)

pub is_ident_start : ℕ → Bool
is_ident_start c = ascii_isalpha c || (c == 0x5f)

pub is_ident_cont : ℕ → Bool
is_ident_cont c = ascii_isalpha c || ascii_isdigit c || (c == 0x5f)

-- The messages of the parser.
pub data Message : Type 0 where
  empty_pattern : Message
  trailing_dot : Message
  star_as_root : Message
  empty_segment : Message
  adjacent_star : Message
  bracket : Message
  whitespace : Message
  unexpected : ℕ → Message

pub bad_char_reason : ℕ → Message
bad_char_reason c =
    if (c == 0x5b) || (c == 0x5d)
    then bracket
    else if ascii_isspace c
    then whitespace
    else unexpected c

pub data State : Type 0 where
  seg_start : State
  in_ident : State
  after_star : State

pub record PatternParser : Type 0 where
  pub variable : List ℕ
  pub path : List AttributeQualifierPattern
  pub have_root : Bool
  pub seg_begin : ℕ
  pub state : State

pub data StatusOr (A : Type 0) : Type 0 where
  ok : A → StatusOr A
  invalid_argument : Message → StatusOr A

pub initial : PatternParser
initial = record { variable = []; path = []; have_root = false; seg_begin = 0; state = seg_start }

pub commit : List ℕ → PatternParser → ℕ → Bool → PatternParser
commit dotted p end is_star =
    let seg = take (end - p.seg_begin) (drop p.seg_begin dotted) in
    if not p.have_root
    then record p { variable = seg; have_root = true }
    else if is_star
    then record p { path = p.path ++ (wildcard ∷ []) }
    else record p { path = p.path ++ (of_string seg ∷ []) }

pub step_seg_start : PatternParser → ℕ → ℕ → StatusOr PatternParser
step_seg_start p i c =
    if is_ident_start c
    then ok (record p { seg_begin = i; state = in_ident })
    else if (c == star) && p.have_root
    then ok (record p { seg_begin = i; state = after_star })
    else if c == star
    then invalid_argument star_as_root
    else if c == dot
    then invalid_argument empty_segment
    else invalid_argument (bad_char_reason c)

pub step_in_ident : List ℕ → PatternParser → ℕ → ℕ → StatusOr PatternParser
step_in_ident dotted p i c =
    if is_ident_cont c
    then ok p
    else if c == dot
    then ok (record (commit dotted p i false) { state = seg_start })
    else invalid_argument (bad_char_reason c)

pub step_after_star : List ℕ → PatternParser → ℕ → StatusOr PatternParser
step_after_star dotted p c =
    if not (c == dot)
    then invalid_argument adjacent_star
    else ok (record (commit dotted p (p.seg_begin + 1) true) { state = seg_start })

pub step : List ℕ → PatternParser → ℕ → ℕ → StatusOr PatternParser
step dotted p i c = elim p.state [
  | seg_start ↦ step_seg_start p i c
  | in_ident ↦ step_in_ident dotted p i c
  | after_star ↦ step_after_star dotted p c
]

-- The loop of `Run` from position `i` on, where `rest` stands, up to the end of the text.
pub run_loop : List ℕ → ℕ → List ℕ → PatternParser → StatusOr PatternParser
run_loop dotted i [] p = ok p
run_loop dotted i (c ∷ rest) p = elim (step dotted p i c) [
  | ok p' ↦ run_loop dotted (i + 1) rest p'
  | invalid_argument e ↦ invalid_argument e
]

is_after_star : State → Bool
is_after_star after_star = true
is_after_star _ = false

pub finish : List ℕ → PatternParser → StatusOr AttributePattern
unfolding is_after_star
finish dotted p = elim p.state [
  | seg_start ↦ invalid_argument (if length dotted == 0 then empty_pattern else trailing_dot)
  | _ ↦
      let p' = commit dotted p (length dotted) (is_after_star p.state) in
      ok (record { variable = p'.variable; path = p'.path })
]

-- `Run` from position `i` on.
pub run_from : List ℕ → ℕ → List ℕ → PatternParser → StatusOr AttributePattern
run_from dotted i rest p = elim (run_loop dotted i rest p) [
  | ok p' ↦ finish dotted p'
  | invalid_argument e ↦ invalid_argument e
]

-- `AttributePattern::Parse`, which is `PatternParser(dotted).Run()`.
pub parse : List ℕ → StatusOr AttributePattern
unfolding run_from
parse dotted = run_from dotted 0 dotted initial
