-- ===== src/Runtime/ThreeValued/Tables.antt =====
-- runtime/cel_3vl.c: `&&`, `||` and `!` against an order of the four verdicts.
use cel_spec_wasm.Prelude.{
  ℕ, ◌≡◌, true, false, ◌&&◌, ◌||◌, not, arith, min, ltb, ◌==◌, if◌then◌else◌,
}
use cel_spec_wasm.Runtime.Value.{
  CelValue, Arena, Memory, kind, cel_bool, cel_unknown, cel_error, payload_b, cel_unknown_merge,
  bool, error, err_type_mismatch,
}
use cel_spec_wasm.Runtime.Value.Merge.{is_merge, cel_unknown_merge-cell, cel_unknown_merge-is_merge}
use cel_spec_wasm.Runtime.ThreeValued.{cel_and, cel_or, cel_not, logic_unknown_error_tail}

-- The verdict of a cell. What is no bool, unknown or error is no verdict.
pub data Verdict : Type 0 where
  fails : Verdict
  holds : Verdict
  pending : Verdict
  faulty : Verdict
  foreign : Verdict

abbrev pub verdict : CelValue → Verdict
verdict v =
    if kind v == cel_bool
    then (if payload_b v == 0 then fails else holds)
    else if kind v == cel_unknown
    then pending
    else if kind v == cel_error
    then faulty
    else foreign

-- The order of `&&`: false < foreign < unknown < error < true. That of `||` is the same with true
-- and false exchanged.
abbrev pub rank : Verdict → ℕ
rank fails = 0
rank foreign = 1
rank pending = 2
rank faulty = 3
rank holds = 4

abbrev pub opposite : Verdict → Verdict
opposite fails = holds
opposite holds = fails
opposite pending = pending
opposite faulty = faulty
opposite foreign = foreign

-- The operand of the lower rank: the absorbing value at rank 0, a type error at rank 1, `merged` for
-- two of rank 2, and of two of rank 3 the left one.
abbrev pub lower : CelValue → CelValue → ℕ → CelValue → ℕ → CelValue → CelValue
lower absorbing merged p v q w =
    if min p q == 0
    then absorbing
    else if min p q == 1
    then error err_type_mismatch
    else if (p == 2) && (q == 2)
    then merged
    else if ltb q p || (p == 4)
    then w
    else v

abbrev pub conjunction : CelValue → CelValue → CelValue → CelValue
conjunction merged v w = lower (bool 0) merged (rank (verdict v)) v (rank (verdict w)) w

abbrev pub disjunction : CelValue → CelValue → CelValue → CelValue
disjunction merged v w =
    lower (bool 1) merged (rank (opposite (verdict v))) v (rank (opposite (verdict w))) w

abbrev pub negation : CelValue → CelValue
negation v = elim (verdict v) [
  | fails ↦ bool 1
  | holds ↦ bool 0
  | pending ↦ v
  | faulty ↦ v
  | foreign ↦ error err_type_mismatch
]

module _ (ar : Arena) (m : Memory ar.State) (out a b : ℕ) where
  and_lem :
      (cel_and ar m out a b).cell out
      ≡ conjunction ((cel_unknown_merge ar m out a b).cell out) (m.cell a) (m.cell b)
  unfolding cel_and logic_unknown_error_tail
  and_lem = ground arith

  or_lem :
      (cel_or ar m out a b).cell out
      ≡ disjunction ((cel_unknown_merge ar m out a b).cell out) (m.cell a) (m.cell b)
  unfolding cel_or logic_unknown_error_tail
  or_lem = ground arith

  not_lem : (cel_not ar m out a).cell out ≡ negation (m.cell a)
  unfolding cel_not
  not_lem = ground arith

  -- On any two cells `cel_and` writes the operand of the lower rank in the order false < foreign <
  -- unknown < error < true, and `cel_or` in the same order with true and false exchanged: the
  -- absorbing bool at the bottom, the error TYPE_MISMATCH for a foreign value, the left one of two
  -- errors, and for two unknowns what `cel_unknown_merge` writes, which is an unknown or the error
  -- OVERFLOW. `cel_not` writes the opposite bool, passes an error or an unknown, and writes
  -- TYPE_MISMATCH for a foreign value.
  pub logic_tables :
      ((cel_and ar m out a b).cell out
        ≡ conjunction ((cel_unknown_merge ar m out a b).cell out) (m.cell a) (m.cell b))
      × ((cel_or ar m out a b).cell out
          ≡ disjunction ((cel_unknown_merge ar m out a b).cell out) (m.cell a) (m.cell b))
      × ((cel_not ar m out a).cell out ≡ negation (m.cell a))
      × (not ((kind (m.cell a) == cel_unknown) && (kind (m.cell b) == cel_unknown))
            || is_merge ((cel_unknown_merge ar m out a b).cell out)
          ≡ true)
  logic_tables = (and_lem, or_lem, not_lem, cel_unknown_merge-is_merge ar m out a b)

  -- `&&` and `||` leave every cell but the output as it is.
  pub logic-cell :
      (x : ℕ)
      → (x == out) ≡ false
      → ((cel_and ar m out a b).cell x ≡ m.cell x) × ((cel_or ar m out a b).cell x ≡ m.cell x)
  unfolding cel_and cel_or logic_unknown_error_tail
  logic-cell x h = (
    ground (arith, cel_unknown_merge-cell ar m out a b x h),
    ground (arith, cel_unknown_merge-cell ar m out a b x h),
  )
